-- ===== src/Daemon/Events.antt =====
-- Events of the loop of nbd/main.py, one after the other.
use ps3_memorycard_adapter.Prelude.{
  ℕ, ◌<◌, ◌≡◌, ◌≢◌, refl, ap, sym, ◌∙◌, subst, some_eq, inl, inr, Bool, true, false, Option, none,
  some, List, [], ◌∷◌, arith, ◌==◌, ==_refl, ==_iff, Bool-cases, if◌then◌else◌, os_error, Outcome,
  ok, raised, Action, ◌>>◌, pure,
}
use ps3_memorycard_adapter.Dict.{nat_key, lookup}
use ps3_memorycard_adapter.Nbd.Wire.{Device, World, close}
use ps3_memorycard_adapter.Nbd.Handle.{handle}
use ps3_memorycard_adapter.Nbd.Greet.{greet}
use ps3_memorycard_adapter.Daemon.{
  Sock, nbd_sock, nbd_server, sock_key, Handler, accept_client, handle_of, Client, Daemon, Event,
  watches, set_client, register, unregister, fileno, on_server, construct, add_server, accept, call,
  del_socket, del_handler, close_sock, end_sock, on_event, on_events, start,
}
use ps3_memorycard_adapter.Daemon.Handled.{
  is_found, IsConsistent, Post, Any, Post-and_then, Post-Any, Post-or_raise, register-IsConsistent,
  set_client-Consistent, construct-Consistent, add_server-Consistent, del_socket-Consistent,
  del_handler-Consistent, removed,
}

set_client_number :
    (id : ℕ) (c : Client) (C : ℕ → Client) → (set_client id c C id).number ≡ c.number
set_client_number id c C = ap (λ (t : Bool). (if t then c else C id).number) (==_refl id)

module _ {D : Type 0} where
  Post-if :
      (t : Bool) (a b : Action (Daemon D) (Unit {0})) (s : Daemon D)
      → Post Any (a s)
      → Post Any (b s)
      → Post Any ((if t then a else b) s)
  Post-if true a b s p q = p
  Post-if false a b s p q = q

  on_server-IsConsistent :
      {A : Type 0} (id : ℕ) (m : Action (World D) A) (s : Daemon D)
      → IsConsistent s
      → IsConsistent ((on_server id m s).1)
  on_server-IsConsistent id m s p =
      set_client-Consistent s.socket_dict s.handler_dict s.clients s.made s.own_number id _ refl p

  either :
      (t : Bool) (x y : Outcome (Unit {0}) × Daemon D)
      → IsConsistent (x.1)
      → IsConsistent (y.1)
      → IsConsistent ((if t then x else y).1)
  either true x y p q = p
  either false x y p q = q

  close_sock-IsConsistent :
      (sock : Sock) (s : Daemon D) → IsConsistent s → IsConsistent ((close_sock sock s).1)
  unfolding close_sock
  close_sock-IsConsistent nbd_sock s p = p
  close_sock-IsConsistent (nbd_server id) s p =
      either ((s.clients id).wire.closed) (raised (os_error 9), s) (on_server id close s) p
        (on_server-IsConsistent id close s p)

  -- Only this number stands for the socket.
  abbrev Owns : Sock → ℕ → Daemon D → Type 0
  Owns sock n s = (fd : ℕ) → lookup fd s.socket_dict ≡ some sock → fd ≡ n

  unregister-Post :
      (n : Option ℕ) (sock : Sock) (s : Daemon D)
      → IsConsistent s
      → ((k : ℕ) → n ≡ some k → Owns sock k s)
      → Post (Owns sock) (unregister n s)
  unfolding unregister
  unregister-Post none sock s p owns = record { stays = p; returned = λ a h. absurd cc }
  unregister-Post (some k) sock s p owns = elim (Bool-cases (watches k s.registered)) [
    | inl e ↦ rw e (record { stays = p; returned = λ a h fd known. owns k refl fd known ∙ ok_eq h })
    | inr e ↦ rw e (record { stays = p; returned = λ a h. absurd cc })
  ]
    where
      ok_eq : {a b : ℕ} → ok a ≡ ok b → a ≡ b
      ok_eq h = cc

  fileno-Owns :
      (sock : Sock) (s : Daemon D) (k : ℕ) → IsConsistent s → fileno sock s ≡ some k → Owns sock k s
  fileno-Owns nbd_sock s k p e fd h = elim (Bool-cases s.own_closed) [
    | inl t ↦ let e' : none ≡ some k = rw t at e in absurd cc
    | inr t ↦ p.listening fd h ∙ some_eq (rw t at e)
  ]
  fileno-Owns (nbd_server id) s k p e fd h = elim (Bool-cases ((s.clients id).wire.closed)) [
    | inl t ↦ let e' : none ≡ some k = rw t at e in absurd cc
    | inr t ↦ sym (p.numbered fd id h) ∙ some_eq (rw t at e)
  ]

  abbrev Gone : Sock → Unit {0} → Daemon D → Type 0
  Gone sock a s = (fd : ℕ) → lookup fd s.socket_dict ≢ some sock

  del_socket-Post :
      (sock : Sock) (n : ℕ) (s : Daemon D)
      → IsConsistent s
      → Owns sock n s
      → Post (Gone sock) (del_socket n s)
  unfolding del_socket
  del_socket-Post sock n s p owns =
      Post-and_then (λ a s'. (lookup n s.socket_dict ≡ some a) × (s' ≡ s)) (Gone sock) _ _
        (Post-or_raise (lookup n s.socket_dict) s p)
        λ a s' q p'. record {
          stays =
              del_socket-Consistent s'.socket_dict s'.handler_dict s'.clients s'.made s'.own_number
                n p';
          returned = λ u h fd known.
              let (still, other) = removed fd n sock s'.socket_dict known in
              other (subst (Owns sock n) (sym (q.1)) owns fd still);
        }

  del_handler-Post :
      (sock : Sock) (s : Daemon D) → IsConsistent s → Gone sock tt s → Post Any (del_handler sock s)
  unfolding del_handler
  del_handler-Post sock s p gone =
      Post-and_then (λ a s'. (lookup sock s.handler_dict ≡ some a) × (s' ≡ s)) Any _ _
        (Post-or_raise (lookup sock s.handler_dict) s p)
        λ a s' q p'. Post-Any _ (
          del_handler-Consistent s'.socket_dict s'.handler_dict s'.clients s'.made s'.own_number
            sock (subst (Gone sock tt) (sym (q.1)) gone) p')

  end_sock-Post : (sock : Sock) (s : Daemon D) → IsConsistent s → Post Any (end_sock sock s)
  unfolding end_sock
  end_sock-Post sock s p =
      Post-and_then (Owns sock) Any (unregister (fileno sock s) s) _
        (unregister-Post (fileno sock s) sock s p (λ k e. fileno-Owns sock s k p e))
        λ n s₁ owns p₁.
          Post-and_then (Gone sock) Any (del_socket n s₁) _ (del_socket-Post sock n s₁ p₁ owns)
            λ u s₂ gone p₂.
              Post-and_then Any Any (del_handler sock s₂) _ (del_handler-Post sock s₂ p₂ gone)
                λ v s₃ t p₃. Post-Any (close_sock sock s₃) (close_sock-IsConsistent sock s₃ p₃)

  -- The server `id` is there, for the socket of this number.
  abbrev IsNew : ℕ → ℕ → Daemon D → Type 0
  IsNew id n s = ((s.clients id).number ≡ n) × (id < s.made)

  pub start-IsConsistent : (d : D) (clients : ℕ → Client) (n : ℕ) → IsConsistent (start d clients n)
  unfolding start
  start-IsConsistent d clients n = record {
    handled = λ fd k h.
        subst (λ j. is_found (lookup j ((nbd_sock, accept_client) ∷ [])) ≡ true) ((only n fd k h).1)
          refl;
    numbered = λ fd id h. let e = (only n fd (nbd_server id) h).1 in absurd cc;
    older = λ fd id h. let e = (only n fd (nbd_server id) h).1 in absurd cc;
    listening = λ fd h. (only n fd nbd_sock h).0;
  }
    where
      only :
          (n fd : ℕ) (k : Sock)
          → lookup fd ((n, nbd_sock) ∷ []) ≡ some k
          → (fd ≡ n) × (nbd_sock ≡ k)
      only n fd k h = elim (Bool-cases (fd == n)) [
        | inl t ↦ ((==_iff fd n).0 t, some_eq (rw t at h))
        | inr t ↦ let e : none ≡ some k = rw t at h in absurd cc
      ]

  module _ (dev : Device D) (rounds fuel : ℕ) where
    accept-Post :
        (n : ℕ) (wire : World (Unit {0})) (s : Daemon D)
        → IsConsistent s
        → Post Any (accept dev rounds fuel n wire s)
    unfolding accept
    accept-Post n wire s p =
        let id = s.made in
        let client : Client = record { number = n; wire = wire } in
        let s₁ = (construct n wire s).1 in
        let p₁ =
          construct-Consistent s.socket_dict s.handler_dict s.clients s.made s.own_number client
            p in
        Post-and_then (λ (g : Bool). IsNew id n) Any (on_server id (greet dev false rounds fuel) s₁)
          _
          (record {
            stays = on_server-IsConsistent id (greet dev false rounds fuel) s₁ p₁;
            returned = λ g h. (
              set_client_number id _ s₁.clients ∙ set_client_number id client s.clients,
              omega arith,
            );
          })
          λ g s₂ q p₂. greeted g id s₂ q p₂
      where
        greeted :
            (g : Bool) (id : ℕ) (s : Daemon D)
            → IsNew id n s
            → IsConsistent s
            → Post Any ((if g then (do add_server id n; register n) else pure tt) s)
        greeted true id s q p = Post-Any _ (
            register-IsConsistent n _ (
              add_server-Consistent s.socket_dict s.handler_dict s.clients s.made s.own_number id n
                (q.0) (q.1) p))
        greeted false id s q p = Post-Any _ p

    call-Post :
        (h : Handler) (e : Event) (s : Daemon D)
        → IsConsistent s
        → Post Any (call dev rounds fuel h e s)
    unfolding call
    call-Post accept_client e s p = accept-Post e.number e.wire s p
    call-Post (handle_of id) e s p =
        Post-and_then Any Any (on_server id (handle dev false fuel) s) _
          (Post-Any _ (on_server-IsConsistent id (handle dev false fuel) s p))
          λ b s' t p'. Post-Any _ p'

    on_event-Post :
        (e : Event) (s : Daemon D) → IsConsistent s → Post Any (on_event dev rounds fuel e s)
    unfolding on_event
    on_event-Post e s p =
        Post-and_then (λ k s'. (lookup e.fd s.socket_dict ≡ some k) × (s' ≡ s)) Any _ _
          (Post-or_raise (lookup e.fd s.socket_dict) s p)
          λ sock s₁ q p₁.
            Post-if e.only_in _ (end_sock sock) s₁
              (Post-and_then (λ h s'. (lookup sock s₁.handler_dict ≡ some h) × (s' ≡ s₁)) Any _ _
                (Post-or_raise (lookup sock s₁.handler_dict) s₁ p₁)
                λ h s₂ r p₂. call-Post h e s₂ p₂)
              (end_sock-Post sock s₁ p₁)

    on_events-Post :
        (es : List Event) (s : Daemon D)
        → IsConsistent s
        → Post Any (on_events dev rounds fuel es s)
    unfolding on_events
    on_events-Post [] s p = Post-Any _ p
    on_events-Post (e ∷ es) s p =
        Post-and_then Any Any (on_event dev rounds fuel e s) _ (on_event-Post e s p)
          λ u s' t p'. on_events-Post es s' p'

    -- From the start on, after any events, also if one of them raises: every socket that
    -- `socket_dict` has is one that `handler_dict` has a handler for, and a server stands in it
    -- under the number of its own socket.
    pub on_events-start :
        (es : List Event) (d : D) (clients : ℕ → Client) (n : ℕ)
        → IsConsistent ((on_events dev rounds fuel es (start d clients n)).1)
    on_events-start es d clients n =
        Post.stays (on_events-Post es (start d clients n) (start-IsConsistent d clients n))
