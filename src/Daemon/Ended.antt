-- ===== src/Daemon/Ended.antt =====
-- How a connection ends in the event loop of nbd/main.py.
use ps3_memorycard_adapter.Prelude.{
  ℕ, ◌≡◌, refl, ap, sym, ◌∙◌, subst, Bool, true, false, Option, none, some, if◌then◌else◌,
  key_error, os_error, Outcome, ok, raised, Action, and_then, ◌>>=◌, ◌>>◌, or_raise,
}
use ps3_memorycard_adapter.Dict.{nat_key, lookup, remove, lookup-remove_self}
use ps3_memorycard_adapter.Nbd.Wire.{Device, close}
use ps3_memorycard_adapter.Daemon.{
  Sock, nbd_server, sock_key, Handler, Daemon, Event, watches, without, unregister, fileno,
  on_server, call, del_socket, del_handler, close_sock, end_sock, on_event,
}
use ps3_memorycard_adapter.Daemon.Handled.{is_found, IsConsistent}

there : (o : Option Handler) → is_found o ≡ true → (h : Handler) × (o ≡ some h)
there none e = absurd cc
there (some h) e = (h, refl)

module _ {D : Type 0} where
  -- Neither dictionary has the socket.
  pub record Forgotten (fd id : ℕ) (s : Daemon D) : Type 0 where
    pub socket : lookup fd s.socket_dict ≡ none
    pub handler : lookup (nbd_server id) s.handler_dict ≡ none

  either :
      (fd id : ℕ) (t : Bool) (x y : Outcome (Unit {0}) × Daemon D)
      → Forgotten fd id (x.1)
      → Forgotten fd id (y.1)
      → Forgotten fd id ((if t then x else y).1)
  either fd id true x y p q = p
  either fd id false x y p q = q

  close_sock-Forgotten :
      (fd id : ℕ) (s : Daemon D)
      → Forgotten fd id s
      → Forgotten fd id ((close_sock (nbd_server id) s).1)
  unfolding close_sock
  close_sock-Forgotten fd id s p =
      either fd id ((s.clients id).wire.closed) (raised (os_error 9), s) (on_server id close s) p
        (record { socket = p.socket; handler = p.handler })

  unregister_watched :
      (n : ℕ) (s : Daemon D)
      → watches n s.registered ≡ true
      → unregister (some n) s ≡ (ok n, record s { registered = without n s.registered })
  unfolding unregister
  unregister_watched n s e =
      ap
        (λ (t : Bool).
          if t
          then (ok n, record s { registered = without n s.registered })
          else (raised (os_error 2), s))
        e

  del_socket_there :
      (n : ℕ) (k : Sock) (s : Daemon D)
      → lookup n s.socket_dict ≡ some k
      → del_socket n s ≡ (ok tt, record s { socket_dict = remove n s.socket_dict })
  unfolding del_socket
  del_socket_there n k s e =
      ap
        (λ o.
          and_then (or_raise o key_error s)
            (λ a s'. (ok tt, record s' { socket_dict = remove n s'.socket_dict })))
        e

  del_handler_there :
      (k : Sock) (h : Handler) (s : Daemon D)
      → lookup k s.handler_dict ≡ some h
      → del_handler k s ≡ (ok tt, record s { handler_dict = remove k s.handler_dict })
  unfolding del_handler
  del_handler_there k h s e =
      ap
        (λ o.
          and_then (or_raise o key_error s)
            (λ a s'. (ok tt, record s' { handler_dict = remove k s'.handler_dict })))
        e

  end_sock-Forgotten :
      (fd id : ℕ) (h : Handler) (s : Daemon D)
      → fileno (nbd_server id) s ≡ some fd
      → watches fd s.registered ≡ true
      → lookup fd s.socket_dict ≡ some (nbd_server id)
      → lookup (nbd_server id) s.handler_dict ≡ some h
      → Forgotten fd id ((end_sock (nbd_server id) s).1)
  unfolding end_sock
  end_sock-Forgotten fd id h s number watched known handled =
      let sock = nbd_server id in
      let s₁ : Daemon D = record s { registered = without fd s.registered } in
      let s₂ : Daemon D = record s₁ { socket_dict = remove fd s.socket_dict } in
      let s₃ : Daemon D = record s₂ { handler_dict = remove sock s.handler_dict } in
      subst (λ (x : Outcome (Unit {0}) × Daemon D). Forgotten fd id (x.1))
        (sym (
          ap
            (λ n.
              and_then (unregister n s)
                (λ k. del_socket k >> (del_handler sock >> close_sock sock)))
            number
          ∙ ap (λ x. and_then x (λ k. del_socket k >> (del_handler sock >> close_sock sock)))
              (unregister_watched fd s watched)
          ∙ ap (λ x. and_then x (λ _. del_handler sock >> close_sock sock))
              (del_socket_there fd sock s₁ known)
          ∙ ap (λ x. and_then x (λ _. close_sock sock)) (del_handler_there sock h s₂ handled)))
        (close_sock-Forgotten fd id s₃ (record {
          socket = lookup-remove_self fd s.socket_dict;
          handler = lookup-remove_self sock s.handler_dict;
        }))

  -- An event that is not only input, on a server whose socket is open and watched, in a consistent
  -- state, has the loop forget the server: neither dictionary has it after that.
  pub on_event-Forgotten :
      (dev : Device D) (rounds fuel : ℕ) (e : Event) (s : Daemon D) (id : ℕ)
      → IsConsistent s
      → lookup e.fd s.socket_dict ≡ some (nbd_server id)
      → (s.clients id).wire.closed ≡ false
      → watches e.fd s.registered ≡ true
      → e.only_in ≡ false
      → Forgotten e.fd id ((on_event dev rounds fuel e s).1)
  unfolding on_event
  on_event-Forgotten dev rounds fuel e s id p known still_open watched other =
      let sock = nbd_server id in
      let (h, handled) = there (lookup sock s.handler_dict) (p.handled e.fd sock known) in
      let number : fileno sock s ≡ some e.fd =
        ap (λ (t : Bool). if t then none else some ((s.clients id).number)) still_open
        ∙ ap (λ (n : ℕ). some n) (p.numbered e.fd id known) in
      let input : Action (Daemon D) (Unit {0}) = (do
        handler ← λ s'. or_raise (lookup sock s'.handler_dict) key_error s'
        call dev rounds fuel handler e) in
      let round : Sock → Action (Daemon D) (Unit {0}) = λ k.
        if e.only_in
        then (do
          handler ← λ s'. or_raise (lookup k s'.handler_dict) key_error s'
          call dev rounds fuel handler e)
        else end_sock k in
      subst (λ (x : Outcome (Unit {0}) × Daemon D). Forgotten e.fd id (x.1))
        (sym (
          ap (λ o. and_then (or_raise o key_error s) round) known
          ∙ ap (λ (t : Bool). (if t then input else end_sock sock) s) other))
        (end_sock-Forgotten e.fd id h s number watched known handled)
