-- ===== src/Daemon/Handled.antt =====
-- The two dictionaries of the event loop of nbd/main.py, and when they fit together.
use ps3_memorycard_adapter.Prelude.{
  ◌⊎◌, ℕ, suc, ◌<◌, ◌≡◌, ◌≢◌, refl, ap, sym, ◌∙◌, subst, some_eq, inl, inr, Bool, true, false,
  Option, none, some, arith, ◌==◌, ==_iff, ==→ne, ==_ne, Bool-cases, if◌then◌else◌, key_error,
  Outcome, ok, raised, no_fuel, Action, and_then, or_raise,
}
use ps3_memorycard_adapter.Dict.{
  nat_key, Dict, lookup, insert, remove, lookup-insert_self, lookup-insert_ne, lookup-remove_self,
  lookup-remove_ne,
}
use ps3_memorycard_adapter.Daemon.{
  Sock, nbd_sock, nbd_server, sock_key, Handler, handle_of, Client, Daemon, watches, set_client,
  register,
}

abbrev pub is_found : Option Handler → Bool
is_found none = false
is_found (some h) = true

-- Every socket of `socket_dict` has a handler, and stands under its own number.
pub record Consistent (sockets : Dict ℕ Sock) (handlers : Dict Sock Handler) (clients : ℕ → Client)
    (made own_number : ℕ) : Type 0 where
  pub handled :
      (fd : ℕ) (sock : Sock)
      → lookup fd sockets ≡ some sock
      → is_found (lookup sock handlers) ≡ true
  pub numbered : (fd id : ℕ) → lookup fd sockets ≡ some (nbd_server id) → (clients id).number ≡ fd
  pub older : (fd id : ℕ) → lookup fd sockets ≡ some (nbd_server id) → id < made
  pub listening : (fd : ℕ) → lookup fd sockets ≡ some nbd_sock → fd ≡ own_number

module _ {D : Type 0} where
  abbrev pub IsConsistent : Daemon D → Type 0
  IsConsistent s = Consistent s.socket_dict s.handler_dict s.clients s.made s.own_number

  -- After a call: the state is consistent, and what it returned is related to it.
  pub record Post {A : Type 0} (Q : A → Daemon D → Type 0) (x : Outcome A × Daemon D) : Type 0 where
    pub stays : IsConsistent (x.1)
    pub returned : (a : A) → x.0 ≡ ok a → Q a (x.1)

  pub Post-and_then :
      {A B : Type 0} (Q : A → Daemon D → Type 0) (R : B → Daemon D → Type 0)
      (x : Outcome A × Daemon D) (f : A → Action (Daemon D) B)
      → Post Q x
      → ((a : A) (s : Daemon D) → Q a s → IsConsistent s → Post R (f a s))
      → Post R (and_then x f)
  Post-and_then Q R (ok a, s) f p k = k a s (p.returned a refl) p.stays
  Post-and_then Q R (raised e, s) f p k = record { stays = p.stays; returned = λ a h. absurd cc }
  Post-and_then Q R (no_fuel, s) f p k = record { stays = p.stays; returned = λ a h. absurd cc }

  -- Nothing is said of what is returned.
  abbrev pub Any : {A : Type 0} → A → Daemon D → Type 0
  Any a s = Unit

  pub Post-Any : {A : Type 0} (x : Outcome A × Daemon D) → IsConsistent (x.1) → Post Any x
  Post-Any x c = record { stays = c; returned = λ a h. tt }

  pub Post-or_raise :
      {A : Type 0} (o : Option A) (s : Daemon D)
      → IsConsistent s
      → Post (λ a s'. (o ≡ some a) × (s' ≡ s)) (or_raise o key_error s)
  Post-or_raise none s c = record { stays = c; returned = λ a h. absurd cc }
  Post-or_raise {A = A} (some a) s c = record {
    stays = c;
    returned = λ b h. (ap some (ok_eq h), refl);
  }
    where
      ok_eq : {a b : A} → ok a ≡ ok b → a ≡ b
      ok_eq h = cc

  pub register-IsConsistent :
      (n : ℕ) (s : Daemon D) → IsConsistent s → IsConsistent ((register n s).1)
  unfolding register
  register-IsConsistent n s c = elim (Bool-cases (watches n s.registered)) [
    | inl e ↦ rw e c
    | inr e ↦ rw e c
  ]

-- A server that keeps its number.
pub set_client-Consistent :
    (S : Dict ℕ Sock) (H : Dict Sock Handler) (C : ℕ → Client) (made own id : ℕ) (c : Client)
    → c.number ≡ (C id).number
    → Consistent S H C made own
    → Consistent S H (set_client id c C) made own
set_client-Consistent S H C made own id c e p = record {
  handled = p.handled;
  numbered = λ fd j h. same_number j ∙ p.numbered fd j h;
  older = p.older;
  listening = p.listening;
}
  where
    same_number : (j : ℕ) → (set_client id c C j).number ≡ (C j).number
    same_number j = elim (Bool-cases (j == id)) [
      | inl same ↦ rw same (e ∙ ap (λ k. (C k).number) (sym ((==_iff j id).0 same)))
      | inr other ↦ rw other refl
    ]

-- A server that was just constructed.
pub construct-Consistent :
    (S : Dict ℕ Sock) (H : Dict Sock Handler) (C : ℕ → Client) (made own : ℕ) (c : Client)
    → Consistent S H C made own
    → Consistent S H (set_client made c C) (suc made) own
construct-Consistent S H C made own c p = record {
  handled = p.handled;
  numbered = λ fd j h.
      let lt = p.older fd j h in
      ap (λ (t : Bool). (if t then c else C j).number) (==_ne j made (omega arith))
      ∙ p.numbered fd j h;
  older = λ fd j h. let lt = p.older fd j h in omega arith;
  listening = p.listening;
}

-- What stands in a dictionary after one change of it.
inserted :
    (fd n : ℕ) (v k : Sock) (S : Dict ℕ Sock)
    → lookup fd (insert n v S) ≡ some k
    → ((fd ≡ n) × (v ≡ k)) ⊎ (lookup fd S ≡ some k)
inserted fd n v k S h = elim (Bool-cases (fd == n)) [
  | inl same ↦
      let e = (==_iff fd n).0 same in
      inl (
        e,
        some_eq
            (sym (lookup-insert_self n v S) ∙ ap (λ (j : ℕ). lookup j (insert n v S)) (sym e) ∙ h),
      )
  | inr other ↦ inr (sym (lookup-insert_ne fd n v S (==→ne fd n other)) ∙ h)
]

pub removed :
    (fd n : ℕ) (k : Sock) (S : Dict ℕ Sock)
    → lookup fd (remove n S) ≡ some k
    → (lookup fd S ≡ some k) × (fd ≢ n)
removed fd n k S h = elim (Bool-cases (fd == n)) [
  | inl same ↦
      let e = (==_iff fd n).0 same in
      let gone = sym (lookup-remove_self n S) ∙ ap (λ (j : ℕ). lookup j (remove n S)) (sym e) ∙ h in
      absurd cc
  | inr other ↦ let ne = ==→ne fd n other in (sym (lookup-remove_ne fd n S ne) ∙ h, ne)
]

handler_ne :
    (a b : Sock) (h : Handler) (H : Dict Sock Handler)
    → is_found (lookup a H) ≡ true
    → is_found (lookup a (insert b h H)) ≡ true
handler_ne a b h H found = elim (Bool-cases (sock_key.same a b)) [
  | inl same ↦ rw ((sock_key.same_iff a b).0 same) (rw (lookup-insert_self b h H) refl)
  | inr other ↦ rw (lookup-insert_ne a b h H (λ e. let t = (sock_key.same_iff a b).1 e in cc)) found
]

server_eq : {i j : ℕ} → nbd_server i ≡ nbd_server j → i ≡ j
server_eq e = cc

pub add_server-Consistent :
    (S : Dict ℕ Sock) (H : Dict Sock Handler) (C : ℕ → Client) (made own id n : ℕ)
    → (C id).number ≡ n
    → id < made
    → Consistent S H C made own
    → Consistent (insert n (nbd_server id) S) (insert (nbd_server id) (handle_of id) H) C made own
add_server-Consistent S H C made own id n e lt p = record {
  handled = λ fd k h. elim (inserted fd n (nbd_server id) k S h) [
    | inl t ↦
        subst (λ j. is_found (lookup j (insert (nbd_server id) (handle_of id) H)) ≡ true) (t.1)
          (rw (lookup-insert_self (nbd_server id) (handle_of id) H) refl)
    | inr t ↦ handler_ne k (nbd_server id) (handle_of id) H (p.handled fd k t)
  ];
  numbered = λ fd j h. elim (inserted fd n (nbd_server id) (nbd_server j) S h) [
    | inl t ↦ ap (λ k. (C k).number) (sym (server_eq (t.1))) ∙ e ∙ sym (t.0)
    | inr t ↦ p.numbered fd j t
  ];
  older = λ fd j h. elim (inserted fd n (nbd_server id) (nbd_server j) S h) [
    | inl t ↦ subst (λ k. k < made) (server_eq (t.1)) lt
    | inr t ↦ p.older fd j t
  ];
  listening = λ fd h. elim (inserted fd n (nbd_server id) nbd_sock S h) [
    | inl t ↦ let e' = t.1 in absurd cc
    | inr t ↦ p.listening fd t
  ];
}

pub del_socket-Consistent :
    (S : Dict ℕ Sock) (H : Dict Sock Handler) (C : ℕ → Client) (made own n : ℕ)
    → Consistent S H C made own
    → Consistent (remove n S) H C made own
del_socket-Consistent S H C made own n p = record {
  handled = λ fd k h. p.handled fd k ((removed fd n k S h).0);
  numbered = λ fd j h. p.numbered fd j ((removed fd n (nbd_server j) S h).0);
  older = λ fd j h. p.older fd j ((removed fd n (nbd_server j) S h).0);
  listening = λ fd h. p.listening fd ((removed fd n nbd_sock S h).0);
}

-- The handler of a socket that is not known any more.
pub del_handler-Consistent :
    (S : Dict ℕ Sock) (H : Dict Sock Handler) (C : ℕ → Client) (made own : ℕ) (sock : Sock)
    → ((fd : ℕ) → lookup fd S ≢ some sock)
    → Consistent S H C made own
    → Consistent S (remove sock H) C made own
del_handler-Consistent S H C made own sock gone p = record {
  handled = λ fd k h.
      rw (lookup-remove_ne k sock H (λ e. gone fd (subst (λ j. lookup fd S ≡ some j) e h)))
        (p.handled fd k h);
  numbered = p.numbered;
  older = p.older;
  listening = p.listening;
}
