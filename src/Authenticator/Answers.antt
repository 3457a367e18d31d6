-- ===== src/Authenticator/Answers.antt =====
-- What `SockAuthenticator` answers.
use ps3_memorycard_adapter.Prelude.{
  ◌≡◌, ◌≢◌, refl, ap, sym, ◌∙◌, [], ◌∷◌, ◌++◌, Bool, inl, inr, some, none, List, length, ◌==◌,
  Bool-cases, Outcome, ok, raised, no_fuel, and_then, Action, Value, bytes, str,
}
use ps3_memorycard_adapter.Dict.{
  lookup, insert, update, lookup-insert_self, lookup-insert_ne, value_key,
}
use ps3_memorycard_adapter.Cache.{Entries, init, get_item}
use ps3_memorycard_adapter.Cache.Format.{encode, Fits}
use ps3_memorycard_adapter.Cache.Reload.{init-encode}
use ps3_memorycard_adapter.Authenticator.{
  Peer, SockAuthenticator, seed_length, connect_once, ask_server, sock_authenticate,
  cached_authenticate,
}

ok_eq : {A : Type 0} {a b : A} → ok a ≡ ok b → a ≡ b
ok_eq e = cc

-- No record of a seed.
abbrev pub HasNo : Value → List (Value × List Value) → Type 0
HasNo seed [] = Unit
HasNo seed ((key, vs) ∷ es) = (seed ≢ key) × HasNo seed es

update-HasNo :
    (seed : Value) (es : List (Value × List Value)) (d : Entries)
    → HasNo seed es
    → lookup seed (update es d) ≡ lookup seed d
update-HasNo seed [] d h = refl
update-HasNo seed ((key, vs) ∷ es) d h =
    update-HasNo seed es (insert key vs d) h.1 ∙ lookup-insert_ne seed key vs d h.0

-- The last record of a seed is what a dictionary of the records has.
update-last :
    (before after : List (Value × List Value)) (seed : Value) (vs : List Value) (d : Entries)
    → HasNo seed after
    → lookup seed (update (before ++ (seed, vs) ∷ after) d) ≡ some vs
update-last [] after seed vs d h =
    update-HasNo seed after (insert seed vs d) h ∙ lookup-insert_self seed vs d
update-last ((key, us) ∷ before) after seed vs d h =
    update-last before after seed vs (insert key us d) h

module _ {N : Type 0} (peer : Peer N) where
  -- Of a cache that was loaded from a file of records in its format, all of which fit, both
  -- authenticators answer a seed with the values of its last record, and change nothing: the server
  -- is not asked.
  pub sock_authenticate-init :
      (before after : List (Value × List Value)) (seed : Value) (vs : List Value) (read_only : Bool)
      (w : SockAuthenticator N)
      → Fits (before ++ (seed, vs) ∷ after)
      → HasNo seed after
      → init (encode (before ++ (seed, vs) ∷ after)) read_only ≡ ok w.cache
      → (sock_authenticate peer seed w ≡ (ok vs, w))
        × (cached_authenticate seed w.cache ≡ (ok vs, w.cache))
  unfolding sock_authenticate cached_authenticate get_item
  sock_authenticate-init before after seed vs read_only w fits alone loaded =
      let es = before ++ (seed, vs) ∷ after in
      let c = ok_eq (sym (init-encode es read_only fits) ∙ loaded) in
      let found : lookup seed w.cache.cache ≡ some vs =
        ap (λ k. lookup seed k.cache) (sym c) ∙ update-last before after seed vs [] alone in
      (rw found refl, rw found refl)

  after_connect :
      {A B : Type 0} (x : Outcome A × SockAuthenticator N) (f : A → Action (SockAuthenticator N) B)
      (b : B)
      → ((a : A) (w : SockAuthenticator N) → (f a w).0 ≢ ok b)
      → (and_then x f).0 ≢ ok b
  after_connect (ok a, w) f b h = h a w
  after_connect (raised e, w) f b h = λ k. cc
  after_connect (no_fuel, w) f b h = λ k. cc

  ask_server-Fails :
      (seed : Value) (vs : List Value) (w : SockAuthenticator N)
      → (ask_server peer seed w).0 ≢ ok vs
  unfolding ask_server
  ask_server-Fails (bytes b) vs w = elim (Bool-cases (length b == seed_length)) [
    | inr wrong ↦ rw wrong (λ k. cc)
    | inl right ↦ rw right (after_connect (connect_once peer w) _ vs λ _ w' k. cc)
  ]
  ask_server-Fails (str t) vs w = elim (Bool-cases (length t == seed_length)) [
    | inr wrong ↦ rw wrong (λ k. cc)
    | inl right ↦ rw right (after_connect (connect_once peer w) _ vs λ _ w' k. cc)
  ]

  -- A seed that the cache does not have is never answered, whatever the server does: the call
  -- raises, or does not end.
  pub sock_authenticate-unknown :
      (seed : Value) (vs : List Value) (w : SockAuthenticator N)
      → lookup seed w.cache.cache ≡ none
      → (sock_authenticate peer seed w).0 ≢ ok vs
  unfolding sock_authenticate get_item
  sock_authenticate-unknown seed vs w h = rw h (ask_server-Fails seed vs w)
