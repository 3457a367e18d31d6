-- ===== src/Authenticator.antt =====
-- nbd/authenticator.py: `SockAuthenticator` and `CachedAuthenticator`, over the cache that
-- nbd/main.py gives to the first.
use ps3_memorycard_adapter.Prelude.{
  key_caught, ℕ, zero, suc, ◌-◌, ◌≡◌, ◌≢◌, refl, inl, inr, Bool, true, false, not, Option, none,
  some, List, [], ◌∷◌, ◌++◌, arith, length, take, drop, replicate, ◌==◌, ==_ne, ==_refl,
  if◌then◌else◌, Bytes, Exc, value_error, type_error, key_error, Outcome, ok, raised, no_fuel,
  and_then, Action, pure, raise, ◌>>=◌, ◌>>◌, Value, bytes, str, items, as_bytes,
}
pub mod Answers
use ps3_memorycard_adapter.Dict.{lookup, value_key}
use ps3_memorycard_adapter.Cache.{FileDictCache, get_item, set_item, tuple}

-- The socket of the authenticator, whose peer is the authentication server.
pub record Peer (N : Type 0) : Type 0 where
  pub connect : Action N (Unit {0})
  pub send : Bytes → Action N (Unit {0})
  pub recv : ℕ → Action N Bytes

pub record SockAuthenticator (N : Type 0) : Type 0 where
  pub cache : FileDictCache
  pub connected : Bool
  pub net : N

abbrev pub seed_length : ℕ
seed_length = 9

-- `text + value`, for a text.
abbrev pub str_add {ℓ} : {S : Type ℓ} → List ℕ → Value → Action S Value
str_add t (str u) = pure (str (t ++ u))
str_add t (bytes b) = raise type_error

-- The texts before and after the seed.
abbrev pub seed_header : List ℕ
seed_header = 0x55 ∷ 0x5a ∷ 0x0e ∷ 0 ∷ 0xff ∷ 0xff ∷ 0xff ∷ 0x2b ∷ []

abbrev pub seed_tail : List ℕ
seed_tail = 0xff ∷ []

module _ {N : Type 0} (peer : Peer N) where
  abbrev on_cache : {A : Type 0} → Action FileDictCache A → Action (SockAuthenticator N) A
  on_cache m w = let (r, c) = m w.cache in (r, record w { cache = c })

  abbrev on_net : {A : Type 0} → Action N A → Action (SockAuthenticator N) A
  on_net m w = let (r, n) = m w.net in (r, record w { net = n })

  -- `_connected` is set before the attempt.
  unfoldable pub connect_once : Action (SockAuthenticator N) (Unit {0})
  connect_once w =
      if w.connected then (ok tt, w) else on_net peer.connect (record w { connected = true })

  unfoldable pub recv_answer : Action (SockAuthenticator N) Value
  recv_answer = do b ← on_net (peer.recv 0x12); pure (bytes (drop 7 (take (length b - 2) b)))

  -- The answers of the server to a seed that is not in the cache.
  unfoldable pub ask_server : Value → Action (SockAuthenticator N) (List Value)
  ask_server seed = if not (length (items seed) == seed_length) then raise value_error else (do
    connect_once
    begun ← str_add seed_header seed
    message ← str_add (items begun) (str seed_tail)
    b ← as_bytes message
    on_net (peer.send b)
    first ← recv_answer
    second ← recv_answer
    third ← recv_answer
    let result = first ∷ second ∷ third ∷ []
    on_cache (set_item seed (tuple result))
    pure result)

  -- `SockAuthenticator.authenticate`
  unfoldable pub sock_authenticate : Value → Action (SockAuthenticator N) (List Value)
  sock_authenticate seed = do
    found ← λ w. key_caught (on_cache (get_item seed) w)
    elim found [ some result ↦ pure result | none ↦ ask_server seed ]

-- `CachedAuthenticator.authenticate`; its sleep is left out.
unfoldable pub cached_authenticate : Value → Action FileDictCache (List Value)
cached_authenticate seed = do
  found ← λ c. key_caught (get_item seed c)
  elim found [ some result ↦ pure result | none ↦ pure (replicate 3 (str (replicate 9 0))) ]
