-- ===== src/Tests/Authenticator.antt =====
-- Runs of the authenticator's theorems at concrete inputs.
use ps3_memorycard_adapter.Prelude.{
  ◌≡◌, ◌≢◌, refl, false, true, List, [], ◌∷◌, replicate, arith, ok, Value, bytes,
}
use ps3_memorycard_adapter.Authenticator.{
  Peer, SockAuthenticator, sock_authenticate, cached_authenticate,
}
use ps3_memorycard_adapter.Cache.{init}
use ps3_memorycard_adapter.Cache.Format.{encode, Fits}
use ps3_memorycard_adapter.Cache.Reload.{init-encode}
use ps3_memorycard_adapter.Dict.{value_key}
use ps3_memorycard_adapter.Authenticator.Answers.{sock_authenticate-init, sock_authenticate-unknown}

-- A server that is always there, and sends zeros.
abbrev zeros : Peer (Unit {0})
zeros = record {
  connect = λ n. (ok tt, n);
  send = λ b n. (ok tt, n);
  recv = λ len n. (ok (replicate len 0), n);
}

abbrev three_answers : List Value
three_answers = bytes (1 ∷ []) ∷ bytes (2 ∷ []) ∷ bytes (3 ∷ []) ∷ []

abbrev with_seed : SockAuthenticator (Unit {0})
with_seed = record {
  cache = record {
    read_only = true;
    cache = (bytes (replicate 9 7), three_answers) ∷ [];
    to_save = [];
    file = [];
  };
  connected = false;
  net = tt;
}

-- Two records of the seed, and one of another.
abbrev three_records : List (Value × List Value)
three_records =
    (bytes (replicate 9 7), bytes (9 ∷ []) ∷ [])
    ∷ (bytes (replicate 9 7), three_answers)
    ∷ (bytes (replicate 9 6), [])
    ∷ []

abbrev loaded : SockAuthenticator (Unit {0})
loaded = record {
  cache = record {
    read_only = true;
    cache = (bytes (replicate 9 7), three_answers) ∷ (bytes (replicate 9 6), []) ∷ [];
    to_save = [];
    file = encode three_records;
  };
  connected = false;
  net = tt;
}

three_records-Fits : Fits three_records
three_records-Fits = (
  omega arith,
  omega arith,
  (omega arith, tt),
  (
    omega arith,
    omega arith,
    (omega arith, (omega arith, (omega arith, tt))),
    (omega arith, omega arith, tt, tt),
  ),
)

records_loaded : init (encode three_records) true ≡ ok loaded.cache
records_loaded = init-encode three_records true three_records-Fits

sock_authenticate-init_example :
    (sock_authenticate zeros (bytes (replicate 9 7)) loaded ≡ (ok three_answers, loaded))
    × (cached_authenticate (bytes (replicate 9 7)) loaded.cache ≡ (ok three_answers, loaded.cache))
sock_authenticate-init_example =
    sock_authenticate-init zeros ((bytes (replicate 9 7), bytes (9 ∷ []) ∷ []) ∷ [])
      ((bytes (replicate 9 6), []) ∷ []) (bytes (replicate 9 7)) three_answers true loaded
      three_records-Fits ((λ e. cc), tt) records_loaded

sock_authenticate-unknown_example :
    (sock_authenticate zeros (bytes (replicate 9 8)) with_seed).0 ≢ ok three_answers
sock_authenticate-unknown_example =
    sock_authenticate-unknown zeros (bytes (replicate 9 8)) three_answers with_seed refl
