-- ===== src/Nbd/Wire.antt =====
-- The world of an `NBDServer` (nbd/nbd.py): its socket and its device. A socket gives the bytes
-- that arrive in pieces; after the last of them the peer has ended the stream, and `recv` gives
-- `b''`. Sending succeeds.
use ps3_memorycard_adapter.Prelude.{
  ℕ, zero, suc, ◌-◌, Bool, true, Option, none, some, List, [], ◌∷◌, ◌++◌, length, take, drop, ltb,
  ◌==◌, if◌then◌else◌, Bytes, os_error, ok, raised, Action, pure, diverge, ◌>>=◌,
}

-- What the server asks of its `device`; `PlayStationMemoryCardReader` has these methods.
pub record Device (D : Type 0) : Type 0 where
  pub get_size : Action D (Option ℕ)
  pub get_page_size : Action D (Option ℕ)
  pub read : ℕ → ℕ → Action D Bytes
  pub write : ℕ → Bytes → Action D (Unit {0})

-- `shutdown_error` is the number of the `OSError` that a `shutdown` of the socket raises, if any.
-- `buffer` is what is received of a request: `_buffer` up to `_buffer_len`.
pub record World (D : Type 0) : Type 0 where
  pub device : D
  pub arrivals : List Bytes
  pub sent : Bytes
  pub closed : Bool
  pub shutdown_error : Option ℕ
  pub buffer : Bytes

-- `recv(n)`, `recv_into(view, n)`: a part of the first piece, and of it at most n bytes.
abbrev pub receive : ℕ → List Bytes → Bytes × List Bytes
receive n [] = ([], [])
receive n (piece ∷ rest) =
    (take n piece, if ltb n (length piece) then drop n piece ∷ rest else rest)

-- errno.ENOTCONN
abbrev pub enotconn : ℕ
enotconn = 107

module _ {D : Type 0} where
  -- A call of the device.
  unfoldable pub on_device : {A : Type 0} → Action D A → Action (World D) A
  on_device m w = let (r, d) = m w.device in (r, record w { device = d })

  unfoldable pub recv : ℕ → Action (World D) Bytes
  recv n w = let (b, rest) = receive n w.arrivals in (ok b, record w { arrivals = rest })

  -- `sendall(b)`
  unfoldable pub sendall : Bytes → Action (World D) (Unit {0})
  sendall b w = (ok tt, record w { sent = w.sent ++ b })

  -- `NBDServer.close`
  unfoldable pub close : Action (World D) (Unit {0})
  close w = elim w.shutdown_error [
    | none ↦ (ok tt, record w { closed = true })
    | some errno ↦ (if errno == enotconn then ok tt else raised (os_error errno), w)
  ]

  -- `_recvall`, after `result` has been received. A round may receive nothing.
  unfoldable pub recv_rest : ℕ → ℕ → Bytes → Action (World D) Bytes
  recv_rest zero len result = diverge
  recv_rest (suc fuel) len result =
      if ltb (length result) len
      then (do b ← recv (len - length result); recv_rest fuel len (result ++ b))
      else pure result

  -- `_recvall`
  unfoldable pub recvall : ℕ → ℕ → Action (World D) Bytes
  recvall fuel len = recv_rest fuel len []
