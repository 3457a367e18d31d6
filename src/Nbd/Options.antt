-- ===== src/Nbd/Options.antt =====
-- The options of nbd/nbd.py's negotiation: `_recvOption` and `_sendOption`.
use ps3_memorycard_adapter.Prelude.{
  ℕ, ◌^◌, Option, none, some, [], ◌∷◌, ◌++◌, length, take, slice, ltb, ◌==◌, ◌==ᵇ◌, if◌then◌else◌,
  Bytes, Action, pure, assert, ◌>>=◌, ◌>>◌,
}
use ps3_memorycard_adapter.Struct.{big, of_big}
use ps3_memorycard_adapter.Nbd.Wire.{World, sendall, recvall}

-- b'IHAVEOPT'
abbrev pub nbd_client_opt_magic : Bytes
nbd_client_opt_magic = 0x49 ∷ 0x48 ∷ 0x41 ∷ 0x56 ∷ 0x45 ∷ 0x4f ∷ 0x50 ∷ 0x54 ∷ []

abbrev pub nbd_server_opt_magic : Bytes
nbd_server_opt_magic = 0x00 ∷ 0x03 ∷ 0xe8 ∷ 0x89 ∷ 0x04 ∷ 0x55 ∷ 0x65 ∷ 0xa9 ∷ []

abbrev pub max_opt_size : ℕ
max_opt_size = 2 ^ 10

module _ {D : Type 0} where
  -- The value of an option: `none` is one that is too long, and is not received.
  unfoldable pub recv_value : ℕ → ℕ → Action (World D) (Option Bytes)
  recv_value fuel len =
      if len == 0
      then pure (some [])
      else if ltb max_opt_size len
      then pure none
      else (do b ← recvall fuel len; pure (some b))

  -- `_recvOption`
  unfoldable pub recv_option : ℕ → Action (World D) (ℕ × Option Bytes)
  recv_option fuel = do
    b ← recvall fuel 16
    assert (take 8 b ==ᵇ nbd_client_opt_magic)
    value ← recv_value fuel (of_big (slice 12 4 b))
    pure (of_big (slice 8 4 b), value)

  -- `_sendOption`
  unfoldable pub send_option : ℕ → ℕ → Bytes → Action (World D) (Unit {0})
  send_option option status value = do
    sendall nbd_server_opt_magic
    sendall (big 4 option ++ (big 4 status ++ big 4 (length value)))
    if length value == 0 then pure tt else sendall value
