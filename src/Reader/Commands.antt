-- ===== src/Reader/Commands.antt =====
-- The commands of `PlayStationMemoryCardReader` that the authentication is made of.
use ps3_memorycard_adapter.Prelude.{
  ℕ, ◌+◌, ◌-◌, Bool, true, false, Option, none, some, [], ◌∷◌, ◌++◌, length, take, drop, get_elem?,
  ◌==ᵇ◌, ◌==◌, ltb, if◌then◌else◌, Bytes, struct_error, index_error, assertion_error, Action, pure,
  raise, or_raise, assert, ◌>>=◌, ◌>>◌, Value, bytes, items, as_bytes,
}
use ps3_memorycard_adapter.Reader.Host.{Host}
use ps3_memorycard_adapter.Reader.Packets.{
  pad_command, hexdump, strip_response, response_read, long_response_read, command_write,
  long_command_write, response_status_success,
}

-- `pack('b', n)`, for an n that is not negative
abbrev pub pack_b : ℕ → Option Bytes
pack_b n = if ltb n 128 then some (n ∷ []) else none

-- `data[i]`, and `data[-1]`
abbrev pub byte_at : {D : Type 0} → Bytes → ℕ → Action D ℕ
byte_at b i = or_raise (get_elem? b i) index_error

abbrev pub last_byte : {D : Type 0} → Bytes → Action D ℕ
last_byte [] = raise index_error
last_byte (x ∷ b) = byte_at (x ∷ b) (length b)

-- `response[1:-1]`
abbrev pub inner : Bytes → Bytes
inner b = drop 1 (take (length b - 1) b)

module _ {D : Type 0} (host : Host D) (fuel : ℕ) where
  -- `getCardType`
  unfoldable pub get_card_type : Action D ℕ
  get_card_type = do
    command_write host (bytes (0x40 ∷ []))
    response ← response_read host
    assert (length response == 1)
    byte_at response 0

  -- A long command, its response, and the check that the response is a success.
  unfoldable pub long_exchange : Bytes → Action D Bytes
  long_exchange command = do
    long_command_write host (bytes command)
    (status, b) ← long_response_read host fuel
    assert (status ==ᵇ response_status_success)
    pure b

  -- The same with a fixed answer behind the stuffing: `__8128`, `__8127`, `__81f3` and `__81f7`.
  unfoldable pub fixed_exchange : Bytes → ℕ → Bytes → Action D (Unit {0})
  fixed_exchange command padding expected = do
    b ← long_exchange command
    response ← strip_response b padding
    assert (response ==ᵇ expected)

  -- The same with an answer between a first and a last byte: `__recv_81f0` and `__8126`.
  unfoldable pub framed_exchange : Bytes → ℕ → ℕ → Action D Bytes
  framed_exchange command padding last = do
    b ← long_exchange command
    response ← strip_response b padding
    first ← byte_at response 0
    assert (first == 0x2b)
    end ← last_byte response
    assert (end == last)
    pure (inner response)

  -- `isAuthenticated`
  unfoldable pub is_authenticated : Action D Bool
  is_authenticated = do
    long_command_write host (bytes (pad_command (0x81 ∷ 0x11 ∷ []) 2))
    (status, b) ← long_response_read host fuel
    if status ==ᵇ (0xaf ∷ []) then pure false else (do
      assert (status ==ᵇ response_status_success)
      response ← strip_response b 2
      assert (response ==ᵇ (0x2b ∷ 0x55 ∷ []))
      pure true)

  -- `__81f0`
  unfoldable pub step_81f0 : ℕ → Action D Bool
  step_81f0 seq_number = do
    packed ← or_raise (pack_b seq_number) struct_error
    long_command_write host (bytes (pad_command (0x81 ∷ 0xf0 ∷ packed) 2))
    (status, b) ← long_response_read host fuel
    if status ==ᵇ response_status_success
        then (do response ← strip_response b 2; assert (response ==ᵇ (0x2b ∷ 0xff ∷ [])); pure true)
        else pure false

  -- `__recv_81f0`
  unfoldable pub recv_81f0 : ℕ → ℕ → Action D Bytes
  recv_81f0 seq_number len = do
    packed ← or_raise (pack_b seq_number) struct_error
    framed_exchange (pad_command (0x81 ∷ 0xf0 ∷ packed) (len + 2)) (len + 2) 0xff

  -- `assert len(data) == 9, hexdump(data)`
  unfoldable pub assert_nine : Value → Action D (Unit {0})
  assert_nine value =
      if length (items value) == 9 then pure tt else hexdump value >>= λ _. raise assertion_error

  -- `__send_81f0`
  unfoldable pub send_81f0 : ℕ → Value → Action D (Unit {0})
  send_81f0 seq_number value = do
    assert_nine value
    packed ← or_raise (pack_b seq_number) struct_error
    b ← as_bytes value
    fixed_exchange (pad_command (0x81 ∷ 0xf0 ∷ (packed ++ b)) 2) 2 (0x2b ∷ 0xff ∷ [])

  -- `__8128`
  unfoldable pub step_8128 : Action D (Unit {0})
  step_8128 = fixed_exchange (pad_command (0x81 ∷ 0x28 ∷ []) 3) 3 (0x2b ∷ 0xff ∷ 0xff ∷ [])

  -- `__8127`
  unfoldable pub step_8127 : Action D (Unit {0})
  step_8127 = fixed_exchange (pad_command (0x81 ∷ 0x27 ∷ 0x55 ∷ []) 2) 2 (0x2b ∷ 0x55 ∷ [])

  -- `__8126`
  unfoldable pub step_8126 : Action D Bytes
  step_8126 = framed_exchange (pad_command (0x81 ∷ 0x26 ∷ []) 11) 11 0x55

  -- `__8158`
  unfoldable pub step_8158 : Action D (Unit {0})
  step_8158 = do
    long_command_write host (bytes (0x81 ∷ 0x58 ∷ 0 ∷ 0 ∷ 0 ∷ []))
    (status, b) ← long_response_read host fuel
    assert (status ==ᵇ (0xaf ∷ []))

  -- `__81f3`
  unfoldable pub step_81f3 : Action D (Unit {0})
  step_81f3 = fixed_exchange (pad_command (0x81 ∷ 0xf3 ∷ 0 ∷ []) 2) 2 (0x2b ∷ 0xff ∷ [])

  -- `__81f7`
  unfoldable pub step_81f7 : Action D (Unit {0})
  step_81f7 = fixed_exchange (pad_command (0x81 ∷ 0xf7 ∷ 1 ∷ []) 2) 2 (0x2b ∷ 0xff ∷ [])

  -- `getRandomNumber`, `sendAuthPart1` to `3` and `recvAuthPart1` to `3`, with their default
  -- sequence numbers.
  unfoldable pub get_random_number : Action D Bytes
  get_random_number = recv_81f0 4 9

  unfoldable pub send_auth_part1 : Value → Action D (Unit {0})
  send_auth_part1 = send_81f0 6

  unfoldable pub send_auth_part2 : Value → Action D (Unit {0})
  send_auth_part2 = send_81f0 7

  unfoldable pub send_auth_part3 : Value → Action D (Unit {0})
  send_auth_part3 = send_81f0 0xb

  unfoldable pub recv_auth_part1 : Action D Bytes
  recv_auth_part1 = recv_81f0 0xf 9

  unfoldable pub recv_auth_part2 : Action D Bytes
  recv_auth_part2 = recv_81f0 0x11 9

  unfoldable pub recv_auth_part3 : Action D Bytes
  recv_auth_part3 = recv_81f0 0x13 9
