-- ===== src/Reader/Packets.antt =====
-- The read and write helpers of `PlayStationMemoryCardReader`. `fuel` bounds the rounds of a loop
-- that goes on for as long as the device makes it.
use ps3_memorycard_adapter.Prelude.{
  ℕ, zero, suc, ◌-◌, [], ◌∷◌, ◌++◌, length, take, drop, slice, replicate, ◌==ᵇ◌, if◌then◌else◌,
  Bytes, value_error, struct_error, type_error, Action, pure, raise, diverge, or_raise, assert,
  ◌>>=◌, ◌>>◌, Value, bytes, str, items, as_bytes,
}
use ps3_memorycard_adapter.Prelude.Int.{ℤ, pos, ltb_ℤ, ◌+ℤ◌}
use ps3_memorycard_adapter.Struct.{unpack_little_h, pack_little_h}
use ps3_memorycard_adapter.Reader.Host.{Host}

abbrev pub bulk_write_endpoint : ℕ
bulk_write_endpoint = 2

abbrev pub bulk_read_endpoint : ℕ
bulk_read_endpoint = 1

abbrev pub bulk_read_length : ℕ
bulk_read_length = 64

abbrev pub command_code : Bytes
command_code = 0xaa ∷ []

abbrev pub command_type_long : Bytes
command_type_long = 0x42 ∷ []

abbrev pub response_code : Bytes
response_code = 0x55 ∷ []

abbrev pub response_status_success : Bytes
response_status_success = 0x5a ∷ []

-- `_padCommand`
unfoldable pub pad_command : Bytes → ℕ → Bytes
pad_command command padding = command ++ replicate padding 0

-- `hexdump`, which an assertion calls on what it fails on: it formats bytes, and raises on text.
unfoldable pub hexdump {ℓ} : {S : Type ℓ} → Value → Action S (Unit {0})
hexdump (bytes b) = pure tt
hexdump (str []) = pure tt
hexdump (str (c ∷ t)) = raise type_error

module _ {D : Type 0} where
  -- `_stripResponse`: the last `padding` bytes, behind stuffing.
  unfoldable pub strip_response : Bytes → ℕ → Action D Bytes
  strip_response response padding =
      let stuffing = take (length response - padding) response in
      do
        assert (stuffing ==ᵇ replicate (length stuffing) 0xff)
        pure (drop (length response - padding) response)

  module _ (host : Host D) where
    -- `_usbRead`
    unfoldable pub usb_read : Action D Bytes
    usb_read = host.bulk_read bulk_read_endpoint bulk_read_length

    -- `_responseRead`
    unfoldable pub response_read : Action D Bytes
    response_read = do
      result ← usb_read
      if take 1 result ==ᵇ response_code then pure (drop 1 result) else raise value_error

    -- The loop of `_longResponseRead`: packets are joined to what was read before.
    unfoldable pub gather : ℕ → ℤ → ℤ → Bytes → Action D Bytes
    gather zero data_length response_length result = diverge
    gather (suc fuel) data_length response_length result =
        if ltb_ℤ data_length response_length
        then (do
          response ← usb_read
          gather fuel (data_length +ℤ pos (length response)) response_length (result ++ response))
        else pure result

    -- `_longResponseRead`
    unfoldable pub long_response_read : ℕ → Action D (Bytes × Bytes)
    long_response_read fuel = do
      response ← response_read
      if take 1 response ==ᵇ response_status_success
          then (do
            response_length ← or_raise (unpack_little_h (slice 1 2 response)) struct_error
            joined ← gather fuel (pos (length (drop 3 response))) response_length (drop 3 response)
            pure (take 1 response, joined))
          else pure (take 1 response, [])

    -- `_usbWrite`
    unfoldable pub usb_write : Bytes → Action D (Unit {0})
    usb_write b = host.bulk_write bulk_write_endpoint b

    -- `_commandWrite`
    unfoldable pub command_write : Value → Action D (Unit {0})
    command_write value = do b ← as_bytes value; usb_write (command_code ++ b)

    -- `_longCommandWrite`
    unfoldable pub long_command_write : Value → Action D (Unit {0})
    long_command_write value = do
      packed ← or_raise (pack_little_h (length (items value))) struct_error
      b ← as_bytes value
      command_write (bytes (command_type_long ++ (packed ++ b)))
