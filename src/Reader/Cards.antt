-- ===== src/Reader/Cards.antt =====
-- Frames of PS1 cards, pages of PS2 cards, and the sizes of both.
use ps3_memorycard_adapter.Prelude.{
  ℕ, ◌-◌, Option, none, some, [], ◌∷◌, ◌++◌, length, take, drop, slice, replicate, ◌==ᵇ◌, ◌==◌,
  if◌then◌else◌, Bytes, struct_error, Action, pure, or_raise, assert, ◌>>=◌, ◌>>◌, bytes, str_join,
}
use ps3_memorycard_adapter.Struct.{pack_big, pack_little}
use ps3_memorycard_adapter.Reader.Host.{Host}
use ps3_memorycard_adapter.Reader.Packets.{
  response_read, long_response_read, command_write, long_command_write, response_status_success,
}
use ps3_memorycard_adapter.Reader.Commands.{byte_at, get_card_type}
use ps3_memorycard_adapter.Reader.Auth.{authenticate}

abbrev pub page_length : ℕ
page_length = 0x210

abbrev pub frame_length : ℕ
frame_length = 0x80

abbrev pub ps2_card_size : ℕ
ps2_card_size = 0x840210

abbrev pub ps1_card_size : ℕ
ps1_card_size = 0x20000

abbrev pub ps1_command_tail : Bytes
ps1_command_tail = replicate 0x86 0

-- `_getSize`: CARD_SIZE_DICT.get(card_type)
abbrev pub size_of : ℕ → Option ℕ
size_of card_type =
    if card_type == 1
    then some ps1_card_size
    else if card_type == 2
    then some ps2_card_size
    else none

-- `_getPageSize`: CARD_PAGE_DICT.get(card_type)
abbrev pub page_size_of : ℕ → Option ℕ
page_size_of card_type =
    if card_type == 1 then some frame_length else if card_type == 2 then some page_length else none

module _ {D : Type 0} (host : Host D) (fuel : ℕ) where
  -- `getSize`
  unfoldable pub get_size : Action D (Option ℕ)
  get_size = do card_type ← get_card_type host fuel; pure (size_of card_type)

  -- `getPageSize`
  unfoldable pub get_page_size : Action D (Option ℕ)
  get_page_size = do card_type ← get_card_type host fuel; pure (page_size_of card_type)

  -- `readFrame`
  unfoldable pub read_frame : ℕ → Action D Bytes
  read_frame frame_number = do
    encoded ← or_raise (pack_big 2 frame_number) struct_error
    long_command_write host (bytes (0x81 ∷ 0x52 ∷ 0 ∷ 0 ∷ (encoded ++ ps1_command_tail)))
    (status, b) ← long_response_read host fuel
    assert (status ==ᵇ response_status_success)
    let frame = drop 0xa (take (length b - 2) b)
    assert (length frame == frame_length)
    pure frame

  -- What `writeFrame` checks of the response.
  unfoldable pub check_written : Bytes → Bytes → Bytes → Action D (Unit {0})
  check_written encoded frame response = do
    assert (take 4 response ==ᵇ (0xff ∷ 0 ∷ 0x5a ∷ 0x5d ∷ []))
    fifth ← byte_at response 4
    assert (fifth == 0)
    assert (slice 5 2 response ==ᵇ encoded)
    assert (drop 7 (take (length response - 3) response) ==ᵇ frame)

  -- `writeFrame`
  unfoldable pub write_frame : ℕ → Bytes → Action D (Unit {0})
  write_frame frame_number frame = do
    assert (length frame == frame_length)
    encoded ← or_raise (pack_big 2 frame_number) struct_error
    joined ← str_join (
        bytes (0x81 ∷ 0x57 ∷ 0x5a ∷ 0x5d ∷ [])
        ∷ bytes encoded
        ∷ bytes frame
        ∷ bytes (0 ∷ [])
        ∷ bytes (0x5c ∷ 0x5d ∷ 0x47 ∷ [])
        ∷ [])
    long_command_write host joined
    (status, response) ← long_response_read host fuel
    assert (status ==ᵇ response_status_success)
    check_written encoded frame response

  -- `readPage`
  unfoldable pub read_page : ℕ → Action D Bytes
  read_page page_number = do
    authenticate host fuel
    encoded ← or_raise (pack_little 4 page_number) struct_error
    command_write host (bytes (0x52 ∷ 3 ∷ (encoded ++ 0x55 ∷ 0x2b ∷ [])))
    (status, b) ← long_response_read host fuel
    assert (status ==ᵇ response_status_success)
    assert (length b == page_length)
    pure b

  -- `writePage`
  unfoldable pub write_page : ℕ → Bytes → Action D (Unit {0})
  write_page page_number page = do
    assert (length page == page_length)
    authenticate host fuel
    encoded ← or_raise (pack_little 4 page_number) struct_error
    joined ←
        str_join
          (bytes (0x57 ∷ 3 ∷ []) ∷ bytes encoded ∷ bytes page ∷ bytes (0x55 ∷ 0x2b ∷ []) ∷ [])
    command_write host joined
    response ← response_read host
    assert (length response == 1)
    assert (response ==ᵇ response_status_success)
