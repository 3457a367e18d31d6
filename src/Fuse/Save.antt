-- ===== src/Fuse/Save.antt =====
-- `PS1Save` of fuse/ps1.py: a save of a card, as entries that are read and written.
use ps3_memorycard_adapter.Prelude.{
  ℕ, zero, suc, ◌+◌, ◌-◌, ◌*◌, ◌/◌, ◌%◌, min, Bool, true, false, Option, none, some, List, [], ◌∷◌,
  ◌++◌, length, take, drop, slice, get_elem?, ltb, leb, ◌==◌, ◌==ᵇ◌, if◌then◌else◌, Bytes,
  value_error, type_error, index_error, key_error, struct_error, ok, Action, pure, raise, diverge,
  or_raise, assert, ◌>>=◌, ◌>>◌, bytes, join,
}
use ps3_memorycard_adapter.Prelude.Int.{ℤ, pos, negsuc, ◌-ℤ◌}
use ps3_memorycard_adapter.Struct.{unpack_little}
use ps3_memorycard_adapter.Dict.{lookup, nat_key}
use ps3_memorycard_adapter.Fuse.Layout.{
  block_length, block_header_length, save_length_offset, save_length_length, region_code_offset,
  region_code_length, product_code_offset, product_code_length, game_code_offset, game_code_length,
}
use ps3_memorycard_adapter.Fuse.Card.{
  Target, head, orphan, Card, read, write, update_xor, iter_chained_blocks, get_block_link_map,
}

pub record Save : Type 0 where
  pub block_list : List ℕ

-- A name of a path, by its code points.
abbrev pub Text : Type 0
Text = List ℕ

abbrev pub save_data_entry_id : Text
save_data_entry_id = b'd' ∷ b'a' ∷ b't' ∷ b'a' ∷ []

abbrev pub game_code : Text
game_code = b'g' ∷ b'a' ∷ b'm' ∷ b'e' ∷ b'_' ∷ b'c' ∷ b'o' ∷ b'd' ∷ b'e' ∷ []

abbrev pub product_code : Text
product_code =
    b'p' ∷ b'r' ∷ b'o' ∷ b'd' ∷ b'u' ∷ b'c' ∷ b't' ∷ b'_' ∷ b'c' ∷ b'o' ∷ b'd' ∷ b'e' ∷ []

abbrev pub region : Text
region = b'r' ∷ b'e' ∷ b'g' ∷ b'i' ∷ b'o' ∷ b'n' ∷ []

-- A value of `SAVE_ENTRY_DICT`: None for the data, else the offset and the size of a part of the
-- header.
pub data Entry : Type 0 where
  whole_data : Entry
  part : (offset size : ℕ) → Entry

abbrev pub save_entries : List (Text × Entry)
save_entries =
    (save_data_entry_id, whole_data)
    ∷ (game_code, part game_code_offset game_code_length)
    ∷ (product_code, part product_code_offset product_code_length)
    ∷ (region, part region_code_offset region_code_length)
    ∷ []

abbrev pub find_entry : Text → List (Text × Entry) → Option Entry
find_entry name [] = none
find_entry name ((key, entry) ∷ entries) =
    if name ==ᵇ key then some entry else find_entry name entries

-- `SAVE_ENTRY_DICT.get(name)`, and the keys of it, `iterEntries`.
abbrev pub entry_of : Text → Option Entry
entry_of name = find_entry name save_entries

abbrev pub keys : List (Text × Entry) → List Text
keys [] = []
keys ((key, entry) ∷ entries) = key ∷ keys entries

unfoldable pub iter_entries : Save → List Text
iter_entries save = keys save_entries

abbrev pub is_found : Option Entry → Bool
is_found none = false
is_found (some entry) = true

-- `hasEntry`
unfoldable pub has_entry : Save → Text → Bool
has_entry save name = is_found (entry_of name)

-- `getDataSize`
unfoldable pub get_data_size : Save → ℕ
get_data_size save = length save.block_list * block_length

-- `getEntryOffset`: `None['offset']` is a TypeError.
abbrev pub entry_offset : Option Entry → Action Card ℕ
entry_offset none = raise key_error
entry_offset (some whole_data) = raise type_error
entry_offset (some (part offset size)) = pure offset

unfoldable pub get_entry_offset : Save → Text → Action Card ℕ
get_entry_offset save name = entry_offset (entry_of name)

abbrev pub entry_size : Option Entry → Action Card ℕ
entry_size none = raise key_error
entry_size (some whole_data) = raise type_error
entry_size (some (part offset size)) = pure size

-- `getEntrySize`
unfoldable pub get_entry_size : Save → Text → Action Card ℕ
get_entry_size save name =
    if name ==ᵇ save_data_entry_id then pure (get_data_size save) else entry_size (entry_of name)

-- The header that `__init__` reads: the slice [-128:0] for the block -1.
abbrev pub header_of : Target → Action Card Bytes
header_of (head n) = read block_header_length (n * block_header_length)
header_of orphan = λ c. (ok (drop (length c.content - block_header_length) (take 0 c.content)), c)

-- The chain from the first block; there is no header for -1, so that it is not asked for there.
abbrev pub chain_of : ℕ → Target → Action Card (List ℕ)
chain_of fuel (head n) = iter_chained_blocks fuel (λ k blocks. pure (blocks ++ k ∷ [])) n (n ∷ [])
chain_of fuel orphan = raise struct_error

-- `__init__`
unfoldable pub new_save : ℕ → Target → Action Card Save
new_save fuel first_block = do
  block_header ← header_of first_block
  save_length ←
      or_raise (unpack_little 4 (slice save_length_offset save_length_length block_header))
        struct_error
  block_list ← chain_of fuel first_block
  let save : Save = record { block_list = block_list }
  assert (save_length == get_data_size save)
  pure save

-- `PS1Card.getSave`
unfoldable pub get_save : ℕ → ℕ → Action Card (Option Save)
get_save fuel block_number = do
  link_map ← get_block_link_map fuel
  elim (lookup block_number link_map) [
    | none ↦ pure none
    | some target ↦ (do save ← new_save fuel target; pure (some save))
  ]

-- `self._block_list[0]`
abbrev pub first_block : Save → Action Card ℕ
first_block save = or_raise (get_elem? save.block_list 0) index_error

-- `readHeader`
unfoldable pub read_header : Save → Text → ℕ → ℕ → Action Card Bytes
read_header save name size offset = do
  all ← get_entry_size save name
  if ltb offset all
      then (do
        block_number ← first_block save
        start ← get_entry_offset save name
        read (min size (all - offset)) (start + offset + block_number * block_header_length))
      else pure []

-- `writeHeader`
unfoldable pub write_header : Save → Text → Bytes → ℕ → Action Card ℕ
write_header save name buf offset = do
  all ← get_entry_size save name
  if ltb offset all
      then (do
        block_number ← first_block save
        start ← get_entry_offset save name
        write (bytes (take (all - offset) buf))
            (start + offset + block_number * block_header_length)
        update_xor block_number
        pure (all - offset))
      else pure 0

abbrev pub is_zero : ℤ → Bool
is_zero (pos zero) = true
is_zero (pos (suc n)) = false
is_zero (negsuc n) = false

-- The loop of `readData`. Every round goes on to the next block of the list, hence the fuel.
unfoldable pub read_parts : ℕ → List ℕ → ℤ → ℕ → List Bytes → Action Card (List Bytes)
read_parts zero block_list size offset result = diverge
read_parts (suc fuel) block_list size offset result = if is_zero size then pure result else (do
  let block_offset = offset % block_length
  let to_read = block_length - block_offset
  block_number ← or_raise (get_elem? block_list (offset / block_length)) index_error
  b ← read to_read (block_number * block_length + block_offset)
  read_parts fuel block_list (size -ℤ pos to_read) (offset + to_read) (result ++ b ∷ []))

-- `readData`
unfoldable pub read_data : Save → ℕ → ℕ → Action Card Bytes
read_data save size offset =
    if ltb offset (get_data_size save)
    then (do
      result ←
          read_parts (suc (length save.block_list)) save.block_list
            (pos (min size (get_data_size save - offset))) offset []
      pure (join result))
    else pure []

-- The loop of `writeData`, which returns `written`. Every round takes a byte at least.
unfoldable pub write_parts : ℕ → List ℕ → Bytes → ℕ → ℕ → Action Card ℕ
write_parts zero block_list buf offset written = diverge
write_parts (suc fuel) block_list buf offset written =
    if length buf == 0
    then pure written
    else if leb (length block_list) ((offset + written) / block_length)
    then pure written
    else (do
      let block_offset = (offset + written) % block_length
      let to_write = min (length buf) (block_length - block_offset)
      block_number ← or_raise (get_elem? block_list ((offset + written) / block_length)) index_error
      write (bytes (take to_write buf)) (block_number * block_length + block_offset)
      write_parts fuel block_list (drop to_write buf) offset (written + to_write))

-- `writeData`
unfoldable pub write_data : Save → Bytes → ℕ → Action Card ℕ
write_data save buf offset =
    if leb (get_data_size save) offset
    then raise value_error
    else write_parts (suc (length buf)) save.block_list buf offset 0

-- `read`
unfoldable pub read_entry : Save → Text → ℕ → ℕ → Action Card Bytes
read_entry save name size offset =
    if name ==ᵇ save_data_entry_id
    then read_data save size offset
    else read_header save name size offset

-- `write`
unfoldable pub write_entry : Save → Text → Bytes → ℕ → Action Card ℕ
write_entry save name buf offset =
    if name ==ᵇ save_data_entry_id
    then write_data save buf offset
    else write_header save name buf offset
