-- ===== src/Fuse/Allocation.antt =====
-- The operations of `PS1Card` that write block headers: saves and blocks are taken and given back.
use ps3_memorycard_adapter.Prelude.{
  ℕ, ◌+◌, ◌*◌, ◌/◌, ◌%◌, Bool, true, false, Option, none, [], ◌∷◌, ◌==◌, if◌then◌else◌, Bytes,
  value_error, type_error, struct_error, Action, pure, raise, or_raise, assert, ◌>>=◌, ◌>>◌, bytes,
  str,
}
use Prim.Native.Nat.{bit_and, bit_or}
use ps3_memorycard_adapter.Struct.{little, pack_little, unpack_little}
use ps3_memorycard_adapter.Dict.{nat_key}
use ps3_memorycard_adapter.Fuse.Layout.{
  block_length, block_header_length, block_status_free, block_status_used, block_status_end,
  save_length_offset, save_length_length, chained_block_number_offset, chained_block_value_none,
  unknown_offset_1, unknown_offset_1_value,
}
use ps3_memorycard_adapter.Fuse.Card.{
  Card, read, write, only_byte, update_xor, check_xor, iter_chained_blocks,
}

-- The end of `_allocateBlock`, for a free block.
unfoldable pub mark_used : ℕ → Bool → Action Card (Unit {0})
mark_used block_number is_head = do
  let offset = block_number * block_header_length
  write (str (bit_or block_status_used block_status_end ∷ [])) offset
  (if is_head
      then (do
        write (bytes (little 4 block_length)) (offset + save_length_offset)
        write (bytes unknown_offset_1_value) unknown_offset_1)
      else pure tt)
  write (bytes (little 2 chained_block_value_none)) (offset + chained_block_number_offset)
  update_xor block_number

-- `_allocateBlock`
unfoldable pub allocate_block : ℕ → Bool → Action Card (Unit {0})
allocate_block block_number is_head = do
  check_xor block_number
  b ← read 1 (block_number * block_header_length)
  state ← or_raise (only_byte b) type_error
  if bit_and state block_status_used == 0 then mark_used block_number is_head else raise value_error

-- `createSave`
unfoldable pub create_save : ℕ → Action Card (Unit {0})
create_save block_number = allocate_block block_number true

-- `_chainBlocks`
unfoldable pub chain_blocks : ℕ → ℕ → Action Card (Unit {0})
chain_blocks first_block_number second_block_number = do
  packed ← or_raise (pack_little 2 second_block_number) struct_error
  write (bytes packed) (first_block_number * block_header_length + chained_block_number_offset)

-- A number of Python: `/` gives a float, also where it is whole.
pub data Number : Type 0 where
  int : ℕ → Number
  float : ℕ → Number

-- `n + 1` and `n * k`
abbrev pub add_one : Number → Number
add_one (int n) = int (n + 1)
add_one (float n) = float (n + 1)

abbrev pub times : Number → ℕ → Number
times (int n) k = int (n * k)
times (float n) k = float (n * k)

-- `pack('<I', n)` takes no float.
abbrev pub pack_number : Number → Option Bytes
pack_number (int n) = pack_little 4 n
pack_number (float n) = none

-- `_getSaveBlockCount`
unfoldable pub get_save_block_count : ℕ → Action Card Number
get_save_block_count block_number = do
  found ← read save_length_length (block_number * block_header_length + save_length_offset)
  current_size ← or_raise (unpack_little 4 found) struct_error
  assert (current_size % block_length == 0)
  pure (float (current_size / block_length))

-- `_setSaveBlockCount`
unfoldable pub set_save_block_count : ℕ → Number → Action Card (Unit {0})
set_save_block_count block_number count = do
  packed ← or_raise (pack_number (times count block_length)) struct_error
  write (bytes packed) (block_number * block_header_length + save_length_offset)

-- `appendBlock`
unfoldable pub append_block : ℕ → ℕ → ℕ → Action Card (Unit {0})
append_block fuel head_block_number new_block_number = do
  allocate_block new_block_number false
  last_block_number ← iter_chained_blocks fuel (λ n _. pure n) head_block_number head_block_number
  chain_blocks last_block_number new_block_number
  (if last_block_number == head_block_number then pure tt else update_xor last_block_number)
  count ← get_save_block_count head_block_number
  set_save_block_count head_block_number (add_one count)
  update_xor head_block_number

-- `freeBlock`
unfoldable pub free_block : ℕ → Action Card (Unit {0})
free_block block_number = do
  b ← read 1 (block_number * block_header_length)
  block_state ← or_raise (only_byte b) value_error
  write (str (bit_or (bit_and block_state 0xf) block_status_free ∷ []))
      (block_number * block_header_length)
  update_xor block_number

-- `deleteSave`: a block is freed before the chain is followed from it.
unfoldable pub delete_save : ℕ → ℕ → Action Card (Unit {0})
delete_save fuel block_number = do
  b ← read 1 (block_number * block_header_length)
  state ← or_raise (only_byte b) type_error
  if bit_and state block_status_used == block_status_used
      then (do
        iter_chained_blocks fuel (λ n _. free_block n) block_number tt
        free_block block_number)
      else raise value_error
