-- ===== src/Fuse/Card.antt =====
-- `PS1Card` of fuse/ps1.py, over the bytes of a card image that is mapped into memory.
use ps3_memorycard_adapter.Prelude.{
  ℕ, zero, suc, ◌+◌, ◌-◌, ◌*◌, Bool, true, false, not, Option, none, some, [], ◌∷◌, length, slice,
  splice, ltb, ◌==◌, ◌==ᵇ◌, if◌then◌else◌, Bytes, value_error, type_error, index_error,
  attribute_error, struct_error, Outcome, ok, raised, no_fuel, Action, pure, raise, diverge,
  or_raise, assert, ◌>>=◌, ◌>>◌, Value, str, as_bytes,
}
use Prim.Native.Nat.{bit_and, bit_xor}
use ps3_memorycard_adapter.Struct.{unpack_little}
use ps3_memorycard_adapter.Dict.{Dict, lookup, insert, nat_key}
use ps3_memorycard_adapter.Fuse.Layout.{
  superblock_magic, block_count, block_header_length, block_header_area_length, block_status_used,
  block_status_linked, chained_block_number_offset, chained_block_number_length,
  chained_block_value_none,
}

-- A value of the link map: the number of the head of a save, or -1 for an orphan.
pub data Target : Type 0 where
  head : ℕ → Target
  orphan : Target

abbrev pub LinkMap : Type 0
LinkMap = Dict ℕ Target

-- `content` is what is mapped of the image, `writable` whether it was mapped for writing, and
-- `link_map` the cached `_link_map`.
pub record Card : Type 0 where
  pub content : Bytes
  pub writable : Bool
  pub link_map : Option LinkMap

-- The fold of `updateXOR` and `checkXOR`.
abbrev pub xor_from : ℕ → Bytes → ℕ
xor_from computed_xor [] = computed_xor
xor_from computed_xor (byte ∷ bs) = xor_from (bit_xor computed_xor byte) bs

-- `read`: a slice of the mapping, as far as it goes.
unfoldable pub read : ℕ → ℕ → Action Card Bytes
read size offset c = (ok (slice offset size c.content), c)

-- `self._device[offset:offset + len(buf)] = buf`: a mapping for reading takes nothing, and a
-- mapping takes only bytes, as many as the slice has.
unfoldable pub assign : Value → ℕ → Action Card (Unit {0})
assign buf offset c =
    if not c.writable
    then (raised type_error, c)
    else (do
      b ← as_bytes buf
      λ c'.
          if length (slice offset (length b) c'.content) == length b
          then (ok tt, record c' { content = splice c'.content offset b })
          else (raised index_error, c'))
        c

-- Forgetting the cached link map when a header is written.
abbrev pub invalidate : ℕ → Action Card (Unit {0})
invalidate offset c =
    (ok tt, if ltb offset block_header_area_length then record c { link_map = none } else c)

-- `write`
unfoldable pub write : Value → ℕ → Action Card (Unit {0})
write buf offset = do invalidate offset; assign buf offset

-- `x, = b` and `ord(b)`, of bytes.
abbrev pub only_byte : Bytes → Option ℕ
only_byte (b ∷ []) = some b
only_byte bs = none

-- `updateXOR`: `chr` makes a text.
unfoldable pub update_xor : ℕ → Action Card (Unit {0})
update_xor block_number = do
  let offset = block_number * block_header_length
  b ← read (block_header_length - 1) offset
  write (str (xor_from 0 b ∷ [])) (offset + block_header_length - 1)

-- `checkXOR`
unfoldable pub check_xor : ℕ → Action Card (Unit {0})
check_xor block_number = do
  b ← read block_header_length (block_number * block_header_length)
  if xor_from 0 b == 0 then pure tt else raise value_error

-- `iterChainedBlocks`, with what is done with each block as it is yielded. A chain may have no end.
unfoldable pub iter_chained_blocks :
    {A : Type 0} → ℕ → (ℕ → A → Action Card A) → ℕ → A → Action Card A
iter_chained_blocks zero body block_number a = diverge
iter_chained_blocks (suc fuel) body block_number a = do
  check_xor block_number
  found ←
      read chained_block_number_length
        (block_number * block_header_length + chained_block_number_offset)
  next ← or_raise (unpack_little 2 found) struct_error
  if next == chained_block_value_none
      then pure a
      else (do a' ← body (next + 1) a; iter_chained_blocks fuel body (next + 1) a')

-- A block that is not in the link map yet is entered, with the blocks that its chain has.
unfoldable pub link_block : ℕ → ℕ → LinkMap → Action Card LinkMap
link_block fuel block_number link_map = do
  check_xor block_number
  b ← read 1 (block_number * block_header_length)
  block_state ← or_raise (only_byte b) value_error
  if not (bit_and block_state block_status_used == block_status_used)
      then pure link_map
      else if not (bit_and block_state block_status_linked == 0)
      then pure (insert block_number orphan link_map)
      else iter_chained_blocks fuel (λ chained m. pure (insert chained (head block_number) m))
          block_number (insert block_number (head block_number) link_map)

-- `block_number not in link_map`
abbrev pub is_new : Option Target → Bool
is_new none = true
is_new (some t) = false

-- The loop of `getBlockLinkMap`, over a number of blocks from this one.
unfoldable pub link_blocks : ℕ → ℕ → ℕ → LinkMap → Action Card LinkMap
link_blocks fuel zero block_number link_map = pure link_map
link_blocks fuel (suc count) block_number link_map = do
  next ←
      (if is_new (lookup block_number link_map)
        then link_block fuel block_number link_map
        else pure link_map)
  link_blocks fuel count (block_number + 1) next

-- `getBlockLinkMap`
unfoldable pub get_block_link_map : ℕ → Action Card LinkMap
get_block_link_map fuel c = elim c.link_map [
  | some link_map ↦ (ok link_map, c)
  | none ↦
      (do
        link_map ← link_blocks fuel (block_count - 1) 1 []
        λ c'. (ok link_map, record c' { link_map = some link_map }))
        c
]

-- The checks of `__init__`.
unfoldable pub check_superblock : Action Card (Unit {0})
check_superblock = do
  magic ← read (length superblock_magic) 0
  assert (magic ==ᵇ superblock_magic)
  check_xor 0

abbrev pub opened : Outcome (Unit {0}) × Card → Outcome Card
opened (ok _, c) = ok c
opened (raised e, c) = raised e
opened (no_fuel, c) = no_fuel

-- `__init__` on an image with this content. `mmap` has no ACCESS_DEEFAULT, and maps no empty file.
unfoldable pub init : Bytes → Bool → Outcome Card
init content read_only =
    if not read_only
    then raised attribute_error
    else if length content == 0
    then raised value_error
    else opened (check_superblock (record { content = content; writable = false; link_map = none }))
