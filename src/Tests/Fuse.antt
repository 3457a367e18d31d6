-- ===== src/Tests/Fuse.antt =====
-- A card image with two saves' headers, and the theorems on the file system applied to it.
use ps3_memorycard_adapter.Prelude.{
  slice, ℕ, ◌+◌, ◌-◌, ◌<◌, ◌≡◌, ◌≢◌, ◌↔◌, refl, sym, subst, Bool, true, false, ◌&&◌, if◌then◌else◌,
  Option, none, some, List, [], ◌∷◌, ◌++◌, arith, length-replicate, replicate, ltb, leb, Bytes,
  value_error, ok, raised, no_fuel,
}
use ps3_memorycard_adapter.Struct.{little}
use ps3_memorycard_adapter.Dict.{lookup, nat_key}
use ps3_memorycard_adapter.Fuse.Layout.{chained_block_value_none}
use ps3_memorycard_adapter.Fuse.Card.{
  head, LinkMap, Card, is_new, xor_from, read, check_xor, check_superblock, init,
  get_block_link_map,
}
use ps3_memorycard_adapter.Fuse.Allocation.{create_save, append_block, free_block, delete_save}
use ps3_memorycard_adapter.Fuse.Save.{product_code, read_header, Save, new_save, read_data}
use ps3_memorycard_adapter.Fuse.Path.{Unicode, split, digits, as_name, get_block_id}
use ps3_memorycard_adapter.Fuse.Fs.{getattr}
use ps3_memorycard_adapter.Fuse.Replies.{result, link_stat}
use ps3_memorycard_adapter.Fuse.Session.{Call, mkdir_of, write_of, after_calls}
use ps3_memorycard_adapter.Fuse.Kept.Fs.{after_calls-content}
use ps3_memorycard_adapter.Fuse.Refused.{Refused, block_operations-Refused}
use ps3_memorycard_adapter.Fuse.Names.{get_block_id-as_name}
use ps3_memorycard_adapter.Fuse.Links.{block_path, LeadsTo, getattr-readlink}
use ps3_memorycard_adapter.Fuse.Closed.{Closed, ReturnsBy, get_block_link_map-Closed}
use ps3_memorycard_adapter.Fuse.Checksum.{header, checked, check_xor-xor_from, check_xor-detects}
use ps3_memorycard_adapter.Fuse.Chains.{
  PointsTo, last, link, Trail, new_save-Chain, get_block_link_map-Trail,
}
use ps3_memorycard_adapter.Fuse.Blocks.{InImage}
use ps3_memorycard_adapter.Fuse.Entries.{part_of_header, read_header-part_of_header}
use ps3_memorycard_adapter.Fuse.Replies.{result}
use ps3_memorycard_adapter.Fuse.Fs.{write_file}
use ps3_memorycard_adapter.Fuse.Unwritten.{write_file-init}
use ps3_memorycard_adapter.Fuse.Reading.{whole_blocks, available, read_data-whole_blocks}

-- The characters 0 to 9 only.
abbrev is_ascii_digit : ℕ → Bool
is_ascii_digit c = leb b'0' c && ltb c 58

abbrev ascii_digit : ℕ → Option ℕ
ascii_digit c = if is_ascii_digit c then some (c - b'0') else none

is_ascii_digit-below : (d : ℕ) → d < 10 → is_ascii_digit (b'0' + d) ≡ true
is_ascii_digit-below d h = ground arith

ascii_digit-below : (d : ℕ) → d < 10 → ascii_digit (b'0' + d) ≡ some d
ascii_digit-below d h = ground arith

abbrev ascii : Unicode
ascii = record {
  is_digit = is_ascii_digit;
  decimal = ascii_digit;
  ascii_is_digit = is_ascii_digit-below;
  ascii_decimal = ascii_digit-below;
}

-- The superblock, with its checksum.
abbrev superblock : Bytes
superblock = b'M' ∷ b'C' ∷ (replicate 125 0 ++ 0x0e ∷ [])

-- A header with this state, this size, this next block and this checksum.
abbrev block_header : ℕ → ℕ → ℕ → ℕ → Bytes
block_header state size next checksum =
    (state ∷ 0 ∷ 0 ∷ 0 ∷ []) ++ little 4 size ++ little 2 next ++ (replicate 117 0 ++ checksum ∷ [])

-- A save of the blocks 1 and 2.
abbrev two_blocks : Bytes
two_blocks = superblock ++ block_header 0x51 0x4000 1 0x10 ++ block_header 0x53 0 0xffff 0x53

-- A save whose block 1 is followed by itself.
abbrev endless : Bytes
endless = superblock ++ block_header 0x51 0x2000 0 0x71

abbrev card_with : Bytes → Card
card_with content = record { content = content; writable = false; link_map = none }

abbrev some_calls : List Call
some_calls =
    mkdir_of (b'/' ∷ b'0' ∷ b'1' ∷ [])
    ∷ write_of (b'/' ∷ b'0' ∷ b'1' ∷ b'/' ∷ b'd' ∷ b'a' ∷ b't' ∷ b'a' ∷ []) (7 ∷ []) 0
    ∷ []

two_blocks_opened : init two_blocks true ≡ ok (card_with two_blocks)
unfolding init check_superblock check_xor read little
two_blocks_opened = refl

after_calls-content_example :
    (after_calls ascii 16 some_calls (card_with two_blocks)).content ≡ two_blocks
after_calls-content_example =
    after_calls-content ascii 16 two_blocks true (card_with two_blocks) some_calls two_blocks_opened

block_operations-Refused_example :
    Refused (create_save 1)
    × Refused (append_block 16 1 2)
    × Refused (free_block 1)
    × Refused (delete_save 16 1)
block_operations-Refused_example = block_operations-Refused 16 1 2

get_block_id-as_name_example :
    get_block_id ascii {S = Unit {0}} (as_name (head 7)) tt ≡ (ok (some 7), tt)
get_block_id-as_name_example = get_block_id-as_name ascii 7 tt

abbrev two_links : LinkMap
two_links = (1, head 1) ∷ (2, head 1) ∷ []

one_head : (n h : ℕ) → lookup n two_links ≡ some (head h) → h ≡ 1
one_head n h e = ground arith

two_links-Closed : Closed two_links
two_links-Closed n h e =
    subst (λ k. is_new (lookup k two_links) ≡ false) (sym (one_head n h e)) refl

abbrev mapped_card : Card
mapped_card = record { content = two_blocks; writable = false; link_map = some two_links }

second_shown : getattr ascii 16 (block_path 2) mapped_card ≡ (ok (result link_stat), mapped_card)
unfolding getattr split get_block_id as_name digits get_block_link_map
second_shown = refl

getattr-readlink_example : (h : ℕ) × LeadsTo ascii 16 mapped_card two_links refl 2 h
getattr-readlink_example =
    getattr-readlink ascii 16 mapped_card two_links refl 2 two_links-Closed second_shown

get_block_link_map-Closed_example :
    ReturnsBy Closed ((get_block_link_map 16 (card_with two_blocks)).0)
get_block_link_map-Closed_example = get_block_link_map-Closed 16 (card_with two_blocks) refl

superblock-xor : check_xor 0 (card_with superblock) ≡ (ok tt, card_with superblock)
unfolding check_xor read
superblock-xor = refl

check_xor-xor_from_example :
    (check_xor 0 (card_with superblock) ≡ (ok tt, card_with superblock))
    ↔ (header 0 superblock ≡ checked 0 superblock ++ xor_from 0 (checked 0 superblock) ∷ [])
check_xor-xor_from_example = check_xor-xor_from 0 (card_with superblock) (omega arith)

abbrev damaged : Bytes
damaged = b'M' ∷ b'D' ∷ (replicate 125 0 ++ 0x0e ∷ [])

check_xor-detects_example :
    check_xor 0 (card_with damaged) ≡ (raised value_error, card_with damaged)
check_xor-detects_example =
    check_xor-detects 0 (card_with superblock) (card_with damaged) (b'M' ∷ [])
      (replicate 125 0 ++ 0x0e ∷ []) b'C' b'D' refl refl (omega arith) (omega arith)
      (λ e. absurd (omega arith)) superblock-xor

two_blocks-PointsTo_1 : PointsTo (card_with two_blocks) 1 1
unfolding check_xor read little
two_blocks-PointsTo_1 = record { passes = refl; number = refl }

two_blocks-PointsTo_2 : PointsTo (card_with two_blocks) 2 chained_block_value_none
unfolding check_xor read little
two_blocks-PointsTo_2 = record { passes = refl; number = refl }

new_save-Chain_example :
    new_save 16 (head 1) (card_with two_blocks)
    ≡ (ok (record { block_list = 1 ∷ 2 ∷ [] }), card_with two_blocks)
unfolding little
new_save-Chain_example =
    new_save-Chain 16 1 (2 ∷ []) (card_with two_blocks)
      (link two_blocks-PointsTo_1 (λ e. absurd (omega arith)) (last two_blocks-PointsTo_2)) refl
      (omega arith)

endless-PointsTo : PointsTo (card_with endless) 1 0
unfolding check_xor read little
endless-PointsTo = record { passes = refl; number = refl }

endless-Trail : Trail (card_with endless) (λ i. 1)
endless-Trail = record { goes = λ i. (0, endless-PointsTo, (λ e. absurd (omega arith)), refl) }

get_block_link_map-Trail_example :
    get_block_link_map 100 (card_with endless) ≡ (no_fuel, card_with endless)
unfolding little
get_block_link_map-Trail_example =
    get_block_link_map-Trail (card_with endless) (λ i. 1) 0x51 refl endless-Trail refl refl refl
      refl 100

-- A save of the first block of an image.
abbrev first_save : Save
first_save = record { block_list = 0 ∷ [] }

abbrev sevens : Bytes
sevens = replicate 8192 7

sevens-InImage : InImage (0 ∷ []) sevens
unfolding InImage
sevens-InImage = (omega (arith, length-replicate {A = ℕ} 8192 7), tt)

read_data-whole_blocks_example :
    read_data first_save 8192 0 (card_with sevens)
    ≡ (whole_blocks (available first_save 8192 0) 0 (0 ∷ []) sevens, card_with sevens)
read_data-whole_blocks_example =
    read_data-whole_blocks first_save 8192 0 (card_with sevens) sevens-InImage

read_header-part_of_header_example :
    read_header (record { block_list = 1 ∷ 2 ∷ [] }) product_code 100 2 (card_with two_blocks)
    ≡ (ok (slice 2 100 (part_of_header 0xc 10 1 two_blocks)), card_with two_blocks)
read_header-part_of_header_example =
    read_header-part_of_header (record { block_list = 1 ∷ 2 ∷ [] }) 1 product_code 0xc 10 100 2
      (card_with two_blocks) refl refl refl

write_file-init_example :
    (write_file ascii 16
      (b'/' ∷ b'0' ∷ b'1' ∷ b'/' ∷ b'd' ∷ b'a' ∷ b't' ∷ b'a' ∷ [])
      (7 ∷ [])
      0
      (after_calls ascii 16 some_calls (card_with two_blocks))).0
    ≢ ok (result 1)
write_file-init_example =
    write_file-init ascii 16 two_blocks true (card_with two_blocks) some_calls
      (b'/' ∷ b'0' ∷ b'1' ∷ b'/' ∷ b'd' ∷ b'a' ∷ b't' ∷ b'a' ∷ []) (7 ∷ []) 0 0 two_blocks_opened
