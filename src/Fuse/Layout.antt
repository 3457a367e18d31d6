-- ===== src/Fuse/Layout.antt =====
-- The numbers of fuse/ps1.py: where things stand on a PS1 memory card.
use ps3_memorycard_adapter.Prelude.{ℕ, ◌*◌, [], ◌∷◌, Bytes}

abbrev pub superblock_magic : Bytes
superblock_magic = b'M' ∷ b'C' ∷ []

abbrev pub block_count : ℕ
block_count = 0x10

abbrev pub block_length : ℕ
block_length = 0x2000

abbrev pub block_header_length : ℕ
block_header_length = 0x80

abbrev pub block_header_area_length : ℕ
block_header_area_length = block_header_length * block_count

abbrev pub block_status_free : ℕ
block_status_free = 0xa0

abbrev pub block_status_used : ℕ
block_status_used = 0x50

abbrev pub block_status_linked : ℕ
block_status_linked = 0x02

abbrev pub block_status_end : ℕ
block_status_end = 0x01

abbrev pub save_length_offset : ℕ
save_length_offset = 0x4

abbrev pub save_length_length : ℕ
save_length_length = 4

abbrev pub chained_block_number_offset : ℕ
chained_block_number_offset = 0x8

abbrev pub chained_block_number_length : ℕ
chained_block_number_length = 2

abbrev pub chained_block_value_none : ℕ
chained_block_value_none = 0xffff

abbrev pub unknown_offset_1 : ℕ
unknown_offset_1 = 0xa

abbrev pub unknown_offset_1_value : Bytes
unknown_offset_1_value = b'B' ∷ []

abbrev pub region_code_offset : ℕ
region_code_offset = 0xb

abbrev pub region_code_length : ℕ
region_code_length = 1

abbrev pub product_code_offset : ℕ
product_code_offset = 0xc

abbrev pub product_code_length : ℕ
product_code_length = 10

abbrev pub game_code_offset : ℕ
game_code_offset = 0x16

abbrev pub game_code_length : ℕ
game_code_length = 8
