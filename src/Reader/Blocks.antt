-- ===== src/Reader/Blocks.antt =====
-- `PlayStationMemoryCardReader.read` and `.write`: any range of a card, by frames or pages.
use ps3_memorycard_adapter.Prelude.{
  ℕ, zero, suc, ◌+◌, ◌-◌, ◌/◌, ◌%◌, Option, none, some, List, [], ◌∷◌, ◌++◌, length, take, drop,
  ◌==◌, ltb, leb, if◌then◌else◌, Bytes, value_error, index_error, Action, pure, raise, diverge,
  or_raise, assert, join, ◌>>=◌, ◌>>◌,
}
use ps3_memorycard_adapter.Prelude.Int.{ℤ, pos, sub_ℕ, ltb_ℤ, ◌+ℤ◌, ◌-ℤ◌, pos_part}
use ps3_memorycard_adapter.Reader.Host.{Host}
use ps3_memorycard_adapter.Reader.Commands.{get_card_type}
use ps3_memorycard_adapter.Reader.Cards.{
  frame_length, page_length, ps1_card_size, ps2_card_size, read_frame, write_frame, read_page,
  write_page,
}

-- What `read` and `write` choose by the type of the card: `read`, `write`, `block_length` and
-- `max_length`.
pub record Blocks (D : Type 0) : Type 0 where
  pub read_block : ℕ → Action D Bytes
  pub write_block : ℕ → Bytes → Action D (Unit {0})
  pub block_length : ℕ
  pub max_length : ℕ

-- `result[0] = result[0][start_offset:]`
abbrev pub trim_first : ℕ → List Bytes → Option (List Bytes)
trim_first start_offset [] = none
trim_first start_offset (b ∷ bs) = some (drop start_offset b ∷ bs)

-- `result[-1] = result[-1][:-count]`, for a count above 0
abbrev pub trim_last : ℕ → List Bytes → List Bytes
trim_last count [] = []
trim_last count (b ∷ []) = take (length b - count) b ∷ []
trim_last count (b ∷ c ∷ bs) = b ∷ trim_last count (c ∷ bs)

-- The end of `read`: the blocks cut to the range, and joined.
abbrev pub cut_end : ℕ → ℤ → List Bytes → Bytes
cut_end len result_len trimmed = join (
    if ltb_ℤ (pos len) result_len
    then trim_last (pos_part (result_len -ℤ pos len)) trimmed
    else trimmed)

abbrev pub assemble : ℕ → ℕ → ℤ → List Bytes → Option Bytes
assemble start_offset len result_len result = elim (trim_first start_offset result) [
  | none ↦ none
  | some trimmed ↦ some (cut_end len result_len trimmed)
]

module _ {D : Type 0} (io : Blocks D) where
  -- The loop of `read`; it returns `result_len` and `result`.
  unfoldable pub read_blocks : ℕ → ℕ → ℤ → ℕ → List Bytes → Action D (ℤ × List Bytes)
  read_blocks zero current_block result_len len result = diverge
  read_blocks (suc fuel) current_block result_len len result =
      if ltb_ℤ result_len (pos len)
      then (do
        block ← io.read_block current_block
        assert (length block == io.block_length)
        read_blocks fuel (current_block + 1) (result_len +ℤ pos io.block_length) len
            (result ++ block ∷ []))
      else pure (result_len, result)

  -- `read`, after the card is known. Each round adds at least one byte, hence the fuel.
  unfoldable pub read_range : ℕ → ℕ → Action D Bytes
  read_range offset len = if ltb io.max_length (offset + len) then raise value_error else (do
    let current_block = offset / io.block_length
    let start_offset = offset % io.block_length
    (result_len, result) ←
        read_blocks (suc (start_offset + len)) current_block (sub_ℕ 0 start_offset) len []
    or_raise (assemble start_offset len result_len result) index_error)

  -- The loop of `write`, and the partial block that is left after it.
  unfoldable pub write_blocks : ℕ → ℕ → Bytes → Action D (Unit {0})
  write_blocks zero current_block b = diverge
  write_blocks (suc fuel) current_block b =
      if leb io.block_length (length b)
      then (do
        io.write_block current_block (take io.block_length b)
        write_blocks fuel (current_block + 1) (drop io.block_length b))
      else if length b == 0
      then pure tt
      else (do
        old ← io.read_block current_block
        io.write_block current_block (b ++ drop (length b) old))

  -- `write`, after the card is known.
  unfoldable pub write_range : ℕ → Bytes → Action D (Unit {0})
  write_range offset b = if ltb io.max_length (offset + length b) then raise value_error else (do
    let current_block = offset / io.block_length
    let start_offset = offset % io.block_length
    padded ←
        (if start_offset == 0
          then pure b
          else (do old ← io.read_block current_block; pure (take start_offset old ++ b)))
    write_blocks (suc (length padded)) current_block padded)

module _ {D : Type 0} (host : Host D) (fuel : ℕ) where
  abbrev pub frames : Blocks D
  frames = record {
    read_block = read_frame host fuel;
    write_block = write_frame host fuel;
    block_length = frame_length;
    max_length = ps1_card_size;
  }

  abbrev pub pages : Blocks D
  pages = record {
    read_block = read_page host fuel;
    write_block = write_page host fuel;
    block_length = page_length;
    max_length = ps2_card_size;
  }

  -- The choice by `card_type` at the start of `read` and `write`.
  abbrev pub choose : ℕ → Action D (Blocks D)
  choose card_type =
      if card_type == 1
      then pure frames
      else if card_type == 2
      then pure pages
      else raise value_error

  -- `read`
  unfoldable pub read : ℕ → ℕ → Action D Bytes
  read offset len = do
    card_type ← get_card_type host fuel
    io ← choose card_type
    read_range io offset len

  -- `write`
  unfoldable pub write : ℕ → Bytes → Action D (Unit {0})
  write offset b = do
    card_type ← get_card_type host fuel
    io ← choose card_type
    write_range io offset b
