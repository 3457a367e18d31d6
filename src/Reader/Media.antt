-- ===== src/Reader/Media.antt =====
-- What a card is to the loop of `read`: bytes that the blocks are cut from. This is
-- the interface between that loop and the commands that move a block.
use ps3_memorycard_adapter.Prelude.{ℕ, ◌*◌, ◌<◌, ◌≡◌, length, slice, Bytes, Outcome, ok}
use ps3_memorycard_adapter.Reader.Blocks.{Blocks}

-- The call returned this value, and left a state of this kind.
pub record Returns {D A : Type 0} (r : Outcome A × D) (a : A) (Post : D → Type 0) : Type 0 where
  pub state : D
  pub returns : r ≡ (ok a, state)
  pub post : Post state

module _ {D : Type 0} (io : Blocks D) (Holds : Bytes → D → Type 0) where
  -- `Holds c s`: in the state s the card holds the bytes c. Every block of it can be read, and
  -- reading changes nothing on it.
  pub record Readable : Type 0 where
    pub count : ℕ
    pub positive : 0 < io.block_length
    pub whole : io.max_length ≡ count * io.block_length
    pub size : (c : Bytes) (s : D) → Holds c s → length c ≡ io.max_length
    pub reads :
        (c : Bytes) (s : D) (n : ℕ)
        → Holds c s
        → n < count
        → Returns (io.read_block n s) (slice (n * io.block_length) io.block_length c) (Holds c)
