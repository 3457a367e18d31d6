-- ===== src/Reader/ReadRange.antt =====
-- `read` on a card that can be read: the blocks of the loop, cut to the range.
use ps3_memorycard_adapter.Prelude.{
  ℕ, suc, ◌+◌, ◌-◌, ◌*◌, ◌/◌, ◌%◌, ◌≤◌, ◌<◌, ◌≡◌, refl, ap, sym, ◌∙◌, inl, inr, true, false, List,
  [], ◌∷◌, arith, le→ltb, length, length-drop, take, drop, slice, slice-slice, Bool-cases, take_all,
  Bytes, join, Outcome, ok, and_then, or_raise, index_error,
}
use native.Mathlib.Nat.{div-add-mod'}
use ps3_memorycard_adapter.Prelude.Int.{ℤ, pos, negsuc, pos_part, neg_part, sub_ℕ, ltb_ℤ, ◌-ℤ◌}
use ps3_memorycard_adapter.Reader.Blocks.{Blocks, cut_end, assemble, read_range}
use ps3_memorycard_adapter.Reader.Media.{Readable, Returns}
use ps3_memorycard_adapter.Reader.Trim.{join_trimmed, join_headless, length-join}
use ps3_memorycard_adapter.Reader.ReadBlocks.{IsRead, Ended, read_blocks-Ended}

excess :
    (z : ℤ) (len : ℕ)
    → ltb_ℤ (pos len) z ≡ true
    → pos_part (z -ℤ pos len) + len + neg_part z ≡ pos_part z
unfolding ◌-ℤ◌
excess (pos n) len h = ground arith
excess (negsuc n) len h = ground arith

no_excess : (z : ℤ) (len : ℕ) → ltb_ℤ (pos len) z ≡ false → pos_part z ≤ len + neg_part z
no_excess z len h = ground arith

module _ {D : Type 0} (io : Blocks D) (Holds : Bytes → D → Type 0) (m : Readable io Holds)
    (c : Bytes) (s : D) (h : Holds c s) where
  module _ (first start len k : ℕ) (z : ℤ) (b : Bytes) (bs : List Bytes)
      (r : IsRead io Holds m c first start len k z (b ∷ bs)) (before : start ≤ io.block_length)
      (enough : start + len ≤ k * io.block_length) where
    abbrev all : Bytes
    all = join (b ∷ bs)

    length-all : length all ≡ k * io.block_length
    length-all =
        length-join io.block_length (b ∷ bs) r.lengths
        ∙ ap (λ (t : ℕ). t * io.block_length) r.counted

    slice-all : slice start len all ≡ slice (first * io.block_length + start) len c
    slice-all =
        ap (slice start len) r.content
        ∙ slice-slice start len (first * io.block_length) (k * io.block_length) c enough

    cut_end-slice :
        cut_end len z (drop start b ∷ bs) ≡ slice (first * io.block_length + start) len c
    cut_end-slice = elim (Bool-cases (ltb_ℤ (pos len) z)) [
      | inl over ↦
          let count = pos_part (z -ℤ pos len) in
          let exact : count + start + len ≡ k * io.block_length =
            omega (arith, excess z len over, r.balance) in
          rw over (
            join_trimmed start count io.block_length b bs r.lengths before (omega (arith, r.tight))
            ∙ ap (λ (t : ℕ). take t (drop start all))
                (let e : length all - start - count ≡ len = omega (arith, length-all) in e)
            ∙ slice-all)
      | inr even ↦
          let exact : start + len ≡ k * io.block_length =
            omega (arith, no_excess z len even, r.balance) in
          rw even (
            join_headless start io.block_length b bs r.lengths before
            ∙ sym (take_all len (drop start all) (omega (arith, length-all, length-drop start all)))
            ∙ slice-all)
    ]

  IsRead-nil :
      (first start len : ℕ)
      → 0 < start + len
      → IsRead io Holds m c first start len 0 (sub_ℕ 0 start) []
  IsRead-nil first start len some_bytes = record {
    content =
        ap (λ (n : ℕ). take n (drop (first * io.block_length) c))
          (let e : 0 ≡ 0 * io.block_length = omega arith in e);
    lengths = tt;
    counted = refl;
    balance = ground arith;
    tight = omega (arith, m.positive);
  }

  -- What follows the loop: there is a first block, since the range or its offset is not empty.
  assemble-Returns :
      (offset first start len : ℕ) (r : Outcome (ℤ × List Bytes) × D)
      → first * io.block_length + start ≡ offset
      → Ended io Holds m c first start len r
      → start ≤ io.block_length
      → 0 < start + len
      → Returns
          (and_then r (λ x. or_raise (assemble start len x.0 x.1) index_error))
          (slice offset len c)
          (Holds c)
  assemble-Returns offset first start len r parts e before some_bytes =
      rw e.run.returns (go e.result e.read)
    where
      go :
          (bs : List Bytes)
          → IsRead io Holds m c first start len e.rounds e.result_len bs
          → Returns
              (or_raise (assemble start len e.result_len bs) index_error e.run.state)
              (slice offset len c)
              (Holds c)
      go [] x =
          absurd (omega (arith, x.counted, e.enough, ap (λ (t : ℕ). t * io.block_length) x.counted))
      go (b ∷ bs) x = record {
        state = e.run.state;
        returns =
            ap (λ t. (ok t, e.run.state))
              (cut_end-slice first start len e.rounds e.result_len b bs x before e.enough
                ∙ ap (λ (i : ℕ). slice i len c) parts);
        post = e.run.post;
      }

  -- A range that the card holds is read, unless it is empty and begins at a block's start, and
  -- the card keeps its bytes.
  pub read_range-slice :
      (offset len : ℕ)
      → offset + len ≤ io.max_length
      → 0 < offset % io.block_length + len
      → Returns (read_range io offset len s) (slice offset len c) (Holds c)
  unfolding read_range
  read_range-slice offset len fits some_bytes =
      let first = offset / io.block_length in
      let start = offset % io.block_length in
      rw (le→ltb io.max_length (offset + len) fits) (
        assemble-Returns offset first start len _ (div-add-mod' offset io.block_length)
          (read_blocks-Ended io Holds m c first start len
            (omega (arith, div-add-mod' offset io.block_length)) (suc (start + len)) first 0
            (sub_ℕ 0 start) [] s h (IsRead-nil first start len some_bytes) (omega arith)
            (omega arith))
          (omega (arith, m.positive)) some_bytes)
