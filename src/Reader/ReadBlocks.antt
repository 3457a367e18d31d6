-- ===== src/Reader/ReadBlocks.antt =====
-- The loop of `read` on a card that can be read.
use ps3_memorycard_adapter.Prelude.{
  ℕ, zero, suc, ◌+◌, ◌*◌, ◌≤◌, ◌<◌, ◌≡◌, refl, ap, ap₂, sym, ◌∙◌, inl, inr, List, [], ◌∷◌, ◌++◌,
  arith, ==_refl, length, length-append, length-slice, slice, slice_add, Bool-cases, Bytes, join,
  Outcome,
}
use ps3_memorycard_adapter.Prelude.Int.{ℤ, pos, pos_part, neg_part, ltb_ℤ, ◌+ℤ◌, +ℤ_parts}
use ps3_memorycard_adapter.Reader.Blocks.{Blocks, read_blocks}
use ps3_memorycard_adapter.Reader.Media.{Readable, Returns}
use ps3_memorycard_adapter.Reader.Trim.{AllLength, AllLength-snoc, join-snoc}

pub mul_lt_cancel : (a b c : ℕ) → a * c < b * c → a < b
mul_lt_cancel a b c h = grind arith

pub add_of_mul_lt : (a b c : ℕ) → a < b → a * c + c ≤ b * c
add_of_mul_lt a b c h = grind arith

le_mul : (a c : ℕ) → 0 < c → a ≤ a * c
le_mul a zero h = absurd (omega arith)
le_mul a (suc c) h = omega arith

add_le_mul_of_lt : (a b c : ℕ) → a < b → 0 < c → a + c ≤ b * c
add_le_mul_of_lt a b c h p = omega (arith, add_of_mul_lt a b c h, le_mul a c p)

module _ {D : Type 0} (io : Blocks D) (Holds : Bytes → D → Type 0) (m : Readable io Holds)
    (c : Bytes) (first start len : ℕ) where
  -- The variables of the loop after k rounds: `result_len` and the blocks so far.
  pub record IsRead (k : ℕ) (z : ℤ) (bs : List Bytes) : Type 0 where
    pub content : join bs ≡ slice (first * io.block_length) (k * io.block_length) c
    pub lengths : AllLength io.block_length bs
    pub counted : length bs ≡ k
    pub balance : pos_part z + start ≡ k * io.block_length + neg_part z
    pub tight : k * io.block_length < start + len + io.block_length

  -- The loop has ended after k rounds, with enough.
  pub record Ended (r : Outcome (ℤ × List Bytes) × D) : Type 0 where
    pub rounds : ℕ
    pub result_len : ℤ
    pub result : List Bytes
    pub read : IsRead rounds result_len result
    pub enough : start + len ≤ rounds * io.block_length
    pub run : Returns r (result_len, result) (Holds c)

  module _ (room : first * io.block_length + start + len ≤ io.max_length) where
    in_card : (cur k : ℕ) → cur ≡ first + k → k * io.block_length < start + len → cur < m.count
    in_card cur k e h =
        mul_lt_cancel cur m.count io.block_length
          (omega (arith, m.whole, ap (λ (t : ℕ). t * io.block_length) e))

    abbrev block : ℕ → Bytes
    block cur = slice (cur * io.block_length) io.block_length c

    length-block :
        (cur k : ℕ) (s : D)
        → Holds c s
        → cur ≡ first + k
        → k * io.block_length < start + len
        → length (block cur) ≡ io.block_length
    length-block cur k s h e more = length-slice (cur * io.block_length) io.block_length c (
        omega (
          arith,
          m.size c s h,
          m.whole,
          add_of_mul_lt cur m.count io.block_length (in_card cur k e more),
        ))

    IsRead-snoc :
        (cur k : ℕ) (z : ℤ) (bs : List Bytes) (s : D)
        → Holds c s
        → IsRead k z bs
        → cur ≡ first + k
        → k * io.block_length < start + len
        → IsRead (suc k) (z +ℤ pos io.block_length) (bs ++ block cur ∷ [])
    IsRead-snoc cur k z bs s h r e more = record {
      content =
          join-snoc bs (block cur)
          ∙ ap₂ ◌++◌ r.content (
              ap (λ (i : ℕ). slice i io.block_length c)
                (omega (arith, ap (λ (t : ℕ). t * io.block_length) e)))
          ∙ sym (
              slice_add (first * io.block_length) (k * io.block_length) io.block_length
                (suc k * io.block_length) c (omega arith));
      lengths =
          AllLength-snoc io.block_length bs (block cur) r.lengths (length-block cur k s h e more);
      counted = omega (arith, r.counted, length-append bs (block cur ∷ []));
      balance = omega (arith, +ℤ_parts z (pos io.block_length), r.balance);
      tight = omega arith;
    }

    pub read_blocks-Ended :
        (fuel cur k : ℕ) (z : ℤ) (bs : List Bytes) (s : D)
        → Holds c s
        → IsRead k z bs
        → cur ≡ first + k
        → start + len < k + fuel
        → Ended (read_blocks io fuel cur z len bs s)
    unfolding read_blocks
    read_blocks-Ended zero cur k z bs s h r e enough =
        absurd
          (omega (arith, add_le_mul_of_lt (start + len) k io.block_length (omega arith) m.positive))
    read_blocks-Ended (suc fuel) cur k z bs s h r e enough = elim (Bool-cases (ltb_ℤ z (pos len))) [
      | inl more ↦
          let less : k * io.block_length < start + len = ground (arith, r.balance) in
          let got = m.reads c s cur h (in_card cur k e less) in
          rw (more, got.returns, length-block cur k s h e less, ==_refl io.block_length)
            (read_blocks-Ended fuel (cur + 1) (suc k) (z +ℤ pos io.block_length)
              (bs ++ block cur ∷ []) got.state got.post (IsRead-snoc cur k z bs s h r e less)
              (omega arith) (omega arith))
      | inr done ↦ rw done (record {
        rounds = k;
        result_len = z;
        result = bs;
        read = r;
        enough = ground (arith, r.balance);
        run = record { state = s; returns = refl; post = h };
      })
    ]
