-- ===== src/Fuse/Reading.antt =====
-- What `readData` reads of a save.
use ps3_memorycard_adapter.Prelude.{
  ==→ne, ℕ, zero, suc, ◌+◌, ◌-◌, ◌*◌, ◌/◌, ◌%◌, ◌≤◌, ◌<◌, ◌≡◌, ◌≢◌, min, refl, ap, sym, ◌∙◌, inl,
  inr, false, ◌||◌, none, some, List, [], ◌∷◌, ◌++◌, append_assoc, append-nil, arith, length, slice,
  slice_add, get_elem?, ltb, ltb→lt, ltb→le, ◌==◌, ==_iff, ==_ne, Bool-cases, if◌then◌else◌, Bytes,
  index_error, Outcome, ok, raised, and_then, pure, join,
}
use ps3_memorycard_adapter.Prelude.Int.{ℤ, pos, negsuc, ◌-ℤ◌, eq_of_parts, int_laws}
use ps3_memorycard_adapter.Fuse.Layout.{block_length}
use ps3_memorycard_adapter.Fuse.Card.{Card, read}
use ps3_memorycard_adapter.Fuse.Save.{Save, get_data_size, is_zero, read_parts, read_data}
use ps3_memorycard_adapter.Fuse.Blocks.{
  data_of, InImage, slice-data_of, join-append, get_elem?_there, get_elem?_beyond,
}

sub_within : (a b : ℕ) → b ≤ a → pos a -ℤ pos b ≡ pos (a - b)
sub_within a b h = eq_of_parts (pos a -ℤ pos b) (pos (a - b)) (omega int_laws)

sub_beyond : (a b : ℕ) → a < b → pos a -ℤ pos b ≡ negsuc (b - a - 1)
sub_beyond a b h = eq_of_parts (pos a -ℤ pos b) (negsuc (b - a - 1)) (omega int_laws)

sub_below : (j b : ℕ) → negsuc j -ℤ pos b ≡ negsuc (j + b)
sub_below j b = eq_of_parts (negsuc j -ℤ pos b) (negsuc (j + b)) (omega int_laws)

-- The bytes to the end of the block that an offset is in.
abbrev to_end : ℕ → ℕ
to_end offset = block_length - offset % block_length

module _ (ns : List ℕ) (c : Card) where
  -- A round of the loop, which reads to the end of a block.
  round :
      (fuel : ℕ) (size : ℤ) (offset n : ℕ) (result : List Bytes)
      → is_zero size ≡ false
      → get_elem? ns (offset / block_length) ≡ some n
      → read_parts (suc fuel) ns size offset result c
        ≡ read_parts fuel ns
            (size -ℤ pos (to_end offset))
            (offset + to_end offset)
            (result
              ++ slice (n * block_length + offset % block_length) (to_end offset) c.content ∷ [])
            c
  unfolding read_parts read
  round fuel size offset n result more e = rw (more, e) refl

  -- A round beyond the last block.
  round_beyond :
      (fuel : ℕ) (size : ℤ) (offset : ℕ) (result : List Bytes)
      → is_zero size ≡ false
      → get_elem? ns (offset / block_length) ≡ none
      → read_parts (suc fuel) ns size offset result c ≡ (raised index_error, c)
  unfolding read_parts
  round_beyond fuel size offset result more e = rw (more, e) refl

  -- Once the size is below 0, the loop runs off the list.
  read_parts-negsuc :
      (fuel j offset : ℕ) (result : List Bytes)
      → offset / block_length ≤ length ns
      → length ns < fuel + offset / block_length
      → read_parts fuel ns (negsuc j) offset result c ≡ (raised index_error, c)
  read_parts-negsuc zero j offset result h k = absurd (omega arith)
  read_parts-negsuc (suc fuel) j offset result h k =
      elim (Bool-cases (ltb (offset / block_length) (length ns))) [
        | inl e ↦
            let lt = ltb→lt (offset / block_length) (length ns) e in
            let (n, there) = get_elem?_there ns (offset / block_length) lt in
            let size = negsuc j in
            let parts =
              result
              ++ slice (n * block_length + offset % block_length) (to_end offset) c.content ∷ [] in
            round fuel size offset n result refl there
            ∙ ap (λ z. read_parts fuel ns z (offset + to_end offset) parts c)
                (sub_below j (to_end offset))
            ∙ read_parts-negsuc fuel (j + to_end offset) (offset + to_end offset) parts
                (omega arith) (omega arith)
        | inr e ↦ round_beyond fuel (negsuc j) offset result refl (
            get_elem?_beyond ns (offset / block_length)
              (ltb→le (offset / block_length) (length ns) e))
      ]

  -- The part that a round reads is what the save's data has there.
  part_of_data :
      (offset n : ℕ)
      → InImage ns c.content
      → get_elem? ns (offset / block_length) ≡ some n
      → slice (n * block_length + offset % block_length) (to_end offset) c.content
        ≡ slice offset (to_end offset) (data_of ns c.content)
  part_of_data offset n h e =
      let q = offset / block_length in
      let split : q * block_length + offset % block_length ≡ offset = omega arith in
      sym (slice-data_of ns c.content q n (offset % block_length) (to_end offset) h e (omega arith))
      ∙ ap (λ (j : ℕ). slice j (to_end offset) (data_of ns c.content)) split

  -- A read to the end of a block reads that part of the data.
  read_parts-aligned :
      (fuel k offset : ℕ) (result : List Bytes)
      → InImage ns c.content
      → offset + k ≤ length ns * block_length
      → (offset + k) % block_length ≡ 0
      → length ns < fuel + offset / block_length
      → and_then (read_parts fuel ns (pos k) offset result c) (λ parts. pure (join parts))
        ≡ (ok (join result ++ slice offset k (data_of ns c.content)), c)
  unfolding read_parts
  read_parts-aligned zero k offset result h fits aligned enough = absurd (omega arith)
  read_parts-aligned (suc fuel) zero offset result h fits aligned enough =
      ap (λ (b : Bytes). (ok b, c)) (sym (append-nil (join result)))
  read_parts-aligned (suc fuel) (suc k) offset result h fits aligned enough =
      let (n, there) = get_elem?_there ns (offset / block_length) (omega arith) in
      let b = slice (n * block_length + offset % block_length) (to_end offset) c.content in
      let left = suc k - to_end offset in
      let held = data_of ns c.content in
      let joined : join (result ++ b ∷ []) ++ slice (offset + to_end offset) left held
          ≡ join result ++ slice offset (suc k) held =
        ap (λ (t : Bytes). t ++ slice (offset + to_end offset) left held) (join-append result b)
        ∙ append_assoc (join result) b (slice (offset + to_end offset) left held)
        ∙ ap (λ (t : Bytes). join result ++ (t ++ slice (offset + to_end offset) left held))
            (part_of_data offset n h there)
        ∙ ap (λ (t : Bytes). join result ++ t)
            (sym (slice_add offset (to_end offset) left (suc k) held (omega arith))) in
      let finish : Outcome (List Bytes) × Card → Outcome Bytes × Card =
        λ x. and_then x (λ parts. pure (join parts)) in
      ap finish (round fuel (pos (suc k)) offset n result refl there)
      ∙ ap (λ z. finish (read_parts fuel ns z (offset + to_end offset) (result ++ b ∷ []) c))
          (sub_within (suc k) (to_end offset) (omega arith))
      ∙ read_parts-aligned fuel left (offset + to_end offset) (result ++ b ∷ []) h (omega arith)
          (omega arith) (omega arith)
      ∙ ap (λ (t : Bytes). (ok t, c)) joined

  -- A read that ends within a block goes on, below 0, to the end of the list.
  read_parts-within :
      (fuel k offset : ℕ) (result : List Bytes)
      → offset + k ≤ length ns * block_length
      → (offset + k) % block_length ≢ 0
      → k ≢ 0
      → length ns < fuel + offset / block_length
      → read_parts fuel ns (pos k) offset result c ≡ (raised index_error, c)
  read_parts-within zero k offset result fits within some_left enough = absurd (omega arith)
  read_parts-within (suc fuel) zero offset result fits within some_left enough =
      absurd (some_left refl)
  read_parts-within (suc fuel) (suc k) offset result fits within some_left enough =
      let (n, there) = get_elem?_there ns (offset / block_length) (omega arith) in
      let parts =
        result ++ slice (n * block_length + offset % block_length) (to_end offset) c.content ∷ [] in
      round fuel (pos (suc k)) offset n result refl there
      ∙ elim (Bool-cases (ltb (suc k) (to_end offset))) [
        | inl e ↦
            ap (λ z. read_parts fuel ns z (offset + to_end offset) parts c)
              (sub_beyond (suc k) (to_end offset) (ltb→lt (suc k) (to_end offset) e))
            ∙ read_parts-negsuc fuel (to_end offset - suc k - 1) (offset + to_end offset) parts
                (omega arith) (omega arith)
        | inr e ↦
            let le = ltb→le (suc k) (to_end offset) e in
            let left = suc k - to_end offset in
            ap (λ z. read_parts fuel ns z (offset + to_end offset) parts c)
              (sub_within (suc k) (to_end offset) le)
            ∙ read_parts-within fuel left (offset + to_end offset) parts (omega arith) (omega arith)
                (omega arith) (omega arith)
      ]

-- What a read of `count` bytes of the data of these blocks comes to: the bytes, where there are
-- none or they end with a block; else an IndexError.
abbrev pub whole_blocks : ℕ → ℕ → List ℕ → Bytes → Outcome Bytes
whole_blocks count offset ns content =
    if (count == 0) || ((offset + count) % block_length == 0)
    then ok (slice offset count (data_of ns content))
    else raised index_error

aligned_blocks :
    (count offset : ℕ) (ns : List ℕ) (content : Bytes)
    → (offset + count) % block_length ≡ 0
    → whole_blocks count offset ns content ≡ ok (slice offset count (data_of ns content))
aligned_blocks count offset ns content h =
    ap
      (λ (r : ℕ).
        if (count == 0) || (r == 0)
        then ok (slice offset count (data_of ns content))
        else raised index_error)
      h
    ∙ elim (Bool-cases (count == 0)) [ inl e ↦ rw e refl | inr e ↦ rw e refl ]

unaligned_blocks :
    (count offset : ℕ) (ns : List ℕ) (content : Bytes)
    → (offset + count) % block_length ≢ 0
    → count ≢ 0
    → whole_blocks count offset ns content ≡ raised index_error
unaligned_blocks count offset ns content h k =
    rw (==_ne count 0 k, ==_ne ((offset + count) % block_length) 0 h) refl

within_save :
    (ns : List ℕ) (count offset : ℕ) (c : Card)
    → InImage ns c.content
    → offset + count ≤ length ns * block_length
    → and_then
        (read_parts (suc (length ns)) ns (pos count) offset [] c)
        (λ parts. pure (join parts))
      ≡ (whole_blocks count offset ns c.content, c)
unfolding read_parts
within_save ns zero offset c h fits = refl
within_save ns (suc n) offset c h fits =
    let count = suc n in
    elim (Bool-cases ((offset + count) % block_length == 0)) [
      | inl e ↦
          let aligned = (==_iff ((offset + count) % block_length) 0).0 e in
          read_parts-aligned ns c (suc (length ns)) count offset [] h fits aligned (omega arith)
          ∙ ap (λ (x : Outcome Bytes). (x, c))
              (sym (aligned_blocks count offset ns c.content aligned))
      | inr e ↦
          let unaligned = ==→ne ((offset + count) % block_length) 0 e in
          ap (λ (x : Outcome (List Bytes) × Card). and_then x (λ parts. pure (join parts)))
            (read_parts-within ns c (suc (length ns)) count offset [] fits unaligned (omega arith)
              (omega arith))
          ∙ ap (λ (x : Outcome Bytes). (x, c))
              (sym (unaligned_blocks count offset ns c.content unaligned (omega arith)))
    ]

-- As much of the size as the save has.
abbrev pub available : Save → ℕ → ℕ → ℕ
available save size offset = min size (length save.block_list * block_length - offset)

-- On an image that has all the blocks of a save, `readData` gives the bytes of those blocks from
-- the offset on, as many as are asked for and the save has, where there are none or they end with
-- a block. Else it raises IndexError.
pub read_data-whole_blocks :
    (save : Save) (size offset : ℕ) (c : Card)
    → InImage save.block_list c.content
    → read_data save size offset c
      ≡ (whole_blocks (available save size offset) offset save.block_list c.content, c)
unfolding read_data get_data_size
read_data-whole_blocks save size offset c h =
    let ns = save.block_list in
    let count = min size (length ns * block_length - offset) in
    elim (Bool-cases (ltb offset (length ns * block_length))) [
      | inr e ↦
          let le = ltb→le offset (length ns * block_length) e in
          let none_left : 0 ≡ count = omega arith in
          rw e (ap (λ (n : ℕ). (whole_blocks n offset ns c.content, c)) none_left)
      | inl e ↦
          let lt = ltb→lt offset (length ns * block_length) e in
          rw e (within_save ns count offset c h (omega arith))
    ]
