-- ===== src/Fuse/Checksum.antt =====
-- The checksum of a block header, as `updateXOR` computes and `checkXOR` verifies it.
use ps3_memorycard_adapter.Prelude.{
  ℕ, suc, ◌+◌, ◌-◌, ◌*◌, ◌≤◌, ◌<◌, ◌≡◌, ◌≢◌, ◌↔◌, refl, ap, sym, ◌∙◌, inl, inr, Bool, true, false,
  [], ◌∷◌, ◌++◌, arith, length, take, drop, slice, slice_add, length-slice, take-append_ge,
  drop-append_le, length-drop, ◌==◌, ==_iff, ==_ne, Bool-cases, if◌then◌else◌, Bytes, value_error,
  Outcome, ok, raised,
}
use Prim.Native.Nat.{bit_xor}
use ps3_memorycard_adapter.Prelude.Xor.{bit_xor_self, bit_xor_left, bit_xor_right}
use ps3_memorycard_adapter.Fuse.Layout.{block_header_length}
use ps3_memorycard_adapter.Fuse.Card.{Card, xor_from, read, check_xor}

xor_from-append : (a : ℕ) (us vs : Bytes) → xor_from a (us ++ vs) ≡ xor_from (xor_from a us) vs
xor_from-append a [] vs = refl
xor_from-append a (u ∷ us) vs = xor_from-append (bit_xor a u) us vs

-- The bytes after a change do not make up for it.
xor_from_eq : (a b : ℕ) (bs : Bytes) → xor_from a bs ≡ xor_from b bs → a ≡ b
xor_from_eq a b [] e = e
xor_from_eq a b (x ∷ bs) e = bit_xor_right x a b (xor_from_eq (bit_xor a x) (bit_xor b x) bs e)

-- The bytes of a header.
abbrev pub header : ℕ → Bytes → Bytes
header n content = slice (n * block_header_length) block_header_length content

-- The bytes of a header before its checksum.
abbrev pub checked : ℕ → Bytes → Bytes
checked n content = slice (n * block_header_length) (block_header_length - 1) content

abbrev verdict : Bool → Outcome (Unit {0})
verdict passes = if passes then ok tt else raised value_error

check_xor_eq :
    (n : ℕ) (c : Card) → check_xor n c ≡ (verdict (xor_from 0 (header n c.content) == 0), c)
unfolding check_xor read
check_xor_eq n c = elim (Bool-cases (xor_from 0 (header n c.content) == 0)) [
  | inl e ↦ rw e refl
  | inr e ↦ rw e refl
]

passed :
    (t : Bool) (c : Card) → Path (Outcome (Unit {0}) × Card) (verdict t, c) (ok tt, c) → t ≡ true
passed true c e = refl
passed false c e = let o = ap (λ x. x.0) e in absurd cc

-- What it takes to pass.
check_xor_passed :
    (n : ℕ) (c : Card) → check_xor n c ≡ (ok tt, c) → xor_from 0 (header n c.content) ≡ 0
check_xor_passed n c e =
    (==_iff _ 0).0 (passed (xor_from 0 (header n c.content) == 0) c (sym (check_xor_eq n c) ∙ e))

check_xor_passes :
    (n : ℕ) (c : Card) → xor_from 0 (header n c.content) ≡ 0 → check_xor n c ≡ (ok tt, c)
check_xor_passes n c e = check_xor_eq n c ∙ ap (λ (x : ℕ). (verdict (x == 0), c)) e

only_one : (bs : Bytes) → length bs ≡ 1 → (b : ℕ) × (bs ≡ b ∷ [])
only_one [] h = absurd (omega arith)
only_one (b ∷ []) h = (b, refl)
only_one (b ∷ b' ∷ bs) h = absurd (omega arith)

-- The header of a block passes `checkXOR` exactly where its last byte is what `updateXOR` computes
-- of the other 127 bytes, for a block whose header the image has.
pub check_xor-xor_from :
    (n : ℕ) (c : Card)
    → (n + 1) * block_header_length ≤ length c.content
    → (check_xor n c ≡ (ok tt, c))
      ↔ (header n c.content ≡ checked n c.content ++ xor_from 0 (checked n c.content) ∷ [])
check_xor-xor_from n c h =
    let start = n * block_header_length in
    let front = checked n c.content in
    let (b, last) =
      only_one (slice (start + 127) 1 c.content)
        (length-slice (start + 127) 1 c.content (omega arith)) in
    let whole : header n c.content ≡ front ++ b ∷ [] =
      slice_add start 127 1 128 c.content refl ∙ ap (λ (t : Bytes). front ++ t) last in
    let folded : xor_from 0 (header n c.content) ≡ bit_xor (xor_from 0 front) b =
      ap (xor_from 0) whole ∙ xor_from-append 0 front (b ∷ []) in
    (
      λ ok_then.
          whole
          ∙ ap (λ (x : ℕ). front ++ x ∷ [])
              (bit_xor_left (xor_from 0 front) b (xor_from 0 front) (
                sym folded ∙ check_xor_passed n c ok_then ∙ sym (bit_xor_self (xor_from 0 front)))),
      λ e. check_xor_passes n c (
          ap (xor_from 0) e
          ∙ xor_from-append 0 front (xor_from 0 front ∷ [])
          ∙ bit_xor_self (xor_from 0 front)),
    )

slice-around :
    (start count : ℕ) (pre post : Bytes) (x : ℕ)
    → start ≤ length pre
    → length pre < start + count
    → slice start count (pre ++ x ∷ post)
      ≡ drop start pre ++ x ∷ take (count - (length pre - start) - 1) post
slice-around start count pre post x h k =
    let gap : count - length (drop start pre) ≡ suc (count - (length pre - start) - 1) =
      omega (arith, length-drop start pre) in
    ap (take count) (drop-append_le start pre (x ∷ post) h)
    ∙ take-append_ge count (drop start pre) (x ∷ post) (omega (arith, length-drop start pre))
    ∙ ap (λ (j : ℕ). drop start pre ++ take j (x ∷ post)) gap

-- A card whose header of the block passes `checkXOR` is one where any change of one byte of that
-- header is met with a ValueError.
pub check_xor-detects :
    (n : ℕ) (c c' : Card) (pre post : Bytes) (x y : ℕ)
    → c.content ≡ pre ++ x ∷ post
    → c'.content ≡ pre ++ y ∷ post
    → n * block_header_length ≤ length pre
    → length pre < (n + 1) * block_header_length
    → x ≢ y
    → check_xor n c ≡ (ok tt, c)
    → check_xor n c' ≡ (raised value_error, c')
check_xor-detects n c c' pre post x y e e' h k ne passes =
    check_xor_eq n c'
    ∙ ap (λ (t : Bool). (verdict t, c')) (==_ne (xor_from 0 (header n c'.content)) 0 differs)
  where
    start : ℕ
    start = n * block_header_length

    rest : Bytes
    rest = take (128 - (length pre - start) - 1) post

    folded :
        (content : Bytes) (b : ℕ)
        → content ≡ pre ++ b ∷ post
        → xor_from 0 (header n content) ≡ xor_from (bit_xor (xor_from 0 (drop start pre)) b) rest
    folded content b w =
        ap (λ (t : Bytes). xor_from 0 (header n t)) w
        ∙ ap (xor_from 0) (slice-around start 128 pre post b h (omega arith))
        ∙ xor_from-append 0 (drop start pre) (b ∷ rest)

    differs : xor_from 0 (header n c'.content) ≢ 0
    differs zero_there = ne (
        bit_xor_left (xor_from 0 (drop start pre)) x y (
          xor_from_eq _ _ rest (
            sym (folded c.content x e)
            ∙ check_xor_passed n c passes
            ∙ sym zero_there
            ∙ folded c'.content y e')))
