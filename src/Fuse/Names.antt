-- ===== src/Fuse/Names.antt =====
-- The names of blocks in the file system, written and read.
use ps3_memorycard_adapter.Prelude.{
  ℕ, zero, suc, ◌+◌, ◌/◌, ◌%◌, ◌<◌, ◌≡◌, refl, ap, ◌∙◌, inl, inr, true, false, some, [], ◌∷◌, arith,
  length, ltb, ltb→lt, ltb→le, ◌==◌, ==_ne, Bool-cases, ok,
}
use ps3_memorycard_adapter.Dict.{nat_key}
use ps3_memorycard_adapter.Fuse.Card.{head}
use ps3_memorycard_adapter.Fuse.Save.{Text}
use ps3_memorycard_adapter.Fuse.Path.{
  pieces, split, Unicode, digits_from, digits, as_name, all_digits, add_digit, int_from, int_of,
  get_block_id,
}

NoSlash : Text → Type 0
NoSlash [] = Unit
NoSlash (c ∷ cs) = ((c == b'/') ≡ false) × NoSlash cs

pieces-NoSlash : (t : Text) → NoSlash t → pieces t ≡ t ∷ []
unfolding NoSlash
pieces-NoSlash [] h = refl
pieces-NoSlash (c ∷ cs) h = rw (h.0, pieces-NoSlash cs h.1)

split-NoSlash : (c : ℕ) (cs : Text) → NoSlash (c ∷ cs) → split (b'/' ∷ c ∷ cs) ≡ (c ∷ cs) ∷ []
unfolding split
split-NoSlash c cs h = rw (pieces-NoSlash (c ∷ cs) h) (rw (==_ne (suc (length cs)) 0 (omega arith)))

digit-NoSlash : (d : ℕ) → d < 10 → ((b'0' + d) == b'/') ≡ false
digit-NoSlash d h = ==_ne (b'0' + d) b'/' (omega arith)

digits_from-NoSlash :
    (fuel n : ℕ) (after : Text) → n < fuel → NoSlash after → NoSlash (digits_from fuel n after)
unfolding NoSlash
digits_from-NoSlash zero n after h k = absurd (omega arith)
digits_from-NoSlash (suc fuel) n after h k = elim (Bool-cases (ltb n 10)) [
  | inl last ↦ rw last (digit-NoSlash n (ltb→lt n 10 last), k)
  | inr more ↦
      let le = ltb→le n 10 more in
      rw more (
        digits_from-NoSlash fuel (n / 10) _ (omega arith) (digit-NoSlash (n % 10) (omega arith), k))
]

-- A text that is not empty.
record IsCons (t : Text) : Type 0 where
  first : ℕ
  rest : Text
  whole : t ≡ first ∷ rest

digits_from-IsCons : (fuel n : ℕ) (after : Text) → n < fuel → IsCons (digits_from fuel n after)
digits_from-IsCons zero n after h = absurd (omega arith)
digits_from-IsCons (suc fuel) n after h = elim (Bool-cases (ltb n 10)) [
  | inl last ↦ rw last (record { first = b'0' + n; rest = after; whole = refl })
  | inr more ↦
      let le = ltb→le n 10 more in rw more (digits_from-IsCons fuel (n / 10) _ (omega arith))
]

module _ (unicode : Unicode) where
  digits_from-all_digits :
      (fuel n : ℕ) (after : Text)
      → n < fuel
      → all_digits unicode after ≡ true
      → all_digits unicode (digits_from fuel n after) ≡ true
  digits_from-all_digits zero n after h k = absurd (omega arith)
  digits_from-all_digits (suc fuel) n after h k = elim (Bool-cases (ltb n 10)) [
    | inl last ↦ rw last (rw (unicode.ascii_is_digit n (ltb→lt n 10 last)) k)
    | inr more ↦
        let le = ltb→le n 10 more in
        rw more (
          digits_from-all_digits fuel (n / 10) _ (omega arith)
            (rw (unicode.ascii_is_digit (n % 10) (omega arith)) k))
  ]

  int_from-digits_from :
      (fuel n : ℕ) (after : Text)
      → n < fuel
      → int_from unicode (some 0) (digits_from fuel n after) ≡ int_from unicode (some n) after
  int_from-digits_from zero n after h = absurd (omega arith)
  int_from-digits_from (suc fuel) n after h = elim (Bool-cases (ltb n 10)) [
    | inl last ↦ rw last (
        ap (λ o. int_from unicode (add_digit unicode 0 o) after)
          (unicode.ascii_decimal n (ltb→lt n 10 last))
        ∙ ap (λ (k : ℕ). int_from unicode (some k) after) (omega arith))
    | inr more ↦
        let le = ltb→le n 10 more in
        rw more (
          int_from-digits_from fuel (n / 10) _ (omega arith)
          ∙ ap (λ o. int_from unicode (add_digit unicode (n / 10) o) after)
              (unicode.ascii_decimal (n % 10) (omega arith))
          ∙ ap (λ (k : ℕ). int_from unicode (some k) after) (omega arith))
  ]

  -- What `getBlockId` needs of a name.
  record Names (t : Text) (n : ℕ) : Type 0 where
    shape : IsCons t
    plain : NoSlash t
    all : all_digits unicode t ≡ true
    value : int_of unicode t ≡ some n

  digits-Names : (n : ℕ) → Names (digits n) n
  unfolding digits NoSlash
  digits-Names n = record {
    shape = digits_from-IsCons (suc n) n [] (omega arith);
    plain = digits_from-NoSlash (suc n) n [] (omega arith) tt;
    all = digits_from-all_digits (suc n) n [] (omega arith) refl;
    value = int_from-digits_from (suc n) n [] (omega arith);
  }

  as_name-Names : (n : ℕ) → Names (as_name (head n)) n
  unfolding as_name NoSlash
  as_name-Names n =
      let d = digits-Names n in
      elim (Bool-cases (ltb n 10)) [
        | inl short ↦ rw short (record {
          shape = record { first = b'0'; rest = digits n; whole = refl };
          plain = (refl, d.plain);
          all = rw (unicode.ascii_is_digit 0 (omega arith)) d.all;
          value =
              ap (λ o. int_from unicode (add_digit unicode 0 o) (digits n))
                (unicode.ascii_decimal 0 (omega arith))
              ∙ d.value;
        })
        | inr long ↦ rw long d
      ]

  named :
      {S : Type 0} (t : Text) (n : ℕ) (s : S)
      → Names t n
      → get_block_id unicode t s ≡ (ok (some n), s)
  unfolding get_block_id
  named [] n s d = let e = d.shape.whole in cc
  named (c ∷ cs) n s d = rw (d.all) (rw d.value)

  -- The name of a block is read back as its number.
  pub get_block_id-as_name :
      {S : Type 0} (n : ℕ) (s : S) → get_block_id unicode (as_name (head n)) s ≡ (ok (some n), s)
  get_block_id-as_name n s = named (as_name (head n)) n s (as_name-Names n)

  -- The path of a block in the root.
  abbrev pub block_path : ℕ → Text
  block_path n = b'/' ∷ as_name (head n)

  split_named : (t : Text) (n : ℕ) → Names t n → split (b'/' ∷ t) ≡ t ∷ []
  split_named [] n d = let e = d.shape.whole in cc
  split_named (c ∷ cs) n d = split-NoSlash c cs d.plain

  pub split-as_name : (n : ℕ) → split (b'/' ∷ as_name (head n)) ≡ as_name (head n) ∷ []
  split-as_name n = split_named (as_name (head n)) n (as_name-Names n)
