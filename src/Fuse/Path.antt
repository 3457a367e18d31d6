-- ===== src/Fuse/Path.antt =====
-- The names of fuse/main.py: `split`, `getBlockId` and `asName`.
use ps3_memorycard_adapter.Prelude.{
  ℕ, zero, suc, ◌+◌, ◌*◌, ◌/◌, ◌%◌, ◌<◌, ◌≡◌, Bool, true, false, ◌&&◌, Option, none, some, List, [],
  ◌∷◌, length, ltb, ◌==◌, if◌then◌else◌, value_error, Action, pure, or_raise, ◌>>=◌,
}
use ps3_memorycard_adapter.Fuse.Card.{Target, head, orphan}
use ps3_memorycard_adapter.Fuse.Save.{Text}

-- os.path.sep
abbrev pub path_separator : ℕ
path_separator = b'/'

abbrev pub onto_first : ℕ → List Text → List Text
onto_first c [] = (c ∷ []) ∷ []
onto_first c (t ∷ ts) = (c ∷ t) ∷ ts

-- `path.split('/')`
abbrev pub pieces : Text → List Text
pieces [] = [] ∷ []
pieces (c ∷ cs) =
    let rest = pieces cs in if c == path_separator then [] ∷ rest else onto_first c rest

abbrev pub not_empty : List Text → List Text
not_empty [] = []
not_empty (t ∷ ts) = let rest = not_empty ts in if length t == 0 then rest else t ∷ rest

-- `split`
unfoldable pub split : Text → List Text
split path = not_empty (pieces path)

-- The characters of Python's texts: `c.isdigit()`, and the digit of a number that `int` takes it
-- for. There are characters of the first kind that `int` refuses.
pub record Unicode : Type 0 where
  pub is_digit : ℕ → Bool
  pub decimal : ℕ → Option ℕ
  pub ascii_is_digit : (d : ℕ) → d < 10 → is_digit (b'0' + d) ≡ true
  pub ascii_decimal : (d : ℕ) → d < 10 → decimal (b'0' + d) ≡ some d

-- What '%i' % n writes.
abbrev pub digits_from : ℕ → ℕ → Text → Text
digits_from zero n after = after
digits_from (suc fuel) n after =
    let longer = digits_from fuel (n / 10) ((b'0' + n % 10) ∷ after) in
    if ltb n 10 then (b'0' + n) ∷ after else longer

unfoldable pub digits : ℕ → Text
digits n = digits_from (suc n) n []

-- `asName`: '%02i' % block_id
unfoldable pub as_name : Target → Text
as_name (head n) = if ltb n 10 then b'0' ∷ digits n else digits n
as_name orphan = b'-' ∷ b'1' ∷ []

module _ (unicode : Unicode) where
  abbrev pub all_digits : Text → Bool
  all_digits [] = true
  all_digits (c ∷ cs) = unicode.is_digit c && all_digits cs

  -- `name.isdigit()`
  abbrev pub is_digit_text : Text → Bool
  is_digit_text [] = false
  is_digit_text (c ∷ cs) = all_digits (c ∷ cs)

  -- `int(name)` of such a text; `none` is a ValueError.
  abbrev pub add_digit : ℕ → Option ℕ → Option ℕ
  add_digit n none = none
  add_digit n (some d) = some (n * 10 + d)

  abbrev pub int_from : Option ℕ → Text → Option ℕ
  int_from none cs = none
  int_from (some n) [] = some n
  int_from (some n) (c ∷ cs) = int_from (add_digit n (unicode.decimal c)) cs

  abbrev pub int_of : Text → Option ℕ
  int_of name = int_from (some 0) name

  -- `getBlockId`
  unfoldable pub get_block_id {ℓ} : {S : Type ℓ} → Text → Action S (Option ℕ)
  get_block_id name =
      if is_digit_text name
      then (do n ← or_raise (int_of name) value_error; pure (some n))
      else pure none
