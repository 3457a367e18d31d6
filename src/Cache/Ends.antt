-- ===== src/Cache/Ends.antt =====
-- The loop of `__init__`: how much of the file each part of a round reads.
use ps3_memorycard_adapter.Prelude.{
  ℕ, zero, suc, ◌≤◌, ◌<◌, ◌≡◌, refl, ◌≢◌, Bool, Bool-cases, inl, inr, Option, none, some, [], ◌∷◌,
  arith, ◌==◌, length, take, drop, length-drop, Bytes, value_error, Outcome, ok, raised, no_fuel,
  and_then, ◌>>=◌, pure, or_raise,
}
use ps3_memorycard_adapter.Prelude.Int.{ℤ, pos, negsuc}
use ps3_memorycard_adapter.Struct.{unpack_big_h}
use ps3_memorycard_adapter.Dict.{value_key}
use ps3_memorycard_adapter.Cache.{
  Unread, Entries, opened, init, read, read_length, read_counted, read_data, read_items, read_tuple,
  read_after, read_entry, load_entries,
}

-- The call ended, and left no more to read than there was.
abbrev pub Shrinks {ℓ} : {A : Type ℓ} → ℕ → Outcome A × Unread → Type 0
Shrinks n (ok a, rest) = length rest ≤ n
Shrinks n (raised e, rest) = length rest ≤ n
Shrinks n (no_fuel, rest) = ⊥

-- A key takes its length off the file at least.
abbrev ShrinksSome : ℕ → Outcome (Option Bytes) × Unread → Type 0
ShrinksSome n (ok none, rest) = length rest ≤ n
ShrinksSome n (ok (some b), rest) = length rest < n
ShrinksSome n (raised e, rest) = length rest ≤ n
ShrinksSome n (no_fuel, rest) = ⊥

Shrinks-bind {ℓ κ} :
    {A : Type ℓ} {B : Type κ} (n : ℕ) (r : Outcome A × Unread) (f : A → Unread → Outcome B × Unread)
    → Shrinks n r
    → ((a : A) (rest : Unread) → length rest ≤ n → Shrinks n (f a rest))
    → Shrinks n (and_then r f)
Shrinks-bind n (ok a, rest) f h k = k a rest h
Shrinks-bind n (raised e, rest) f h k = h
Shrinks-bind n (no_fuel, rest) f h k = h

Shrinks-mono {ℓ} :
    {A : Type ℓ} (m n : ℕ) (r : Outcome A × Unread) → m ≤ n → Shrinks m r → Shrinks n r
Shrinks-mono m n (ok a, rest) h k = omega arith
Shrinks-mono m n (raised e, rest) h k = omega arith
Shrinks-mono m n (no_fuel, rest) h k = k

ShrinksSome-Shrinks : (n : ℕ) (r : Outcome (Option Bytes) × Unread) → ShrinksSome n r → Shrinks n r
ShrinksSome-Shrinks n (ok none, rest) h = h
ShrinksSome-Shrinks n (ok (some b), rest) h = omega arith
ShrinksSome-Shrinks n (raised e, rest) h = h
ShrinksSome-Shrinks n (no_fuel, rest) h = absurd h

read_length-Shrinks : (s : Bytes) → Shrinks (length s) (read_length s)
unfolding read_length read
read_length-Shrinks s = omega (arith, length-drop 2 s)

length_of_unpack : (s : Bytes) (z : ℤ) → unpack_big_h (take 2 s) ≡ some z → 2 ≤ length s
length_of_unpack [] z e = cc
length_of_unpack (x ∷ []) z e = cc
length_of_unpack (x ∷ y ∷ s) z e = omega arith

read_after-ShrinksSome :
    (s : Bytes) (o : Option ℤ)
    → unpack_big_h (take 2 s) ≡ o
    → ShrinksSome (length s) (read_after o (drop 2 s))
unfolding read_counted read
read_after-ShrinksSome s none e = omega (arith, length-drop 2 s)
read_after-ShrinksSome s (some (negsuc zero)) e = omega arith
read_after-ShrinksSome s (some (negsuc (suc n))) e = omega (arith, length-drop 2 s)
read_after-ShrinksSome s (some (pos n)) e = elim (Bool-cases (length (take n (drop 2 s)) == n)) [
  | inl full ↦
      rw full
        (omega (arith, length_of_unpack s (pos n) e, length-drop n (drop 2 s), length-drop 2 s))
  | inr short ↦ rw short (omega (arith, length-drop n (drop 2 s), length-drop 2 s))
]

read_data-ShrinksSome : (s : Bytes) → ShrinksSome (length s) (read_data s)
unfolding read_data read_length read
read_data-ShrinksSome s = read_after-ShrinksSome s (unpack_big_h (take 2 s)) refl

or_raise-Shrinks {ℓ} :
    {A : Type ℓ} (n : ℕ) (o : Option A) (s : Unread)
    → length s ≤ n
    → Shrinks n (or_raise o value_error s)
or_raise-Shrinks n none s h = h
or_raise-Shrinks n (some a) s h = h

read_items-Shrinks : (k : ℕ) (s : Bytes) → Shrinks (length s) (read_items k s)
unfolding read_items
read_items-Shrinks zero s = omega arith
read_items-Shrinks (suc k) s =
    Shrinks-bind (length s) (read_data s) _ (ShrinksSome-Shrinks _ _ (read_data-ShrinksSome s))
      λ found s₁ h₁.
        Shrinks-bind (length s) (or_raise found value_error s₁) _
          (or_raise-Shrinks (length s) found s₁ h₁)
          λ item s₂ h₂.
            Shrinks-bind (length s) (read_items k s₂) _
              (Shrinks-mono (length s₂) (length s) _ h₂ (read_items-Shrinks k s₂)) λ rest s₃ h₃. h₃

read_tuple-Shrinks : (z : ℤ) (s : Bytes) → Shrinks (length s) (read_tuple z s)
unfolding read_tuple
read_tuple-Shrinks (pos n) s = read_items-Shrinks n s
read_tuple-Shrinks (negsuc n) s = omega arith

read_entry-Shrinks : (cache : Entries) (key s : Bytes) → Shrinks (length s) (read_entry cache key s)
unfolding read_entry
read_entry-Shrinks cache key s =
    Shrinks-bind (length s) (read_length s) _ (read_length-Shrinks s) λ found s₁ h₁.
      Shrinks-bind (length s) (or_raise found value_error s₁) _
        (or_raise-Shrinks (length s) found s₁ h₁)
        λ n s₂ h₂.
          Shrinks-bind (length s) (read_tuple n s₂) _
            (Shrinks-mono (length s₂) (length s) _ h₂ (read_tuple-Shrinks n s₂)) λ values s₃ h₃. h₃

load_entries-Shrinks :
    (fuel : ℕ) (cache : Entries) (s : Bytes)
    → length s < fuel
    → Shrinks (length s) (load_entries fuel cache s)
unfolding load_entries
load_entries-Shrinks zero cache s h = absurd (omega arith)
load_entries-Shrinks (suc fuel) cache s h =
    go (load_entries-Shrinks fuel) (read_data s) (read_data-ShrinksSome s)
  where
    Induction : Type 0
    Induction =
        (next : Entries) (rest : Bytes)
        → length rest < fuel
        → Shrinks (length rest) (load_entries fuel next rest)

    round : Option Bytes → Unread → Outcome Entries × Unread
    round = elim [
      | none ↦ pure cache
      | some k ↦ (do next ← read_entry cache k; load_entries fuel next)
    ]

    go :
        Induction
        → (r : Outcome (Option Bytes) × Unread) → ShrinksSome (length s) r
        → Shrinks (length s) (and_then r round)
    go ih (ok none, rest) lt = lt
    go ih (ok (some k), rest) lt = Shrinks-mono (length rest) (length s) _ (omega arith) (
        Shrinks-bind (length rest) (read_entry cache k rest) (load_entries fuel)
          (read_entry-Shrinks cache k rest)
          λ next s₁ h₁. Shrinks-mono (length s₁) (length rest) _ h₁ (ih next s₁ (omega arith)))
    go ih (raised e, rest) lt = lt
    go ih (no_fuel, rest) lt = absurd lt

opened-Ends :
    (content : Bytes) (read_only : Bool) (r : Outcome Entries × Unread)
    → Shrinks (length content) r
    → opened content read_only r.0 ≢ no_fuel
opened-Ends content read_only (ok c, rest) h = λ e. cc
opened-Ends content read_only (raised x, rest) h = λ e. cc
opened-Ends content read_only (no_fuel, rest) h = absurd h

-- Loading ends on every file content, with an object or an exception: the loop has fuel enough.
pub init-Ends : (content : Bytes) (read_only : Bool) → init content read_only ≢ no_fuel
unfolding init
init-Ends content read_only =
    opened-Ends content read_only _
      (load_entries-Shrinks (suc (length content)) [] content (omega arith))
