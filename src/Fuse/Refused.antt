-- ===== src/Fuse/Refused.antt =====
-- `createSave`, `appendBlock`, `freeBlock` and `deleteSave` of fuse/ps1.py, on any card: what they
-- make with `chr` is a text, which a mapping does not take.
use ps3_memorycard_adapter.Prelude.{
  ℕ, zero, suc, ◌+◌, ◌≡◌, ◌≢◌, refl, ◌∙◌, inl, inr, Bool, true, false, not, Option, none, some,
  List, ltb, ◌==◌, Bool-cases, if◌then◌else◌, Exc, struct_error, value_error, type_error, Outcome,
  ok, raised, no_fuel, and_then, Action, raise, or_raise, str, ◌>>=◌,
}
use Prim.Native.Nat.{bit_and}
use ps3_memorycard_adapter.Struct.{unpack_little}
use ps3_memorycard_adapter.Fuse.Layout.{chained_block_value_none, block_status_used}
use ps3_memorycard_adapter.Fuse.Card.{
  Card, only_byte, xor_from, read, assign, invalidate, write, check_xor, iter_chained_blocks,
}
use ps3_memorycard_adapter.Fuse.Allocation.{
  mark_used, allocate_block, create_save, append_block, free_block, delete_save,
}

-- The call leaves the bytes of the card.
record StillBy {A : Type 0} (c : Card) (x : Outcome A × Card) : Type 0 where
  content : x.1.content ≡ c.content

abbrev Still : {A : Type 0} → Action Card A → Type 0
Still m = (c : Card) → StillBy c (m c)

-- The call does not return, and leaves the bytes of the card.
pub record RefusedBy {A : Type 0} (c : Card) (x : Outcome A × Card) : Type 0 where
  pub fails : (a : A) → x.0 ≢ ok a
  pub content : x.1.content ≡ c.content

abbrev pub Refused : {A : Type 0} → Action Card A → Type 0
Refused m = (c : Card) → RefusedBy c (m c)

StillBy-bind :
    {A B : Type 0} (c : Card) (x : Outcome A × Card) (f : A → Action Card B)
    → StillBy c x
    → ((a : A) → Still (f a))
    → StillBy c (and_then x f)
StillBy-bind c (ok a, c') f h k = record { content = (k a c').content ∙ h.content }
StillBy-bind c (raised e, c') f h k = record { content = h.content }
StillBy-bind c (no_fuel, c') f h k = record { content = h.content }

Still-bind :
    {A B : Type 0} (m : Action Card A) (f : A → Action Card B)
    → Still m
    → ((a : A) → Still (f a))
    → Still (m >>= f)
Still-bind m f h k c = StillBy-bind c (m c) f (h c) k

RefusedBy-bind :
    {A B : Type 0} (c : Card) (x : Outcome A × Card) (f : A → Action Card B)
    → StillBy c x
    → ((a : A) → Refused (f a))
    → RefusedBy c (and_then x f)
RefusedBy-bind c (ok a, c') f h k =
    let r = k a c' in record { fails = r.fails; content = r.content ∙ h.content }
RefusedBy-bind c (raised e, c') f h k = record { fails = λ b e'. cc; content = h.content }
RefusedBy-bind c (no_fuel, c') f h k = record { fails = λ b e'. cc; content = h.content }

Refused-bind :
    {A B : Type 0} (m : Action Card A) (f : A → Action Card B)
    → Still m
    → ((a : A) → Refused (f a))
    → Refused (m >>= f)
Refused-bind m f h k c = RefusedBy-bind c (m c) f (h c) k

RefusedBy-first :
    {A B : Type 0} (c : Card) (x : Outcome A × Card) (f : A → Action Card B)
    → RefusedBy c x
    → RefusedBy c (and_then x f)
RefusedBy-first c (ok a, c') f h = absurd (h.fails a refl)
RefusedBy-first c (raised e, c') f h = record { fails = λ b e'. cc; content = h.content }
RefusedBy-first c (no_fuel, c') f h = record { fails = λ b e'. cc; content = h.content }

-- What follows a refused call is not reached.
Refused-first :
    {A B : Type 0} (m : Action Card A) (f : A → Action Card B) → Refused m → Refused (m >>= f)
Refused-first m f h c = RefusedBy-first c (m c) f (h c)

Refused-Still : {A : Type 0} (m : Action Card A) → Refused m → Still m
Refused-Still m h c = record { content = (h c).content }

Still-same : {A : Type 0} (o : Outcome A) (c : Card) → StillBy c (o, c)
Still-same o c = record { content = refl }

Still-read : (size offset : ℕ) → Still (read size offset)
unfolding read
Still-read size offset c = record { content = refl }

Still-or_raise : {A : Type 0} (o : Option A) (e : Exc) → Still (or_raise o e)
Still-or_raise none e = Still-same (raised e)
Still-or_raise (some a) e = Still-same (ok a)

Still-if :
    {A : Type 0} (b : Bool) (m n : Action Card A) → Still m → Still n → Still (if b then m else n)
Still-if true m n h k = h
Still-if false m n h k = k

Refused-if :
    {A : Type 0} (b : Bool) (m n : Action Card A)
    → Refused m
    → Refused n
    → Refused (if b then m else n)
Refused-if true m n h k = h
Refused-if false m n h k = k

Refused-raise : {A : Type 0} (e : Exc) → Refused (raise {A = A} e)
Refused-raise e c = record { fails = λ a h. cc; content = refl }

Still-check_xor : (n : ℕ) → Still (check_xor n)
unfolding check_xor
Still-check_xor n =
    Still-bind _ _ (Still-read _ _)
      λ b. Still-if (xor_from 0 b == 0) _ _ (Still-same (ok tt)) (Still-same (raised value_error))

Still-invalidate : (offset : ℕ) → Still (invalidate offset)
Still-invalidate offset c = elim (Bool-cases (ltb offset 2048)) [
  | inl header ↦ rw header (record { content = refl })
  | inr body ↦ rw body (record { content = refl })
]

Refused-assign_text : (t : List ℕ) (offset : ℕ) → Refused (assign (str t) offset)
unfolding assign
Refused-assign_text t offset c = elim (Bool-cases (not c.writable)) [
  | inl no_write ↦ rw no_write (record { fails = λ a h. cc; content = refl })
  | inr to_write ↦ rw to_write (record { fails = λ a h. cc; content = refl })
]

Refused-write_text : (t : List ℕ) (offset : ℕ) → Refused (write (str t) offset)
unfolding write
Refused-write_text t offset =
    Refused-bind (invalidate offset) _ (Still-invalidate offset) λ _. Refused-assign_text t offset

Refused-mark_used : (n : ℕ) (is_head : Bool) → Refused (mark_used n is_head)
unfolding mark_used
Refused-mark_used n is_head = Refused-first _ _ (Refused-write_text _ _)

Refused-allocate_block : (n : ℕ) (is_head : Bool) → Refused (allocate_block n is_head)
unfolding allocate_block
Refused-allocate_block n is_head = Refused-bind _ _ (Still-check_xor n) λ _.
    Refused-bind _ _ (Still-read _ _) λ b.
      Refused-bind _ _ (Still-or_raise (only_byte b) type_error) λ state.
        Refused-if (bit_and state block_status_used == 0) _ _ (Refused-mark_used n is_head)
          (Refused-raise value_error)

Refused-free_block : (n : ℕ) → Refused (free_block n)
unfolding free_block
Refused-free_block n = Refused-bind _ _ (Still-read _ _) λ b.
    Refused-bind _ _ (Still-or_raise (only_byte b) value_error)
      λ state. Refused-first _ _ (Refused-write_text _ _)

Still-iter :
    {A : Type 0} (fuel : ℕ) (body : ℕ → A → Action Card A) (n : ℕ) (a : A)
    → ((k : ℕ) (x : A) → Still (body k x))
    → Still (iter_chained_blocks fuel body n a)
unfolding iter_chained_blocks
Still-iter zero body n a h = Still-same no_fuel
Still-iter (suc fuel) body n a h = Still-bind _ _ (Still-check_xor n) λ _.
    Still-bind _ _ (Still-read _ _) λ found.
      Still-bind _ _ (Still-or_raise (unpack_little 2 found) struct_error) λ next.
        Still-if (next == chained_block_value_none) _ _ (Still-same (ok a))
          (Still-bind _ _ (h (next + 1) a) λ x. Still-iter fuel body (next + 1) x h)

Refused-delete_save : (fuel n : ℕ) → Refused (delete_save fuel n)
unfolding delete_save
Refused-delete_save fuel n = Refused-bind _ _ (Still-read _ _) λ b.
    Refused-bind _ _ (Still-or_raise (only_byte b) type_error) λ state.
      Refused-if (bit_and state block_status_used == block_status_used) _ _
        (Refused-bind _ _
          (Still-iter fuel (λ k _. free_block k) n tt
            λ k x. Refused-Still (free_block k) (Refused-free_block k))
          λ _. Refused-free_block n)
        (Refused-raise value_error)

-- None of the four operations on blocks ever returns, on any card and for any blocks, also where
-- the card is mapped for writing and the block is the right one: each raises, or follows a chain
-- that does not end, and the bytes of the card stay.
pub block_operations-Refused :
    (fuel n m : ℕ)
    → Refused (create_save n)
      × Refused (append_block fuel n m)
      × Refused (free_block n)
      × Refused (delete_save fuel n)
unfolding create_save append_block
block_operations-Refused fuel n m = (
  Refused-allocate_block n true,
  Refused-first _ _ (Refused-allocate_block m false),
  Refused-free_block n,
  Refused-delete_save fuel n,
)
