-- ===== src/Fuse/Kept.antt =====
-- What the operations of fuse/ leave of a card that was mapped for reading.
pub mod Blocks
pub mod Saves
pub mod Fs
use ps3_memorycard_adapter.Prelude.{
  ℕ, zero, suc, ◌+◌, ◌*◌, ◌≡◌, refl, sym, ◌∙◌, ap, inl, inr, Bool, true, false, not, Option, none,
  some, List, [], ◌∷◌, length, ltb, ◌==◌, Bool-cases, if◌then◌else◌, Bytes, Exc, struct_error,
  value_error, type_error, index_error, key_error, Outcome, ok, raised, no_fuel, and_then, Action,
  pure, raise, or_raise, assert, key_caught, value_caught, Value, bytes, str, ◌>>=◌,
}
use ps3_memorycard_adapter.Dict.{lookup, insert, nat_key}
use Prim.Native.Nat.{bit_and}
use ps3_memorycard_adapter.Struct.{unpack_little}
use ps3_memorycard_adapter.Fuse.Layout.{
  chained_block_value_none, block_status_used, block_status_linked,
}
use ps3_memorycard_adapter.Fuse.Card.{
  only_byte, xor_from, Target, head, orphan, LinkMap, Card, read, assign, invalidate, write,
  update_xor, check_xor, iter_chained_blocks, link_block, is_new, link_blocks, get_block_link_map,
  check_superblock, opened, init,
}
use ps3_memorycard_adapter.Fuse.Allocation.{
  mark_used, allocate_block, create_save, chain_blocks, get_save_block_count, set_save_block_count,
  append_block, free_block, delete_save,
}

-- The call leaves the bytes of a card that was mapped for reading, and the mapping.
pub record KeptBy {A : Type 0} (c : Card) (x : Outcome A × Card) : Type 0 where
  pub content : x.1.content ≡ c.content
  pub read_only : x.1.writable ≡ false

abbrev pub Kept : {A : Type 0} → Action Card A → Type 0
Kept m = (c : Card) → c.writable ≡ false → KeptBy c (m c)

KeptBy-bind :
    {A B : Type 0} (c : Card) (x : Outcome A × Card) (f : A → Action Card B)
    → KeptBy c x
    → ((a : A) → Kept (f a))
    → KeptBy c (and_then x f)
KeptBy-bind c (ok a, c') f h k =
    let r = k a c' h.read_only in
    record { content = r.content ∙ h.content; read_only = r.read_only }
KeptBy-bind c (raised e, c') f h k = record { content = h.content; read_only = h.read_only }
KeptBy-bind c (no_fuel, c') f h k = record { content = h.content; read_only = h.read_only }

pub Kept-bind :
    {A B : Type 0} (m : Action Card A) (f : A → Action Card B)
    → Kept m
    → ((a : A) → Kept (f a))
    → Kept (m >>= f)
Kept-bind m f h k c ro = KeptBy-bind c (m c) f (h c ro) k

pub Kept-same : {A : Type 0} (o : Outcome A) (c : Card) → c.writable ≡ false → KeptBy c (o, c)
Kept-same o c ro = record { content = refl; read_only = ro }

pub Kept-pure : {A : Type 0} (a : A) → Kept (pure a)
Kept-pure a = Kept-same (ok a)

pub Kept-raise : {A : Type 0} (e : Exc) → Kept (raise {A = A} e)
Kept-raise e = Kept-same (raised e)

pub Kept-or_raise : {A : Type 0} (o : Option A) (e : Exc) → Kept (or_raise o e)
Kept-or_raise none e = Kept-raise e
Kept-or_raise (some a) e = Kept-pure a

pub Kept-assert : (b : Bool) → Kept (assert b)
Kept-assert true = Kept-pure tt
Kept-assert false = Kept-raise _

pub Kept-if :
    {A : Type 0} (b : Bool) (m n : Action Card A) → Kept m → Kept n → Kept (if b then m else n)
Kept-if true m n h k = h
Kept-if false m n h k = k

pub Kept-read : (size offset : ℕ) → Kept (read size offset)
unfolding read
Kept-read size offset c ro = record { content = refl; read_only = ro }

assign-KeptBy : (buf : Value) (offset : ℕ) → Kept (assign buf offset)
unfolding assign
assign-KeptBy buf offset c ro =
    let refused : not c.writable ≡ true = ap not ro in
    rw refused (record { content = refl; read_only = ro })

Kept-invalidate : (offset : ℕ) → Kept (invalidate offset)
Kept-invalidate offset c ro = elim (Bool-cases (ltb offset 2048)) [
  | inl header ↦ rw header (record { content = refl; read_only = ro })
  | inr body ↦ rw body (record { content = refl; read_only = ro })
]

pub Kept-write : (buf : Value) (offset : ℕ) → Kept (write buf offset)
unfolding write
Kept-write buf offset =
    Kept-bind (invalidate offset) _ (Kept-invalidate offset) λ _. assign-KeptBy buf offset

pub Kept-update_xor : (n : ℕ) → Kept (update_xor n)
unfolding update_xor
Kept-update_xor n = Kept-bind _ _ (Kept-read _ _) λ b. Kept-write _ _

pub Kept-check_xor : (n : ℕ) → Kept (check_xor n)
unfolding check_xor
Kept-check_xor n =
    Kept-bind _ _ (Kept-read _ _)
      λ b. Kept-if (xor_from 0 b == 0) _ _ (Kept-pure tt) (Kept-raise value_error)

pub Kept-iter :
    {A : Type 0} (fuel : ℕ) (body : ℕ → A → Action Card A) (n : ℕ) (a : A)
    → ((k : ℕ) (x : A) → Kept (body k x))
    → Kept (iter_chained_blocks fuel body n a)
unfolding iter_chained_blocks
Kept-iter zero body n a h = Kept-same no_fuel
Kept-iter (suc fuel) body n a h = Kept-bind _ _ (Kept-check_xor n) λ _.
    Kept-bind _ _ (Kept-read _ _) λ found.
      Kept-bind _ _ (Kept-or_raise (unpack_little 2 found) struct_error) λ next.
        Kept-if (next == chained_block_value_none) _ _ (Kept-pure a)
          (Kept-bind _ _ (h (next + 1) a) λ x. Kept-iter fuel body (next + 1) x h)

Kept-link_block : (fuel n : ℕ) (m : LinkMap) → Kept (link_block fuel n m)
unfolding link_block
Kept-link_block fuel n m = Kept-bind _ _ (Kept-check_xor n) λ _. Kept-bind _ _ (Kept-read _ _) λ b.
    Kept-bind _ _ (Kept-or_raise (only_byte b) value_error) λ state.
      Kept-if (not (bit_and state block_status_used == block_status_used)) _ _ (Kept-pure m) (
        Kept-if (not (bit_and state block_status_linked == 0)) _ _ (Kept-pure (insert n orphan m))
          (Kept-iter fuel _ n (insert n (head n) m) λ k x. Kept-pure (insert k (head n) x)))

Kept-link_blocks : (fuel count n : ℕ) (m : LinkMap) → Kept (link_blocks fuel count n m)
unfolding link_blocks
Kept-link_blocks fuel zero n m = Kept-pure m
Kept-link_blocks fuel (suc count) n m =
    Kept-bind _ _ (Kept-if (is_new (lookup n m)) _ _ (Kept-link_block fuel n m) (Kept-pure m))
      λ next. Kept-link_blocks fuel count (n + 1) next

remember-Kept : (m : LinkMap) → Kept (λ c. (ok m, record c { link_map = some m }))
remember-Kept m c ro = record { content = refl; read_only = ro }

pub Kept-link_map : (fuel : ℕ) → Kept (get_block_link_map fuel)
unfolding get_block_link_map
Kept-link_map fuel c ro = go c.link_map
  where
    go :
        (o : Option LinkMap)
        → KeptBy c (elim o as (λ _. Outcome LinkMap × Card) [
          | some link_map ↦ (ok link_map, c)
          | none ↦
              and_then
                (link_blocks fuel 15 1 [] c)
                (λ link_map c'. (ok link_map, record c' { link_map = some link_map }))
        ])
    go none = KeptBy-bind c _ _ (Kept-link_blocks fuel 15 1 [] c ro) remember-Kept
    go (some m) = Kept-pure m c ro
