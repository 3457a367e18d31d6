-- ===== src/Fuse/Closed.antt =====
-- The heads that the link map of a card names, and their entries in it.
use ps3_memorycard_adapter.Prelude.{
  ==→ne, some_eq, ℕ, zero, suc, ◌+◌, ◌-◌, ◌*◌, ◌≡◌, refl, ap, sym, ◌∙◌, inl, inr, Bool, true, false,
  not, none, some, [], ◌==◌, Bool-cases, if◌then◌else◌, value_error, struct_error, ==_iff, subst,
  Outcome, ok, raised, no_fuel, Action, and_then, ◌>>=◌, pure, or_raise,
}
use Prim.Native.Nat.{bit_and}
use ps3_memorycard_adapter.Struct.{unpack_little}
use ps3_memorycard_adapter.Dict.{lookup, insert, nat_key, lookup-insert_self, lookup-insert_ne}
use ps3_memorycard_adapter.Fuse.Layout.{
  block_count, block_header_length, block_status_used, block_status_linked,
  chained_block_number_offset, chained_block_number_length, chained_block_value_none,
}
use ps3_memorycard_adapter.Fuse.Card.{
  Target, head, orphan, LinkMap, Card, read, check_xor, only_byte, iter_chained_blocks, is_new,
  link_block, link_blocks, get_block_link_map,
}
use ps3_memorycard_adapter.Fuse.Cached.{cached_in, link_map_computed}

-- Of what a call returns, if it returns.
abbrev pub ReturnsBy : {A : Type 0} → (A → Type 0) → Outcome A → Type 0
ReturnsBy P (ok a) = P a
ReturnsBy P (raised e) = Unit
ReturnsBy P no_fuel = Unit

record Returns {A : Type 0} (P : A → Type 0) (m : Action Card A) : Type 0 where
  by : (c : Card) → ReturnsBy P ((m c).0)

Returns-pure : {A : Type 0} {P : A → Type 0} (a : A) → P a → Returns P (pure a)
Returns-pure a p = record { by = λ c. p }

module _ {A B : Type 0} {Q : B → Type 0} where
  ReturnsBy-and_then :
      (P : A → Type 0) (x : Outcome A × Card) (f : A → Action Card B)
      → ReturnsBy P (x.0)
      → ((a : A) → P a → Returns Q (f a))
      → ReturnsBy Q ((and_then x f).0)
  ReturnsBy-and_then P (ok a, c) f p k = (k a p).by c
  ReturnsBy-and_then P (raised e, c) f p k = tt
  ReturnsBy-and_then P (no_fuel, c) f p k = tt

  Returns-bind :
      (P : A → Type 0) (m : Action Card A) (f : A → Action Card B)
      → Returns P m
      → ((a : A) → P a → Returns Q (f a))
      → Returns Q (m >>= f)
  Returns-bind P m f r k = record { by = λ c. ReturnsBy-and_then P (m c) f (r.by c) k }

  -- After a call of which nothing is known.
  ReturnsBy-after :
      (x : Outcome A × Card) (f : A → Action Card B)
      → ((a : A) → Returns Q (f a))
      → ReturnsBy Q ((and_then x f).0)
  ReturnsBy-after (ok a, c) f k = (k a).by c
  ReturnsBy-after (raised e, c) f k = tt
  ReturnsBy-after (no_fuel, c) f k = tt

  Returns-after :
      (m : Action Card A) (f : A → Action Card B)
      → ((a : A) → Returns Q (f a))
      → Returns Q (m >>= f)
  Returns-after m f k = record { by = λ c. ReturnsBy-after (m c) f k }

Returns-if :
    {A : Type 0} {P : A → Type 0} (t : Bool) (a b : Action Card A)
    → Returns P a
    → Returns P b
    → Returns P (if t then a else b)
Returns-if true a b p q = p
Returns-if false a b p q = q

Returns-iter :
    {A : Type 0} (P : A → Type 0) (body : ℕ → A → Action Card A)
    → ((k : ℕ) (a : A) → P a → Returns P (body k a))
    → (fuel n : ℕ) (a : A) → P a
    → Returns P (iter_chained_blocks fuel body n a)
unfolding iter_chained_blocks
Returns-iter P body h zero n a p = record { by = λ c. tt }
Returns-iter P body h (suc fuel) n a p = Returns-after (check_xor n) _ λ _.
    Returns-after
      (read chained_block_number_length (n * block_header_length + chained_block_number_offset)) _
      λ found. Returns-after (or_raise (unpack_little 2 found) struct_error) _ λ next.
        Returns-if (next == chained_block_value_none) _ _ (Returns-pure a p) (
          Returns-bind P (body (next + 1) a) _ (h (next + 1) a p)
            λ a' p'. Returns-iter P body h fuel (next + 1) a' p')

head_eq : {i j : ℕ} → head i ≡ head j → i ≡ j
head_eq e = cc

-- A block that has an entry.
abbrev IsKnown : ℕ → LinkMap → Type 0
IsKnown h m = is_new (lookup h m) ≡ false

-- Every head that the link map names has an entry of its own.
abbrev pub Closed : LinkMap → Type 0
Closed m = (n h : ℕ) → lookup n m ≡ some (head h) → is_new (lookup h m) ≡ false

insert-IsKnown : (h n : ℕ) (t : Target) (m : LinkMap) → IsKnown h m → IsKnown h (insert n t m)
insert-IsKnown h n t m known = elim (Bool-cases (h == n)) [
  | inl same ↦ rw ((==_iff h n).0 same) (rw (lookup-insert_self n t m) refl)
  | inr other ↦ rw (lookup-insert_ne h n t m (==→ne h n other)) known
]

insert_self-IsKnown : (n : ℕ) (t : Target) (m : LinkMap) → IsKnown n (insert n t m)
insert_self-IsKnown n t m = rw (lookup-insert_self n t m) refl

-- Entering a target whose head has an entry.
insert-Closed :
    (n : ℕ) (t : Target) (m : LinkMap)
    → ((h : ℕ) → t ≡ head h → IsKnown h (insert n t m))
    → Closed m
    → Closed (insert n t m)
insert-Closed n t m known closed k h found = elim (Bool-cases (k == n)) [
  | inl same ↦ known h (
      some_eq (
        sym (lookup-insert_self n t m)
        ∙ ap (λ j. lookup j (insert n t m)) (sym ((==_iff k n).0 same))
        ∙ found))
  | inr other ↦
      insert-IsKnown h n t m (closed k h (sym (lookup-insert_ne k n t m (==→ne k n other)) ∙ found))
]

-- While a chain is followed from a head, the head stays known.
ClosedWith : ℕ → LinkMap → Type 0
ClosedWith h m = Closed m × IsKnown h m

chained-ClosedWith : (h n : ℕ) (m : LinkMap) → ClosedWith h m → ClosedWith h (insert n (head h) m)
unfolding ClosedWith
chained-ClosedWith h n m (closed, known) =
    let after = insert-IsKnown h n (head h) m known in
    (
      insert-Closed n (head h) m
          (λ k e. subst (λ j. IsKnown j (insert n (head h) m)) (head_eq e) after) closed,
      after,
    )

started-ClosedWith : (h : ℕ) (m : LinkMap) → Closed m → ClosedWith h (insert h (head h) m)
unfolding ClosedWith
started-ClosedWith h m closed =
    let after = insert_self-IsKnown h (head h) m in
    (
      insert-Closed h (head h) m
          (λ k e. subst (λ j. IsKnown j (insert h (head h) m)) (head_eq e) after) closed,
      after,
    )

Returns-weaken :
    {A : Type 0} {P Q : A → Type 0} (m : Action Card A)
    → ((a : A) → P a → Q a)
    → Returns P m
    → Returns Q m
Returns-weaken {A = A} {P = P} {Q = Q} m f r = record { by = λ c. weaken ((m c).0) (r.by c) }
  where
    weaken : (o : Outcome A) → ReturnsBy P o → ReturnsBy Q o
    weaken (ok a) p = f a p
    weaken (raised e) p = tt
    weaken no_fuel p = tt

link_block-Closed : (fuel n : ℕ) (m : LinkMap) → Closed m → Returns Closed (link_block fuel n m)
unfolding link_block ClosedWith
link_block-Closed fuel n m closed = Returns-after (check_xor n) _ λ _.
    Returns-after (read 1 (n * block_header_length)) _ λ b.
      Returns-after (or_raise (only_byte b) value_error) _ λ state.
        Returns-if (not (bit_and state block_status_used == block_status_used)) _ _
          (Returns-pure m closed)
          (Returns-if (not (bit_and state block_status_linked == 0)) _ _
            (Returns-pure _ (insert-Closed n orphan m (λ h e. cc) closed))
            (Returns-weaken _ (λ a p. p.0)
              (Returns-iter (ClosedWith n) _ (λ k a p. Returns-pure _ (chained-ClosedWith n k a p))
                fuel n _ (started-ClosedWith n m closed))))

link_blocks-Closed :
    (fuel count n : ℕ) (m : LinkMap) → Closed m → Returns Closed (link_blocks fuel count n m)
unfolding link_blocks
link_blocks-Closed fuel zero n m closed = Returns-pure m closed
link_blocks-Closed fuel (suc count) n m closed =
    Returns-bind Closed (if is_new (lookup n m) then link_block fuel n m else pure m) _
      (Returns-if (is_new (lookup n m)) _ _ (link_block-Closed fuel n m closed)
        (Returns-pure m closed))
      λ m' closed'. link_blocks-Closed fuel count (n + 1) m' closed'

-- `getBlockLinkMap` on a card whose link map is not cached: every head that the map names has an
-- entry in it, if it returns.
pub get_block_link_map-Closed :
    (fuel : ℕ) (c : Card) → c.link_map ≡ none → ReturnsBy Closed ((get_block_link_map fuel c).0)
get_block_link_map-Closed fuel c h =
    subst (λ (x : Outcome LinkMap × Card). ReturnsBy Closed (x.0))
      (sym (link_map_computed fuel c h))
      (Returns.by
        (Returns-bind Closed (link_blocks fuel (block_count - 1) 1 []) cached_in
          (link_blocks-Closed fuel (block_count - 1) 1 [] (λ n h e. absurd cc))
          (λ m closed. record { by = λ c'. closed }))
        c)
