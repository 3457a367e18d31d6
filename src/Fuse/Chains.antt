-- ===== src/Fuse/Chains.antt =====
-- The chains of blocks of a card: what is collected along one that ends, and one that does not.
use ps3_memorycard_adapter.Prelude.{
  ℕ, zero, suc, ◌+◌, ◌*◌, ◌<◌, ◌≡◌, ◌≢◌, refl, ap, sym, ◌∙◌, subst, Bool, Option, none, some, List,
  [], ◌∷◌, ◌++◌, append_assoc, append-nil, arith, length, slice, ◌==◌, ==_ne, ==_refl, ok, no_fuel,
  Action, and_then, ◌>>◌, pure, assert,
}
use Prim.Native.Nat.{bit_and}
use ps3_memorycard_adapter.Struct.{unpack_little}
use ps3_memorycard_adapter.Dict.{insert, nat_key}
use ps3_memorycard_adapter.Fuse.Layout.{
  block_length, block_header_length, block_status_used, block_status_linked, save_length_offset,
  save_length_length, chained_block_number_offset, chained_block_number_length,
  chained_block_value_none,
}
use ps3_memorycard_adapter.Fuse.Card.{
  head, Card, read, check_xor, iter_chained_blocks, link_block, link_blocks, get_block_link_map,
}
use ps3_memorycard_adapter.Fuse.Cached.{link_map_computed}
use ps3_memorycard_adapter.Fuse.Save.{get_data_size, new_save}

-- The number that the header of a block has for the block after it.
abbrev pub pointer : ℕ → Card → Option ℕ
pointer n c = unpack_little 2 (
    slice (n * block_header_length + chained_block_number_offset) chained_block_number_length
      c.content)

-- A header that passes `checkXOR`, and has this number.
pub record PointsTo (c : Card) (n v : ℕ) : Type 0 where
  pub passes : check_xor n c ≡ (ok tt, c)
  pub number : pointer n c ≡ some v

-- The blocks after a block, to the end of its chain.
pub data Chain (c : Card) : ℕ → List ℕ → Type 0 where
  last : {n : ℕ} → PointsTo c n chained_block_value_none → Chain c n []
  link :
      {n v : ℕ} {ks : List ℕ}
      → PointsTo c n v
      → v ≢ chained_block_value_none
      → Chain c (v + 1) ks
      → Chain c n ((v + 1) ∷ ks)

module _ {A : Type 0} (body : ℕ → A → Action Card A) (fuel n v : ℕ) (a : A) (c : Card)
    (p : PointsTo c n v) where
  iter_last : v ≡ chained_block_value_none → iter_chained_blocks (suc fuel) body n a c ≡ (ok a, c)
  unfolding iter_chained_blocks read
  iter_last e = rw (PointsTo.passes p, PointsTo.number p, e) refl

  iter_link :
      v ≢ chained_block_value_none
      → iter_chained_blocks (suc fuel) body n a c
        ≡ and_then (body (v + 1) a c) (λ a'. iter_chained_blocks fuel body (v + 1) a')
  unfolding iter_chained_blocks read
  iter_link ne = rw (PointsTo.passes p, PointsTo.number p, ==_ne v chained_block_value_none ne) refl

-- What is made of the blocks of a chain, one after the other.
abbrev over : {A : Type 0} → (ℕ → A → A) → A → List ℕ → A
over f a [] = a
over f a (k ∷ ks) = over f (f k a) ks

iter-Chain :
    {A : Type 0} (f : ℕ → A → A) (fuel n : ℕ) (ks : List ℕ) (a : A) (c : Card)
    → Chain c n ks
    → length ks < fuel
    → iter_chained_blocks fuel (λ k b. pure (f k b)) n a c ≡ (ok (over f a ks), c)
iter-Chain f zero n ks a c chain h = absurd (omega arith)
iter-Chain f (suc fuel) n [] a c (last p) h = iter_last _ fuel n chained_block_value_none a c p refl
iter-Chain f (suc fuel) n (_ ∷ ks) a c (link {v = v} p ne chain) h =
    iter_link _ fuel n v a c p ne ∙ iter-Chain f fuel (v + 1) ks (f (v + 1) a) c chain (omega arith)

over-append : (blocks ks : List ℕ) → over (λ k bs. bs ++ k ∷ []) blocks ks ≡ blocks ++ ks
over-append blocks [] = sym (append-nil blocks)
over-append blocks (k ∷ ks) = over-append (blocks ++ k ∷ []) ks ∙ append_assoc blocks (k ∷ []) ks

assert_same : {A : Type 0} (n : ℕ) (a : A) (c : Card) → (assert (n == n) >> pure a) c ≡ (ok a, c)
assert_same n a c = ap (λ (t : Bool). (assert t >> pure a) c) (==_refl n)

-- The size of the save that a block is the head of, as its header has it.
abbrev pub save_length : ℕ → Card → Option ℕ
save_length n c = unpack_little 4 (
    slice save_length_offset save_length_length
      (slice (n * block_header_length) block_header_length c.content))

-- A head whose chain ends gives the save of the head and the blocks of the chain, in their order,
-- where the size in the header is that of as many blocks, with fuel for each of them.
pub new_save-Chain :
    (fuel n : ℕ) (ks : List ℕ) (c : Card)
    → Chain c n ks
    → save_length n c ≡ some (suc (length ks) * block_length)
    → length ks < fuel
    → new_save fuel (head n) c ≡ (ok (record { block_list = n ∷ ks }), c)
unfolding new_save read get_data_size
new_save-Chain fuel n ks c chain size enough =
    let collected =
      iter-Chain (λ k blocks. blocks ++ k ∷ []) fuel n ks (n ∷ []) c chain enough
      ∙ ap (λ (bs : List ℕ). (ok bs, c)) (over-append (n ∷ []) ks) in
    rw (size, collected) (assert_same (suc (length ks) * block_length) _ c)

-- A chain that goes on from every block of it.
pub record Trail (c : Card) (trail : ℕ → ℕ) : Type 0 where
  pub goes :
      (i : ℕ)
      → (v : ℕ) × PointsTo c (trail i) v × (v ≢ chained_block_value_none) × (trail (suc i) ≡ v + 1)

iter-Trail :
    {A : Type 0} (f : ℕ → A → A) (c : Card) (trail : ℕ → ℕ)
    → Trail c trail
    → (fuel i : ℕ) (a : A)
    → iter_chained_blocks fuel (λ k b. pure (f k b)) (trail i) a c ≡ (no_fuel, c)
unfolding iter_chained_blocks
iter-Trail f c trail t zero i a = refl
iter-Trail f c trail t (suc fuel) i a =
    let (v, p, ne, e) = t.goes i in
    iter_link (λ k b. pure (f k b)) fuel (trail i) v a c p ne
    ∙ ap (λ (k : ℕ). iter_chained_blocks fuel (λ k b. pure (f k b)) k (f (v + 1) a) c) (sym e)
    ∙ iter-Trail f c trail t fuel (suc i) (f (v + 1) a)

module _ (c : Card) (trail : ℕ → ℕ) (state : ℕ) (t : Trail c trail) (first : trail 0 ≡ 1)
    (byte : slice block_header_length 1 c.content ≡ state ∷ [])
    (used : bit_and state block_status_used ≡ block_status_used)
    (unlinked : bit_and state block_status_linked ≡ 0) where
  link_block-Trail : (fuel : ℕ) → link_block fuel 1 [] c ≡ (no_fuel, c)
  unfolding link_block read
  link_block-Trail fuel =
      let (v, p, ne, e) = t.goes 0 in
      let passes : check_xor 1 c ≡ (ok tt, c) =
        subst (λ k. check_xor k c ≡ (ok tt, c)) first p.passes in
      let never =
        ap
          (λ (k : ℕ).
            iter_chained_blocks fuel (λ n m. pure (insert n (head 1) m)) k (insert 1 (head 1) []) c)
          (sym first)
        ∙ iter-Trail (λ n m. insert n (head 1) m) c trail t fuel 0 (insert 1 (head 1) []) in
      rw (passes, byte, used, unlinked) never

-- Where block 1 is the head of a save whose chain goes on from every block of it, the link map is
-- never computed: no fuel is enough.
pub get_block_link_map-Trail :
    (c : Card) (trail : ℕ → ℕ) (state : ℕ)
    → c.link_map ≡ none
    → Trail c trail
    → trail 0 ≡ 1
    → slice block_header_length 1 c.content ≡ state ∷ []
    → bit_and state block_status_used ≡ block_status_used
    → bit_and state block_status_linked ≡ 0
    → (fuel : ℕ) → get_block_link_map fuel c ≡ (no_fuel, c)
unfolding link_blocks
get_block_link_map-Trail c trail state fresh t first byte used unlinked fuel =
    link_map_computed fuel c fresh
    ∙ rw (link_block-Trail c trail state t first byte used unlinked fuel) refl
