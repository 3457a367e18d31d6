-- ===== src/Fuse/Links.antt =====
-- What the file system shows of the link map of a card.
use ps3_memorycard_adapter.Prelude.{
  ℕ, ◌≡◌, ◌≢◌, refl, ap, sym, ◌∙◌, inl, inr, Bool, false, Option, none, some, ◌∷◌, arith, ◌==◌,
  ==_iff, true, Bool-cases, if◌then◌else◌, Outcome, ok,
}
use ps3_memorycard_adapter.Dict.{lookup, nat_key}
use ps3_memorycard_adapter.Fuse.Card.{Target, head, orphan, LinkMap, Card, is_new}
use ps3_memorycard_adapter.Fuse.Save.{Text}
use ps3_memorycard_adapter.Fuse.Path.{Unicode, as_name}
use ps3_memorycard_adapter.Fuse.Fs.{getattr, readlink}
use ps3_memorycard_adapter.Fuse.Replies.{
  enoent, error, result, Stat, block_stat, link_answer, orphan_stat, link_stat, save_stat,
}
use ps3_memorycard_adapter.Fuse.Names.{split-as_name, get_block_id-as_name}
use ps3_memorycard_adapter.Fuse.Closed.{Closed}
use ps3_memorycard_adapter.Fuse.Cached.{link_map_cached}

ok_eq : {A : Type 0} {a b : A} → ok a ≡ ok b → a ≡ b
ok_eq e = cc

result_eq : {A : Type 0} {a b : A} → result a ≡ result b → a ≡ b
result_eq e = cc

shown_ne : (s : Stat) → result s ≢ error enoent
shown_ne s e = cc

kind_ne : orphan_stat ≢ link_stat
kind_ne e = let k = ap (λ s. s.st_mode) e in absurd (omega arith)

-- The path of a block in the root.
abbrev pub block_path : ℕ → Text
block_path n = b'/' ∷ as_name (head n)

not_missing : (n : ℕ) (o : Option Target) → is_new o ≡ false → block_stat n o ≢ error enoent
not_missing n none h e = cc
not_missing n (some orphan) h e = cc
not_missing n (some (head h)) k e = elim (Bool-cases (h == n)) [
  | inl same ↦ absurd (
      shown_ne save_stat
        (sym (ap (λ (t : Bool). if t then result save_stat else result link_stat) same) ∙ e))
  | inr other ↦ absurd (
      shown_ne link_stat
        (sym (ap (λ (t : Bool). if t then result save_stat else result link_stat) other) ∙ e))
]

save_ne : save_stat ≢ link_stat
save_ne e = let k = ap (λ s. s.st_mode) e in absurd (omega arith)

other_head : (n k : ℕ) → block_stat n (some (head k)) ≡ result link_stat → k ≢ n
other_head n k h e =
    let same : (k == n) ≡ true = (==_iff k n).1 e in
    save_ne (
      result_eq
        (sym (ap (λ (t : Bool). if t then result save_stat else result link_stat) same) ∙ h))

-- What `getattr` shows as a link has the number of a head.
link_of :
    (n : ℕ) (m : LinkMap) (o : Option Target)
    → lookup n m ≡ o
    → block_stat n o ≡ result link_stat
    → (h : ℕ) × (lookup n m ≡ some (head h)) × (h ≢ n)
link_of n m none e h = absurd cc
link_of n m (some orphan) e h = absurd (kind_ne (result_eq h))
link_of n m (some (head k)) e h = (k, e, other_head n k h)

answer_eq :
    {A : Type 0} {a b : A} {c d : Card} → Path (Outcome A × Card) (ok a, c) (ok b, d) → a ≡ b
answer_eq e = ok_eq (ap (λ x. x.0) e)

module _ (unicode : Unicode) (fuel : ℕ) (c : Card) (m : LinkMap)
    (cached : c.link_map ≡ some m) where
  getattr_named :
      (n : ℕ) → getattr unicode fuel (block_path n) c ≡ (ok (block_stat n (lookup n m)), c)
  unfolding getattr
  getattr_named n =
      rw (split-as_name unicode n)
        (rw (get_block_id-as_name unicode n c) (rw (link_map_cached fuel c m cached) refl))

  readlink_named :
      (n : ℕ) → readlink unicode fuel (block_path n) c ≡ (ok (link_answer (lookup n m)), c)
  unfolding readlink
  readlink_named n =
      rw (split-as_name unicode n)
        (rw (link_map_cached fuel c m cached) (rw (get_block_id-as_name unicode n c) refl))

  -- A link leads to the other block that the link map has for it, and that is there.
  pub record LeadsTo (n h : ℕ) : Type 0 where
    pub mapped : lookup n m ≡ some (head h)
    pub other : h ≢ n
    pub target : readlink unicode fuel (block_path n) c ≡ (ok (result (as_name (head h))), c)
    pub there : getattr unicode fuel (block_path h) c ≢ (ok (error enoent), c)

  -- Where every head that the cached link map names has an entry, a block that `getattr` shows as a
  -- link is one that `readlink` gives the name of the head for that the map has for it, this head is
  -- another block, and `getattr` finds it.
  pub getattr-readlink :
      (n : ℕ)
      → Closed m
      → getattr unicode fuel (block_path n) c ≡ (ok (result link_stat), c)
      → (h : ℕ) × LeadsTo n h
  getattr-readlink n closed shown =
      let (h, e, ne) = link_of n m (lookup n m) refl (answer_eq (sym (getattr_named n) ∙ shown)) in
      (
        h,
        record {
          mapped = e;
          other = ne;
          target = readlink_named n ∙ ap (λ o. (ok (link_answer o), c)) e;
          there = λ k.
              not_missing h (lookup h m) (closed n h e) (answer_eq (sym (getattr_named h) ∙ k));
        },
      )
