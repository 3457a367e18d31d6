-- ===== src/Fuse/Kept/Fs.antt =====
-- The operations of the file system, on a card that was mapped for reading.
use ps3_memorycard_adapter.Prelude.{
  ℕ, ◌≡◌, refl, ◌∙◌, inl, inr, Bool, true, false, Option, none, some, List, [], ◌∷◌, ◌++◌, length,
  ◌==◌, ◌==ᵇ◌, Bool-cases, Bytes, value_error, key_caught, Outcome, ok, raised, no_fuel, Action,
  pure, or_raise, ◌>>=◌,
}
use ps3_memorycard_adapter.Dict.{lookup, nat_key}
use ps3_memorycard_adapter.Fuse.Layout.{superblock_magic}
use ps3_memorycard_adapter.Fuse.Card.{Target, head, orphan, Card, check_superblock, opened, init}
use ps3_memorycard_adapter.Fuse.Save.{Text, Save, get_save}
use ps3_memorycard_adapter.Fuse.Path.{Unicode, split, get_block_id, is_digit_text, int_of}
use ps3_memorycard_adapter.Fuse.Fs.{
  find_save, with_block, with_save, getattr_at, getattr, readlink_at, readlink, readdir_at, readdir,
  or_errno, attempt, mkdir_at, mkdir, rmdir_at, rmdir, on_file, open_file, read_file, write_file,
  append_at, symlink_at, symlink, unlink_block, unlink_at, unlink,
}
use ps3_memorycard_adapter.Fuse.Replies.{
  Answer, error, result, enoent, eperm, eexist, efbig, block_stat, link_answer, block_names, failed,
  direntries, dot_entries, size_answer, entries_of, root_stat,
}
use ps3_memorycard_adapter.Fuse.Session.{
  Call, getattr_of, readlink_of, readdir_of, rmdir_of, open_of, unlink_of, mkdir_of, read_of,
  write_of, symlink_of, after_call, after_calls,
}
use ps3_memorycard_adapter.Fuse.Kept.{
  KeptBy, Kept, Kept-bind, Kept-pure, Kept-or_raise, Kept-assert, Kept-if, Kept-read,
  Kept-check_xor, Kept-link_map,
}
use ps3_memorycard_adapter.Fuse.Kept.Blocks.{
  Kept-create_save, Kept-append_block, Kept-free_block, Kept-delete_save,
}
use ps3_memorycard_adapter.Fuse.Kept.Saves.{
  Kept-get_save, Kept-get_entry_size, Kept-read_entry, Kept-write_entry,
}

KeptBy-key_caught :
    {A : Type 0} (c : Card) (x : Outcome A × Card) → KeptBy c x → KeptBy c (key_caught x)
KeptBy-key_caught c x h = record { content = h.content; read_only = h.read_only }

Kept-attempt : {A : Type 0} (errno : ℕ) (m : Action Card A) → Kept m → Kept (attempt errno m)
Kept-attempt errno m h =
    Kept-bind _ _
      (λ c ro. let k = h c ro in record { content = k.content; read_only = k.read_only })
      λ done. Kept-pure (or_errno errno done)

module _ (unicode : Unicode) (fuel : ℕ) where
  Kept-get_block_id : (name : Text) → Kept (get_block_id unicode name)
  unfolding get_block_id
  Kept-get_block_id name =
      Kept-if (is_digit_text unicode name) _ _
        (Kept-bind _ _ (Kept-or_raise (int_of unicode name) value_error) λ n. Kept-pure (some n))
        (Kept-pure none)

  Kept-with_block :
      {A : Type 0} (name : Text) (errno : ℕ) (f : ℕ → Action Card (Answer A))
      → ((n : ℕ) → Kept (f n))
      → Kept (with_block unicode fuel name errno f)
  Kept-with_block {A} name errno f h = Kept-bind _ _ (Kept-get_block_id name) go
    where
      go :
          (o : Option ℕ) → Kept {A = Answer A} (elim o [ none ↦ pure (error errno) | some n ↦ f n ])
      go none = Kept-pure (error errno)
      go (some n) = h n

  pub Kept-find_save : (name : Text) → Kept (find_save unicode fuel name)
  unfolding find_save
  Kept-find_save name = Kept-bind _ _ (Kept-get_block_id name) go
    where
      go :
          (o : Option ℕ)
          → Kept {A = Option Save} (elim o [
            | none ↦ pure none
            | some _ ↦ (do n ← or_raise (int_of unicode name) value_error; get_save fuel n)
          ])
      go none = Kept-pure none
      go (some n) =
          Kept-bind _ _ (Kept-or_raise (int_of unicode name) value_error) λ k. Kept-get_save fuel k

  Kept-with_save :
      {A : Type 0} (name : Text) (f : Save → Action Card (Answer A))
      → ((s : Save) → Kept (f s))
      → Kept (with_save unicode fuel name f)
  Kept-with_save {A} name f h = Kept-bind _ _ (Kept-find_save name) go
    where
      go :
          (o : Option Save)
          → Kept {A = Answer A} (elim o [ none ↦ pure (error enoent) | some s ↦ f s ])
      go none = Kept-pure (error enoent)
      go (some s) = h s

  Kept-getattr_at : (names : List Text) → Kept (getattr_at unicode fuel names)
  Kept-getattr_at [] = Kept-pure (result root_stat)
  Kept-getattr_at (name ∷ []) =
      Kept-with_block name enoent _
        λ n. Kept-bind _ _ (Kept-link_map fuel) λ m. Kept-pure (block_stat n (lookup n m))
  Kept-getattr_at (name ∷ entry ∷ []) = Kept-with_save name _ λ s.
      Kept-bind _ _ (λ c ro. KeptBy-key_caught c _ (Kept-get_entry_size s entry c ro))
        λ size. Kept-pure (size_answer size)
  Kept-getattr_at (name ∷ entry ∷ third ∷ rest) = Kept-pure (error enoent)

  Kept-readlink_at : (names : List Text) → Kept (readlink_at unicode fuel names)
  Kept-readlink_at [] = Kept-pure (error enoent)
  Kept-readlink_at (name ∷ []) =
      Kept-bind _ _ (Kept-link_map fuel)
        λ m. Kept-with_block name enoent _ λ n. Kept-pure (link_answer (lookup n m))
  Kept-readlink_at (name ∷ second ∷ rest) = Kept-pure (error enoent)

  Kept-readdir_at : (names : List Text) → Kept (readdir_at unicode fuel names)
  Kept-readdir_at [] =
      Kept-bind _ _ (Kept-link_map fuel) λ m. Kept-pure (dot_entries ++ direntries (block_names m))
  Kept-readdir_at (name ∷ []) =
      Kept-bind _ _ (Kept-find_save name) λ s. Kept-pure (dot_entries ++ entries_of s)
  Kept-readdir_at (name ∷ second ∷ rest) = Kept-pure (dot_entries ++ failed enoent ∷ [])

  Kept-mkdir_at : (names : List Text) → Kept (mkdir_at unicode fuel names)
  Kept-mkdir_at [] = Kept-pure (error eperm)
  Kept-mkdir_at (name ∷ []) =
      Kept-with_block name eperm _ λ n. Kept-attempt eexist _ (Kept-create_save n)
  Kept-mkdir_at (name ∷ second ∷ rest) = Kept-pure (error eperm)

  Kept-rmdir_at : (names : List Text) → Kept (rmdir_at unicode fuel names)
  Kept-rmdir_at [] = Kept-pure (error enoent)
  Kept-rmdir_at (name ∷ []) =
      Kept-with_block name enoent _ λ n. Kept-attempt enoent _ (Kept-delete_save fuel n)
  Kept-rmdir_at (name ∷ second ∷ rest) = Kept-pure (error enoent)

  Kept-on_file :
      {A : Type 0} (f : Save → Text → Action Card (Answer A)) (names : List Text)
      → ((s : Save) (entry : Text) → Kept (f s entry))
      → Kept (on_file unicode fuel f names)
  Kept-on_file f [] h = Kept-pure (error enoent)
  Kept-on_file f (name ∷ []) h = Kept-pure (error enoent)
  Kept-on_file f (name ∷ entry ∷ []) h = Kept-with_save name _ λ s. h s entry
  Kept-on_file f (name ∷ entry ∷ third ∷ rest) h = Kept-pure (error enoent)

  Kept-append_at : (src dst : Option ℕ) → Kept (append_at unicode fuel src dst)
  Kept-append_at none dst = Kept-pure (error enoent)
  Kept-append_at (some src) none = Kept-pure (error enoent)
  Kept-append_at (some src) (some dst) = Kept-attempt eexist _ (Kept-append_block fuel src dst)

  Kept-symlink_at : (src dst : List Text) → Kept (symlink_at unicode fuel src dst)
  Kept-symlink_at (src ∷ []) (dst ∷ []) =
      Kept-bind _ _ (Kept-get_block_id src)
        λ n. Kept-bind _ _ (Kept-get_block_id dst) λ m. Kept-append_at n m
  Kept-symlink_at [] (dst ∷ []) = Kept-pure (error enoent)
  Kept-symlink_at (src ∷ second ∷ rest) (dst ∷ []) = Kept-pure (error enoent)
  Kept-symlink_at [] [] = Kept-pure _
  Kept-symlink_at (src ∷ []) [] = Kept-pure _
  Kept-symlink_at (src ∷ second ∷ rest) [] = Kept-pure _
  Kept-symlink_at [] (dst ∷ third ∷ rest) = Kept-pure _
  Kept-symlink_at (src ∷ []) (dst ∷ third ∷ rest) = Kept-pure _
  Kept-symlink_at (src ∷ second ∷ more) (dst ∷ third ∷ rest) = Kept-pure _

  Kept-unlink_block : (n : ℕ) (o : Option Target) → Kept (unlink_block n o)
  Kept-unlink_block n none = Kept-pure (error enoent)
  Kept-unlink_block n (some orphan) = Kept-bind _ _ (Kept-free_block n) λ _. Kept-pure (result tt)
  Kept-unlink_block n (some (head k)) = Kept-pure (error eperm)

  Kept-unlink_at : (names : List Text) → Kept (unlink_at unicode fuel names)
  Kept-unlink_at [] = Kept-pure (error eperm)
  Kept-unlink_at (name ∷ []) =
      Kept-with_block name enoent _
        λ n. Kept-bind _ _ (Kept-link_map fuel) λ m. Kept-unlink_block n (lookup n m)
  Kept-unlink_at (name ∷ second ∷ rest) = Kept-pure (error eperm)

  -- What a call leaves of the card.
  abbrev pub SameContent : Card → Card → Type 0
  SameContent c c' = (c'.content ≡ c.content) × (c'.writable ≡ false)

  of_kept : {A : Type 0} {c : Card} {x : Outcome A × Card} → KeptBy c x → SameContent c x.1
  of_kept h = (h.content, h.read_only)

  after_call-SameContent :
      (call : Call) (c : Card) → c.writable ≡ false → SameContent c (after_call unicode fuel call c)
  unfolding after_call getattr readlink readdir mkdir rmdir open_file read_file write_file symlink
      unlink
  after_call-SameContent (getattr_of path) c ro = of_kept (Kept-getattr_at (split path) c ro)
  after_call-SameContent (readlink_of path) c ro = of_kept (Kept-readlink_at (split path) c ro)
  after_call-SameContent (readdir_of path) c ro = of_kept (Kept-readdir_at (split path) c ro)
  after_call-SameContent (rmdir_of path) c ro = of_kept (Kept-rmdir_at (split path) c ro)
  after_call-SameContent (open_of path) c ro =
      of_kept (Kept-on_file _ (split path) (λ s entry. Kept-pure _) c ro)
  after_call-SameContent (unlink_of path) c ro = of_kept (Kept-unlink_at (split path) c ro)
  after_call-SameContent (mkdir_of path) c ro = of_kept (Kept-mkdir_at (split path) c ro)
  after_call-SameContent (read_of path size offset) c ro = of_kept (
      Kept-on_file _ (split path)
        (λ s entry. Kept-bind _ _ (Kept-read_entry s entry size offset) λ b. Kept-pure (result b)) c
        ro)
  after_call-SameContent (write_of path buf offset) c ro = of_kept (
      Kept-on_file _ (split path)
        (λ s entry. Kept-attempt efbig _ (Kept-write_entry s entry buf offset)) c ro)
  after_call-SameContent (symlink_of src dst) c ro =
      of_kept (Kept-symlink_at (split src) (split dst) c ro)

  pub after_calls-SameContent :
      (calls : List Call) (c : Card)
      → c.writable ≡ false
      → SameContent c (after_calls unicode fuel calls c)
  unfolding after_calls
  after_calls-SameContent [] c ro = (refl, ro)
  after_calls-SameContent (call ∷ calls) c ro =
      let (same, still) = after_call-SameContent call c ro in
      let (rest, end) = after_calls-SameContent calls (after_call unicode fuel call c) still in
      (rest ∙ same, end)

Kept-check_superblock : Kept check_superblock
unfolding check_superblock
Kept-check_superblock =
    Kept-bind _ _ (Kept-read _ _)
      λ magic. Kept-bind _ _ (Kept-assert (magic ==ᵇ superblock_magic)) λ _. Kept-check_xor 0

opened-content :
    (c c' : Card) (x : Outcome (Unit {0}) × Card)
    → KeptBy c x
    → opened x ≡ ok c'
    → (c'.content ≡ c.content) × (c'.writable ≡ false)
opened-content c c' (ok a, c₁) h e = let same : c₁ ≡ c' = cc in rw (← same) (h.content, h.read_only)
opened-content c c' (raised x, c₁) h e = cc
opened-content c c' (no_fuel, c₁) h e = cc

pub init-content :
    (content : Bytes) (read_only : Bool) (c : Card)
    → init content read_only ≡ ok c
    → (c.content ≡ content) × (c.writable ≡ false)
unfolding init
init-content content false c e = cc
init-content content true c e = elim (Bool-cases (length content == 0)) [
  | inl empty ↦ let e' = rw empty at e in cc
  | inr some_bytes ↦
      opened-content (record { content = content; writable = false; link_map = none }) c _
        (Kept-check_superblock _ refl) (rw some_bytes at e)
]

-- Once a card has been opened, no calls of the file system change it: after any number of them,
-- whatever they return or raise, it has the content of the image.
pub after_calls-content :
    (unicode : Unicode) (fuel : ℕ) (content : Bytes) (read_only : Bool) (c : Card)
    (calls : List Call)
    → init content read_only ≡ ok c
    → (after_calls unicode fuel calls c).content ≡ content
after_calls-content unicode fuel content read_only c calls e =
    let (same, ro) = init-content content read_only c e in
    (after_calls-SameContent unicode fuel calls c ro).0 ∙ same
