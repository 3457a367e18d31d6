-- ===== src/Fuse/Fs.antt =====
-- `PlayStationMemoryCardFS` of fuse/main.py: the operations of the file system over a card.
use ps3_memorycard_adapter.Prelude.{
  ℕ, Option, none, some, List, [], ◌∷◌, ◌++◌, if◌then◌else◌, Bytes, value_error, key_caught,
  value_caught, Action, pure, or_raise, ◌>>=◌, ◌>>◌,
}
use ps3_memorycard_adapter.Dict.{lookup, nat_key}
use ps3_memorycard_adapter.Fuse.Card.{Target, head, orphan, Card, get_block_link_map}
use ps3_memorycard_adapter.Fuse.Allocation.{create_save, append_block, free_block, delete_save}
use ps3_memorycard_adapter.Fuse.Save.{
  Text, Save, get_save, has_entry, get_entry_size, read_entry, write_entry,
}
use ps3_memorycard_adapter.Fuse.Path.{Unicode, split, get_block_id, int_of}
use ps3_memorycard_adapter.Fuse.Replies.{
  Answer, Stat, Yield, block_names, block_stat, direntries, dot_entries, eexist, efbig, enoent,
  enospc, entries_of, eperm, error, failed, link_answer, result, root_stat, size_answer,
}

-- After a call that may have raised a ValueError, which stands for `errno`.
abbrev pub or_errno : {A : Type 0} → ℕ → Option A → Answer A
or_errno errno none = error errno
or_errno errno (some a) = result a

abbrev pub attempt : {A : Type 0} → ℕ → Action Card A → Action Card (Answer A)
attempt errno m = do done ← λ c. value_caught (m c); pure (or_errno errno done)

-- A block of a save is removed with its head.
abbrev pub unlink_block : ℕ → Option Target → Action Card (Answer (Unit {0}))
unlink_block block_id none = pure (error enoent)
unlink_block block_id (some orphan) = do free_block block_id; pure (result tt)
unlink_block block_id (some (head n)) = pure (error eperm)

module _ (unicode : Unicode) (fuel : ℕ) where
  -- `__getSave`
  unfoldable pub find_save : Text → Action Card (Option Save)
  find_save name = do
    block_id ← get_block_id unicode name
    elim block_id [
      | none ↦ pure none
      | some _ ↦ (do n ← or_raise (int_of unicode name) value_error; get_save fuel n)
    ]

  -- A block number, or an error where the name is none.
  abbrev pub with_block :
      {A : Type 0} → Text → ℕ → (ℕ → Action Card (Answer A)) → Action Card (Answer A)
  with_block name errno f = do
    block_id ← get_block_id unicode name
    elim block_id [ none ↦ pure (error errno) | some n ↦ f n ]

  -- A save, or ENOENT.
  abbrev pub with_save :
      {A : Type 0} → Text → (Save → Action Card (Answer A)) → Action Card (Answer A)
  with_save name f = do
    save ← find_save name
    elim save [ none ↦ pure (error enoent) | some s ↦ f s ]

  abbrev pub getattr_at : List Text → Action Card (Answer Stat)
  getattr_at [] = pure (result root_stat)
  getattr_at (name ∷ []) = with_block name enoent λ block_id. do
    link_map ← get_block_link_map fuel
    pure (block_stat block_id (lookup block_id link_map))
  getattr_at (name ∷ entry ∷ []) =
      with_save name
        λ save. do size ← λ c. key_caught (get_entry_size save entry c); pure (size_answer size)
  getattr_at (name ∷ entry ∷ third ∷ rest) = pure (error enoent)

  -- `getattr`
  unfoldable pub getattr : Text → Action Card (Answer Stat)
  getattr path = getattr_at (split path)

  -- `readlink`: the link map is asked for before the name is looked at.
  abbrev pub readlink_at : List Text → Action Card (Answer Text)
  readlink_at [] = pure (error enoent)
  readlink_at (name ∷ []) = do
    link_map ← get_block_link_map fuel
    with_block name enoent λ block_id. pure (link_answer (lookup block_id link_map))
  readlink_at (name ∷ second ∷ rest) = pure (error enoent)

  unfoldable pub readlink : Text → Action Card (Answer Text)
  readlink path = readlink_at (split path)

  -- `readdir`, up to the end of what it yields.
  abbrev pub readdir_at : List Text → Action Card (List Yield)
  readdir_at [] = do
    link_map ← get_block_link_map fuel
    pure (dot_entries ++ direntries (block_names link_map))
  readdir_at (name ∷ []) = do save ← find_save name; pure (dot_entries ++ entries_of save)
  readdir_at (name ∷ second ∷ rest) = pure (dot_entries ++ failed enoent ∷ [])

  unfoldable pub readdir : Text → Action Card (List Yield)
  readdir path = readdir_at (split path)

  abbrev pub mkdir_at : List Text → Action Card (Answer (Unit {0}))
  mkdir_at [] = pure (error eperm)
  mkdir_at (name ∷ []) = with_block name eperm λ block_id. attempt eexist (create_save block_id)
  mkdir_at (name ∷ second ∷ rest) = pure (error eperm)

  -- `mkdir`
  unfoldable pub mkdir : Text → Action Card (Answer (Unit {0}))
  mkdir path = mkdir_at (split path)

  abbrev pub rmdir_at : List Text → Action Card (Answer (Unit {0}))
  rmdir_at [] = pure (error enoent)
  rmdir_at (name ∷ []) =
      with_block name enoent λ block_id. attempt enoent (delete_save fuel block_id)
  rmdir_at (name ∷ second ∷ rest) = pure (error enoent)

  -- `rmdir`
  unfoldable pub rmdir : Text → Action Card (Answer (Unit {0}))
  rmdir path = rmdir_at (split path)

  -- The three operations on files look for a save and an entry of it.
  abbrev pub on_file :
      {A : Type 0} → (Save → Text → Action Card (Answer A)) → List Text → Action Card (Answer A)
  on_file f [] = pure (error enoent)
  on_file f (name ∷ []) = pure (error enoent)
  on_file f (name ∷ entry ∷ []) = with_save name λ save. f save entry
  on_file f (name ∷ entry ∷ third ∷ rest) = pure (error enoent)

  -- `open`
  unfoldable pub open_file : Text → Action Card (Answer (Unit {0}))
  open_file path =
      on_file (λ save entry. pure (if has_entry save entry then result tt else error enoent))
        (split path)

  -- `read`
  unfoldable pub read_file : Text → ℕ → ℕ → Action Card (Answer Bytes)
  read_file path size offset =
      on_file (λ save entry. do b ← read_entry save entry size offset; pure (result b)) (split path)

  -- `write`
  unfoldable pub write_file : Text → Bytes → ℕ → Action Card (Answer ℕ)
  write_file path buf offset =
      on_file (λ save entry. attempt efbig (write_entry save entry buf offset)) (split path)

  abbrev pub append_at : Option ℕ → Option ℕ → Action Card (Answer (Unit {0}))
  append_at none dst = pure (error enoent)
  append_at (some src) none = pure (error enoent)
  append_at (some src) (some dst) = attempt eexist (append_block fuel src dst)

  abbrev pub symlink_at : List Text → List Text → Action Card (Answer (Unit {0}))
  symlink_at (src ∷ []) (dst ∷ []) = do
    src_block_id ← get_block_id unicode src
    dst_block_id ← get_block_id unicode dst
    append_at src_block_id dst_block_id
  symlink_at [] (dst ∷ []) = pure (error enoent)
  symlink_at (src ∷ second ∷ rest) (dst ∷ []) = pure (error enoent)
  symlink_at src [] = pure (error enospc)
  symlink_at src (dst ∷ second ∷ rest) = pure (error enospc)

  -- `symlink`
  unfoldable pub symlink : Text → Text → Action Card (Answer (Unit {0}))
  symlink src dst = symlink_at (split src) (split dst)

  abbrev pub unlink_at : List Text → Action Card (Answer (Unit {0}))
  unlink_at [] = pure (error eperm)
  unlink_at (name ∷ []) = with_block name enoent λ block_id. do
    link_map ← get_block_link_map fuel
    unlink_block block_id (lookup block_id link_map)
  unlink_at (name ∷ second ∷ rest) = pure (error eperm)

  -- `unlink`
  unfoldable pub unlink : Text → Action Card (Answer (Unit {0}))
  unlink path = unlink_at (split path)
