-- ===== src/Fuse/Replies.antt =====
-- What the operations of `PlayStationMemoryCardFS` of fuse/main.py return.
use ps3_memorycard_adapter.Prelude.{ℕ, Option, none, some, List, [], ◌∷◌, ◌==◌, if◌then◌else◌}
use Prim.Native.Nat.{bit_or}
use ps3_memorycard_adapter.Dict.{nat_key}
use ps3_memorycard_adapter.Fuse.Card.{Target, head, orphan, LinkMap}
use ps3_memorycard_adapter.Fuse.Save.{Text, Save, iter_entries}
use ps3_memorycard_adapter.Fuse.Path.{as_name}

-- What an operation returns: `-errno`, or a value.
pub data Answer (A : Type 0) : Type 0 where
  error : (errno : ℕ) → Answer A
  result : A → Answer A

abbrev pub eperm : ℕ
eperm = 1

abbrev pub enoent : ℕ
enoent = 2

abbrev pub eexist : ℕ
eexist = 17

abbrev pub efbig : ℕ
efbig = 27

abbrev pub enospc : ℕ
enospc = 28

-- `PlayStationStat`; the other fields stay 0.
pub record Stat : Type 0 where
  pub st_mode : ℕ
  pub st_nlink : ℕ
  pub st_size : ℕ

-- stat.S_IFREG, S_IFDIR and S_IFLNK, and the permissions 0o644, 0o555, 0o755 and 0o777.
abbrev pub s_ifreg : ℕ
s_ifreg = 0x8000

abbrev pub s_ifdir : ℕ
s_ifdir = 0x4000

abbrev pub s_iflnk : ℕ
s_iflnk = 0xa000

abbrev pub file_stat : ℕ → Stat
file_stat size = record { st_mode = bit_or s_ifreg 0x1a4; st_nlink = 1; st_size = size }

abbrev pub orphan_stat : Stat
orphan_stat = record { st_mode = s_ifreg; st_nlink = 1; st_size = 0 }

abbrev pub save_stat : Stat
save_stat = record { st_mode = bit_or s_ifdir 0x16d; st_nlink = 2; st_size = 0 }

abbrev pub link_stat : Stat
link_stat = record { st_mode = bit_or s_iflnk 0x1ff; st_nlink = 1; st_size = 0 }

abbrev pub root_stat : Stat
root_stat = record { st_mode = bit_or s_ifdir 0x1ed; st_nlink = 2; st_size = 0 }

-- What `getattr` makes of an entry of the link map.
abbrev pub block_stat : ℕ → Option Target → Answer Stat
block_stat block_id none = error enoent
block_stat block_id (some orphan) = result orphan_stat
block_stat block_id (some (head target_id)) =
    if target_id == block_id then result save_stat else result link_stat

-- What `readlink` makes of one.
abbrev pub link_answer : Option Target → Answer Text
link_answer none = error enoent
link_answer (some target_id) = result (as_name target_id)

-- The names of the blocks of a link map.
abbrev pub block_names : LinkMap → List Text
block_names [] = []
block_names ((n, target) ∷ m) = as_name (head n) ∷ block_names m

-- What `readdir` yields: a `Direntry`, or `-errno`.
pub data Yield : Type 0 where
  direntry : Text → Yield
  failed : (errno : ℕ) → Yield

abbrev pub direntries : List Text → List Yield
direntries [] = []
direntries (name ∷ names) = direntry name ∷ direntries names

abbrev pub dot_entries : List Yield
dot_entries = direntry (b'.' ∷ []) ∷ direntry (b'.' ∷ b'.' ∷ []) ∷ []

abbrev pub size_answer : Option ℕ → Answer Stat
size_answer none = error enoent
size_answer (some size) = result (file_stat size)

abbrev pub entries_of : Option Save → List Yield
entries_of none = []
entries_of (some save) = direntries (iter_entries save)
