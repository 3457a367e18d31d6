-- ===== src/Fuse/Session.antt =====
-- The calls that the file system of fuse/main.py gets from its users, one after the other.
use ps3_memorycard_adapter.Prelude.{ℕ, List, [], ◌∷◌, Bytes}
use ps3_memorycard_adapter.Fuse.Card.{Card}
use ps3_memorycard_adapter.Fuse.Save.{Text}
use ps3_memorycard_adapter.Fuse.Path.{Unicode}
use ps3_memorycard_adapter.Fuse.Fs.{
  getattr, readlink, readdir, mkdir, rmdir, open_file, read_file, write_file, symlink, unlink,
}

pub data Call : Type 0 where
  getattr_of readlink_of readdir_of rmdir_of open_of unlink_of mkdir_of : (path : Text) → Call
  read_of : (path : Text) (size offset : ℕ) → Call
  write_of : (path : Text) (buf : Bytes) (offset : ℕ) → Call
  symlink_of : (src dst : Text) → Call

module _ (unicode : Unicode) (fuel : ℕ) where
  -- The card after a call, whatever the call returns or raises.
  unfoldable pub after_call : Call → Card → Card
  after_call (getattr_of path) c = (getattr unicode fuel path c).1
  after_call (readlink_of path) c = (readlink unicode fuel path c).1
  after_call (readdir_of path) c = (readdir unicode fuel path c).1
  after_call (rmdir_of path) c = (rmdir unicode fuel path c).1
  after_call (open_of path) c = (open_file unicode fuel path c).1
  after_call (unlink_of path) c = (unlink unicode fuel path c).1
  after_call (mkdir_of path) c = (mkdir unicode fuel path c).1
  after_call (read_of path size offset) c = (read_file unicode fuel path size offset c).1
  after_call (write_of path buf offset) c = (write_file unicode fuel path buf offset c).1
  after_call (symlink_of src dst) c = (symlink unicode fuel src dst c).1

  unfoldable pub after_calls : List Call → Card → Card
  after_calls [] c = c
  after_calls (call ∷ calls) c = after_calls calls (after_call call c)
