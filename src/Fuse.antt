-- ===== src/Fuse.antt =====
-- fuse/: the file system over a PS1 memory card image. `Fuse/Card` and `Fuse/Allocation` have
-- `PS1Card` and `Fuse/Save` has `PS1Save` of fuse/ps1.py, with the constants in `Fuse/Layout`;
-- `Fuse/Path`, `Fuse/Replies`, `Fuse/Fs` and `Fuse/Session` are about fuse/main.py; the other
-- modules hold proofs.
pub mod Layout
pub mod Card
pub mod Allocation
pub mod Save
pub mod Path
pub mod Replies
pub mod Fs
pub mod Session
pub mod Kept
pub mod Refused
pub mod Cached
pub mod Names
pub mod Links
pub mod Closed
pub mod Checksum
pub mod Chains
pub mod Blocks
pub mod Reading
pub mod Entries
pub mod Unwritten
