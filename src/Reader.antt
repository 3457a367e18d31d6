-- ===== src/Reader.antt =====
-- nbd/memory_card_reader.py: `PlayStationMemoryCardReader`. What it is given stands in
-- `Reader/Host`, its packets in `Reader/Packets`, its commands in `Reader/Commands`, the
-- authentication in `Reader/Auth`, frames and pages in `Reader/Cards`, and the loops of `read`
-- and `write` over them in `Reader/Blocks`. The other modules below hold proofs.
pub mod Host
pub mod Packets
pub mod Commands
pub mod Auth
pub mod Cards
pub mod Blocks
pub mod Media
pub mod Trim
pub mod ReadBlocks
pub mod ReadRange
pub mod Writes
pub mod Response
pub mod Ps1
