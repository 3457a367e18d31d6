-- ===== src/Nbd.antt =====
-- nbd/nbd.py: `NBDServer`. `Nbd/Wire` has its socket and device, `Nbd/Request` the form of a
-- request, `Nbd/Handle` what is done with one, `Nbd/Options` and `Nbd/Greet` the negotiation before
-- the first; the other modules hold proofs.
pub mod Cmd
pub mod Flag
pub mod Errno
pub mod Opt
pub mod Rep
pub mod Wire
pub mod Request
pub mod Handle
pub mod Options
pub mod Greet
pub mod Stream
pub mod Format
pub mod Answers
pub mod ReadOnly
pub mod Transfers
pub mod Written
pub mod Card
pub mod Framing
pub mod Negotiation
pub mod Go
pub mod Unbound
