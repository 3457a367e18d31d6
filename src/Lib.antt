-- ===== src/Lib.antt =====
-- The programs that use a PS3 memory card adapter from a computer: a server of the network block
-- device protocol (nbd/) in front of the adapter, which reads and writes PS1 and PS2 cards, with
-- its authentication cache, and a file system over the image of a PS1 card (fuse/). The meaning of
-- the code is that of Python 3, where bytes and text do not mix.
--
-- nbd/main.py gives a `PlayStationMemoryCardReader` to every `NBDServer` as its device, and gives
-- the reader a USB device and an authenticator. The parts are:
--
-- - `Cache`: `FileDictCache` of nbd/cache.py. `init`, `get_item`, `set_item` and `flush` are
--   `__init__`, `__getitem__`, `__setitem__` and `flush`; the functions inside them stand beside
--   them under their own names. The file is its content; what `__init__` has not read of it is
--   its state. `Cache/Format` has the format as a function of the records.
-- - `Reader`: nbd/memory_card_reader.py. `Reader/Host` is what it is constructed with, parameters
--   of everything else. `Reader/Packets` has the helpers up to `_longCommandWrite`,
--   `Reader/Commands` the commands, `Reader/Auth` `authenticate`, `Reader/Cards` frames, pages and
--   sizes, `Reader/Blocks` the methods `read` and `write`. The loops of these two stand over a
--   record of two operations on blocks; `Reader/Media` says what the read relies on, and
--   `Reader/Ps1` what an adapter with a PS1 card in it answers, as hypotheses.
-- - `Nbd`: nbd/nbd.py. `Nbd/Wire` has the world of an `NBDServer`, its socket and its device, with
--   `_recvall` and `close`; `Nbd/Request` the format of requests; `Nbd/Handle` the method
--   `handle`, cut at its branches, and `Nbd/Options` and `Nbd/Greet` the negotiation of `greet`
--   before the first request. `Nbd/Card` puts the reader in the place of the device, as
--   nbd/main.py does.
-- - `Daemon`: the event loop of nbd/main.py. Events are what `epoll.poll` gives, each with the
--   connection that `accept` returns if it is called; the servers share one reader.
-- - `Authenticator`: nbd/authenticator.py, both classes over the cache. The socket of the first is
--   a parameter.
-- - `Fuse`: fuse/. `Fuse/Card` and `Fuse/Allocation` have `PS1Card` of fuse/ps1.py over the bytes of
--   the mapped image, `Fuse/Save` its `PS1Save`, with `Fuse/Layout` for the constants of both;
--   `Fuse/Path`, `Fuse/Replies` and `Fuse/Fs` have the names, the answers and the operations of
--   fuse/main.py, `Fuse/Session` calls of these one after the other. The other modules hold proofs.
-- - `Struct` is what the code uses of Python's struct module, `Dict` its dictionaries, and
--   `Prelude` numbers, lists, outcomes, and actions, which pass a state on and may raise.
-- - `Tests` has the theorems at concrete inputs.
--
-- An exception is a value of `Exc` by its class; its text, and what is printed, are left out. The
-- variable `error` of `handle`, which is not assigned on every branch, is an option.
--
-- Loops that the code does not bound itself are on fuel, and `no_fuel` is the outcome of a loop
-- that has not ended within it. The loop of `__init__` has a round for each byte of the file and
-- one more, which is always enough; the loops of `read` and `write` have a round for each byte of
-- the range and one more, since a block has a byte at least; a response of an adapter has no more
-- packets than bytes of data; `_recvall` takes a round for each byte at most while bytes arrive. The
-- loop of `greet` has as many rounds as there are options. A chain of blocks may have no end, so
-- that what follows one takes its fuel as an argument; `readData` has a round for each block of the
-- save and one more, `writeData` one for each byte and one more.
--
-- A mapping of an image takes no assignment unless it was mapped for writing, takes only bytes, and
-- only as many as the slice has; a slice of it is cut at its end. Which characters Python takes for
-- digits, and which of them `int` reads, is a parameter.
--
-- Sending on a socket succeeds, and a peer that has ended the stream gives no bytes for ever after.
-- A `KeyboardInterrupt` does not happen. A negative length that is read from a cache file is what
-- Python makes of it: all the rest for -1, a `ValueError` below.
--
-- Not modelled: the set-up of nbd/main.py before its loop, the command line of fuse/main.py, and
-- the C programs of psp/; the sleep of `CachedAuthenticator`, which only takes time.
pub mod Prelude
pub mod Struct
pub mod Dict
pub mod Cache
pub mod Reader
pub mod Nbd
pub mod Authenticator
pub mod Fuse
pub mod Daemon
pub mod Tests
