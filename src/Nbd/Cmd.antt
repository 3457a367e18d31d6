-- ===== src/Nbd/Cmd.antt =====
-- The commands (NBD_CMD_*) of nbd/nbd.py.
use ps3_memorycard_adapter.Prelude.{ℕ}

abbrev pub read : ℕ
read = 0

abbrev pub write : ℕ
write = 1

abbrev pub disc : ℕ
disc = 2

abbrev pub write_zeroes : ℕ
write_zeroes = 6

abbrev pub block_status : ℕ
block_status = 7

abbrev pub resize : ℕ
resize = 8
