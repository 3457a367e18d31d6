-- ===== src/Nbd/Rep.antt =====
-- The status of an answer to an option (NBD_REP_*) of nbd/nbd.py.
use ps3_memorycard_adapter.Prelude.{ℕ, ◌+◌, ◌^◌}

abbrev pub ack : ℕ
ack = 1

abbrev pub server : ℕ
server = 2

abbrev pub info : ℕ
info = 3

abbrev pub err_unsup : ℕ
err_unsup = 2 ^ 31 + 1

abbrev pub err_invalid : ℕ
err_invalid = 2 ^ 31 + 3

abbrev pub err_too_big : ℕ
err_too_big = 2 ^ 31 + 9
