-- ===== src/Nbd/Errno.antt =====
-- The error numbers of replies (NBD_E*) of nbd/nbd.py.
use ps3_memorycard_adapter.Prelude.{ℕ}

abbrev pub eperm : ℕ
eperm = 1

abbrev pub eio : ℕ
eio = 5

abbrev pub einval : ℕ
einval = 22

abbrev pub enotsup : ℕ
enotsup = 95
