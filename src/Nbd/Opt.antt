-- ===== src/Nbd/Opt.antt =====
-- The options (NBD_OPT_*) of nbd/nbd.py.
use ps3_memorycard_adapter.Prelude.{ℕ}

abbrev pub export_name : ℕ
export_name = 1

abbrev pub abort : ℕ
abort = 2

abbrev pub list : ℕ
list = 3

abbrev pub info : ℕ
info = 6

abbrev pub go : ℕ
go = 7
