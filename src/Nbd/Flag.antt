-- ===== src/Nbd/Flag.antt =====
-- The command flags (NBD_CMD_FLAG_*) of nbd/nbd.py.
use ps3_memorycard_adapter.Prelude.{ℕ}

abbrev pub fua : ℕ
fua = 1

abbrev pub no_hole : ℕ
no_hole = 2

abbrev pub df : ℕ
df = 4

abbrev pub req_one : ℕ
req_one = 8

abbrev pub fast_zero : ℕ
fast_zero = 16
