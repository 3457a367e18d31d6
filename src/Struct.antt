-- ===== src/Struct.antt =====
-- The formats of Python's `struct` that the source packs and unpacks: unsigned fields of a fixed
-- number of bytes in either order, and the signed 16-bit `h`.
use native.Mathlib.Nat.{pow-suc}
use ps3_memorycard_adapter.Prelude.{
  ℕ, zero, suc, ◌+◌, ◌-◌, ◌*◌, ◌/◌, ◌%◌, ◌^◌, ◌<◌, ◌≡◌, refl, ap, [], ◌∷◌, ◌++◌, Option, none, some,
  arith, Bytes, length, length-append, ltb, ◌==◌, if◌then◌else◌,
}
use ps3_memorycard_adapter.Prelude.Int.{ℤ, pos, negsuc}

-- The k bytes of a number, least significant first, and most significant first.
unfoldable pub little : ℕ → ℕ → Bytes
little zero n = []
little (suc k) n = n % 256 ∷ little k (n / 256)

unfoldable pub big : ℕ → ℕ → Bytes
big zero n = []
big (suc k) n = big k (n / 256) ++ n % 256 ∷ []

abbrev pub of_little : Bytes → ℕ
of_little [] = 0
of_little (b ∷ bs) = b + 256 * of_little bs

abbrev pub of_big_from : ℕ → Bytes → ℕ
of_big_from acc [] = acc
of_big_from acc (b ∷ bs) = of_big_from (acc * 256 + b) bs

abbrev pub of_big : Bytes → ℕ
of_big = of_big_from 0

-- `none` is a `struct.error`: a number out of range, a buffer of another size.
abbrev pub pack_little : ℕ → ℕ → Option Bytes
pack_little k n = if ltb n (256 ^ k) then some (little k n) else none

abbrev pub pack_big : ℕ → ℕ → Option Bytes
pack_big k n = if ltb n (256 ^ k) then some (big k n) else none

abbrev pub unpack_little : ℕ → Bytes → Option ℕ
unpack_little k bs = if length bs == k then some (of_little bs) else none

abbrev pub unpack_big : ℕ → Bytes → Option ℕ
unpack_big k bs = if length bs == k then some (of_big bs) else none

-- The number that a 16-bit pattern stands for.
abbrev pub signed16 : ℕ → ℤ
signed16 n = if ltb n 32768 then pos n else negsuc (65535 - n)

-- `pack('>h', n)` and `pack('<h', n)`, for a length n.
abbrev pub pack_big_h : ℕ → Option Bytes
pack_big_h n = if ltb n 32768 then some (big 2 n) else none

abbrev pub pack_little_h : ℕ → Option Bytes
pack_little_h n = if ltb n 32768 then some (little 2 n) else none

abbrev pub unpack_big_h : Bytes → Option ℤ
unpack_big_h bs = if length bs == 2 then some (signed16 (of_big bs)) else none

abbrev pub unpack_little_h : Bytes → Option ℤ
unpack_little_h bs = if length bs == 2 then some (signed16 (of_little bs)) else none

pub length-little : (k n : ℕ) → length (little k n) ≡ k
unfolding little
length-little zero n = refl
length-little (suc k) n = ap suc (length-little k (n / 256))

pub length-big : (k n : ℕ) → length (big k n) ≡ k
unfolding big
length-big zero n = refl
length-big (suc k) n =
    omega (arith, length-append (big k (n / 256)) (n % 256 ∷ []), length-big k (n / 256))

of_big_from-append :
    (acc b : ℕ) (xs : Bytes) → of_big_from acc (xs ++ b ∷ []) ≡ of_big_from acc xs * 256 + b
of_big_from-append acc b [] = refl
of_big_from-append acc b (x ∷ xs) = of_big_from-append (acc * 256 + x) b xs

pub of_big-big : (k n : ℕ) → n < 256 ^ k → of_big (big k n) ≡ n
unfolding big
of_big-big zero n h = omega arith
of_big-big (suc k) n h = omega (
  arith,
  pow-suc 256 k,
  of_big_from-append 0 (n % 256) (big k (n / 256)),
  of_big-big k (n / 256) (omega (arith, pow-suc 256 k)),
)

-- What is packed is unpacked.
pub unpack_big_h-big : (n : ℕ) → n < 32768 → unpack_big_h (big 2 n) ≡ some (pos n)
unfolding big
unpack_big_h-big n h = ground arith

pub unpack_little_h-little : (n : ℕ) → n < 32768 → unpack_little_h (little 2 n) ≡ some (pos n)
unfolding little
unpack_little_h-little n h = ground arith
