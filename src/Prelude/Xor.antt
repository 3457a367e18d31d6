-- ===== src/Prelude/Xor.antt =====
-- Laws of exclusive or on numbers.
use Prim.Native.Nat.{
  ℕ, zero, suc, ◌+◌, ◌*◌, ◌/◌, ◌%◌, ◌≤◌, ◌<◌, bit_xor, digits, differ, bit_xor-bitwise,
}
use mathlib.Core.Path.{◌≡◌, refl}
use native.Mathlib.Omega.{arith}

differ_parity : (a b : ℕ) → a < 2 → b < 2 → differ a b ≡ (a + b) % 2
differ_parity zero zero p q = refl
differ_parity zero (suc zero) p q = refl
differ_parity (suc zero) zero p q = refl
differ_parity (suc zero) (suc zero) p q = refl
differ_parity zero (suc (suc b)) p q = absurd (omega arith)
differ_parity (suc zero) (suc (suc b)) p q = absurd (omega arith)
differ_parity (suc (suc a)) b p q = absurd (omega arith)

abbrev xor_digits : ℕ → ℕ → ℕ → ℕ
xor_digits n a b = digits (λ b. b) differ n a b

-- The count of digits does not matter where it is enough.
xor_digits_enough : (n m a b : ℕ) → a ≤ n → a ≤ m → xor_digits n a b ≡ xor_digits m a b
xor_digits_enough zero zero a b p q = refl
xor_digits_enough zero (suc m) zero b p q = refl
xor_digits_enough zero (suc m) (suc a) b p q = absurd (omega arith)
xor_digits_enough (suc n) zero zero b p q = refl
xor_digits_enough (suc n) zero (suc a) b p q = absurd (omega arith)
xor_digits_enough (suc n) (suc m) zero b p q = refl
xor_digits_enough (suc n) (suc m) (suc a) b p q =
    let rest = xor_digits_enough n m (suc a / 2) (b / 2) (omega arith) (omega arith) in omega arith

zero-bit_xor : (b : ℕ) → bit_xor 0 b ≡ b
zero-bit_xor b = bit_xor-bitwise 0 b

-- The lowest digit, and the others.
bit_xor_step : (a b : ℕ) → bit_xor a b ≡ bit_xor (a / 2) (b / 2) * 2 + (a % 2 + b % 2) % 2
bit_xor_step zero b = omega (arith, zero-bit_xor b, zero-bit_xor (b / 2))
bit_xor_step (suc a) b = omega (
  arith,
  bit_xor-bitwise (suc a) b,
  bit_xor-bitwise (suc a / 2) (b / 2),
  xor_digits_enough a (suc a / 2) (suc a / 2) (b / 2) (omega arith) (omega arith),
  differ_parity (suc a % 2) (b % 2) (omega arith) (omega arith),
)

same_below : (n a : ℕ) → a ≤ n → bit_xor a a ≡ 0
same_below n zero h = zero-bit_xor 0
same_below zero (suc a) h = absurd (omega arith)
same_below (suc n) (suc a) h =
    omega (arith, bit_xor_step (suc a) (suc a), same_below n (suc a / 2) (omega arith))

pub bit_xor_self : (a : ℕ) → bit_xor a a ≡ 0
bit_xor_self a = same_below a a (omega arith)

left_below : (n a b c : ℕ) → b ≤ n → c ≤ n → bit_xor a b ≡ bit_xor a c → b ≡ c
left_below zero a b c p q e = omega arith
left_below (suc n) a b c p q e =
    let rest =
      left_below n (a / 2) (b / 2) (c / 2) (omega arith) (omega arith)
        (omega (arith, e, bit_xor_step a b, bit_xor_step a c)) in
    omega (arith, e, rest, bit_xor_step a b, bit_xor_step a c)

pub bit_xor_left : (a b c : ℕ) → bit_xor a b ≡ bit_xor a c → b ≡ c
bit_xor_left a b c e = left_below (b + c) a b c (omega arith) (omega arith) e

right_below : (n a b c : ℕ) → b ≤ n → c ≤ n → bit_xor b a ≡ bit_xor c a → b ≡ c
right_below zero a b c p q e = omega arith
right_below (suc n) a b c p q e =
    let rest =
      right_below n (a / 2) (b / 2) (c / 2) (omega arith) (omega arith)
        (omega (arith, e, bit_xor_step b a, bit_xor_step c a)) in
    omega (arith, e, rest, bit_xor_step b a, bit_xor_step c a)

pub bit_xor_right : (a b c : ℕ) → bit_xor b a ≡ bit_xor c a → b ≡ c
bit_xor_right a b c e = right_below (b + c) a b c (omega arith) (omega arith) e
