-- ===== src/Prelude/Bits.antt =====
-- Exclusive or, a digit at a time.
use Prim.Native.Nat.{
  ℕ, zero, suc, ◌+◌, ◌*◌, ◌/◌, ◌%◌, ◌≤◌, bit_xor, digits, differ, bit_xor-bitwise,
}
use mathlib.Core.Path.{◌≡◌, refl}
use native.Mathlib.Omega.{arith}

abbrev xor_digits : ℕ → ℕ → ℕ → ℕ
xor_digits n a b = digits (λ b. b) differ n a b

differ_parity : (x y : ℕ) → x ≤ 1 → y ≤ 1 → differ x y ≡ (x + y) % 2
differ_parity zero y h k = omega arith
differ_parity (suc zero) zero h k = refl
differ_parity (suc zero) (suc zero) h k = refl
differ_parity (suc zero) (suc (suc y)) h k = absurd (omega arith)
differ_parity (suc (suc x)) y h k = absurd (omega arith)

-- The count of digits does not matter where it is no less than the first number.
pair_digits : (n m a b : ℕ) → a ≤ n → a ≤ m → xor_digits n a b ≡ xor_digits m a b
pair_digits zero zero a b h k = refl
pair_digits zero (suc m) zero b h k = refl
pair_digits zero (suc m) (suc a) b h k = absurd (omega arith)
pair_digits (suc n) zero zero b h k = refl
pair_digits (suc n) zero (suc a) b h k = absurd (omega arith)
pair_digits (suc n) (suc m) zero b h k = refl
pair_digits (suc n) (suc m) (suc a) b h k =
    omega (arith, pair_digits n m (suc a / 2) (b / 2) (omega arith) (omega arith))

zero-bit_xor : (b : ℕ) → bit_xor 0 b ≡ b
zero-bit_xor b = bit_xor-bitwise 0 b

pub bit_xor_step : (a b : ℕ) → bit_xor a b ≡ bit_xor (a / 2) (b / 2) * 2 + (a % 2 + b % 2) % 2
bit_xor_step zero b = omega (arith, zero-bit_xor b, zero-bit_xor (b / 2))
bit_xor_step (suc a) b = omega (
  arith,
  bit_xor-bitwise (suc a) b,
  bit_xor-bitwise (suc a / 2) (b / 2),
  pair_digits a (suc a / 2) (suc a / 2) (b / 2) (omega arith) (omega arith),
  differ_parity (suc a % 2) (b % 2) (omega arith) (omega arith),
)

swap_last :
    (n r a b : ℕ) → r ≤ n → a ≤ n → b ≤ n → bit_xor (bit_xor r a) b ≡ bit_xor (bit_xor r b) a
swap_last zero zero zero zero h k l = refl
swap_last zero (suc r) a b h k l = absurd (omega arith)
swap_last zero zero (suc a) b h k l = absurd (omega arith)
swap_last zero zero zero (suc b) h k l = absurd (omega arith)
swap_last (suc n) r a b h k l =
    let ra : bit_xor r a / 2 ≡ bit_xor (r / 2) (a / 2) = omega (arith, bit_xor_step r a) in
    let rb : bit_xor r b / 2 ≡ bit_xor (r / 2) (b / 2) = omega (arith, bit_xor_step r b) in
    let left = bit_xor_step (bit_xor r a) b in
    let right = bit_xor_step (bit_xor r b) a in
    let ih = swap_last n (r / 2) (a / 2) (b / 2) (omega arith) (omega arith) (omega arith) in
    rw (left, right, ra, rb, ih) (omega (arith, bit_xor_step r a, bit_xor_step r b))

-- The order in which two words are added to a third does not matter.
pub bit_xor_right_comm : (r a b : ℕ) → bit_xor (bit_xor r a) b ≡ bit_xor (bit_xor r b) a
bit_xor_right_comm r a b = swap_last (r + a + b) r a b (omega arith) (omega arith) (omega arith)
