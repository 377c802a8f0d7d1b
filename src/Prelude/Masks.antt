-- ===== src/Prelude/Masks.antt =====
-- `bit_and` with a mask whose low bits are clear and whose other bits are set.
use Prim.Native.Nat.{
  ℕ, zero, suc, ◌+◌, ◌-◌, ◌*◌, ◌/◌, ◌%◌, ◌^◌, ◌≤◌, ◌<◌, min, bit_and, digits, bit_and-bitwise,
}
use mathlib.Core.Path.{◌≡◌, refl, ap, sym, subst, ◌∙◌}
use native.Mathlib.Omega.{arith}
use native.Mathlib.Nat.{
  div-div-eq-div-mul, pow-succ', mul_assoc, mul_comm, mul-sub, mul-one, zero-add, one-mul, suc-add,
  one-le-pow, div-lt_iff_lt-mul,
}

-- How many digits are taken does not matter, where they are as many as the first number.
enough_digits :
    (n m a b : ℕ) → a ≤ n → a ≤ m → digits (λ b. zero) min n a b ≡ digits (λ b. zero) min m a b
enough_digits zero zero a b h k = refl
enough_digits zero (suc m) zero b h k = refl
enough_digits zero (suc m) (suc a) b h k = absurd (omega arith)
enough_digits (suc n) zero zero b h k = refl
enough_digits (suc n) (suc m) zero b h k = refl
enough_digits (suc n) zero (suc a) b h k = absurd (omega arith)
enough_digits (suc n) (suc m) (suc a) b h k =
    omega (arith, enough_digits n m (suc a / 2) (b / 2) (omega arith) (omega arith))

and-lowest : (a b : ℕ) → bit_and a b ≡ bit_and (a / 2) (b / 2) * 2 + min (a % 2) (b % 2)
and-lowest zero b = omega (arith, bit_and-bitwise 0 b, bit_and-bitwise 0 (b / 2))
and-lowest (suc a) b =
    let same = enough_digits a (suc a / 2) (suc a / 2) (b / 2) (omega arith) (omega arith) in
    omega (arith, bit_and-bitwise (suc a) b, bit_and-bitwise (suc a / 2) (b / 2), same)

double : (k y : ℕ) → 2 ^ suc k * y ≡ 2 * (2 ^ k * y)
double k y = rw (pow-succ' 2 k) (mul_assoc 2 (2 ^ k) y)

-- A mask that is shifted.
and-shifted : (k x y : ℕ) → bit_and x (2 ^ k * y) ≡ 2 ^ k * bit_and (x / 2 ^ k) y
and-shifted zero x y =
    let one : 1 * y ≡ y = omega arith in
    let same : x / 1 ≡ x = omega arith in rw (one, same) (omega arith)
and-shifted (suc k) x y =
    let z = 2 ^ k * y in
    let b = bit_and (x / 2 / 2 ^ k) y in
    let half : 2 * z / 2 ≡ z = omega arith in
    let even : 2 * z % 2 ≡ 0 = omega arith in
    let whole : x / 2 ^ suc k ≡ x / 2 / 2 ^ k =
      ap (λ w. x / w) (pow-succ' 2 k) ∙ sym (div-div-eq-div-mul x 2 (2 ^ k)) in
    rw (double k y, and-lowest x (2 * z), half, even, and-shifted k (x / 2) y, whole)
      (omega (arith, double k b))

and_digits : (n k x : ℕ) → x ≤ n → x < 2 ^ k → digits (λ b. zero) min n x (2 ^ k - 1) ≡ x
and_digits zero k zero h small = refl
and_digits zero k (suc x) h small = absurd (omega arith)
and_digits (suc n) k zero h small = refl
and_digits (suc n) zero (suc x) h small = absurd (omega arith)
and_digits (suc n) (suc k) (suc x) h small =
    let half : (2 ^ suc k - 1) / 2 ≡ 2 ^ k - 1 = omega arith in
    let odd : (2 ^ suc k - 1) % 2 ≡ 1 = omega arith in
    let rest = and_digits n k (suc x / 2) (omega arith) (omega arith) in
    rw (half, odd, rest) (omega arith)

-- A number below `2 ^ k` stays under a mask of `k` ones.
pub and_ones : (k x : ℕ) → x < 2 ^ k → bit_and x (2 ^ k - 1) ≡ x
and_ones k x small = bit_and-bitwise x (2 ^ k - 1) ∙ and_digits x k x (omega arith) small

split_power : (k m : ℕ) → 2 ^ (k + m) ≡ 2 ^ k * 2 ^ m
split_power zero m = ap (λ n. 2 ^ n) (zero-add m) ∙ sym (one-mul (2 ^ m))
split_power (suc k) m =
    ap (λ n. 2 ^ n) (suc-add k m)
    ∙ pow-succ' 2 (k + m)
    ∙ ap (λ w. 2 * w) (split_power k m)
    ∙ sym (double k (2 ^ m))

-- A mask of `m` ones above `k` zeros clears the low `k` bits of a number.
pub and_high : (k m x : ℕ) → x < 2 ^ (k + m) → bit_and x (2 ^ (k + m) - 2 ^ k) ≡ x / 2 ^ k * 2 ^ k
and_high k m x small =
    let mask : 2 ^ (k + m) - 2 ^ k ≡ 2 ^ k * (2 ^ m - 1) =
      ap (λ w. w - 2 ^ k) (split_power k m)
      ∙ sym (mul-sub (2 ^ k) (2 ^ m) 1 ∙ ap (λ w. 2 ^ k * 2 ^ m - w) (mul-one (2 ^ k))) in
    let top : x / 2 ^ k < 2 ^ m =
      (div-lt_iff_lt-mul (one-le-pow k 2 (omega arith))).1
        (subst (λ w. x < w) (split_power k m ∙ mul_comm (2 ^ k) (2 ^ m)) small) in
    ap (bit_and x) mask
    ∙ and-shifted k x (2 ^ m - 1)
    ∙ ap (λ w. 2 ^ k * w) (and_ones m (x / 2 ^ k) top)
    ∙ mul_comm (2 ^ k) (x / 2 ^ k)
