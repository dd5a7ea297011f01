-- ===== src/Base/Bits.antt =====
-- `&` and `|` of the native numbers as arithmetic, for the masks that the program uses.
use Prim.Native.Nat.{
  ℕ, zero, suc, ◌+◌, ◌-◌, ◌*◌, ◌/◌, ◌%◌, ◌^◌, ◌≤◌, ◌<◌, min, max, bit_and, bit_or, digits, bitwise,
  bit_and-bitwise, bit_or-bitwise,
}
use mathlib.Core.Path.{◌≡◌, refl, sym, ap, ◌∙◌}
use native.Mathlib.Omega.{arith}
use native.Mathlib.Nat.{
  pow-suc, pow-succ', mul_assoc, mul-one, div-one, div-div-eq-div-mul, div-add-mod', mod-lt,
  one-le-pow,
}

-- One step of the digit recursion, with its fuel dropped.
module _ (rest : ℕ → ℕ) (digit : ℕ → ℕ → ℕ) where
  fuel_free : (n m a b : ℕ) → a ≤ n → a ≤ m → digits rest digit n a b ≡ digits rest digit m a b
  fuel_free n m zero b p q = agree n m
    where
      agree : (n m : ℕ) → digits rest digit n zero b ≡ digits rest digit m zero b
      agree zero zero = refl
      agree zero (suc m) = refl
      agree (suc n) zero = refl
      agree (suc n) (suc m) = refl
  fuel_free zero m (suc a) b p q = absurd (omega arith)
  fuel_free (suc n) zero (suc a) b p q = absurd (omega arith)
  fuel_free (suc n) (suc m) (suc a) b p q =
      rw (fuel_free n m (suc a / 2) (b / 2) (omega arith) (omega arith))

  lowest_digit :
      (a b : ℕ)
      → bitwise rest digit (suc a) b
        ≡ bitwise rest digit (suc a / 2) (b / 2) * 2 + digit (suc a % 2) (b % 2)
  lowest_digit a b =
      omega (arith, fuel_free a (suc a / 2) (suc a / 2) (b / 2) (omega arith) (omega arith))

pub bit_and_split : (a b : ℕ) → bit_and a b ≡ bit_and (a / 2) (b / 2) * 2 + min (a % 2) (b % 2)
bit_and_split zero b = simp bit_and-bitwise (omega arith)
bit_and_split (suc a) b = simp bit_and-bitwise (lowest_digit (λ y. 0) min a b)

pub bit_or_split : (a b : ℕ) → bit_or a b ≡ bit_or (a / 2) (b / 2) * 2 + max (a % 2) (b % 2)
bit_or_split zero b = simp bit_or-bitwise (omega arith)
bit_or_split (suc a) b = simp bit_or-bitwise (lowest_digit (λ y. y) max a b)

-- `x & 0` and `x | 0`, by recursion on a bound of `x`.
and_zero_below : (n a : ℕ) → a ≤ n → bit_and a 0 ≡ 0
and_zero_below n zero h = simp bit_and-bitwise (omega arith)
and_zero_below zero (suc a) h = absurd (omega arith)
and_zero_below (suc n) (suc a) h =
    omega (arith, bit_and_split (suc a) 0, and_zero_below n (suc a / 2) (omega arith))

or_zero_below : (n a : ℕ) → a ≤ n → bit_or a 0 ≡ a
or_zero_below n zero h = simp bit_or-bitwise (omega arith)
or_zero_below zero (suc a) h = absurd (omega arith)
or_zero_below (suc n) (suc a) h =
    omega (arith, bit_or_split (suc a) 0, or_zero_below n (suc a / 2) (omega arith))

pub bit_and-zero : (a : ℕ) → bit_and a 0 ≡ 0
bit_and-zero a = and_zero_below a a (omega arith)

pub bit_or-zero : (a : ℕ) → bit_or a 0 ≡ a
bit_or-zero a = or_zero_below a a (omega arith)

half-mul_two : (t : ℕ) → (t * 2 / 2 ≡ t) × (t * 2 % 2 ≡ 0)
half-mul_two t = omega arith

double_pow : (m k : ℕ) → m * 2 ^ suc k ≡ m * 2 ^ k * 2
double_pow m k = rw pow-suc (sym (mul_assoc m (2 ^ k) 2))

-- A mask that ends in `k` zeros reads what stands above the low `k` digits.
pub bit_and_shift : (k a m : ℕ) → bit_and a (m * 2 ^ k) ≡ bit_and (a / 2 ^ k) m * 2 ^ k
bit_and_shift zero a m = rw (mul-one, div-one, mul-one)
bit_and_shift (suc k) a m =
    let e : a / 2 / 2 ^ k ≡ a / 2 ^ suc k = rw (div-div-eq-div-mul, pow-succ') in
    rw (double_pow m k) (
      omega (
        arith,
        bit_and_split a (m * 2 ^ k * 2),
        half-mul_two (m * 2 ^ k),
        bit_and_shift k (a / 2) m,
        double_pow (bit_and (a / 2 / 2 ^ k) m) k,
        ap (λ (t : ℕ). bit_and (a / 2) t) (half-mul_two (m * 2 ^ k)).0,
        ap (λ (t : ℕ). bit_and t m * 2 ^ suc k) e,
      ))

below_mask : (t : ℕ) → 0 < t → ((t * 2 - 1) / 2 ≡ t - 1) × ((t * 2 - 1) % 2 ≡ 1)
below_mask t h = omega arith

-- A field of `k` digits under a mask of `k` ones.
bit_and_field : (k q r : ℕ) → r < 2 ^ k → bit_and (q * 2 ^ k + r) (2 ^ k - 1) ≡ r
bit_and_field zero q r h = omega (arith, bit_and-zero (q * 1 + r))
bit_and_field (suc k) q r h =
    let t = 2 ^ k in
    let e : 2 ^ suc k ≡ t * 2 = pow-suc 2 k in
    let low : (q * 2 ^ suc k + r) / 2 ≡ q * t + r / 2 = omega (arith, double_pow q k) in
    let odd : (q * 2 ^ suc k + r) % 2 ≡ r % 2 = omega (arith, double_pow q k) in
    omega (
      arith,
      e,
      bit_and_split (q * 2 ^ suc k + r) (2 ^ suc k - 1),
      below_mask t (one-le-pow k 2 (omega arith)),
      bit_and_field k q (r / 2) (omega arith),
      odd,
      ap (λ (x : ℕ). bit_and x ((2 ^ suc k - 1) / 2)) low,
      ap (λ (x : ℕ). bit_and (q * t + r / 2) x)
          (ap (λ (x : ℕ). (x - 1) / 2) e ∙ (below_mask t (one-le-pow k 2 (omega arith))).0),
      ap (λ (x : ℕ). (x - 1) % 2) e,
    )

-- A mask of `k` low ones keeps the remainder by `2 ^ k`.
pub bit_and_low : (k a : ℕ) → bit_and a (2 ^ k - 1) ≡ a % 2 ^ k
bit_and_low k a =
    let whole = bit_and_field k (a / 2 ^ k) (a % 2 ^ k) (mod-lt a (one-le-pow k 2 (omega arith))) in
    rw (div-add-mod' a (2 ^ k)) at whole

-- `|` of a multiple of `2 ^ k` and a number below `2 ^ k` is their sum.
pub bit_or_disjoint : (k q r : ℕ) → r < 2 ^ k → bit_or (q * 2 ^ k) r ≡ q * 2 ^ k + r
bit_or_disjoint zero q r h =
    let e : r ≡ 0 = omega arith in rw e (omega (arith, bit_or-zero (q * 1)))
bit_or_disjoint (suc k) q r h = rw (double_pow q k) (
    omega (
      arith,
      pow-suc 2 k,
      bit_or_split (q * 2 ^ k * 2) r,
      half-mul_two (q * 2 ^ k),
      ap (λ (t : ℕ). bit_or t (r / 2)) (half-mul_two (q * 2 ^ k)).0,
      bit_or_disjoint k q (r / 2) (omega (arith, pow-suc 2 k)),
    ))

pub zero-bit_or : (b : ℕ) → bit_or 0 b ≡ b
zero-bit_or b = simp bit_or-bitwise (omega arith)
