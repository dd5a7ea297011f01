-- ===== src/Gc/Util.antt =====
-- crates/jdgc/src/util.rs: constants and alignment. A `usize` is a number below 2 ^ 64, and sums
-- wrap as in a release build.
use Prim.Native.Nat.{bit_and}
use Prim.Native.Nat.add
use native.Mathlib.Nat.{
  one-le-pow, pow-suc, mod-eq_of_lt, div-lt_iff_lt-mul, div-add-mod', mod-lt, mul-mod_left,
}
use jdruby.Base.{
  ℕ, zero, sym, suc, ◌+◌, ◌-◌, ◌*◌, ◌/◌, ◌%◌, ◌^◌, ◌≤◌, ◌<◌, ◌≡◌, ◌∙◌, ap, Bool, arith, ◌==◌,
}
use jdruby.Base.Bits.{bit_and_shift, bit_and_low}

abbrev pub region_size : ℕ
region_size = 2 * 1024 * 1024

abbrev pub obj_align : ℕ
obj_align = 8

abbrev pub color_mask : ℕ
color_mask = 3

abbrev pub pinned_bit : ℕ
pinned_bit = 4

-- `!0b111u64`
abbrev pub fwd_mask : ℕ
fwd_mask = 2 ^ 64 - 1 - 7

abbrev pub white : ℕ
white = 0

abbrev pub gray : ℕ
gray = 1

abbrev pub black : ℕ
black = 2

abbrev pub max_tlab_allocation : ℕ
max_tlab_allocation = region_size / 8

-- `!x` on 64 bits
abbrev pub complement : ℕ → ℕ
complement x = 2 ^ 64 - 1 - x

unfoldable pub align_up : ℕ → ℕ → ℕ
align_up val align = bit_and ((val + align - 1) % 2 ^ 64) (complement (align - 1))

unfoldable pub align_down : ℕ → ℕ → ℕ
align_down val align = bit_and val (complement (align - 1))

unfoldable pub is_aligned : ℕ → ℕ → Bool
is_aligned val align = bit_and val (align - 1) == 0

pub align_up_eight : (n : ℕ) → n + 7 < 2 ^ 64 → align_up n 8 ≡ (n + 7) / 8 * 8
unfolding align_up
align_up_eight n h =
    let e = bit_and_shift 3 ((n + 8 - 1) % 2 ^ 64) (2 ^ 61 - 1) in
    let f = bit_and_low 61 ((n + 8 - 1) % 2 ^ 64 / 2 ^ 3) in omega (arith, e, f)

sub_mul_one : (a b : ℕ) → 1 ≤ a → (a - 1) * b + b ≡ a * b
sub_mul_one zero b h = absurd (omega arith)
sub_mul_one (suc a) b h = let e : suc a - 1 ≡ a = omega arith in rw e (omega arith)

pow_split : (j k : ℕ) → 2 ^ (j + k) ≡ 2 ^ j * 2 ^ k
pow_split zero k = rw (add.zero k) (omega arith)
pow_split (suc j) k = rw (add.suc j k, pow-suc, pow-suc, pow_split j k) (grind arith)

-- The mask of `align_up` at a power of two.
high_mask : (k : ℕ) → k ≤ 64 → complement (2 ^ k - 1) ≡ (2 ^ (64 - k) - 1) * 2 ^ k
high_mask k h =
    let e : 64 - k + k ≡ 64 = omega arith in
    let f : 2 ^ 64 ≡ 2 ^ (64 - k) * 2 ^ k = ap (λ (x : ℕ). 2 ^ x) (sym e) ∙ pow_split (64 - k) k in
    let pos = one-le-pow k 2 (omega arith) in
    let pos' = one-le-pow (64 - k) 2 (omega arith) in
    omega (arith, f, pos, pos', sub_mul_one (2 ^ (64 - k)) (2 ^ k) pos')

-- At a power of two `align_up` gives the next multiple, where the sum does not overflow.
pub align_up_lem :
    (v k : ℕ)
    → k ≤ 64
    → v + (2 ^ k - 1) < 2 ^ 64
    → let a = align_up v (2 ^ k) in (v ≤ a) × (a < v + 2 ^ k) × (a % 2 ^ k ≡ 0)
unfolding align_up
align_up_lem v k h f =
    let t = 2 ^ k in
    let x = v + t - 1 in
    let pos = one-le-pow k 2 (omega arith) in
    let small : x % 2 ^ 64 ≡ x = mod-eq_of_lt (omega arith) in
    let e : 64 - k + k ≡ 64 = omega arith in
    let whole : 2 ^ 64 ≡ 2 ^ (64 - k) * t = ap (λ (y : ℕ). 2 ^ y) (sym e) ∙ pow_split (64 - k) k in
    let top : x / t < 2 ^ (64 - k) = (div-lt_iff_lt-mul pos).1 (omega (arith, whole)) in
    let a : bit_and (x % 2 ^ 64) (complement (t - 1)) ≡ x / t * t =
      rw (small, high_mask k h, bit_and_shift k x (2 ^ (64 - k) - 1), bit_and_low (64 - k) (x / t))
        (ap (λ (y : ℕ). y * t) (mod-eq_of_lt top)) in
    rw a (
      omega (arith, div-add-mod' x t, mod-lt x pos),
      omega (arith, div-add-mod' x t),
      mul-mod_left (x / t) t,
    )
