-- ===== src/Base/Int.antt =====
-- `i64` and its wider mathematical integers, over the native numbers under the library's names.
-- `to_bits` and `of_bits` are the casts `as u64` and `as i64`; `wrap` is what a wrapping operation
-- does to an exact result.
use Prim.Native.Nat.{ℕ, zero, suc, ◌+◌, ◌-◌, ◌*◌, ◌/◌, ◌%◌, ◌^◌}
use mathlib.Core.Path.{◌≡◌}
use mathlib.Core.Bool.{Bool, true}
use native.Mathlib.Omega.{arith}
use jdruby.Base.Tests.{ltb, leb, ◌==◌, if◌then◌else◌}

-- `negsuc n` is -(n + 1).
pub data ℤ : Type 0 where
  pos : ℕ → ℤ
  negsuc : ℕ → ℤ

abbrev pub pos_part : ℤ → ℕ
pos_part (pos n) = n
pos_part (negsuc n) = 0

abbrev pub neg_part : ℤ → ℕ
neg_part (pos n) = 0
neg_part (negsuc n) = suc n

-- a - b, as an integer.
abbrev pub sub_ℕ : ℕ → ℕ → ℤ
sub_ℕ a b = if leb b a then pos (a - b) else negsuc (b - a - 1)

infixl 65 ◌+ℤ◌ ◌-ℤ◌
infixl 70 ◌*ℤ◌
unfoldable pub ◌+ℤ◌ : ℤ → ℤ → ℤ
a +ℤ b = sub_ℕ (pos_part a + pos_part b) (neg_part a + neg_part b)

unfoldable pub ◌-ℤ◌ : ℤ → ℤ → ℤ
a -ℤ b = sub_ℕ (pos_part a + neg_part b) (neg_part a + pos_part b)

unfoldable pub ◌*ℤ◌ : ℤ → ℤ → ℤ
a *ℤ b =
    sub_ℕ (pos_part a * pos_part b + neg_part a * neg_part b)
      (pos_part a * neg_part b + neg_part a * pos_part b)

abbrev pub neg : ℤ → ℤ
neg a = sub_ℕ (neg_part a) (pos_part a)

abbrev pub ltb_ℤ : ℤ → ℤ → Bool
ltb_ℤ a b = ltb (pos_part a + neg_part b) (pos_part b + neg_part a)

abbrev pub leb_ℤ : ℤ → ℤ → Bool
leb_ℤ a b = leb (pos_part a + neg_part b) (pos_part b + neg_part a)

abbrev pub eqb_ℤ : ℤ → ℤ → Bool
eqb_ℤ a b = pos_part a + neg_part b == pos_part b + neg_part a

-- The casts between `i64` and `u64`.
abbrev pub to_bits : ℤ → ℕ
to_bits (pos n) = n % 2 ^ 64
to_bits (negsuc n) = 2 ^ 64 - 1 - n % 2 ^ 64

abbrev pub of_bits : ℕ → ℤ
of_bits n = if ltb n (2 ^ 63) then pos n else negsuc (2 ^ 64 - 1 - n)

unfoldable pub wrap : ℤ → ℤ
wrap a = of_bits (to_bits a)

-- Whether an exact result is an `i64`.
abbrev pub fits : ℤ → Bool
fits (pos n) = ltb n (2 ^ 63)
fits (negsuc n) = ltb n (2 ^ 63)

-- `a / b` and `a % b` of Rust: the quotient is cut towards zero, and the remainder has the sign
-- of `a`. A zero divisor is tested before.
unfoldable pub quotient : ℤ → ℤ → ℤ
quotient a b =
    let q = (pos_part a + neg_part a) / (pos_part b + neg_part b) in
    if ltb (pos_part a * pos_part b + neg_part a * neg_part b)
      (pos_part a * neg_part b + neg_part a * pos_part b)
    then sub_ℕ 0 q
    else pos q

unfoldable pub remainder : ℤ → ℤ → ℤ
remainder a b =
    let r = (pos_part a + neg_part a) % (pos_part b + neg_part b) in
    if ltb 0 (neg_part a) then sub_ℕ 0 r else pos r

-- `a` to a power.
unfoldable pub pow : ℤ → ℕ → ℤ
pow a zero = pos 1
pow a (suc n) = pow a n *ℤ a

-- `a >> k`, which keeps the sign.
abbrev pub shift_right : ℤ → ℕ → ℤ
shift_right (pos n) k = pos (n / 2 ^ k)
shift_right (negsuc n) k = negsuc (n / 2 ^ k)

-- Wrapping changes no `i64`.
pub wrap_of_fits : (a : ℤ) → fits a ≡ true → wrap a ≡ a
unfolding wrap
wrap_of_fits (pos n) h = ground arith
wrap_of_fits (negsuc n) h = ground arith

pub fits-wrap : (a : ℤ) → fits (wrap a) ≡ true
unfolding wrap
fits-wrap (pos n) = ground arith
fits-wrap (negsuc n) = ground arith

pub eq_of_eqb : (a b : ℤ) → eqb_ℤ a b ≡ true → a ≡ b
eq_of_eqb a b h = ground arith

pub mul-one : (a : ℤ) → a *ℤ pos 1 ≡ a
unfolding ◌*ℤ◌
mul-one (pos n) = ground arith
mul-one (negsuc n) = ground arith

pub quotient-one : (a : ℤ) → quotient a (pos 1) ≡ a
unfolding quotient
quotient-one (pos n) = ground arith
quotient-one (negsuc n) = ground arith
