-- ===== src/Ffi/Tags/Laws.antt =====
-- The tagged words of ffi_types.rs: conversions there and back, and the tests of the tags.
use Prim.Native.Nat.{bit_or}
use jdruby.Base.{ℕ, ◌+◌, ◌*◌, ◌/◌, ◌%◌, ◌^◌, ◌<◌, ◌≡◌, ◌∙◌, ap, ◌↔◌, Bool, true, false, arith, ◌==◌}
use jdruby.Base.Bits.{bit_and_low, bit_or_disjoint}
use jdruby.Base.Int.{ℤ, pos, negsuc, fits, to_bits}
use jdruby.Ffi.Tags.{
  ruby_qundef, rb_fixnum_p, rb_nil_p, rb_true_p, rb_false_p, rb_symbol_p, rb_flonum_p,
  rb_special_const_p, rb_test, rb_int2fix, rb_fix2long, rb_id2sym, rb_sym2id,
}

-- The tests and the encodings as arithmetic.
fixnum_p_as_mod : (v : ℕ) → rb_fixnum_p v ≡ (v % 2 == 1)
unfolding rb_fixnum_p
fixnum_p_as_mod v = ground (arith, bit_and_low 1 v)

symbol_p_as_mod : (v : ℕ) → rb_symbol_p v ≡ (v % 256 == 12)
unfolding rb_symbol_p
symbol_p_as_mod v = ground (arith, bit_and_low 8 v)

flonum_p_as_mod : (v : ℕ) → rb_flonum_p v ≡ (v % 4 == 2)
unfolding rb_flonum_p
flonum_p_as_mod v = ground (arith, bit_and_low 2 v)

double_mod : (n : ℕ) → n * 2 ^ 1 % 2 ^ 64 ≡ n % 2 ^ 63 * 2 ^ 1
double_mod n = omega arith

int2fix_as_sum : (i : ℤ) → rb_int2fix i ≡ to_bits i % 2 ^ 63 * 2 + 1
unfolding rb_int2fix
int2fix_as_sum i =
    ap (λ (t : ℕ). bit_or t 1) (double_mod (to_bits i))
    ∙ bit_or_disjoint 1 (to_bits i % 2 ^ 63) 1 (omega arith)

byte_mod : (n : ℕ) → n * 2 ^ 8 % 2 ^ 64 ≡ n % 2 ^ 56 * 2 ^ 8
byte_mod n = omega arith

id2sym_as_sum : (id : ℕ) → rb_id2sym id ≡ id % 2 ^ 56 * 256 + 12
unfolding rb_id2sym
id2sym_as_sum id =
    ap (λ (t : ℕ). bit_or t 12) (byte_mod id) ∙ bit_or_disjoint 8 (id % 2 ^ 56) 12 (omega arith)

-- The integers that a fixnum holds: 63 bits with a sign.
abbrev pub IsFixnum : ℤ → Type 0
IsFixnum (pos n) = n < 2 ^ 62
IsFixnum (negsuc n) = n < 2 ^ 62

-- For every i64, decoding its fixnum word gives it back exactly when it has 63 bits.
pub fix2long-int2fix_iff : (i : ℤ) → fits i ≡ true → (rb_fix2long (rb_int2fix i) ≡ i) ↔ IsFixnum i
unfolding rb_fix2long
fix2long-int2fix_iff (pos n) h = ground (arith, int2fix_as_sum (pos n))
fix2long-int2fix_iff (negsuc n) h = ground (arith, int2fix_as_sum (negsuc n))

-- Every word with the fixnum tag is the encoding of the integer that it decodes to, and that
-- integer has 63 bits.
pub int2fix-fix2long :
    (v : ℕ)
    → v < 2 ^ 64
    → rb_fixnum_p v ≡ true
    → (rb_int2fix (rb_fix2long v) ≡ v) × IsFixnum (rb_fix2long v)
unfolding rb_fix2long
int2fix-fix2long v h t = ground (arith, fixnum_p_as_mod v, int2fix_as_sum (rb_fix2long v))

-- An id below 2 ^ 56 comes back from the word of its symbol.
pub sym2id-id2sym : (id : ℕ) → id < 2 ^ 56 → rb_sym2id (rb_id2sym id) ≡ id
unfolding rb_sym2id
sym2id-id2sym id h = omega (arith, id2sym_as_sum id)

-- Every word with the symbol tag is the encoding of the id that it decodes to.
pub id2sym-sym2id : (v : ℕ) → v < 2 ^ 64 → rb_symbol_p v ≡ true → rb_id2sym (rb_sym2id v) ≡ v
unfolding rb_sym2id
id2sym-sym2id v h t = ground (arith, symbol_p_as_mod v, id2sym_as_sum (v / 2 ^ 8))

-- The word of every integer has the fixnum tag and neither the symbol's nor the flonum's, and counts
-- as true.
pub int2fix_tag :
    (i : ℤ)
    → (rb_fixnum_p (rb_int2fix i) ≡ true)
      × (rb_symbol_p (rb_int2fix i) ≡ false)
      × (rb_flonum_p (rb_int2fix i) ≡ false)
      × (rb_test (rb_int2fix i) ≡ true)
unfolding rb_test
int2fix_tag i =
    let v = rb_int2fix i in
    ground (arith, int2fix_as_sum i, fixnum_p_as_mod v, symbol_p_as_mod v, flonum_p_as_mod v)

-- The word of every id has the symbol tag and neither the fixnum's nor the flonum's, and counts as
-- true.
pub id2sym_tag :
    (id : ℕ)
    → (rb_fixnum_p (rb_id2sym id) ≡ false)
      × (rb_symbol_p (rb_id2sym id) ≡ true)
      × (rb_flonum_p (rb_id2sym id) ≡ false)
      × (rb_test (rb_id2sym id) ≡ true)
unfolding rb_test
id2sym_tag id =
    let v = rb_id2sym id in
    ground (arith, id2sym_as_sum id, fixnum_p_as_mod v, symbol_p_as_mod v, flonum_p_as_mod v)

-- The seven tests of one word, as numbers 0 and 1.
abbrev pub count : Bool → ℕ
count true = 1
count false = 0

abbrev pub tags_of : ℕ → ℕ
tags_of v =
    count (rb_fixnum_p v)
    + count (rb_symbol_p v)
    + count (rb_flonum_p v)
    + count (rb_false_p v)
    + count (rb_true_p v)
    + count (rb_nil_p v)
    + count (v == ruby_qundef)

-- No word passes two of the seven tests, and a word is a special constant exactly when it passes
-- one of them.
pub tags_of_lem : (v : ℕ) → tags_of v ≡ count (rb_special_const_p v)
unfolding rb_false_p rb_true_p rb_nil_p rb_special_const_p
tags_of_lem v = ground (arith, fixnum_p_as_mod v, symbol_p_as_mod v, flonum_p_as_mod v)

-- The address of a heap object, a multiple of 8 other than 0 and 8, is no special constant and
-- counts as true.
pub pointer_not_special :
    (v : ℕ) → v % 8 ≡ 0 → 8 < v → (rb_special_const_p v ≡ false) × (rb_test v ≡ true)
unfolding rb_special_const_p rb_test
pointer_not_special v a h = ground (arith, fixnum_p_as_mod v, symbol_p_as_mod v, flonum_p_as_mod v)
