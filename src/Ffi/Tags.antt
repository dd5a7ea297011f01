-- ===== src/Ffi/Tags.antt =====
-- crates/jdruby-common/src/ffi_types.rs: the tagged words of the C interface. A `VALUE` and an `ID`
-- are `usize`, numbers below 2 ^ 64; a shift to the left drops the digits above.
mod Laws
mod Tests
use Prim.Native.Nat.{bit_and, bit_or}
use jdruby.Base.{ℕ, ◌*◌, ◌/◌, ◌%◌, ◌^◌, Bool, not, ◌&&◌, ◌||◌, ◌==◌}
use jdruby.Base.Int.{ℤ, to_bits, of_bits, shift_right}

abbrev pub ruby_qfalse : ℕ
ruby_qfalse = 0x00

abbrev pub ruby_qtrue : ℕ
ruby_qtrue = 0x14

abbrev pub ruby_qnil : ℕ
ruby_qnil = 0x08

abbrev pub ruby_qundef : ℕ
ruby_qundef = 0x34

abbrev pub ruby_fixnum_flag : ℕ
ruby_fixnum_flag = 0x01

abbrev pub ruby_symbol_flag : ℕ
ruby_symbol_flag = 0x0C

abbrev pub ruby_flonum_mask : ℕ
ruby_flonum_mask = 0x03

abbrev pub ruby_flonum_flag : ℕ
ruby_flonum_flag = 0x02

unfoldable pub rb_fixnum_p : ℕ → Bool
rb_fixnum_p v = not (bit_and v ruby_fixnum_flag == 0)

unfoldable pub rb_nil_p : ℕ → Bool
rb_nil_p v = v == ruby_qnil

unfoldable pub rb_true_p : ℕ → Bool
rb_true_p v = v == ruby_qtrue

unfoldable pub rb_false_p : ℕ → Bool
rb_false_p v = v == ruby_qfalse

unfoldable pub rb_symbol_p : ℕ → Bool
rb_symbol_p v = bit_and v 0xFF == ruby_symbol_flag

unfoldable pub rb_flonum_p : ℕ → Bool
rb_flonum_p v = bit_and v ruby_flonum_mask == ruby_flonum_flag

unfoldable pub rb_special_const_p : ℕ → Bool
rb_special_const_p v =
    rb_fixnum_p v
    || rb_symbol_p v
    || rb_flonum_p v
    || v == ruby_qfalse
    || v == ruby_qtrue
    || v == ruby_qnil
    || v == ruby_qundef

unfoldable pub rb_test : ℕ → Bool
rb_test v = not (v == ruby_qfalse) && not (v == ruby_qnil)

unfoldable pub rb_int2fix : ℤ → ℕ
rb_int2fix i = bit_or (to_bits i * 2 ^ 1 % 2 ^ 64) ruby_fixnum_flag

unfoldable pub rb_fix2long : ℕ → ℤ
rb_fix2long v = shift_right (of_bits v) 1

unfoldable pub rb_id2sym : ℕ → ℕ
rb_id2sym id = bit_or (id * 2 ^ 8 % 2 ^ 64) ruby_symbol_flag

unfoldable pub rb_sym2id : ℕ → ℕ
rb_sym2id v = v / 2 ^ 8
