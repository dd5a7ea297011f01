-- ===== src/Ffi/Tags/Tests.antt =====
-- Runs of the tagged words of ffi_types.rs, and the theorems at concrete words.
use jdruby.Base.{◌^◌, ◌<◌, ◌≡◌, ◌↔◌, refl}
use jdruby.Base.Int.{negsuc}
use jdruby.Ffi.Tags.{rb_int2fix, rb_fix2long}
use jdruby.Ffi.Tags.Laws.{fix2long-int2fix_iff}

minus_three : rb_int2fix (negsuc 2) ≡ 0xFFFF_FFFF_FFFF_FFFB
unfolding rb_int2fix
minus_three = refl

fix2long-int2fix_iff_example : (rb_fix2long (rb_int2fix (negsuc 41)) ≡ negsuc 41) ↔ (41 < 2 ^ 62)
fix2long-int2fix_iff_example = fix2long-int2fix_iff (negsuc 41) refl
