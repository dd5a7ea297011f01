-- ===== src/Gc/Marker/Words.antt =====
-- crates/jdgc/src/header.rs: the colours of the words that the marker leaves.
use jdruby.Base.{ℕ, ◌+◌, ◌*◌, ◌/◌, ◌^◌, ◌<◌, ◌≡◌, true, false, arith, if◌then◌else◌}
use jdruby.Gc.Header.{is_white, is_gray, is_black, try_shade_gray, shade_black}
use jdruby.Gc.Header.Laws.{color_bits, shade_as_sum}

-- The word with another colour.
abbrev pub with_color : ℕ → ℕ → ℕ
with_color c w = w / 4 * 4 + c

pub is_gray-with_gray : (w : ℕ) → is_gray (with_color 1 w) ≡ true
unfolding is_gray
is_gray-with_gray w = ground (arith, color_bits (with_color 1 w))

pub is_white-with_gray : (w : ℕ) → is_white (with_color 1 w) ≡ false
unfolding is_white
is_white-with_gray w = ground (arith, color_bits (with_color 1 w))

pub is_black-with_gray : (w : ℕ) → is_black (with_color 1 w) ≡ false
unfolding is_black
is_black-with_gray w = ground (arith, color_bits (with_color 1 w))

pub is_gray-with_black : (w : ℕ) → is_gray (with_color 2 w) ≡ false
unfolding is_gray
is_gray-with_black w = ground (arith, color_bits (with_color 2 w))

pub is_black-with_black : (w : ℕ) → is_black (with_color 2 w) ≡ true
unfolding is_black
is_black-with_black w = ground (arith, color_bits (with_color 2 w))

pub is_gray-white : (w : ℕ) → is_white w ≡ true → is_gray w ≡ false
unfolding is_white is_gray
is_gray-white w h = ground arith

pub shade_black-word : (w : ℕ) → w < 2 ^ 64 → shade_black w ≡ with_color 2 w
unfolding shade_black
shade_black-word w h = shade_as_sum w 2 h (omega arith)

-- One thread's `try_shade_gray` succeeds exactly on a white word.
pub try_shade_gray-word :
    (w : ℕ)
    → w < 2 ^ 64
    → try_shade_gray w w ≡ (if is_white w then (with_color 1 w, true) else (w, false))
unfolding try_shade_gray is_white
try_shade_gray-word w h = ground (arith, shade_as_sum w 1 h (omega arith))
