-- ===== src/Gc/Header.antt =====
-- crates/jdgc/src/header.rs: the header word of an object. Bits 0 and 1 are the colour, bit 2 the
-- pinned flag, the bits from 3 on the forwarding address. A load followed by a compare-exchange is
-- a function of the word that the load saw and of the word that is there at the exchange.
pub mod Laws
pub mod Forward
use Prim.Native.Nat.{bit_and, bit_or}
use jdruby.Base.{
  ℕ, ◌+◌, Bool, true, false, not, Option, some, none, List, [], ◌∷◌, ◌==◌, if◌then◌else◌,
}
use jdruby.Gc.Util.{color_mask, pinned_bit, fwd_mask, white, gray, black, complement}

pub data Color : Type 0 where
  is_a_white is_a_gray is_a_black : Color

pub record ObjectHeader : Type 0 where
  pub bits : ℕ
  pub payload_size : ℕ

-- `std::mem::size_of::<ObjectHeader>()`
abbrev pub header_size : ℕ
header_size = 16

unfoldable pub init_at : ℕ → ℕ → ObjectHeader
init_at addr payload = record { bits = bit_or addr white; payload_size = payload }

unfoldable pub color : ℕ → Color
color w =
    let c = bit_and w color_mask in
    if c == white
    then is_a_white
    else if c == gray
    then is_a_gray
    else if c == black
    then is_a_black
    else is_a_white

unfoldable pub is_white : ℕ → Bool
is_white w = bit_and w color_mask == white

unfoldable pub is_gray : ℕ → Bool
is_gray w = bit_and w color_mask == gray

unfoldable pub is_black : ℕ → Bool
is_black w = bit_and w color_mask == black

-- `compare_exchange(old, new)` on a word that holds `now`.
abbrev pub compare_exchange : ℕ → ℕ → ℕ → ℕ × Bool
compare_exchange old new now = if now == old then (new, true) else (now, false)

-- `try_shade_gray`, with `old` loaded and `now` there at the exchange.
unfoldable pub try_shade_gray : ℕ → ℕ → ℕ × Bool
try_shade_gray old now =
    if not (bit_and old color_mask == white)
    then (now, false)
    else compare_exchange old (bit_or (bit_and old (complement color_mask)) gray) now

unfoldable pub shade_black : ℕ → ℕ
shade_black w = bit_or (bit_and w (complement color_mask)) black

unfoldable pub reset_white : ℕ → ℕ
reset_white w = bit_or (bit_and w (complement color_mask)) white

unfoldable pub is_pinned : ℕ → Bool
is_pinned w = not (bit_and w pinned_bit == 0)

unfoldable pub pin : ℕ → ℕ
pin w = bit_or w pinned_bit

unfoldable pub unpin : ℕ → ℕ
unpin w = bit_and w (complement pinned_bit)

unfoldable pub forwarding_address : ℕ → ℕ
forwarding_address w = bit_and w fwd_mask

unfoldable pub is_forwarded : ℕ → ℕ → Bool
is_forwarded w self_ptr = not (forwarding_address w == self_ptr)

-- `Ok(new_ptr)` or `Err(winner)`, with the word that is left.
pub data Install : Type 0 where
  installed : ℕ → ℕ → Install
  already : ℕ → ℕ → Install

-- The loop of `try_install_forwarding` from the word `current`; the list holds the word that is
-- there at each exchange. `none`: the list ends before the loop does.
unfoldable pub install_loop : ℕ → ℕ → ℕ → List ℕ → Option Install
install_loop old_ptr new_ptr current [] =
    if bit_and current fwd_mask == old_ptr
    then none
    else some (already (bit_and current fwd_mask) current)
install_loop old_ptr new_ptr current (now ∷ nows) =
    let again = install_loop old_ptr new_ptr now nows in
    if not (bit_and current fwd_mask == old_ptr)
    then some (already (bit_and current fwd_mask) now)
    else if now == current
    then some (installed new_ptr (bit_or (bit_and current color_mask) new_ptr))
    else again

unfoldable pub total_size : ObjectHeader → ℕ
total_size h = header_size + h.payload_size
