-- ===== src/Gc/Header/Laws.antt =====
-- The fields of the header word of header.rs under its operations.
use Prim.Native.Nat.{bit_and, bit_or}
use jdruby.Base.{
  ◌↔◌, ◌&&◌, Bool-cases, inl, inr, ℕ, ◌+◌, ◌-◌, ◌*◌, ◌/◌, ◌%◌, ◌^◌, ◌<◌, ◌≡◌, ◌∙◌, ap, refl, Bool,
  true, false, arith, ◌==◌,
}
use jdruby.Base.Bits.{
  bit_and_shift, bit_and_low, bit_or_disjoint, bit_and_split, bit_or_split, bit_or-zero,
}
use jdruby.Gc.Header.{
  is_a_white, is_a_gray, is_a_black, color, is_white, try_shade_gray, shade_black, reset_white,
  is_pinned, pin, unpin, forwarding_address,
}
use jdruby.Gc.Util.{color_mask, pinned_bit, fwd_mask, complement}

-- The masks as arithmetic.
pub color_bits : (w : ℕ) → bit_and w color_mask ≡ w % 4
color_bits w = bit_and_low 2 w

above_color : (w : ℕ) → w < 2 ^ 64 → bit_and w (complement color_mask) ≡ w / 4 * 2 ^ 2
above_color w h = omega (arith, bit_and_shift 2 w (2 ^ 62 - 1), bit_and_low 62 (w / 2 ^ 2))

pub address_bits : (w : ℕ) → w < 2 ^ 64 → bit_and w fwd_mask ≡ w / 8 * 8
address_bits w h = omega (arith, bit_and_shift 3 w (2 ^ 61 - 1), bit_and_low 61 (w / 2 ^ 3))

pub pinned_bits : (w : ℕ) → bit_and w pinned_bit ≡ w / 4 % 2 * 4
pinned_bits w = omega (arith, bit_and_shift 2 w 1, bit_and_low 1 (w / 2 ^ 2))

with_pinned : (w : ℕ) → bit_or w pinned_bit ≡ w / 8 * 8 + 4 + w % 4
with_pinned w = omega (
  arith,
  bit_or_split w 4,
  bit_or_split (w / 2) 2,
  bit_or_split (w / 2 / 2) 1,
  bit_or-zero (w / 2 / 2 / 2),
)

without_pinned : (w : ℕ) → w < 2 ^ 64 → bit_and w (complement pinned_bit) ≡ w / 8 * 8 + w % 4
without_pinned w h = omega (
  arith,
  bit_and_split w (2 ^ 64 - 5),
  bit_and_split (w / 2) (2 ^ 63 - 3),
  bit_and_split (w / 2 / 2) (2 ^ 62 - 2),
  bit_and_low 61 (w / 2 / 2 / 2),
)

pub shade_as_sum :
    (w c : ℕ) → w < 2 ^ 64 → c < 4 → bit_or (bit_and w (complement color_mask)) c ≡ w / 4 * 4 + c
shade_as_sum w c h k =
    ap (λ (t : ℕ). bit_or t c) (above_color w h) ∙ bit_or_disjoint 2 (w / 4) c (omega arith)

-- Two words with the same pinned flag and the same forwarding address.
abbrev pub SameBelow : ℕ → ℕ → Type 0
SameBelow v w = (is_pinned v ≡ is_pinned w) × (forwarding_address v ≡ forwarding_address w)

-- For every word: `shade_black` makes it black and `reset_white` white, and neither changes the
-- pinned flag or the forwarding address.
pub recolor_fields :
    (w : ℕ)
    → w < 2 ^ 64
    → (color (shade_black w) ≡ is_a_black)
      × SameBelow (shade_black w) w
      × (color (reset_white w) ≡ is_a_white)
      × SameBelow (reset_white w) w
unfolding color shade_black reset_white is_pinned forwarding_address
recolor_fields w h =
    let b = w / 4 * 4 + 2 in
    let c = w / 4 * 4 + 0 in
    rw (shade_as_sum w 2 h (omega arith), shade_as_sum w 0 h (omega arith))
      (ground (
        arith,
        color_bits b,
        color_bits c,
        pinned_bits b,
        pinned_bits c,
        pinned_bits w,
        address_bits b (omega arith),
        address_bits c (omega arith),
        address_bits w h,
      ))

-- For every word: `pin` sets the pinned flag and `unpin` clears it, and neither changes the colour
-- or the forwarding address.
pub pin_fields :
    (w : ℕ)
    → w < 2 ^ 64
    → (is_pinned (pin w) ≡ true)
      × (color (pin w) ≡ color w)
      × (forwarding_address (pin w) ≡ forwarding_address w)
      × (is_pinned (unpin w) ≡ false)
      × (color (unpin w) ≡ color w)
      × (forwarding_address (unpin w) ≡ forwarding_address w)
unfolding color is_pinned forwarding_address pin unpin
pin_fields w h =
    let b = w / 8 * 8 + 4 + w % 4 in
    let c = w / 8 * 8 + w % 4 in
    rw (with_pinned w, without_pinned w h)
      (ground (
        arith,
        color_bits b,
        color_bits c,
        color_bits w,
        pinned_bits b,
        pinned_bits c,
        address_bits b (omega arith),
        address_bits c (omega arith),
        address_bits w h,
      ))

pub is_white-reset_white : (w : ℕ) → w < 2 ^ 64 → is_white (reset_white w) ≡ true
unfolding is_white reset_white
is_white-reset_white w h =
    rw (shade_as_sum w 0 h (omega arith)) (ground (arith, color_bits (w / 4 * 4 + 0)))

shade_gray_of_white :
    (w : ℕ) → w < 2 ^ 64 → bit_and w color_mask ≡ 0 → try_shade_gray w w ≡ (w / 4 * 4 + 1, true)
unfolding try_shade_gray
shade_gray_of_white w h e = ground (arith, shade_as_sum w 1 h (omega arith))

gray_fields :
    (w : ℕ) → w < 2 ^ 64 → (color (w / 4 * 4 + 1) ≡ is_a_gray) × SameBelow (w / 4 * 4 + 1) w
unfolding color is_pinned forwarding_address
gray_fields w h =
    let b = w / 4 * 4 + 1 in
    ground (
      arith,
      color_bits b,
      pinned_bits b,
      pinned_bits w,
      address_bits b (omega arith),
      address_bits w h,
    )

shade_gray_of_gray : (old w : ℕ) → (try_shade_gray old (w / 4 * 4 + 1)).1 ≡ false
unfolding try_shade_gray
shade_gray_of_gray old w = ground (arith, color_bits old)

won_at :
    (old now : ℕ) → (is_white old && now == old) ≡ true → (now ≡ old) × (bit_and now color_mask ≡ 0)
unfolding is_white
won_at old now h = ground arith

lost_at :
    (old now : ℕ) → (is_white old && now == old) ≡ false → try_shade_gray old now ≡ (now, false)
unfolding is_white try_shade_gray
lost_at old now h = ground arith

-- What `try_shade_gray` promises of the word that it leaves and of its answer.
abbrev pub Shades : ℕ → ℕ → ℕ × Bool → Type 0
Shades old now r =
    ((r.1 ≡ true) ↔ ((now ≡ old) × (is_white old ≡ true)))
    × (r.1 ≡ false → r.0 ≡ now)
    × (r.1 ≡ true
        → (color r.0 ≡ is_a_gray)
          × SameBelow r.0 now
          × ((old' : ℕ) → (try_shade_gray old' r.0).1 ≡ false))

-- `try_shade_gray`, for every word that was loaded and every word that is there at the exchange:
-- it succeeds exactly when they are the same white word; where it fails the word stays; and where
-- it succeeds the word is gray with its pinned flag and forwarding address, and no other thread
-- then succeeds on it, whatever word that thread has loaded.
pub try_shade_gray-Shades : (old now : ℕ) → now < 2 ^ 64 → Shades old now (try_shade_gray old now)
try_shade_gray-Shades old now h = elim (Bool-cases (is_white old && now == old)) [
  | inl win ↦
      let (same, clear) = won_at old now win in
      let e : try_shade_gray old now ≡ (now / 4 * 4 + 1, true) =
        rw (← same) (shade_gray_of_white now h clear) in
      rw e (
        (λ _. (same, ground arith), λ _. refl),
        λ f. cc,
        λ _. ((gray_fields now h).0, (gray_fields now h).1, λ old'. shade_gray_of_gray old' now),
      )
  | inr lose ↦
      let e : try_shade_gray old now ≡ (now, false) = lost_at old now lose in
      rw e ((λ f. cc, λ f. ground arith), λ _. refl, λ f. cc)
]
