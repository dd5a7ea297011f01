-- ===== src/Gc/Header/Forward.antt =====
-- The forwarding pointers of header.rs: a new header, and the loop of `try_install_forwarding`.
use Prim.Native.Nat.{bit_and, bit_or}
use mathlib.Core.Path.{subst}
use jdruby.Base.{
  ==_iff, Bool-cases, inl, inr, ◌⊎◌, ℕ, zero, suc, none, get_elem?, All, ◌+◌, ◌/◌, ◌%◌, ◌^◌, ◌<◌,
  ◌≡◌, ◌≢◌, ◌∙◌, ap, refl, false, arith, ◌==◌, some, List, [], ◌∷◌,
}
use jdruby.Base.Bits.{bit_or_split, zero-bit_or, bit_or-zero}
use jdruby.Gc.Header.{
  is_a_white, color, is_pinned, forwarding_address, is_forwarded, init_at, Install, installed,
  already, install_loop,
}
use jdruby.Gc.Header.Laws.{color_bits, address_bits, pinned_bits}
use jdruby.Gc.Util.{color_mask, fwd_mask}

-- The header of a new object at an 8-aligned address is white, not pinned, and forwards to the
-- object itself.
pub init_at_fields :
    (addr payload : ℕ)
    → addr < 2 ^ 64
    → addr % 8 ≡ 0
    → let w = (init_at addr payload).bits in
      (color w ≡ is_a_white)
      × (is_pinned w ≡ false)
      × (forwarding_address w ≡ addr)
      × (is_forwarded w addr ≡ false)
unfolding init_at color is_pinned forwarding_address is_forwarded
init_at_fields addr payload h a =
    rw (bit_or-zero addr) (ground (arith, color_bits addr, pinned_bits addr, address_bits addr h))

abbrev first_words : ℕ → List ℕ → List ℕ
first_words zero ws = []
first_words (suc k) [] = []
first_words (suc k) (w ∷ ws) = w ∷ first_words k ws

-- The words that were seen before the one with this number all forward to the old address.
abbrev Before : ℕ → ℕ → List ℕ → Type 0
Before old_ptr k ws = All (λ w. forwarding_address w ≡ old_ptr) (first_words k ws)

-- What the loop of `try_install_forwarding` may end with, from the word `current` and the words that
-- are there at the exchanges. The word `old` that the new one replaces is the one that was seen
-- before that exchange and is still there at it.
abbrev pub Installs : ℕ → ℕ → ℕ → List ℕ → Install → Type 0
Installs old_ptr new_ptr current nows (installed p w) =
    (k old : ℕ) × (get_elem? (current ∷ nows) k ≡ some old)
    × (get_elem? nows k ≡ some old)
    × (forwarding_address old ≡ old_ptr)
    × Before old_ptr k (current ∷ nows)
    × (p ≡ new_ptr)
    × (forwarding_address w ≡ new_ptr)
    × (color w ≡ color old)
    × (is_pinned w ≡ false)
Installs old_ptr new_ptr current nows (already p w) =
    (k seen : ℕ) × (get_elem? (current ∷ nows) k ≡ some seen)
    × (forwarding_address seen ≡ p)
    × (p ≢ old_ptr)
    × Before old_ptr k (current ∷ nows)
    × ((get_elem? nows k ≡ some w) ⊎ ((get_elem? nows k ≡ none) × (w ≡ seen)))

-- One more exchange before, at which the word was another one.
later :
    (old_ptr new_ptr current now : ℕ) (nows : List ℕ) (r : Install)
    → forwarding_address current ≡ old_ptr
    → Installs old_ptr new_ptr now nows r
    → Installs old_ptr new_ptr current (now ∷ nows) r
later o n current now nows (installed p w) f (k, old, a, b, c, d, e, g, h, i) =
    (suc k, old, a, b, c, (f, d), e, g, h, i)
later o n current now nows (already p w) f (k, seen, a, b, c, d, e) =
    (suc k, seen, a, b, c, (f, d), e)

gone : (c : ℕ) → c < 4 → c / 2 / 2 / 2 ≡ 0
gone c h = omega arith

or_aligned : (c p : ℕ) → c < 4 → p % 8 ≡ 0 → bit_or c p ≡ p + c
or_aligned c p h a = omega (
  arith,
  bit_or_split c p,
  bit_or_split (c / 2) (p / 2),
  bit_or_split (c / 2 / 2) (p / 2 / 2),
  ap (λ (t : ℕ). bit_or t (p / 2 / 2 / 2)) (gone c h),
  zero-bit_or (p / 2 / 2 / 2),
)

installed_word :
    (w p : ℕ)
    → p < 2 ^ 64
    → p % 8 ≡ 0
    → let v = bit_or (bit_and w color_mask) p in
      (color v ≡ color w) × (forwarding_address v ≡ p) × (is_pinned v ≡ false)
unfolding color is_pinned forwarding_address
installed_word w p h a =
    let v = p + w % 4 in
    let e : bit_or (bit_and w color_mask) p ≡ v =
      ap (λ (t : ℕ). bit_or t p) (color_bits w) ∙ or_aligned (w % 4) p (omega arith) a in
    rw e (ground (arith, color_bits v, color_bits w, pinned_bits v, address_bits v (omega arith)))

some_inj : {x y : Install} → some x ≡ some y → x ≡ y
some_inj h = cc

-- Whatever other threads write between the exchanges, when the loop of `try_install_forwarding` ends
-- there are two cases. It has put the new address into the word that it saw last and that was still
-- there at the exchange: that word forwarded to the old address, and the new word has its colour and
-- no pinned flag. Or the word that it saw last forwards to another address than the old one: it
-- returns that address, and the word that is there stays. In both cases all words that it saw before
-- forward to the old address.
pub install_loop-Installs :
    (old_ptr new_ptr current : ℕ) (nows : List ℕ) (r : Install)
    → new_ptr < 2 ^ 64
    → new_ptr % 8 ≡ 0
    → install_loop old_ptr new_ptr current nows ≡ some r
    → Installs old_ptr new_ptr current nows r
unfolding install_loop forwarding_address
install_loop-Installs o n c [] r h a e = elim (Bool-cases (bit_and c fwd_mask == o)) [
  | inl same ↦ absurd (cc (rw same at e))
  | inr other ↦
      let end : already (bit_and c fwd_mask) c ≡ r = some_inj (rw other at e) in
      subst (λ (x : Install). Installs o n c [] x) end
        (0, c, refl, refl, (λ q. ground arith), tt, inr (refl, refl))
]
install_loop-Installs o n c (now ∷ nows) r h a e = elim (Bool-cases (bit_and c fwd_mask == o)) [
  | inr other ↦
      let end : already (bit_and c fwd_mask) now ≡ r = some_inj (rw other at e) in
      subst (λ (x : Install). Installs o n c (now ∷ nows) x) end
        (0, c, refl, refl, (λ q. ground arith), tt, inl refl)
  | inl same ↦ elim (Bool-cases (now == c)) [
    | inr lost ↦
        later o n c now nows r ((==_iff _ o).0 same)
          (install_loop-Installs o n now nows r h a (rw lost at (rw same at e)))
    | inl won ↦
        let end : installed n (bit_or (bit_and c color_mask) n) ≡ r =
          some_inj (rw won at (rw same at e)) in
        let (colour, address, clear) = installed_word c n h a in
        subst (λ (x : Install). Installs o n c (now ∷ nows) x) end
          (
            0,
            c,
            refl,
            ap some ((==_iff now c).0 won),
            (==_iff _ o).0 same,
            tt,
            refl,
            address,
            colour,
            clear,
          )
  ]
]
