-- ===== src/Gc/Marker/Cycle.antt =====
-- crates/jdgc/src/marker.rs: what seeding from the roots and emptying the queue do to the memory.
use jdruby.Base.{
  ℕ, ◌^◌, ◌<◌, ◌≡◌, refl, ap, ◌∙◌, Bool, true, false, ◌&&◌, ◌||◌, List, [], ◌∷◌, ◌++◌, any, arith,
  ◌==◌, if◌then◌else◌, Bool-cases, inl, inr,
}
use jdruby.Gc.Header.{is_white}
use jdruby.Gc.Marker.{Memory, store, push, Marker, seed_root, seed_from_roots, fetch_add}
use jdruby.Gc.Marker.Words.{with_color, is_white-with_gray, try_shade_gray-word}

-- Every header word is a 64-bit number.
abbrev pub Words : Memory → Type 0
Words m = (a : ℕ) → m a < 2 ^ 64

abbrev pub mem : ℕ → List ℕ → Bool
mem a xs = any (λ b. b == a) xs

seed_root-word :
    (p : ℕ) (m : Memory) (k : Marker)
    → m p < 2 ^ 64
    → seed_root p (m, k) ≡ (
        if is_white (m p)
        then (
          store p (with_color 1 (m p)) m,
          record k { queue = push p k.queue; encountered = fetch_add k.encountered 1 },
        )
        else (m, k))
unfolding seed_root
seed_root-word p m k h = elim (Bool-cases (is_white (m p))) [
  | inl e ↦ rw (try_shade_gray-word (m p) h, e) refl
  | inr e ↦ rw (try_shade_gray-word (m p) h, e) refl
]

pub mem-append : (a : ℕ) (xs : List ℕ) (x : ℕ) → mem a (xs ++ (x ∷ [])) ≡ mem a xs || x == a
mem-append a [] x = ground arith
mem-append a (y ∷ xs) x = ground (arith, mem-append a xs x)

seed_root-memory :
    (p : ℕ) (m : Memory) (k : Marker) (a : ℕ)
    → m p < 2 ^ 64
    → ((seed_root p (m, k)).0 a ≡ (if p == a && is_white (m a) then with_color 1 (m a) else m a))
      × (mem a (seed_root p (m, k)).1.queue.queue ≡ mem a k.queue.queue || p == a && is_white (m a))
unfolding push
seed_root-memory p m k a h = elim (Bool-cases (is_white (m p))) [
  | inl e ↦
      rw (seed_root-word p m k h, e)
        (
          ground (arith, e, ap m {x = p} {y = a}),
          rw (mem-append a k.queue.queue p) (ground (arith, e)),
        )
  | inr e ↦ rw (seed_root-word p m k h, e) (ground (arith, e), ground (arith, e))
]

pub recolored_fits :
    (m : Memory) (n : Memory) (c : ℕ) (t : ℕ → Bool)
    → c < 4
    → Words m
    → ((a : ℕ) → n a ≡ (if t a then with_color c (m a) else m a))
    → Words n
recolored_fits m n c t l h e a = ground (arith, e a, h a)

-- Shading a word twice is shading it once.
shaded_twice :
    (s t : Bool) (w x : ℕ)
    → x ≡ (if s && is_white w then with_color 1 w else w)
    → ((if t && is_white x then with_color 1 x else x)
        ≡ (if (s || t) && is_white w then with_color 1 w else w))
      × (s && is_white w || t && is_white x ≡ (s || t) && is_white w)
shaded_twice true t w x e = elim (Bool-cases (is_white w)) [
  | inl h ↦
      let q : x ≡ with_color 1 w = rw h at e in
      rw q (rw (h, is_white-with_gray w) (ground arith, ground arith))
  | inr h ↦ let q : x ≡ w = rw h at e in rw q (rw h (ground arith, ground arith))
]
shaded_twice false t w x e = rw e (refl, refl)

joined : (a b c d e : Bool) → a ≡ b || c → c || d ≡ e → a || d ≡ b || e
joined a true c d e p q = rw p refl
joined a false c d e p q = rw p q

pub seed_from_roots-memory :
    (roots : List ℕ) (m : Memory) (k : Marker) (a : ℕ)
    → Words m
    → let w = seed_from_roots roots (m, k) in
      (w.0 a ≡ (if mem a roots && is_white (m a) then with_color 1 (m a) else m a))
      × (mem a w.1.queue.queue ≡ mem a k.queue.queue || mem a roots && is_white (m a))
unfolding seed_from_roots
seed_from_roots-memory [] m k a h = (refl, ground arith)
seed_from_roots-memory (p ∷ ps) m k a h =
    let w = seed_root p (m, k) in
    let first = λ (b : ℕ). seed_root-memory p m k b (h p) in
    let fits =
      recolored_fits m w.0 1 (λ (b : ℕ). p == b && is_white (m b)) (omega arith) h
        (λ (b : ℕ). (first b).0) in
    let more = seed_from_roots-memory ps w.0 w.1 a fits in
    let twice = shaded_twice (p == a) (mem a ps) (m a) (w.0 a) (first a).0 in
    (more.0 ∙ twice.0, more.1 ∙ joined _ (mem a k.queue.queue) _ _ _ (first a).1 twice.1)
