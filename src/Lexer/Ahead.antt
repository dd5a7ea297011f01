-- ===== src/Lexer/Ahead.antt =====
-- crates/jdruby-lexer/src/lexer.rs: the relation between the cursor before a part of the lexer and
-- the one behind it.
use jdruby.Base.{
  ℕ, zero, suc, ◌+◌, ◌≡◌, ◌≢◌, refl, ◌<◌, ◌==◌, ◌&&◌, not, Bool, true, false, List, [], ◌∷◌, ◌++◌,
  length, length-append, if◌then◌else◌, if-both, if-either, arith, All,
}
use mathlib.Core.List.{append_assoc}
use jdruby.Lexer.Cursor.{
  Cursor, took, advance_in, advance, head_or_zero, peek, is_at_end, is_empty, eat, advance_while,
  advance_if, quoted_body, double_body,
}

-- The bytes `t` were read on the way from the first cursor to the second, and nothing else changed.
pub record Ahead (s c : Cursor) : Type 0 where
  pub read : List ℕ
  pub rest_eq : s.rest ≡ read ++ c.rest
  pub pos_eq : c.pos ≡ s.pos + length read
  pub overran_eq : c.overran ≡ s.overran

pub Ahead-refl : (c : Cursor) → Ahead c c
Ahead-refl c = record { read = []; rest_eq = refl; pos_eq = omega arith; overran_eq = refl }

pub Ahead-trans : {s c d : Cursor} → Ahead s c → Ahead c d → Ahead s d
Ahead-trans {d = d} p q = record {
  read = p.read ++ q.read;
  rest_eq = cc (p.rest_eq, q.rest_eq, append_assoc p.read q.read d.rest);
  pos_eq = omega (arith, p.pos_eq, q.pos_eq, length-append p.read q.read);
  overran_eq = cc;
}

pub took-Ahead : (x : ℕ) (xs : List ℕ) (c : Cursor) → c.rest ≡ x ∷ xs → Ahead c (took x xs c)
took-Ahead x xs c e = record { read = x ∷ []; rest_eq = e; pos_eq = refl; overran_eq = refl }

advance_in-Ahead :
    (xs : List ℕ) (c : Cursor) → c.rest ≡ xs → is_empty xs ≡ false → Ahead c (advance_in xs c)
advance_in-Ahead [] c e h = absurd cc
advance_in-Ahead (x ∷ xs) c e h = took-Ahead x xs c e

pub advance-Ahead : (c : Cursor) → is_at_end c ≡ false → Ahead c (advance c)
advance-Ahead c h = advance_in-Ahead c.rest c refl h

-- `peek` gives zero at the end.
is_empty_of_head : (xs : List ℕ) → 0 < head_or_zero xs → is_empty xs ≡ false
is_empty_of_head [] h = absurd (omega (arith, h))
is_empty_of_head (x ∷ xs) h = refl

pub peeked-Ahead : (c : Cursor) → 0 < peek c → Ahead c (advance c)
peeked-Ahead c h = advance-Ahead c (is_empty_of_head c.rest h)

pub eat-Ahead : (p : ℕ → Bool) (xs : List ℕ) (c : Cursor) → c.rest ≡ xs → Ahead c (eat p xs c)
unfolding eat
eat-Ahead p [] c e = Ahead-refl c
eat-Ahead p (x ∷ xs) c e =
    if-both (Ahead c) (p x) (Ahead-trans (took-Ahead x xs c e) (eat-Ahead p xs (took x xs c) refl))
      (Ahead-refl c)

pub quoted_body-Ahead :
    (q : ℕ) (xs : List ℕ) (c : Cursor) → c.rest ≡ xs → Ahead c (quoted_body q xs c)
unfolding quoted_body
quoted_body-Ahead q [] c e = Ahead-refl c
quoted_body-Ahead q (x ∷ []) c e = if-both (Ahead c) (x == q) (Ahead-refl c) (took-Ahead x [] c e)
quoted_body-Ahead q (x ∷ y ∷ xs) c e =
    let first = took x (y ∷ xs) c in
    let second = took y xs first in
    let p = took-Ahead x (y ∷ xs) c e in
    if-both (Ahead c) (x == q) (Ahead-refl c) (
      if-both (Ahead c) (x == b'\\')
        (Ahead-trans p
          (Ahead-trans (took-Ahead y xs first refl) (quoted_body-Ahead q xs second refl)))
        (Ahead-trans p (quoted_body-Ahead q (y ∷ xs) first refl)))

pub double_body-Ahead :
    (d : ℕ) (xs : List ℕ) (c : Cursor) → c.rest ≡ xs → Ahead c (double_body d xs c)
unfolding double_body
double_body-Ahead d [] c e = Ahead-refl c
double_body-Ahead zero (x ∷ []) c e =
    if-both (Ahead c) (x == b'"') (Ahead-refl c) (took-Ahead x [] c e)
double_body-Ahead (suc d) (x ∷ []) c e = took-Ahead x [] c e
double_body-Ahead zero (x ∷ y ∷ xs) c e =
    let first = took x (y ∷ xs) c in
    let second = took y xs first in
    let p = took-Ahead x (y ∷ xs) c e in
    let both = Ahead-trans p (took-Ahead y xs first refl) in
    if-both (Ahead c) (x == b'"') (Ahead-refl c) (
      if-both (Ahead c) (x == b'\\') (Ahead-trans both (double_body-Ahead 0 xs second refl)) (
        if-both (Ahead c) (x == b'#' && y == b'{')
          (Ahead-trans both (double_body-Ahead 1 xs second refl))
          (Ahead-trans p (double_body-Ahead 0 (y ∷ xs) first refl))))
double_body-Ahead (suc d) (x ∷ y ∷ xs) c e =
    let first = took x (y ∷ xs) c in
    let second = took y xs first in
    let p = took-Ahead x (y ∷ xs) c e in
    let both = Ahead-trans p (took-Ahead y xs first refl) in
    if-both (Ahead c) (x == b'{')
      (Ahead-trans p (double_body-Ahead (suc (suc d)) (y ∷ xs) first refl))
      (if-both (Ahead c) (x == b'}') (Ahead-trans p (double_body-Ahead d (y ∷ xs) first refl)) (
        if-both (Ahead c) (x == b'\\') (Ahead-trans both (double_body-Ahead (suc d) xs second refl))
          (Ahead-trans p (double_body-Ahead (suc d) (y ∷ xs) first refl))))

pub advance_while-Ahead : (p : ℕ → Bool) (c : Cursor) → Ahead c (advance_while p c)
advance_while-Ahead p c = eat-Ahead p c.rest c refl

pub advance_if_in-Ahead :
    (p : ℕ → Bool) (xs : List ℕ) (c : Cursor)
    → c.rest ≡ xs
    → Ahead c (if not (is_empty xs) && p (head_or_zero xs) then advance_in xs c else c)
advance_if_in-Ahead p [] c e = Ahead-refl c
advance_if_in-Ahead p (x ∷ xs) c e = if-both (Ahead c) (p x) (took-Ahead x xs c e) (Ahead-refl c)

pub advance_if-Ahead : (p : ℕ → Bool) (c : Cursor) → Ahead c (advance_if p c)
advance_if-Ahead p c = advance_if_in-Ahead p c.rest c refl

-- A loop reads bytes that pass a test.
abbrev pub Skips : (ℕ → Bool) → Cursor → Cursor → Type 0
Skips p c d = (a : Ahead c d) × All (λ b. p b ≡ true) a.read

pub eat-Skips : (p : ℕ → Bool) (xs : List ℕ) (c : Cursor) → c.rest ≡ xs → Skips p c (eat p xs c)
unfolding eat Ahead-refl Ahead-trans took-Ahead
eat-Skips p [] c e = (Ahead-refl c, tt)
eat-Skips p (x ∷ xs) c e =
    let more = eat-Skips p xs (took x xs c) refl in
    if-either (Skips p c) (p x) (λ h. (Ahead-trans (took-Ahead x xs c e) more.0, (h, more.1)))
      (λ _. (Ahead-refl c, tt))

pub took-Nonempty :
    (x : ℕ) (xs : List ℕ) (s d : Cursor)
    → s.rest ≡ x ∷ xs
    → Ahead (took x xs s) d
    → (a : Ahead s d) × (a.read ≢ [])
unfolding Ahead-trans took-Ahead
took-Nonempty x xs s d e p = (Ahead-trans (took-Ahead x xs s e) p, λ h. cc)
