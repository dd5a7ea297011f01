-- ===== src/Parser/Current.antt =====
-- The rules for code that looks at the current token.
use jdruby.Base.{
  ℕ, zero, suc, ◌+◌, ◌≡◌, ◌≤◌, ◌<◌, refl, ap, ◌⊎◌, inl, inr, Bool, true, false, ◌||◌, ◌&&◌, Option,
  none, some, List, [], ◌∷◌, length, All, ltb, leb, if◌then◌else◌, arith, Bool-cases,
}
use jdruby.Lexer.Token.{TokenKind, Token, eof}
use jdruby.Parser.Kinds.{kind_index}
use jdruby.Parser.State.{Parser, Parse, parsed, pure, token_at, on_current, check, advance}
use jdruby.Parser.Runs.{Plain, EndsAtEof, Valid, Later, Later-refl, Post, Runs, Takes, Reads}

-- The native order from its test.
pub lt→ltb : (a b : ℕ) → a < b → ltb a b ≡ true
lt→ltb a b h = ground arith

-- The current token is there, and past the end it is the one that ends the file.
pub token_at-Valid :
    (i : ℕ) (ts : List Token)
    → EndsAtEof ts
    → All Plain ts
    → (t : Token) × (token_at i ts ≡ some t) × Plain t × ((length ts ≤ i) → check eof t.kind ≡ true)
unfolding token_at
token_at-Valid i [] e p = elim e [ ]
token_at-Valid zero (t ∷ ts) e p = (t, refl, p.0, λ h. absurd (omega arith))
token_at-Valid (suc i) (t ∷ []) e p = (t, refl, p.0, λ h. e)
token_at-Valid (suc i) (t ∷ u ∷ ts) e p =
    let (r, f, q, past) = token_at-Valid i (u ∷ ts) e p.1 in (r, f, q, λ h. past (omega arith))

pub on_current-Post :
    {A : Type 0} (n : ℕ) (f : Token → Parse A) (s : Parser)
    → Valid s
    → ((t : Token)
        → Plain t
        → (length s.tokens ≤ s.pos → check eof t.kind ≡ true)
        → Post n s (f t s))
    → Post n s (on_current f s)
unfolding on_current
on_current-Post n f s v h =
    let (t, e, plain, past) = token_at-Valid s.pos s.tokens v.ends v.plain in rw e (h t plain past)

pub on_current-Reads : {A : Type 0} (f : Token → A) → Reads (on_current λ t. pure (f t))
unfolding on_current pure
on_current-Reads f = record {
  at = λ s v.
      let (t, e, plain, past) = token_at-Valid s.pos s.tokens v.ends v.plain in (f t, rw e refl);
}

pub eof_of : (k : TokenKind) → check eof k ≡ true → k ≡ eof
unfolding kind_index
eof_of eof h = refl
eof_of _ h = cc

abbrev pub is_some : {B : Type 0} → Option B → Bool
is_some none = false
is_some (some b) = true

pub before_end : (a : Bool) (n i : ℕ) (b : Bool) → (a || (leb n i || b)) ≡ false → i < n
before_end a n i b h = ground arith

pub and_left : (a b : Bool) → (a && b) ≡ true → a ≡ true
and_left true b h = refl
and_left false b h = cc

-- A test that the end of the file does not pass.
pub not_past :
    (test : TokenKind → Bool) (s : Parser) (t : Token)
    → Valid s
    → (length s.tokens ≤ s.pos → check eof t.kind ≡ true)
    → test eof ≡ false
    → test t.kind ≡ true
    → s.pos < length s.tokens
not_past test s t v past stop go = elim (Bool-cases (leb (length s.tokens) s.pos)) [
  | inl h ↦ cc (ap test (eof_of t.kind (past (ground arith))))
  | inr h ↦ ground arith
]

-- A token is taken, or there is none.
pub advance-Later :
    (n : ℕ) (s : Parser)
    → Valid s
    → ((s.pos < length s.tokens) × (n ≤ 1)) ⊎ (n ≡ 0)
    → Later n 0 s (if ltb s.pos (length s.tokens) then record s { pos = s.pos + 1 } else s)
advance-Later n s v (inl (b, c)) =
    rw (lt→ltb s.pos (length s.tokens) b)
      (record { same = refl; ahead = omega arith; inside = omega arith; reported = omega arith })
advance-Later n s v (inr e) = elim (Bool-cases (ltb s.pos (length s.tokens))) [
  | inl b ↦
      rw (b, e)
        (record { same = refl; ahead = omega arith; inside = ground arith; reported = omega arith })
  | inr b ↦ rw (b, e) (Later-refl v)
]

pub advance-Takes : {w : ℕ} → Takes w advance
unfolding advance
advance-Takes = record {
  at = λ s v h b.
      on_current-Post 1
        (λ t s'.
          parsed t (if ltb s'.pos (length s'.tokens) then record s' { pos = s'.pos + 1 } else s'))
        s v λ t plain past. advance-Later 1 s v (inl (b, omega arith));
}

pub advance-Runs : {w : ℕ} → Runs 0 w advance
unfolding advance
advance-Runs = record {
  at = λ s v h.
      on_current-Post 0
        (λ t s'.
          parsed t (if ltb s'.pos (length s'.tokens) then record s' { pos = s'.pos + 1 } else s'))
        s v λ t plain past. advance-Later 0 s v (inr refl);
}
