-- ===== src/Lexer/Reads.antt =====
-- crates/jdruby-lexer/src/lexer.rs: what one call of `next_token` reads.
use jdruby.Base.{
  ℕ, ◌+◌, ◌-◌, ◌≡◌, ◌≢◌, refl, sym, ap, ◌⊎◌, inl, inr, ◌&&◌, not, Bool, true, false, Option, none,
  List, [], ◌∷◌, ◌++◌, length, if◌then◌else◌, arith, done, panic, ◌>>=◌, done-injective, All,
}
use mathlib.Core.Path.{subst}
use jdruby.Lexer.Cursor.{Cursor, took, is_blank, skip_whitespace}
use jdruby.Lexer.Ahead.{Ahead, Ahead-refl, Skips, eat-Skips, took-Nonempty}
use jdruby.Lexer.Token.{TokenKind, Token, eof}
use jdruby.Lexer.Operators.{Message}
use jdruby.Lexer.Scan.{is_eof, scan, is_boundary, report, Read, emit, token_at, next_token}
use jdruby.Lexer.Literals.{take, slice}
use jdruby.Lexer.Scanned.{scan-Lexes}

abbrev pub Blank : ℕ → Type 0
Blank b = is_blank b ≡ true

take-append : (xs ys : List ℕ) → take (length xs) (xs ++ ys) ≡ xs
take-append [] ys = refl
take-append (x ∷ xs) ys = ap (λ r. x ∷ r) (take-append xs ys)

slice-read : {s c : Cursor} (a : Ahead s c) → slice s c ≡ a.read
slice-read {s = s} {c = c} a =
    let h : c.pos - s.pos ≡ length a.read = omega (arith, a.pos_eq) in
    cc (h, a.rest_eq, take-append a.read c.rest)

slice_refl : (s : Cursor) → slice s s ≡ []
slice_refl s = let h : s.pos - s.pos ≡ 0 = omega arith in ap (λ n. take n s.rest) h

-- What a call of `next_token` that succeeds has read.
pub record Reads (c : Cursor) (t : Token) (d : Cursor) : Type 0 where
  pub gap : List ℕ
  pub gap_blank : All Blank gap
  pub bytes_eq : c.rest ≡ gap ++ (t.lexeme ++ d.rest)
  pub start_eq : t.start ≡ c.pos + length gap
  pub end_eq : t.end ≡ t.start + length t.lexeme
  pub pos_eq : d.pos ≡ t.end
  pub at_end :
      ((t.kind ≡ eof) × (t.lexeme ≡ []) × (d.rest ≡ []))
      ⊎ ((is_eof t.kind ≡ false) × (t.lexeme ≢ []))

-- The token of a scanner that ends behind where it starts.
abbrev pub token_of : TokenKind → Cursor → Cursor → Token
token_of k s c = record { kind = k; lexeme = slice s c; start = s.pos; end = c.pos }

pub emitted :
    (s : Cursor) (k : TokenKind) (c : Cursor) (m : Option Message) (r : Read)
    → emit s (k, c, m) ≡ done r
    → r ≡ (token_of k s c, report m s c, c)
emitted s k c m r e = by_test (not c.overran && is_boundary s.rest && is_boundary c.rest) e
  where
    by_test :
        (b : Bool)
        → ((if b then done (token_of k s c) else panic) >>= λ t. done (t, report m s c, c)) ≡ done r
        → r ≡ (token_of k s c, report m s c, c)
    by_test true h = sym (done-injective h)
    by_test false h = cc

-- What `emit` gives behind a gap.
emit-Reads :
    (c s d : Cursor) (k : TokenKind) (gap : Skips is_blank c s) (a : Ahead s d)
    → ((k ≡ eof) × (slice s d ≡ []) × (d.rest ≡ [])) ⊎ ((is_eof k ≡ false) × (slice s d ≢ []))
    → Reads c (token_of k s d) d
emit-Reads c s d k gap a e = record {
  gap = gap.0.read;
  gap_blank = gap.1;
  bytes_eq = cc (gap.0.rest_eq, a.rest_eq, slice-read a);
  start_eq = gap.0.pos_eq;
  end_eq = omega (arith, a.pos_eq, ap length (slice-read a));
  pos_eq = refl;
  at_end = e;
}

token_at-Reads :
    (c s : Cursor) (xs : List ℕ) (r : Read)
    → Skips is_blank c s
    → s.rest ≡ xs
    → token_at xs s ≡ done r
    → Reads c r.0 r.2
token_at-Reads c s [] r gap e h =
    let q = emitted s eof s none r h in
    let nothing = emit-Reads c s s eof gap (Ahead-refl s) (inl (refl, slice_refl s, e)) in
    subst (λ r. Reads c r.0 r.2) (sym q) nothing
token_at-Reads c s (x ∷ xs) r gap e h =
    let o = scan x s (took x xs s) in
    let lexes = scan-Lexes x s (took x xs s) in
    let a = took-Nonempty x xs s o.1 e lexes.1 in
    let q = emitted s o.0 o.1 o.2 r h in
    let some_read =
      emit-Reads c s o.1 o.0 gap a.0 (inr (lexes.0, λ z. a.1 (cc (z, slice-read a.0)))) in
    subst (λ r. Reads c r.0 r.2) (sym q) some_read

pub next_token-Reads : (c : Cursor) (r : Read) → next_token c ≡ done r → Reads c r.0 r.2
unfolding next_token
next_token-Reads c r h =
    let s = skip_whitespace c in
    token_at-Reads c s s.rest r (eat-Skips is_blank c.rest c refl) refl h
