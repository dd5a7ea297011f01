-- ===== src/Lexer/Total.antt =====
-- crates/jdruby-lexer/src/lexer.rs: whether `next_token` and `tokenize` return.
use jdruby.Base.{
  ℕ, zero, suc, ◌≡◌, ◌≢◌, refl, sym, ap, ◌<◌, inl, inr, ◌&&◌, not, Bool, true, false, Option, some,
  none, List, [], ◌∷◌, ◌++◌, length, if◌then◌else◌, arith, Outcome, done, panic, ◌>>=◌,
  length-append, All,
}
use mathlib.Core.Path.{subst}
use jdruby.Lexer.Cursor.{Cursor, start_of, took, is_blank, skip_whitespace}
use jdruby.Lexer.Ahead.{Ahead, Ahead-refl, Ahead-trans, took-Ahead, eat-Skips}
use jdruby.Lexer.Token.{TokenKind, Token, eof}
use jdruby.Lexer.Operators.{Message}
use jdruby.Lexer.Scan.{
  is_eof, scan, is_boundary, report, Read, emit, token_at, next_token, Tokens, before, only,
  tokens_from, tokenize,
}
use jdruby.Lexer.Scanned.{scan-Lexes}
use jdruby.Lexer.Reads.{Reads, token_of, next_token-Reads}
use jdruby.Lexer.Tiles.{Tiles, tokenize-Tiles}

abbrev pub Ascii : ℕ → Type 0
Ascii b = b < 128

abbrev pub AsciiText : List ℕ → Type 0
AsciiText bytes = All Ascii bytes

emit_done :
    (s : Cursor) (k : TokenKind) (c : Cursor) (m : Option Message)
    → c.overran ≡ false
    → is_boundary s.rest ≡ true
    → is_boundary c.rest ≡ true
    → (r : Read) × (emit s (k, c, m) ≡ done r) × (r.2 ≡ c)
emit_done s k c m o b d = (
  (token_of k s c, report m s c, c),
  by_test (not c.overran && is_boundary s.rest && is_boundary c.rest) (ground arith),
  refl,
)
  where
    by_test :
        (b : Bool)
        → b ≡ true
        → ◌>>=◌ {B = Read}
            (if b then done (token_of k s c) else panic)
            (λ t. done (t, report m s c, c))
          ≡ done (token_of k s c, report m s c, c)
    by_test true e = refl
    by_test false e = cc

is_boundary-Ascii : (xs : List ℕ) → All Ascii xs → is_boundary xs ≡ true
is_boundary-Ascii [] h = refl
is_boundary-Ascii (x ∷ xs) h = ground (arith, h.0)

All-append-right : (xs ys : List ℕ) → All Ascii (xs ++ ys) → All Ascii ys
All-append-right [] ys h = h
All-append-right (x ∷ xs) ys h = All-append-right xs ys h.1

Ahead-Ascii : {s c : Cursor} → Ahead s c → All Ascii s.rest → All Ascii c.rest
Ahead-Ascii {c = c} a h = All-append-right a.read c.rest (subst (All Ascii) a.rest_eq h)

-- The cursor is before text that the lexer does not panic at.
abbrev Fine : Cursor → Type 0
Fine c = (c.overran ≡ false) × All Ascii c.rest

abbrev Returns : Outcome Read → Type 0
Returns o = (r : Read) × (o ≡ done r) × Fine r.2

emit-Returns :
    (s d : Cursor) (k : TokenKind) (m : Option Message)
    → Fine s
    → Ahead s d
    → Returns (emit s (k, d, m))
emit-Returns s d k m f a =
    let e : d.overran ≡ false = cc (a.overran_eq, f.0) in
    let h = Ahead-Ascii a f.1 in
    let r = emit_done s k d m e (is_boundary-Ascii s.rest f.1) (is_boundary-Ascii d.rest h) in
    (r.0, r.1, subst Fine (sym r.2) (e, h))

token_at-Returns : (s : Cursor) (xs : List ℕ) → s.rest ≡ xs → Fine s → Returns (token_at xs s)
token_at-Returns s [] e f = emit-Returns s s eof none f (Ahead-refl s)
token_at-Returns s (x ∷ xs) e f =
    let o = scan x s (took x xs s) in
    emit-Returns s o.1 o.0 o.2 f
      (Ahead-trans (took-Ahead x xs s e) (scan-Lexes x s (took x xs s)).1)

next_token-Returns : (c : Cursor) → Fine c → Returns (next_token c)
unfolding next_token
next_token-Returns c f =
    let gap = (eat-Skips is_blank c.rest c refl).0 in
    let s = skip_whitespace c in
    token_at-Returns s s.rest refl (cc (gap.overran_eq, f.0), Ahead-Ascii gap f.1)

-- Every token but the last one takes a byte, so that one step more than there are bytes is enough.
shorter :
    {c d : Cursor} {t : Token} → Reads c t d → is_eof t.kind ≡ false → length d.rest < length c.rest
shorter {c = c} {d = d} {t = t} r e = elim r.at_end [
  | inl h ↦ absurd (cc (h.0, e))
  | inr h ↦ counted t.lexeme h.1 (ap length r.bytes_eq)
]
  where
    counted :
        (xs : List ℕ)
        → xs ≢ []
        → length c.rest ≡ length (r.gap ++ (xs ++ d.rest))
        → length d.rest < length c.rest
    counted [] h e = absurd (h refl)
    counted (x ∷ xs) h e =
        omega (arith, e, length-append r.gap (x ∷ (xs ++ d.rest)), length-append xs d.rest)

tokens_after :
    (n : ℕ) (r : Read) (b : Bool)
    → (b ≡ false → (u : Tokens) × (tokens_from n r.2 ≡ done (some u)))
    → (u : Tokens) × ((if b
          then done (only r.0 r.1)
          else (tokens_from n r.2 >>= λ o. done (before r.0 r.1 o)))
        ≡ done (some u))
tokens_after n r true more = ((r.0 ∷ [], r.1), refl)
tokens_after n r false more =
    let m = more refl in
    ((r.0 ∷ m.0.0, r.1 ++ m.0.1), ap (λ o. o >>= λ o. done (before r.0 r.1 o)) m.1)

tokens_from-Returns :
    (n : ℕ) (c : Cursor)
    → length c.rest < n
    → Fine c
    → (r : Tokens) × (tokens_from n c ≡ done (some r))
unfolding tokens_from
tokens_from-Returns zero c l f = absurd (omega (arith, l))
tokens_from-Returns (suc n) c l f =
    let t = next_token-Returns c f in
    let read = next_token-Reads c t.0 t.1 in
    let rest =
      tokens_after n t.0 (is_eof t.0.0.kind)
        (λ e. tokens_from-Returns n t.0.2 (omega (arith, l, shorter read e)) t.2) in
    (rest.0, cc (t.1, rest.1))

-- On text of ASCII bytes the lexer returns: it neither panics nor reads past the end, and one call
-- of `next_token` more than there are bytes is enough. What it returns tiles the text.
pub tokenize-total :
    (bytes : List ℕ)
    → AsciiText bytes
    → (r : Tokens) × (tokenize bytes ≡ done (some r)) × Tiles 0 bytes r.0
unfolding tokenize
tokenize-total bytes h =
    let r = tokens_from-Returns (suc (length bytes)) (start_of bytes) (omega arith) (refl, h) in
    (r.0, r.1, tokenize-Tiles bytes r.0.0 r.0.1 r.1)
