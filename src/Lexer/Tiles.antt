-- ===== src/Lexer/Tiles.antt =====
-- crates/jdruby-lexer/src/lexer.rs: `next_token` and `tokenize` against the source's bytes.
use jdruby.Base.{
  ℕ, zero, suc, ◌+◌, ◌≡◌, ◌≢◌, refl, sym, ap, inl, inr, Bool, true, false, Option, some, none, List,
  [], ◌∷◌, ◌++◌, length, if◌then◌else◌, arith, done, ◌>>=◌, >>=-eq-done, All,
}
use mathlib.Core.Path.{subst}
use mathlib.Core.List.{append-nil}
use jdruby.Lexer.Cursor.{Cursor, start_of}
use jdruby.Lexer.Token.{Token, eof}
use jdruby.Lexer.Scan.{
  is_eof, Read, next_token, Tokens, before, only, tokens_from, tokenize, Diagnostic,
}
use jdruby.Lexer.Reads.{Blank, Reads, next_token-Reads}

-- The tokens of the source from the position `p` on: blanks, a token with the bytes that come next
-- and their span, and so on; the end of the source is the last token and only blanks are before it.
pub data Tiles : ℕ → List ℕ → List Token → Type 0 where
  ends :
      {p : ℕ} {bytes : List ℕ} {t : Token}
      → All Blank bytes
      → t.kind ≡ eof
      → t.lexeme ≡ []
      → t.start ≡ p + length bytes
      → t.end ≡ t.start
      → Tiles p bytes (t ∷ [])
  reads :
      {p : ℕ} {bytes : List ℕ} {t : Token} {ts : List Token} (gap rest : List ℕ)
      → All Blank gap
      → bytes ≡ gap ++ (t.lexeme ++ rest)
      → t.start ≡ p + length gap
      → t.end ≡ t.start + length t.lexeme
      → t.lexeme ≢ []
      → is_eof t.kind ≡ false
      → Tiles t.end rest ts
      → Tiles p bytes (t ∷ ts)

-- A call that has read a token, and what the calls behind it give.
Tiles-cons :
    {c d : Cursor} {t : Token} {ts : List Token}
    → Reads c t d
    → is_eof t.kind ≡ false
    → Tiles d.pos d.rest ts
    → Tiles c.pos c.rest (t ∷ ts)
Tiles-cons {d = d} {ts = ts} r e rest = elim r.at_end [
  | inl h ↦ absurd (cc (h.0, e))
  | inr h ↦
      reads r.gap d.rest r.gap_blank r.bytes_eq r.start_eq r.end_eq h.1 e
        (subst (λ p. Tiles p d.rest ts) r.pos_eq rest)
]

Tiles-last :
    {c d : Cursor} {t : Token} → Reads c t d → is_eof t.kind ≡ true → Tiles c.pos c.rest (t ∷ [])
Tiles-last {c = c} r e = elim r.at_end [
  | inl h ↦
      let q : c.rest ≡ r.gap = cc (r.bytes_eq, h.1, h.2, append-nil r.gap) in
      ends (subst (All Blank) (sym q) r.gap_blank) h.0 h.1 (omega (arith, r.start_eq, ap length q))
        (omega (arith, r.end_eq, ap length h.1))
  | inr h ↦ absurd (cc (h.0, e))
]

-- A run that is right behind `t` is right from before it.
module _ (n : ℕ) (c : Cursor) (t : Read) (read : Reads c t.0 t.2)
    (behind : (u : Tokens) → tokens_from n t.2 ≡ done (some u) → Tiles t.2.pos t.2.rest u.0) where
  before-Tiles :
      (o : Option Tokens) (r : Tokens)
      → is_eof t.0.kind ≡ false
      → tokens_from n t.2 ≡ done o
      → done (before t.0 t.1 o) ≡ done (some r)
      → Tiles c.pos c.rest r.0
  before-Tiles none r e e_rest h = cc
  before-Tiles (some u) r e e_rest h =
      let q : (t.0 ∷ u.0, t.1 ++ u.1) ≡ r = cc in
      subst (λ r. Tiles c.pos c.rest r.0) q (Tiles-cons read e (behind u e_rest))

  step-Tiles :
      (b : Bool) (r : Tokens)
      → is_eof t.0.kind ≡ b
      → (if b then done (only t.0 t.1) else (tokens_from n t.2 >>= λ o. done (before t.0 t.1 o)))
        ≡ done (some r)
      → Tiles c.pos c.rest r.0
  step-Tiles true r e h =
      let q : (t.0 ∷ [], t.1) ≡ r = cc in subst (λ r. Tiles c.pos c.rest r.0) q (Tiles-last read e)
  step-Tiles false r e h =
      let more = >>=-eq-done (tokens_from n t.2) _ h in before-Tiles more.0 r e more.1 more.2

tokens_from-Tiles :
    (n : ℕ) (c : Cursor) (r : Tokens) → tokens_from n c ≡ done (some r) → Tiles c.pos c.rest r.0
unfolding tokens_from
tokens_from-Tiles zero c r h = cc
tokens_from-Tiles (suc n) c r h =
    let step = >>=-eq-done (next_token c) _ h in
    step-Tiles n c step.0 (next_token-Reads c step.0 step.1) (tokens_from-Tiles n step.0.2)
      (is_eof step.0.0.kind) r refl step.2

-- The tokens that the lexer gives tile the source, whatever the source: the blanks between them and
-- their lexemes are all of its bytes in their order, each token's span is where its lexeme stands,
-- no lexeme but the last one is empty, and the last token alone is the end of the source.
pub tokenize-Tiles :
    (bytes : List ℕ) (ts : List Token) (ds : List Diagnostic)
    → tokenize bytes ≡ done (some (ts, ds))
    → Tiles 0 bytes ts
unfolding tokenize
tokenize-Tiles bytes ts ds h = tokens_from-Tiles (suc (length bytes)) (start_of bytes) (ts, ds) h
