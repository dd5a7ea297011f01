-- ===== src/Parser/Total/Source.antt =====
-- The parser on what the lexer gives.
use jdruby.Base.{
  ℕ, zero, suc, ◌+◌, ◌-◌, ◌*◌, ◌≡◌, ◌≤◌, ◌⊎◌, inl, inr, refl, true, Bool-cases, Option, some, none,
  List, [], ◌∷◌, length, All, arith, done, >>=-eq-done, done-injective,
}
use mathlib.Core.Path.{subst}
use jdruby.Lexer.Token.{TokenKind, Token, eof}
use jdruby.Lexer.Cursor.{Cursor, start_of}
use jdruby.Lexer.Scan.{is_eof, next_token, Tokens, before, tokens_from, tokenize}
use jdruby.Ast.{Text, Expr, Program}
use jdruby.Parser.Kinds.{kind_index}
use jdruby.Parser.State.{check, Parser, Parsed, parsed, failed, panicked, out_of_fuel}
use jdruby.Parser.Statement.{calls, parse}
use jdruby.Parser.Runs.{EndsAtEof, Plain, Valid, Later, Post}
use jdruby.Parser.Total.Statement.{calls_lem}
use jdruby.Parser.Total.Program.{parse-total}

is_eof-check : (k : TokenKind) → is_eof k ≡ true → check eof k ≡ true
unfolding kind_index
is_eof-check eof h = refl
is_eof-check _ h = cc

-- What the lexer gives is not empty, so what stands before it changes no end.
EndsAtEof-cons : (t : Token) (ts : List Token) → EndsAtEof ts → EndsAtEof (t ∷ ts)
EndsAtEof-cons t [] h = absurd h
EndsAtEof-cons t (u ∷ ts) h = h

abbrev OptEnds : Option Tokens → Type 0
OptEnds none = Unit
OptEnds (some r) = EndsAtEof r.0

before-OptEnds : (t : Token) (ds : _) (o : Option Tokens) → OptEnds o → OptEnds (before t ds o)
before-OptEnds t ds none h = tt
before-OptEnds t ds (some (ts, es)) h = EndsAtEof-cons t ts h

tokens_from-OptEnds :
    (n : ℕ) (c : Cursor) (o : Option Tokens) → tokens_from n c ≡ done o → OptEnds o
unfolding tokens_from
tokens_from-OptEnds zero c o h = subst OptEnds (done-injective h) tt
tokens_from-OptEnds (suc n) c o h =
    let (a, e, f) = >>=-eq-done (next_token c) _ h in
    elim (Bool-cases (is_eof a.0.kind)) [
      | inl last ↦ subst OptEnds (done-injective (rw last at f)) (is_eof-check a.0.kind last)
      | inr more ↦
          let (o', e', g) = >>=-eq-done (tokens_from n a.2) _ (rw more at f) in
          subst OptEnds (done-injective g)
            (before-OptEnds a.0 a.1 o' (tokens_from-OptEnds n a.2 o' e'))
    ]

pub tokenize-EndsAtEof :
    (bytes : List ℕ) (r : Tokens) → tokenize bytes ≡ done (some r) → EndsAtEof r.0
unfolding tokenize
tokenize-EndsAtEof bytes r h = tokens_from-OptEnds (suc (length bytes)) (start_of bytes) (some r) h

-- What the lexer returns for a source, the parser takes: if none of the tokens is a `when` and every
-- string is quoted and holds no interpolation, `parse` gives a program of them and does not panic,
-- with two nested calls for each token and five more.
parse-tokenize :
    (float_of : Text → ℕ) (bytes : List ℕ) (r : Tokens) (n : ℕ)
    → tokenize bytes ≡ done (some r)
    → All Plain r.0
    → 2 * length r.0 + 5 ≤ n
    → (p : Program) × (s : Parser) × (parse float_of n r.0 ≡ parsed p s)
parse-tokenize float_of bytes r n e plain fuel =
    let (p, s, f, same, inside) =
      parse-total float_of r.0 n (tokenize-EndsAtEof bytes r e) plain fuel in
    (p, s, f)

-- What parsing an expression comes to at a state: an expression, behind one token at least, or
-- `None` and a new diagnostic. The tokens stay, and the position stays within them.
abbrev pub Answers : Parser → Parsed Expr → Type 0
Answers s r =
    ((e : Expr) × (s' : Parser) × (r ≡ parsed e s') × Later 1 0 s s')
    ⊎ ((s' : Parser) × (r ≡ failed s') × Later 0 1 s s')

Post-Answers : (s : Parser) (r : Parsed Expr) → Post 1 s r → Answers s r
Post-Answers s (parsed e s') h = inl (e, s', refl, h)
Post-Answers s (failed s') h = inr (s', refl, h)
Post-Answers s panicked h = absurd h
Post-Answers s out_of_fuel h = absurd h

-- `parse_expr` ends at every state of the parser whose tokens end with the end of the file, none of
-- them a `when` and every string of them quoted with no interpolation: it takes a token at least and
-- gives an expression, or it gives `None` and reports a diagnostic. It does not panic, and two nested
-- calls for each token that is left, and two more, are enough.
pub parse_expr-Answers :
    (float_of : Text → ℕ) (n : ℕ) (s : Parser)
    → Valid s
    → 2 * length s.tokens + 2 ≤ n + 2 * s.pos
    → Answers s ((calls float_of n).parse_expr s)
parse_expr-Answers float_of n s v h =
    let left = length s.tokens - s.pos in
    Post-Answers s ((calls float_of n).parse_expr s) (
      ((calls_lem float_of n (suc left)).0 (omega (arith, v.within))).at s v
        (omega (arith, v.within)))
