-- ===== src/Parser/Grammar/Sums.antt =====
-- Numbers, products and sums, and the unary level of parser.rs at a number.
use jdruby.Base.{ℕ, suc, ◌+◌, ◌≡◌, ◌≤◌, ◌<◌, refl, false, some, List, length, arith}
use jdruby.Lexer.Token.{
  TokenKind, Token, integer, star, slash, percent, plus, minus, dot, colon_colon, l_bracket,
  double_star,
}
use jdruby.Ast.{BinOperator, Expr, integer_lit}
use jdruby.Parser.Kinds.{kind_index}
use jdruby.Parser.Text.{parse_int}
use jdruby.Parser.State.{
  Parser, parsed, ◌>>=◌, pure, token_at, on_current, branch, check, advance, current_span, span_of,
  lexeme,
}
use jdruby.Parser.Calls.{Calls, branch_op}
use jdruby.Parser.Calling.{one_token, primary_of, parse_primary, postfix_loop, parse_postfix}
use jdruby.Parser.Expression.{
  additive_op, multiplicative_op, unary_sign, unary_loop, parse_unary, power_loop, parse_power,
}
use jdruby.Parser.Current.{lt→ltb}
use jdruby.Parser.Grammar.{Here, Chain, one, more, Parses, at_pos, FollowsLevel}

-- An integer.
pub data Number (ts : List Token) : ℕ → Expr → ℕ → Type 0 where
  number :
      {i : ℕ} (t : Token)
      → Here ts i t
      → t.kind ≡ integer
      → Number ts i (integer_lit (parse_int t.lexeme) (span_of t)) (suc i)

-- What may follow a number: nothing that belongs to it.
pub record FollowsNumber (k : TokenKind) : Type 0 where
  pub no_dot : check dot k ≡ false
  pub no_path : check colon_colon k ≡ false
  pub no_index : check l_bracket k ≡ false
  pub no_power : check double_star k ≡ false

number-gives :
    (c : Calls) (m : ℕ) (s : Parser) (i : ℕ) (t u : Token)
    → c.fuel ≡ suc m
    → Here s.tokens i t
    → t.kind ≡ integer
    → token_at (suc i) s.tokens ≡ some u
    → FollowsNumber u.kind
    → parse_power c (at_pos s i)
      ≡ parsed (integer_lit (parse_int t.lexeme) (span_of t)) (at_pos s (suc i))
unfolding parse_power power_loop parse_unary unary_loop unary_sign branch_op parse_postfix
    parse_primary primary_of one_token postfix_loop branch current_span lexeme advance on_current
    pure ◌>>=◌
number-gives c m s i t u e h k hu f =
    let next : i + 1 ≡ suc i = omega arith in
    rw e (
      rw h.found (
        rw h.found (
          rw h.found (
            rw k (
              rw h.found (
                rw k (
                  rw h.found (
                    rw h.found (
                      rw h.found (
                        rw (lt→ltb i (length s.tokens) h.inside) (
                          rw next (
                            rw hu (
                              rw f.no_dot (
                                rw hu (
                                  rw f.no_path (
                                    rw hu
                                      (rw f.no_index (rw hu (rw f.no_power refl)))))))))))))))))))

number_at :
    (c : Calls) (m : ℕ) (s : Parser) {i : ℕ} {x : Expr} {j : ℕ} (u : Token)
    → c.fuel ≡ suc m
    → Number s.tokens i x j
    → token_at j s.tokens ≡ some u
    → FollowsNumber u.kind
    → parse_power c (at_pos s i) ≡ parsed x (at_pos s j)
number_at c m s u e (number {i = i} t h k) hu f = number-gives c m s i t u e h k hu f

number_moves :
    (s : Parser) {i : ℕ} {x : Expr} {j : ℕ}
    → Number s.tokens i x j
    → (i < j) × (j ≤ length s.tokens)
number_moves s (number t h k) = (omega arith, omega (arith, h.inside))

pub plain :
    (k : TokenKind)
    → check dot k ≡ false
    → check colon_colon k ≡ false
    → check l_bracket k ≡ false
    → check double_star k ≡ false
    → FollowsNumber k
plain k a b c d = record { no_dot = a; no_path = b; no_index = c; no_power = d }

pub product_ops :
    (k : TokenKind) (op : BinOperator) → multiplicative_op k ≡ some op → FollowsNumber k
unfolding multiplicative_op kind_index
product_ops star op h = plain star refl refl refl refl
product_ops slash op h = plain slash refl refl refl refl
product_ops percent op h = plain percent refl refl refl refl
product_ops _ op h = cc

abbrev pub Products : TokenKind → Type 0
Products = FollowsLevel multiplicative_op FollowsNumber

pub sum_ops : (k : TokenKind) (op : BinOperator) → additive_op k ≡ some op → Products k
unfolding additive_op multiplicative_op kind_index
sum_ops plus op h = record { below = plain plus refl refl refl refl; no_op = refl }
sum_ops minus op h = record { below = plain minus refl refl refl refl; no_op = refl }
sum_ops _ op h = cc

-- A product of numbers, and a sum of products.
abbrev pub Product : List Token → ℕ → Expr → ℕ → Type 0
Product ts = Chain ts multiplicative_op (Number ts)

abbrev pub Sum : List Token → ℕ → Expr → ℕ → Type 0
Sum ts = Chain ts additive_op (Product ts)

pub number-Parses :
    (c : Calls) (m : ℕ) (s : Parser)
    → c.fuel ≡ suc m
    → Parses s (parse_power c) (Number s.tokens) FollowsNumber
number-Parses c m s e = record {
  gives = λ {i} {e = x} {j} u it hu f. number_at c m s u e it hu f;
  moves = λ {i} {e = x} {j} it. number_moves s it;
}

Product-starts :
    {ts : List Token} {i : ℕ} {e : Expr} {j : ℕ}
    → Product ts i e j
    → (t : Token) × (token_at i ts ≡ some t) × (t.kind ≡ integer)
Product-starts (one (number t h k)) = (t, h.found, k)
Product-starts (more first t op p hf h o it) = Product-starts p

pub Sum-starts :
    {ts : List Token} {i : ℕ} {e : Expr} {j : ℕ}
    → Sum ts i e j
    → (t : Token) × (token_at i ts ≡ some t) × (t.kind ≡ integer)
Sum-starts (one p) = Product-starts p
Sum-starts (more first t op p hf h o it) = Sum-starts p
