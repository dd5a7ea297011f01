-- ===== src/Parser/Grammar/Levels.antt =====
-- The levels of operators of parser.rs at a sum, up to `parse_expr`.
use jdruby.Base.{ℕ, suc, ◌≡◌, ◌≤◌, ◌<◌, refl, false, some, length, arith}
use jdruby.Lexer.Token.{Token, integer, question}
use jdruby.Ast.{Text, Expr}
use jdruby.Parser.Kinds.{kind_index}
use jdruby.Parser.State.{
  Parser, Parsed, parsed, ◌>>=◌, pure, token_at, on_current, branch, check, current_span,
}
use jdruby.Parser.Calls.{Calls, branch_op}
use jdruby.Parser.Expression.{
  parse_multiplicative, parse_additive, parse_shift, parse_bitand, parse_bitxor, parse_bitor,
  parse_range, parse_comparison, not_loop, parse_not, parse_and, parse_or, parse_ternary,
}
use jdruby.Parser.Statement.{calls}
use jdruby.Parser.Total.Statement.{calls_fuel}
use jdruby.Parser.Grammar.{Parses, at_pos, left_assoc-Parses, left_assoc-pass, token_at-inside}
use jdruby.Parser.Grammar.Sums.{
  Product, Sum, Products, number-Parses, product_ops, sum_ops, Sum-starts,
}
use jdruby.Parser.Grammar.Ends.{Closes, Closes-follows, Sums, Bits, Ranges, Comparisons, Ors}

-- An integer is no `not`.
not_loop-pass :
    (c : Calls) (n m : ℕ) (s : Parser) (i : ℕ) (first : Token) {r : Parsed Expr}
    → n ≡ suc m
    → token_at i s.tokens ≡ some first
    → first.kind ≡ integer
    → parse_comparison c (at_pos s i) ≡ r
    → not_loop c n (at_pos s i) ≡ r
unfolding not_loop branch on_current kind_index
not_loop-pass c n m s i first e hf k h = rw e (rw hf (rw k h))

module _ (c : Calls) (m : ℕ) (s : Parser) (fuel : c.fuel ≡ suc m)
    (enough : length s.tokens < c.fuel) where
  Product-Parses : Parses s (parse_multiplicative c) (Product s.tokens) Products
  unfolding parse_multiplicative
  Product-Parses = left_assoc-Parses s _ _ _ _ c.fuel (number-Parses c m s fuel) product_ops enough

  Sum-Parses : Parses s (parse_additive c) (Sum s.tokens) Sums
  unfolding parse_additive
  Sum-Parses = left_assoc-Parses s _ _ _ _ c.fuel Product-Parses sum_ops enough

  Bits-Parses : Parses s (parse_bitor c) (Sum s.tokens) Bits
  unfolding parse_bitor parse_bitxor parse_bitand parse_shift
  Bits-Parses = left_assoc-pass s _ _ _ _ c.fuel m fuel (
      left_assoc-pass s _ _ _ _ c.fuel m fuel (
        left_assoc-pass s _ _ _ _ c.fuel m fuel
          (left_assoc-pass s _ _ _ _ c.fuel m fuel Sum-Parses)))

  range-Parses : Parses s (parse_range c) (Sum s.tokens) Ranges
  unfolding parse_range branch_op current_span on_current pure ◌>>=◌
  range-Parses = record {
    gives = λ {i} {e} {j} t it hu f.
        let (far, inside) = Bits-Parses.moves it in
        let (first, hf) = token_at-inside i s.tokens (omega arith) in
        rw hf (rw (Bits-Parses.gives t it hu f.bits) (rw hu (rw f.no_range refl)));
    moves = λ {i} {e} {j} it. Bits-Parses.moves it;
  }

  comparison-Parses : Parses s (parse_comparison c) (Sum s.tokens) Comparisons
  unfolding parse_comparison
  comparison-Parses = left_assoc-pass s _ _ _ _ c.fuel m fuel range-Parses

  not-Parses : Parses s (parse_not c) (Sum s.tokens) Comparisons
  unfolding parse_not
  not-Parses = record {
    gives = λ {i} {e} {j} t it hu f.
        let (first, hf, k) = Sum-starts it in
        not_loop-pass c c.fuel m s i first fuel hf k (comparison-Parses.gives t it hu f);
    moves = λ {i} {e} {j} it. comparison-Parses.moves it;
  }

  or-Parses : Parses s (parse_or c) (Sum s.tokens) Ors
  unfolding parse_or parse_and
  or-Parses =
      left_assoc-pass s _ _ _ _ c.fuel m fuel (left_assoc-pass s _ _ _ _ c.fuel m fuel not-Parses)

  ternary-gives :
      {i : ℕ} {e : Expr} {j : ℕ} (t : Token)
      → Sum s.tokens i e j
      → token_at j s.tokens ≡ some t
      → Ors t.kind
      → check question t.kind ≡ false
      → parse_ternary c (at_pos s i) ≡ parsed e (at_pos s j)
  unfolding parse_ternary branch current_span on_current pure ◌>>=◌
  ternary-gives {i} {e} {j} t it hu f q =
      let (first, hf, k) = Sum-starts it in
      rw hf (rw (or-Parses.gives t it hu f) (rw hu (rw q refl)))

-- `parse_expr` gives the tree of a sum of products of integers: products bind tighter than sums, and
-- both lean to the left. It stops behind the sum, takes nothing else of the state, and needs as much
-- fuel as there are tokens, where the sum is followed by the end of the file, of a line or of a
-- statement, by a comma, a closing parenthesis or bracket, or by `then`, `do` or `end`.
pub parse_expr-Sum :
    (float_of : Text → ℕ) (n : ℕ) (s : Parser) (i j : ℕ) (e : Expr) (t : Token)
    → Sum s.tokens i e j
    → token_at j s.tokens ≡ some t
    → Closes t.kind
    → length s.tokens ≤ n
    → (calls float_of (suc n)).parse_expr (at_pos s i) ≡ parsed e (at_pos s j)
unfolding calls
parse_expr-Sum float_of n s i j e t it hu k h =
    let (f, q) = Closes-follows k in
    ternary-gives (calls float_of n) n s (calls_fuel float_of n)
      (omega (arith, calls_fuel float_of n)) t it hu f q
