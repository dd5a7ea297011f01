-- ===== src/Parser/Tests.antt =====
-- The theorems on the parser at small sources.
use jdruby.Base.{ℕ, ◌≡◌, ◌≤◌, refl, arith, false, List, [], ◌∷◌, All}
use jdruby.Lexer.Token.{
  TokenKind, Token, integer, identifier, equal, r_paren, eof, kw_when, string_double, string_single,
  plus, star,
}
use jdruby.Ast.{Text, Program, add, mul, Expr, integer_lit, binary_op}
use jdruby.Parser.Kinds.{kind_index}
use jdruby.Parser.State.{check, token_at, Parser, parsed, out_of_fuel}
use jdruby.Parser.Lists.{parse_body_until_when}
use jdruby.Parser.Statement.{calls, parse}
use jdruby.Parser.Runs.{Plain, Valid}
use jdruby.Common.Source.{SourceSpan, merge}
use jdruby.Parser.Text.{parse_int}
use jdruby.Parser.Expression.{additive_op, multiplicative_op}
use jdruby.Parser.Grammar.{one, more}
use jdruby.Parser.Grammar.Sums.{Sum, number}
use jdruby.Parser.Grammar.Ends.{at_eof}
use jdruby.Parser.Grammar.Levels.{parse_expr-Sum}
use jdruby.Parser.Stuck.{Stuck, parse_body_until_when-hangs}
use jdruby.Parser.Total.Program.{parse-total}
use jdruby.Parser.Total.Source.{parse_expr-Answers, Answers}

abbrev token : TokenKind → Text → ℕ → ℕ → Token
token k l a b = record { kind = k; lexeme = l; start = a; end = b }

-- The tokens of `x=1`.
abbrev assignment_tokens : List Token
assignment_tokens =
    token identifier (b'x' ∷ []) 0 1
    ∷ token equal (b'=' ∷ []) 1 2
    ∷ token integer (b'1' ∷ []) 2 3
    ∷ token eof [] 3 3
    ∷ []

abbrev no_floats : Text → ℕ
no_floats t = 0

not_string :
    (t : Token)
    → check kw_when t.kind ≡ false
    → check string_double t.kind ≡ false
    → check string_single t.kind ≡ false
    → Plain t
not_string t a b c = record { no_when = a; double = λ h. cc; single = λ h. cc }

assignment_tokens-Plain : All Plain assignment_tokens
unfolding kind_index
assignment_tokens-Plain = (
  not_string _ refl refl refl,
  (not_string _ refl refl refl, (not_string _ refl refl refl, (not_string _ refl refl refl, tt))),
)

parse-total_example :
    (p : Program) × (s : Parser) × (parse no_floats 13 assignment_tokens ≡ parsed p s)
    × (s.tokens ≡ assignment_tokens)
    × (s.pos ≤ 4)
unfolding kind_index
parse-total_example =
    parse-total no_floats assignment_tokens 13 refl assignment_tokens-Plain (omega arith)

abbrev at_start : List Token → Parser
at_start tokens = record { tokens = tokens; pos = 0; diagnostics = [] }

at_start-Valid : Valid (at_start assignment_tokens)
unfolding kind_index
at_start-Valid = record { within = omega arith; ends = refl; plain = assignment_tokens-Plain }

parse_expr-Answers_example :
    Answers
      (at_start assignment_tokens)
      ((calls no_floats 10).parse_expr (at_start assignment_tokens))
parse_expr-Answers_example =
    parse_expr-Answers no_floats 10 (at_start assignment_tokens) at_start-Valid (omega arith)

-- A parenthesis that closes nothing.
abbrev lone_paren : List Token
lone_paren = token r_paren (b')' ∷ []) 0 1 ∷ token eof [] 1 1 ∷ []

lone_paren-Stuck : Stuck (at_start lone_paren)
unfolding token_at
lone_paren-Stuck = record {
  token = token r_paren (b')' ∷ []) 0 1;
  here = refl;
  closes = refl;
  more = omega arith;
}

parse_body_until_when-hangs_example :
    parse_body_until_when (calls no_floats 20) (at_start lone_paren) ≡ out_of_fuel
parse_body_until_when-hangs_example =
    parse_body_until_when-hangs no_floats 20 (at_start lone_paren) lone_paren-Stuck

-- The tokens of `1+2*3`.
abbrev sum_tokens : List Token
sum_tokens =
    token integer (b'1' ∷ []) 0 1
    ∷ token plus (b'+' ∷ []) 1 2
    ∷ token integer (b'2' ∷ []) 2 3
    ∷ token star (b'*' ∷ []) 3 4
    ∷ token integer (b'3' ∷ []) 4 5
    ∷ token eof [] 5 5
    ∷ []

abbrev span_at : ℕ → ℕ → SourceSpan
span_at a b = record { start = a; end = b }

abbrev one_and_product : Expr
one_and_product =
    binary_op (integer_lit (parse_int (b'1' ∷ [])) (span_at 0 1)) add
      (binary_op (integer_lit (parse_int (b'2' ∷ [])) (span_at 2 3)) mul
        (integer_lit (parse_int (b'3' ∷ [])) (span_at 4 5)) (span_at 2 5))
      (span_at 0 5)

sum_tokens-Sum : Sum sum_tokens 0 one_and_product 5
unfolding token_at additive_op multiplicative_op merge
sum_tokens-Sum =
    more (token integer (b'1' ∷ []) 0 1) (token plus (b'+' ∷ []) 1 2) add
      (one (
        one (
          number (token integer (b'1' ∷ []) 0 1) (record { found = refl; inside = omega arith })
            refl)))
      refl (record { found = refl; inside = omega arith }) refl
      (more (token integer (b'2' ∷ []) 2 3) (token star (b'*' ∷ []) 3 4) mul
        (one (
          number (token integer (b'2' ∷ []) 2 3) (record { found = refl; inside = omega arith })
            refl))
        refl (record { found = refl; inside = omega arith }) refl
        (number (token integer (b'3' ∷ []) 4 5) (record { found = refl; inside = omega arith })
          refl))

parse_expr-Sum_example :
    (calls no_floats 11).parse_expr (at_start sum_tokens)
    ≡ parsed one_and_product (record { tokens = sum_tokens; pos = 5; diagnostics = [] })
unfolding token_at
parse_expr-Sum_example =
    parse_expr-Sum no_floats 10 (at_start sum_tokens) 0 5 one_and_product (token eof [] 5 5)
      sum_tokens-Sum refl at_eof (omega arith)
