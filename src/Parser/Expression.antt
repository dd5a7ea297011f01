-- ===== src/Parser/Expression.antt =====
-- crates/jdruby-parser/src/parser.rs: the levels of operators, from the unary ones to the ternary.
use jdruby.Base.{ℕ, zero, suc, ◌||◌, Bool, true, false, Option, some, none}
use jdruby.Lexer.Token.{
  TokenKind, question, colon, bang, kw_not, dot_dot, dot_dot_dot, double_star, plus, minus, star,
  slash, percent, less_less, greater_greater, pipe, caret, tilde, equal_equal, bang_equal, less,
  greater, less_equal, greater_equal, triple_equal, pipe_pipe, kw_or, amp_amp, kw_and,
}
use jdruby.Ast.{BinOperator, UnOperator, Expr, unary_op, binary_op, range_lit, ternary}
use jdruby.Parser.State.{
  Parse, ◌>>=◌, ◌>>◌, pure, give_up, branch, check, advance, current_span, span_from, expect,
}
use jdruby.Parser.Calls.{Calls, left_assoc, branch_op}
use jdruby.Parser.Calling.{parse_postfix}

unfoldable pub or_op : TokenKind → Option BinOperator
or_op pipe_pipe = some BinOperator.or
or_op kw_or = some BinOperator.or
or_op _ = none

unfoldable pub and_op : TokenKind → Option BinOperator
and_op amp_amp = some BinOperator.and
and_op kw_and = some BinOperator.and
and_op _ = none

unfoldable pub comparison_op : TokenKind → Option BinOperator
comparison_op equal_equal = some BinOperator.eq
comparison_op bang_equal = some BinOperator.not_eq
comparison_op less = some BinOperator.lt
comparison_op greater = some BinOperator.gt
comparison_op less_equal = some BinOperator.lt_eq
comparison_op greater_equal = some BinOperator.gt_eq
comparison_op TokenKind.spaceship = some BinOperator.spaceship
comparison_op triple_equal = some BinOperator.case_eq
comparison_op TokenKind.match_op = some BinOperator.match_op
comparison_op TokenKind.not_match = some BinOperator.not_match
comparison_op _ = none

unfoldable pub bitor_op : TokenKind → Option BinOperator
bitor_op pipe = some BinOperator.bit_or
bitor_op _ = none

unfoldable pub bitxor_op : TokenKind → Option BinOperator
bitxor_op caret = some BinOperator.bit_xor
bitxor_op _ = none

unfoldable pub bitand_op : TokenKind → Option BinOperator
bitand_op TokenKind.amp = some BinOperator.bit_and
bitand_op _ = none

unfoldable pub shift_op : TokenKind → Option BinOperator
shift_op less_less = some BinOperator.shl
shift_op greater_greater = some BinOperator.shr
shift_op _ = none

unfoldable pub additive_op : TokenKind → Option BinOperator
additive_op plus = some BinOperator.add
additive_op minus = some BinOperator.sub
additive_op _ = none

unfoldable pub multiplicative_op : TokenKind → Option BinOperator
multiplicative_op star = some BinOperator.mul
multiplicative_op slash = some BinOperator.div
multiplicative_op percent = some BinOperator.mod_op
multiplicative_op _ = none

unfoldable pub unary_sign : TokenKind → Option UnOperator
unary_sign minus = some UnOperator.neg
unary_sign plus = some UnOperator.pos
unary_sign tilde = some UnOperator.bit_not
unary_sign _ = none

-- The Boolean `exclusive` of a range.
unfoldable pub range_op : TokenKind → Option Bool
range_op dot_dot = some false
range_op dot_dot_dot = some true
range_op _ = none

module _ (c : Calls) where
  unfoldable pub unary_loop : ℕ → Parse Expr
  unary_loop zero = give_up
  unary_loop (suc n) = do
    start ← current_span
    branch_op unary_sign
        (λ op. do
          advance
          operand ← unary_loop n
          s ← span_from start
          pure (unary_op op operand s))
        (parse_postfix c)

  unfoldable pub parse_unary : Parse Expr
  parse_unary = unary_loop c.fuel

  unfoldable pub power_loop : ℕ → Parse Expr
  power_loop zero = give_up
  power_loop (suc n) = do
    start ← current_span
    base ← parse_unary
    branch (check double_star)
        (do
          advance
          exp ← power_loop n
          s ← span_from start
          pure (binary_op base BinOperator.pow exp s))
        (pure base)

  unfoldable pub parse_power : Parse Expr
  parse_power = power_loop c.fuel

  unfoldable pub parse_multiplicative : Parse Expr
  parse_multiplicative = left_assoc c.fuel multiplicative_op parse_power

  unfoldable pub parse_additive : Parse Expr
  parse_additive = left_assoc c.fuel additive_op parse_multiplicative

  unfoldable pub parse_shift : Parse Expr
  parse_shift = left_assoc c.fuel shift_op parse_additive

  unfoldable pub parse_bitand : Parse Expr
  parse_bitand = left_assoc c.fuel bitand_op parse_shift

  unfoldable pub parse_bitxor : Parse Expr
  parse_bitxor = left_assoc c.fuel bitxor_op parse_bitand

  unfoldable pub parse_bitor : Parse Expr
  parse_bitor = left_assoc c.fuel bitor_op parse_bitxor

  unfoldable pub parse_range : Parse Expr
  parse_range = do
    start ← current_span
    left ← parse_bitor
    branch_op range_op
        (λ exclusive. do
          advance
          right ← parse_bitor
          s ← span_from start
          pure (range_lit left right exclusive s))
        (pure left)

  unfoldable pub parse_comparison : Parse Expr
  parse_comparison = left_assoc c.fuel comparison_op parse_range

  abbrev pub is_not : TokenKind → Bool
  is_not k = check bang k || check kw_not k

  unfoldable pub not_loop : ℕ → Parse Expr
  not_loop zero = give_up
  not_loop (suc n) =
      branch is_not
        (do
          start ← current_span
          advance
          operand ← not_loop n
          s ← span_from start
          pure (unary_op UnOperator.not operand s))
        parse_comparison

  unfoldable pub parse_not : Parse Expr
  parse_not = not_loop c.fuel

  unfoldable pub parse_and : Parse Expr
  parse_and = left_assoc c.fuel and_op parse_not

  unfoldable pub parse_or : Parse Expr
  parse_or = left_assoc c.fuel or_op parse_and

  unfoldable pub parse_ternary : Parse Expr
  parse_ternary = do
    start ← current_span
    cond ← parse_or
    branch (check question)
        (do
          advance
          then_expr ← c.parse_expr
          expect colon
          else_expr ← c.parse_expr
          s ← span_from start
          pure (ternary cond then_expr else_expr s))
        (pure cond)
