-- ===== src/Parser/Total/Expression.antt =====
-- The promises of the levels of operators.
use jdruby.Base.{ℕ, zero, suc, ◌≡◌, ◌≤◌, ◌<◌, refl, Option, none, arith}
use jdruby.Common.Source.{SourceSpan}
use jdruby.Lexer.Token.{TokenKind, eof, colon}
use jdruby.Ast.{BinOperator, Expr}
use jdruby.Parser.State.{Parse}
use jdruby.Parser.Calls.{Calls, left_loop, left_assoc}
use jdruby.Parser.Expression.{
  or_op, and_op, comparison_op, bitor_op, bitxor_op, bitand_op, shift_op, additive_op,
  multiplicative_op, unary_sign, range_op, unary_loop, parse_unary, power_loop, parse_power,
  parse_multiplicative, parse_additive, parse_shift, parse_bitand, parse_bitxor, parse_bitor,
  parse_range, parse_comparison, not_loop, parse_not, parse_and, parse_or, parse_ternary,
}
use jdruby.Parser.Total.Calling.{parse_postfix-Runs}
use jdruby.Parser.Kinds.{kind_index}
use jdruby.Parser.Runs.{Runs, keep-Runs, eat-Runs, take-Takes, read-Takes, read-Runs}
use jdruby.Parser.Current.{advance-Takes}
use jdruby.Parser.Branches.{
  branch-Runs, branch-keeps, none-Runs, pure-Runs, Runs-weaken, later, weaken, branch_op-Runs,
}
use jdruby.Parser.Helpers.{current_span-Reads, span_from-Reads, expect-Runs}
use jdruby.Parser.Total.Lists.{Given}

left_loop-Runs :
    (op_of : TokenKind → Option BinOperator) {operand : Parse Expr} {w : ℕ} (start : SourceSpan)
    → op_of eof ≡ none
    → Runs 1 (suc w) operand
    → (n v : ℕ) (left : Expr) → v ≤ n
    → v ≤ w
    → Runs 0 v (left_loop op_of operand start n left)
unfolding left_loop
left_loop-Runs op_of start stop ho n zero left h k = none-Runs
left_loop-Runs op_of start stop ho zero (suc v) left h k = absurd (omega arith)
left_loop-Runs op_of start stop ho (suc n) (suc v) left h k =
    branch_op-Runs op_of (omega arith) stop
      (λ op. take-Takes advance-Takes λ _.
        keep-Runs (Runs-weaken (omega arith) (omega arith) ho) λ right.
          read-Runs (span_from-Reads start)
            λ s. left_loop-Runs op_of start stop ho n v _ (omega arith) (omega arith))
      (pure-Runs left)

left_assoc-Runs :
    {fuel w : ℕ} (op_of : TokenKind → Option BinOperator) {operand : Parse Expr}
    → w < fuel
    → op_of eof ≡ none
    → Runs 1 (suc w) operand
    → Runs 1 (suc w) (left_assoc fuel op_of operand)
unfolding left_assoc
left_assoc-Runs {fuel} {w} op_of h stop ho = read-Runs current_span-Reads λ start.
    eat-Runs (omega arith) ho
      λ left. left_loop-Runs op_of start stop ho fuel w left (omega arith) (omega arith)

module _ (c : Calls) (w : ℕ) (g : Given c w) where
  unary_loop-Runs : (n v : ℕ) → v ≤ n → v ≤ suc w → Runs 1 v (unary_loop c n)
  unfolding unary_loop unary_sign
  unary_loop-Runs n zero h k = none-Runs
  unary_loop-Runs zero (suc v) h k = absurd (omega arith)
  unary_loop-Runs (suc n) (suc v) h k = read-Runs current_span-Reads λ start.
      branch_op-Runs _ (omega arith) refl
        (λ op. take-Takes advance-Takes λ _.
          keep-Runs (weaken (unary_loop-Runs n v (omega arith) (omega arith)))
            λ operand. read-Runs (span_from-Reads start) λ s. pure-Runs _)
        (Runs-weaken (omega arith) k (parse_postfix-Runs c w g))

  parse_unary-Runs : Runs 1 (suc w) (parse_unary c)
  unfolding parse_unary
  parse_unary-Runs = unary_loop-Runs c.fuel (suc w) (omega (arith, g.fuel)) (omega arith)

  power_loop-Runs : (n v : ℕ) → v ≤ n → v ≤ suc w → Runs 1 v (power_loop c n)
  unfolding power_loop kind_index
  power_loop-Runs n zero h k = none-Runs
  power_loop-Runs zero (suc v) h k = absurd (omega arith)
  power_loop-Runs (suc n) (suc v) h k = read-Runs current_span-Reads λ start.
      eat-Runs (omega arith) (Runs-weaken (omega arith) k parse_unary-Runs) λ base.
        branch-keeps _ (omega arith) refl
          (take-Takes advance-Takes λ _.
            keep-Runs (weaken (power_loop-Runs n v (omega arith) (omega arith)))
              λ exp. read-Runs (span_from-Reads start) λ s. pure-Runs _)
          (pure-Runs base)

  parse_power-Runs : Runs 1 (suc w) (parse_power c)
  unfolding parse_power
  parse_power-Runs = power_loop-Runs c.fuel (suc w) (omega (arith, g.fuel)) (omega arith)

  parse_multiplicative-Runs : Runs 1 (suc w) (parse_multiplicative c)
  unfolding parse_multiplicative multiplicative_op
  parse_multiplicative-Runs = left_assoc-Runs _ g.fuel refl parse_power-Runs

  parse_additive-Runs : Runs 1 (suc w) (parse_additive c)
  unfolding parse_additive additive_op
  parse_additive-Runs = left_assoc-Runs _ g.fuel refl parse_multiplicative-Runs

  parse_shift-Runs : Runs 1 (suc w) (parse_shift c)
  unfolding parse_shift shift_op
  parse_shift-Runs = left_assoc-Runs _ g.fuel refl parse_additive-Runs

  parse_bitand-Runs : Runs 1 (suc w) (parse_bitand c)
  unfolding parse_bitand bitand_op
  parse_bitand-Runs = left_assoc-Runs _ g.fuel refl parse_shift-Runs

  parse_bitxor-Runs : Runs 1 (suc w) (parse_bitxor c)
  unfolding parse_bitxor bitxor_op
  parse_bitxor-Runs = left_assoc-Runs _ g.fuel refl parse_bitand-Runs

  parse_bitor-Runs : Runs 1 (suc w) (parse_bitor c)
  unfolding parse_bitor bitor_op
  parse_bitor-Runs = left_assoc-Runs _ g.fuel refl parse_bitxor-Runs

  parse_range-Runs : Runs 1 (suc w) (parse_range c)
  unfolding parse_range range_op
  parse_range-Runs = read-Runs current_span-Reads λ start.
      eat-Runs (omega arith) parse_bitor-Runs λ left. later (
        branch_op-Runs _ (omega arith) refl
          (λ exclusive. take-Takes advance-Takes λ _.
            keep-Runs (later parse_bitor-Runs)
              λ right. read-Runs (span_from-Reads start) λ s. pure-Runs _)
          (pure-Runs left))

  parse_comparison-Runs : Runs 1 (suc w) (parse_comparison c)
  unfolding parse_comparison comparison_op
  parse_comparison-Runs = left_assoc-Runs _ g.fuel refl parse_range-Runs

  not_loop-Runs : (n v : ℕ) → v ≤ n → v ≤ suc w → Runs 1 v (not_loop c n)
  unfolding not_loop kind_index
  not_loop-Runs n zero h k = none-Runs
  not_loop-Runs zero (suc v) h k = absurd (omega arith)
  not_loop-Runs (suc n) (suc v) h k =
      branch-Runs _ (omega arith) refl
        (read-Takes current_span-Reads λ start. take-Takes advance-Takes λ _.
          keep-Runs (weaken (not_loop-Runs n v (omega arith) (omega arith)))
            λ operand. read-Runs (span_from-Reads start) λ s. pure-Runs _)
        (Runs-weaken (omega arith) k parse_comparison-Runs)

  parse_not-Runs : Runs 1 (suc w) (parse_not c)
  unfolding parse_not
  parse_not-Runs = not_loop-Runs c.fuel (suc w) (omega (arith, g.fuel)) (omega arith)

  parse_and-Runs : Runs 1 (suc w) (parse_and c)
  unfolding parse_and and_op
  parse_and-Runs = left_assoc-Runs _ g.fuel refl parse_not-Runs

  parse_or-Runs : Runs 1 (suc w) (parse_or c)
  unfolding parse_or or_op
  parse_or-Runs = left_assoc-Runs _ g.fuel refl parse_and-Runs

  pub parse_ternary-Runs : Runs 1 (suc w) (parse_ternary c)
  unfolding parse_ternary kind_index
  parse_ternary-Runs = read-Runs current_span-Reads λ start.
      eat-Runs (omega arith) parse_or-Runs λ cond.
        branch-keeps _ (omega arith) refl
          (take-Takes advance-Takes λ _. keep-Runs (weaken g.expr) λ then_expr.
            keep-Runs (later (expect-Runs colon refl)) λ _.
              keep-Runs (weaken g.expr)
                λ else_expr. read-Runs (span_from-Reads start) λ s. pure-Runs _)
          (pure-Runs cond)
