-- ===== src/Parser/Total/Lists.antt =====
-- The promises of argument lists, parameter lists and bodies.
use jdruby.Base.{ℕ, zero, suc, ◌+◌, ◌≤◌, ◌<◌, refl, arith, length}
use jdruby.Common.Source.{SourceSpan}
use jdruby.Lexer.Token.{TokenKind}
use jdruby.Ast.{ParamKind, Stmt}
use jdruby.Parser.Kinds.{kind_index}
use jdruby.Parser.State.{Parser, Parsed, parsed, failed, panicked, out_of_fuel, Parse}
use jdruby.Parser.Calls.{Calls, parse_arg, arg_loop, bare_loop}
use jdruby.Parser.Lists.{
  marked_param, block_param, block_params_loop, parse_arg_list, parse_bare_arg_list, named_param,
  parse_param, param_loop, parse_param_list, parse_block_params,
}
use jdruby.Parser.Runs.{
  Valid, Later, Runs, Takes, keep-Runs, eat-Runs, take-Takes, read-Takes, read-Runs,
}
use jdruby.Parser.Current.{advance-Takes, advance-Runs}
use jdruby.Parser.Branches.{
  branch-Runs, branch-keeps, fork-Runs, branch_end-Runs, none-Runs, pure-Runs, Runs-weaken, later,
  weaken, branch_key-Runs,
}
use jdruby.Parser.Helpers.{
  current_span-Reads, lexeme-Reads, span_from-Reads, expect_ident-Runs, skip_newlines-Runs,
}

-- What `parse_stmt` comes to: a statement comes after a token at least, and with none there is a
-- diagnostic or nothing but the end of the file.
abbrev pub StmtPost : Parser → Parsed Stmt → Type 0
StmtPost s (parsed stmt s') = Later 1 0 s s'
StmtPost s (failed s') = Later 0 0 s s'
StmtPost s panicked = ⊥
StmtPost s out_of_fuel = ⊥

pub record StmtRuns (w : ℕ) (p : Parse Stmt) : Type 0 where
  pub at : (s : Parser) → Valid s → length s.tokens < s.pos + w → StmtPost s (p s)

-- The calls keep their promises where fewer than `w` tokens are left, and the loops have fuel.
pub record Given (c : Calls) (w : ℕ) : Type 0 where
  pub expr : Runs 1 w c.parse_expr
  pub stmt : StmtRuns w c.parse_stmt
  pub fuel : w < c.fuel

marked_param-Takes :
    {w : ℕ} (kind : ParamKind) (start : SourceSpan) → Takes w (marked_param kind start)
unfolding marked_param
marked_param-Takes kind start = take-Takes advance-Takes λ _.
    keep-Runs (later expect_ident-Runs) λ name. read-Runs (span_from-Reads start) λ s. pure-Runs _

block_param-Runs : {w : ℕ} → Runs 1 (suc w) block_param
unfolding block_param kind_index
block_param-Runs = read-Runs current_span-Reads λ start.
    branch-Runs _ (omega arith) refl (marked_param-Takes _ start) (
      branch-Runs _ (omega arith) refl (marked_param-Takes _ start)
        (eat-Runs (omega arith) expect_ident-Runs λ name. pure-Runs _))

block_params_loop-Runs : (n v : ℕ) → v ≤ n → Runs 0 v (block_params_loop n)
unfolding block_params_loop kind_index
block_params_loop-Runs n zero h = none-Runs
block_params_loop-Runs zero (suc v) h = absurd (omega arith)
block_params_loop-Runs (suc n) (suc v) h = branch_end-Runs _ (pure-Runs _) (
    eat-Runs (omega arith) block_param-Runs λ p.
      branch-keeps _ (omega arith) refl
        (take-Takes advance-Takes
          λ _. keep-Runs (block_params_loop-Runs n v (omega arith)) λ ps. pure-Runs _)
        (pure-Runs _))

module _ (c : Calls) (w : ℕ) (g : Given c w) where
  -- An expression where fewer tokens are left.
  pub expr-at : {v : ℕ} → v ≤ w → Runs 1 v c.parse_expr
  expr-at h = Runs-weaken (omega arith) h g.expr

  parse_arg-Runs : {v : ℕ} → suc v ≤ w → Runs 1 (suc v) (parse_arg c)
  unfolding parse_arg kind_index
  parse_arg-Runs h =
      branch-Runs _ (omega arith) refl
        (take-Takes advance-Takes λ _. keep-Runs (weaken (expr-at (omega arith))) λ e. pure-Runs _)
        (branch_key-Runs (omega arith)
          (read-Takes lexeme-Reads λ key. take-Takes advance-Takes λ _.
            keep-Runs advance-Runs λ _. keep-Runs (weaken (expr-at (omega arith))) λ e. pure-Runs _)
          (eat-Runs (omega arith) (expr-at h) λ e. pure-Runs _))

  arg_loop-Runs : (end : TokenKind) (n v : ℕ) → v ≤ n → v ≤ w → Runs 0 v (arg_loop c end n)
  unfolding arg_loop kind_index
  arg_loop-Runs end n zero h k = none-Runs
  arg_loop-Runs end zero (suc v) h k = absurd (omega arith)
  arg_loop-Runs end (suc n) (suc v) h k = branch_end-Runs _ (pure-Runs _) (
      eat-Runs (omega arith) (parse_arg-Runs k) λ add. keep-Runs skip_newlines-Runs λ _.
        branch-keeps _ (omega arith) refl
          (take-Takes advance-Takes λ _.
            keep-Runs skip_newlines-Runs
              λ _. keep-Runs (arg_loop-Runs end n v (omega arith) (omega arith)) λ r. pure-Runs _)
          (pure-Runs _))

  pub parse_arg_list-Runs : (end : TokenKind) → Runs 0 w (parse_arg_list c end)
  unfolding parse_arg_list
  parse_arg_list-Runs end =
      keep-Runs skip_newlines-Runs
        λ _. arg_loop-Runs end c.fuel w (omega (arith, g.fuel)) (omega arith)

  bare_loop-Runs : (n v : ℕ) → v ≤ n → v ≤ w → Runs 0 v (bare_loop c n)
  unfolding bare_loop kind_index
  bare_loop-Runs n zero h k = none-Runs
  bare_loop-Runs zero (suc v) h k = absurd (omega arith)
  bare_loop-Runs (suc n) (suc v) h k = eat-Runs (omega arith) (parse_arg-Runs k) λ add.
      branch-keeps _ (omega arith) refl
        (take-Takes advance-Takes
          λ _. keep-Runs (bare_loop-Runs n v (omega arith) (omega arith)) λ r. pure-Runs _)
        (pure-Runs _)

  pub parse_bare_arg_list-Runs : Runs 0 w (parse_bare_arg_list c)
  unfolding parse_bare_arg_list
  parse_bare_arg_list-Runs = bare_loop-Runs c.fuel w (omega (arith, g.fuel)) (omega arith)

  named_param-Runs :
      {v : ℕ} → suc v ≤ w → (start : SourceSpan) → Runs 1 (suc v) (named_param c start)
  unfolding named_param kind_index
  named_param-Runs h start = eat-Runs (omega arith) expect_ident-Runs λ name.
      branch-keeps _ (omega arith) refl
        (take-Takes advance-Takes λ _.
          keep-Runs
            (fork-Runs _ (pure-Runs _)
              (keep-Runs (weaken (expr-at (omega arith))) λ e. pure-Runs _))
            λ default. read-Runs (span_from-Reads start) λ s. pure-Runs _)
        (branch-keeps _ (omega arith) refl
          (take-Takes advance-Takes λ _.
            keep-Runs (weaken (expr-at (omega arith)))
              λ default. read-Runs (span_from-Reads start) λ s. pure-Runs _)
          (read-Runs (span_from-Reads start) λ s. pure-Runs _))

  parse_param-Runs : {v : ℕ} → suc v ≤ w → Runs 1 (suc v) (parse_param c)
  unfolding parse_param kind_index
  parse_param-Runs h = read-Runs current_span-Reads λ start.
      branch-Runs _ (omega arith) refl (marked_param-Takes _ start) (
        branch-Runs _ (omega arith) refl (marked_param-Takes _ start) (
          branch-Runs _ (omega arith) refl (marked_param-Takes _ start) (named_param-Runs h start)))

  param_loop-Runs : (n v : ℕ) → v ≤ n → v ≤ w → Runs 0 v (param_loop c n)
  unfolding param_loop kind_index
  param_loop-Runs n zero h k = none-Runs
  param_loop-Runs zero (suc v) h k = absurd (omega arith)
  param_loop-Runs (suc n) (suc v) h k = branch_end-Runs _ (pure-Runs _) (
      eat-Runs (omega arith) (parse_param-Runs k) λ p.
        branch-keeps _ (omega arith) refl
          (take-Takes advance-Takes
            λ _. keep-Runs (param_loop-Runs n v (omega arith) (omega arith)) λ ps. pure-Runs _)
          (pure-Runs _))

  pub parse_param_list-Runs : Runs 0 w (parse_param_list c)
  unfolding parse_param_list
  parse_param_list-Runs = param_loop-Runs c.fuel w (omega (arith, g.fuel)) (omega arith)

  pub parse_block_params-Runs : Runs 0 w (parse_block_params c)
  unfolding parse_block_params
  parse_block_params-Runs = block_params_loop-Runs c.fuel w (omega (arith, g.fuel))
