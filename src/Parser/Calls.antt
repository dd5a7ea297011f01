-- ===== src/Parser/Calls.antt =====
-- crates/jdruby-parser/src/parser.rs: what a parsing function is given: the functions that parse an
-- expression and a statement, for the recursion, and the fuel of its loops.
use jdruby.Base.{ℕ, zero, suc, ◌+◌, ◌==◌, ◌&&◌, Bool, Option, some, none, get_elem?, if◌then◌else◌}
use jdruby.Common.Source.{SourceSpan}
use jdruby.Lexer.Token.{TokenKind, identifier, colon, comma, amp, kw_self, dot}
use jdruby.Ast.{
  Text, BinOperator, Expr, binary_op, OptExpr, no_expr, some_expr, Exprs, no_exprs, cons_expr,
  Kwargs, no_kwargs, cons_kwarg, Stmt, Stmts, no_stmts, cons_stmt,
}
use jdruby.Parser.State.{
  Message, Parse, Parsed, bind, parsed, failed, panicked, out_of_fuel, ◌>>=◌, ◌>>◌, pure, give_up,
  on_current, branch, branch_end, check, kind_or_eof, error, advance, current_kind, current_span,
  span_from, lexeme, skip_newlines,
}

-- `float_of` gives the bits of what `parse::<f64>().unwrap_or(0.0)` reads.
pub record Calls : Type 0 where
  pub parse_expr : Parse Expr
  pub parse_stmt : Parse Stmt
  pub float_of : Text → ℕ
  pub fuel : ℕ

abbrev pub choose : {A B : Type 0} → Option B → (B → Parse A) → Parse A → Parse A
choose none p q s = q s
choose (some b) p q s = p b s

-- A `match` on the current kind that gives an operator or goes on.
unfoldable pub branch_op :
    {A B : Type 0} → (TokenKind → Option B) → (B → Parse A) → Parse A → Parse A
branch_op op_of p q = on_current λ t s. choose (op_of t.kind) p q s

-- An identifier before a colon.
unfoldable pub branch_key : {A : Type 0} → Parse A → Parse A → Parse A
branch_key p q = on_current λ t s.
    if check identifier t.kind && check colon (kind_or_eof (get_elem? s.tokens (s.pos + 1)))
    then p s
    else q s

-- `self` before a dot.
unfoldable pub branch_self : {A : Type 0} → Parse A → Parse A → Parse A
branch_self p q = on_current λ t s.
    if check kw_self t.kind && check dot (kind_or_eof (get_elem? s.tokens (s.pos + 1)))
    then p s
    else q s

-- The loop of every level of binary operators that associate to the left.
unfoldable pub left_loop :
    (TokenKind → Option BinOperator) → Parse Expr → SourceSpan → ℕ → Expr → Parse Expr
left_loop op_of operand start zero left = give_up
left_loop op_of operand start (suc n) left =
    branch_op op_of
      (λ op. do
        advance
        right ← operand
        span ← span_from start
        left_loop op_of operand start n (binary_op left op right span))
      (pure left)

unfoldable pub left_assoc : ℕ → (TokenKind → Option BinOperator) → Parse Expr → Parse Expr
left_assoc fuel op_of operand = do
  start ← current_span
  left ← operand
  left_loop op_of operand start fuel left

-- What `parse_arg_list` collects.
pub record Args : Type 0 where
  pub args : Exprs
  pub kwargs : Kwargs
  pub block_arg : OptExpr

abbrev pub no_args : Args
no_args = record { args = no_exprs; kwargs = no_kwargs; block_arg = no_expr }

unfoldable pub add_arg : Expr → Args → Args
add_arg e r = record r { args = cons_expr e r.args }

unfoldable pub add_kwarg : Text → Expr → Args → Args
add_kwarg key e r = record r { kwargs = cons_kwarg key e r.kwargs }

abbrev pub or_else : OptExpr → Expr → OptExpr
or_else no_expr e = some_expr e
or_else (some_expr later) e = some_expr later

-- A later block argument replaces an earlier one.
unfoldable pub add_block_arg : Expr → Args → Args
add_block_arg e r = record r { block_arg = or_else r.block_arg e }

-- What `parse_stmt` gave, with what is done where it gave no statement, from the position before.
abbrev pub step_end : (ℕ → Parse (Unit {0})) → ℕ → Parsed Stmt → Parsed (Option Stmt)
step_end recover pos_before (parsed stmt s) = parsed (some stmt) s
step_end recover pos_before (failed s) = bind (recover pos_before s) (λ _. pure none)
step_end recover pos_before panicked = panicked
step_end recover pos_before out_of_fuel = out_of_fuel

abbrev pub push_stmt : Option Stmt → Stmts → Stmts
push_stmt none body = body
push_stmt (some stmt) body = cons_stmt stmt body

module _ (c : Calls) where
  -- One turn of the loop of `parse_arg_list` or `parse_bare_arg_list`: the argument, as what it
  -- adds to the later ones. `&block`, `key: value` or a plain one.
  unfoldable pub parse_arg : Parse (Args → Args)
  parse_arg =
      branch (check amp) (do advance; e ← c.parse_expr; pure (add_block_arg e))
        (branch_key (do key ← lexeme; advance; advance; e ← c.parse_expr; pure (add_kwarg key e))
          (do e ← c.parse_expr; pure (add_arg e)))

  unfoldable pub arg_loop : TokenKind → ℕ → Parse Args
  arg_loop end zero = give_up
  arg_loop end (suc n) = branch_end (check end) (pure no_args) (do
    add ← parse_arg
    skip_newlines
    branch (check comma) (do advance; skip_newlines; r ← arg_loop end n; pure (add r))
        (pure (add no_args)))

  unfoldable pub bare_loop : ℕ → Parse Args
  bare_loop zero = give_up
  bare_loop (suc n) = do
    add ← parse_arg
    branch (check comma) (do advance; r ← bare_loop n; pure (add r)) (pure (add no_args))

  -- The loops of `parse_body_until_end` and of its variants, by the kinds that end the body.
  unfoldable pub body_step : (ℕ → Parse (Unit {0})) → Parse (Option Stmt)
  body_step recover s = step_end recover s.pos (c.parse_stmt s)

  unfoldable pub body_loop : (TokenKind → Bool) → (ℕ → Parse (Unit {0})) → ℕ → Parse Stmts
  body_loop ends recover zero = give_up
  body_loop ends recover (suc n) = branch_end ends (pure no_stmts) (do
    stmt ← body_step recover
    skip_newlines
    body ← body_loop ends recover n
    pure (push_stmt stmt body))

-- `if self.pos == pos_before`: the problematic token is reported and skipped.
unfoldable pub skip_stuck : (TokenKind → Message) → ℕ → Parse (Unit {0})
skip_stuck m pos_before s =
    (if s.pos == pos_before then (do k ← current_kind; error (m k); advance; pure tt) else pure tt)
      s
