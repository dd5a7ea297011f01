-- ===== src/Parser/Lists.antt =====
-- crates/jdruby-parser/src/parser.rs: argument lists, parameter lists and bodies.
use jdruby.Base.{ℕ, zero, suc, ◌||◌, Bool}
use jdruby.Common.Source.{SourceSpan}
use jdruby.Lexer.Token.{
  TokenKind, comma, r_paren, r_brace, star, double_star, amp, pipe, equal, colon, kw_end, kw_rescue,
  kw_ensure, kw_else, kw_elsif, kw_when,
}
use jdruby.Ast.{
  ParamKind, required, optional, rest, keyword_rest, block, keyword, no_expr, some_expr, Param,
  param, Params, no_params, cons_param, Stmts,
}
use jdruby.Parser.State.{
  Parse, ◌>>=◌, ◌>>◌, pure, give_up, branch, branch_end, check, advance, current_span, span_from,
  expect_ident, skip_newlines, unexpected_in_body, unexpected_in_block,
}
use jdruby.Parser.Calls.{Calls, Args, arg_loop, bare_loop, body_loop, skip_stuck}

-- A parameter of a kind with no default, behind its mark.
unfoldable pub marked_param : ParamKind → SourceSpan → Parse Param
marked_param kind start = do
  advance
  name ← expect_ident
  span ← span_from start
  pure (param name no_expr kind span)

abbrev pub ends_default : TokenKind → Bool
ends_default k = check comma k || check r_paren k

-- `parse_block_params`
unfoldable pub block_param : Parse Param
block_param = do
  start ← current_span
  branch (check amp) (marked_param block start) (
      branch (check star) (marked_param rest start)
        (do name ← expect_ident; pure (param name no_expr required start)))

unfoldable pub block_params_loop : ℕ → Parse Params
block_params_loop zero = give_up
block_params_loop (suc n) = branch_end (check pipe) (pure no_params) (do
  p ← block_param
  branch (check comma) (do advance; ps ← block_params_loop n; pure (cons_param p ps))
      (pure (cons_param p no_params)))

-- The kinds that end the body of a `when`, and any other.
unfoldable pub ends_when : TokenKind → Bool
ends_when k = check kw_when k || check kw_else k || check kw_end k

unfoldable pub ends_body : TokenKind → Bool
ends_body k =
    check kw_end k || check kw_rescue k || check kw_ensure k || check kw_else k || check kw_elsif k

module _ (c : Calls) where
  unfoldable pub parse_arg_list : TokenKind → Parse Args
  parse_arg_list end = do skip_newlines; arg_loop c end c.fuel

  unfoldable pub parse_bare_arg_list : Parse Args
  parse_bare_arg_list = bare_loop c c.fuel

  -- The rest of `parse_param` behind the name.
  unfoldable pub named_param : SourceSpan → Parse Param
  named_param start = do
    name ← expect_ident
    branch (check colon)
        (do
          advance
          default ← branch ends_default (pure no_expr) (do e ← c.parse_expr; pure (some_expr e))
          span ← span_from start
          pure (param name default keyword span))
        (branch (check equal)
          (do
            advance
            default ← c.parse_expr
            span ← span_from start
            pure (param name (some_expr default) optional span))
          (do span ← span_from start; pure (param name no_expr required span)))

  unfoldable pub parse_param : Parse Param
  parse_param = do
    start ← current_span
    branch (check star) (marked_param rest start) (
        branch (check double_star) (marked_param keyword_rest start)
          (branch (check amp) (marked_param block start) (named_param start)))

  unfoldable pub param_loop : ℕ → Parse Params
  param_loop zero = give_up
  param_loop (suc n) = branch_end (check r_paren) (pure no_params) (do
    p ← parse_param
    branch (check comma) (do advance; ps ← param_loop n; pure (cons_param p ps))
        (pure (cons_param p no_params)))

  unfoldable pub parse_param_list : Parse Params
  parse_param_list = param_loop c.fuel

  unfoldable pub parse_block_params : Parse Params
  parse_block_params = block_params_loop c.fuel

  unfoldable pub parse_body_until_end : Parse Stmts
  parse_body_until_end = do
    skip_newlines
    body_loop c ends_body (skip_stuck unexpected_in_body) c.fuel

  unfoldable pub parse_body_until_rbrace : Parse Stmts
  parse_body_until_rbrace = do
    skip_newlines
    body_loop c (check r_brace) (skip_stuck unexpected_in_block) c.fuel

  -- Here nothing is done about a token at which no statement is found.
  unfoldable pub parse_body_until_when : Parse Stmts
  parse_body_until_when = do skip_newlines; body_loop c ends_when (λ pos_before. pure tt) c.fuel
