-- ===== src/Parser/Control.antt =====
-- crates/jdruby-parser/src/parser.rs: the statements of control flow.
use jdruby.Base.{ℕ, zero, suc, ◌||◌, Bool, Option, some, none}
use jdruby.Lexer.Token.{
  TokenKind, kw_then, kw_do, kw_in, kw_end, kw_elsif, kw_else, kw_when, kw_rescue, kw_ensure, comma,
  fat_arrow, newline, semicolon,
}
use jdruby.Ast.{
  Text, Expr, Exprs, no_exprs, cons_expr, Stmt, if_stmt, unless_stmt, while_stmt, until_stmt,
  for_stmt, case_stmt, begin_rescue, OptStmts, no_body, some_body, Elsifs, no_elsifs, cons_elsif,
  Whens, no_whens, cons_when, Rescues, no_rescues, cons_rescue,
}
use jdruby.Parser.State.{
  Parse, ◌>>=◌, ◌>>◌, pure, give_up, branch, check, advance, eat, expect, current_span, span_from,
  skip_terminators, expect_ident,
}
use jdruby.Parser.Calls.{Calls}
use jdruby.Parser.Lists.{parse_body_until_end, parse_body_until_when}
use jdruby.Parser.Primary.{end_body}
use jdruby.Parser.Definitions.{optional_expr}

module _ (c : Calls) where
  -- A condition, and the word that may end it.
  unfoldable pub condition_before : TokenKind → Parse Expr
  condition_before word = do e ← c.parse_expr; eat word; skip_terminators; pure e

  -- `else` or `ensure` with its body, or none.
  unfoldable pub clause_body : TokenKind → Parse OptStmts
  clause_body word =
      branch (check word)
        (do advance; skip_terminators; b ← parse_body_until_end c; pure (some_body b))
        (pure no_body)

  unfoldable pub elsif_loop : ℕ → Parse Elsifs
  elsif_loop zero = give_up
  elsif_loop (suc n) =
      branch (check kw_elsif)
        (do
          es ← current_span
          advance
          cond ← condition_before kw_then
          body ← parse_body_until_end c
          s ← span_from es
          others ← elsif_loop n
          pure (cons_elsif cond body s others))
        (pure no_elsifs)

  unfoldable pub parse_if_stmt : Parse Stmt
  parse_if_stmt = do
    start ← current_span
    advance
    condition ← condition_before kw_then
    then_body ← parse_body_until_end c
    elsifs ← elsif_loop c.fuel
    else_body ← clause_body kw_else
    expect kw_end
    s ← span_from start
    pure (if_stmt condition then_body elsifs else_body s)

  unfoldable pub parse_unless_stmt : Parse Stmt
  parse_unless_stmt = do
    start ← current_span
    advance
    condition ← condition_before kw_then
    body ← parse_body_until_end c
    else_body ← clause_body kw_else
    expect kw_end
    s ← span_from start
    pure (unless_stmt condition body else_body s)

  unfoldable pub parse_while_stmt : Parse Stmt
  parse_while_stmt = do
    start ← current_span
    advance
    condition ← condition_before kw_do
    body ← end_body c
    s ← span_from start
    pure (while_stmt condition body s)

  unfoldable pub parse_until_stmt : Parse Stmt
  parse_until_stmt = do
    start ← current_span
    advance
    condition ← condition_before kw_do
    body ← end_body c
    s ← span_from start
    pure (until_stmt condition body s)

  unfoldable pub parse_for_stmt : Parse Stmt
  parse_for_stmt = do
    start ← current_span
    advance
    var ← expect_ident
    expect kw_in
    iterable ← condition_before kw_do
    body ← end_body c
    s ← span_from start
    pure (for_stmt var iterable body s)

  -- One expression and more behind commas.
  unfoldable pub exprs_loop : ℕ → Parse Exprs
  exprs_loop zero = give_up
  exprs_loop (suc n) = do
    e ← c.parse_expr
    branch (check comma) (do advance; es ← exprs_loop n; pure (cons_expr e es))
        (pure (cons_expr e no_exprs))

  unfoldable pub when_loop : ℕ → Parse Whens
  when_loop zero = give_up
  when_loop (suc n) =
      branch (check kw_when)
        (do
          ws ← current_span
          advance
          patterns ← exprs_loop c.fuel
          eat kw_then
          skip_terminators
          body ← parse_body_until_when c
          s ← span_from ws
          others ← when_loop n
          pure (cons_when patterns body s others))
        (pure no_whens)

  abbrev pub ends_line : TokenKind → Bool
  ends_line k = check newline k || check semicolon k

  unfoldable pub parse_case_stmt : Parse Stmt
  parse_case_stmt = do
    start ← current_span
    advance
    subject ← optional_expr c ends_line
    skip_terminators
    whens ← when_loop c.fuel
    else_body ← clause_body kw_else
    expect kw_end
    s ← span_from start
    pure (case_stmt subject whens else_body s)

  abbrev pub ends_exceptions : TokenKind → Bool
  ends_exceptions k = check newline k || check semicolon k || check fat_arrow k

  -- The exceptions, the variable and the body behind `rescue`.
  unfoldable pub rescue_var : Parse (Option Text)
  rescue_var =
      branch (check fat_arrow) (do advance; name ← expect_ident; pure (some name)) (pure none)

  unfoldable pub rescue_loop : ℕ → Parse Rescues
  rescue_loop zero = give_up
  rescue_loop (suc n) =
      branch (check kw_rescue)
        (do
          rs ← current_span
          advance
          exceptions ← branch ends_exceptions (pure no_exprs) (exprs_loop c.fuel)
          var ← rescue_var
          skip_terminators
          rbody ← parse_body_until_end c
          s ← span_from rs
          others ← rescue_loop n
          pure (cons_rescue exceptions var rbody s others))
        (pure no_rescues)

  unfoldable pub parse_begin_rescue : Parse Stmt
  parse_begin_rescue = do
    start ← current_span
    advance
    skip_terminators
    body ← parse_body_until_end c
    rescues ← rescue_loop c.fuel
    else_body ← clause_body kw_else
    ensure_body ← clause_body kw_ensure
    expect kw_end
    s ← span_from start
    pure (begin_rescue body rescues else_body ensure_body s)
