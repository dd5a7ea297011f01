-- ===== src/Parser/Definitions.antt =====
-- crates/jdruby-parser/src/parser.rs: definitions, jumps and the other short statements.
use jdruby.Base.{ℕ, zero, suc, ◌||◌, not, Bool, true, false, List, [], ◌∷◌}
use jdruby.Lexer.Token.{
  TokenKind, identifier, symbol, string_double, string_single, comma, equal, l_paren, r_paren, less,
  kw_end, kw_require_relative, kw_attr_reader, kw_attr_writer, kw_include, kw_extend, newline,
  semicolon, eof,
}
use jdruby.Ast.{
  Text, AttrKind, reader, writer, accessor, MixinKind, include, extend, prepend, OptExpr, no_expr,
  some_expr, Params, no_params, Stmt, expr_stmt, method_def, class_def, module_def, return_stmt,
  yield_stmt, break_stmt, next_stmt, alias, require, attr_decl, mixin_stmt, no_stmts, cons_stmt,
}
use jdruby.Parser.State.{
  Parse, ◌>>=◌, ◌>>◌, pure, give_up, branch, check, is_arg_start, advance, expect, expected_string,
  error, none_here, current_kind, current_span, span_from, lexeme, skip_terminators,
  expect_ident_or_const,
}
use jdruby.Parser.Text.{unescape_string, symbol_name}
use jdruby.Parser.Calls.{Calls, no_args, branch_self}
use jdruby.Parser.Lists.{parse_param_list, parse_bare_arg_list}
use jdruby.Parser.Primary.{paren_args, end_body, text_or_crash}

unfoldable pub parse_alias_stmt : Parse Stmt
parse_alias_stmt = do
  start ← current_span
  advance
  new_name ← expect_ident_or_const
  old_name ← expect_ident_or_const
  s ← span_from start
  pure (alias new_name old_name s)

abbrev pub is_string : TokenKind → Bool
is_string k = check string_double k || check string_single k

unfoldable pub parse_require_stmt : Parse Stmt
parse_require_stmt = do
  start ← current_span
  kind ← current_kind
  advance
  path ←
      branch is_string (do lex ← lexeme; advance; text_or_crash (unescape_string lex))
        (error expected_string >> none_here)
  s ← span_from start
  pure (require path (check kw_require_relative kind) s)

unfoldable pub attr_kind : TokenKind → AttrKind
attr_kind kw_attr_reader = reader
attr_kind kw_attr_writer = writer
attr_kind _ = accessor

-- A name behind `attr_reader`, and the others if a comma follows it.
unfoldable pub name_and : (Text → Text) → Parse (List Text) → Parse (List Text)
name_and name_of others = do
  lex ← lexeme
  advance
  branch (check comma) (do advance; names ← others; pure (name_of lex ∷ names))
      (pure (name_of lex ∷ []))

unfoldable pub names_loop : ℕ → Parse (List Text)
names_loop zero = give_up
names_loop (suc n) =
    branch (check symbol) (name_and symbol_name (names_loop n))
      (branch (check identifier) (name_and (λ lex. lex) (names_loop n)) (pure []))

unfoldable pub mixin_kind : TokenKind → MixinKind
mixin_kind kw_include = include
mixin_kind kw_extend = extend
mixin_kind _ = prepend

module _ (c : Calls) where
  unfoldable pub parse_attr_decl : Parse Stmt
  parse_attr_decl = do
    start ← current_span
    kind ← current_kind
    advance
    names ← names_loop c.fuel
    s ← span_from start
    pure (attr_decl (attr_kind kind) names s)

  unfoldable pub parse_mixin_stmt : Parse Stmt
  parse_mixin_stmt = do
    start ← current_span
    kind ← current_kind
    advance
    e ← c.parse_expr
    s ← span_from start
    pure (mixin_stmt (mixin_kind kind) e s)

  -- An expression, or none where the test stops.
  unfoldable pub optional_expr : (TokenKind → Bool) → Parse OptExpr
  optional_expr stops = branch stops (pure no_expr) (do e ← c.parse_expr; pure (some_expr e))

  abbrev pub ends_return : TokenKind → Bool
  ends_return k = check newline k || check semicolon k || check eof k || check kw_end k

  unfoldable pub parse_return_stmt : Parse Stmt
  parse_return_stmt = do
    start ← current_span
    advance
    value ← optional_expr ends_return
    s ← span_from start
    pure (return_stmt value s)

  unfoldable pub parse_break_stmt : Parse Stmt
  parse_break_stmt = do
    start ← current_span
    advance
    value ← optional_expr (λ k. not (is_arg_start k))
    s ← span_from start
    pure (break_stmt value s)

  unfoldable pub parse_next_stmt : Parse Stmt
  parse_next_stmt = do
    start ← current_span
    advance
    value ← optional_expr (λ k. not (is_arg_start k))
    s ← span_from start
    pure (next_stmt value s)

  unfoldable pub parse_yield_stmt : Parse Stmt
  parse_yield_stmt = do
    start ← current_span
    advance
    r ← paren_args c (branch is_arg_start (parse_bare_arg_list c) (pure no_args))
    s ← span_from start
    pure (yield_stmt r.args s)

  -- Whether `self.` stands before the name; it is taken.
  unfoldable pub class_method : Parse Bool
  class_method = branch_self (do advance; advance; pure true) (pure false)

  unfoldable pub optional_params : Parse Params
  optional_params =
      branch (check l_paren) (do advance; p ← parse_param_list c; expect r_paren; pure p)
        (pure no_params)

  unfoldable pub parse_method_def : Parse Stmt
  parse_method_def = do
    start ← current_span
    advance
    is_class_method ← class_method
    name ← expect_ident_or_const
    params ← optional_params
    skip_terminators
    branch (check equal)
        (do
          advance
          e ← c.parse_expr
          s ← span_from start
          pure (method_def name params (cons_stmt (expr_stmt e s) no_stmts) is_class_method s))
        (do
          body ← end_body c
          s ← span_from start
          pure (method_def name params body is_class_method s))

  unfoldable pub parse_class_def : Parse Stmt
  parse_class_def = do
    start ← current_span
    advance
    name ← expect_ident_or_const
    superclass ←
        branch (check less) (do advance; e ← c.parse_expr; pure (some_expr e)) (pure no_expr)
    skip_terminators
    body ← end_body c
    s ← span_from start
    pure (class_def name superclass body s)

  unfoldable pub parse_module_def : Parse Stmt
  parse_module_def = do
    start ← current_span
    advance
    name ← expect_ident_or_const
    skip_terminators
    body ← end_body c
    s ← span_from start
    pure (module_def name body s)
