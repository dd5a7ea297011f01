-- ===== src/Parser/Calling.antt =====
-- crates/jdruby-parser/src/parser.rs: calls of methods, primary and postfix expressions.
use jdruby.Base.{ℕ, zero, suc, ◌||◌, ◌&&◌, not, Bool, true, false, [], ◌∷◌, ◌++◌}
use jdruby.Common.Source.{SourceSpan}
use jdruby.Lexer.Token.{
  TokenKind, integer, float, string_double, string_single, symbol, kw_true, kw_false, kw_nil,
  kw_self, identifier, constant, l_paren, r_paren, l_bracket, r_bracket, l_brace, arrow, kw_lambda,
  kw_proc, kw_defined, kw_super, kw_puts, kw_print, kw_p, kw_raise, kw_do, dot, colon_colon,
  newline, eof, semicolon,
}
use jdruby.Ast.{
  Text, Expr, integer_lit, float_lit, string_lit, interpolated_string, symbol_lit, bool_lit,
  nil_lit, array_lit, hash_lit, range_lit, regex_lit, local_var, const_ref, self_expr, binary_op,
  unary_op, method_call, block_call, super_call, yield_expr, lambda, proc, pattern_match, ternary,
  defined, MethodCall, call, no_expr, some_expr, no_exprs, cons_expr, no_kwargs, Stmts,
}
use jdruby.Parser.State.{
  Parse, ◌>>=◌, ◌>>◌, pure, give_up, on_current, branch, check, is_arg_start, advance, expect,
  fail_with, unexpected, current_span, prev_span, span_from, lexeme, expect_ident_or_const,
}
use jdruby.Parser.Text.{parse_int, without_underscores, symbol_name}
use jdruby.Parser.Calls.{Calls, Args, no_args}
use jdruby.Parser.Lists.{parse_arg_list, parse_bare_arg_list}
use jdruby.Parser.Primary.{
  parse_string, parse_array_lit, parse_hash_lit, brace_body, end_body, parse_lambda,
  parse_lambda_body, piped_params, parse_proc, paren_args, parse_super, parse_defined,
}

unfoldable pub call_span : MethodCall → SourceSpan
call_span (call r m xs ks b s) = s

-- `ExprSpan::span`
unfoldable pub span : Expr → SourceSpan
span (integer_lit v s) = s
span (float_lit v s) = s
span (string_lit v s) = s
span (interpolated_string ps s) = s
span (symbol_lit n s) = s
span (bool_lit b s) = s
span (nil_lit s) = s
span (array_lit es s) = s
span (hash_lit es s) = s
span (range_lit a b x s) = s
span (regex_lit p f s) = s
span (local_var n s) = s
span (Expr.instance_var n s) = s
span (Expr.class_var n s) = s
span (Expr.global_var n s) = s
span (const_ref p s) = s
span (self_expr s) = s
span (binary_op l o r s) = s
span (unary_op o e s) = s
span (method_call m) = call_span m
span (block_call m ps b s) = s
span (super_call xs s) = s
span (yield_expr xs s) = s
span (lambda ps b s) = s
span (proc ps b s) = s
span (pattern_match a b s) = s
span (ternary a b x s) = s
span (defined e s) = s

-- The bytes of `[]`, the method's name of an index.
abbrev pub index_name : Text
index_name = b'[' ∷ b']' ∷ []

-- A call with what its argument list holds.
abbrev pub call_with : Text → Args → SourceSpan → MethodCall
call_with name r s = call no_expr name r.args r.kwargs r.block_arg s

abbrev pub call_on : Expr → Text → Args → SourceSpan → MethodCall
call_on receiver name r s = call (some_expr receiver) name r.args r.kwargs r.block_arg s

abbrev pub opens_block : TokenKind → Bool
opens_block k = check kw_do k || check l_brace k

-- `expr::name`: a longer path of a constant, or a call.
unfoldable pub scoped : Expr → Text → SourceSpan → Expr
scoped (const_ref path old) name s = const_ref (path ++ name ∷ []) s
scoped e name s = method_call (call_on e name no_args s)

module _ (c : Calls) where
  -- The kind of the block is that of its opening token.
  unfoldable pub block_with : MethodCall → Parse Stmts → Parse Expr
  block_with m body = do
    advance
    params ← piped_params c
    b ← body
    s ← span_from (call_span m)
    pure (block_call m params b s)

  unfoldable pub parse_block_call : MethodCall → Parse Expr
  parse_block_call m =
      branch (check l_brace) (block_with m (brace_body c)) (block_with m (end_body c))

  unfoldable pub parse_method_call_on : Expr → Parse MethodCall
  parse_method_call_on receiver = do
    method ← expect_ident_or_const
    r ← paren_args c (branch is_arg_start (parse_bare_arg_list c) (pure no_args))
    s ← span_from (span receiver)
    pure (call_on receiver method r s)

  -- A block that follows a call.
  unfoldable pub trailing_block : MethodCall → Parse Expr
  trailing_block m = branch opens_block (parse_block_call m) (pure (method_call m))

  unfoldable pub parse_identifier_expr : Parse Expr
  parse_identifier_expr = do
    start ← current_span
    name ← lexeme
    advance
    branch (check l_paren)
        (do
          advance
          r ← parse_arg_list c r_paren
          expect r_paren
          s ← span_from start
          trailing_block (call_with name r s))
        (branch opens_block (parse_block_call (call_with name no_args start)) (
          branch (λ k. is_arg_start k && not (check newline k) && not (check eof k))
            (do r ← parse_bare_arg_list c; s ← span_from start; trailing_block (call_with name r s))
            (pure (local_var name start))))

  unfoldable pub parse_constant_expr : Parse Expr
  parse_constant_expr = do
    start ← current_span
    name ← lexeme
    advance
    pure (const_ref (name ∷ []) start)

  abbrev pub starts_bare : TokenKind → Bool
  starts_bare k =
      not (check newline k) && not (check eof k) && not (check semicolon k) && is_arg_start k

  unfoldable pub parse_builtin_call : Parse Expr
  parse_builtin_call = do
    start ← current_span
    method ← lexeme
    advance
    r ← paren_args c (branch starts_bare (parse_bare_arg_list c) (pure no_args))
    s ← span_from start
    pure (method_call (call_with method r s))

  -- The arms that take one token and make a node of its text or of nothing.
  unfoldable pub one_token : (Text → SourceSpan → Expr) → Parse Expr
  one_token node = do s ← current_span; lex ← lexeme; advance; pure (node lex s)

  unfoldable pub parse_parens : Parse Expr
  parse_parens = do advance; e ← c.parse_expr; expect r_paren; pure e

  -- The `match` of `parse_primary`.
  unfoldable pub primary_of : TokenKind → Parse Expr
  primary_of integer = one_token (λ lex s. integer_lit (parse_int lex) s)
  primary_of float = one_token (λ lex s. float_lit (c.float_of (without_underscores lex)) s)
  primary_of string_double = parse_string c true
  primary_of string_single = parse_string c false
  primary_of symbol = one_token (λ lex s. symbol_lit (symbol_name lex) s)
  primary_of kw_true = one_token (λ lex s. bool_lit true s)
  primary_of kw_false = one_token (λ lex s. bool_lit false s)
  primary_of kw_nil = one_token (λ lex s. nil_lit s)
  primary_of kw_self = one_token (λ lex s. self_expr s)
  primary_of identifier = parse_identifier_expr
  primary_of constant = parse_constant_expr
  primary_of TokenKind.instance_var = one_token Expr.instance_var
  primary_of TokenKind.class_var = one_token Expr.class_var
  primary_of TokenKind.global_var = one_token Expr.global_var
  primary_of l_paren = parse_parens
  primary_of l_bracket = parse_array_lit c
  primary_of l_brace = parse_hash_lit c
  primary_of arrow = parse_lambda c
  primary_of kw_lambda = advance >> parse_lambda_body c
  primary_of kw_proc = parse_proc c
  primary_of kw_defined = parse_defined c
  primary_of kw_super = parse_super c
  primary_of kw_puts = parse_builtin_call
  primary_of kw_print = parse_builtin_call
  primary_of kw_p = parse_builtin_call
  primary_of kw_raise = parse_builtin_call
  primary_of _ = fail_with unexpected

  unfoldable pub parse_primary : Parse Expr
  parse_primary = on_current λ t. primary_of t.kind

  -- The three things that may follow, in the order of the loop.
  unfoldable pub postfix_loop : ℕ → Expr → Parse Expr
  postfix_loop zero e = give_up
  postfix_loop (suc n) e =
      branch (check dot)
        (do advance; m ← parse_method_call_on e; e' ← trailing_block m; postfix_loop n e')
        (branch (check colon_colon)
          (do
            advance
            start ← prev_span
            name ← expect_ident_or_const
            s ← span_from start
            postfix_loop n (scoped e name s))
          (branch (check l_bracket)
            (do
              start ← current_span
              advance
              index ← c.parse_expr
              expect r_bracket
              s ← span_from start
              postfix_loop n (
                  method_call
                    (call (some_expr e) index_name (cons_expr index no_exprs) no_kwargs no_expr s)))
            (pure e)))

  unfoldable pub parse_postfix : Parse Expr
  parse_postfix = do e ← parse_primary; postfix_loop c.fuel e
