-- ===== src/Parser/Primary.antt =====
-- crates/jdruby-parser/src/parser.rs: the primary expressions but for calls.
use jdruby.Base.{
  ℕ, zero, suc, ◌==◌, ◌&&◌, ◌||◌, Bool, [], ◌∷◌, ◌++◌, length, Outcome, done, panic, Option, some,
  none, if◌then◌else◌,
}
use jdruby.Common.Source.{SourceSpan}
use jdruby.Lexer.Token.{
  comma, l_paren, r_paren, l_brace, r_brace, r_bracket, fat_arrow, colon, pipe, kw_do, kw_end,
}
use jdruby.Lexer.Scan.{Tokens, tokenize}
use jdruby.Ast.{
  Text, Expr, interpolated_string, array_lit, hash_lit, super_call, lambda, proc, defined,
  string_lit, Exprs, no_exprs, cons_expr, Entries, no_entries, cons_entry, StringParts, no_parts,
  literal, interpolation, OptExpr, no_expr, some_expr, Params, no_params, Stmts,
}
use jdruby.Parser.State.{
  new_parser, Parsed, parsed, failed, panicked, out_of_fuel, Parse, ◌>>=◌, ◌>>◌, pure, crash,
  give_up, branch, branch_end, check, advance, expect, current_span, prev_span, span_from, lexeme,
  skip_newlines,
}
use jdruby.Parser.Text.{unescape_string, interpolates}
use jdruby.Parser.Calls.{Calls, Args, no_args}
use jdruby.Parser.Lists.{
  parse_arg_list, parse_param_list, parse_block_params, parse_body_until_end,
  parse_body_until_rbrace,
}

-- The text of an interpolation up to its closing brace, and what follows it. The number is the
-- depth of open braces behind the first.
unfoldable pub braced : ℕ → Text → Text × Text
braced depth [] = ([], [])
braced zero (x ∷ xs) =
    let deeper = braced 1 xs in
    let same = braced 0 xs in
    if x == b'{'
    then (x ∷ deeper.0, deeper.1)
    else if x == b'}'
    then ([], xs)
    else (x ∷ same.0, same.1)
braced (suc depth) (x ∷ xs) =
    let deeper = braced (suc (suc depth)) xs in
    let closed = braced depth xs in
    let same = braced (suc depth) xs in
    if x == b'{'
    then (x ∷ deeper.0, deeper.1)
    else if x == b'}'
    then (x ∷ closed.0, closed.1)
    else (x ∷ same.0, same.1)

abbrev pub flush : Text → StringParts → StringParts
flush [] parts = parts
flush (x ∷ xs) parts = literal (x ∷ xs) parts

abbrev pub add_part : OptExpr → StringParts → StringParts
add_part no_expr parts = parts
add_part (some_expr e) parts = interpolation e parts

unfoldable pub text_or_crash : Outcome Text → Parse Text
text_or_crash (done value) = pure value
text_or_crash panic = crash

module _ (c : Calls) where
  -- The state of the outer parser stays; the diagnostics of the inner one are dropped.
  abbrev pub read_inner : Parsed Expr → Parse OptExpr
  read_inner (parsed e s') s = parsed (some_expr e) s
  read_inner (failed s') s = parsed no_expr s
  read_inner panicked s = panicked
  read_inner out_of_fuel s = out_of_fuel

  abbrev pub parse_tokens : Outcome (Option Tokens) → Parse OptExpr
  parse_tokens (done (some (tokens, ds))) = read_inner (c.parse_expr (new_parser tokens))
  parse_tokens (done none) = give_up
  parse_tokens panic = crash

  -- The loop of `parse_interpolated_string_fallback`, with the literal text read so far.
  unfoldable pub parts_loop : ℕ → Text → Text → Parse StringParts
  parts_loop n buf [] = pure (flush buf no_parts)
  parts_loop n buf (x ∷ []) = pure (flush (buf ++ x ∷ []) no_parts)
  parts_loop zero buf (x ∷ y ∷ xs) = give_up
  parts_loop (suc n) buf (x ∷ y ∷ xs) =
      if x == b'#' && y == b'{'
      then (let (inner, behind) = braced 0 xs in
          do
            e ← parse_tokens (tokenize inner)
            parts ← parts_loop n [] behind
            pure (flush buf (add_part e parts)))
      else parts_loop n (buf ++ x ∷ []) (y ∷ xs)

  unfoldable pub parse_interpolated_string_fallback : Text → SourceSpan → Parse Expr
  parse_interpolated_string_fallback s span = do
    parts ← parts_loop (length s) [] s
    pure (interpolated_string parts span)

  abbrev pub string_value : Bool → SourceSpan → Text → Parse Expr
  string_value double span value =
      if double && interpolates value
      then parse_interpolated_string_fallback value span
      else pure (string_lit value span)

  -- The arms of `parse_primary` for strings in double and in single quotes.
  unfoldable pub parse_string : Bool → Parse Expr
  parse_string double = do
    span ← current_span
    lex ← lexeme
    advance
    value ← text_or_crash (unescape_string lex)
    string_value double span value

  -- Behind a list's opening bracket.
  unfoldable pub element_loop : ℕ → Parse Exprs
  element_loop zero = give_up
  element_loop (suc n) = branch_end (check r_bracket) (pure no_exprs) (do
    e ← c.parse_expr
    skip_newlines
    branch (check comma) (do advance; skip_newlines; es ← element_loop n; pure (cons_expr e es))
        (pure (cons_expr e no_exprs)))

  unfoldable pub parse_array_lit : Parse Expr
  parse_array_lit = do
    start ← current_span
    advance
    skip_newlines
    elements ← element_loop c.fuel
    expect r_bracket
    span ← span_from start
    pure (array_lit elements span)

  -- What a key adds: nothing where no arrow or colon follows it.
  unfoldable pub parse_entry : Parse (Entries → Entries)
  parse_entry = do
    key ← c.parse_expr
    branch (λ k. check fat_arrow k || check colon k)
        (do advance; value ← c.parse_expr; pure (cons_entry key value)) (pure (λ entries. entries))

  unfoldable pub entry_loop : ℕ → Parse Entries
  entry_loop zero = give_up
  entry_loop (suc n) = branch_end (check r_brace) (pure no_entries) (do
    add ← parse_entry
    skip_newlines
    branch (check comma) (do advance; skip_newlines; es ← entry_loop n; pure (add es))
        (pure (add no_entries)))

  unfoldable pub parse_hash_lit : Parse Expr
  parse_hash_lit = do
    start ← current_span
    advance
    skip_newlines
    entries ← entry_loop c.fuel
    expect r_brace
    span ← span_from start
    pure (hash_lit entries span)

  -- Behind `{` and behind `do`.
  unfoldable pub brace_body : Parse Stmts
  brace_body = do b ← parse_body_until_rbrace c; expect r_brace; pure b

  unfoldable pub end_body : Parse Stmts
  end_body = do b ← parse_body_until_end c; expect kw_end; pure b

  unfoldable pub parse_lambda_body_from : SourceSpan → Parse Expr
  parse_lambda_body_from start = do
    params ←
        branch (check l_paren) (do advance; p ← parse_param_list c; expect r_paren; pure p)
          (pure no_params)
    body ← branch (check l_brace) (do advance; brace_body) (do expect kw_do; end_body)
    span ← span_from start
    pure (lambda params body span)

  unfoldable pub parse_lambda : Parse Expr
  parse_lambda = do start ← current_span; advance; parse_lambda_body_from start

  unfoldable pub parse_lambda_body : Parse Expr
  parse_lambda_body = do start ← prev_span; parse_lambda_body_from start

  -- `|params|`, or none.
  unfoldable pub piped_params : Parse Params
  piped_params =
      branch (check pipe) (do advance; p ← parse_block_params c; expect pipe; pure p)
        (pure no_params)

  unfoldable pub proc_body : SourceSpan → Parse Stmts → Parse Expr
  proc_body start body = do
    params ← piped_params
    b ← body
    span ← span_from start
    pure (proc params b span)

  unfoldable pub parse_proc : Parse Expr
  parse_proc = do
    start ← current_span
    advance
    branch (check l_brace) (do advance; proc_body start brace_body)
        (do expect kw_do; proc_body start end_body)

  -- `(args)`, or what stands for no parentheses.
  unfoldable pub paren_args : Parse Args → Parse Args
  paren_args others =
      branch (check l_paren) (do advance; r ← parse_arg_list c r_paren; expect r_paren; pure r)
        others

  unfoldable pub parse_super : Parse Expr
  parse_super = do
    start ← current_span
    advance
    r ← paren_args (pure no_args)
    span ← span_from start
    pure (super_call r.args span)

  unfoldable pub parse_defined : Parse Expr
  parse_defined = do
    start ← current_span
    advance
    e ← branch (check l_paren) (do advance; e ← c.parse_expr; expect r_paren; pure e) c.parse_expr
    span ← span_from start
    pure (defined e span)
