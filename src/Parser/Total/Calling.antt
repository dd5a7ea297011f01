-- ===== src/Parser/Total/Calling.antt =====
-- The promises of calls, primary and postfix expressions.
use jdruby.Base.{
  ℕ, zero, suc, ◌+◌, ◌≡◌, ◌≤◌, ◌<◌, refl, inl, inr, true, false, Bool-cases, some, arith, length,
  leb,
}
use jdruby.Common.Source.{SourceSpan}
use jdruby.Lexer.Token.{
  TokenKind, Token, r_bracket, r_paren, integer, float, string_double, string_single, symbol,
  kw_true, kw_false, kw_nil, kw_self, identifier, constant, l_paren, l_bracket, l_brace, arrow,
  kw_lambda, kw_proc, kw_defined, kw_super, kw_puts, kw_print, kw_p, kw_raise,
}
use jdruby.Ast.{Text, Expr, Stmts, MethodCall}
use jdruby.Parser.State.{Parser, Parse, check, on_current, token_at, unexpected}
use jdruby.Parser.Calls.{Calls}
use jdruby.Parser.Calling.{
  block_with, parse_block_call, parse_method_call_on, trailing_block, parse_identifier_expr,
  parse_constant_expr, parse_builtin_call, one_token, parse_parens, primary_of, parse_primary,
  postfix_loop, parse_postfix, span, call_span,
}
use jdruby.Parser.Total.Primary.{
  parse_string-Post, parse_array_lit-Takes, parse_hash_lit-Takes, brace_body-Runs, end_body-Runs,
  parse_lambda-Takes, parse_lambda_body-Runs, piped_params-Runs, parse_proc-Takes, paren_args-Runs,
  parse_super-Takes, parse_defined-Takes,
}
use jdruby.Parser.Kinds.{kind_index}
use jdruby.Parser.Runs.{
  Plain, Valid, Post, Runs, Takes, keep-Runs, eat-Runs, take-Takes, read-Takes, read-Runs,
}
use jdruby.Parser.Current.{token_at-Valid, eof_of, advance-Takes}
use jdruby.Parser.Branches.{
  branch-Runs, branch-keeps, fork-Runs, fork-Takes, none-Runs, pure-Runs, Runs-weaken, later,
  weaken, Runs-Takes,
}
use jdruby.Parser.Helpers.{
  current_span-Reads, lexeme-Reads, span_from-Reads, prev_span-Reads, fail_with-Runs, expect-Runs,
  expect_ident_or_const-Runs,
}
use jdruby.Parser.Total.Lists.{Given, expr-at, parse_arg_list-Runs, parse_bare_arg_list-Runs}

module _ (c : Calls) (w : ℕ) (g : Given c w) where
  block_with-Takes :
      (m : MethodCall) {body : Parse Stmts} → Runs 0 w body → Takes w (block_with c m body)
  unfolding block_with
  block_with-Takes m h = take-Takes advance-Takes λ _.
      keep-Runs (piped_params-Runs c w g)
        λ params. keep-Runs h λ b. read-Runs (span_from-Reads (call_span m)) λ s. pure-Runs _

  parse_block_call-Takes : (m : MethodCall) → Takes w (parse_block_call c m)
  unfolding parse_block_call
  parse_block_call-Takes m =
      fork-Takes _ (block_with-Takes m (brace_body-Runs c w g))
        (block_with-Takes m (end_body-Runs c w g))

  trailing_block-Runs : (m : MethodCall) → Runs 0 w (trailing_block c m)
  unfolding trailing_block kind_index
  trailing_block-Runs m = branch-keeps _ (omega arith) refl (parse_block_call-Takes m) (pure-Runs _)

  parse_method_call_on-Runs : (e : Expr) → Runs 0 w (parse_method_call_on c e)
  unfolding parse_method_call_on
  parse_method_call_on-Runs e = keep-Runs (later expect_ident_or_const-Runs) λ method.
      keep-Runs (paren_args-Runs c w g (fork-Runs _ (parse_bare_arg_list-Runs c w g) (pure-Runs _)))
        λ r. read-Runs (span_from-Reads (span e)) λ s. pure-Runs _

  parse_identifier_expr-Takes : Takes w (parse_identifier_expr c)
  unfolding parse_identifier_expr kind_index
  parse_identifier_expr-Takes = read-Takes current_span-Reads λ start.
      read-Takes lexeme-Reads λ name. take-Takes advance-Takes λ _.
        branch-keeps _ (omega arith) refl
          (take-Takes advance-Takes λ _. keep-Runs (parse_arg_list-Runs c w g r_paren) λ r.
            keep-Runs (later (expect-Runs r_paren refl))
              λ _. read-Runs (span_from-Reads start) λ s. trailing_block-Runs _)
          (branch-keeps _ (omega arith) refl (parse_block_call-Takes _) (
            fork-Runs _
              (keep-Runs (parse_bare_arg_list-Runs c w g)
                λ r. read-Runs (span_from-Reads start) λ s. trailing_block-Runs _)
              (pure-Runs _)))

  parse_constant_expr-Takes : Takes w (parse_constant_expr c)
  unfolding parse_constant_expr
  parse_constant_expr-Takes =
      read-Takes current_span-Reads
        λ start. read-Takes lexeme-Reads λ name. take-Takes advance-Takes λ _. pure-Runs _

  parse_builtin_call-Takes : Takes w (parse_builtin_call c)
  unfolding parse_builtin_call
  parse_builtin_call-Takes = read-Takes current_span-Reads λ start.
      read-Takes lexeme-Reads λ method. take-Takes advance-Takes λ _.
        keep-Runs
          (paren_args-Runs c w g (fork-Runs _ (parse_bare_arg_list-Runs c w g) (pure-Runs _)))
          λ r. read-Runs (span_from-Reads start) λ s. pure-Runs _

  one_token-Takes : (node : Text → SourceSpan → Expr) → Takes w (one_token c node)
  unfolding one_token
  one_token-Takes node =
      read-Takes current_span-Reads
        λ s. read-Takes lexeme-Reads λ lex. take-Takes advance-Takes λ _. pure-Runs _

  parse_parens-Takes : Takes w (parse_parens c)
  unfolding parse_parens kind_index
  parse_parens-Takes = take-Takes advance-Takes λ _.
      keep-Runs (weaken g.expr) λ e. keep-Runs (later (expect-Runs r_paren refl)) λ _. pure-Runs e

  primary_of-Takes :
      (k : TokenKind)
      → check string_double k ≡ false
      → check string_single k ≡ false
      → Takes w (primary_of c k)
  unfolding primary_of kind_index
  primary_of-Takes integer d q = one_token-Takes _
  primary_of-Takes float d q = one_token-Takes _
  primary_of-Takes string_double d q = absurd (cc d)
  primary_of-Takes string_single d q = absurd (cc q)
  primary_of-Takes symbol d q = one_token-Takes _
  primary_of-Takes kw_true d q = one_token-Takes _
  primary_of-Takes kw_false d q = one_token-Takes _
  primary_of-Takes kw_nil d q = one_token-Takes _
  primary_of-Takes kw_self d q = one_token-Takes _
  primary_of-Takes identifier d q = parse_identifier_expr-Takes
  primary_of-Takes constant d q = parse_constant_expr-Takes
  primary_of-Takes TokenKind.instance_var d q = one_token-Takes _
  primary_of-Takes TokenKind.class_var d q = one_token-Takes _
  primary_of-Takes TokenKind.global_var d q = one_token-Takes _
  primary_of-Takes l_paren d q = parse_parens-Takes
  primary_of-Takes l_bracket d q = parse_array_lit-Takes c w g
  primary_of-Takes l_brace d q = parse_hash_lit-Takes c w g
  primary_of-Takes arrow d q = parse_lambda-Takes c w g
  primary_of-Takes kw_lambda d q = take-Takes advance-Takes λ _. parse_lambda_body-Runs c w g
  primary_of-Takes kw_proc d q = parse_proc-Takes c w g
  primary_of-Takes kw_defined d q = parse_defined-Takes c w g
  primary_of-Takes kw_super d q = parse_super-Takes c w g
  primary_of-Takes kw_puts d q = parse_builtin_call-Takes
  primary_of-Takes kw_print d q = parse_builtin_call-Takes
  primary_of-Takes kw_p d q = parse_builtin_call-Takes
  primary_of-Takes kw_raise d q = parse_builtin_call-Takes
  primary_of-Takes _ d q = Runs-Takes (fail_with-Runs unexpected)

  -- The arm of the kind of the current token, of which the strings are known to be quoted.
  primary_of-Post :
      (k : TokenKind) (s : Parser) (t : Token)
      → t.kind ≡ k
      → token_at s.pos s.tokens ≡ some t
      → Plain t
      → Valid s
      → length s.tokens < s.pos + suc w
      → s.pos < length s.tokens
      → Post 1 s (primary_of c k s)
  unfolding primary_of kind_index
  primary_of-Post string_double s t h e plain v l b =
      let (x, f, i) = plain.double (rw h refl) in parse_string-Post c w g true s t x v b e f i
  primary_of-Post string_single s t h e plain v l b =
      let (x, f) = plain.single (rw h refl) in parse_string-Post c w g false s t x v b e f refl
  primary_of-Post k s t h e plain v l b = (primary_of-Takes k refl refl).at s v l b

  pub parse_primary-Runs : Runs 1 (suc w) (parse_primary c)
  unfolding parse_primary primary_of on_current
  parse_primary-Runs = record {
    at = λ s v h.
        let (t, e, plain, past) = token_at-Valid s.pos s.tokens v.ends v.plain in
        elim (Bool-cases (leb (length s.tokens) s.pos)) [
          | inl over ↦
              rw e (rw (eof_of t.kind (past (ground arith))) ((fail_with-Runs unexpected).at s v h))
          | inr more ↦ rw e (primary_of-Post t.kind s t refl e plain v h (ground arith))
        ];
  }

  postfix_loop-Runs : (n v : ℕ) (e : Expr) → v ≤ n → v ≤ w → Runs 0 v (postfix_loop c n e)
  unfolding postfix_loop kind_index
  postfix_loop-Runs n zero e h k = none-Runs
  postfix_loop-Runs zero (suc v) e h k = absurd (omega arith)
  postfix_loop-Runs (suc n) (suc v) e h k =
      branch-Runs _ (omega arith) refl
        (take-Takes advance-Takes λ _.
          keep-Runs (Runs-weaken (omega arith) (omega arith) (parse_method_call_on-Runs e)) λ m.
            keep-Runs (Runs-weaken (omega arith) (omega arith) (trailing_block-Runs m))
              λ e'. postfix_loop-Runs n v e' (omega arith) (omega arith))
        (branch-Runs _ (omega arith) refl
          (take-Takes advance-Takes λ _. read-Runs prev_span-Reads λ start.
            keep-Runs (later expect_ident_or_const-Runs) λ name.
              read-Runs (span_from-Reads start)
                λ s. postfix_loop-Runs n v _ (omega arith) (omega arith))
          (branch-Runs _ (omega arith) refl
            (read-Takes current_span-Reads λ start. take-Takes advance-Takes λ _.
              keep-Runs (weaken (expr-at c w g (omega arith))) λ index.
                keep-Runs (later (expect-Runs r_bracket refl)) λ _.
                  read-Runs (span_from-Reads start)
                    λ s. postfix_loop-Runs n v _ (omega arith) (omega arith))
            (pure-Runs _)))

  pub parse_postfix-Runs : Runs 1 (suc w) (parse_postfix c)
  unfolding parse_postfix
  parse_postfix-Runs =
      eat-Runs (omega arith) parse_primary-Runs
        λ e. postfix_loop-Runs c.fuel w e (omega (arith, g.fuel)) (omega arith)
