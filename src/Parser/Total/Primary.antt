-- ===== src/Parser/Total/Primary.antt =====
-- The promises of the primary expressions but for calls.
use jdruby.Base.{ℕ, zero, suc, ◌≡◌, ◌≤◌, ◌<◌, refl, Bool, false, some, arith, length, ◌&&◌, done}
use jdruby.Common.Source.{SourceSpan}
use jdruby.Lexer.Token.{Token, r_bracket, r_brace, r_paren, kw_end, kw_do, pipe}
use jdruby.Ast.{Text, Stmts}
use jdruby.Parser.Text.{unescape_string, interpolates}
use jdruby.Parser.State.{
  Parser, Parse, ◌>>=◌, pure, on_current, token_at, current_span, lexeme, advance,
}
use jdruby.Parser.Calls.{Calls, Args}
use jdruby.Parser.Primary.{
  text_or_crash, parse_string, element_loop, parse_array_lit, parse_entry, entry_loop,
  parse_hash_lit, brace_body, end_body, parse_lambda_body_from, parse_lambda, parse_lambda_body,
  piped_params, proc_body, parse_proc, paren_args, parse_super, parse_defined,
}
use jdruby.Parser.Kinds.{kind_index}
use jdruby.Parser.Runs.{
  Valid, Post, Runs, Takes, keep-Runs, eat-Runs, take-Takes, read-Takes, read-Runs,
}
use jdruby.Parser.Current.{lt→ltb, advance-Takes}
use jdruby.Parser.Branches.{branch-keeps, branch_end-Runs, none-Runs, pure-Runs, later, weaken}
use jdruby.Parser.Helpers.{
  current_span-Reads, span_from-Reads, prev_span-Reads, expect-Runs, skip_newlines-Runs,
}
use jdruby.Parser.Total.Lists.{
  Given, expr-at, parse_arg_list-Runs, parse_param_list-Runs, parse_block_params-Runs,
}
use jdruby.Parser.Total.Bodies.{parse_body_until_end-Runs, parse_body_until_rbrace-Runs}

module _ (c : Calls) (w : ℕ) (g : Given c w) where
  -- A quoted string with no interpolation.
  pub parse_string-Post :
      (double : Bool) (s : Parser) (t : Token) (v : Text)
      → Valid s
      → s.pos < length s.tokens
      → token_at s.pos s.tokens ≡ some t
      → unescape_string t.lexeme ≡ done v
      → (double && interpolates v) ≡ false
      → Post 1 s (parse_string c double s)
  unfolding parse_string text_or_crash current_span lexeme advance on_current pure ◌>>=◌
  parse_string-Post double s t v valid b e f i = rw e (
      rw e (
        rw e (
          rw f (
            rw i (
              rw (lt→ltb s.pos (length s.tokens) b) (record {
                same = refl;
                ahead = omega arith;
                inside = omega arith;
                reported = omega arith;
              }))))))

  element_loop-Runs : (n v : ℕ) → v ≤ n → v ≤ w → Runs 0 v (element_loop c n)
  unfolding element_loop kind_index
  element_loop-Runs n zero h k = none-Runs
  element_loop-Runs zero (suc v) h k = absurd (omega arith)
  element_loop-Runs (suc n) (suc v) h k = branch_end-Runs _ (pure-Runs _) (
      eat-Runs (omega arith) (expr-at c w g k) λ e. keep-Runs skip_newlines-Runs λ _.
        branch-keeps _ (omega arith) refl
          (take-Takes advance-Takes λ _.
            keep-Runs skip_newlines-Runs
              λ _. keep-Runs (element_loop-Runs n v (omega arith) (omega arith)) λ es. pure-Runs _)
          (pure-Runs _))

  pub parse_array_lit-Takes : Takes w (parse_array_lit c)
  unfolding parse_array_lit kind_index
  parse_array_lit-Takes = read-Takes current_span-Reads λ start. take-Takes advance-Takes λ _.
      keep-Runs skip_newlines-Runs λ _.
        keep-Runs (element_loop-Runs c.fuel w (omega (arith, g.fuel)) (omega arith)) λ elements.
          keep-Runs (later (expect-Runs r_bracket refl))
            λ _. read-Runs (span_from-Reads start) λ s. pure-Runs _

  parse_entry-Runs : {v : ℕ} → suc v ≤ w → Runs 1 (suc v) (parse_entry c)
  unfolding parse_entry kind_index
  parse_entry-Runs k = eat-Runs (omega arith) (expr-at c w g k) λ key.
      branch-keeps _ (omega arith) refl
        (take-Takes advance-Takes
          λ _. keep-Runs (weaken (expr-at c w g (omega arith))) λ value. pure-Runs _)
        (pure-Runs _)

  entry_loop-Runs : (n v : ℕ) → v ≤ n → v ≤ w → Runs 0 v (entry_loop c n)
  unfolding entry_loop kind_index
  entry_loop-Runs n zero h k = none-Runs
  entry_loop-Runs zero (suc v) h k = absurd (omega arith)
  entry_loop-Runs (suc n) (suc v) h k = branch_end-Runs _ (pure-Runs _) (
      eat-Runs (omega arith) (parse_entry-Runs k) λ add. keep-Runs skip_newlines-Runs λ _.
        branch-keeps _ (omega arith) refl
          (take-Takes advance-Takes λ _.
            keep-Runs skip_newlines-Runs
              λ _. keep-Runs (entry_loop-Runs n v (omega arith) (omega arith)) λ es. pure-Runs _)
          (pure-Runs _))

  pub parse_hash_lit-Takes : Takes w (parse_hash_lit c)
  unfolding parse_hash_lit kind_index
  parse_hash_lit-Takes = read-Takes current_span-Reads λ start. take-Takes advance-Takes λ _.
      keep-Runs skip_newlines-Runs λ _.
        keep-Runs (entry_loop-Runs c.fuel w (omega (arith, g.fuel)) (omega arith)) λ entries.
          keep-Runs (later (expect-Runs r_brace refl))
            λ _. read-Runs (span_from-Reads start) λ s. pure-Runs _

  pub brace_body-Runs : Runs 0 w (brace_body c)
  unfolding brace_body kind_index
  brace_body-Runs =
      keep-Runs (parse_body_until_rbrace-Runs c w g)
        λ b. keep-Runs (later (expect-Runs r_brace refl)) λ _. pure-Runs b

  pub end_body-Runs : Runs 0 w (end_body c)
  unfolding end_body kind_index
  end_body-Runs =
      keep-Runs (parse_body_until_end-Runs c w g)
        λ b. keep-Runs (later (expect-Runs kw_end refl)) λ _. pure-Runs b

  parse_lambda_body_from-Runs : (start : SourceSpan) → Runs 0 w (parse_lambda_body_from c start)
  unfolding parse_lambda_body_from kind_index
  parse_lambda_body_from-Runs start =
      keep-Runs
        (branch-keeps _ (omega arith) refl
          (take-Takes advance-Takes λ _.
            keep-Runs (parse_param_list-Runs c w g)
              λ p. keep-Runs (later (expect-Runs r_paren refl)) λ _. pure-Runs p)
          (pure-Runs _))
        λ params.
          keep-Runs
            (branch-keeps _ (omega arith) refl (take-Takes advance-Takes λ _. brace_body-Runs)
              (keep-Runs (later (expect-Runs kw_do refl)) λ _. end_body-Runs))
            λ body. read-Runs (span_from-Reads start) λ s. pure-Runs _

  pub parse_lambda-Takes : Takes w (parse_lambda c)
  unfolding parse_lambda
  parse_lambda-Takes =
      read-Takes current_span-Reads
        λ start. take-Takes advance-Takes λ _. parse_lambda_body_from-Runs start

  pub parse_lambda_body-Runs : Runs 0 w (parse_lambda_body c)
  unfolding parse_lambda_body
  parse_lambda_body-Runs = read-Runs prev_span-Reads λ start. parse_lambda_body_from-Runs start

  pub piped_params-Runs : Runs 0 w (piped_params c)
  unfolding piped_params kind_index
  piped_params-Runs =
      branch-keeps _ (omega arith) refl
        (take-Takes advance-Takes λ _.
          keep-Runs (parse_block_params-Runs c w g)
            λ p. keep-Runs (later (expect-Runs pipe refl)) λ _. pure-Runs p)
        (pure-Runs _)

  proc_body-Runs :
      (start : SourceSpan) {body : Parse Stmts} → Runs 0 w body → Runs 0 w (proc_body c start body)
  unfolding proc_body
  proc_body-Runs start h =
      keep-Runs piped_params-Runs
        λ params. keep-Runs h λ b. read-Runs (span_from-Reads start) λ s. pure-Runs _

  pub parse_proc-Takes : Takes w (parse_proc c)
  unfolding parse_proc kind_index
  parse_proc-Takes = read-Takes current_span-Reads λ start. take-Takes advance-Takes λ _.
      branch-keeps _ (omega arith) refl
        (take-Takes advance-Takes λ _. proc_body-Runs start brace_body-Runs)
        (keep-Runs (later (expect-Runs kw_do refl)) λ _. proc_body-Runs start end_body-Runs)

  pub paren_args-Runs : {others : Parse Args} → Runs 0 w others → Runs 0 w (paren_args c others)
  unfolding paren_args kind_index
  paren_args-Runs h =
      branch-keeps _ (omega arith) refl
        (take-Takes advance-Takes λ _.
          keep-Runs (parse_arg_list-Runs c w g r_paren)
            λ r. keep-Runs (later (expect-Runs r_paren refl)) λ _. pure-Runs r)
        h

  pub parse_super-Takes : Takes w (parse_super c)
  unfolding parse_super
  parse_super-Takes = read-Takes current_span-Reads λ start. take-Takes advance-Takes λ _.
      keep-Runs (paren_args-Runs (pure-Runs _))
        λ r. read-Runs (span_from-Reads start) λ s. pure-Runs _

  pub parse_defined-Takes : Takes w (parse_defined c)
  unfolding parse_defined kind_index
  parse_defined-Takes = read-Takes current_span-Reads λ start. take-Takes advance-Takes λ _.
      keep-Runs
        (branch-keeps _ (omega arith) refl
          (take-Takes advance-Takes λ _.
            keep-Runs (weaken g.expr)
              λ e. keep-Runs (later (expect-Runs r_paren refl)) λ _. pure-Runs e)
          (weaken g.expr))
        λ e. read-Runs (span_from-Reads start) λ s. pure-Runs _
