-- ===== src/Parser/Total/Control.antt =====
-- The promises of the statements of control flow.
use jdruby.Base.{ℕ, zero, suc, ◌≡◌, ◌≤◌, refl, Bool, arith, false, if◌then◌else◌}
use jdruby.Lexer.Token.{TokenKind, Token, eof, kw_then, kw_do, kw_in, kw_end, kw_else, kw_ensure}
use jdruby.Parser.State.{Parse, check, branch}
use jdruby.Parser.Calls.{Calls}
use jdruby.Parser.Lists.{parse_body_until_end}
use jdruby.Parser.Control.{
  condition_before, clause_body, elsif_loop, parse_if_stmt, parse_unless_stmt, parse_while_stmt,
  parse_until_stmt, parse_for_stmt, exprs_loop, when_loop, parse_case_stmt, rescue_var, rescue_loop,
  parse_begin_rescue,
}
use jdruby.Parser.Total.Primary.{end_body-Runs}
use jdruby.Parser.Total.Definitions.{optional_expr-Runs}
use jdruby.Parser.Kinds.{kind_index}
use jdruby.Parser.Runs.{Plain, Runs, Takes, keep-Runs, eat-Runs, take-Takes, read-Takes, read-Runs}
use jdruby.Parser.Current.{on_current-Post, advance-Takes}
use jdruby.Parser.Branches.{
  branch-Runs, branch-keeps, fork-Runs, none-Runs, pure-Runs, Runs-weaken, later, weaken,
}
use jdruby.Parser.Helpers.{
  current_span-Reads, span_from-Reads, expect-Runs, expect_ident-Runs, skip_terminators-Runs,
  eat-keeps,
}
use jdruby.Parser.Total.Lists.{Given, expr-at}
use jdruby.Parser.Total.Bodies.{parse_body_until_end-Runs}

-- A test that no token passes.
never-Runs :
    {A : Type 0} {n w : ℕ} (test : TokenKind → Bool) (p : Parse A) {q : Parse A}
    → ((t : Token) → Plain t → test t.kind ≡ false)
    → Runs n w q
    → Runs n w (branch test p q)
unfolding branch
never-Runs {n = n} test p {q} never h = record {
  at = λ s v k.
      on_current-Post n (λ t s'. if test t.kind then p s' else q s') s v
        λ t plain past. rw (never t plain) (h.at s v k);
}

module _ (c : Calls) (w : ℕ) (g : Given c w) where
  condition_before-Runs :
      {v : ℕ} (word : TokenKind)
      → check word eof ≡ false
      → v ≤ w
      → Runs 0 v (condition_before c word)
  unfolding condition_before
  condition_before-Runs word stop k = keep-Runs (weaken (expr-at c w g k)) λ e.
      keep-Runs (later (eat-keeps word stop)) λ _. keep-Runs skip_terminators-Runs λ _. pure-Runs e

  body-at : {v : ℕ} → v ≤ w → Runs 0 v (parse_body_until_end c)
  body-at k = Runs-weaken (omega arith) k (parse_body_until_end-Runs c w g)

  clause_body-Runs : (word : TokenKind) → check word eof ≡ false → Runs 0 w (clause_body c word)
  unfolding clause_body
  clause_body-Runs word stop =
      branch-keeps _ (omega arith) stop
        (take-Takes advance-Takes λ _.
          keep-Runs skip_terminators-Runs λ _. keep-Runs (body-at (omega arith)) λ b. pure-Runs _)
        (pure-Runs _)

  elsif_loop-Runs : (n v : ℕ) → v ≤ n → v ≤ w → Runs 0 v (elsif_loop c n)
  unfolding elsif_loop kind_index
  elsif_loop-Runs n zero h k = none-Runs
  elsif_loop-Runs zero (suc v) h k = absurd (omega arith)
  elsif_loop-Runs (suc n) (suc v) h k =
      branch-Runs _ (omega arith) refl
        (read-Takes current_span-Reads λ es. take-Takes advance-Takes λ _.
          keep-Runs (condition_before-Runs kw_then refl (omega arith)) λ cond.
            keep-Runs (body-at (omega arith)) λ body. read-Runs (span_from-Reads es) λ s.
              keep-Runs (elsif_loop-Runs n v (omega arith) (omega arith)) λ others. pure-Runs _)
        (pure-Runs _)

  pub parse_if_stmt-Takes : Takes w (parse_if_stmt c)
  unfolding parse_if_stmt kind_index
  parse_if_stmt-Takes = read-Takes current_span-Reads λ start. take-Takes advance-Takes λ _.
      keep-Runs (condition_before-Runs kw_then refl (omega arith)) λ condition.
        keep-Runs (body-at (omega arith)) λ then_body.
          keep-Runs (elsif_loop-Runs c.fuel w (omega (arith, g.fuel)) (omega arith)) λ elsifs.
            keep-Runs (clause_body-Runs kw_else refl) λ else_body.
              keep-Runs (later (expect-Runs kw_end refl))
                λ _. read-Runs (span_from-Reads start) λ s. pure-Runs _

  pub parse_unless_stmt-Takes : Takes w (parse_unless_stmt c)
  unfolding parse_unless_stmt kind_index
  parse_unless_stmt-Takes = read-Takes current_span-Reads λ start. take-Takes advance-Takes λ _.
      keep-Runs (condition_before-Runs kw_then refl (omega arith)) λ condition.
        keep-Runs (body-at (omega arith)) λ body.
          keep-Runs (clause_body-Runs kw_else refl) λ else_body.
            keep-Runs (later (expect-Runs kw_end refl))
              λ _. read-Runs (span_from-Reads start) λ s. pure-Runs _

  pub parse_while_stmt-Takes : Takes w (parse_while_stmt c)
  unfolding parse_while_stmt kind_index
  parse_while_stmt-Takes = read-Takes current_span-Reads λ start. take-Takes advance-Takes λ _.
      keep-Runs (condition_before-Runs kw_do refl (omega arith)) λ condition.
        keep-Runs (end_body-Runs c w g) λ body. read-Runs (span_from-Reads start) λ s. pure-Runs _

  pub parse_until_stmt-Takes : Takes w (parse_until_stmt c)
  unfolding parse_until_stmt kind_index
  parse_until_stmt-Takes = read-Takes current_span-Reads λ start. take-Takes advance-Takes λ _.
      keep-Runs (condition_before-Runs kw_do refl (omega arith)) λ condition.
        keep-Runs (end_body-Runs c w g) λ body. read-Runs (span_from-Reads start) λ s. pure-Runs _

  pub parse_for_stmt-Takes : Takes w (parse_for_stmt c)
  unfolding parse_for_stmt kind_index
  parse_for_stmt-Takes = read-Takes current_span-Reads λ start. take-Takes advance-Takes λ _.
      keep-Runs (later expect_ident-Runs) λ var. keep-Runs (later (expect-Runs kw_in refl)) λ _.
        keep-Runs (condition_before-Runs kw_do refl (omega arith)) λ iterable.
          keep-Runs (end_body-Runs c w g) λ body. read-Runs (span_from-Reads start) λ s. pure-Runs _

  exprs_loop-Runs : (n v : ℕ) → v ≤ n → v ≤ w → Runs 0 v (exprs_loop c n)
  unfolding exprs_loop kind_index
  exprs_loop-Runs n zero h k = none-Runs
  exprs_loop-Runs zero (suc v) h k = absurd (omega arith)
  exprs_loop-Runs (suc n) (suc v) h k = eat-Runs (omega arith) (expr-at c w g k) λ e.
      branch-keeps _ (omega arith) refl
        (take-Takes advance-Takes
          λ _. keep-Runs (exprs_loop-Runs n v (omega arith) (omega arith)) λ es. pure-Runs _)
        (pure-Runs _)

  -- No token is a `when`.
  when_loop-Runs : (n v : ℕ) → v ≤ n → Runs 0 v (when_loop c n)
  unfolding when_loop
  when_loop-Runs n zero h = none-Runs
  when_loop-Runs zero (suc v) h = absurd (omega arith)
  when_loop-Runs (suc n) (suc v) h = never-Runs _ _ (λ t plain. plain.no_when) (pure-Runs _)

  pub parse_case_stmt-Takes : Takes w (parse_case_stmt c)
  unfolding parse_case_stmt kind_index
  parse_case_stmt-Takes = read-Takes current_span-Reads λ start. take-Takes advance-Takes λ _.
      keep-Runs (optional_expr-Runs c w g _) λ subject. keep-Runs skip_terminators-Runs λ _.
        keep-Runs (when_loop-Runs c.fuel w (omega (arith, g.fuel))) λ whens.
          keep-Runs (clause_body-Runs kw_else refl) λ else_body.
            keep-Runs (later (expect-Runs kw_end refl))
              λ _. read-Runs (span_from-Reads start) λ s. pure-Runs _

  rescue_var-Runs : {v : ℕ} → Runs 0 v (rescue_var c)
  unfolding rescue_var kind_index
  rescue_var-Runs =
      branch-keeps _ (omega arith) refl
        (take-Takes advance-Takes λ _. keep-Runs (later expect_ident-Runs) λ name. pure-Runs _)
        (pure-Runs _)

  rescue_loop-Runs : (n v : ℕ) → v ≤ n → v ≤ w → Runs 0 v (rescue_loop c n)
  unfolding rescue_loop kind_index
  rescue_loop-Runs n zero h k = none-Runs
  rescue_loop-Runs zero (suc v) h k = absurd (omega arith)
  rescue_loop-Runs (suc n) (suc v) h k =
      branch-Runs _ (omega arith) refl
        (read-Takes current_span-Reads λ rs. take-Takes advance-Takes λ _.
          keep-Runs
            (fork-Runs _ (pure-Runs _)
              (exprs_loop-Runs c.fuel v (omega (arith, g.fuel)) (omega arith)))
            λ exceptions. keep-Runs rescue_var-Runs λ var. keep-Runs skip_terminators-Runs λ _.
              keep-Runs (body-at (omega arith)) λ rbody. read-Runs (span_from-Reads rs) λ s.
                keep-Runs (rescue_loop-Runs n v (omega arith) (omega arith)) λ others. pure-Runs _)
        (pure-Runs _)

  pub parse_begin_rescue-Takes : Takes w (parse_begin_rescue c)
  unfolding parse_begin_rescue kind_index
  parse_begin_rescue-Takes = read-Takes current_span-Reads λ start. take-Takes advance-Takes λ _.
      keep-Runs skip_terminators-Runs λ _. keep-Runs (body-at (omega arith)) λ body.
        keep-Runs (rescue_loop-Runs c.fuel w (omega (arith, g.fuel)) (omega arith)) λ rescues.
          keep-Runs (clause_body-Runs kw_else refl) λ else_body.
            keep-Runs (clause_body-Runs kw_ensure refl) λ ensure_body.
              keep-Runs (later (expect-Runs kw_end refl))
                λ _. read-Runs (span_from-Reads start) λ s. pure-Runs _
