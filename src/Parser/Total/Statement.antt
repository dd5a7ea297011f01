-- ===== src/Parser/Total/Statement.antt =====
-- The promises of `parse_stmt`, and the recursion.
use jdruby.Base.{
  ℕ, zero, suc, ◌+◌, ◌*◌, ◌≡◌, ◌≤◌, ◌<◌, refl, ap, false, ◌||◌, length, length-append, arith,
  if-either,
}
use jdruby.Common.Source.{SourceSpan}
use jdruby.Lexer.Token.{
  TokenKind, kw_def, kw_class, kw_module, kw_if, kw_unless, kw_while, kw_until, kw_for, kw_case,
  kw_begin, kw_return, kw_break, kw_next, kw_yield, kw_alias, kw_require, kw_require_relative,
  kw_attr_reader, kw_attr_writer, kw_attr_accessor, kw_include, kw_extend, kw_prepend,
}
use jdruby.Ast.{
  Text, BinOperator, Expr, local_var, instance_var, class_var, global_var, const_ref, Stmt,
}
use jdruby.Parser.State.{
  Message, Parser, Parsed, parsed, failed, panicked, out_of_fuel, Parse, bind, ◌>>=◌, ◌>>◌, pure,
  error, none_here, on_current, branch_end, is_at_end, skip_newlines, skip_terminators,
}
use jdruby.Parser.Calls.{Calls}
use jdruby.Parser.Statement.{
  compound_assign_op, expr_to_assign_target, assign_rest, compound_rest, modifier,
  parse_expr_or_assignment_stmt, stmt_of, end_stmt, parse_stmt, calls,
}
use jdruby.Parser.Total.Expression.{parse_ternary-Runs}
use jdruby.Parser.Total.Definitions.{
  parse_alias_stmt-Takes, parse_require_stmt-Takes, parse_attr_decl-Takes, parse_mixin_stmt-Takes,
  parse_return_stmt-Takes, parse_break_stmt-Takes, parse_next_stmt-Takes, parse_yield_stmt-Takes,
  parse_method_def-Takes, parse_class_def-Takes, parse_module_def-Takes,
}
use jdruby.Parser.Total.Control.{
  parse_if_stmt-Takes, parse_unless_stmt-Takes, parse_while_stmt-Takes, parse_until_stmt-Takes,
  parse_for_stmt-Takes, parse_case_stmt-Takes, parse_begin_rescue-Takes,
}
use jdruby.Parser.Kinds.{kind_index}
use jdruby.Parser.Runs.{
  Valid, Later, Later-refl, Later-trans, Later-weaken, Later-Valid, Post, Post-after, Runs, Takes,
  keep-Runs, eat-Runs, take-Takes, read-Runs,
}
use jdruby.Parser.Current.{token_at-Valid, before_end, advance-Takes}
use jdruby.Parser.Branches.{branch_op-keeps, branch-keeps, none-Runs, pure-Runs, weaken, Runs-Takes}
use jdruby.Parser.Helpers.{
  current_span-Reads, span_from-Reads, skip_newlines-Runs, skip_terminators-Runs,
}
use jdruby.Parser.Total.Lists.{Given, StmtPost, StmtRuns}

-- A diagnostic and `None`.
report-Runs : {A : Type 0} {w : ℕ} (m : Message) → Runs 0 w (error m >> none_here {A = A})
unfolding error on_current pure ◌>>=◌
report-Runs m = record {
  at = λ s v h.
      let (t, e, plain, past) = token_at-Valid s.pos s.tokens v.ends v.plain in
      rw e (record {
        same = refl;
        ahead = omega arith;
        inside = v.within;
        reported = omega (arith, length-append {0});
      });
}

expr_to_assign_target-Runs : {w : ℕ} (e : Expr) → Runs 0 w (expr_to_assign_target e)
unfolding expr_to_assign_target
expr_to_assign_target-Runs (local_var name s) = pure-Runs _
expr_to_assign_target-Runs (instance_var name s) = pure-Runs _
expr_to_assign_target-Runs (class_var name s) = pure-Runs _
expr_to_assign_target-Runs (global_var name s) = pure-Runs _
expr_to_assign_target-Runs (const_ref path s) = pure-Runs _
expr_to_assign_target-Runs _ = report-Runs _

StmtPost-after : {s s' : Parser} (r : Parsed Stmt) → Later 0 0 s s' → StmtPost s' r → StmtPost s r
StmtPost-after (parsed stmt t) l h = Later-trans l h
StmtPost-after (failed t) l h = Later-trans l h
StmtPost-after panicked l h = h
StmtPost-after out_of_fuel l h = h

StmtPost-Post : (s : Parser) (r : Parsed Stmt) → Post 1 s r → StmtPost s r
StmtPost-Post s (parsed stmt t) h = h
StmtPost-Post s (failed t) h = Later-weaken (omega arith) (omega arith) h
StmtPost-Post s panicked h = h
StmtPost-Post s out_of_fuel h = h

StmtPost-bind :
    {A : Type 0} (s : Parser) (r : Parsed A) (f : A → Parse Stmt)
    → Valid s
    → Post 0 s r
    → ((a : A) (s' : Parser) → Later 0 0 s s' → Valid s' → StmtPost s' (f a s'))
    → StmtPost s (bind r f)
StmtPost-bind s (parsed a s') f v l next = StmtPost-after (f a s') l (next a s' l (Later-Valid l v))
StmtPost-bind s (failed s') f v l next = Later-weaken (omega arith) (omega arith) l
StmtPost-bind s panicked f v l next = l
StmtPost-bind s out_of_fuel f v l next = l

terminators : (s : Parser) → Valid s → Post 0 s (skip_terminators s)
terminators s v = (skip_terminators-Runs {w = suc (length s.tokens)}).at s v (omega arith)

module _ (c : Calls) where
  end_stmt-Post : (s : Parser) (r : Parsed Stmt) → Valid s → Post 1 s r → StmtPost s (end_stmt c r)
  unfolding ◌>>=◌
  end_stmt-Post s (parsed stmt s') v l =
      let v' = Later-Valid l v in
      StmtPost-Post s (end_stmt c (parsed stmt s')) (
        Post-after 1 0 1 (end_stmt c (parsed stmt s')) (omega arith) l (
          (keep-Runs {w = suc (length s'.tokens)} skip_terminators-Runs λ _. pure-Runs stmt).at s'
            v' (omega arith)))
  end_stmt-Post s (failed s') v l =
      let v' = Later-Valid l v in
      StmtPost-after (end_stmt c (failed s')) (Later-weaken (omega arith) (omega arith) l) (
        StmtPost-bind s' (skip_terminators s') (λ _. none_here) v' (terminators s' v')
          λ a t l' v''. Later-refl v'')
  end_stmt-Post s panicked v l = l
  end_stmt-Post s out_of_fuel v l = l

module _ (c : Calls) (w : ℕ) (g : Given c w) (top : Runs 1 (suc w) c.parse_expr) where
  assign_rest-Runs : (start : SourceSpan) (e : Expr) → Runs 0 w (assign_rest c start e)
  unfolding assign_rest
  assign_rest-Runs start e = keep-Runs (weaken g.expr) λ value.
      keep-Runs (expr_to_assign_target-Runs e)
        λ target. read-Runs (span_from-Reads start) λ s. pure-Runs _

  compound_rest-Takes :
      (start : SourceSpan) (e : Expr) (op : BinOperator) → Takes w (compound_rest c start e op)
  unfolding compound_rest
  compound_rest-Takes start e op = take-Takes advance-Takes λ _. keep-Runs (weaken g.expr) λ value.
      keep-Runs (expr_to_assign_target-Runs e)
        λ target. read-Runs (span_from-Reads start) λ s. pure-Runs _

  modifier-Takes :
      (start : SourceSpan) (node : Expr → SourceSpan → Stmt) → Takes w (modifier c start node)
  unfolding modifier
  modifier-Takes start node =
      take-Takes advance-Takes λ _.
        keep-Runs (weaken g.expr) λ condition. read-Runs (span_from-Reads start) λ s. pure-Runs _

  parse_expr_or_assignment_stmt-Runs : Runs 1 (suc w) (parse_expr_or_assignment_stmt c)
  unfolding parse_expr_or_assignment_stmt compound_assign_op kind_index
  parse_expr_or_assignment_stmt-Runs = read-Runs current_span-Reads λ start.
      eat-Runs (omega arith) top λ e.
        branch-keeps _ (omega arith) refl (take-Takes advance-Takes λ _. assign_rest-Runs start e) (
          branch_op-keeps _ (omega arith) refl (compound_rest-Takes start e) (
            branch-keeps _ (omega arith) refl (modifier-Takes start _) (
              branch-keeps _ (omega arith) refl (modifier-Takes start _) (
                branch-keeps _ (omega arith) refl (modifier-Takes start _) (
                  branch-keeps _ (omega arith) refl (modifier-Takes start _)
                    (read-Runs (span_from-Reads start) λ s. pure-Runs _))))))

  stmt_of-Takes : (k : TokenKind) → Takes w (stmt_of c k)
  unfolding stmt_of
  stmt_of-Takes kw_def = parse_method_def-Takes c w g
  stmt_of-Takes kw_class = parse_class_def-Takes c w g
  stmt_of-Takes kw_module = parse_module_def-Takes c w g
  stmt_of-Takes kw_if = parse_if_stmt-Takes c w g
  stmt_of-Takes kw_unless = parse_unless_stmt-Takes c w g
  stmt_of-Takes kw_while = parse_while_stmt-Takes c w g
  stmt_of-Takes kw_until = parse_until_stmt-Takes c w g
  stmt_of-Takes kw_for = parse_for_stmt-Takes c w g
  stmt_of-Takes kw_case = parse_case_stmt-Takes c w g
  stmt_of-Takes kw_begin = parse_begin_rescue-Takes c w g
  stmt_of-Takes kw_return = parse_return_stmt-Takes c w g
  stmt_of-Takes kw_break = parse_break_stmt-Takes c w g
  stmt_of-Takes kw_next = parse_next_stmt-Takes c w g
  stmt_of-Takes kw_yield = parse_yield_stmt-Takes c w g
  stmt_of-Takes kw_alias = parse_alias_stmt-Takes
  stmt_of-Takes kw_require = parse_require_stmt-Takes
  stmt_of-Takes kw_require_relative = parse_require_stmt-Takes
  stmt_of-Takes kw_attr_reader = parse_attr_decl-Takes c w g
  stmt_of-Takes kw_attr_writer = parse_attr_decl-Takes c w g
  stmt_of-Takes kw_attr_accessor = parse_attr_decl-Takes c w g
  stmt_of-Takes kw_include = parse_mixin_stmt-Takes c w g
  stmt_of-Takes kw_extend = parse_mixin_stmt-Takes c w g
  stmt_of-Takes kw_prepend = parse_mixin_stmt-Takes c w g
  stmt_of-Takes _ = Runs-Takes parse_expr_or_assignment_stmt-Runs

  -- The statement that starts with the current token.
  stmt_here :
      (s : Parser)
      → Valid s
      → length s.tokens < s.pos + suc w
      → s.pos < length s.tokens
      → Post 1 s (on_current (λ t. stmt_of c t.kind) s)
  unfolding on_current
  stmt_here s v h b =
      let (t, e, plain, past) = token_at-Valid s.pos s.tokens v.ends v.plain in
      rw e ((stmt_of-Takes t.kind).at s v h b)

  pub parse_stmt-StmtRuns : StmtRuns (suc w) (parse_stmt c)
  unfolding parse_stmt branch_end on_current ◌>>=◌
  parse_stmt-StmtRuns = record {
    at = λ s v h. StmtPost-bind s (skip_newlines s) _ v (skip_newlines-Runs.at s v h) λ a s' l v'.
        let (t, e, plain, past) = token_at-Valid s'.pos s'.tokens v'.ends v'.plain in
        rw e (
          if-either (StmtPost s') (false || is_at_end t.kind s') (λ ends. Later-refl v')
            λ more. end_stmt-Post c s' _ v' (
              stmt_here s' v' (omega (arith, ap length l.same, l.ahead))
                (before_end false (length s'.tokens) s'.pos _ more)));
  }

-- With `n` calls inside one another the loops have more than `n` units of fuel.
pub calls_fuel : (float_of : Text → ℕ) (n : ℕ) → (calls float_of n).fuel ≡ suc n
unfolding calls
calls_fuel float_of zero = refl
calls_fuel float_of (suc n) = refl

-- Two calls for each token that is left are enough.
pub calls_lem :
    (float_of : Text → ℕ) (n w : ℕ)
    → (2 * w ≤ n → Runs 1 w (calls float_of n).parse_expr)
      × (2 * w + 1 ≤ n → StmtRuns w (calls float_of n).parse_stmt)
unfolding calls
calls_lem float_of n zero =
    (λ h. none-Runs, λ h. record { at = λ s v k. absurd (omega (arith, v.within)) })
calls_lem float_of zero (suc w) = (λ h. absurd (omega arith), λ h. absurd (omega arith))
calls_lem float_of (suc n) (suc w) =
    let (expr, stmt) = calls_lem float_of n w in
    let (top, below) = calls_lem float_of n (suc w) in
    let given : 2 * w + 1 ≤ n → Given (calls float_of n) w = λ h. record {
      expr = expr (omega arith);
      stmt = stmt h;
      fuel = omega (arith, calls_fuel float_of n);
    } in
    (
      λ h. parse_ternary-Runs (calls float_of n) w (given (omega arith)),
      λ h. parse_stmt-StmtRuns (calls float_of n) w (given (omega arith)) (top (omega arith)),
    )

pub calls-Given : (float_of : Text → ℕ) (n w : ℕ) → 2 * w + 1 ≤ n → Given (calls float_of n) w
calls-Given float_of n w h = record {
  expr = (calls_lem float_of n w).0 (omega arith);
  stmt = (calls_lem float_of n w).1 h;
  fuel = omega (arith, calls_fuel float_of n);
}
