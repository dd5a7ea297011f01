-- ===== src/Parser/Statement.antt =====
-- crates/jdruby-parser/src/parser.rs: `parse_stmt`, the recursion and `parse`.
use jdruby.Base.{ℕ, zero, suc, Bool, false, Option, some, none, List, [], ◌∷◌, ◌++◌}
use jdruby.Common.Source.{SourceSpan, merge}
use jdruby.Lexer.Token.{
  TokenKind, Token, kw_def, kw_class, kw_module, kw_if, kw_unless, kw_while, kw_until, kw_for,
  kw_case, kw_begin, kw_return, kw_break, kw_next, kw_yield, kw_alias, kw_require,
  kw_require_relative, kw_attr_reader, kw_attr_writer, kw_attr_accessor, kw_include, kw_extend,
  kw_prepend, equal, plus_equal, minus_equal, star_equal, slash_equal, percent_equal,
  double_star_equal, amp_amp_equal, pipe_pipe_equal, amp_equal, pipe_equal, caret_equal,
  less_less_equal, greater_greater_equal,
}
use jdruby.Ast.{
  Text, BinOperator, Expr, local_var, instance_var, class_var, global_var, const_ref, AssignTarget,
  local_target, instance_target, class_target, global_target, constant_target, Stmt, expr_stmt,
  if_stmt, unless_stmt, while_stmt, until_stmt, assignment, compound_assignment, Stmts, no_stmts,
  cons_stmt, no_elsifs, no_body, Program,
}
use jdruby.Parser.State.{
  invalid_target, new_parser, Parsed, parsed, failed, panicked, out_of_fuel, Parse, ◌>>=◌, ◌>>◌,
  pure, give_up, on_current, branch, branch_end, check, advance, error, none_here, current_span,
  span_from, skip_newlines, skip_terminators,
}
use jdruby.Parser.Calls.{Calls, branch_op, body_loop}
use jdruby.Parser.Expression.{parse_ternary}
use jdruby.Parser.Definitions.{
  parse_alias_stmt, parse_require_stmt, parse_attr_decl, parse_mixin_stmt, parse_return_stmt,
  parse_break_stmt, parse_next_stmt, parse_yield_stmt, parse_method_def, parse_class_def,
  parse_module_def,
}
use jdruby.Parser.Control.{
  parse_if_stmt, parse_unless_stmt, parse_while_stmt, parse_until_stmt, parse_for_stmt,
  parse_case_stmt, parse_begin_rescue,
}

unfoldable pub compound_assign_op : TokenKind → Option BinOperator
compound_assign_op plus_equal = some BinOperator.add
compound_assign_op minus_equal = some BinOperator.sub
compound_assign_op star_equal = some BinOperator.mul
compound_assign_op slash_equal = some BinOperator.div
compound_assign_op percent_equal = some BinOperator.mod_op
compound_assign_op double_star_equal = some BinOperator.pow
compound_assign_op amp_amp_equal = some BinOperator.and
compound_assign_op pipe_pipe_equal = some BinOperator.or
compound_assign_op amp_equal = some BinOperator.bit_and
compound_assign_op pipe_equal = some BinOperator.bit_or
compound_assign_op caret_equal = some BinOperator.bit_xor
compound_assign_op less_less_equal = some BinOperator.shl
compound_assign_op greater_greater_equal = some BinOperator.shr
compound_assign_op _ = none

-- `path.join("::")`
unfoldable pub join : List Text → Text
join [] = []
join (name ∷ []) = name
join (name ∷ next ∷ path) = name ++ (b':' ∷ b':' ∷ join (next ∷ path))

unfoldable pub expr_to_assign_target : Expr → Parse AssignTarget
expr_to_assign_target (local_var name s) = pure (local_target name)
expr_to_assign_target (instance_var name s) = pure (instance_target name)
expr_to_assign_target (class_var name s) = pure (class_target name)
expr_to_assign_target (global_var name s) = pure (global_target name)
expr_to_assign_target (const_ref path s) = pure (constant_target (join path))
expr_to_assign_target _ = error invalid_target >> none_here

-- The statement alone in a body.
abbrev pub alone : Expr → SourceSpan → Stmts
alone e s = cons_stmt (expr_stmt e s) no_stmts

abbrev pub never : TokenKind → Bool
never k = false

module _ (c : Calls) where
  -- Behind `=`.
  unfoldable pub assign_rest : SourceSpan → Expr → Parse Stmt
  assign_rest start e = do
    value ← c.parse_expr
    target ← expr_to_assign_target e
    s ← span_from start
    pure (assignment target value s)

  unfoldable pub compound_rest : SourceSpan → Expr → BinOperator → Parse Stmt
  compound_rest start e op = do
    advance
    value ← c.parse_expr
    target ← expr_to_assign_target e
    s ← span_from start
    pure (compound_assignment target op value s)

  -- A postfix modifier, from its word on.
  unfoldable pub modifier : SourceSpan → (Expr → SourceSpan → Stmt) → Parse Stmt
  modifier start node = do
    advance
    condition ← c.parse_expr
    s ← span_from start
    pure (node condition s)

  unfoldable pub parse_expr_or_assignment_stmt : Parse Stmt
  parse_expr_or_assignment_stmt = do
    start ← current_span
    e ← c.parse_expr
    branch (check equal) (do advance; assign_rest start e)
        (branch_op compound_assign_op (compound_rest start e) (
          branch (check kw_if)
            (modifier start (λ cond s. if_stmt cond (alone e s) no_elsifs no_body s))
            (branch (check kw_unless)
              (modifier start (λ cond s. unless_stmt cond (alone e s) no_body s))
              (branch (check kw_while) (modifier start (λ cond s. while_stmt cond (alone e s) s)) (
                branch (check kw_until) (modifier start (λ cond s. until_stmt cond (alone e s) s))
                  (do s ← span_from start; pure (expr_stmt e s)))))))

  -- The `match` of `parse_stmt`.
  unfoldable pub stmt_of : TokenKind → Parse Stmt
  stmt_of kw_def = parse_method_def c
  stmt_of kw_class = parse_class_def c
  stmt_of kw_module = parse_module_def c
  stmt_of kw_if = parse_if_stmt c
  stmt_of kw_unless = parse_unless_stmt c
  stmt_of kw_while = parse_while_stmt c
  stmt_of kw_until = parse_until_stmt c
  stmt_of kw_for = parse_for_stmt c
  stmt_of kw_case = parse_case_stmt c
  stmt_of kw_begin = parse_begin_rescue c
  stmt_of kw_return = parse_return_stmt c
  stmt_of kw_break = parse_break_stmt c
  stmt_of kw_next = parse_next_stmt c
  stmt_of kw_yield = parse_yield_stmt c
  stmt_of kw_alias = parse_alias_stmt
  stmt_of kw_require = parse_require_stmt
  stmt_of kw_require_relative = parse_require_stmt
  stmt_of kw_attr_reader = parse_attr_decl c
  stmt_of kw_attr_writer = parse_attr_decl c
  stmt_of kw_attr_accessor = parse_attr_decl c
  stmt_of kw_include = parse_mixin_stmt c
  stmt_of kw_extend = parse_mixin_stmt c
  stmt_of kw_prepend = parse_mixin_stmt c
  stmt_of _ = parse_expr_or_assignment_stmt

  -- `skip_terminators` runs where there is no statement too.
  abbrev pub end_stmt : Parsed Stmt → Parsed Stmt
  end_stmt (parsed stmt s) = (skip_terminators >> pure stmt) s
  end_stmt (failed s) = (skip_terminators >> none_here) s
  end_stmt panicked = panicked
  end_stmt out_of_fuel = out_of_fuel

  unfoldable pub parse_stmt : Parse Stmt
  parse_stmt = do
    skip_newlines
    branch_end never none_here (λ s. end_stmt (on_current (λ t. stmt_of t.kind) s))

-- The functions that parse an expression and a statement with so many calls inside one another.
unfoldable pub calls : (Text → ℕ) → ℕ → Calls
calls float_of zero = record {
  parse_expr = give_up;
  parse_stmt = give_up;
  float_of = float_of;
  fuel = 1;
}
calls float_of (suc n) =
    let c = calls float_of n in
    record {
      parse_expr = parse_ternary c;
      parse_stmt = parse_stmt c;
      float_of = float_of;
      fuel = suc (suc n);
    }

-- A statement that is not found costs the token at which it is missed.
unfoldable pub parse_program : Calls → Parse Program
parse_program c = do
  start ← current_span
  skip_newlines
  body ← body_loop c never (λ pos_before. advance >> pure tt) c.fuel
  end ← current_span
  pure (record { body = body; span = merge start end })

-- `Parser::new(tokens).parse()`; the state at the end holds the diagnostics.
unfoldable pub parse : (Text → ℕ) → ℕ → List Token → Parsed Program
parse float_of n tokens = parse_program (calls float_of n) (new_parser tokens)
