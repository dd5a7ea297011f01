-- ===== src/Parser/Total/Definitions.antt =====
-- The promises of definitions, jumps and the other short statements.
use jdruby.Base.{
  ℕ, zero, suc, ◌≡◌, ◌≤◌, refl, Bool, List, arith, done, Bool-cases, inl, inr, true, length-append,
}
use jdruby.Lexer.Token.{TokenKind, Token, r_paren, string_double}
use jdruby.Ast.{Text}
use jdruby.Parser.State.{
  Parse, ◌>>=◌, ◌>>◌, pure, check, none_here, error, on_current, lexeme, advance, expected_string,
  branch,
}
use jdruby.Parser.Text.{unescape_string}
use jdruby.Parser.Calls.{Calls}
use jdruby.Parser.Primary.{text_or_crash}
use jdruby.Parser.Definitions.{
  parse_alias_stmt, is_string, parse_require_stmt, name_and, names_loop, parse_attr_decl,
  parse_mixin_stmt, optional_expr, parse_return_stmt, parse_break_stmt, parse_next_stmt,
  parse_yield_stmt, class_method, optional_params, parse_method_def, parse_class_def,
  parse_module_def,
}
use jdruby.Parser.Total.Primary.{end_body-Runs, paren_args-Runs}
use jdruby.Parser.Kinds.{kind_index}
use jdruby.Parser.Runs.{Plain, Runs, Takes, keep-Runs, take-Takes, read-Takes, read-Runs}
use jdruby.Parser.Current.{token_at-Valid, advance-Later, advance-Takes, advance-Runs}
use jdruby.Parser.Branches.{
  branch-Runs, branch-keeps, fork-Runs, none-Runs, pure-Runs, later, weaken, branch_self-Runs,
}
use jdruby.Parser.Helpers.{
  current_span-Reads, current_kind-Reads, lexeme-Reads, span_from-Reads, expect-Runs,
  expect_ident_or_const-Runs, skip_terminators-Runs,
}
use jdruby.Parser.Total.Lists.{Given, parse_bare_arg_list-Runs, parse_param_list-Runs}

pub parse_alias_stmt-Takes : {w : ℕ} → Takes w parse_alias_stmt
unfolding parse_alias_stmt
parse_alias_stmt-Takes = read-Takes current_span-Reads λ start. take-Takes advance-Takes λ _.
    keep-Runs (later expect_ident_or_const-Runs) λ new_name.
      keep-Runs (later expect_ident_or_const-Runs)
        λ old_name. read-Runs (span_from-Reads start) λ s. pure-Runs _

name_and-Takes :
    {w : ℕ} (name_of : Text → Text) {others : Parse (List Text)}
    → Runs 0 w others
    → Takes w (name_and name_of others)
unfolding name_and kind_index
name_and-Takes name_of h = read-Takes lexeme-Reads λ lex. take-Takes advance-Takes λ _.
    branch-keeps _ (omega arith) refl
      (take-Takes advance-Takes λ _. keep-Runs h λ names. pure-Runs _) (pure-Runs _)

names_loop-Runs : (n v : ℕ) → v ≤ n → Runs 0 v (names_loop n)
unfolding names_loop kind_index
names_loop-Runs n zero h = none-Runs
names_loop-Runs zero (suc v) h = absurd (omega arith)
names_loop-Runs (suc n) (suc v) h =
    branch-Runs _ (omega arith) refl (name_and-Takes _ (names_loop-Runs n v (omega arith))) (
      branch-Runs _ (omega arith) refl (name_and-Takes _ (names_loop-Runs n v (omega arith)))
        (pure-Runs _))

-- The text of a string that is known to be quoted.
unescape_string-done :
    (t : Token)
    → Plain t
    → is_string t.kind ≡ true
    → (x : Text) × (unescape_string t.lexeme ≡ done x)
unescape_string-done t plain h = elim (Bool-cases (check string_double t.kind)) [
  | inl d ↦ let (x, f, i) = plain.double d in (x, f)
  | inr d ↦ plain.single (rw d at h)
]

path-Runs :
    {w : ℕ}
    → Runs 0 w (
        branch is_string
          (do lex ← lexeme; advance; text_or_crash (unescape_string lex))
          (error expected_string >> none_here))
unfolding branch lexeme advance text_or_crash error on_current pure ◌>>=◌
path-Runs = record {
  at = λ s v h.
      let (t, e, plain, past) = token_at-Valid s.pos s.tokens v.ends v.plain in
      elim (Bool-cases (is_string t.kind)) [
        | inl str ↦
            let (x, f) = unescape_string-done t plain str in
            rw e (rw str (rw e (rw e (rw f (advance-Later 0 s v (inr refl))))))
        | inr other ↦ rw e (
            rw other (
              rw e (record {
                same = refl;
                ahead = omega arith;
                inside = v.within;
                reported = omega (arith, length-append {0});
              })))
      ];
}

pub parse_require_stmt-Takes : {w : ℕ} → Takes w parse_require_stmt
unfolding parse_require_stmt
parse_require_stmt-Takes = read-Takes current_span-Reads λ start.
    read-Takes current_kind-Reads λ kind.
      take-Takes advance-Takes
        λ _. keep-Runs path-Runs λ path. read-Runs (span_from-Reads start) λ s. pure-Runs _

module _ (c : Calls) (w : ℕ) (g : Given c w) where
  pub parse_attr_decl-Takes : Takes w (parse_attr_decl c)
  unfolding parse_attr_decl
  parse_attr_decl-Takes = read-Takes current_span-Reads λ start.
      read-Takes current_kind-Reads λ kind. take-Takes advance-Takes λ _.
        keep-Runs (names_loop-Runs c.fuel w (omega (arith, g.fuel)))
          λ names. read-Runs (span_from-Reads start) λ s. pure-Runs _

  pub parse_mixin_stmt-Takes : Takes w (parse_mixin_stmt c)
  unfolding parse_mixin_stmt
  parse_mixin_stmt-Takes = read-Takes current_span-Reads λ start.
      read-Takes current_kind-Reads λ kind.
        take-Takes advance-Takes
          λ _. keep-Runs (weaken g.expr) λ e. read-Runs (span_from-Reads start) λ s. pure-Runs _

  pub optional_expr-Runs : (stops : TokenKind → Bool) → Runs 0 w (optional_expr c stops)
  unfolding optional_expr
  optional_expr-Runs stops =
      fork-Runs stops (pure-Runs _) (keep-Runs (weaken g.expr) λ e. pure-Runs _)

  pub parse_return_stmt-Takes : Takes w (parse_return_stmt c)
  unfolding parse_return_stmt
  parse_return_stmt-Takes = read-Takes current_span-Reads λ start. take-Takes advance-Takes λ _.
      keep-Runs (optional_expr-Runs _) λ value. read-Runs (span_from-Reads start) λ s. pure-Runs _

  pub parse_break_stmt-Takes : Takes w (parse_break_stmt c)
  unfolding parse_break_stmt
  parse_break_stmt-Takes = read-Takes current_span-Reads λ start. take-Takes advance-Takes λ _.
      keep-Runs (optional_expr-Runs _) λ value. read-Runs (span_from-Reads start) λ s. pure-Runs _

  pub parse_next_stmt-Takes : Takes w (parse_next_stmt c)
  unfolding parse_next_stmt
  parse_next_stmt-Takes = read-Takes current_span-Reads λ start. take-Takes advance-Takes λ _.
      keep-Runs (optional_expr-Runs _) λ value. read-Runs (span_from-Reads start) λ s. pure-Runs _

  pub parse_yield_stmt-Takes : Takes w (parse_yield_stmt c)
  unfolding parse_yield_stmt
  parse_yield_stmt-Takes = read-Takes current_span-Reads λ start. take-Takes advance-Takes λ _.
      keep-Runs (paren_args-Runs c w g (fork-Runs _ (parse_bare_arg_list-Runs c w g) (pure-Runs _)))
        λ r. read-Runs (span_from-Reads start) λ s. pure-Runs _

  class_method-Runs : {v : ℕ} → Runs 0 v (class_method c)
  unfolding class_method
  class_method-Runs = later (
      branch_self-Runs (omega arith)
        (take-Takes advance-Takes λ _. keep-Runs advance-Runs λ _. pure-Runs _) (pure-Runs _))

  optional_params-Runs : Runs 0 w (optional_params c)
  unfolding optional_params kind_index
  optional_params-Runs =
      branch-keeps _ (omega arith) refl
        (take-Takes advance-Takes λ _.
          keep-Runs (parse_param_list-Runs c w g)
            λ p. keep-Runs (later (expect-Runs r_paren refl)) λ _. pure-Runs p)
        (pure-Runs _)

  pub parse_method_def-Takes : Takes w (parse_method_def c)
  unfolding parse_method_def kind_index
  parse_method_def-Takes = read-Takes current_span-Reads λ start. take-Takes advance-Takes λ _.
      keep-Runs class_method-Runs λ is_class_method.
        keep-Runs (later expect_ident_or_const-Runs) λ name.
          keep-Runs optional_params-Runs λ params. keep-Runs skip_terminators-Runs λ _.
            branch-keeps _ (omega arith) refl
              (take-Takes advance-Takes λ _.
                keep-Runs (weaken g.expr) λ e. read-Runs (span_from-Reads start) λ s. pure-Runs _)
              (keep-Runs (end_body-Runs c w g)
                λ body. read-Runs (span_from-Reads start) λ s. pure-Runs _)

  pub parse_class_def-Takes : Takes w (parse_class_def c)
  unfolding parse_class_def kind_index
  parse_class_def-Takes = read-Takes current_span-Reads λ start. take-Takes advance-Takes λ _.
      keep-Runs (later expect_ident_or_const-Runs) λ name.
        keep-Runs
          (branch-keeps _ (omega arith) refl
            (take-Takes advance-Takes λ _. keep-Runs (weaken g.expr) λ e. pure-Runs _)
            (pure-Runs _))
          λ superclass. keep-Runs skip_terminators-Runs λ _.
            keep-Runs (end_body-Runs c w g)
              λ body. read-Runs (span_from-Reads start) λ s. pure-Runs _

  pub parse_module_def-Takes : Takes w (parse_module_def c)
  unfolding parse_module_def
  parse_module_def-Takes = read-Takes current_span-Reads λ start. take-Takes advance-Takes λ _.
      keep-Runs (later expect_ident_or_const-Runs) λ name. keep-Runs skip_terminators-Runs λ _.
        keep-Runs (end_body-Runs c w g) λ body. read-Runs (span_from-Reads start) λ s. pure-Runs _
