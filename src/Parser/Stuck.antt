-- ===== src/Parser/Stuck.antt =====
-- The parser at a token that starts no statement, a closing parenthesis.
use jdruby.Base.{
  ℕ, zero, suc, ◌≡◌, ◌<◌, refl, Bool, false, ◌||◌, ◌⊎◌, inl, inr, Option, some, none, length, arith,
}
use jdruby.Lexer.Token.{TokenKind, Token, r_paren}
use jdruby.Ast.{Text, BinOperator, Expr, Stmt}
use jdruby.Parser.Kinds.{kind_index}
use jdruby.Parser.State.{
  Parser, Parsed, parsed, failed, panicked, out_of_fuel, Parse, bind, ◌>>=◌, pure, give_up,
  token_at, on_current, branch, branch_end, is_at_end, current_kind, current_span, error, fail_with,
  is_newline, is_terminator, skip, skip_newlines, skip_terminators,
}
use jdruby.Parser.Calls.{Calls, branch_op, left_assoc, step_end, body_step, body_loop}
use jdruby.Parser.Lists.{ends_when, parse_body_until_when}
use jdruby.Parser.Calling.{primary_of, parse_primary, parse_postfix}
use jdruby.Parser.Expression.{
  unary_sign, unary_loop, parse_unary, power_loop, parse_power, parse_multiplicative,
  parse_additive, parse_shift, parse_bitand, parse_bitxor, parse_bitor, parse_range,
  parse_comparison, not_loop, parse_not, parse_and, parse_or, parse_ternary,
}
use jdruby.Parser.Statement.{
  parse_expr_or_assignment_stmt, stmt_of, end_stmt, parse_stmt, calls, never,
}

-- The current token is a closing parenthesis.
pub record Stuck (s : Parser) : Type 0 where
  pub token : Token
  pub here : token_at s.pos s.tokens ≡ some token
  pub closes : token.kind ≡ r_paren
  pub more : s.pos < length s.tokens

-- `None`, and no token is taken, unless the fuel ends before.
abbrev Refusal : {A : Type 0} → Parser → Parsed A → Type 0
Refusal s (parsed a s') = ⊥
Refusal s (failed s') = (s'.tokens ≡ s.tokens) × (s'.pos ≡ s.pos)
Refusal s panicked = ⊥
Refusal s out_of_fuel = Unit

record Refuses {A : Type 0} (p : Parse A) : Type 0 where
  at : (s : Parser) → Stuck s → Refusal s (p s)

Refusal-bind :
    {A B : Type 0} (s : Parser) (r : Parsed A) (f : A → Parse B)
    → Refusal s r
    → Refusal s (bind r f)
Refusal-bind s (parsed a s') f h = absurd h
Refusal-bind s (failed s') f h = h
Refusal-bind s panicked f h = h
Refusal-bind s out_of_fuel f h = h

first-Refuses : {A B : Type 0} {p : Parse A} (f : A → Parse B) → Refuses p → Refuses (p >>= f)
unfolding ◌>>=◌
first-Refuses {p = p} f h = record { at = λ s k. Refusal-bind s (p s) f (h.at s k) }

span-Refuses :
    {A : Type 0} {f : _ → Parse A} → ((a : _) → Refuses (f a)) → Refuses (current_span >>= f)
unfolding current_span on_current pure ◌>>=◌
span-Refuses h = record { at = λ s k. rw k.here ((h _).at s k) }

branch-Refuses :
    {A : Type 0} (test : TokenKind → Bool) (p : Parse A) {q : Parse A}
    → test r_paren ≡ false
    → Refuses q
    → Refuses (branch test p q)
unfolding branch on_current
branch-Refuses test p e h = record { at = λ s k. rw k.here (rw k.closes (rw e (h.at s k))) }

branch_op-Refuses :
    {A B : Type 0} (op_of : TokenKind → Option B) (p : B → Parse A) {q : Parse A}
    → op_of r_paren ≡ none
    → Refuses q
    → Refuses (branch_op op_of p q)
unfolding branch_op on_current
branch_op-Refuses op_of p e h = record { at = λ s k. rw k.here (rw k.closes (rw e (h.at s k))) }

give_up-Refuses : {A : Type 0} → Refuses (give_up {A = A})
unfolding give_up
give_up-Refuses = record { at = λ s k. tt }

left_assoc-Refuses :
    (fuel : ℕ) (op_of : TokenKind → Option BinOperator) {operand : Parse Expr}
    → Refuses operand
    → Refuses (left_assoc fuel op_of operand)
unfolding left_assoc
left_assoc-Refuses fuel op_of h = span-Refuses λ start. first-Refuses _ h

module _ (c : Calls) where
  parse_primary-Refuses : Refuses (parse_primary c)
  unfolding parse_primary primary_of fail_with current_kind error on_current pure ◌>>=◌
  parse_primary-Refuses = record {
    at = λ s k. rw k.here (rw k.closes (rw (k.here, k.here) (refl, refl)));
  }

  unary_loop-Refuses : (n : ℕ) → Refuses (unary_loop c n)
  unfolding unary_loop unary_sign parse_postfix
  unary_loop-Refuses zero = give_up-Refuses
  unary_loop-Refuses (suc n) =
      span-Refuses λ start. branch_op-Refuses _ _ refl (first-Refuses _ parse_primary-Refuses)

  power_loop-Refuses : (n : ℕ) → Refuses (power_loop c n)
  unfolding power_loop parse_unary
  power_loop-Refuses zero = give_up-Refuses
  power_loop-Refuses (suc n) = span-Refuses λ start. first-Refuses _ (unary_loop-Refuses c.fuel)

  parse_bitor-Refuses : Refuses (parse_bitor c)
  unfolding parse_power parse_multiplicative parse_additive parse_shift parse_bitand parse_bitxor
      parse_bitor
  parse_bitor-Refuses = left_assoc-Refuses _ _ (
      left_assoc-Refuses _ _ (
        left_assoc-Refuses _ _ (
          left_assoc-Refuses _ _
            (left_assoc-Refuses _ _ (left_assoc-Refuses _ _ (power_loop-Refuses c.fuel))))))

  not_loop-Refuses : (n : ℕ) → Refuses (not_loop c n)
  unfolding not_loop parse_comparison parse_range kind_index
  not_loop-Refuses zero = give_up-Refuses
  not_loop-Refuses (suc n) =
      branch-Refuses _ _ refl
        (left_assoc-Refuses _ _ (span-Refuses λ start. first-Refuses _ parse_bitor-Refuses))

  parse_ternary-Refuses : Refuses (parse_ternary c)
  unfolding parse_ternary parse_or parse_and parse_not
  parse_ternary-Refuses = span-Refuses λ start.
      first-Refuses _ (left_assoc-Refuses _ _ (left_assoc-Refuses _ _ (not_loop-Refuses c.fuel)))

-- Nothing is skipped.
skip-here :
    (test : TokenKind → Bool) (n : ℕ) (s : Parser)
    → test r_paren ≡ false
    → Stuck s
    → skip test (suc n) s ≡ parsed tt s
unfolding skip branch on_current pure
skip-here test n s e k = rw k.here (rw k.closes (rw e refl))

stays : {s s' : Parser} → (s'.tokens ≡ s.tokens) × (s'.pos ≡ s.pos) → Stuck s → Stuck s'
stays {s} {s'} (e, f) k = record {
  token = k.token;
  here = rw (e, f) k.here;
  closes = k.closes;
  more = rw (e, f) k.more;
}

expr-Refuses : (float_of : Text → ℕ) (n : ℕ) → Refuses (calls float_of n).parse_expr
unfolding calls
expr-Refuses float_of zero = give_up-Refuses
expr-Refuses float_of (suc n) = parse_ternary-Refuses (calls float_of n)

end_stmt-Refusal :
    (c : Calls) (s : Parser) (r : Parsed Stmt) → Stuck s → Refusal s r → Refusal s (end_stmt c r)
unfolding skip_terminators kind_index ◌>>=◌
end_stmt-Refusal c s (parsed stmt s') k h = absurd h
end_stmt-Refusal c s (failed s') k h =
    rw (skip-here is_terminator (length s'.tokens) s' refl (stays h k)) h
end_stmt-Refusal c s panicked k h = absurd h
end_stmt-Refusal c s out_of_fuel k h = tt

-- The end of the file is not reached.
not_at_end : (s : Parser) → Stuck s → (never r_paren || is_at_end r_paren s) ≡ false
unfolding kind_index
not_at_end s k = ground (arith, k.more)

-- Whatever may be the first token of an expression is looked for.
here-Refusal :
    (c : Calls) (s : Parser)
    → Refuses c.parse_expr
    → Stuck s
    → Refusal s (on_current (λ t. stmt_of c t.kind) s)
unfolding on_current stmt_of parse_expr_or_assignment_stmt
here-Refusal c s h k = rw k.here (rw k.closes ((span-Refuses λ start. first-Refuses _ h).at s k))

stmt-Refuses : (float_of : Text → ℕ) (n : ℕ) → Refuses (calls float_of n).parse_stmt
unfolding calls parse_stmt skip_newlines branch_end on_current kind_index ◌>>=◌
stmt-Refuses float_of zero = give_up-Refuses
stmt-Refuses float_of (suc n) = record {
  at = λ s k. rw (skip-here is_newline (length s.tokens) s refl k) (
      rw k.here (
        rw k.closes (
          rw (not_at_end s k) (
            end_stmt-Refusal (calls float_of n) s _ k
              (here-Refusal (calls float_of n) s (expr-Refuses float_of n) k)))));
}

-- The loop does nothing where no statement is found.
abbrev ignore : ℕ → Parse (Unit {0})
ignore pos_before = pure tt

step-here :
    (s : Parser) (r : Parsed Stmt)
    → Refusal s r
    → (step_end ignore s.pos r ≡ out_of_fuel)
      ⊎ ((s' : Parser) × (step_end ignore s.pos r ≡ parsed none s')
          × (s'.tokens ≡ s.tokens)
          × (s'.pos ≡ s.pos))
unfolding pure
step-here s (parsed stmt s') h = absurd h
step-here s (failed s') h = inr (s', refl, h.0, h.1)
step-here s panicked h = absurd h
step-here s out_of_fuel h = inl refl

-- The loop with what it does where no statement is found, which is nothing.
body_loop-hangs :
    (float_of : Text → ℕ) (n m : ℕ) (s : Parser)
    → Stuck s
    → body_loop (calls float_of n) ends_when ignore m s ≡ out_of_fuel
unfolding body_loop body_step branch_end skip_newlines on_current kind_index give_up ends_when ◌>>=◌
body_loop-hangs float_of n zero s k = refl
body_loop-hangs float_of n (suc m) s k = rw k.here (
    rw k.closes (
      rw (not_at_end s k)
        (elim (step-here s ((calls float_of n).parse_stmt s) ((stmt-Refuses float_of n).at s k)) [
          | inl e ↦ rw e refl
          | inr (s', e, f, g) ↦
              let k' = stays (f, g) k in
              rw e (
                rw (skip-here is_newline (length s'.tokens) s' refl k')
                  (rw (body_loop-hangs float_of n m s' k') refl))
        ])))

-- Where the body of a `when` begins with a closing parenthesis, `parse_body_until_when` never comes to
-- an end, whatever the fuel for its turns and for the calls inside one another: no statement is found
-- there, no token is taken, and the loop goes on at the same token.
pub parse_body_until_when-hangs :
    (float_of : Text → ℕ) (n : ℕ) (s : Parser)
    → Stuck s
    → parse_body_until_when (calls float_of n) s ≡ out_of_fuel
unfolding parse_body_until_when skip_newlines kind_index ◌>>=◌
parse_body_until_when-hangs float_of n s k =
    rw (skip-here is_newline (length s.tokens) s refl k)
      (body_loop-hangs float_of n (calls float_of n).fuel s k)
