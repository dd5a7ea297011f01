-- ===== src/Parser/Total/Program.antt =====
-- `parse` ends with a program, and never with `None`.
use jdruby.Base.{
  ℕ, zero, suc, ◌+◌, ◌*◌, ◌≡◌, ◌≤◌, refl, Bool, ◌||◌, Option, some, none, List, [], length, All,
  arith, if◌then◌else◌, if-both,
}
use jdruby.Lexer.Token.{TokenKind, Token}
use jdruby.Ast.{Text, Stmt, Program}
use jdruby.Parser.State.{
  Parser, new_parser, Parsed, parsed, failed, panicked, out_of_fuel, Parse, bind, ◌>>=◌, pure,
  give_up, on_current, with_token, token_at, branch, branch_end, is_at_end, advance, current_span,
  skip, skip_newlines,
}
use jdruby.Parser.Calls.{Calls, step_end, body_step, body_loop}
use jdruby.Parser.Statement.{calls, parse_program, parse, never}
use jdruby.Parser.Total.Statement.{calls-Given}
use jdruby.Parser.Runs.{Plain, EndsAtEof, Valid, Later, Post, Runs, keep-Runs, read-Runs}
use jdruby.Parser.Branches.{pure-Runs}
use jdruby.Parser.Helpers.{current_span-Reads, skip_newlines-Runs}
use jdruby.Parser.Total.Lists.{Given}
use jdruby.Parser.Total.Bodies.{body_loop-Runs, advance-Recovers}

abbrev IsCalm : {A : Type 0} → Parsed A → Type 0
IsCalm (parsed a s) = Unit
IsCalm (failed s) = ⊥
IsCalm panicked = Unit
IsCalm out_of_fuel = Unit

-- A function that never comes to `None`.
record Calm {A : Type 0} (p : Parse A) : Type 0 where
  at : (s : Parser) → IsCalm (p s)

IsCalm-bind :
    {A B : Type 0} (r : Parsed A) (f : A → Parse B)
    → IsCalm r
    → ((a : A) → Calm (f a))
    → IsCalm (bind r f)
IsCalm-bind (parsed a s) f h k = (k a).at s
IsCalm-bind (failed s) f h k = h
IsCalm-bind panicked f h k = tt
IsCalm-bind out_of_fuel f h k = tt

bind-Calm :
    {A B : Type 0} (p : Parse A) (f : A → Parse B)
    → Calm p
    → ((a : A) → Calm (f a))
    → Calm (p >>= f)
unfolding ◌>>=◌
bind-Calm p f h k = record { at = λ s. IsCalm-bind (p s) f (h.at s) k }

pure-Calm : {A : Type 0} (a : A) → Calm (pure a)
unfolding pure
pure-Calm a = record { at = λ s. tt }

IsCalm-with_token :
    {A : Type 0} (o : Option Token) (f : Token → Parse A) (s : Parser)
    → ((t : Token) → IsCalm (f t s))
    → IsCalm (with_token o f s)
IsCalm-with_token none f s h = tt
IsCalm-with_token (some t) f s h = h t

on_current-Calm :
    {A : Type 0} (f : Token → Parse A)
    → ((t : Token) (s : Parser) → IsCalm (f t s))
    → Calm (on_current f)
unfolding on_current
on_current-Calm f h = record {
  at = λ s. IsCalm-with_token (token_at s.pos s.tokens) f s λ t. h t s;
}

branch-Calm :
    {A : Type 0} (test : TokenKind → Bool) (p q : Parse A)
    → Calm p
    → Calm q
    → Calm (branch test p q)
unfolding branch
branch-Calm test p q hp hq =
    on_current-Calm (λ t s. if test t.kind then p s else q s)
      λ t s. if-both IsCalm (test t.kind) (hp.at s) (hq.at s)

advance-Calm : Calm advance
unfolding advance
advance-Calm = on_current-Calm _ λ t s. tt

current_span-Calm : Calm current_span
unfolding current_span pure
current_span-Calm = on_current-Calm _ λ t s. tt

skip-Calm : (test : TokenKind → Bool) (n : ℕ) → Calm (skip test n)
unfolding skip give_up
skip-Calm test zero = record { at = λ s. tt }
skip-Calm test (suc n) =
    branch-Calm test _ _ (bind-Calm advance _ advance-Calm λ _. skip-Calm test n) (pure-Calm tt)

skip_newlines-Calm : Calm skip_newlines
unfolding skip_newlines
skip_newlines-Calm = record { at = λ s. (skip-Calm _ (suc (length s.tokens))).at s }

step_end-IsCalm :
    (recover : ℕ → Parse (Unit {0})) (before : ℕ) (r : Parsed Stmt)
    → ((i : ℕ) → Calm (recover i))
    → IsCalm (step_end recover before r)
step_end-IsCalm recover before (parsed stmt s) h = tt
step_end-IsCalm recover before (failed s) h =
    IsCalm-bind (recover before s) _ ((h before).at s) λ _. pure-Calm none
step_end-IsCalm recover before panicked h = tt
step_end-IsCalm recover before out_of_fuel h = tt

body_loop-Calm :
    (c : Calls) (ends : TokenKind → Bool) (recover : ℕ → Parse (Unit {0})) (n : ℕ)
    → ((i : ℕ) → Calm (recover i))
    → Calm (body_loop c ends recover n)
unfolding body_loop body_step branch_end give_up
body_loop-Calm c ends recover zero h = record { at = λ s. tt }
body_loop-Calm c ends recover (suc n) h = on_current-Calm _ λ t s.
    if-both IsCalm (ends t.kind || is_at_end t.kind s) ((pure-Calm _).at s) (
      (bind-Calm (body_step c recover) _
          (record { at = λ s'. step_end-IsCalm recover s'.pos (c.parse_stmt s') h })
          λ stmt. bind-Calm skip_newlines _ skip_newlines-Calm λ _.
            bind-Calm (body_loop c ends recover n) _ (body_loop-Calm c ends recover n h)
              λ body. pure-Calm _).at
        s)

parse_program-Calm : (c : Calls) → Calm (parse_program c)
unfolding parse_program
parse_program-Calm c = bind-Calm current_span _ current_span-Calm λ start.
    bind-Calm skip_newlines _ skip_newlines-Calm λ _.
      bind-Calm (body_loop c never _ c.fuel) _
        (body_loop-Calm c never _ c.fuel λ i. bind-Calm advance _ advance-Calm λ _. pure-Calm tt)
        λ body. bind-Calm current_span _ current_span-Calm λ end. pure-Calm _

parse_program-Runs : (c : Calls) (w : ℕ) → Given c w → Runs 0 w (parse_program c)
unfolding parse_program
parse_program-Runs c w g = read-Runs current_span-Reads λ start. keep-Runs skip_newlines-Runs λ _.
    keep-Runs
      (body_loop-Runs c w g never _ advance-Recovers c.fuel w (omega (arith, g.fuel)) (omega arith))
      λ body. read-Runs current_span-Reads λ end. pure-Runs _

answer_of :
    {A : Type 0} (s : Parser) (r : Parsed A)
    → Post 0 s r
    → IsCalm r
    → (a : A) × (s' : Parser) × (r ≡ parsed a s') × Later 0 0 s s'
answer_of s (parsed a s') h k = (a, s', refl, h)
answer_of s (failed s') h k = absurd k
answer_of s panicked h k = absurd h
answer_of s out_of_fuel h k = absurd h

-- `parse` ends on every list of tokens whose last one is the end of the file, if no token is a
-- `when` and every string is quoted and holds no interpolation: it gives a program and neither
-- panics nor runs forever, and two nested calls for each token are enough, and five more. The
-- tokens stay as they are, and the position stays within them.
pub parse-total :
    (float_of : Text → ℕ) (tokens : List Token) (n : ℕ)
    → EndsAtEof tokens
    → All Plain tokens
    → 2 * length tokens + 5 ≤ n
    → (p : Program) × (s : Parser) × (parse float_of n tokens ≡ parsed p s)
      × (s.tokens ≡ tokens)
      × (s.pos ≤ length tokens)
unfolding parse new_parser
parse-total float_of tokens n ends plain h =
    let w = suc (length tokens) in
    let s : Parser = record { tokens = tokens; pos = 0; diagnostics = [] } in
    let v : Valid s = record { within = omega arith; ends = ends; plain = plain } in
    let c = calls float_of n in
    let runs = parse_program-Runs c w (calls-Given float_of n w (omega arith)) in
    let (p, s', e, l) =
      answer_of s (parse_program c s) (runs.at s v (omega arith)) ((parse_program-Calm c).at s) in
    (p, s', e, l.same, l.inside)
