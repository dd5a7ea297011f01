-- ===== src/Parser/Total/Bodies.antt =====
-- The promises of bodies and of the primary expressions made of them.
use mathlib.Core.Logic.{inl, inr}
use jdruby.Base.{
  ℕ, zero, suc, ◌+◌, ◌≡◌, ◌≤◌, ◌<◌, ◌==◌, ◌∙◌, refl, ap, Bool, arith, length, [], ◌∷◌, ◌++◌,
  Bool-cases, ltb, length-append,
}
use jdruby.Lexer.Token.{TokenKind}
use jdruby.Ast.{Stmt}
use jdruby.Parser.State.{
  Message, Parser, Parsed, parsed, failed, panicked, out_of_fuel, Parse, ◌>>=◌, ◌>>◌, pure,
  on_current, advance, error, current_kind,
}
use jdruby.Parser.Calls.{Calls, body_step, body_loop, skip_stuck, step_end}
use jdruby.Parser.Lists.{parse_body_until_end, parse_body_until_rbrace, ends_body}
use jdruby.Parser.Runs.{
  Valid, Later, Later-refl, Later-Valid, Post, Runs, Takes, keep-Runs, take-Takes,
}
use jdruby.Parser.Current.{token_at-Valid, lt→ltb}
use jdruby.Parser.Branches.{branch_end-Takes, none-Runs, pure-Runs}
use jdruby.Parser.Helpers.{skip_newlines-Runs}
use jdruby.Parser.Total.Lists.{Given, StmtPost}

-- What is done where no statement is found takes a token if none was taken.
pub record Recovers (recover : ℕ → Parse (Unit {0})) : Type 0 where
  pub at :
      (s : Parser) (before : ℕ)
      → Valid s
      → before ≤ s.pos
      → before < length s.tokens
      → (s' : Parser) × (recover before s ≡ parsed tt s') × Later 0 0 s s' × (before < s'.pos)

pub skip_stuck-Recovers : (m : TokenKind → Message) → Recovers (skip_stuck m)
unfolding skip_stuck current_kind error advance on_current pure ◌>>=◌
skip_stuck-Recovers m = record {
  at = λ s before v h b. elim (Bool-cases (s.pos == before)) [
    | inl same ↦
        let (t, e, plain, past) = token_at-Valid s.pos s.tokens v.ends v.plain in
        let inside : s.pos < length s.tokens = ground arith in
        (
          record {
            tokens = s.tokens;
            pos = s.pos + 1;
            diagnostics =
                s.diagnostics
                ++ record { message = m t.kind; span = record { start = t.start; end = t.end } }
                  ∷ [];
          },
          rw same (rw e (rw e (rw e (rw (lt→ltb s.pos (length s.tokens) inside) refl)))),
          record {
            same = refl;
            ahead = omega arith;
            inside = omega arith;
            reported = omega (arith, length-append {0});
          },
          ground arith,
        )
    | inr moved ↦ (s, rw moved refl, Later-refl v, ground arith)
  ];
}

-- `parse` takes a token in any case.
pub advance-Recovers : Recovers (λ before. advance >> pure tt)
unfolding advance on_current pure ◌>>=◌
advance-Recovers = record {
  at = λ s before v h b.
      let (t, e, plain, past) = token_at-Valid s.pos s.tokens v.ends v.plain in
      elim (Bool-cases (ltb s.pos (length s.tokens))) [
        | inl more ↦ (
          record s { pos = s.pos + 1 },
          rw e (rw more refl),
          record {
            same = refl;
            ahead = omega arith;
            inside = ground arith;
            reported = omega arith;
          },
          omega arith,
        )
        | inr none_left ↦ (s, rw e (rw none_left refl), Later-refl v, ground arith)
      ];
}

step_end-Post :
    (recover : ℕ → Parse (Unit {0}))
    → Recovers recover
    → (s : Parser) (r : Parsed Stmt) → Valid s
    → s.pos < length s.tokens
    → StmtPost s r
    → Post 1 s (step_end recover s.pos r)
unfolding pure
step_end-Post recover hr s (parsed stmt s') v b l = l
step_end-Post recover hr s (failed s') v b l =
    let (s'', e, l', moved) =
      hr.at s' s.pos (Later-Valid l v) (omega (arith, l.ahead)) (omega (arith, ap length l.same)) in
    rw e (record {
      same = l'.same ∙ l.same;
      ahead = omega arith;
      inside = omega (arith, ap length l.same, l'.inside);
      reported = omega (arith, l.reported, l'.reported);
    })
step_end-Post recover hr s panicked v b l = l
step_end-Post recover hr s out_of_fuel v b l = l

module _ (c : Calls) (w : ℕ) (g : Given c w) where
  body_step-Takes :
      (recover : ℕ → Parse (Unit {0})) {v : ℕ}
      → Recovers recover
      → suc v ≤ w
      → Takes v (body_step c recover)
  unfolding body_step
  body_step-Takes recover hr k = record {
    at = λ s v h b. step_end-Post recover hr s (c.parse_stmt s) v b (g.stmt.at s v (omega arith));
  }

  pub body_loop-Runs :
      (ends : TokenKind → Bool) (recover : ℕ → Parse (Unit {0}))
      → Recovers recover
      → (n v : ℕ) → v ≤ n
      → v ≤ w
      → Runs 0 v (body_loop c ends recover n)
  unfolding body_loop
  body_loop-Runs ends recover hr n zero h k = none-Runs
  body_loop-Runs ends recover hr zero (suc v) h k = absurd (omega arith)
  body_loop-Runs ends recover hr (suc n) (suc v) h k =
      branch_end-Takes ends (omega arith) (pure-Runs _) (
        take-Takes (body_step-Takes recover hr k) λ stmt. keep-Runs skip_newlines-Runs λ _.
          keep-Runs (body_loop-Runs ends recover hr n v (omega arith) (omega arith))
            λ body. pure-Runs _)

  pub parse_body_until_end-Runs : Runs 0 w (parse_body_until_end c)
  unfolding parse_body_until_end
  parse_body_until_end-Runs = keep-Runs skip_newlines-Runs λ _.
      body_loop-Runs ends_body _ (skip_stuck-Recovers _) c.fuel w (omega (arith, g.fuel))
        (omega arith)

  pub parse_body_until_rbrace-Runs : Runs 0 w (parse_body_until_rbrace c)
  unfolding parse_body_until_rbrace
  parse_body_until_rbrace-Runs =
      keep-Runs skip_newlines-Runs λ _.
        body_loop-Runs _ _ (skip_stuck-Recovers _) c.fuel w (omega (arith, g.fuel)) (omega arith)
