-- ===== src/Parser/Helpers.antt =====
-- The promises of the token helpers of parser.rs.
use jdruby.Base.{
  ℕ, zero, suc, ◌≡◌, ◌≤◌, ◌<◌, refl, Bool, true, false, some, List, [], ◌∷◌, length, length-append,
  get_elem?, arith,
}
use jdruby.Common.Source.{SourceSpan, merge}
use jdruby.Lexer.Token.{TokenKind, Token, eof}
use jdruby.Parser.Kinds.{kind_index}
use jdruby.Parser.State.{
  Message, Parser, parsed, ◌>>=◌, ◌>>◌, pure, on_current, check, advance, error, fail_with,
  current_kind, current_span, lexeme, eat, expect, skip, is_newline, is_terminator, skip_newlines,
  skip_terminators, prev_span, span_before, span_from, expect_ident, expect_ident_or_const, span_of,
  span_before,
}
use jdruby.Parser.Runs.{Runs, Takes, Reads, take-Takes, read-Takes}
use jdruby.Parser.Current.{token_at-Valid, on_current-Reads, advance-Takes}
use jdruby.Parser.Branches.{branch-Runs, none-Runs, pure-Runs}

pub current_span-Reads : Reads current_span
unfolding current_span
current_span-Reads = on_current-Reads span_of

pub current_kind-Reads : Reads current_kind
unfolding current_kind
current_kind-Reads = on_current-Reads λ t. t.kind

pub lexeme-Reads : Reads lexeme
unfolding lexeme
lexeme-Reads = on_current-Reads λ t. t.lexeme

pub get_elem?-some :
    (ts : List Token) (i : ℕ) → i < length ts → (t : Token) × (get_elem? ts i ≡ some t)
get_elem?-some [] i h = absurd (omega arith)
get_elem?-some (t ∷ ts) zero h = (t, refl)
get_elem?-some (t ∷ ts) (suc i) h = get_elem?-some ts i (omega arith)

span_before-Reads :
    (i : ℕ) (s : Parser) → i ≤ length s.tokens → (a : SourceSpan) × (span_before i s ≡ parsed a s)
unfolding span_before pure
span_before-Reads zero s h = (record { start = 0; end = 0 }, refl)
span_before-Reads (suc i) s h =
    let (t, e) = get_elem?-some s.tokens i (omega arith) in (span_of t, rw e refl)

pub prev_span-Reads : Reads prev_span
unfolding prev_span
prev_span-Reads = record { at = λ s v. span_before-Reads s.pos s v.within }

pub span_from-Reads : (start : SourceSpan) → Reads (span_from start)
unfolding span_from ◌>>=◌ pure
span_from-Reads start = record {
  at = λ s v. let (a, e) = prev_span-Reads.at s v in (merge start a, rw e refl);
}

-- A diagnostic more, and `None`.
pub fail_with-Runs : {A : Type 0} {w : ℕ} (m : TokenKind → Message) → Runs 1 w (fail_with {A = A} m)
unfolding fail_with current_kind error ◌>>=◌ on_current pure
fail_with-Runs m = record {
  at = λ s v h.
      let (t, e, plain, past) = token_at-Valid s.pos s.tokens v.ends v.plain in
      rw (e, e)
        (record {
          same = refl;
          ahead = omega arith;
          inside = v.within;
          reported = omega (arith, length-append {0});
        });
}

pub eat-keeps : {w : ℕ} (k : TokenKind) → check k eof ≡ false → Runs 0 (suc w) (eat k)
unfolding eat
eat-keeps k stop =
    branch-Runs _ (omega arith) stop (take-Takes advance-Takes λ _. pure-Runs true)
      (pure-Runs false)

pub expect-Runs : {w : ℕ} (k : TokenKind) → check k eof ≡ false → Runs 1 (suc w) (expect k)
unfolding expect
expect-Runs k stop = branch-Runs _ (omega arith) stop advance-Takes (fail_with-Runs _)

ident-Takes : {w : ℕ} → Takes w (lexeme >>= λ s. advance >> pure s)
ident-Takes = read-Takes lexeme-Reads λ s. take-Takes advance-Takes λ _. pure-Runs s

pub expect_ident-Runs : {w : ℕ} → Runs 1 (suc w) expect_ident
unfolding expect_ident kind_index
expect_ident-Runs = branch-Runs _ (omega arith) refl ident-Takes (fail_with-Runs _)

pub expect_ident_or_const-Runs : {w : ℕ} → Runs 1 (suc w) expect_ident_or_const
unfolding expect_ident_or_const kind_index
expect_ident_or_const-Runs = branch-Runs _ (omega arith) refl ident-Takes (fail_with-Runs _)

-- With a unit of fuel for each token that is left, a loop that skips tokens ends.
skip-Runs : (test : TokenKind → Bool) (n w : ℕ) → test eof ≡ false → w ≤ n → Runs 0 w (skip test n)
unfolding skip
skip-Runs test n zero stop h = none-Runs
skip-Runs test zero (suc w) stop h = absurd (omega arith)
skip-Runs test (suc n) (suc w) stop h =
    branch-Runs test (omega arith) stop
      (take-Takes advance-Takes λ _. skip-Runs test n w stop (omega arith)) (pure-Runs tt)

skip_all-Runs :
    (test : TokenKind → Bool) {w : ℕ}
    → test eof ≡ false
    → Runs 0 w (λ s. skip test (suc (length s.tokens)) s)
skip_all-Runs test stop = record {
  at = λ s v h.
      (skip-Runs test (suc (length s.tokens)) (suc (length s.tokens)) stop (omega arith)).at s v
        (omega arith);
}

pub skip_newlines-Runs : {w : ℕ} → Runs 0 w skip_newlines
unfolding skip_newlines kind_index
skip_newlines-Runs = skip_all-Runs is_newline refl

pub skip_terminators-Runs : {w : ℕ} → Runs 0 w skip_terminators
unfolding skip_terminators kind_index
skip_terminators-Runs = skip_all-Runs is_terminator refl
