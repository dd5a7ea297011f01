-- ===== src/Parser/Branches.antt =====
-- The rules for the ways on at a test of the current token.
use jdruby.Base.{
  ℕ, zero, suc, ◌+◌, ◌≡◌, ◌≤◌, refl, ap, inl, inr, Bool, false, ◌||◌, ◌&&◌, Option, none,
  Option-cases, get_elem?, length, if◌then◌else◌, arith, if-both, if-either,
}
use jdruby.Lexer.Token.{TokenKind, eof, identifier, colon, kw_self, dot}
use jdruby.Parser.Calls.{choose, branch_op, branch_key, branch_self}
use jdruby.Parser.Kinds.{kind_index}
use jdruby.Parser.State.{Parse, pure, branch, branch_end, check, is_at_end, kind_or_eof}
use jdruby.Parser.Runs.{Later-refl, Post, Post-weaken, Runs, Takes, Reads}
use jdruby.Parser.Current.{on_current-Post, before_end, and_left, not_past, is_some}

module _ {A : Type 0} {w : ℕ} (test : TokenKind → Bool) {p q : Parse A} where
  pub branch-Runs :
      {n : ℕ}
      → n ≤ 1
      → test eof ≡ false
      → Takes w p
      → Runs n (suc w) q
      → Runs n (suc w) (branch test p q)
  unfolding branch
  branch-Runs {n} b stop hp hq = record {
    at = λ s v h.
        on_current-Post n (λ t s'. if test t.kind then p s' else q s') s v
          λ t plain past.
            if-either (Post n s) (test t.kind)
              (λ go.
                Post-weaken 1 n s (p s) b
                  (hp.at s v (omega arith) (not_past test s t v past stop go)))
              (λ no. hq.at s v h);
  }

  -- Neither way takes the token of the test.
  pub fork-Runs : {n : ℕ} → Runs n w p → Runs n w q → Runs n w (branch test p q)
  unfolding branch
  fork-Runs {n} hp hq = record {
    at = λ s v h.
        on_current-Post n (λ t s'. if test t.kind then p s' else q s') s v
          λ t plain past. if-both (Post n s) (test t.kind) (hp.at s v h) (hq.at s v h);
  }

  pub fork-Takes : Takes w p → Takes w q → Takes w (branch test p q)
  unfolding branch
  fork-Takes hp hq = record {
    at = λ s v h b.
        on_current-Post 1 (λ t s'. if test t.kind then p s' else q s') s v
          λ t plain past. if-both (Post 1 s) (test t.kind) (hp.at s v h b) (hq.at s v h b);
  }

  -- Behind the test a token is left.
  pub branch_end-Takes :
      {n : ℕ} → n ≤ 1 → Runs n (suc w) p → Takes w q → Runs n (suc w) (branch_end test p q)
  unfolding branch_end
  branch_end-Takes {n} b hp hq = record {
    at = λ s v h.
        on_current-Post n (λ t s'. if test t.kind || is_at_end t.kind s' then p s' else q s') s v
          λ t plain past.
            if-either (Post n s) (test t.kind || is_at_end t.kind s) (λ ends. hp.at s v h)
              λ more.
                Post-weaken 1 n s (q s) b (
                  hq.at s v (omega arith)
                    (before_end (test t.kind) (length s.tokens) s.pos _ more));
  }

  pub branch_end-Runs : {n : ℕ} → Runs n w p → Runs n w q → Runs n w (branch_end test p q)
  unfolding branch_end
  branch_end-Runs {n} hp hq = record {
    at = λ s v h.
        on_current-Post n (λ t s'. if test t.kind || is_at_end t.kind s' then p s' else q s') s v
          λ t plain past.
            if-both (Post n s) (test t.kind || is_at_end t.kind s) (hp.at s v h) (hq.at s v h);
  }

module _ {A : Type 0} where
  pub none-Runs : {n : ℕ} {p : Parse A} → Runs n zero p
  none-Runs = record { at = λ s v h. absurd (omega (arith, v.within)) }

  pub pure-Runs : {w : ℕ} (a : A) → Runs 0 w (pure a)
  unfolding pure
  pure-Runs a = record { at = λ s v h. Later-refl v }

  pub Runs-weaken : {n m v w : ℕ} {p : Parse A} → m ≤ n → v ≤ w → Runs n w p → Runs m v p
  Runs-weaken {n} {m} {p = p} b c h = record {
    at = λ s v k. Post-weaken n m s (p s) b (h.at s v (omega arith));
  }

module _ {A : Type 0} where
  -- What holds of one more token left holds after it.
  pub later : {n w : ℕ} {p : Parse A} → Runs n (suc w) p → Runs 0 w p
  later h = Runs-weaken (omega arith) (omega arith) h

  pub weaken : {n w : ℕ} {p : Parse A} → Runs n w p → Runs 0 w p
  weaken h = Runs-weaken (omega arith) (omega arith) h

  pub Takes-weaken : {v w : ℕ} {p : Parse A} → v ≤ w → Takes w p → Takes v p
  Takes-weaken c h = record { at = λ s v k b. h.at s v (omega arith) b }

  pub Reads-Runs : {w : ℕ} {p : Parse A} → Reads p → Runs 0 w p
  Reads-Runs h = record { at = λ s v k. let (a, e) = h.at s v in rw e (Later-refl v) }

  -- A choice by the operator that the current kind stands for.
  pub branch_op-Runs :
      {B : Type 0} {n w : ℕ} (op_of : TokenKind → Option B) {p : B → Parse A} {q : Parse A}
      → n ≤ 1
      → op_of eof ≡ none
      → ((b : B) → Takes w (p b))
      → Runs n (suc w) q
      → Runs n (suc w) (branch_op op_of p q)
  unfolding branch_op
  branch_op-Runs {n = n} op_of {p} {q} b stop hp hq = record {
    at = λ s v h.
        on_current-Post n (λ t s'. choose (op_of t.kind) p q s') s v
          λ t plain past. elim (Option-cases (op_of t.kind)) [
            | inl e ↦ rw e (hq.at s v h)
            | inr (op, e) ↦ rw e (
                Post-weaken 1 n s (p op s) b (
                  (hp op).at s v (omega arith) (
                    not_past (λ k. is_some (op_of k)) s t v past (ap is_some stop) (ap is_some e))))
          ];
  }

  pub branch_key-Runs :
      {n w : ℕ} {p q : Parse A}
      → n ≤ 1
      → Takes w p
      → Runs n (suc w) q
      → Runs n (suc w) (branch_key p q)
  unfolding branch_key kind_index
  branch_key-Runs {n} {w} {p} {q} b hp hq = record {
    at = λ s v h.
        on_current-Post n
          (λ t s'.
            if check identifier t.kind
              && check colon (kind_or_eof (get_elem? s'.tokens (s'.pos + 1)))
            then p s'
            else q s')
          s v
          λ t plain past.
            if-either (Post n s)
              (check identifier t.kind
                && check colon (kind_or_eof (get_elem? s.tokens (s.pos + 1))))
              (λ go. Post-weaken 1 n s (p s) b (
                hp.at s v (omega arith)
                  (not_past (check identifier) s t v past refl (and_left _ _ go))))
              (λ no. hq.at s v h);
  }

  pub branch_self-Runs :
      {n w : ℕ} {p q : Parse A}
      → n ≤ 1
      → Takes w p
      → Runs n (suc w) q
      → Runs n (suc w) (branch_self p q)
  unfolding branch_self kind_index
  branch_self-Runs {n} {w} {p} {q} b hp hq = record {
    at = λ s v h.
        on_current-Post n
          (λ t s'.
            if check kw_self t.kind && check dot (kind_or_eof (get_elem? s'.tokens (s'.pos + 1)))
            then p s'
            else q s')
          s v
          λ t plain past.
            if-either (Post n s)
              (check kw_self t.kind && check dot (kind_or_eof (get_elem? s.tokens (s.pos + 1))))
              (λ go. Post-weaken 1 n s (p s) b (
                hp.at s v (omega arith)
                  (not_past (check kw_self) s t v past refl (and_left _ _ go))))
              (λ no. hq.at s v h);
  }

branch_at :
    {A : Type 0} {n : ℕ} (w : ℕ) {p q : Parse A} (test : TokenKind → Bool)
    → n ≤ 1
    → test eof ≡ false
    → Takes w p
    → Runs n w q
    → Runs n w (branch test p q)
branch_at zero test b stop hp hq = none-Runs
branch_at (suc w) test b stop hp hq = branch-Runs test b stop (Takes-weaken (omega arith) hp) hq

-- The rule for `branch` where as many tokens may be left as before.
pub branch-keeps :
    {A : Type 0} {n w : ℕ} {p q : Parse A} (test : TokenKind → Bool)
    → n ≤ 1
    → test eof ≡ false
    → Takes w p
    → Runs n w q
    → Runs n w (branch test p q)
branch-keeps {w = w} = branch_at w

pub Runs-Takes : {A : Type 0} {w : ℕ} {p : Parse A} → Runs 1 (suc w) p → Takes w p
Runs-Takes h = record { at = λ s v k b. h.at s v (omega arith) }

branch_op_at :
    {A B : Type 0} {n : ℕ} (w : ℕ) {p : B → Parse A} {q : Parse A} (op_of : TokenKind → Option B)
    → n ≤ 1
    → op_of eof ≡ none
    → ((b : B) → Takes w (p b))
    → Runs n w q
    → Runs n w (branch_op op_of p q)
branch_op_at zero op_of b stop hp hq = none-Runs
branch_op_at (suc w) op_of b stop hp hq =
    branch_op-Runs op_of b stop (λ x. Takes-weaken (omega arith) (hp x)) hq

pub branch_op-keeps :
    {A B : Type 0} {n w : ℕ} {p : B → Parse A} {q : Parse A} (op_of : TokenKind → Option B)
    → n ≤ 1
    → op_of eof ≡ none
    → ((b : B) → Takes w (p b))
    → Runs n w q
    → Runs n w (branch_op op_of p q)
branch_op-keeps {w = w} = branch_op_at w
