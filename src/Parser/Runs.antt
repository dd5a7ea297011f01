-- ===== src/Parser/Runs.antt =====
-- What a parsing function promises of every state that it is started in, and a rule for each way in
-- which the parser is put together.
use jdruby.Base.{
  ℕ, suc, ◌+◌, ◌≡◌, ◌≤◌, ◌<◌, ◌∙◌, refl, ap, true, false, List, [], ◌∷◌, length, All, arith, done,
}
use jdruby.Lexer.Token.{Token, eof, kw_when, string_double, string_single}
use jdruby.Ast.{Text}
use jdruby.Parser.Text.{unescape_string, interpolates}
use jdruby.Parser.State.{
  Parser, Parsed, parsed, failed, panicked, out_of_fuel, Parse, bind, ◌>>=◌, check,
}

-- No `when`, and the strings are quoted and hold no interpolation.
pub record Plain (t : Token) : Type 0 where
  pub no_when : check kw_when t.kind ≡ false
  pub double :
      check string_double t.kind ≡ true
      → (v : Text) × (unescape_string t.lexeme ≡ done v) × (interpolates v ≡ false)
  pub single : check string_single t.kind ≡ true → (v : Text) × (unescape_string t.lexeme ≡ done v)

-- The last token, and only it need be, is the end of the file.
abbrev pub EndsAtEof : List Token → Type 0
EndsAtEof [] = ⊥
EndsAtEof (t ∷ []) = check eof t.kind ≡ true
EndsAtEof (t ∷ u ∷ ts) = EndsAtEof (u ∷ ts)

pub record Valid (s : Parser) : Type 0 where
  pub within : s.pos ≤ length s.tokens
  pub ends : EndsAtEof s.tokens
  pub plain : All Plain s.tokens

-- `s'` is `s` after at least `n` more tokens, with at least `m` more diagnostics.
pub record Later (n m : ℕ) (s s' : Parser) : Type 0 where
  pub same : s'.tokens ≡ s.tokens
  pub ahead : s.pos + n ≤ s'.pos
  pub inside : s'.pos ≤ length s.tokens
  pub reported : length s.diagnostics + m ≤ length s'.diagnostics

-- An answer comes after `n` tokens at least, and `None` after a diagnostic; no panic, and no end of
-- the fuel.
abbrev pub Post : {A : Type 0} → ℕ → Parser → Parsed A → Type 0
Post n s (parsed a s') = Later n 0 s s'
Post n s (failed s') = Later 0 1 s s'
Post n s panicked = ⊥
Post n s out_of_fuel = ⊥

-- `p` keeps its promise where fewer than `w` tokens are left.
pub record Runs {A : Type 0} (n w : ℕ) (p : Parse A) : Type 0 where
  pub at : (s : Parser) → Valid s → length s.tokens < s.pos + w → Post n s (p s)

-- The same of code that starts with a token to take, of which fewer than `w` follow it.
pub record Takes {A : Type 0} (w : ℕ) (p : Parse A) : Type 0 where
  pub at :
      (s : Parser)
      → Valid s
      → length s.tokens < s.pos + suc w
      → s.pos < length s.tokens
      → Post 1 s (p s)

-- `p` only reads the state.
pub record Reads {A : Type 0} (p : Parse A) : Type 0 where
  pub at : (s : Parser) → Valid s → (a : A) × (p s ≡ parsed a s)

pub Later-Valid : {n m : ℕ} {s s' : Parser} → Later n m s s' → Valid s → Valid s'
Later-Valid {n} {m} {s} {s'} l v = record {
  within = rw l.same l.inside;
  ends = rw l.same v.ends;
  plain = rw l.same v.plain;
}

pub Later-trans :
    {n m n' m' : ℕ} {s s' s'' : Parser}
    → Later n m s s'
    → Later n' m' s' s''
    → Later (n + n') (m + m') s s''
Later-trans l l' = record {
  same = l'.same ∙ l.same;
  ahead = omega (arith, l.ahead, l'.ahead);
  inside = omega (arith, ap length l.same, l'.inside);
  reported = omega (arith, l.reported, l'.reported);
}

pub Later-weaken :
    {n m n' m' : ℕ} {s s' : Parser} → n' ≤ n → m' ≤ m → Later n m s s' → Later n' m' s s'
Later-weaken h h' l = record {
  same = l.same;
  ahead = omega (arith, l.ahead);
  inside = l.inside;
  reported = omega (arith, l.reported);
}

-- A result after a step.
pub Post-after :
    {A : Type 0} (n m k : ℕ) {s s' : Parser} (r : Parsed A)
    → k ≤ n + m
    → Later n 0 s s'
    → Post m s' r
    → Post k s r
Post-after n m k (parsed a t) h l p = Later-weaken h (omega arith) (Later-trans l p)
Post-after n m k (failed t) h l p = Later-weaken (omega arith) (omega arith) (Later-trans l p)
Post-after n m k panicked h l p = p
Post-after n m k out_of_fuel h l p = p

pub Post-weaken :
    {A : Type 0} (n k : ℕ) (s : Parser) (r : Parsed A) → k ≤ n → Post n s r → Post k s r
Post-weaken n k s (parsed a t) h l = Later-weaken h (omega arith) l
Post-weaken n k s (failed t) h l = l
Post-weaken n k s panicked h l = l
Post-weaken n k s out_of_fuel h l = l

Post-bind :
    {A B : Type 0} (n m k : ℕ) (s : Parser) (r : Parsed A) (f : A → Parse B)
    → k ≤ n + m
    → Valid s
    → Post n s r
    → ((a : A) (s' : Parser) → Later n 0 s s' → Valid s' → Post m s' (f a s'))
    → Post k s (bind r f)
Post-bind n m k s (parsed a s') f h v l next =
    Post-after n m k (f a s') h l (next a s' l (Later-Valid l v))
Post-bind n m k s (failed s') f h v l next = l
Post-bind n m k s panicked f h v l next = l
Post-bind n m k s out_of_fuel f h v l next = l

module _ {A B : Type 0} {w : ℕ} {p : Parse A} {f : A → Parse B} where
  pub keep-Runs : {n : ℕ} → Runs 0 w p → ((a : A) → Runs n w (f a)) → Runs n w (p >>= f)
  unfolding ◌>>=◌
  keep-Runs {n} hp hf = record {
    at = λ s v h.
        Post-bind 0 n n s (p s) f (omega arith) v (hp.at s v h)
          λ a s' l v'. (hf a).at s' v' (omega (arith, ap length l.same, l.ahead));
  }

  pub eat-Runs :
      {n : ℕ} → n ≤ 1 → Runs 1 (suc w) p → ((a : A) → Runs 0 w (f a)) → Runs n (suc w) (p >>= f)
  unfolding ◌>>=◌
  eat-Runs {n} b hp hf = record {
    at = λ s v h.
        Post-bind 1 0 n s (p s) f (omega arith) v (hp.at s v h)
          λ a s' l v'. (hf a).at s' v' (omega (arith, ap length l.same, l.ahead));
  }

  pub take-Takes : Takes w p → ((a : A) → Runs 0 w (f a)) → Takes w (p >>= f)
  unfolding ◌>>=◌
  take-Takes hp hf = record {
    at = λ s v h b.
        Post-bind 1 0 1 s (p s) f (omega arith) v (hp.at s v h b)
          λ a s' l v'. (hf a).at s' v' (omega (arith, ap length l.same, l.ahead));
  }

  pub read-Takes : Reads p → ((a : A) → Takes w (f a)) → Takes w (p >>= f)
  unfolding ◌>>=◌
  read-Takes hp hf = record { at = λ s v h b. let (a, e) = hp.at s v in rw e ((hf a).at s v h b) }

  pub read-Runs : {n : ℕ} → Reads p → ((a : A) → Runs n w (f a)) → Runs n w (p >>= f)
  unfolding ◌>>=◌
  read-Runs hp hf = record { at = λ s v h. let (a, e) = hp.at s v in rw e ((hf a).at s v h) }

pub Later-refl : {s : Parser} → Valid s → Later 0 0 s s
Later-refl v = record {
  same = refl;
  ahead = omega arith;
  inside = v.within;
  reported = omega arith;
}
