-- ===== src/Lexer/Unknown.antt =====
-- crates/jdruby-lexer/src/lexer.rs: the unknown character of `next_token`.
use jdruby.Base.{
  ℕ, ◌≡◌, refl, ap, ◌∙◌, ◌<◌, ◌==◌, ◌&&◌, ◌||◌, ltb, Bool, true, false, some, none, List, [], ◌∷◌,
  if◌then◌else◌, arith, done, panic, ◌>>=◌,
}
use jdruby.Lexer.Cursor.{Cursor, is_digit, took, is_blank, eat, skip_whitespace, between}
use jdruby.Lexer.Token.{TokenKind, error}
use jdruby.Lexer.Operators.{Follow, operators, unexpected}
use jdruby.Lexer.Scan.{
  scan, lex_operator, is_boundary, make_token, report, emit, token_at, next_token,
}
use jdruby.Base.Assoc.{lookup}
use jdruby.Base.Keys.{nat_eq}

if_false {ℓ} : {A : Type ℓ} (b : Bool) (x : A) {y : A} → b ≡ false → (if b then x else y) ≡ y
if_false true x h = absurd cc
if_false false x h = refl

eat-Stops : (p : ℕ → Bool) (x : ℕ) (xs : List ℕ) (c : Cursor) → p x ≡ false → eat p (x ∷ xs) c ≡ c
unfolding eat
eat-Stops p x xs c h = if_false (p x) _ h

all_below : ℕ → List (ℕ × Follow) → Bool
all_below n [] = true
all_below n ((b, f) ∷ ops) = ltb b n && all_below n ops

lookup-absent :
    (x n : ℕ) (ops : List (ℕ × Follow)) → n < x → all_below n ops ≡ true → lookup x ops ≡ none
unfolding lookup all_below
lookup-absent x n [] h a = refl
lookup-absent x n ((b, f) ∷ ops) h a = ground (arith, lookup-absent x n ops)

scan-unknown : (x : ℕ) (s a : Cursor) → 191 < x → scan x s a ≡ (error, a, some (unexpected x))
unfolding scan all_below
scan-unknown x s a h =
    if_false (x == b'#') _ (ground arith)
    ∙ if_false (x == b'"') _ (ground arith)
    ∙ if_false (x == b'\'') _ (ground arith)
    ∙ if_false (is_digit x) _ (ground arith)
    ∙ if_false (x == b':') _ (ground arith)
    ∙ if_false (x == b'@') _ (ground arith)
    ∙ if_false (x == b'$') _ (ground arith)
    ∙ if_false (between b'a' b'z' x || x == b'_') _ (ground arith)
    ∙ if_false (between b'A' b'Z' x) _ (ground arith)
    ∙ if_false (x == b'=') _ (ground arith)
    ∙ ap (lex_operator x a) (lookup-absent x 191 operators h refl)

-- No token ends where a byte from 128 to 191 comes next.
make_token-panic :
    (k : TokenKind) (s c : Cursor) → is_boundary c.rest ≡ false → make_token k s c ≡ panic
make_token-panic k s c h = ground arith

token_at-panic :
    (x y : ℕ) (bytes : List ℕ) (c : Cursor)
    → c.rest ≡ x ∷ y ∷ bytes
    → 191 < x
    → between 128 191 y ≡ true
    → token_at (x ∷ y ∷ bytes) c ≡ panic
token_at-panic x y bytes c e h b =
    ap (emit c) (scan-unknown x c (took x (y ∷ bytes) c) h)
    ∙ ap
        (λ o. o >>= λ t.
          done (t, report (some (unexpected x)) c (took x (y ∷ bytes) c), took x (y ∷ bytes) c))
        (make_token-panic error c (took x (y ∷ bytes) c) (ground arith))

-- A character outside of ASCII panics the lexer where a token begins with it: where a byte from 192
-- on is followed by a byte from 128 to 191, as it is in every such character, the slice for the
-- unknown character's token ends inside of it.
pub next_token-non_ascii :
    (c : Cursor) (x y : ℕ) (bytes : List ℕ)
    → c.rest ≡ x ∷ y ∷ bytes
    → 191 < x
    → between 128 191 y ≡ true
    → next_token c ≡ panic
unfolding next_token
next_token-non_ascii c x y bytes e h b =
    let q : skip_whitespace c ≡ c =
      ap (λ xs. eat is_blank xs c) e ∙ eat-Stops is_blank x (y ∷ bytes) c (ground arith) in
    ap (λ s. token_at s.rest s) q ∙ ap (λ xs. token_at xs c) e ∙ token_at-panic x y bytes c e h b
