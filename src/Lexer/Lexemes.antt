-- ===== src/Lexer/Lexemes.antt =====
-- crates/jdruby-lexer/src/lexer.rs: where the functions for one token leave the cursor, and the kind
-- they give.
use jdruby.Base.{
  ℕ, zero, suc, ◌≡◌, refl, ◌<◌, ◌==◌, ◌&&◌, ◌||◌, Bool, true, false, some, List, [], ◌∷◌,
  if◌then◌else◌, if-both, if-either, arith,
}
use jdruby.Lexer.Cursor.{
  Cursor, took, advance_in, advance, peek, peek_next, is_at_end, is_empty, advance_while,
  advance_if, quoted_body, double_body, is_digit, is_alphabetic, is_ident_continue,
}
use jdruby.Lexer.Ahead.{
  Ahead, Ahead-refl, Ahead-trans, peeked-Ahead, advance-Ahead, took-Ahead, advance_while-Ahead,
  advance_if-Ahead, quoted_body-Ahead, double_body-Ahead,
}
use jdruby.Lexer.Token.{TokenKind, error, string_double, string_single, symbol, integer}
use jdruby.Lexer.Operators.{Scanned, Message, plain, unterminated_string, unterminated_symbol}
use jdruby.Lexer.Scan.{is_eof}
use jdruby.Lexer.Literals.{
  close_quote, lex_double_string, lex_single_string, lex_quoted_symbol, is_any,
  consume_decimal_digits, exponent, fraction, lex_decimal, lex_number, identifier_end, global_end,
  lex_global_var, starts_with, advance_by, advance_up_to, block_body, lex_block_comment,
  is_exponent, special_globals,
}

-- The token ends at or behind the cursor and is not the end of the source.
abbrev pub Lexes : Cursor → Scanned → Type 0
Lexes a r = (is_eof r.0 ≡ false) × Ahead a r.1

pub positive_of_test : (n b : ℕ) → 0 < b → (n == b) ≡ true → 0 < n
positive_of_test n b h e = ground arith

-- A byte that passes a test is not the zero that `peek` gives at the end.
pub digit_positive : (n : ℕ) → is_digit n ≡ true → 0 < n
digit_positive n e = ground arith

pub alphabetic_positive : (n : ℕ) → is_alphabetic n ≡ true → 0 < n
alphabetic_positive n e = ground arith

pub close_quote-Lexes :
    (k : TokenKind) (m : Message) (a c : Cursor)
    → is_eof k ≡ false
    → Ahead a c
    → Lexes a (close_quote k m c)
close_quote-Lexes k m a c e p = quoted k m a c c.rest e refl p
  where
    quoted :
        (k : TokenKind) (m : Message) (a c : Cursor) (xs : List ℕ)
        → is_eof k ≡ false
        → c.rest ≡ xs
        → Ahead a c
        → Lexes a (if is_empty xs then (error, c, some m) else plain k (advance_in xs c))
    quoted k m a c [] e q p = (refl, p)
    quoted k m a c (x ∷ xs) e q p = (e, Ahead-trans p (took-Ahead x xs c q))

pub exponent-Ahead : (c : Cursor) → 0 < peek c → Ahead c (exponent c)
exponent-Ahead c h =
    let d = advance c in
    let e = advance_if (is_any (b'+' ∷ b'-' ∷ [])) d in
    Ahead-trans (peeked-Ahead c h)
      (Ahead-trans (advance_if-Ahead (is_any (b'+' ∷ b'-' ∷ [])) d) (advance_while-Ahead _ e))

pub is_exponent_positive : (n : ℕ) → is_exponent n ≡ true → 0 < n
is_exponent_positive n e = ground arith

pub fraction-Ahead : (c : Cursor) → 0 < peek c → Ahead c (fraction c)
fraction-Ahead c h =
    let d = consume_decimal_digits (advance c) in
    let p = Ahead-trans (peeked-Ahead c h) (advance_while-Ahead _ (advance c)) in
    if-either (Ahead c) (is_exponent (peek d))
      (λ e. Ahead-trans p (exponent-Ahead d (is_exponent_positive (peek d) e))) (λ e. p)

pub lex_decimal-Lexes : (a c : Cursor) → Ahead a c → Lexes a (lex_decimal c)
lex_decimal-Lexes a c p =
    if-either (Lexes a) (peek c == b'.' && is_digit (peek_next c))
      (λ e. (refl, Ahead-trans p (fraction-Ahead c (ground arith))))
      (λ _.
        if-either (Lexes a) (is_exponent (peek c))
          (λ e. (refl, Ahead-trans p (exponent-Ahead c (is_exponent_positive (peek c) e))))
          (λ _. (refl, p)))

-- A radix letter and the digits behind it.
pub radix-Lexes :
    (p : ℕ → Bool) (a : Cursor) → 0 < peek a → Lexes a (plain integer (advance_while p (advance a)))
radix-Lexes p a h = (refl, Ahead-trans (peeked-Ahead a h) (advance_while-Ahead p (advance a)))

pub lex_number-Lexes : (ch : ℕ) (a : Cursor) → Lexes a (lex_number ch a)
unfolding lex_number
lex_number-Lexes ch a =
    if-either (Lexes a) (ch == b'0' && is_any (b'x' ∷ b'X' ∷ []) (peek a))
      (λ e. radix-Lexes _ a (ground arith))
      (λ _.
        if-either (Lexes a) (ch == b'0' && is_any (b'b' ∷ b'B' ∷ []) (peek a))
          (λ e. radix-Lexes _ a (ground arith))
          (λ _.
            if-either (Lexes a) (ch == b'0' && is_any (b'o' ∷ b'O' ∷ []) (peek a))
              (λ e. radix-Lexes _ a (ground arith))
              (λ _. lex_decimal-Lexes a (consume_decimal_digits a) (advance_while-Ahead _ a))))

pub identifier_end-Ahead : (a : Cursor) → Ahead a (identifier_end a)
identifier_end-Ahead a =
    Ahead-trans (advance_while-Ahead is_ident_continue a)
      (advance_if-Ahead (is_any (b'?' ∷ b'!' ∷ [])) (advance_while is_ident_continue a))

pub global_end-Ahead : (a : Cursor) → Ahead a (global_end a)
global_end-Ahead a =
    if-either (Ahead a) (peek a == b'_')
      (λ e.
        Ahead-trans (peeked-Ahead a (ground arith))
          (advance_while-Ahead is_ident_continue (advance a)))
      (λ _.
        if-either (Ahead a) (is_any special_globals (peek a) || is_digit (peek a))
          (λ e. peeked-Ahead a (ground arith))
          (λ _.
            if-both (Ahead a) (is_alphabetic (peek a)) (advance_while-Ahead is_ident_continue a)
              (Ahead-refl a)))

pub lex_global_var-Lexes : (a : Cursor) → Lexes a (lex_global_var a)
unfolding lex_global_var
lex_global_var-Lexes a = (refl, if-both (Ahead a) (is_at_end a) (Ahead-refl a) (global_end-Ahead a))

-- At least so many bytes are left.
abbrev pub long : ℕ → List ℕ → Bool
long zero xs = true
long (suc n) [] = false
long (suc n) (x ∷ xs) = long n xs

long-advance_in :
    (n : ℕ) (xs : List ℕ) (c : Cursor)
    → long (suc n) xs ≡ true
    → long n (advance_in xs c).rest ≡ true
long-advance_in n [] c h = absurd cc
long-advance_in n (x ∷ xs) c h = h

is_empty_of_long : (n : ℕ) (xs : List ℕ) → long (suc n) xs ≡ true → is_empty xs ≡ false
is_empty_of_long n [] h = cc
is_empty_of_long n (x ∷ xs) h = refl

advance_by-Ahead : (n : ℕ) (c : Cursor) → long n c.rest ≡ true → Ahead c (advance_by n c)
advance_by-Ahead zero c h = Ahead-refl c
advance_by-Ahead (suc n) c h =
    Ahead-trans (advance-Ahead c (is_empty_of_long n c.rest h))
      (advance_by-Ahead n (advance c) (long-advance_in n c.rest c h))

starts_with_end-long : (xs : List ℕ) → starts_with "=end" xs ≡ true → long 4 xs ≡ true
starts_with_end-long [] h = cc
starts_with_end-long (a ∷ []) h = ground arith
starts_with_end-long (a ∷ b ∷ []) h = ground arith
starts_with_end-long (a ∷ b ∷ d ∷ []) h = ground arith
starts_with_end-long (a ∷ b ∷ d ∷ e ∷ xs) h = refl

block_body-Lexes : (xs : List ℕ) (c : Cursor) → c.rest ≡ xs → Lexes c (block_body xs c)
unfolding block_body
block_body-Lexes [] c e = (refl, Ahead-refl c)
block_body-Lexes (x ∷ xs) c e =
    let next = took x xs c in
    let p = took-Ahead x xs c e in
    let further = block_body-Lexes xs next refl in
    if-either (Lexes c) (x == b'\n' && starts_with "=end" xs)
      (λ h. (
        refl,
        Ahead-trans p (
            Ahead-trans (advance_by-Ahead 4 next (starts_with_end-long xs (ground arith)))
              (advance_while-Ahead _ (advance_by 4 next))),
      ))
      (λ _. (further.0, Ahead-trans p further.1))

advance_up_to-Ahead : (n : ℕ) (c : Cursor) → Ahead c (advance_up_to n c)
advance_up_to-Ahead zero c = Ahead-refl c
advance_up_to-Ahead (suc n) c =
    Ahead-trans (if-either (Ahead c) (is_at_end c) (λ _. Ahead-refl c) (advance-Ahead c))
      (advance_up_to-Ahead n (if is_at_end c then c else advance c))

pub lex_block_comment-Lexes : (a : Cursor) → Lexes a (lex_block_comment a)
unfolding lex_block_comment
lex_block_comment-Lexes a =
    let c = advance_up_to 5 a in
    let body = block_body-Lexes c.rest c refl in
    (body.0, Ahead-trans (advance_up_to-Ahead 5 a) body.1)

pub lex_double_string-Lexes : (a : Cursor) → Lexes a (lex_double_string a)
unfolding lex_double_string
lex_double_string-Lexes a =
    close_quote-Lexes string_double unterminated_string a (double_body 0 a.rest a) refl
      (double_body-Ahead 0 a.rest a refl)

pub lex_single_string-Lexes : (a : Cursor) → Lexes a (lex_single_string a)
unfolding lex_single_string
lex_single_string-Lexes a =
    close_quote-Lexes string_single unterminated_string a (quoted_body b'\'' a.rest a) refl
      (quoted_body-Ahead b'\'' a.rest a refl)

pub lex_quoted_symbol-Lexes : (a : Cursor) → Lexes a (lex_quoted_symbol a)
unfolding lex_quoted_symbol
lex_quoted_symbol-Lexes a =
    close_quote-Lexes symbol unterminated_symbol a (quoted_body b'"' a.rest a) refl
      (quoted_body-Ahead b'"' a.rest a refl)
