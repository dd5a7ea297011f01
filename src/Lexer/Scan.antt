-- ===== src/Lexer/Scan.antt =====
-- crates/jdruby-lexer/src/lexer.rs: `next_token` and `tokenize`.
use jdruby.Base.{
  ℕ, zero, suc, ◌==◌, ◌&&◌, ◌||◌, not, ltb, Bool, true, false, Option, some, none, List, [], ◌∷◌,
  ◌++◌, length, if◌then◌else◌, Outcome, done, panic, ◌>>=◌,
}
use jdruby.Base.Assoc.{lookup}
use jdruby.Base.Keys.{nat_eq}
use jdruby.Lexer.Token.{
  TokenKind, instance_var, class_var, colon_colon, colon, at, eof, error, Token,
}
use jdruby.Lexer.Cursor.{
  Cursor, start_of, advance, advance_in, peek, is_digit, is_alphabetic, between, skip_whitespace,
}
use jdruby.Lexer.Operators.{Message, Follow, unexpected, Scanned, plain, munch, operators, equals}
use jdruby.Lexer.Literals.{
  slice, starts_with, lex_double_string, lex_single_string, lex_quoted_symbol, lex_number,
  lex_identifier, lex_identifier_from, lex_constant, lex_symbol, lex_global_var, lex_line_comment,
  lex_block_comment,
}

pub record Diagnostic : Type 0 where
  pub message : Message
  pub start : ℕ
  pub end : ℕ

abbrev pub starts_name : ℕ → Bool
starts_name b = is_alphabetic b || b == b'_'

abbrev pub lex_colon : Cursor → Scanned
lex_colon a =
    if peek a == b':'
    then plain colon_colon (advance a)
    else if starts_name (peek a)
    then lex_symbol a
    else if peek a == b'"'
    then lex_quoted_symbol (advance a)
    else plain colon a

abbrev pub lex_at : Cursor → Scanned
lex_at a =
    if peek a == b'@'
    then lex_identifier_from class_var (advance a)
    else if starts_name (peek a)
    then lex_identifier_from instance_var a
    else plain at a

-- `=` begins a block comment only at the start of a line, and only where no operator does.
abbrev pub lex_equal : Cursor → Cursor → Scanned
lex_equal s a =
    if not (peek a == b'=' || peek a == b'~' || peek a == b'>')
      && (a.pos == 1 || ltb 0 s.pos && s.last == b'\n')
      && starts_with "begin" a.rest
    then lex_block_comment a
    else munch equals a

abbrev pub lex_operator : ℕ → Cursor → Option Follow → Scanned
lex_operator ch a (some f) = munch f a
lex_operator ch a none = (error, a, some (unexpected ch))

-- The match of `next_token` on the first byte.
unfoldable pub scan : ℕ → Cursor → Cursor → Scanned
scan ch s a =
    if ch == b'#'
    then lex_line_comment a
    else if ch == b'"'
    then lex_double_string a
    else if ch == b'\''
    then lex_single_string a
    else if is_digit ch
    then lex_number ch a
    else if ch == b':'
    then lex_colon a
    else if ch == b'@'
    then lex_at a
    else if ch == b'$'
    then lex_global_var a
    else if between b'a' b'z' ch || ch == b'_'
    then lex_identifier s a
    else if between b'A' b'Z' ch
    then lex_constant a
    else if ch == b'='
    then lex_equal s a
    else lex_operator ch a (lookup ch operators)

-- A slice of a `str` panics where an end of it is inside a character, that is before a byte from
-- 128 to 191.
abbrev pub is_boundary : List ℕ → Bool
is_boundary [] = true
is_boundary (x ∷ xs) = not (between 128 191 x)

abbrev pub make_token : TokenKind → Cursor → Cursor → Outcome Token
make_token k s c =
    if not c.overran && is_boundary s.rest && is_boundary c.rest
    then done (record { kind = k; lexeme = slice s c; start = s.pos; end = c.pos })
    else panic

abbrev pub report : Option Message → Cursor → Cursor → List Diagnostic
report none s c = []
report (some m) s c = record { message = m; start = s.pos; end = c.pos } ∷ []

abbrev pub Read : Type 0
Read = Token × List Diagnostic × Cursor

abbrev pub emit : Cursor → Scanned → Outcome Read
emit s (k, c, m) = make_token k s c >>= λ t. done (t, report m s c, c)

abbrev pub token_at : List ℕ → Cursor → Outcome Read
token_at [] s = emit s (plain eof s)
token_at (x ∷ xs) s = emit s (scan x s (advance_in (x ∷ xs) s))

unfoldable pub next_token : Cursor → Outcome Read
next_token c = let s = skip_whitespace c in token_at s.rest s

abbrev pub is_eof : TokenKind → Bool
is_eof eof = true
is_eof _ = false

abbrev pub Tokens : Type 0
Tokens = List Token × List Diagnostic

abbrev pub before : Token → List Diagnostic → Option Tokens → Option Tokens
before t ds none = none
before t ds (some (ts, es)) = some (t ∷ ts, ds ++ es)

abbrev pub only : Token → List Diagnostic → Option Tokens
only t ds = some (t ∷ [], ds)

-- The loop of `tokenize`. `none`: the fuel ends.
unfoldable pub tokens_from : ℕ → Cursor → Outcome (Option Tokens)
tokens_from zero c = done none
tokens_from (suc n) c = next_token c >>= λ r.
    if is_eof r.0.kind
    then done (only r.0 r.1)
    else (tokens_from n r.2 >>= λ o. done (before r.0 r.1 o))

unfoldable pub tokenize : List ℕ → Outcome (Option Tokens)
tokenize bytes = tokens_from (suc (length bytes)) (start_of bytes)
