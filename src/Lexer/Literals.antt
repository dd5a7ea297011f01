-- ===== src/Lexer/Literals.antt =====
-- crates/jdruby-lexer/src/lexer.rs: the functions that `next_token` calls for comments, strings,
-- numbers, identifiers and symbols. `a` is the cursor behind the first byte, `s` the one before it.
use Prim.Native.String.{String}
use Prim.Native.Char.{code}
use jdruby.Base.{
  ℕ, zero, suc, ◌-◌, ◌==◌, ◌&&◌, ◌||◌, not, Bool, true, false, Option, some, none, List, [], ◌∷◌,
  if◌then◌else◌,
}
use jdruby.Lexer.Token.{
  TokenKind, integer, float, string_double, string_single, symbol, identifier, constant, global_var,
  comment, error, keyword_from_str,
}
use jdruby.Lexer.Operators.{
  Message, unterminated_string, unterminated_symbol, unterminated_comment, Scanned, plain,
}
use jdruby.Lexer.Cursor.{
  Cursor, advance, peek, peek_next, is_at_end, is_digit, is_alphabetic, is_ident_continue, between,
  is_hex_digit, took, advance_while, advance_if, quoted_body, double_body,
}

-- The source between two cursors, as `&self.source[start..end]`.
abbrev pub take : ℕ → List ℕ → List ℕ
take zero xs = []
take (suc n) [] = []
take (suc n) (x ∷ xs) = x ∷ take n xs

abbrev pub slice : Cursor → Cursor → List ℕ
slice s c = take (c.pos - s.pos) s.rest

-- Behind the loop of a string: an error at the end of the source, or the closing quote.
abbrev pub close_quote : TokenKind → Message → Cursor → Scanned
close_quote k m c = if is_at_end c then (error, c, some m) else plain k (advance c)

unfoldable pub lex_double_string : Cursor → Scanned
lex_double_string a = close_quote string_double unterminated_string (double_body 0 a.rest a)

unfoldable pub lex_single_string : Cursor → Scanned
lex_single_string a = close_quote string_single unterminated_string (quoted_body b'\'' a.rest a)

unfoldable pub lex_quoted_symbol : Cursor → Scanned
lex_quoted_symbol a = close_quote symbol unterminated_symbol (quoted_body b'"' a.rest a)

abbrev pub is_any : List ℕ → ℕ → Bool
is_any [] b = false
is_any (x ∷ xs) b = b == x || is_any xs b

abbrev pub is_underscore_or : (ℕ → Bool) → ℕ → Bool
is_underscore_or p b = p b || b == b'_'

abbrev pub consume_decimal_digits : Cursor → Cursor
consume_decimal_digits = advance_while (is_underscore_or is_digit)

abbrev pub is_exponent : ℕ → Bool
is_exponent b = b == b'e' || b == b'E'

-- The exponent behind its letter.
abbrev pub exponent : Cursor → Cursor
exponent c = consume_decimal_digits (advance_if (is_any (b'+' ∷ b'-' ∷ [])) (advance c))

-- The fraction behind its point.
abbrev pub fraction : Cursor → Cursor
fraction c =
    let d = consume_decimal_digits (advance c) in if is_exponent (peek d) then exponent d else d

abbrev pub lex_decimal : Cursor → Scanned
lex_decimal c =
    if peek c == b'.' && is_digit (peek_next c)
    then plain float (fraction c)
    else if is_exponent (peek c)
    then plain float (exponent c)
    else plain integer c

abbrev pub lex_hex_number : Cursor → Scanned
lex_hex_number a = plain integer (advance_while (is_underscore_or is_hex_digit) (advance a))

abbrev pub lex_binary_number : Cursor → Scanned
lex_binary_number a = plain integer (advance_while (is_any (b'0' ∷ b'1' ∷ b'_' ∷ [])) (advance a))

abbrev pub lex_octal_number : Cursor → Scanned
lex_octal_number a =
    plain integer (advance_while (is_underscore_or (between b'0' b'7')) (advance a))

unfoldable pub lex_number : ℕ → Cursor → Scanned
lex_number ch a =
    if ch == b'0' && is_any (b'x' ∷ b'X' ∷ []) (peek a)
    then lex_hex_number a
    else if ch == b'0' && is_any (b'b' ∷ b'B' ∷ []) (peek a)
    then lex_binary_number a
    else if ch == b'0' && is_any (b'o' ∷ b'O' ∷ []) (peek a)
    then lex_octal_number a
    else lex_decimal (consume_decimal_digits a)

abbrev pub identifier_end : Cursor → Cursor
identifier_end a = advance_if (is_any (b'?' ∷ b'!' ∷ [])) (advance_while is_ident_continue a)

abbrev pub keyword_or_identifier : Option TokenKind → TokenKind
keyword_or_identifier (some k) = k
keyword_or_identifier none = identifier

unfoldable pub lex_identifier : Cursor → Cursor → Scanned
lex_identifier s a =
    let c = identifier_end a in plain (keyword_or_identifier (keyword_from_str (slice s c))) c

unfoldable pub lex_identifier_from : TokenKind → Cursor → Scanned
lex_identifier_from k a = plain k (advance_while is_ident_continue a)

unfoldable pub lex_constant : Cursor → Scanned
lex_constant a = plain constant (advance_while is_ident_continue a)

unfoldable pub lex_symbol : Cursor → Scanned
lex_symbol a = plain symbol (identifier_end a)

-- The bytes that name a global variable on their own; `_` may be followed by more.
abbrev pub special_globals : List ℕ
special_globals =
    b'!' ∷ b'@' ∷ b';' ∷ b',' ∷ b'.' ∷ b'/' ∷ b'\\' ∷ b'*' ∷ b'<' ∷ b'>' ∷ b'$' ∷ b'?' ∷ b'~' ∷ b'&'
    ∷ b'`' ∷ b'\'' ∷ b'+' ∷ []

abbrev pub global_end : Cursor → Cursor
global_end a =
    if peek a == b'_'
    then advance_while is_ident_continue (advance a)
    else if is_any special_globals (peek a) || is_digit (peek a)
    then advance a
    else if is_alphabetic (peek a)
    then advance_while is_ident_continue a
    else a

unfoldable pub lex_global_var : Cursor → Scanned
lex_global_var a = plain global_var (if is_at_end a then a else global_end a)

abbrev pub to_line_end : Cursor → Cursor
to_line_end = advance_while (λ b. not (b == b'\n'))

unfoldable pub lex_line_comment : Cursor → Scanned
lex_line_comment a = plain comment (to_line_end a)

-- `starts_with` of an ASCII text.
abbrev pub starts_with : String → List ℕ → Bool
starts_with String.[] bs = true
starts_with (String.◌∷◌ c s) [] = false
starts_with (String.◌∷◌ c s) (b ∷ bs) = b == code c && starts_with s bs

abbrev pub advance_by : ℕ → Cursor → Cursor
advance_by zero c = c
advance_by (suc n) c = advance_by n (advance c)

abbrev pub advance_up_to : ℕ → Cursor → Cursor
advance_up_to zero c = c
advance_up_to (suc n) c = advance_up_to n (if is_at_end c then c else advance c)

-- The loop of `lex_block_comment`.
unfoldable pub block_body : List ℕ → Cursor → Scanned
block_body [] c = (comment, c, some unterminated_comment)
block_body (x ∷ xs) c =
    let next = took x xs c in
    let further = block_body xs next in
    if x == b'\n' && starts_with "=end" xs
    then plain comment (to_line_end (advance_by 4 next))
    else further

abbrev pub block_from : Cursor → Scanned
block_from c = block_body c.rest c

unfoldable pub lex_block_comment : Cursor → Scanned
lex_block_comment a = block_from (advance_up_to 5 a)
