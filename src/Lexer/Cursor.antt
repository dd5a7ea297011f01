-- ===== src/Lexer/Cursor.antt =====
-- crates/jdruby-lexer/src/lexer.rs: the position in the source, and the loops that only move it. The
-- source is its bytes; `rest` is the part from `pos` on and `last` the byte before `pos`. Reading
-- past the end, which panics, sets `overran`.
use jdruby.Base.{
  ℕ, zero, suc, ◌+◌, ◌==◌, ◌&&◌, ◌||◌, not, leb, Bool, true, false, List, [], ◌∷◌, if◌then◌else◌,
}

pub record Cursor : Type 0 where
  pub rest : List ℕ
  pub pos : ℕ
  pub last : ℕ
  pub overran : Bool

abbrev pub start_of : List ℕ → Cursor
start_of bytes = record { rest = bytes; pos = 0; last = 0; overran = false }

-- The cursor behind the byte `x`, with `xs` left.
abbrev pub took : ℕ → List ℕ → Cursor → Cursor
took x xs c = record { rest = xs; pos = c.pos + 1; last = x; overran = c.overran }

abbrev pub advance_in : List ℕ → Cursor → Cursor
advance_in [] c = record c { overran = true }
advance_in (x ∷ xs) c = took x xs c

abbrev pub advance : Cursor → Cursor
advance c = advance_in c.rest c

abbrev pub head_or_zero : List ℕ → ℕ
head_or_zero [] = 0
head_or_zero (x ∷ xs) = x

abbrev pub second_or_zero : List ℕ → ℕ
second_or_zero (x ∷ y ∷ xs) = y
second_or_zero _ = 0

abbrev pub peek : Cursor → ℕ
peek c = head_or_zero c.rest

abbrev pub peek_next : Cursor → ℕ
peek_next c = second_or_zero c.rest

abbrev pub is_empty : List ℕ → Bool
is_empty [] = true
is_empty _ = false

abbrev pub is_at_end : Cursor → Bool
is_at_end c = is_empty c.rest

abbrev pub between : ℕ → ℕ → ℕ → Bool
between lo hi b = leb lo b && leb b hi

abbrev pub is_digit : ℕ → Bool
is_digit b = between b'0' b'9' b

abbrev pub is_alphabetic : ℕ → Bool
is_alphabetic b = between b'a' b'z' b || between b'A' b'Z' b

abbrev pub is_ident_continue : ℕ → Bool
is_ident_continue b = is_alphabetic b || is_digit b || b == b'_'

abbrev pub is_hex_digit : ℕ → Bool
is_hex_digit b = is_digit b || between b'a' b'f' b || between b'A' b'F' b

abbrev pub is_blank : ℕ → Bool
is_blank b = b == b' ' || b == b'\t' || b == b'\r'

-- `while !self.is_at_end() && p(self.peek()) { self.advance(); }` over what is left.
unfoldable pub eat : (ℕ → Bool) → List ℕ → Cursor → Cursor
eat p [] c = c
eat p (x ∷ xs) c = let further = eat p xs (took x xs c) in if p x then further else c

abbrev pub advance_while : (ℕ → Bool) → Cursor → Cursor
advance_while p c = eat p c.rest c

abbrev pub skip_whitespace : Cursor → Cursor
skip_whitespace = advance_while is_blank

-- `if p(self.peek()) { self.advance(); }`
abbrev pub advance_if : (ℕ → Bool) → Cursor → Cursor
advance_if p c = if not (is_at_end c) && p (peek c) then advance c else c

-- The loop of `lex_single_string` and `lex_quoted_symbol` up to the quote.
unfoldable pub quoted_body : ℕ → List ℕ → Cursor → Cursor
quoted_body q [] c = c
quoted_body q (x ∷ []) c = if x == q then c else took x [] c
quoted_body q (x ∷ y ∷ xs) c =
    let escaped = quoted_body q xs (took y xs (took x (y ∷ xs) c)) in
    let plain = quoted_body q (y ∷ xs) (took x (y ∷ xs) c) in
    if x == q then c else if x == b'\\' then escaped else plain

-- The loops of `lex_double_string`; the first number is the depth of braces in an interpolation,
-- 0 outside of one.
unfoldable pub double_body : ℕ → List ℕ → Cursor → Cursor
double_body d [] c = c
double_body zero (x ∷ []) c = if x == b'"' then c else took x [] c
double_body (suc d) (x ∷ []) c = took x [] c
double_body zero (x ∷ y ∷ xs) c =
    let next = took x (y ∷ xs) c in
    let escaped = double_body 0 xs (took y xs next) in
    let inside = double_body 1 xs (took y xs next) in
    let plain = double_body 0 (y ∷ xs) next in
    if x == b'"'
    then c
    else if x == b'\\'
    then escaped
    else if x == b'#' && y == b'{'
    then inside
    else plain
double_body (suc d) (x ∷ y ∷ xs) c =
    let next = took x (y ∷ xs) c in
    let deeper = double_body (suc (suc d)) (y ∷ xs) next in
    let closed = double_body d (y ∷ xs) next in
    let escaped = double_body (suc d) xs (took y xs next) in
    let plain = double_body (suc d) (y ∷ xs) next in
    if x == b'{'
    then deeper
    else if x == b'}'
    then closed
    else if x == b'\\'
    then escaped
    else plain
