-- ===== src/Parser/Text.antt =====
-- crates/jdruby-parser/src/parser.rs: `parse_int`, `unescape_string` and the names of symbols. A
-- text is its bytes; the bytes of a character above 127 pass every test here as they are.
use jdruby.Base.{
  ℕ, ◌+◌, ◌-◌, ◌*◌, ◌^◌, ◌==◌, ◌&&◌, ◌||◌, not, Bool, false, Option, some, none, [], ◌∷◌, ◌++◌, ltb,
  leb, if◌then◌else◌, retain, Outcome, done, panic,
}
use jdruby.Base.Int.{ℤ, pos, neg}
use jdruby.Ast.{Text}

-- The value of a digit of the radix.
unfoldable pub digit : ℕ → ℕ → Option ℕ
digit radix c =
    let value =
      if leb b'0' c && leb c b'9'
      then c - b'0'
      else if leb b'a' c && leb c b'z'
      then c - b'a' + 10
      else if leb b'A' c && leb c b'Z'
      then c - b'A' + 10
      else radix in
    if ltb value radix then some value else none

abbrev pub push_digit : ℕ → ℕ → Option ℕ → Option ℕ
push_digit radix n none = none
push_digit radix n (some d) = some (n * radix + d)

unfoldable pub digits_value : ℕ → Option ℕ → Text → Option ℕ
digits_value radix none cs = none
digits_value radix (some n) [] = some n
digits_value radix (some n) (c ∷ cs) = digits_value radix (push_digit radix n (digit radix c)) cs

abbrev pub magnitude : ℕ → Text → Option ℕ
magnitude radix [] = none
magnitude radix (c ∷ cs) = digits_value radix (some 0) (c ∷ cs)

-- An i64, or 0 where there is none: `unwrap_or(0)`.
abbrev pub positive : Option ℕ → ℤ
positive none = pos 0
positive (some n) = if ltb n (2 ^ 63) then pos n else pos 0

abbrev pub negative : Option ℕ → ℤ
negative none = pos 0
negative (some n) = if leb n (2 ^ 63) then neg (pos n) else pos 0

-- `i64::from_str_radix(s, radix).unwrap_or(0)`
unfoldable pub from_str_radix : ℕ → Text → ℤ
from_str_radix radix [] = pos 0
from_str_radix radix (c ∷ cs) =
    if c == b'+'
    then positive (magnitude radix cs)
    else if c == b'-'
    then negative (magnitude radix cs)
    else positive (magnitude radix (c ∷ cs))

-- Of a text without underscores.
abbrev pub parse_clean : Text → ℤ
parse_clean (x ∷ y ∷ cs) =
    if x == b'0' && (y == b'x' || y == b'X')
    then from_str_radix 16 cs
    else if x == b'0' && (y == b'b' || y == b'B')
    then from_str_radix 2 cs
    else if x == b'0' && (y == b'o' || y == b'O')
    then from_str_radix 8 cs
    else from_str_radix 10 (x ∷ y ∷ cs)
parse_clean cs = from_str_radix 10 cs

unfoldable pub without_underscores : Text → Text
without_underscores cs = retain (λ c. not (c == b'_')) cs

unfoldable pub parse_int : Text → ℤ
parse_int s = parse_clean (without_underscores s)

abbrev pub ends_with : ℕ → Text → Bool
ends_with q [] = false
ends_with q (c ∷ []) = c == q
ends_with q (c ∷ d ∷ cs) = ends_with q (d ∷ cs)

abbrev pub starts_with : ℕ → Text → Bool
starts_with q [] = false
starts_with q (c ∷ cs) = c == q

abbrev pub drop_last : Text → Text
drop_last [] = []
drop_last (c ∷ []) = []
drop_last (c ∷ d ∷ cs) = c ∷ drop_last (d ∷ cs)

-- `&s[1..s.len() - 1]`, which panics on a text of one byte.
unfoldable pub inside : Text → Outcome Text
inside [] = panic
inside (c ∷ []) = panic
inside (c ∷ d ∷ cs) = done (drop_last (d ∷ cs))

-- The character of an escape, or the two as they are.
abbrev pub escape : ℕ → Text
escape c =
    if c == b'n'
    then 10 ∷ []
    else if c == b't'
    then 9 ∷ []
    else if c == b'r'
    then 13 ∷ []
    else if c == b'\\'
    then b'\\' ∷ []
    else if c == b'"'
    then b'"' ∷ []
    else if c == b'\''
    then b'\'' ∷ []
    else if c == b'0'
    then 0 ∷ []
    else b'\\' ∷ c ∷ []

-- The loop of `unescape_string`.
unfoldable pub unescape : Text → Text
unescape [] = []
unescape (c ∷ []) = c ∷ []
unescape (c ∷ d ∷ cs) =
    let escaped = escape d ++ unescape cs in
    let plain = c ∷ unescape (d ∷ cs) in if c == b'\\' then escaped else plain

abbrev pub unescape_inner : Outcome Text → Outcome Text
unescape_inner (done s) = done (unescape s)
unescape_inner panic = panic

unfoldable pub unescape_string : Text → Outcome Text
unescape_string s =
    if starts_with b'"' s && ends_with b'"' s || starts_with b'\'' s && ends_with b'\'' s
    then unescape_inner (inside s)
    else done (unescape s)

unfoldable pub trim_start : ℕ → Text → Text
trim_start q [] = []
trim_start q (c ∷ cs) = let rest = trim_start q cs in if c == q then rest else c ∷ cs

abbrev pub push_trimmed : ℕ → ℕ → Text → Text
push_trimmed q c [] = if c == q then [] else c ∷ []
push_trimmed q c (d ∷ ds) = c ∷ d ∷ ds

unfoldable pub trim_end : ℕ → Text → Text
trim_end q [] = []
trim_end q (c ∷ cs) = push_trimmed q c (trim_end q cs)

-- `trim_start_matches(':').trim_matches('"')`
unfoldable pub symbol_name : Text → Text
symbol_name s = trim_end b'"' (trim_start b'"' (trim_start b':' s))

-- `contains("#{")`
unfoldable pub interpolates : Text → Bool
interpolates [] = false
interpolates (c ∷ []) = false
interpolates (c ∷ d ∷ cs) = c == b'#' && d == b'{' || interpolates (d ∷ cs)
