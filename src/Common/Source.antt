-- ===== src/Common/Source.antt =====
-- crates/jdruby-common/src/source.rs: spans, and the line and column of an offset. A text is its
-- characters' codes, and an offset counts the bytes of their UTF-8 form.
pub mod Lines
mod Tests
use jdruby.Base.{
  ℕ, ◌+◌, ◌-◌, ◌%◌, ◌^◌, ◌==◌, Bool, List, [], ◌∷◌, ltb, leb, min, max, if◌then◌else◌, Outcome,
  done, panic,
}

pub record SourceSpan : Type 0 where
  pub start : ℕ
  pub end : ℕ

-- `checks` says whether the build has debug assertions.
unfoldable pub new : Bool → ℕ → ℕ → Outcome SourceSpan
new checks start end =
    if checks
    then (if ltb end start then panic else done (record { start = start; end = end }))
    else done (record { start = start; end = end })

unfoldable pub at : ℕ → SourceSpan
at pos = record { start = pos; end = pos }

unfoldable pub merge : SourceSpan → SourceSpan → SourceSpan
merge s t = record { start = min s.start t.start; end = max s.end t.end }

-- The difference panics with overflow checks and wraps without.
unfoldable pub len : Bool → SourceSpan → Outcome ℕ
len checks s =
    if checks
    then (if ltb s.end s.start then panic else done (s.end - s.start))
    else done ((s.end + (2 ^ 64 - s.start)) % 2 ^ 64)

unfoldable pub is_empty : SourceSpan → Bool
is_empty s = s.start == s.end

-- `len_utf8`
abbrev pub width : ℕ → ℕ
width c = if ltb c 128 then 1 else if ltb c 2048 then 2 else if ltb c 65536 then 3 else 4

-- The loop of `line_col` over the characters from the byte `i` on.
unfoldable pub line_col_from : List ℕ → ℕ → ℕ → ℕ → ℕ → ℕ × ℕ
line_col_from [] i offset line col = (line, col)
line_col_from (c ∷ cs) i offset line col =
    let next_line = line_col_from cs (i + width c) offset (line + 1) 1 in
    let next_col = line_col_from cs (i + width c) offset line (col + 1) in
    if leb offset i then (line, col) else if c == b'\n' then next_line else next_col

unfoldable pub line_col : List ℕ → ℕ → ℕ × ℕ
line_col content offset = line_col_from content 0 offset 1 1
