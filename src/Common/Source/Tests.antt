-- ===== src/Common/Source/Tests.antt =====
-- The last character of two lines.
use jdruby.Base.{ℕ, ◌+◌, ◌≡◌, List, [], ◌∷◌, length, any, if◌then◌else◌}
use jdruby.Common.Source.{line_col}
use jdruby.Common.Source.Lines.{is_newline, before, newlines, last_line, line_col-before}

-- `é`, a line break, `ab`
abbrev two_lines : List ℕ
two_lines = 233 ∷ 10 ∷ 97 ∷ 98 ∷ []

line_col-before_example : line_col two_lines 4 ≡ (
  1 + newlines (before two_lines 0 4),
  1
      + length (
          if any is_newline (before two_lines 0 4)
          then last_line (before two_lines 0 4)
          else before two_lines 0 4),
)
line_col-before_example = line_col-before two_lines 4
