-- ===== src/Common/Source/Lines.antt =====
-- crates/jdruby-common/src/source.rs: the line and the column against the text before an offset.
use jdruby.Base.{
  ℕ, ◌+◌, ◌==◌, ◌≡◌, ◌∙◌, refl, Bool, List, [], ◌∷◌, length, any, leb, if◌then◌else◌, Bool-cases,
  inl, inr, arith,
}
use jdruby.Common.Source.{width, line_col_from, line_col}

abbrev pub is_newline : ℕ → Bool
is_newline c = c == b'\n'

-- The characters that begin before the offset.
abbrev pub before : List ℕ → ℕ → ℕ → List ℕ
before [] i offset = []
before (c ∷ cs) i offset = if leb offset i then [] else c ∷ before cs (i + width c) offset

abbrev pub newlines : List ℕ → ℕ
newlines [] = 0
newlines (c ∷ cs) = (if is_newline c then 1 else 0) + newlines cs

-- The characters behind the last line break.
abbrev pub last_line : List ℕ → List ℕ
last_line [] = []
last_line (c ∷ cs) = if any is_newline cs then last_line cs else if is_newline c then cs else c ∷ cs

-- The column behind a text that begins at the column `col`.
abbrev column : ℕ → List ℕ → ℕ
column col cs = if any is_newline cs then 1 + length (last_line cs) else col + length cs

pair : {a b c d : ℕ} → a ≡ b → c ≡ d → ◌≡◌ {A = ℕ × ℕ} (a, c) (b, d)
pair p q = rw (p, q) refl

broken :
    (pre : List ℕ) → column 1 pre ≡ 1 + length (if any is_newline pre then last_line pre else pre)
broken pre = elim (Bool-cases (any is_newline pre)) [ inl h ↦ rw h refl | inr h ↦ rw h refl ]

unbroken :
    (c col : ℕ) (pre : List ℕ)
    → column (col + 1) pre ≡ (
        if any is_newline pre
        then 1 + length (if any is_newline pre then last_line pre else c ∷ pre)
        else col + length (c ∷ pre))
unbroken c col pre = elim (Bool-cases (any is_newline pre)) [
  | inl h ↦ rw h refl
  | inr h ↦ rw h (omega arith)
]

line_col_from-before :
    (cs : List ℕ) (i offset line col : ℕ)
    → let pre = before cs i offset in
      line_col_from cs i offset line col ≡ (line + newlines pre, column col pre)
unfolding line_col_from
line_col_from-before [] i offset line col = ground arith
line_col_from-before (c ∷ cs) i offset line col = elim (Bool-cases (leb offset i)) [
  | inl h ↦ rw h (ground arith)
  | inr h ↦ elim (Bool-cases (is_newline c)) [
    | inl n ↦
        rw (h, n, line_col_from-before cs (i + width c) offset (line + 1) 1)
          (pair (omega arith) (broken (before cs (i + width c) offset)))
    | inr n ↦
        rw (h, n, line_col_from-before cs (i + width c) offset line (col + 1))
          (pair (omega arith) (unbroken c col (before cs (i + width c) offset)))
  ]
]

-- `line_col` counts from 1: the line is one more than the line breaks before the offset, and the
-- column one more than the characters, not the bytes, between the last of them and the offset.
pub line_col-before :
    (content : List ℕ) (offset : ℕ)
    → let pre = before content 0 offset in
      line_col content offset
      ≡ (1 + newlines pre, 1 + length (if any is_newline pre then last_line pre else pre))
unfolding line_col
line_col-before content offset =
    line_col_from-before content 0 offset 1 1 ∙ pair refl (broken (before content 0 offset))
