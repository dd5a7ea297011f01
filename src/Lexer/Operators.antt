-- ===== src/Lexer/Operators.antt =====
-- crates/jdruby-lexer/src/lexer.rs: the arms of `next_token` for operators and delimiters, and what
-- a function of the lexer gives for one token.
use jdruby.Base.{ℕ, ◌==◌, Option, none, List, [], ◌∷◌, if◌then◌else◌}
use jdruby.Lexer.Cursor.{Cursor, peek, advance}
use jdruby.Lexer.Token.{
  TokenKind, plus, minus, star, slash, percent, double_star, equal_equal, bang_equal, less, greater,
  less_equal, greater_equal, spaceship, triple_equal, match_op, not_match, amp_amp, pipe_pipe, bang,
  amp, pipe, caret, tilde, less_less, greater_greater, dot_dot, dot_dot_dot, equal, plus_equal,
  minus_equal, star_equal, slash_equal, percent_equal, double_star_equal, amp_amp_equal,
  pipe_pipe_equal, amp_equal, pipe_equal, caret_equal, less_less_equal, greater_greater_equal,
  l_paren, r_paren, l_bracket, r_bracket, l_brace, r_brace, comma, dot, semicolon, fat_arrow, arrow,
  question, newline,
}

pub data Message : Type 0 where
  unexpected : ℕ → Message
  unterminated_string unterminated_symbol unterminated_comment : Message

-- The kind of the token, where it ends, and a message.
abbrev pub Scanned : Type 0
Scanned = TokenKind × Cursor × Option Message

abbrev pub plain : TokenKind → Cursor → Scanned
plain k c = (k, c, none)

-- Operators that are told apart by the bytes that follow: the kind where none of the branches' bytes
-- comes next.
mutual
  pub data Follow : Type 0 where
    follow : TokenKind → Branches → Follow

  pub data Branches : Type 0 where
    no_branch : Branches
    branch : ℕ → Follow → Branches → Branches

abbrev pub just : TokenKind → Follow
just k = follow k no_branch

abbrev pub or_equal : TokenKind → TokenKind → Follow
or_equal k e = follow k (branch b'=' (just e) no_branch)

-- The arms of `next_token` for operators and delimiters.
abbrev pub operators : List (ℕ × Follow)
operators =
    (b'\n', just newline)
    ∷ (b'+', or_equal plus plus_equal)
    ∷ (b'-', follow minus (branch b'=' (just minus_equal) (branch b'>' (just arrow) no_branch)))
    ∷ (
      b'*',
      follow star (
          branch b'*' (or_equal double_star double_star_equal)
            (branch b'=' (just star_equal) no_branch)),
    )
    ∷ (b'/', or_equal slash slash_equal)
    ∷ (b'%', or_equal percent percent_equal)
    ∷ (b'!', follow bang (branch b'=' (just bang_equal) (branch b'~' (just not_match) no_branch)))
    ∷ (
      b'<',
      follow less (
          branch b'=' (follow less_equal (branch b'>' (just spaceship) no_branch))
            (branch b'<' (or_equal less_less less_less_equal) no_branch)),
    )
    ∷ (
      b'>',
      follow greater (
          branch b'=' (just greater_equal)
            (branch b'>' (or_equal greater_greater greater_greater_equal) no_branch)),
    )
    ∷ (
      b'&',
      follow amp
          (branch b'&' (or_equal amp_amp amp_amp_equal) (branch b'=' (just amp_equal) no_branch)),
    )
    ∷ (
      b'|',
      follow pipe (
          branch b'|' (or_equal pipe_pipe pipe_pipe_equal)
            (branch b'=' (just pipe_equal) no_branch)),
    )
    ∷ (b'^', or_equal caret caret_equal)
    ∷ (b'~', just tilde)
    ∷ (
      b'.',
      follow dot
          (branch b'.' (follow dot_dot (branch b'.' (just dot_dot_dot) no_branch)) no_branch),
    )
    ∷ (b'(', just l_paren)
    ∷ (b')', just r_paren)
    ∷ (b'[', just l_bracket)
    ∷ (b']', just r_bracket)
    ∷ (b'{', just l_brace)
    ∷ (b'}', just r_brace)
    ∷ (b',', just comma)
    ∷ (b';', just semicolon)
    ∷ (b'?', just question)
    ∷ []

unfoldable mutual
  pub munch : Follow → Cursor → Scanned
  munch (follow k bs) c = munch_in bs k c

  pub munch_in : Branches → TokenKind → Cursor → Scanned
  munch_in no_branch k c = plain k c
  munch_in (branch b f bs) k c =
      let longer = munch f (advance c) in
      let others = munch_in bs k c in if peek c == b then longer else others

-- `=`, before the test for a block comment.
abbrev pub equals : Follow
equals = follow equal (
    branch b'=' (follow equal_equal (branch b'=' (just triple_equal) no_branch))
      (branch b'~' (just match_op) (branch b'>' (just fat_arrow) no_branch)))
