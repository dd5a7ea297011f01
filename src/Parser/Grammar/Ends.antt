-- ===== src/Parser/Grammar/Ends.antt =====
-- What may follow a sum at each level of operators of parser.rs.
use jdruby.Base.{◌≡◌, refl, false, none}
use jdruby.Lexer.Token.{
  TokenKind, eof, newline, semicolon, comma, r_paren, r_bracket, kw_then, kw_do, kw_end, question,
}
use jdruby.Parser.Kinds.{kind_index}
use jdruby.Parser.State.{check}
use jdruby.Parser.Expression.{
  or_op, and_op, comparison_op, bitor_op, bitxor_op, bitand_op, shift_op, additive_op,
  multiplicative_op, range_op,
}
use jdruby.Parser.Grammar.{FollowsLevel}
use jdruby.Parser.Grammar.Sums.{FollowsNumber, Products, plain}

-- What a number, a product or a sum may stand before: none of these starts with an operator.
pub data Closes : TokenKind → Type 0 where
  at_eof : Closes eof
  at_newline : Closes newline
  at_semicolon : Closes semicolon
  at_comma : Closes comma
  at_paren : Closes r_paren
  at_bracket : Closes r_bracket
  at_then : Closes kw_then
  at_do : Closes kw_do
  at_end : Closes kw_end

abbrev pub Sums : TokenKind → Type 0
Sums = FollowsLevel additive_op Products

-- Behind the levels of bits and shifts.
abbrev pub Bits : TokenKind → Type 0
Bits =
    FollowsLevel bitor_op
      (FollowsLevel bitxor_op (FollowsLevel bitand_op (FollowsLevel shift_op Sums)))

pub record Ranges (k : TokenKind) : Type 0 where
  pub bits : Bits k
  pub no_range : range_op k ≡ none

abbrev pub Comparisons : TokenKind → Type 0
Comparisons = FollowsLevel comparison_op Ranges

abbrev pub Ors : TokenKind → Type 0
Ors = FollowsLevel or_op (FollowsLevel and_op Comparisons)

-- A kind that belongs to no number and is no level's operator.
follows :
    (k : TokenKind)
    → FollowsNumber k
    → multiplicative_op k ≡ none
    → additive_op k ≡ none
    → shift_op k ≡ none
    → bitand_op k ≡ none
    → bitxor_op k ≡ none
    → bitor_op k ≡ none
    → range_op k ≡ none
    → comparison_op k ≡ none
    → and_op k ≡ none
    → or_op k ≡ none
    → Ors k
follows k low a b c d e f g h i j =
    let products : Products k = record { below = low; no_op = a } in
    let sums : Sums k = record { below = products; no_op = b } in
    let bits : Bits k = record {
      below = record {
        below = record { below = record { below = sums; no_op = c }; no_op = d };
        no_op = e;
      };
      no_op = f;
    } in
    let comparisons : Comparisons k = record {
      below = record { bits = bits; no_range = g };
      no_op = h;
    } in
    record { below = record { below = comparisons; no_op = i }; no_op = j }

-- Every level's operators are others than these kinds.
pub Closes-follows : {k : TokenKind} → Closes k → Ors k × (check question k ≡ false)
unfolding or_op and_op comparison_op bitor_op bitxor_op bitand_op shift_op additive_op
    multiplicative_op range_op kind_index
Closes-follows at_eof = (
  follows eof (plain eof refl refl refl refl) refl refl refl refl refl refl refl refl refl refl,
  refl,
)
Closes-follows at_newline = (
  follows newline (plain newline refl refl refl refl) refl refl refl refl refl refl refl refl refl
      refl,
  refl,
)
Closes-follows at_semicolon = (
  follows semicolon (plain semicolon refl refl refl refl) refl refl refl refl refl refl refl refl
      refl refl,
  refl,
)
Closes-follows at_comma = (
  follows comma (plain comma refl refl refl refl) refl refl refl refl refl refl refl refl refl refl,
  refl,
)
Closes-follows at_paren = (
  follows r_paren (plain r_paren refl refl refl refl) refl refl refl refl refl refl refl refl refl
      refl,
  refl,
)
Closes-follows at_bracket = (
  follows r_bracket (plain r_bracket refl refl refl refl) refl refl refl refl refl refl refl refl
      refl refl,
  refl,
)
Closes-follows at_then = (
  follows kw_then (plain kw_then refl refl refl refl) refl refl refl refl refl refl refl refl refl
      refl,
  refl,
)
Closes-follows at_do = (
  follows kw_do (plain kw_do refl refl refl refl) refl refl refl refl refl refl refl refl refl refl,
  refl,
)
Closes-follows at_end = (
  follows kw_end (plain kw_end refl refl refl refl) refl refl refl refl refl refl refl refl refl
      refl,
  refl,
)
