-- ===== src/Lexer/Tests.antt =====
-- The lexer on small sources.
use jdruby.Base.{◌≡◌, refl, true, some, List, [], ◌∷◌, ℕ, done, panic, arith}
use jdruby.Base.Assoc.{lookup}
use jdruby.Lexer.Token.{
  TokenKind, Token, keyword_from_str, find_keyword, is_keyword, kw_end, identifier, equal,
  string_double, eof,
}
use jdruby.Lexer.Cursor.{start_of, eat, double_body}
use jdruby.Lexer.Operators.{munch, munch_in}
use jdruby.Lexer.Literals.{lex_identifier, lex_double_string}
use jdruby.Lexer.Scan.{scan, next_token, Tokens, tokens_from, tokenize}
use jdruby.Lexer.Tiles.{Tiles, tokenize-Tiles}
use jdruby.Lexer.Total.{tokenize-total}
use jdruby.Lexer.Unknown.{next_token-non_ascii}
use jdruby.Lexer.Keywords.{keyword_from_str-is_keyword}

-- `x = "a"`
abbrev assignment : List ℕ
assignment = b'x' ∷ b' ' ∷ b'=' ∷ b' ' ∷ b'"' ∷ b'a' ∷ b'"' ∷ []

abbrev token : TokenKind → List ℕ → ℕ → ℕ → Token
token k l s e = record { kind = k; lexeme = l; start = s; end = e }

abbrev assignment_tokens : List Token
assignment_tokens =
    token identifier (b'x' ∷ []) 0 1
    ∷ token equal (b'=' ∷ []) 2 3
    ∷ token string_double (b'"' ∷ b'a' ∷ b'"' ∷ []) 4 7
    ∷ token eof [] 7 7
    ∷ []

tokenize-assignment : tokenize assignment ≡ done (some (assignment_tokens, []))
unfolding tokenize tokens_from next_token scan eat munch munch_in lex_identifier lex_double_string
    double_body keyword_from_str find_keyword lookup
tokenize-assignment = refl

tokenize-Tiles_example : Tiles 0 assignment assignment_tokens
tokenize-Tiles_example = tokenize-Tiles assignment assignment_tokens [] tokenize-assignment

tokenize-total_example :
    (r : Tokens) × (tokenize assignment ≡ done (some r)) × Tiles 0 assignment r.0
tokenize-total_example = tokenize-total assignment (
  omega arith,
  (omega arith, (omega arith, (omega arith, (omega arith, (omega arith, (omega arith, tt)))))),
)

-- `é`
abbrev accented : List ℕ
accented = 195 ∷ 169 ∷ []

next_token-non_ascii_example : next_token (start_of accented) ≡ panic
next_token-non_ascii_example =
    next_token-non_ascii (start_of accented) 195 169 [] refl (omega arith) refl

keyword_end : keyword_from_str (b'e' ∷ b'n' ∷ b'd' ∷ []) ≡ some kw_end
unfolding keyword_from_str find_keyword
keyword_end = refl

keyword_from_str-is_keyword_example : is_keyword kw_end ≡ true
keyword_from_str-is_keyword_example =
    keyword_from_str-is_keyword (b'e' ∷ b'n' ∷ b'd' ∷ []) kw_end keyword_end
