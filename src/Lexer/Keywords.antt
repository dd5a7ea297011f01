-- ===== src/Lexer/Keywords.antt =====
-- crates/jdruby-lexer/src/token.rs: the table of keywords and the test for one.
use jdruby.Base.{◌≡◌, refl, true, some, List, ℕ}
use jdruby.Lexer.Token.{TokenKind, keyword_from_str, keywords, is_keyword}
use jdruby.Lexer.Scanned.{find_keyword-Satisfies}

-- What `keyword_from_str` gives for a lexeme passes `is_keyword`.
pub keyword_from_str-is_keyword :
    (bs : List ℕ) (k : TokenKind) → keyword_from_str bs ≡ some k → is_keyword k ≡ true
unfolding keyword_from_str is_keyword
keyword_from_str-is_keyword bs k h = find_keyword-Satisfies is_keyword keywords bs k refl h
