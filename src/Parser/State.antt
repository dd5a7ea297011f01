-- ===== src/Parser/State.antt =====
-- crates/jdruby-parser/src/parser.rs: the parser's state and its token helpers. A parsing function
-- takes the state and comes to an answer with the new state, to `None` with the new state, to a
-- panic, or to the end of the model's fuel.
use jdruby.Base.{
  ℕ, zero, suc, ◌+◌, ◌||◌, Bool, true, false, Option, some, none, List, [], ◌∷◌, ◌++◌, length,
  get_elem?, ltb, leb, if◌then◌else◌,
}
use jdruby.Common.Source.{SourceSpan, merge}
use jdruby.Lexer.Token.{
  TokenKind, Token, eof, newline, comment, semicolon, identifier, constant, integer, float,
  string_double, string_single, symbol, kw_true, kw_false, kw_nil, instance_var, class_var,
  global_var, l_bracket, l_brace, colon,
}
use jdruby.Ast.{Text}
use jdruby.Parser.Kinds.{same_kind}

-- What the text of a diagnostic is made of; a kind is the one that was found.
pub data Message : Type 0 where
  expected : TokenKind → TokenKind → Message
  unexpected : TokenKind → Message
  expected_identifier : TokenKind → Message
  expected_identifier_or_constant : TokenKind → Message
  unexpected_in_body : TokenKind → Message
  unexpected_in_block : TokenKind → Message
  invalid_target : Message
  expected_string : Message

pub record Diagnostic : Type 0 where
  pub message : Message
  pub span : SourceSpan

pub record Parser : Type 0 where
  pub tokens : List Token
  pub pos : ℕ
  pub diagnostics : List Diagnostic

unfoldable pub new_parser : List Token → Parser
new_parser tokens = record { tokens = tokens; pos = 0; diagnostics = [] }

pub data Parsed (A : Type 0) : Type 0 where
  parsed : A → Parser → Parsed A
  failed : Parser → Parsed A
  panicked : Parsed A
  out_of_fuel : Parsed A

abbrev pub Parse : Type 0 → Type 0
Parse A = Parser → Parsed A

abbrev pub bind : {A B : Type 0} → Parsed A → (A → Parse B) → Parsed B
bind (parsed a s) f = f a s
bind (failed s) f = failed s
bind panicked f = panicked
bind out_of_fuel f = out_of_fuel

infixl 5 ◌>>=◌ ◌>>◌
unfoldable pub ◌>>=◌ : {A B : Type 0} → Parse A → (A → Parse B) → Parse B
◌>>=◌ p f s = bind (p s) f

abbrev pub ◌>>◌ : {A B : Type 0} → Parse A → Parse B → Parse B
p >> q = p >>= λ _. q

unfoldable pub pure : {A : Type 0} → A → Parse A
pure a s = parsed a s

unfoldable pub give_up : {A : Type 0} → Parse A
give_up s = out_of_fuel

unfoldable pub crash : {A : Type 0} → Parse A
crash s = panicked

-- A value read off the state.
unfoldable pub gets : {A : Type 0} → (Parser → A) → Parse A
gets f s = parsed (f s) s

-- `tokens.get(i)`, or the last token past the end; the list is not empty where there is one.
unfoldable pub token_at : ℕ → List Token → Option Token
token_at i [] = none
token_at zero (t ∷ ts) = some t
token_at (suc i) (t ∷ []) = some t
token_at (suc i) (t ∷ u ∷ ts) = token_at i (u ∷ ts)

abbrev pub with_token : {A : Type 0} → Option Token → (Token → Parse A) → Parse A
with_token none f s = panicked
with_token (some t) f s = f t s

-- The current token, given to what is done with it.
unfoldable pub on_current : {A : Type 0} → (Token → Parse A) → Parse A
on_current f s = with_token (token_at s.pos s.tokens) f s

abbrev pub span_of : Token → SourceSpan
span_of t = record { start = t.start; end = t.end }

unfoldable pub current_kind : Parse TokenKind
current_kind = on_current λ t. pure t.kind

unfoldable pub current_span : Parse SourceSpan
current_span = on_current λ t. pure (span_of t)

unfoldable pub lexeme : Parse Text
lexeme = on_current λ t. pure t.lexeme

-- `None` of `tokens.last()` is a panic here too, by the subtraction.
unfoldable pub advance : Parse Token
advance =
    on_current
      λ t s. parsed t (if ltb s.pos (length s.tokens) then record s { pos = s.pos + 1 } else s)

-- The two ways that the code goes on a test of the current kind.
unfoldable pub branch : {A : Type 0} → (TokenKind → Bool) → Parse A → Parse A → Parse A
branch test p q = on_current λ t s. if test t.kind then p s else q s

abbrev pub check : TokenKind → TokenKind → Bool
check k j = same_kind k j

unfoldable pub error : Message → Parse (Unit {0})
error m = on_current λ t s.
    parsed tt
      (record s { diagnostics = s.diagnostics ++ record { message = m; span = span_of t } ∷ [] })

abbrev pub none_here : {A : Type 0} → Parse A
none_here s = failed s

unfoldable pub fail_with : {A : Type 0} → (TokenKind → Message) → Parse A
fail_with m = do k ← current_kind; error (m k); none_here

-- `eat` where its answer is not used, and where it is.
unfoldable pub eat : TokenKind → Parse Bool
eat k = branch (check k) (advance >> pure true) (pure false)

unfoldable pub expect : TokenKind → Parse Token
expect k = branch (check k) advance (fail_with (expected k))

-- `is_at_end`, of the current kind and the state.
abbrev pub is_at_end : TokenKind → Parser → Bool
is_at_end k s = leb (length s.tokens) s.pos || check eof k

-- The two ways on at a test `if self.is_at_end()`, or one more on the current kind before it.
unfoldable pub branch_end : {A : Type 0} → (TokenKind → Bool) → Parse A → Parse A → Parse A
branch_end test p q = on_current λ t s. if test t.kind || is_at_end t.kind s then p s else q s

abbrev pub is_newline : TokenKind → Bool
is_newline k = check newline k || check comment k

abbrev pub is_terminator : TokenKind → Bool
is_terminator k = check newline k || check semicolon k || check comment k

-- A loop over the tokens that pass a test.
unfoldable pub skip : (TokenKind → Bool) → ℕ → Parse (Unit {0})
skip test zero = give_up
skip test (suc n) = branch test (advance >> skip test n) (pure tt)

-- A turn of the loop takes a token, so there are no more turns than tokens.
unfoldable pub skip_newlines : Parse (Unit {0})
skip_newlines s = skip is_newline (suc (length s.tokens)) s

unfoldable pub skip_terminators : Parse (Unit {0})
skip_terminators s = skip is_terminator (suc (length s.tokens)) s

-- The span of the token before a position.
unfoldable pub span_before : ℕ → Parse SourceSpan
span_before zero s = parsed (record { start = 0; end = 0 }) s
span_before (suc i) s = with_token (get_elem? s.tokens i) (λ t. pure (span_of t)) s

unfoldable pub prev_span : Parse SourceSpan
prev_span s = span_before s.pos s

-- `start.merge(self.prev_span())`
unfoldable pub span_from : SourceSpan → Parse SourceSpan
span_from start = do end ← prev_span; pure (merge start end)

-- `peek_at`, of the token that is looked up.
abbrev pub kind_or_eof : Option Token → TokenKind
kind_or_eof none = eof
kind_or_eof (some t) = t.kind

unfoldable pub expect_ident : Parse Text
expect_ident =
    branch (check identifier) (do s ← lexeme; advance; pure s) (fail_with expected_identifier)

unfoldable pub expect_ident_or_const : Parse Text
expect_ident_or_const =
    branch (λ k. check identifier k || check constant k) (do s ← lexeme; advance; pure s)
      (fail_with expected_identifier_or_constant)

unfoldable pub is_arg_start : TokenKind → Bool
is_arg_start integer = true
is_arg_start float = true
is_arg_start string_double = true
is_arg_start string_single = true
is_arg_start symbol = true
is_arg_start kw_true = true
is_arg_start kw_false = true
is_arg_start kw_nil = true
is_arg_start identifier = true
is_arg_start constant = true
is_arg_start instance_var = true
is_arg_start class_var = true
is_arg_start global_var = true
is_arg_start l_bracket = true
is_arg_start l_brace = true
is_arg_start colon = true
is_arg_start _ = false
