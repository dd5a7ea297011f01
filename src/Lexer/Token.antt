-- ===== src/Lexer/Token.antt =====
-- crates/jdruby-lexer/src/token.rs: tokens and the keyword table. A lexeme is its bytes.
use Prim.Native.Char.{code}
use Prim.Native.String.{String}
use jdruby.Base.{ℕ, ◌==◌, ◌&&◌, Bool, true, false, Option, some, none, List, [], ◌∷◌, if◌then◌else◌}

pub data TokenKind : Type 0 where
  integer float string_double string_single symbol regex identifier constant instance_var :
      TokenKind
  class_var global_var kw_def kw_end kw_class kw_module kw_if kw_elsif kw_else kw_unless : TokenKind
  kw_case kw_when kw_in kw_while kw_until kw_for kw_do kw_begin kw_rescue kw_ensure kw_raise :
      TokenKind
  kw_return kw_yield kw_block kw_self kw_super kw_nil kw_true kw_false kw_and kw_or kw_not :
      TokenKind
  kw_then kw_require kw_require_relative kw_load kw_include kw_extend kw_prepend : TokenKind
  kw_attr_reader kw_attr_writer kw_attr_accessor kw_public kw_private kw_protected kw_lambda :
      TokenKind
  kw_proc kw_puts kw_print kw_p kw_alias kw_defined kw_break kw_next kw_redo kw_retry : TokenKind
  kw_freeze plus minus star slash percent double_star equal_equal bang_equal less greater :
      TokenKind
  less_equal greater_equal spaceship triple_equal match_op not_match amp_amp pipe_pipe bang :
      TokenKind
  amp pipe caret tilde less_less greater_greater dot_dot dot_dot_dot equal plus_equal : TokenKind
  minus_equal star_equal slash_equal percent_equal double_star_equal amp_amp_equal : TokenKind
  pipe_pipe_equal amp_equal pipe_equal caret_equal less_less_equal greater_greater_equal : TokenKind
  l_paren r_paren l_bracket r_bracket l_brace r_brace comma dot colon_colon semicolon : TokenKind
  fat_arrow arrow question colon at newline interpolation_start interpolation_end comment :
      TokenKind
  eof error : TokenKind

-- The span is `start` and `end`.
pub record Token : Type 0 where
  pub kind : TokenKind
  pub lexeme : List ℕ
  pub start : ℕ
  pub end : ℕ

-- The bytes of an ASCII text.
abbrev pub spells : List ℕ → String → Bool
spells [] String.[] = true
spells (b ∷ bs) (String.◌∷◌ c s) = b == code c && spells bs s
spells _ _ = false

-- The arms of `keyword_from_str`.
abbrev pub keywords : List (String × TokenKind)
keywords =
    ("def", kw_def)
    ∷ ("end", kw_end)
    ∷ ("class", kw_class)
    ∷ ("module", kw_module)
    ∷ ("if", kw_if)
    ∷ ("elsif", kw_elsif)
    ∷ ("else", kw_else)
    ∷ ("unless", kw_unless)
    ∷ ("case", kw_case)
    ∷ ("when", kw_when)
    ∷ ("in", kw_in)
    ∷ ("while", kw_while)
    ∷ ("until", kw_until)
    ∷ ("for", kw_for)
    ∷ ("do", kw_do)
    ∷ ("begin", kw_begin)
    ∷ ("rescue", kw_rescue)
    ∷ ("ensure", kw_ensure)
    ∷ ("raise", kw_raise)
    ∷ ("return", kw_return)
    ∷ ("yield", kw_yield)
    ∷ ("self", kw_self)
    ∷ ("super", kw_super)
    ∷ ("nil", kw_nil)
    ∷ ("true", kw_true)
    ∷ ("false", kw_false)
    ∷ ("and", kw_and)
    ∷ ("or", kw_or)
    ∷ ("not", kw_not)
    ∷ ("then", kw_then)
    ∷ ("require", kw_require)
    ∷ ("require_relative", kw_require_relative)
    ∷ ("load", kw_load)
    ∷ ("include", kw_include)
    ∷ ("extend", kw_extend)
    ∷ ("prepend", kw_prepend)
    ∷ ("attr_reader", kw_attr_reader)
    ∷ ("attr_writer", kw_attr_writer)
    ∷ ("attr_accessor", kw_attr_accessor)
    ∷ ("public", kw_public)
    ∷ ("private", kw_private)
    ∷ ("protected", kw_protected)
    ∷ ("lambda", kw_lambda)
    ∷ ("proc", kw_proc)
    ∷ ("puts", kw_puts)
    ∷ ("print", kw_print)
    ∷ ("p", kw_p)
    ∷ ("alias", kw_alias)
    ∷ ("defined?", kw_defined)
    ∷ ("break", kw_break)
    ∷ ("next", kw_next)
    ∷ ("redo", kw_redo)
    ∷ ("retry", kw_retry)
    ∷ ("freeze", kw_freeze)
    ∷ []

unfoldable pub find_keyword : List (String × TokenKind) → List ℕ → Option TokenKind
find_keyword [] bs = none
find_keyword ((w, k) ∷ ws) bs =
    let rest = find_keyword ws bs in if spells bs w then some k else rest

unfoldable pub keyword_from_str : List ℕ → Option TokenKind
keyword_from_str bs = find_keyword keywords bs

unfoldable pub is_keyword : TokenKind → Bool
is_keyword kw_def = true
is_keyword kw_end = true
is_keyword kw_class = true
is_keyword kw_module = true
is_keyword kw_if = true
is_keyword kw_elsif = true
is_keyword kw_else = true
is_keyword kw_unless = true
is_keyword kw_case = true
is_keyword kw_when = true
is_keyword kw_in = true
is_keyword kw_while = true
is_keyword kw_until = true
is_keyword kw_for = true
is_keyword kw_do = true
is_keyword kw_begin = true
is_keyword kw_rescue = true
is_keyword kw_ensure = true
is_keyword kw_raise = true
is_keyword kw_return = true
is_keyword kw_yield = true
is_keyword kw_block = true
is_keyword kw_self = true
is_keyword kw_super = true
is_keyword kw_nil = true
is_keyword kw_true = true
is_keyword kw_false = true
is_keyword kw_and = true
is_keyword kw_or = true
is_keyword kw_not = true
is_keyword kw_then = true
is_keyword kw_require = true
is_keyword kw_require_relative = true
is_keyword kw_load = true
is_keyword kw_include = true
is_keyword kw_extend = true
is_keyword kw_prepend = true
is_keyword kw_attr_reader = true
is_keyword kw_attr_writer = true
is_keyword kw_attr_accessor = true
is_keyword kw_public = true
is_keyword kw_private = true
is_keyword kw_protected = true
is_keyword kw_lambda = true
is_keyword kw_proc = true
is_keyword kw_puts = true
is_keyword kw_print = true
is_keyword kw_p = true
is_keyword kw_alias = true
is_keyword kw_defined = true
is_keyword kw_break = true
is_keyword kw_next = true
is_keyword kw_redo = true
is_keyword kw_retry = true
is_keyword kw_freeze = true
is_keyword _ = false

unfoldable pub is_literal : TokenKind → Bool
is_literal integer = true
is_literal float = true
is_literal string_double = true
is_literal string_single = true
is_literal symbol = true
is_literal regex = true
is_literal _ = false

unfoldable pub is_operator : TokenKind → Bool
is_operator plus = true
is_operator minus = true
is_operator star = true
is_operator slash = true
is_operator percent = true
is_operator double_star = true
is_operator equal_equal = true
is_operator bang_equal = true
is_operator less = true
is_operator greater = true
is_operator less_equal = true
is_operator greater_equal = true
is_operator spaceship = true
is_operator triple_equal = true
is_operator match_op = true
is_operator not_match = true
is_operator amp_amp = true
is_operator pipe_pipe = true
is_operator bang = true
is_operator amp = true
is_operator pipe = true
is_operator caret = true
is_operator tilde = true
is_operator less_less = true
is_operator greater_greater = true
is_operator dot_dot = true
is_operator dot_dot_dot = true
is_operator _ = false
