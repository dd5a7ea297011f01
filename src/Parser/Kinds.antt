-- ===== src/Parser/Kinds.antt =====
-- The equality of TokenKind, which the source derives, by a number for each kind.
use jdruby.Base.{ℕ, Bool, ◌==◌}
use jdruby.Lexer.Token.{
  TokenKind, integer, float, string_double, string_single, symbol, regex, identifier, constant,
  instance_var, class_var, global_var, kw_def, kw_end, kw_class, kw_module, kw_if, kw_elsif,
  kw_else, kw_unless, kw_case, kw_when, kw_in, kw_while, kw_until, kw_for, kw_do, kw_begin,
  kw_rescue, kw_ensure, kw_raise, kw_return, kw_yield, kw_block, kw_self, kw_super, kw_nil, kw_true,
  kw_false, kw_and, kw_or, kw_not, kw_then, kw_require, kw_require_relative, kw_load, kw_include,
  kw_extend, kw_prepend, kw_attr_reader, kw_attr_writer, kw_attr_accessor, kw_public, kw_private,
  kw_protected, kw_lambda, kw_proc, kw_puts, kw_print, kw_p, kw_alias, kw_defined, kw_break,
  kw_next, kw_redo, kw_retry, kw_freeze, plus, minus, star, slash, percent, double_star,
  equal_equal, bang_equal, less, greater, less_equal, greater_equal, spaceship, triple_equal,
  match_op, not_match, amp_amp, pipe_pipe, bang, amp, pipe, caret, tilde, less_less,
  greater_greater, dot_dot, dot_dot_dot, equal, plus_equal, minus_equal, star_equal, slash_equal,
  percent_equal, double_star_equal, amp_amp_equal, pipe_pipe_equal, amp_equal, pipe_equal,
  caret_equal, less_less_equal, greater_greater_equal, l_paren, r_paren, l_bracket, r_bracket,
  l_brace, r_brace, comma, dot, colon_colon, semicolon, fat_arrow, arrow, question, colon, at,
  newline, interpolation_start, interpolation_end, comment, eof, error,
}

unfoldable pub kind_index : TokenKind → ℕ
kind_index integer = 0
kind_index float = 1
kind_index string_double = 2
kind_index string_single = 3
kind_index symbol = 4
kind_index regex = 5
kind_index identifier = 6
kind_index constant = 7
kind_index instance_var = 8
kind_index class_var = 9
kind_index global_var = 10
kind_index kw_def = 11
kind_index kw_end = 12
kind_index kw_class = 13
kind_index kw_module = 14
kind_index kw_if = 15
kind_index kw_elsif = 16
kind_index kw_else = 17
kind_index kw_unless = 18
kind_index kw_case = 19
kind_index kw_when = 20
kind_index kw_in = 21
kind_index kw_while = 22
kind_index kw_until = 23
kind_index kw_for = 24
kind_index kw_do = 25
kind_index kw_begin = 26
kind_index kw_rescue = 27
kind_index kw_ensure = 28
kind_index kw_raise = 29
kind_index kw_return = 30
kind_index kw_yield = 31
kind_index kw_block = 32
kind_index kw_self = 33
kind_index kw_super = 34
kind_index kw_nil = 35
kind_index kw_true = 36
kind_index kw_false = 37
kind_index kw_and = 38
kind_index kw_or = 39
kind_index kw_not = 40
kind_index kw_then = 41
kind_index kw_require = 42
kind_index kw_require_relative = 43
kind_index kw_load = 44
kind_index kw_include = 45
kind_index kw_extend = 46
kind_index kw_prepend = 47
kind_index kw_attr_reader = 48
kind_index kw_attr_writer = 49
kind_index kw_attr_accessor = 50
kind_index kw_public = 51
kind_index kw_private = 52
kind_index kw_protected = 53
kind_index kw_lambda = 54
kind_index kw_proc = 55
kind_index kw_puts = 56
kind_index kw_print = 57
kind_index kw_p = 58
kind_index kw_alias = 59
kind_index kw_defined = 60
kind_index kw_break = 61
kind_index kw_next = 62
kind_index kw_redo = 63
kind_index kw_retry = 64
kind_index kw_freeze = 65
kind_index plus = 66
kind_index minus = 67
kind_index star = 68
kind_index slash = 69
kind_index percent = 70
kind_index double_star = 71
kind_index equal_equal = 72
kind_index bang_equal = 73
kind_index less = 74
kind_index greater = 75
kind_index less_equal = 76
kind_index greater_equal = 77
kind_index spaceship = 78
kind_index triple_equal = 79
kind_index match_op = 80
kind_index not_match = 81
kind_index amp_amp = 82
kind_index pipe_pipe = 83
kind_index bang = 84
kind_index amp = 85
kind_index pipe = 86
kind_index caret = 87
kind_index tilde = 88
kind_index less_less = 89
kind_index greater_greater = 90
kind_index dot_dot = 91
kind_index dot_dot_dot = 92
kind_index equal = 93
kind_index plus_equal = 94
kind_index minus_equal = 95
kind_index star_equal = 96
kind_index slash_equal = 97
kind_index percent_equal = 98
kind_index double_star_equal = 99
kind_index amp_amp_equal = 100
kind_index pipe_pipe_equal = 101
kind_index amp_equal = 102
kind_index pipe_equal = 103
kind_index caret_equal = 104
kind_index less_less_equal = 105
kind_index greater_greater_equal = 106
kind_index l_paren = 107
kind_index r_paren = 108
kind_index l_bracket = 109
kind_index r_bracket = 110
kind_index l_brace = 111
kind_index r_brace = 112
kind_index comma = 113
kind_index dot = 114
kind_index colon_colon = 115
kind_index semicolon = 116
kind_index fat_arrow = 117
kind_index arrow = 118
kind_index question = 119
kind_index colon = 120
kind_index at = 121
kind_index newline = 122
kind_index interpolation_start = 123
kind_index interpolation_end = 124
kind_index comment = 125
kind_index eof = 126
kind_index error = 127

abbrev pub same_kind : TokenKind → TokenKind → Bool
unfolding kind_index
same_kind j k = kind_index j == kind_index k
