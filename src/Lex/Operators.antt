-- ===== src/Lex/Operators.antt =====
-- lex.c: the cases 1 to 122: the first character, and operators.
use dp4c.Prelude.{
  ℕ, ◌+◌, List, [], ◌∷◌, Bool, true, false, ◌||◌, ◌==◌, if◌then◌else◌, codes, Result, ok, failed,
  assertion, ◌>>=◌,
}
use dp4c.Token.{
  Token, TokenClass, semicolon, parenth_open, parenth_close, angle_open, angle_close, brace_open,
  brace_close, bracket_open, bracket_close, dontcare, colon, dot_prefix, comma, minus, unary_minus,
  plus, star, slash, equal, two_equal, exclamation_equal, exclamation, two_pipe, angle_open_equal,
  angle_close_equal, tilda, ampersand, two_ampersand, three_ampersand, pipe, circumflex,
  two_angle_open, two_angle_close, unknown, end_of_input, lexical_error,
}
use dp4c.Basic.{cstr_is_letter, cstr_is_digit}
use dp4c.Lex.Chars.{Lexer, char_lookahead, char_advance, lexeme_advance}
use dp4c.Lex.Switch.{
  State, Step, state_0, state_1, state_2, state_3, state_100, state_101, state_102, state_103,
  state_104, state_105, state_106, state_107, state_108, state_109, state_110, state_111, state_112,
  state_113, state_114, state_115, state_116, state_117, state_118, state_119, state_120, state_121,
  state_122, state_200, state_310, state_311, state_400, state_500, is_newline, newline_pair,
  accept,
}

-- The state for a first character that is no white space.
unfoldable pub first_state : ℕ → Result State
first_state c =
    if c == b';'
    then ok state_100
    else if c == b'<'
    then ok state_101
    else if c == b'>'
    then ok state_102
    else if c == b'_'
    then ok state_103
    else if c == b':'
    then ok state_104
    else if c == b'('
    then ok state_105
    else if c == b')'
    then ok state_106
    else if c == b'.'
    then ok state_107
    else if c == b'{'
    then ok state_108
    else if c == b'}'
    then ok state_109
    else if c == b'['
    then ok state_110
    else if c == b']'
    then ok state_111
    else if c == b','
    then ok state_112
    else if c == b'-'
    then ok state_113
    else if c == b'+'
    then ok state_114
    else if c == b'*'
    then ok state_115
    else if c == b'/'
    then ok state_116
    else if c == b'='
    then ok state_117
    else if c == b'!'
    then ok state_118
    else if c == b'&'
    then ok state_119
    else if c == b'|'
    then ok state_120
    else if c == b'^'
    then ok state_121
    else if c == b'~'
    then ok state_122
    else if c == b'"'
    then ok state_200
    else do
      digit ← cstr_is_digit c 10
      ok (
          if digit
          then state_400
          else if cstr_is_letter c
          then state_500
          else if c == 0
          then state_2
          else state_3)

-- The end of a line of white space: the two characters of a pair are one end.
unfoldable pub end_line : ℕ → Lexer → Result Lexer
end_line c l = do
  cc ← char_lookahead 0 l
  l' ← (if c + cc == newline_pair then lexeme_advance l else ok l)
  ok (record l' { line_nr = l'.line_nr + 1 })

unfoldable pub case_1 : ℕ → Lexer → Token → Step
case_1 c l token =
    if c == b' ' || c == b'\t' || c == b'\n' || c == b'\r'
    then (do
      l' ← lexeme_advance l
      l'' ← (if is_newline c then end_line c l' else ok l')
      ok (state_1, l'', token))
    else (do state ← first_state c; ok (state, l, token))

unfoldable pub case_2 : Lexer → Token → Step
case_2 l token =
    ok (state_0, l, record token { klass = end_of_input; lexeme = codes "<end-of-input>" })

unfoldable pub case_3 : Lexer → Token → Step
case_3 l token = do
  l' ← lexeme_advance l
  ok (state_0, l', record token { klass = unknown; lexeme = codes "<unknown>" })

unfoldable pub case_4 : Lexer → Token → Step
case_4 l token = do
  l' ← lexeme_advance l
  ok (state_0, l', record token { klass = lexical_error; lexeme = codes "<error>" })

-- `if (char_lookahead(1) == want) char_advance(1);`, with whether it did.
unfoldable pub take_next : ℕ → Lexer → Result (Bool × Lexer)
take_next want l = do
  cc ← char_lookahead 1 l
  elim (cc == want) [ true ↦ do (_, l') ← char_advance 1 l; ok (true, l') | false ↦ ok (false, l) ]

unfoldable pub case_100 : Lexer → Token → Step
case_100 = accept semicolon

unfoldable pub case_101 : Lexer → Token → Step
case_101 l token = do
  (done, l') ← take_next b'=' l
  elim done [
    | true ↦ accept angle_open_equal l' token
    | false ↦ do
      (twice, l'') ← take_next b'<' l'
      accept (if twice then two_angle_open else angle_open) l'' token
  ]

unfoldable pub case_102 : Lexer → Token → Step
case_102 l token = do
  (done, l') ← take_next b'=' l
  elim done [
    | true ↦ accept angle_close_equal l' token
    | false ↦ do
      (twice, l'') ← take_next b'>' l'
      accept (if twice then two_angle_close else angle_close) l'' token
  ]

unfoldable pub case_103 : Lexer → Token → Step
case_103 l token = do
  cc ← char_lookahead 1 l
  digit ← cstr_is_digit cc 10
  (if cstr_is_letter cc || digit || cc == b'_'
      then ok (state_500, l, token)
      else accept dontcare l token)

unfoldable pub case_104 : Lexer → Token → Step
case_104 = accept colon

unfoldable pub case_105 : Lexer → Token → Step
case_105 = accept parenth_open

unfoldable pub case_106 : Lexer → Token → Step
case_106 = accept parenth_close

unfoldable pub case_107 : Lexer → Token → Step
case_107 = accept dot_prefix

unfoldable pub case_108 : Lexer → Token → Step
case_108 = accept brace_open

unfoldable pub case_109 : Lexer → Token → Step
case_109 = accept brace_close

unfoldable pub case_110 : Lexer → Token → Step
case_110 = accept bracket_open

unfoldable pub case_111 : Lexer → Token → Step
case_111 = accept bracket_close

unfoldable pub case_112 : Lexer → Token → Step
case_112 = accept comma

unfoldable pub minus_class : TokenClass → TokenClass
minus_class parenth_open = unary_minus
minus_class _ = minus

-- `array_get` of the last token fails on an empty array.
unfoldable pub last_klass : List Token → Result TokenClass
last_klass [] = failed assertion
last_klass (prev ∷ _) = ok prev.klass

unfoldable pub case_113 : Lexer → Token → Step
case_113 l token = do prev ← last_klass l.tokens; accept (minus_class prev) l token

unfoldable pub case_114 : Lexer → Token → Step
case_114 = accept plus

unfoldable pub case_115 : Lexer → Token → Step
case_115 = accept star

unfoldable pub case_116 : Lexer → Token → Step
case_116 l token = do
  (starred, l') ← take_next b'*' l
  elim starred [
    | true ↦ ok (state_310, l', token)
    | false ↦ do
      cc ← char_lookahead 1 l'
      (if cc == b'/' then ok (state_311, l', token) else accept slash l' token)
  ]

unfoldable pub case_117 : Lexer → Token → Step
case_117 l token = do
  (done, l') ← take_next b'=' l
  accept (if done then two_equal else equal) l' token

unfoldable pub case_118 : Lexer → Token → Step
case_118 l token = do
  (done, l') ← take_next b'=' l
  accept (if done then exclamation_equal else exclamation) l' token

unfoldable pub case_119 : Lexer → Token → Step
case_119 l token = do
  (twice, l') ← take_next b'&' l
  elim twice [
    | true ↦ do
      (thrice, l'') ← take_next b'&' l'
      accept (if thrice then three_ampersand else two_ampersand) l'' token
    | false ↦ accept ampersand l' token
  ]

unfoldable pub case_120 : Lexer → Token → Step
case_120 l token = do
  (twice, l') ← take_next b'|' l
  accept (if twice then two_pipe else pipe) l' token

unfoldable pub case_121 : Lexer → Token → Step
case_121 = accept circumflex

unfoldable pub case_122 : Lexer → Token → Step
case_122 = accept tilda
