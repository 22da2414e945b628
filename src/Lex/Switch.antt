-- ===== src/Lex/Switch.antt =====
-- lex.c: the states of `next_token`, and what its cases share. A case takes the globals and the token
-- that is filled in, and returns the next state with both.
use dp4c.Prelude.{ℕ, Bool, ◌||◌, ◌==◌, Result, ok, ◌>>=◌}
use dp4c.Token.{Token, TokenClass}
use dp4c.Lex.Chars.{Lexer, lexeme_advance, lexeme_to_cstring, whole}

-- The values of `state`.
pub data State : Type 0 where
  state_0 state_1 state_2 state_3 state_4 : State
  state_100 state_101 state_102 state_103 state_104 state_105 state_106 state_107 : State
  state_108 state_109 state_110 state_111 state_112 state_113 state_114 state_115 : State
  state_116 state_117 state_118 state_119 state_120 state_121 state_122 : State
  state_200 state_201 state_310 state_311 : State
  state_400 state_401 state_402 state_403 state_404 state_405 state_406 : State
  state_407 state_408 state_409 state_500 : State

abbrev pub Step : Type 0
Step = Result (State × Lexer × Token)

abbrev pub is_newline : ℕ → Bool
is_newline c = c == b'\n' || c == b'\r'

-- `'\n' + '\r'`
abbrev pub newline_pair : ℕ
newline_pair = 23

-- The end of most cases: the class and the text of the token, and the lexeme behind it.
unfoldable pub accept : TokenClass → Lexer → Token → Step
accept klass l token = do
  l' ← lexeme_advance l
  ok (state_0, l', record token { klass = klass; lexeme = lexeme_to_cstring l (whole l) })
