-- ===== src/Lex/Machine.antt =====
-- lex.c: the loop of `next_token`, and `lex_tokenize`.
use dp4c.Prelude.{
  ℕ, zero, suc, ◌+◌, ◌-◌, ◌*◌, List, [], ◌∷◌, Bool, true, false, length, Result, ok, failed,
  out_of_fuel, assertion, error, unknown_token, Message, ◌>>=◌,
}
use dp4c.Token.{Token, TokenClass, zero_token, start_of_input, end_of_input, unknown, lexical_error}
use dp4c.Lex.Chars.{Lexer, char_lookahead, text_size}
use dp4c.Lex.Switch.{
  State, Step, state_0, state_1, state_2, state_3, state_4, state_100, state_101, state_102,
  state_103, state_104, state_105, state_106, state_107, state_108, state_109, state_110, state_111,
  state_112, state_113, state_114, state_115, state_116, state_117, state_118, state_119, state_120,
  state_121, state_122, state_200, state_201, state_310, state_311, state_400, state_401, state_402,
  state_403, state_404, state_405, state_406, state_407, state_408, state_409, state_500,
}
use dp4c.Lex.Operators.{
  case_1, case_2, case_3, case_4, case_100, case_101, case_102, case_103, case_104, case_105,
  case_106, case_107, case_108, case_109, case_110, case_111, case_112, case_113, case_114,
  case_115, case_116, case_117, case_118, case_119, case_120, case_121, case_122,
}
use dp4c.Lex.Texts.{case_200, case_201, case_310, case_311, case_500}
use dp4c.Lex.Numbers.{
  case_400, case_401, case_402, case_403, case_404, case_405, case_406, case_407, case_408,
  case_409,
}

-- `switch (state)`. The loop ends before a switch on 0, which would be `assert(0)`.
unfoldable pub dispatch : State → ℕ → Lexer → Token → Step
dispatch state_0 c l token = failed assertion
dispatch state_1 c l token = case_1 c l token
dispatch state_2 c l token = case_2 l token
dispatch state_3 c l token = case_3 l token
dispatch state_4 c l token = case_4 l token
dispatch state_100 c l token = case_100 l token
dispatch state_101 c l token = case_101 l token
dispatch state_102 c l token = case_102 l token
dispatch state_103 c l token = case_103 l token
dispatch state_104 c l token = case_104 l token
dispatch state_105 c l token = case_105 l token
dispatch state_106 c l token = case_106 l token
dispatch state_107 c l token = case_107 l token
dispatch state_108 c l token = case_108 l token
dispatch state_109 c l token = case_109 l token
dispatch state_110 c l token = case_110 l token
dispatch state_111 c l token = case_111 l token
dispatch state_112 c l token = case_112 l token
dispatch state_113 c l token = case_113 l token
dispatch state_114 c l token = case_114 l token
dispatch state_115 c l token = case_115 l token
dispatch state_116 c l token = case_116 l token
dispatch state_117 c l token = case_117 l token
dispatch state_118 c l token = case_118 l token
dispatch state_119 c l token = case_119 l token
dispatch state_120 c l token = case_120 l token
dispatch state_121 c l token = case_121 l token
dispatch state_122 c l token = case_122 l token
dispatch state_200 c l token = case_200 l token
dispatch state_201 c l token = case_201 l token
dispatch state_310 c l token = case_310 l token
dispatch state_311 c l token = case_311 l token
dispatch state_400 c l token = case_400 c l token
dispatch state_401 c l token = case_401 l token
dispatch state_402 c l token = case_402 l token
dispatch state_403 c l token = case_403 l token
dispatch state_404 c l token = case_404 l token
dispatch state_405 c l token = case_405 c l token
dispatch state_406 c l token = case_406 l token
dispatch state_407 c l token = case_407 l token
dispatch state_408 c l token = case_408 l token
dispatch state_409 c l token = case_409 l token
dispatch state_500 c l token = case_500 l token

abbrev pub is_done : State → Bool
is_done state_0 = true
is_done _ = false

-- `while (state)`, from a state that is not 0.
unfoldable pub run : ℕ → State → Lexer → Token → Result (Lexer × Token)
run zero state l token = out_of_fuel
run (suc fuel) state l token = do
  c ← char_lookahead 0 l
  (state', l', token') ← dispatch state c l token
  elim (is_done state') [ true ↦ ok (l', token') | false ↦ run fuel state' l' token' ]

-- Four rounds for each character left, and those for the last token, are enough.
abbrev pub run_fuel : Lexer → ℕ
run_fuel l = 4 * (text_size l - l.stop) + 4

unfoldable pub next_token : Lexer → Result (Token × Lexer)
next_token l = do
  (l', token) ← run (run_fuel l) state_1 l zero_token
  ok (record token { line_nr = l'.line_nr }, l')

abbrev pub append_token : Token → Lexer → Lexer
append_token token l = record l { tokens = token ∷ l.tokens }

-- The tests at the head of the loop of `lex_tokenize`; `true` leaves it.
unfoldable pub check_token : TokenClass → ℕ → Result Bool
check_token end_of_input line = ok true
check_token unknown line = failed (error (unknown_token line))
check_token lexical_error line = failed (error (Message.lexical_error line))
check_token _ line = ok false

unfoldable pub tokens_loop : ℕ → Token → Lexer → Result Lexer
tokens_loop zero token l = out_of_fuel
tokens_loop (suc fuel) token l = do
  done ← check_token token.klass token.line_nr
  elim done [
    | true ↦ ok l
    | false ↦ do (token', l') ← next_token l; tokens_loop fuel token' (append_token token' l')
  ]

-- The globals at the start: the first token is a mark, and the line is 1.
unfoldable pub initial : List ℕ → Lexer
initial text = record {
  text = text;
  start = 0;
  stop = 0;
  number = record { start = 0; stop = 0 };
  line_nr = 1;
  tokens = record zero_token { klass = start_of_input } ∷ [];
}

-- Each token but the last reads a character at least.
unfoldable pub lex_tokenize : List ℕ → Result Lexer
unfolding initial
lex_tokenize text = do
  (token, l) ← next_token (initial text)
  tokens_loop (length text + 1) token (append_token token l)
