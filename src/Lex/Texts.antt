-- ===== src/Lex/Texts.antt =====
-- lex.c: the cases 200 to 311 and 500: string literals, comments and identifiers.
use dp4c.Prelude.{
  ℕ, zero, suc, ◌+◌, Bool, true, false, not, ◌||◌, ◌==◌, if◌then◌else◌, Result, ok, out_of_fuel,
  ◌>>=◌,
}
use dp4c.Token.{Token, string_literal, comment, identifier}
use dp4c.Basic.{cstr_is_letter, cstr_is_digit}
use dp4c.Lex.Chars.{Lexer, char_lookahead, char_advance, char_retract, advance_while, rounds}
use dp4c.Lex.Switch.{
  State, Step, state_4, state_200, state_201, state_310, is_newline, newline_pair, accept,
}

-- The loop of the case 200. The `break` leaves this loop, and not the switch.
unfoldable pub string_loop : ℕ → State → Lexer → Result (State × Lexer)
string_loop zero state l = out_of_fuel
string_loop (suc fuel) state l = do
  (c, l') ← char_advance 1 l
  elim (c == b'\\') [
    | true ↦ ok (state_201, l')
    | false ↦
        let state' = if is_newline c then state_4 else state in
        elim (c == b'"') [ true ↦ ok (state', l') | false ↦ string_loop fuel state' l' ]
  ]

-- What the loop makes of the state is overwritten behind it.
unfoldable pub case_200 : Lexer → Token → Step
case_200 l token = do (_, l') ← string_loop (rounds l) state_200 l; accept string_literal l' token

unfoldable pub case_201 : Lexer → Token → Step
case_201 l token = do
  (c, l') ← char_advance 1 l
  (if is_newline c
      then ok (state_200, record l' { line_nr = l'.line_nr + 1 }, token)
      else if c == b'\\' || c == b'"' || c == b'n' || c == b'r'
      then ok (state_200, l', token)
      else ok (state_4, l', token))

-- A newline in a comment: the last character of the line's end, which may be a pair.
unfoldable pub comment_newline : ℕ → Lexer → Result (ℕ × Lexer)
comment_newline c l = do
  cc ← char_lookahead 1 l
  (c', l') ← (if c + cc == newline_pair then char_advance 1 l else ok (c, l))
  ok (c', record l' { line_nr = l'.line_nr + 1 })

-- The loop of the case 310, up to a star.
unfoldable pub comment_loop : ℕ → Lexer → Result Lexer
comment_loop zero l = out_of_fuel
comment_loop (suc fuel) l = do
  (c, l') ← char_advance 1 l
  (c', l'') ← (if is_newline c then comment_newline c l' else ok (c, l'))
  elim (c' == b'*') [ true ↦ ok l'' | false ↦ comment_loop fuel l'' ]

unfoldable pub case_310 : Lexer → Token → Step
case_310 l token = do
  l' ← comment_loop (rounds l) l
  cc ← char_lookahead 1 l'
  elim (cc == b'/') [
    | true ↦ do (_, l'') ← char_advance 1 l'; accept comment l'' token
    | false ↦ ok (state_310, l', token)
  ]

unfoldable pub case_311 : Lexer → Token → Step
case_311 l token = do
  (_, l') ← advance_while (rounds l) (λ c. ok (not (is_newline c))) l
  accept comment (record l' { line_nr = l'.line_nr + 1 }) token

unfoldable pub is_word : ℕ → Result Bool
is_word c = do digit ← cstr_is_digit c 10; ok (cstr_is_letter c || digit || c == b'_')

unfoldable pub case_500 : Lexer → Token → Step
case_500 l token = do
  (_, l') ← advance_while (rounds l) is_word l
  l'' ← char_retract l'
  accept identifier l'' token
