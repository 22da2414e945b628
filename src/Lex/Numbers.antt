-- ===== src/Lex/Numbers.antt =====
-- lex.c: the cases 400 to 409: integers.
use Prim.Native.Nat.{bit_or}
use dp4c.Prelude.{ℕ, ◌-◌, Bool, true, false, ◌||◌, ◌==◌, if◌then◌else◌, Result, ok, ◌>>=◌}
use dp4c.Token.{Token, integer, has_width, is_signed}
use dp4c.Basic.{cstr_is_digit}
use dp4c.Lex.Chars.{
  Lexer, char_lookahead, char_advance, char_retract, lexeme_advance, advance_while, rounds,
  lexeme_to_cstring, whole,
}
use dp4c.Lex.Integer.{parse_integer, token_install_integer}
use dp4c.Lex.Switch.{
  State, Step, state_0, state_401, state_402, state_403, state_404, state_405, state_406, state_407,
  state_408, state_409,
}

-- The choice of a base, in the cases 400 and 405: behind a zero a letter may name it.
unfoldable pub choose_base : State → State → State → State → ℕ → Lexer → Result (State × Lexer)
choose_base hex octal binary decimal c l = elim (c == b'0') [
  | false ↦ ok (decimal, l)
  | true ↦ do
    cc ← char_lookahead 1 l
    elim (cc == b'x' || cc == b'X') [
      | true ↦ do (_, l') ← char_advance 2 l; ok (hex, l')
      | false ↦ elim (cc == b'o' || cc == b'O') [
        | true ↦ do (_, l') ← char_advance 2 l; ok (octal, l')
        | false ↦ elim (cc == b'b' || cc == b'B') [
          | true ↦ do (_, l') ← char_advance 2 l; ok (binary, l')
          | false ↦ ok (decimal, l)
        ]
      ]
    ]
]

unfoldable pub case_400 : ℕ → Lexer → Token → Step
case_400 c l token = do
  (state, l') ← choose_base state_402 state_403 state_404 state_401 c l
  ok (state, l', token)

unfoldable pub case_405 : ℕ → Lexer → Token → Step
case_405 c l token = do
  (state, l') ← choose_base state_406 state_407 state_408 state_409 c l
  ok (state, l', token)

unfoldable pub is_decimal : ℕ → Result Bool
is_decimal c = cstr_is_digit c 10

unfoldable pub is_digit_or_underscore : ℕ → ℕ → Result Bool
is_digit_or_underscore base c = do digit ← cstr_is_digit c base; ok (digit || c == b'_')

-- The end of the cases for digits: `l` stands behind the last digit.
unfoldable pub install_number : ℕ → Lexer → Token → Step
install_number base l token = do
  l' ← char_retract l
  let number = record l'.number { stop = l'.stop }
  token' ← token_install_integer token l' number base
  l'' ← lexeme_advance (record l' { number = number })
  ok (state_0, l'', record token' { lexeme = lexeme_to_cstring l' (whole l') })

-- The start of those cases: `lexeme[1].start = lexeme[1].end = lexeme->end`, and the loop.
unfoldable pub scan_number : (ℕ → Result Bool) → Lexer → Result (ℕ × Lexer)
scan_number test l =
    advance_while (rounds l) test (record l { number = record { start = l.stop; stop = l.stop } })

unfoldable pub case_401 : Lexer → Token → Step
case_401 l token = do
  (c, l') ← scan_number is_decimal l
  elim (c == b'w' || c == b's') [
    | true ↦ do
      let flags = bit_or token.flags has_width
      let flags' = if c == b's' then bit_or flags is_signed else flags
      let number = record l'.number { stop = l'.stop - 1 }
      width ← parse_integer (lexeme_to_cstring l' number) 10
      (_, l'') ← char_advance 1 (record l' { number = number })
      ok (state_405, l'', record token { klass = integer; flags = flags'; width = width })
    | false ↦
        install_number 10 l'
          (record token { klass = integer; flags = bit_or token.flags is_signed })
  ]

-- The cases 402 to 404 differ in the base.
unfoldable pub plain_number : ℕ → Lexer → Token → Step
plain_number base l token = do
  (_, l') ← scan_number (is_digit_or_underscore base) l
  install_number base l' (record token { klass = integer; flags = bit_or token.flags is_signed })

unfoldable pub case_402 : Lexer → Token → Step
case_402 = plain_number 16

unfoldable pub case_403 : Lexer → Token → Step
case_403 = plain_number 8

unfoldable pub case_404 : Lexer → Token → Step
case_404 = plain_number 2

-- So do the cases 406 to 408, behind a width.
unfoldable pub sized_number : ℕ → Lexer → Token → Step
sized_number base l token = do
  (_, l') ← scan_number (is_digit_or_underscore base) l
  install_number base l' token

unfoldable pub case_406 : Lexer → Token → Step
case_406 = sized_number 16

unfoldable pub case_407 : Lexer → Token → Step
case_407 = sized_number 8

unfoldable pub case_408 : Lexer → Token → Step
case_408 = sized_number 2

unfoldable pub case_409 : Lexer → Token → Step
case_409 l token = do (_, l') ← scan_number is_decimal l; install_number 10 l' token
