-- ===== src/Lex/Integer.antt =====
-- lex.c: the value of a number. `int` has 32 bits; a value that leaves its range is a fault.
use dp4c.Prelude.{
  ℕ, ◌+◌, ◌-◌, ◌*◌, ◌^◌, List, [], ◌∷◌, true, false, ◌&&◌, ◌||◌, leb, ltb, ◌==◌, if◌then◌else◌,
  get_or, Result, ok, failed, assertion, overflow, error, expected_digits, assert, ◌>>=◌, ◌>>◌,
}
use dp4c.Token.{Token}
use dp4c.Basic.{cstr_is_digit}
use dp4c.Lex.Chars.{Lexeme, Lexer, lexeme_to_cstring}

-- `c` is a digit in the base: `parse_integer` has tested it.
unfoldable pub digit_to_integer : ℕ → ℕ → Result ℕ
digit_to_integer c base =
    if base == 10 || base == 8 || base == 2
    then ok (c - b'0')
    else if base == 16
    then (if leb b'0' c && leb c b'9'
        then ok (c - b'0')
        else if leb b'a' c && leb c b'f'
        then ok (10 + (c - b'a'))
        else if leb b'A' c && leb c b'F'
        then ok (10 + (c - b'A'))
        else failed assertion)
    else failed assertion

-- `(int) v`
abbrev pub to_int : ℕ → Result ℕ
to_int v = if ltb v (2 ^ 31) then ok v else failed overflow

-- The loop, over the rest of the string.
unfoldable pub parse_digits : ℕ → List ℕ → ℕ → Result ℕ
parse_digits result [] base = ok result
parse_digits result (c ∷ str) base = do
  digit ← cstr_is_digit c base
  elim digit [
    | true ↦ do d ← digit_to_integer c base; r ← to_int (result * base + d); parse_digits r str base
    | false ↦ elim (c == b'_') [ true ↦ parse_digits result str base | false ↦ failed assertion ]
  ]

unfoldable pub parse_integer : List ℕ → ℕ → Result ℕ
unfolding parse_digits
parse_integer [] base = failed assertion
parse_integer (c ∷ str) base = do
  digit ← cstr_is_digit c base
  assert (digit || c == b'_')
  result ← (if c == b'_' then ok 0 else digit_to_integer c base)
  parse_digits result str base

-- The message prints the line of the token, which the caller has not set yet.
unfoldable pub token_install_integer : Token → Lexer → Lexeme → ℕ → Result Token
unfolding parse_integer
token_install_integer token l x base = do
  let string = lexeme_to_cstring l x
  let c = get_or string 0 0
  digit ← cstr_is_digit c base
  elim (digit || c == b'_') [
    | true ↦ do value ← parse_integer string base; ok (record token { value = value })
    | false ↦
        if base == 10 || base == 16 || base == 8 || base == 2
        then failed (error (expected_digits base token.line_nr string))
        else failed assertion
  ]
