-- ===== src/Lex/Chars.antt =====
-- lex.c: the lexer's globals, and the functions on characters and lexemes. A pointer into the text
-- is its offset from `text`; the text ends in a NUL at the offset `text_size`, as `read_source` of
-- ashp4c.c leaves it.
use dp4c.Prelude.{
  ℕ, zero, suc, ◌+◌, ◌-◌, List, [], ◌∷◌, Bool, true, false, leb, ◌==◌, if◌then◌else◌, length,
  get_or, drop, Result, ok, failed, out_of_fuel, out_of_bounds, assert, ◌>>=◌, ◌>>◌,
}
use dp4c.Token.{Token}

-- `struct Lexeme`
pub record Lexeme : Type 0 where
  pub start : ℕ
  pub stop : ℕ

-- The globals. `start` and `stop` are those of `lexeme[0]`, and `number` is `lexeme[1]`. The state
-- of the machine is an argument of its functions (Switch). `tokens` is the array of tokens, the last
-- one first.
pub record Lexer : Type 0 where
  pub text : List ℕ
  pub start : ℕ
  pub stop : ℕ
  pub number : Lexeme
  pub line_nr : ℕ
  pub tokens : List Token

abbrev pub text_size : Lexer → ℕ
text_size l = length l.text

-- `text[i]`, the NUL behind the text included.
abbrev pub char_at : Lexer → ℕ → ℕ
char_at l i = get_or l.text i 0

unfoldable pub char_lookahead : ℕ → Lexer → Result ℕ
char_lookahead pos l = do assert (leb (l.stop + pos) (text_size l)); ok (char_at l (l.stop + pos))

unfoldable pub char_advance : ℕ → Lexer → Result (ℕ × Lexer)
char_advance pos l = do
  assert (leb (l.stop + pos) (text_size l))
  ok (char_at l (l.stop + pos), record l { stop = l.stop + pos })

-- At the offset 0 the pointer would leave the text.
unfoldable pub char_retract : Lexer → Result Lexer
char_retract l = if l.stop == 0 then failed out_of_bounds else ok (record l { stop = l.stop - 1 })

unfoldable pub lexeme_advance : Lexer → Result Lexer
lexeme_advance l = do
  assert (leb (l.stop + 1) (text_size l))
  ok (record l { start = l.stop + 1; stop = l.stop + 1 })

-- `do c = char_advance(1); while (test(c));`, with the last `c`. Each round moves to the right, and
-- `char_advance` fails behind the NUL, so the distance to the end bounds the rounds.
unfoldable pub advance_while : ℕ → (ℕ → Result Bool) → Lexer → Result (ℕ × Lexer)
advance_while zero test l = out_of_fuel
advance_while (suc fuel) test l = do
  (c, l') ← char_advance 1 l
  more ← test c
  elim more [ true ↦ advance_while fuel test l' | false ↦ ok (c, l') ]

abbrev pub rounds : Lexer → ℕ
rounds l = suc (text_size l - l.stop)

-- The character that stands for `\c`.
abbrev unescape : ℕ → ℕ
unescape c =
    if c == b'n' then b'\n' else if c == b'r' then b'\r' else if c == b't' then b'\t' else c

-- The bytes that are written, from the text at `src` and the number of bytes of the lexeme left.
unfoldable pub lexeme_copy : List ℕ → ℕ → List ℕ
lexeme_copy src zero = []
lexeme_copy src (suc zero) =
    (if get_or src 0 0 == b'\\' then unescape (get_or src 1 0) else get_or src 0 0) ∷ []
lexeme_copy src (suc (suc n)) = elim (get_or src 0 0 == b'\\') [
  | true ↦ unescape (get_or src 1 0) ∷ lexeme_copy (drop 2 src) n
  | false ↦ get_or src 0 0 ∷ lexeme_copy (drop 1 src) (suc n)
]

unfoldable pub lexeme_len : Lexeme → ℕ
lexeme_len x = x.stop + 1 - x.start

-- A C string ends at its first NUL.
unfoldable pub until_nul : List ℕ → List ℕ
until_nul [] = []
until_nul (c ∷ cs) = if c == 0 then [] else c ∷ until_nul cs

-- Escapes make the copy shorter than the buffer; what is not written is 0 in the fresh anonymous
-- pages that the storage of lexemes comes from, so the string ends there.
unfoldable pub lexeme_to_cstring : Lexer → Lexeme → List ℕ
unfolding lexeme_len until_nul lexeme_copy
lexeme_to_cstring l x = until_nul (lexeme_copy (drop x.start l.text) (lexeme_len x))

-- `lexeme[0]`
abbrev pub whole : Lexer → Lexeme
whole l = record { start = l.start; stop = l.stop }
