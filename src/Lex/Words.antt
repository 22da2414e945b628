-- ===== src/Lex/Words.antt =====
-- Identifiers: a letter, and then the longest run of letters, digits and underscores.
use dp4c.Prelude.{
  ℕ, suc, ◌+◌, ◌≤◌, ◌<◌, ◌≡◌, inl, refl, ap, ◌∙◌, arith, List, drop, take, Bool, true, false, ◌||◌,
  ◌&&◌, leb, ◌==◌, ok,
}
use dp4c.Token.{Token, identifier, zero_token}
use dp4c.Basic.{cstr_is_letter, cstr_is_digit}
use dp4c.Lex.Chars.{Lexer, text_size, char_at, lexeme_to_cstring}
use dp4c.Lex.Switch.{state_0, state_500}
use dp4c.Lex.Operators.{first_state}
use dp4c.Lex.Texts.{is_word, case_500}
use dp4c.Lex.Machine.{dispatch, next_token}
use dp4c.Lex.Scan.{
  span, span-drop, span_le, length-drop, passes-lt, advance_while-span, lexeme_to_cstring-span,
}
use dp4c.Lex.Rounds.{accept_lem, char_retract_lem, is_space, dispatch-first, next_token-two}

-- A character of a word.
unfoldable pub word_char : ℕ → Bool
unfolding cstr_is_letter
word_char c = cstr_is_letter c || leb b'0' c && leb c b'9' || c == b'_'

is_word-word_char : (c : ℕ) → is_word c ≡ ok (word_char c)
unfolding is_word word_char cstr_is_digit
is_word-word_char c = ground arith

letter-word_char : (c : ℕ) → cstr_is_letter c ≡ true → word_char c ≡ true
unfolding word_char
letter-word_char c h = ground arith

letter-not_space : (c : ℕ) → cstr_is_letter c ≡ true → is_space c ≡ false
unfolding cstr_is_letter
letter-not_space c h = ground arith

letter-first_state : (c : ℕ) → cstr_is_letter c ≡ true → first_state c ≡ ok state_500
unfolding first_state cstr_is_letter cstr_is_digit
letter-first_state c h = ground arith

abbrev pub word : Lexer → List ℕ
word l = take (span word_char (drop l.stop l.text)) (drop l.stop l.text)

word_char-nul : word_char 0 ≡ false
unfolding word_char
word_char-nul = refl

word_char-backslash : word_char b'\\' ≡ false
unfolding word_char
word_char-backslash = refl

module _ (l : Lexer) (f : l.start ≡ l.stop) (h : cstr_is_letter (char_at l l.stop) ≡ true) where
  abbrev size : ℕ
  size = span word_char (drop l.stop l.text)

  abbrev rest : ℕ
  rest = span word_char (drop (suc l.stop) l.text)

  room : l.stop < text_size l
  room = passes-lt word_char l.text l.stop word_char-nul (letter-word_char _ h)

  size_eq : size ≡ suc rest
  size_eq = span-drop word_char l.text l.stop room (letter-word_char _ h)

  size_le : l.stop + size ≤ text_size l
  size_le = omega (arith, span_le word_char (drop l.stop l.text), length-drop l.text l.stop, room)

  text_eq :
      lexeme_to_cstring
        (record l { stop = l.stop + rest })
        (record { start = l.start; stop = l.stop + rest })
      ≡ word l
  text_eq =
      lexeme_to_cstring-span word_char (record l { stop = l.stop + rest })
        (record { start = l.start; stop = l.stop + rest }) size (omega (arith, size_eq, f))
        word_char-backslash word_char-nul (rw f (omega arith))
      ∙ ap (λ (i : ℕ). take size (drop i l.text)) f

  case_500_lem :
      (token : Token)
      → case_500 l token
        ≡ ok (
          state_0,
          record l { start = l.stop + size; stop = l.stop + size },
          record token { klass = identifier; lexeme = word l },
        )
  unfolding case_500
  case_500_lem token = rw (
    advance_while-span is_word word_char is_word-word_char l (inl word_char-nul) room,
    char_retract_lem (record l { stop = suc l.stop + rest }) (l.stop + rest) (omega arith),
    accept_lem identifier (record l { stop = l.stop + rest }) token (l.stop + size)
        (omega (arith, size_eq)) size_le,
    text_eq,
  )

  -- At a letter, between two tokens, `next_token` returns an identifier. Its text is the longest run of letters, digits
  -- and underscores from there, and the lexer is left behind that run.
  pub next_token-word :
      next_token l
      ≡ ok (
        record zero_token { klass = identifier; lexeme = word l; line_nr = l.line_nr },
        record l { start = l.stop + size; stop = l.stop + size },
      )
  next_token-word =
      next_token-two l (omega (arith, room)) state_500 refl
        (dispatch-first l zero_token state_500 (letter-not_space _ h) (letter-first_state _ h))
        (record l { start = l.stop + size; stop = l.stop + size })
        (record zero_token { klass = identifier; lexeme = word l })
        (unfold dispatch in case_500_lem zero_token)
