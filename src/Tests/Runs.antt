-- ===== src/Tests/Runs.antt =====
-- Runs of the lexer on short texts.
use dp4c.Prelude.{ℕ, List, [], ◌∷◌, map, codes, ◌≡◌, refl, Result, ok, ◌>>=◌}
use dp4c.Token
use dp4c.Token.{Token, TokenClass}
use dp4c.Basic.{cstr_is_letter, cstr_is_digit}
use dp4c.Lex.Chars.{
  char_lookahead, char_advance, char_retract, lexeme_advance, advance_while, lexeme_to_cstring,
}
use dp4c.Lex.Integer.{digit_to_integer, token_install_integer}
use dp4c.Lex.Switch.{accept}
use dp4c.Lex.Operators.{
  first_state, end_line, take_next, last_klass, minus_class, case_1, case_2, case_3, case_4,
  case_100, case_101, case_102, case_103, case_104, case_105, case_106, case_107, case_108,
  case_109, case_110, case_111, case_112, case_113, case_114, case_115, case_116, case_117,
  case_118, case_119, case_120, case_121, case_122,
}
use dp4c.Lex.Texts.{
  string_loop, comment_newline, comment_loop, is_word, case_200, case_201, case_310, case_311,
  case_500,
}
use dp4c.Lex.Numbers.{
  choose_base, is_decimal, is_digit_or_underscore, install_number, scan_number, plain_number,
  sized_number, case_400, case_401, case_402, case_403, case_404, case_405, case_406, case_407,
  case_408, case_409,
}
use dp4c.Lex.Machine.{dispatch, run, next_token, check_token, tokens_loop, lex_tokenize}

abbrev summary : Token → TokenClass × List ℕ × ℕ
summary t = (t.klass, t.lexeme, t.line_nr)

abbrev summaries : List ℕ → Result (List (TokenClass × List ℕ × ℕ))
summaries text = do l ← lex_tokenize text; ok (map summary l.tokens)

-- The tokens of a text, the last one first.
tokens_of_shift :
    summaries (codes "ab_1 << (-8w0x1F)\n/* x\n **/ 12s7;")
    ≡ ok (
        (Token.end_of_input, codes "<end-of-input>", 3)
        ∷ (Token.semicolon, codes ";", 3)
        ∷ (Token.integer, codes "12s7", 3)
        ∷ (Token.comment, codes "/* x\n **/", 3)
        ∷ (Token.parenth_close, codes ")", 1)
        ∷ (Token.integer, codes "8w0x1F", 1)
        ∷ (Token.unary_minus, codes "-", 1)
        ∷ (Token.parenth_open, codes "(", 1)
        ∷ (Token.two_angle_open, codes "<<", 1)
        ∷ (Token.identifier, codes "ab_1", 1)
        ∷ (Token.start_of_input, [], 0)
        ∷ [])
unfolding cstr_is_letter cstr_is_digit char_lookahead char_advance char_retract lexeme_advance
    advance_while lexeme_to_cstring digit_to_integer token_install_integer accept last_klass
    minus_class first_state end_line take_next case_1 case_2 case_3 case_4 case_100 case_101
    case_102 case_103 case_104 case_105 case_106 case_107 case_108 case_109 case_110 case_111
    case_112 case_113 case_114 case_115 case_116 case_117 case_118 case_119 case_120 case_121
    case_122 case_200 case_201 case_310 case_311 case_400 case_401 case_402 case_403 case_404
    case_405 case_406 case_407 case_408 case_409 case_500 string_loop comment_newline comment_loop
    is_word choose_base is_decimal is_digit_or_underscore install_number scan_number plain_number
    sized_number dispatch run next_token check_token tokens_loop lex_tokenize
tokens_of_shift = refl
