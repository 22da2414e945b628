-- ===== src/Lex/Comments.antt =====
-- Line comments.
use dp4c.Prelude.{
  ℕ, suc, ◌+◌, ◌≤◌, ◌<◌, ◌≡◌, inr, refl, arith, drop, Bool, false, not, ok, failed, assertion,
}
use dp4c.Token.{comment, zero_token}
use dp4c.Lex.Chars.{Lexer, text_size, char_at, lexeme_to_cstring}
use dp4c.Lex.Switch.{state_116, state_311, is_newline}
use dp4c.Lex.Operators.{first_state, take_next, case_116}
use dp4c.Lex.Texts.{case_311}
use dp4c.Lex.Machine.{dispatch, next_token}
use dp4c.Lex.Scan.{span, advance_while-span, advance_while_fails}
use dp4c.Lex.Rounds.{
  accept_lem, char_lookahead_lem, is_space, dispatch-first, next_token-three,
  next_token-three_failed,
}

abbrev pub in_line : ℕ → Bool
in_line c = not (is_newline c)

slash-first_state : (c : ℕ) → c ≡ b'/' → first_state c ≡ ok state_116
unfolding first_state
slash-first_state c e = rw e

slash-not_space : (c : ℕ) → c ≡ b'/' → is_space c ≡ false
slash-not_space c e = rw e

-- At two slashes. `line_end` is the offset of the first newline behind the first of them, or the
-- end of the text.
module _ (l : Lexer) (one : char_at l l.stop ≡ b'/') (two : char_at l (suc l.stop) ≡ b'/')
    (h : suc l.stop < text_size l) where
  abbrev pub line_end : ℕ
  line_end = suc l.stop + span in_line (drop (suc l.stop) l.text)

  case_116_lem : dispatch state_116 (char_at l l.stop) l zero_token ≡ ok (state_311, l, zero_token)
  unfolding dispatch case_116 take_next
  case_116_lem =
      let look = char_lookahead_lem 1 l (suc l.stop) (omega arith) (omega arith) in
      rw (look, two, look, two)

  -- At two slashes with a newline somewhere behind them, `next_token` returns a comment. Its text ends
  -- with the first newline, which is consumed and counted; the token's line is the one behind it.
  pub next_token_line_comment :
      line_end < text_size l
      → next_token l
        ≡ ok (
          record zero_token {
            klass = comment;
            lexeme = lexeme_to_cstring l (record { start = l.start; stop = line_end });
            line_nr = l.line_nr + 1;
          },
          record l { start = suc line_end; stop = suc line_end; line_nr = l.line_nr + 1 },
        )
  unfolding lexeme_to_cstring
  next_token_line_comment found =
      next_token-three l (omega arith) state_116 refl
        (dispatch-first l zero_token state_116 (slash-not_space _ one) (slash-first_state _ one))
        state_311 l refl (omega arith) case_116_lem
        (record l { start = suc line_end; stop = suc line_end; line_nr = l.line_nr + 1 })
        (record zero_token {
          klass = comment;
          lexeme = lexeme_to_cstring l (record { start = l.start; stop = line_end });
        })
        (unfold dispatch case_311 in
          rw
            (advance_while-span (λ c. ok (in_line c)) in_line (λ c. refl) l (inr found)
              (omega arith))
            (accept_lem comment (record l { stop = line_end; line_nr = l.line_nr + 1 }) zero_token
              (suc line_end) (omega arith) (omega arith)))

  -- At two slashes with no newline behind them in the text, `next_token` is a failed assertion.
  pub next_token_line_comment_at_end : text_size l ≤ line_end → next_token l ≡ failed assertion
  next_token_line_comment_at_end e =
      next_token-three_failed l (omega arith) state_116 refl
        (dispatch-first l zero_token state_116 (slash-not_space _ one) (slash-first_state _ one))
        state_311 l refl (omega arith) case_116_lem
        (unfold dispatch case_311 in
          rw (advance_while_fails (λ c. ok (in_line c)) in_line (λ c. refl) l refl e (omega arith)))
