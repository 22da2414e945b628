-- ===== src/Lex/Steps.antt =====
-- Every case of the switch of `next_token` makes progress, and none runs out of fuel: what progress
-- is, and the three ways to make it. The children go through the cases.
pub mod Operators
pub mod Texts
pub mod Numbers
pub mod Run
use dp4c.Prelude.{
  ℕ, zero, suc, ◌+◌, ◌-◌, ◌*◌, ◌≤◌, ◌<◌, ◌≡◌, ◌⊎◌, ◌≢◌, inl, inr, refl, arith, List, [], ◌∷◌,
  length, Bool, true, false, not, ◌||◌, ◌&&◌, leb, ◌==◌, if◌then◌else◌, Result, ok, failed, Ensures,
  returns, stops, out_of_fuel, Ensures-bind, Ensures-elim, Ensures-if, Ensures-mono, Ensures-of_eq,
  ◌>>=◌,
}
use dp4c.Token.{Token, TokenClass, end_of_input}
use dp4c.Basic.{cstr_is_digit}
use dp4c.Lex.Chars.{
  Lexer, Lexeme, char_lookahead, char_advance, char_retract, lexeme_advance, rounds, text_size,
}
use dp4c.Lex.Integer.{digit_to_integer, parse_digits, parse_integer, token_install_integer}
use dp4c.Lex.Switch.{
  State, Step, is_newline, newline_pair, accept, state_0, state_1, state_2, state_3, state_4,
  state_100, state_101, state_102, state_103, state_104, state_105, state_106, state_107, state_108,
  state_109, state_110, state_111, state_112, state_113, state_114, state_115, state_116, state_117,
  state_118, state_119, state_120, state_121, state_122, state_200, state_201, state_310, state_311,
  state_400, state_401, state_402, state_403, state_404, state_405, state_406, state_407, state_408,
  state_409, state_500,
}
use dp4c.Lex.Operators.{
  first_state, end_line, take_next, last_klass, minus_class, case_1, case_2, case_3, case_4,
  case_100, case_101, case_102, case_103, case_104, case_105, case_106, case_107, case_108,
  case_109, case_110, case_111, case_112, case_113, case_114, case_115, case_116, case_117,
  case_118, case_119, case_120, case_121, case_122,
}
use dp4c.Lex.Texts.{
  string_loop, comment_newline, comment_loop, is_word, case_200, case_201, case_310, case_311,
  case_500,
}
use dp4c.Lex.Numbers.{
  choose_base, is_decimal, is_digit_or_underscore, install_number, scan_number, plain_number,
  sized_number, case_400, case_401, case_402, case_403, case_404, case_405, case_406, case_407,
  case_408, case_409,
}
use dp4c.Lex.Machine.{dispatch, is_done}
use dp4c.Lex.Progress.{
  Reads, Reads-refl, Reads-stop_le, Reads-trans, char_lookahead-Ensures, char_advance-Ensures,
  lexeme_advance-Ensures, advance_while-Ensures, IsTotal,
}

-- The rounds that may follow at one place of the text.
abbrev pub rank : State → ℕ
rank state_0 = 0
rank state_1 = 3
rank state_103 = 2
rank state_116 = 2
rank state_201 = 2
rank state_400 = 2
rank state_405 = 2
rank _ = 1

rank_le : (s : State) → rank s ≤ 3
rank_le state_0 = omega arith
rank_le _ = omega arith

-- Between tokens the lexeme is empty.
abbrev pub IsFresh : State → Lexer → Type 0
IsFresh state_0 l = l.start ≡ l.stop
IsFresh state_1 l = l.start ≡ l.stop
IsFresh state_2 l = l.start ≡ l.stop
IsFresh _ l = Unit

abbrev pub Outcome : Type 0
Outcome = State × Lexer × Token

-- A round in the state `s` brings the lexer nearer to the end of the token, and the end of a token
-- that is not the end of the input lies behind its start.
pub record Progress (s : State) (l : Lexer) (r : Outcome) : Type 0 where
  pub reads : Reads 0 l r.1
  pub falls : 4 * (text_size l - r.1.stop) + rank r.0 < 4 * (text_size l - l.stop) + rank s
  pub fresh : IsFresh r.0 r.1
  pub done : is_done r.0 ≡ true → (r.2.klass ≡ end_of_input) ⊎ (l.stop < r.1.stop)

module _ (s : State) (l : Lexer) where
  -- The end of a token behind the lexeme.
  pub ended-Progress :
      (l' m : Lexer) (token : Token)
      → 1 ≤ rank s
      → Reads 0 l l'
      → Reads 1 l' m
      → m.start ≡ m.stop
      → Progress s l (state_0, m, token)
  ended-Progress l' m token h seen step fresh =
      let all = Reads-trans {n = 1} seen step (omega arith) in
      record {
        reads = Reads-trans {n = 0} seen step (omega arith);
        falls = omega (arith, all.ahead, all.within);
        fresh = fresh;
        done = λ _. inr (omega (arith, all.ahead));
      }

  pub accept-Progress :
      (klass : TokenClass) (l' : Lexer) (token : Token)
      → 1 ≤ rank s
      → Reads 0 l l'
      → Ensures (Progress s l) (accept klass l' token)
  unfolding accept
  accept-Progress klass l' token h seen =
      Ensures-bind (lexeme_advance-Ensures l')
        λ m (step, fresh). returns (ended-Progress l' m _ h seen step fresh)

  pub moved-Progress :
      (s' : State) (l' : Lexer) (token : Token)
      → 1 ≤ rank s
      → is_done s' ≡ false
      → IsFresh s' l'
      → Reads 1 l l'
      → Progress s l (s', l', token)
  moved-Progress s' l' token h open_ fresh seen = record {
    reads = record {
      text_eq = seen.text_eq;
      tokens_eq = seen.tokens_eq;
      ahead = omega (arith, seen.ahead);
      within = seen.within;
      lines = seen.lines;
    };
    falls = omega (arith, seen.ahead, seen.within, rank_le s');
    fresh = fresh;
    done = λ e. cc;
  }

  -- With no character read, the next state must need fewer rounds.
  pub stayed-Progress :
      (s' : State) (l' : Lexer) (token : Token)
      → rank s' < rank s
      → is_done s' ≡ false
      → IsFresh s' l'
      → Reads 0 l l'
      → Progress s l (s', l', token)
  stayed-Progress s' l' token h open_ fresh seen = record {
    reads = seen;
    falls = omega (arith, seen.ahead, seen.within);
    fresh = fresh;
    done = λ e. cc;
  }
