-- ===== src/Lex/Rounds.antt =====
-- Single rounds of `next_token`.
use dp4c.Prelude.{
  ℕ, suc, ◌+◌, ◌-◌, ◌*◌, ◌≤◌, ◌≡◌, ap, arith, Bool, true, false, le→leb, ◌==◌, ◌||◌, Result, ok,
  failed, assertion,
}
use dp4c.Token.{Token, TokenClass, zero_token}
use dp4c.Lex.Chars.{
  Lexer, text_size, char_at, char_lookahead, char_retract, lexeme_advance, lexeme_to_cstring, whole,
}
use dp4c.Lex.Switch.{State, state_0, state_1, accept}
use dp4c.Lex.Operators.{first_state, case_1}
use dp4c.Lex.Machine.{dispatch, is_done, run, run_fuel, next_token}

pub char_lookahead_lem :
    (pos : ℕ) (l : Lexer) (k : ℕ)
    → l.stop + pos ≡ k
    → k ≤ text_size l
    → char_lookahead pos l ≡ ok (char_at l k)
unfolding char_lookahead
char_lookahead_lem pos l k e h =
    rw (le→leb (l.stop + pos) (text_size l) (omega arith)) (ap (λ (i : ℕ). ok (char_at l i)) e)

pub lexeme_advance_lem :
    (l : Lexer) (k : ℕ)
    → l.stop + 1 ≡ k
    → k ≤ text_size l
    → lexeme_advance l ≡ ok (record l { start = k; stop = k })
unfolding lexeme_advance
lexeme_advance_lem l k e h =
    rw (le→leb (l.stop + 1) (text_size l) (omega arith))
      (ap (λ (i : ℕ). ok (record l { start = i; stop = i })) e)

pub char_retract_lem :
    (l : Lexer) (k : ℕ) → l.stop ≡ suc k → char_retract l ≡ ok (record l { stop = k })
unfolding char_retract
char_retract_lem l k e =
    let pos : l.stop == 0 ≡ false = ground arith in
    rw pos (ap (λ (i : ℕ). ok (record l { stop = i })) (omega arith))

-- The end of a token whose last character is in the text.
pub accept_lem :
    (klass : TokenClass) (l : Lexer) (token : Token) (k : ℕ)
    → l.stop + 1 ≡ k
    → k ≤ text_size l
    → accept klass l token
      ≡ ok (
        state_0,
        record l { start = k; stop = k },
        record token { klass = klass; lexeme = lexeme_to_cstring l (whole l) },
      )
unfolding accept
accept_lem klass l token k e h = rw (lexeme_advance_lem l k e h)

module _ (fuel : ℕ) (s : State) (l : Lexer) (token : Token) where
  pub run-next :
      (s' : State) (l' : Lexer) (token' : Token)
      → l.stop ≤ text_size l
      → dispatch s (char_at l l.stop) l token ≡ ok (s', l', token')
      → is_done s' ≡ false
      → run (suc fuel) s l token ≡ run fuel s' l' token'
  unfolding run
  run-next s' l' token' h e d =
      rw (char_lookahead_lem 0 l l.stop (omega arith) h, e)
        (ap {B = Result (Lexer × Token)}
          (λ (b : Bool). elim b [ true ↦ ok (l', token') | false ↦ run fuel s' l' token' ]) d)

  pub run-last :
      (l' : Lexer) (token' : Token)
      → l.stop ≤ text_size l
      → dispatch s (char_at l l.stop) l token ≡ ok (state_0, l', token')
      → run (suc fuel) s l token ≡ ok (l', token')
  unfolding run
  run-last l' token' h e = rw (char_lookahead_lem 0 l l.stop (omega arith) h, e)

  pub run-failed :
      l.stop ≤ text_size l
      → dispatch s (char_at l l.stop) l token ≡ failed assertion
      → run (suc fuel) s l token ≡ failed assertion
  unfolding run
  run-failed h e = rw (char_lookahead_lem 0 l l.stop (omega arith) h, e)

abbrev pub is_space : ℕ → Bool
is_space c = c == b' ' || c == b'\t' || c == b'\n' || c == b'\r'

-- The first round, at a character that is no white space.
pub dispatch-first :
    (l : Lexer) (token : Token) (s : State)
    → is_space (char_at l l.stop) ≡ false
    → first_state (char_at l l.stop) ≡ ok s
    → dispatch state_1 (char_at l l.stop) l token ≡ ok (s, l, token)
unfolding dispatch case_1
dispatch-first l token s e f = rw (e, f)

-- The token of a run of two rounds, of three, and of one that fails in its second or third round.
module _ (l : Lexer) (h : l.stop ≤ text_size l) (s : State) (d : is_done s ≡ false)
    (first : dispatch state_1 (char_at l l.stop) l zero_token ≡ ok (s, l, zero_token)) where
  fuel_eq : run_fuel l ≡ suc (suc (suc (4 * (text_size l - l.stop) + 1)))
  fuel_eq = omega arith

  pub next_token-two :
      (l' : Lexer) (token : Token)
      → dispatch s (char_at l l.stop) l zero_token ≡ ok (state_0, l', token)
      → next_token l ≡ ok (record token { line_nr = l'.line_nr }, l')
  unfolding next_token
  next_token-two l' token e = rw (
    fuel_eq,
    run-next _ state_1 l zero_token s l zero_token h first d,
    run-last _ s l zero_token l' token h e,
  )

  pub next_token-two_failed :
      dispatch s (char_at l l.stop) l zero_token ≡ failed assertion
      → next_token l ≡ failed assertion
  unfolding next_token
  next_token-two_failed e = rw (
    fuel_eq,
    run-next _ state_1 l zero_token s l zero_token h first d,
    run-failed _ s l zero_token h e,
  )

  module _ (s' : State) (m : Lexer) (d' : is_done s' ≡ false) (h' : m.stop ≤ text_size m)
      (second : dispatch s (char_at l l.stop) l zero_token ≡ ok (s', m, zero_token)) where
    pub next_token-three :
        (l' : Lexer) (token : Token)
        → dispatch s' (char_at m m.stop) m zero_token ≡ ok (state_0, l', token)
        → next_token l ≡ ok (record token { line_nr = l'.line_nr }, l')
    unfolding next_token
    next_token-three l' token e = rw (
      fuel_eq,
      run-next _ state_1 l zero_token s l zero_token h first d,
      run-next _ s l zero_token s' m zero_token h second d',
      run-last _ s' m zero_token l' token h' e,
    )

    pub next_token-three_failed :
        dispatch s' (char_at m m.stop) m zero_token ≡ failed assertion
        → next_token l ≡ failed assertion
    unfolding next_token
    next_token-three_failed e = rw (
      fuel_eq,
      run-next _ state_1 l zero_token s l zero_token h first d,
      run-next _ s l zero_token s' m zero_token h second d',
      run-failed _ s' m zero_token h' e,
    )
