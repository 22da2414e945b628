-- ===== src/Lex/Steps/Operators.antt =====
-- Progress of the cases 1 to 122.
use dp4c.Prelude.{
  ℕ, ◌+◌, ◌≤◌, ◌<◌, ◌≡◌, ◌≢◌, refl, arith, List, [], ◌∷◌, Bool, true, false, ◌||◌, ◌&&◌, leb, ◌==◌,
  ok, Ensures, returns, stops, out_of_fuel, Ensures-bind, Ensures-elim, Ensures-if, Ensures-mono,
  Ensures-of_eq,
}
use dp4c.Token.{Token}
use dp4c.Basic.{cstr_is_letter, cstr_is_digit}
use dp4c.Lex.Chars.{Lexer, text_size}
use dp4c.Lex.Switch.{
  State, is_newline, newline_pair, state_0, state_1, state_2, state_101, state_102, state_103,
  state_113, state_116, state_117, state_118, state_119, state_120, state_310, state_311, state_500,
}
use dp4c.Lex.Operators.{
  first_state, end_line, take_next, last_klass, case_1, case_101, case_102, case_103, case_113,
  case_116, case_117, case_118, case_119, case_120,
}
use dp4c.Lex.Machine.{is_done}
use dp4c.Lex.Progress.{
  Reads, Reads-refl, Reads-stop_le, Reads-trans, char_lookahead-Ensures, char_advance-Ensures,
  lexeme_advance-Ensures,
}
use dp4c.Lex.Steps.{rank, IsFresh, Progress, accept-Progress, moved-Progress, stayed-Progress}

take_next-Ensures :
    (want : ℕ) (l : Lexer)
    → l.stop ≤ text_size l
    → Ensures (λ r. Reads 0 l r.1 × (r.0 ≡ true → Reads 1 l r.1)) (take_next want l)
unfolding take_next
take_next-Ensures want l w = Ensures-bind (char_lookahead-Ensures 1 l) λ d _.
    Ensures-elim (d == want)
      (λ _. Ensures-bind (char_advance-Ensures 1 l) λ r step.
        returns {a = (true, r.1)} (Reads-trans (Reads-refl l w) step (omega arith), λ _. step))
      (λ _. returns {a = (false, l)} (Reads-refl l w, λ e. cc))

-- The states that follow a first character need fewer rounds, and take the lexeme as it is.
abbrev IsFirst : State → Type 0
IsFirst s = (rank s < 3) × (is_done s ≡ false) × ((l : Lexer) → l.start ≡ l.stop → IsFresh s l)

is_first : State → Bool
is_first state_0 = false
is_first state_1 = false
is_first _ = true

is_first-IsFirst : (s : State) → is_first s ≡ true → IsFirst s
unfolding is_first
is_first-IsFirst state_0 h = cc
is_first-IsFirst state_1 h = cc
is_first-IsFirst state_2 h = (omega arith, refl, λ l e. e)
is_first-IsFirst _ h = (omega arith, refl, λ l e. tt)

first_state-is_first : (c : ℕ) {s : State} → first_state c ≡ ok s → is_first s ≡ true
unfolding first_state cstr_is_digit is_first
first_state-is_first c h = ground arith

first_state-ne_fuel : (c : ℕ) → first_state c ≢ out_of_fuel
unfolding first_state cstr_is_digit
first_state-ne_fuel c h = ground arith

end_line-Ensures :
    (c : ℕ) (l : Lexer)
    → l.stop ≤ text_size l
    → l.start ≡ l.stop
    → Ensures (λ l'. Reads 0 l l' × (l'.start ≡ l'.stop)) (end_line c l)
unfolding end_line
end_line-Ensures c l w e = Ensures-bind (char_lookahead-Ensures 0 l) λ d _.
    Ensures-bind {P = λ m. Reads 0 l m × (m.start ≡ m.stop)}
      (Ensures-if (c + d == newline_pair)
        (λ _.
          Ensures-mono (lexeme_advance-Ensures l)
            (λ m (step, f). (Reads-trans {n = 0} (Reads-refl l w) step (omega arith), f)))
        (λ _. returns (Reads-refl l w, e)))
      λ m (r, f). returns (
        record {
          text_eq = r.text_eq;
          tokens_eq = r.tokens_eq;
          ahead = r.ahead;
          within = r.within;
          lines = omega (arith, r.lines);
        },
        f,
      )

pub case_1-Progress :
    (c : ℕ) (l : Lexer) (token : Token)
    → l.stop ≤ text_size l
    → l.start ≡ l.stop
    → Ensures (Progress state_1 l) (case_1 c l token)
unfolding case_1
case_1-Progress c l token w e =
    Ensures-if _
      (λ _. Ensures-bind (lexeme_advance-Ensures l) λ m (step, f).
        Ensures-bind {P = λ n. Reads 0 m n × (n.start ≡ n.stop)}
          (Ensures-if (is_newline c) (λ _. end_line-Ensures c m (Reads-stop_le step) f)
            (λ _. returns (Reads-refl m (Reads-stop_le step), f)))
          λ n (more, g). returns (
            moved-Progress state_1 l state_1 n token (omega arith) refl g
              (Reads-trans step more (omega arith))))
      (λ _.
        Ensures-bind
          (Ensures-of_eq {P = IsFirst} _ (first_state-ne_fuel c)
            (λ s h. is_first-IsFirst s (first_state-is_first c h)))
          λ s (h, d, f). returns (stayed-Progress state_1 l s l token h d (f l e) (Reads-refl l w)))

pub case_101-Progress :
    (l : Lexer) (token : Token)
    → l.stop ≤ text_size l
    → Ensures (Progress state_101 l) (case_101 l token)
unfolding case_101
case_101-Progress l token w = Ensures-bind (take_next-Ensures b'=' l w) λ r (step, _).
    Ensures-elim r.0 (λ _. accept-Progress state_101 l _ r.1 token (omega arith) step)
      (λ _. Ensures-bind (take_next-Ensures b'<' r.1 (Reads-stop_le step)) λ q (more, _).
        accept-Progress state_101 l _ q.1 token (omega arith) (Reads-trans step more (omega arith)))

pub case_102-Progress :
    (l : Lexer) (token : Token)
    → l.stop ≤ text_size l
    → Ensures (Progress state_102 l) (case_102 l token)
unfolding case_102
case_102-Progress l token w = Ensures-bind (take_next-Ensures b'=' l w) λ r (step, _).
    Ensures-elim r.0 (λ _. accept-Progress state_102 l _ r.1 token (omega arith) step)
      (λ _. Ensures-bind (take_next-Ensures b'>' r.1 (Reads-stop_le step)) λ q (more, _).
        accept-Progress state_102 l _ q.1 token (omega arith) (Reads-trans step more (omega arith)))

pub case_103-Progress :
    (l : Lexer) (token : Token)
    → l.stop ≤ text_size l
    → Ensures (Progress state_103 l) (case_103 l token)
unfolding case_103 cstr_is_digit
case_103-Progress l token w = Ensures-bind (char_lookahead-Ensures 1 l) λ d _.
    Ensures-if (cstr_is_letter d || leb b'0' d && leb d b'9' || d == b'_')
      (λ _.
        returns
          (stayed-Progress state_103 l state_500 l token (omega arith) refl tt (Reads-refl l w)))
      (λ _. accept-Progress state_103 l _ l token (omega arith) (Reads-refl l w))

last_klass-Ensures : (tokens : List Token) → Ensures (λ _. Unit {0}) (last_klass tokens)
unfolding last_klass
last_klass-Ensures [] = stops
last_klass-Ensures (_ ∷ _) = returns tt

pub case_113-Progress :
    (l : Lexer) (token : Token)
    → l.stop ≤ text_size l
    → Ensures (Progress state_113 l) (case_113 l token)
unfolding case_113
case_113-Progress l token w =
    Ensures-bind (last_klass-Ensures l.tokens)
      λ prev _. accept-Progress state_113 l _ l token (omega arith) (Reads-refl l w)

pub case_116-Progress :
    (l : Lexer) (token : Token)
    → l.stop ≤ text_size l
    → Ensures (Progress state_116 l) (case_116 l token)
unfolding case_116
case_116-Progress l token w = Ensures-bind (take_next-Ensures b'*' l w) λ r (step, moved).
    Ensures-elim r.0
      (λ e.
        returns (moved-Progress state_116 l state_310 r.1 token (omega arith) refl tt (moved e)))
      (λ _. Ensures-bind (char_lookahead-Ensures 1 r.1) λ d _.
        Ensures-if (d == b'/')
          (λ _.
            returns (stayed-Progress state_116 l state_311 r.1 token (omega arith) refl tt step))
          (λ _. accept-Progress state_116 l _ r.1 token (omega arith) step))

pub case_117-Progress :
    (l : Lexer) (token : Token)
    → l.stop ≤ text_size l
    → Ensures (Progress state_117 l) (case_117 l token)
unfolding case_117
case_117-Progress l token w =
    Ensures-bind (take_next-Ensures b'=' l w)
      λ r (step, _). accept-Progress state_117 l _ r.1 token (omega arith) step

pub case_118-Progress :
    (l : Lexer) (token : Token)
    → l.stop ≤ text_size l
    → Ensures (Progress state_118 l) (case_118 l token)
unfolding case_118
case_118-Progress l token w =
    Ensures-bind (take_next-Ensures b'=' l w)
      λ r (step, _). accept-Progress state_118 l _ r.1 token (omega arith) step

pub case_120-Progress :
    (l : Lexer) (token : Token)
    → l.stop ≤ text_size l
    → Ensures (Progress state_120 l) (case_120 l token)
unfolding case_120
case_120-Progress l token w =
    Ensures-bind (take_next-Ensures b'|' l w)
      λ r (step, _). accept-Progress state_120 l _ r.1 token (omega arith) step

pub case_119-Progress :
    (l : Lexer) (token : Token)
    → l.stop ≤ text_size l
    → Ensures (Progress state_119 l) (case_119 l token)
unfolding case_119
case_119-Progress l token w = Ensures-bind (take_next-Ensures b'&' l w) λ r (step, _).
    Ensures-elim r.0
      (λ _. Ensures-bind (take_next-Ensures b'&' r.1 (Reads-stop_le step)) λ q (more, _).
        accept-Progress state_119 l _ q.1 token (omega arith) (Reads-trans step more (omega arith)))
      (λ _. accept-Progress state_119 l _ r.1 token (omega arith) step)
