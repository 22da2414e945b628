-- ===== src/Lex/Steps/Texts.antt =====
-- Progress of the cases 200 to 311 and 500.
use dp4c.Prelude.{
  ℕ, zero, suc, ◌+◌, ◌≤◌, ◌<◌, refl, arith, ◌==◌, if◌then◌else◌, Ensures, returns, stops,
  Ensures-bind, Ensures-elim, Ensures-if, Ensures-mono,
}
use dp4c.Token.{Token}
use dp4c.Basic.{cstr_is_digit}
use dp4c.Lex.Chars.{Lexer, char_retract, rounds, text_size}
use dp4c.Lex.Switch.{
  State, is_newline, newline_pair, state_4, state_200, state_201, state_310, state_311, state_500,
}
use dp4c.Lex.Texts.{
  string_loop, comment_newline, comment_loop, is_word, case_200, case_201, case_310, case_311,
  case_500,
}
use dp4c.Lex.Progress.{
  Reads, Reads-refl, Reads-stop_le, Reads-trans, char_lookahead-Ensures, char_advance-Ensures,
  advance_while-Ensures, IsTotal,
}
use dp4c.Lex.Steps.{Progress, accept-Progress, moved-Progress}

string_loop-Ensures :
    (fuel : ℕ) (s : State) (l : Lexer)
    → text_size l < l.stop + fuel
    → l.stop ≤ text_size l
    → Ensures (λ r. Reads 1 l r.1) (string_loop fuel s l)
unfolding string_loop
string_loop-Ensures zero s l h w = absurd (omega arith)
string_loop-Ensures (suc fuel) s l h w = Ensures-bind (char_advance-Ensures 1 l) λ r step.
    Ensures-elim (r.0 == b'\\') (λ _. returns {a = (state_201, r.1)} step)
      (λ _.
        let s' = if is_newline r.0 then state_4 else s in
        Ensures-elim (r.0 == b'"') (λ _. returns {a = (s', r.1)} step)
          (λ _.
            Ensures-mono
              (string_loop-Ensures fuel s' r.1 (rw step.text_eq (omega arith)) (Reads-stop_le step))
              (λ q more. Reads-trans step more (omega arith))))

pub case_200-Progress :
    (l : Lexer) (token : Token)
    → l.stop ≤ text_size l
    → Ensures (Progress state_200 l) (case_200 l token)
unfolding case_200
case_200-Progress l token w =
    Ensures-bind (string_loop-Ensures (rounds l) state_200 l (omega arith) w) λ r step.
      accept-Progress state_200 l _ r.1 token (omega arith)
        (Reads-trans (Reads-refl l w) step (omega arith))

add_line :
    {k : ℕ} {l l' : Lexer} → Reads k l l' → Reads k l (record l' { line_nr = l'.line_nr + 1 })
add_line r = record {
  text_eq = r.text_eq;
  tokens_eq = r.tokens_eq;
  ahead = r.ahead;
  within = r.within;
  lines = omega (arith, r.lines);
}

pub case_201-Progress :
    (l : Lexer) (token : Token)
    → l.stop ≤ text_size l
    → Ensures (Progress state_201 l) (case_201 l token)
unfolding case_201
case_201-Progress l token w = Ensures-bind (char_advance-Ensures 1 l) λ r step.
    Ensures-if (is_newline r.0)
      (λ _.
        returns
          (moved-Progress state_201 l state_200 _ token (omega arith) refl tt (add_line step)))
      (λ _.
        Ensures-if _
          (λ _. returns (moved-Progress state_201 l state_200 r.1 token (omega arith) refl tt step))
          (λ _. returns (moved-Progress state_201 l state_4 r.1 token (omega arith) refl tt step)))

comment_newline-Ensures :
    (c : ℕ) (l : Lexer) → l.stop ≤ text_size l → Ensures (λ r. Reads 0 l r.1) (comment_newline c l)
unfolding comment_newline
comment_newline-Ensures c l w = Ensures-bind (char_lookahead-Ensures 1 l) λ d _.
    Ensures-bind {P = λ r. Reads 0 l r.1}
      (Ensures-if (c + d == newline_pair)
        (λ _.
          Ensures-mono (char_advance-Ensures 1 l)
            (λ r step. Reads-trans (Reads-refl l w) step (omega arith)))
        (λ _. returns (Reads-refl l w)))
      λ r step. returns {a = (r.0, record (r.1) { line_nr = r.1.line_nr + 1 })} (add_line step)

comment_loop-Ensures :
    (fuel : ℕ) (l : Lexer)
    → text_size l < l.stop + fuel
    → l.stop ≤ text_size l
    → Ensures (Reads 1 l) (comment_loop fuel l)
unfolding comment_loop
comment_loop-Ensures zero l h w = absurd (omega arith)
comment_loop-Ensures (suc fuel) l h w = Ensures-bind (char_advance-Ensures 1 l) λ r step.
    Ensures-bind {P = λ q. Reads 1 l q.1}
      (Ensures-if (is_newline r.0)
        (λ _.
          Ensures-mono (comment_newline-Ensures r.0 r.1 (Reads-stop_le step))
            (λ q more. Reads-trans step more (omega arith)))
        (λ _. returns step))
      λ q seen.
        Ensures-elim (q.0 == b'*') (λ _. returns seen)
          (λ _.
            Ensures-mono
              (comment_loop-Ensures fuel q.1 (rw seen.text_eq (omega arith)) (Reads-stop_le seen))
              (λ m more. Reads-trans seen more (omega arith)))

pub case_310-Progress :
    (l : Lexer) (token : Token)
    → l.stop ≤ text_size l
    → Ensures (Progress state_310 l) (case_310 l token)
unfolding case_310
case_310-Progress l token w =
    Ensures-bind (comment_loop-Ensures (rounds l) l (omega arith) w) λ m seen.
      Ensures-bind (char_lookahead-Ensures 1 m) λ d _.
        Ensures-elim (d == b'/')
          (λ _. Ensures-bind (char_advance-Ensures 1 m) λ r more.
            accept-Progress state_310 l _ r.1 token (omega arith)
              (Reads-trans seen more (omega arith)))
          (λ _. returns (moved-Progress state_310 l state_310 m token (omega arith) refl tt seen))

pub case_311-Progress :
    (l : Lexer) (token : Token)
    → l.stop ≤ text_size l
    → Ensures (Progress state_311 l) (case_311 l token)
unfolding case_311
case_311-Progress l token w = Ensures-bind (advance_while-Ensures _ l (λ c. (_, refl)) w) λ r step.
    accept-Progress state_311 l _ _ token (omega arith)
      (add_line (Reads-trans (Reads-refl l w) step (omega arith)))

pub is_word-IsTotal : IsTotal is_word
unfolding is_word cstr_is_digit
is_word-IsTotal c = (_, refl)

-- One step back from behind the last character of a word or number.
pub char_retract-Ensures :
    {l m : Lexer} → l.stop ≤ text_size l → Reads 1 l m → Ensures (Reads 0 l) (char_retract m)
unfolding char_retract
char_retract-Ensures {l} {m} w seen =
    Ensures-if (m.stop == 0) (λ _. stops)
      (λ _. returns (record {
        text_eq = seen.text_eq;
        tokens_eq = seen.tokens_eq;
        ahead = omega (arith, seen.ahead);
        within = omega (arith, seen.within);
        lines = seen.lines;
      }))

pub case_500-Progress :
    (l : Lexer) (token : Token)
    → l.stop ≤ text_size l
    → Ensures (Progress state_500 l) (case_500 l token)
unfolding case_500
case_500-Progress l token w =
    Ensures-bind (advance_while-Ensures is_word l is_word-IsTotal w) λ r step.
      Ensures-bind (char_retract-Ensures w step)
        λ m seen. accept-Progress state_500 l _ m token (omega arith) seen
