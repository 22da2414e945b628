-- ===== src/Lex/Steps/Run.antt =====
-- The loop of `next_token` ends with the fuel it is given, at every text.
use dp4c.Prelude.{
  ℕ, zero, suc, ◌+◌, ◌-◌, ◌*◌, ◌≤◌, ◌<◌, ◌≡◌, ◌⊎◌, inl, inr, refl, arith, true, false, Bool-cases,
  Ensures, returns, stops, Ensures-bind, Ensures-mono,
}
use dp4c.Token.{Token, zero_token, end_of_input}
use dp4c.Basic.{cstr_is_digit}
use dp4c.Lex.Chars.{Lexer, text_size}
use dp4c.Lex.Switch.{
  State, state_0, state_1, state_2, state_3, state_4, state_100, state_101, state_102, state_103,
  state_104, state_105, state_106, state_107, state_108, state_109, state_110, state_111, state_112,
  state_113, state_114, state_115, state_116, state_117, state_118, state_119, state_120, state_121,
  state_122, state_200, state_201, state_310, state_311, state_400, state_401, state_402, state_403,
  state_404, state_405, state_406, state_407, state_408, state_409, state_500,
}
use dp4c.Lex.Operators.{
  case_2, case_3, case_4, case_100, case_104, case_105, case_106, case_107, case_108, case_109,
  case_110, case_111, case_112, case_114, case_115, case_121, case_122,
}
use dp4c.Lex.Numbers.{
  is_digit_or_underscore, case_402, case_403, case_404, case_406, case_407, case_408,
}
use dp4c.Lex.Machine.{dispatch, is_done, run, run_fuel, next_token}
use dp4c.Lex.Progress.{
  Reads, Reads-refl, Reads-trans, char_lookahead-Ensures, lexeme_advance-Ensures, IsTotal,
}
use dp4c.Lex.Steps.Operators.{
  case_1-Progress, case_101-Progress, case_102-Progress, case_103-Progress, case_113-Progress,
  case_116-Progress, case_117-Progress, case_118-Progress, case_119-Progress, case_120-Progress,
}
use dp4c.Lex.Steps.Texts.{
  case_200-Progress, case_201-Progress, case_310-Progress, case_311-Progress, case_500-Progress,
}
use dp4c.Lex.Steps.Numbers.{
  case_400-Progress, case_401-Progress, case_405-Progress, case_409-Progress, plain_number-Progress,
  sized_number-Progress,
}
use dp4c.Lex.Steps.{rank, IsFresh, Progress, accept-Progress, ended-Progress}

underscore-IsTotal :
    (base : ℕ) → IsTotal (λ c. cstr_is_digit c base) → IsTotal (is_digit_or_underscore base)
unfolding is_digit_or_underscore
underscore-IsTotal base total c = let (b, e) = total c in rw e (_, refl)

hex-IsTotal : IsTotal (λ c. cstr_is_digit c 16)
unfolding cstr_is_digit
hex-IsTotal c = (_, refl)

octal-IsTotal : IsTotal (λ c. cstr_is_digit c 8)
unfolding cstr_is_digit
octal-IsTotal c = (_, refl)

binary-IsTotal : IsTotal (λ c. cstr_is_digit c 2)
unfolding cstr_is_digit
binary-IsTotal c = (_, refl)

dispatch-Progress :
    (s : State) (c : ℕ) (l : Lexer) (token : Token)
    → l.stop ≤ text_size l
    → IsFresh s l
    → Ensures (Progress s l) (dispatch s c l token)
unfolding dispatch case_2 case_3 case_4 case_100 case_104 case_105 case_106 case_107 case_108
    case_109 case_110 case_111 case_112 case_114 case_115 case_121 case_122 case_402 case_403
    case_404 case_406 case_407 case_408
dispatch-Progress state_0 c l token w f = stops
dispatch-Progress state_1 c l token w f = case_1-Progress c l token w f
dispatch-Progress state_2 c l token w f =
    returns
      (record { reads = Reads-refl l w; falls = omega arith; fresh = f; done = λ _. inl refl })
dispatch-Progress state_3 c l token w f = Ensures-bind (lexeme_advance-Ensures l) λ m (step, fresh).
    returns (ended-Progress state_3 l l m _ (omega arith) (Reads-refl l w) step fresh)
dispatch-Progress state_4 c l token w f = Ensures-bind (lexeme_advance-Ensures l) λ m (step, fresh).
    returns (ended-Progress state_4 l l m _ (omega arith) (Reads-refl l w) step fresh)
dispatch-Progress state_100 c l token w f =
    accept-Progress state_100 l _ l token (omega arith) (Reads-refl l w)
dispatch-Progress state_101 c l token w f = case_101-Progress l token w
dispatch-Progress state_102 c l token w f = case_102-Progress l token w
dispatch-Progress state_103 c l token w f = case_103-Progress l token w
dispatch-Progress state_104 c l token w f =
    accept-Progress state_104 l _ l token (omega arith) (Reads-refl l w)
dispatch-Progress state_105 c l token w f =
    accept-Progress state_105 l _ l token (omega arith) (Reads-refl l w)
dispatch-Progress state_106 c l token w f =
    accept-Progress state_106 l _ l token (omega arith) (Reads-refl l w)
dispatch-Progress state_107 c l token w f =
    accept-Progress state_107 l _ l token (omega arith) (Reads-refl l w)
dispatch-Progress state_108 c l token w f =
    accept-Progress state_108 l _ l token (omega arith) (Reads-refl l w)
dispatch-Progress state_109 c l token w f =
    accept-Progress state_109 l _ l token (omega arith) (Reads-refl l w)
dispatch-Progress state_110 c l token w f =
    accept-Progress state_110 l _ l token (omega arith) (Reads-refl l w)
dispatch-Progress state_111 c l token w f =
    accept-Progress state_111 l _ l token (omega arith) (Reads-refl l w)
dispatch-Progress state_112 c l token w f =
    accept-Progress state_112 l _ l token (omega arith) (Reads-refl l w)
dispatch-Progress state_113 c l token w f = case_113-Progress l token w
dispatch-Progress state_114 c l token w f =
    accept-Progress state_114 l _ l token (omega arith) (Reads-refl l w)
dispatch-Progress state_115 c l token w f =
    accept-Progress state_115 l _ l token (omega arith) (Reads-refl l w)
dispatch-Progress state_116 c l token w f = case_116-Progress l token w
dispatch-Progress state_117 c l token w f = case_117-Progress l token w
dispatch-Progress state_118 c l token w f = case_118-Progress l token w
dispatch-Progress state_119 c l token w f = case_119-Progress l token w
dispatch-Progress state_120 c l token w f = case_120-Progress l token w
dispatch-Progress state_121 c l token w f =
    accept-Progress state_121 l _ l token (omega arith) (Reads-refl l w)
dispatch-Progress state_122 c l token w f =
    accept-Progress state_122 l _ l token (omega arith) (Reads-refl l w)
dispatch-Progress state_200 c l token w f = case_200-Progress l token w
dispatch-Progress state_201 c l token w f = case_201-Progress l token w
dispatch-Progress state_310 c l token w f = case_310-Progress l token w
dispatch-Progress state_311 c l token w f = case_311-Progress l token w
dispatch-Progress state_401 c l token w f = case_401-Progress l token w
dispatch-Progress state_409 c l token w f = case_409-Progress l token w
dispatch-Progress state_500 c l token w f = case_500-Progress l token w
dispatch-Progress state_400 c l token w f = case_400-Progress c l token w
dispatch-Progress state_405 c l token w f = case_405-Progress c l token w
dispatch-Progress state_402 c l token w f =
    plain_number-Progress state_402 16 l token (omega arith) (underscore-IsTotal 16 hex-IsTotal) w
dispatch-Progress state_403 c l token w f =
    plain_number-Progress state_403 8 l token (omega arith) (underscore-IsTotal 8 octal-IsTotal) w
dispatch-Progress state_404 c l token w f =
    plain_number-Progress state_404 2 l token (omega arith) (underscore-IsTotal 2 binary-IsTotal) w
dispatch-Progress state_406 c l token w f =
    sized_number-Progress state_406 16 l token (omega arith) (underscore-IsTotal 16 hex-IsTotal) w
dispatch-Progress state_407 c l token w f =
    sized_number-Progress state_407 8 l token (omega arith) (underscore-IsTotal 8 octal-IsTotal) w
dispatch-Progress state_408 c l token w f =
    sized_number-Progress state_408 2 l token (omega arith) (underscore-IsTotal 2 binary-IsTotal) w

rank_pos : (s : State) → is_done s ≡ false → 1 ≤ rank s
rank_pos state_0 h = cc
rank_pos _ h = omega arith

done-IsFresh : (s : State) (l : Lexer) → is_done s ≡ true → IsFresh s l → l.start ≡ l.stop
done-IsFresh state_0 l h f = f
done-IsFresh _ l h f = cc

-- What a token leaves behind: an empty lexeme within the text, with a character read at least, but
-- for the end of the input.
pub record HasRead (l l' : Lexer) (token : Token) : Type 0 where
  pub reads : Reads 0 l l'
  pub empty : l'.start ≡ l'.stop
  pub moves : (token.klass ≡ end_of_input) ⊎ (l.stop < l'.stop)

run-HasRead :
    (fuel : ℕ) (s : State) (l : Lexer) (token : Token)
    → is_done s ≡ false
    → IsFresh s l
    → 4 * (text_size l - l.stop) + rank s ≤ fuel
    → Ensures (λ r. HasRead l r.0 r.1) (run fuel s l token)
unfolding run
run-HasRead zero s l token d f h = absurd (omega (arith, rank_pos s d))
run-HasRead (suc fuel) s l token d f h = Ensures-bind (char_lookahead-Ensures 0 l) λ c w.
    Ensures-bind (dispatch-Progress s c l token (omega arith) f) λ r p.
      elim (Bool-cases (is_done r.0)) [
        | inl e ↦ rw e (
            returns {a = (r.1, r.2)} (record {
              reads = p.reads;
              empty = done-IsFresh r.0 r.1 e p.fresh;
              moves = p.done e;
            }))
        | inr e ↦ rw e (
            Ensures-mono
              (run-HasRead fuel r.0 r.1 r.2 e p.fresh (rw p.reads.text_eq (omega (arith, p.falls))))
              (λ q more. record {
                reads = Reads-trans p.reads more.reads (omega arith);
                empty = more.empty;
                moves = elim more.moves [
                  | inl e ↦ inl e
                  | inr lt ↦ inr (omega (arith, p.reads.ahead))
                ];
              }))
      ]

-- Between two tokens, `next_token` ends. If it returns a token then the lexer stays within the text, has not gone back,
-- and has read a character at least unless the token is the end of the input.
pub next_token-HasRead :
    (l : Lexer)
    → l.start ≡ l.stop
    → Ensures (λ r. HasRead l r.1 r.0 × (r.0.line_nr ≡ r.1.line_nr)) (next_token l)
unfolding next_token
next_token-HasRead l f =
    Ensures-bind (run-HasRead (run_fuel l) state_1 l zero_token refl f (omega arith)) λ r h.
      returns {a = (record (r.1) { line_nr = r.0.line_nr }, r.0)}
        (record { reads = h.reads; empty = h.empty; moves = h.moves }, refl)
