-- ===== src/Lex/Steps/Numbers.antt =====
-- Progress of the cases 400 to 409.
use dp4c.Prelude.{
  ℕ, ◌+◌, ◌-◌, ◌*◌, ◌≤◌, ◌<◌, ◌≡◌, refl, arith, List, [], ◌∷◌, Bool, ltb, Ensures-assert, ◌^◌,
  get_or, false, ◌||◌, ◌==◌, Result, ok, Ensures, returns, stops, Ensures-bind, Ensures-elim,
  Ensures-if, Ensures-mono, Ensures-of_eq, ◌>>=◌,
}
use dp4c.Token.{Token}
use dp4c.Basic.{cstr_is_digit}
use dp4c.Lex.Chars.{Lexer, Lexeme, char_advance, text_size, lexeme_to_cstring}
use dp4c.Lex.Integer.{digit_to_integer, parse_digits, parse_integer, token_install_integer}
use dp4c.Lex.Switch.{
  State, state_400, state_401, state_402, state_403, state_404, state_405, state_406, state_407,
  state_408, state_409,
}
use dp4c.Lex.Numbers.{
  choose_base, is_decimal, is_digit_or_underscore, install_number, scan_number, plain_number,
  sized_number, case_400, case_401, case_405, case_409,
}
use dp4c.Lex.Machine.{is_done}
use dp4c.Lex.Progress.{
  Reads, Reads-refl, Reads-trans, char_lookahead-Ensures, char_advance-Ensures,
  lexeme_advance-Ensures, advance_while-Ensures, IsTotal,
}
use dp4c.Lex.Steps.Texts.{char_retract-Ensures}
use dp4c.Lex.Steps.{rank, IsFresh, Progress, ended-Progress, moved-Progress, stayed-Progress}

abbrev AnyValue : {A : Type 0} → Result A → Type 0
AnyValue m = Ensures (λ _. Unit {0}) m

cstr_is_digit-Ensures : (c base : ℕ) → AnyValue (cstr_is_digit c base)
unfolding cstr_is_digit
cstr_is_digit-Ensures c base = Ensures-of_eq _ (λ e. ground arith) (λ _ _. tt)

digit_to_integer-Ensures : (c base : ℕ) → AnyValue (digit_to_integer c base)
unfolding digit_to_integer
digit_to_integer-Ensures c base = Ensures-of_eq _ (λ e. ground arith) (λ _ _. tt)

parse_digits-Ensures : (r : ℕ) (str : List ℕ) (base : ℕ) → AnyValue (parse_digits r str base)
unfolding parse_digits
parse_digits-Ensures r [] base = returns tt
parse_digits-Ensures r (c ∷ str) base = Ensures-bind (cstr_is_digit-Ensures c base) λ digit _.
    Ensures-elim digit
      (λ _. Ensures-bind (digit_to_integer-Ensures c base) λ d _.
        Ensures-bind {P = λ _. Unit {0}}
          (Ensures-if (ltb (r * base + d) (2 ^ 31)) (λ _. returns tt) (λ _. stops))
          λ v _. parse_digits-Ensures v str base)
      (λ _. Ensures-elim (c == b'_') (λ _. parse_digits-Ensures r str base) (λ _. stops))

parse_integer-Ensures : (str : List ℕ) (base : ℕ) → AnyValue (parse_integer str base)
unfolding parse_integer
parse_integer-Ensures [] base = stops
parse_integer-Ensures (c ∷ str) base = Ensures-bind (cstr_is_digit-Ensures c base) λ digit _.
    Ensures-assert (digit || c == b'_') {m = _ >>= λ r. parse_digits r str base} λ _.
      Ensures-bind {P = λ _. Unit {0}}
        (Ensures-if (c == b'_') (λ _. returns tt) (λ _. digit_to_integer-Ensures c base))
        λ r _. parse_digits-Ensures r str base

token_install_integer-Ensures :
    (token : Token) (l : Lexer) (x : Lexeme) (base : ℕ)
    → AnyValue (token_install_integer token l x base)
unfolding token_install_integer
token_install_integer-Ensures token l x base =
    let string = lexeme_to_cstring l x in
    let c = get_or string 0 0 in
    Ensures-bind (cstr_is_digit-Ensures c base) λ digit _.
      Ensures-elim (digit || c == b'_')
        (λ _. Ensures-bind (parse_integer-Ensures string base) λ v _. returns tt)
        (λ _.
          Ensures-if (base == 10 || base == 16 || base == 8 || base == 2) (λ _. stops) (λ _. stops))

set_number : {k : ℕ} {l m : Lexer} (x : Lexeme) → Reads k l m → Reads k l (record m { number = x })
set_number x r = record {
  text_eq = r.text_eq;
  tokens_eq = r.tokens_eq;
  ahead = r.ahead;
  within = r.within;
  lines = r.lines;
}

install_number-Progress :
    (s : State) (l : Lexer) (base : ℕ) (m : Lexer) (token : Token)
    → 1 ≤ rank s
    → l.stop ≤ text_size l
    → Reads 1 l m
    → Ensures (Progress s l) (install_number base m token)
unfolding install_number
install_number-Progress s l base m token h w seen =
    Ensures-bind (char_retract-Ensures w seen) λ n back.
      let number = record (n.number) { stop = n.stop } in
      Ensures-bind (token_install_integer-Ensures token n number base) λ token' _.
        Ensures-bind (lexeme_advance-Ensures (record n { number = number })) λ r (step, fresh).
          returns (
            ended-Progress s l (record n { number = number }) r _ h (set_number number back) step
              fresh)

scan_number-Ensures :
    (test : ℕ → Result Bool) (l : Lexer)
    → IsTotal test
    → l.stop ≤ text_size l
    → Ensures (λ r. Reads 1 l r.1) (scan_number test l)
unfolding scan_number
scan_number-Ensures test l total w =
    let l' = record l { number = record { start = l.stop; stop = l.stop } } in
    Ensures-mono (advance_while-Ensures test l' total w)
      λ r step. Reads-trans (set_number l'.number (Reads-refl l w)) step (omega arith)

abbrev IsNumeric : State → Type 0
IsNumeric s = (rank s < 2) × (is_done s ≡ false) × ((l : Lexer) → IsFresh s l)

choose_base-Ensures :
    (hex octal binary decimal : State) (c : ℕ) (l : Lexer)
    → IsNumeric hex
    → IsNumeric octal
    → IsNumeric binary
    → IsNumeric decimal
    → l.stop ≤ text_size l
    → Ensures (λ r. IsNumeric r.0 × Reads 0 l r.1) (choose_base hex octal binary decimal c l)
unfolding choose_base
choose_base-Ensures hex octal binary decimal c l h o b d w =
    Ensures-elim (c == b'0')
      (λ _. Ensures-bind (char_lookahead-Ensures 1 l) λ e _.
        Ensures-elim (e == b'x' || e == b'X') (λ _. skip hex h)
          (λ _.
            Ensures-elim (e == b'o' || e == b'O') (λ _. skip octal o)
              (λ _. Ensures-elim (e == b'b' || e == b'B') (λ _. skip binary b) (λ _. stay))))
      (λ _. stay)
  where
    stay : Ensures {A = State × Lexer} (λ r. IsNumeric r.0 × Reads 0 l r.1) (ok (decimal, l))
    stay = returns {a = (decimal, l)} (d, Reads-refl l w)

    skip :
        (s : State)
        → IsNumeric s
        → Ensures {A = State × Lexer}
            (λ r. IsNumeric r.0 × Reads 0 l r.1)
            (char_advance 2 l >>= (λ r. ok (s, r.1)))
    skip s n =
        Ensures-bind (char_advance-Ensures 2 l)
          λ r step. returns {a = (s, r.1)} (n, Reads-trans (Reads-refl l w) step (omega arith))

pub case_400-Progress :
    (c : ℕ) (l : Lexer) (token : Token)
    → l.stop ≤ text_size l
    → Ensures (Progress state_400 l) (case_400 c l token)
unfolding case_400
case_400-Progress c l token w =
    Ensures-bind
      (choose_base-Ensures state_402 state_403 state_404 state_401 c l (omega arith, refl, λ _. tt)
        (omega arith, refl, λ _. tt) (omega arith, refl, λ _. tt) (omega arith, refl, λ _. tt) w)
      λ r (n, seen). returns (stayed-Progress state_400 l r.0 r.1 token n.0 n.1 (n.2 r.1) seen)

pub case_405-Progress :
    (c : ℕ) (l : Lexer) (token : Token)
    → l.stop ≤ text_size l
    → Ensures (Progress state_405 l) (case_405 c l token)
unfolding case_405
case_405-Progress c l token w =
    Ensures-bind
      (choose_base-Ensures state_406 state_407 state_408 state_409 c l (omega arith, refl, λ _. tt)
        (omega arith, refl, λ _. tt) (omega arith, refl, λ _. tt) (omega arith, refl, λ _. tt) w)
      λ r (n, seen). returns (stayed-Progress state_405 l r.0 r.1 token n.0 n.1 (n.2 r.1) seen)

is_decimal-IsTotal : IsTotal is_decimal
unfolding is_decimal cstr_is_digit
is_decimal-IsTotal c = (_, refl)

pub case_401-Progress :
    (l : Lexer) (token : Token)
    → l.stop ≤ text_size l
    → Ensures (Progress state_401 l) (case_401 l token)
unfolding case_401
case_401-Progress l token w =
    Ensures-bind (scan_number-Ensures is_decimal l is_decimal-IsTotal w) λ r seen.
      let number = record (r.1.number) { stop = r.1.stop - 1 } in
      let m = record (r.1) { number = number } in
      Ensures-elim (r.0 == b'w' || r.0 == b's')
        (λ _. Ensures-bind (parse_integer-Ensures (lexeme_to_cstring r.1 number) 10) λ width _.
          Ensures-bind (char_advance-Ensures 1 m) λ q step. returns (
            moved-Progress state_401 l state_405 q.1 _ (omega arith) refl tt
              (Reads-trans (set_number number seen) step (omega arith))))
        (λ _. install_number-Progress state_401 l 10 r.1 _ (omega arith) w seen)

pub plain_number-Progress :
    (s : State) (base : ℕ) (l : Lexer) (token : Token)
    → 1 ≤ rank s
    → IsTotal (is_digit_or_underscore base)
    → l.stop ≤ text_size l
    → Ensures (Progress s l) (plain_number base l token)
unfolding plain_number
plain_number-Progress s base l token h total w =
    Ensures-bind (scan_number-Ensures (is_digit_or_underscore base) l total w)
      λ r seen. install_number-Progress s l base r.1 _ h w seen

pub sized_number-Progress :
    (s : State) (base : ℕ) (l : Lexer) (token : Token)
    → 1 ≤ rank s
    → IsTotal (is_digit_or_underscore base)
    → l.stop ≤ text_size l
    → Ensures (Progress s l) (sized_number base l token)
unfolding sized_number
sized_number-Progress s base l token h total w =
    Ensures-bind (scan_number-Ensures (is_digit_or_underscore base) l total w)
      λ r seen. install_number-Progress s l base r.1 _ h w seen

pub case_409-Progress :
    (l : Lexer) (token : Token)
    → l.stop ≤ text_size l
    → Ensures (Progress state_409 l) (case_409 l token)
unfolding case_409
case_409-Progress l token w =
    Ensures-bind (scan_number-Ensures is_decimal l is_decimal-IsTotal w)
      λ r seen. install_number-Progress state_409 l 10 r.1 _ (omega arith) w seen
