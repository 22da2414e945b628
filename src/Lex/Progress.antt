-- ===== src/Lex/Progress.antt =====
-- Where the lexer stands after a step: it never leaves the text, never moves back over what it has
-- read, and each round of `next_token` brings it nearer to the end of the token.
use dp4c.Prelude.{
  ℕ, zero, suc, ◌+◌, ◌≤◌, ◌<◌, ◌≡◌, refl, ◌∙◌, arith, Bool, leb→le, Result, ok, Ensures, returns,
  Ensures-bind, Ensures-assert, Ensures-elim, Ensures-mono,
}
use dp4c.Lex.Chars.{
  Lexer, char_lookahead, char_advance, lexeme_advance, advance_while, rounds, text_size,
}

-- `l'` comes of `l` by reading at least `k` characters.
pub record Reads (k : ℕ) (l l' : Lexer) : Type 0 where
  pub text_eq : l'.text ≡ l.text
  pub tokens_eq : l'.tokens ≡ l.tokens
  pub ahead : l.stop + k ≤ l'.stop
  pub within : l'.stop ≤ text_size l
  pub lines : l.line_nr ≤ l'.line_nr

pub Reads-refl : (l : Lexer) → l.stop ≤ text_size l → Reads 0 l l
Reads-refl l h = record {
  text_eq = refl;
  tokens_eq = refl;
  ahead = omega arith;
  within = h;
  lines = omega arith;
}

pub Reads-trans : {j k n : ℕ} {l m r : Lexer} → Reads j l m → Reads k m r → n ≤ j + k → Reads n l r
Reads-trans a b h = record {
  text_eq = b.text_eq ∙ a.text_eq;
  tokens_eq = b.tokens_eq ∙ a.tokens_eq;
  ahead = omega arith;
  within = rw (← a.text_eq) b.within;
  lines = omega arith;
}

-- The bound holds of the text that `l'` has, too.
pub Reads-stop_le : {k : ℕ} {l l' : Lexer} → Reads k l l' → l'.stop ≤ text_size l'
Reads-stop_le r = rw r.text_eq r.within

pub char_lookahead-Ensures :
    (pos : ℕ) (l : Lexer) → Ensures (λ c. l.stop + pos ≤ text_size l) (char_lookahead pos l)
unfolding char_lookahead
char_lookahead-Ensures pos l = Ensures-assert _ {m = ok _} (λ e. returns (leb→le _ _ e))

pub char_advance-Ensures :
    (pos : ℕ) (l : Lexer) → Ensures (λ r. Reads pos l r.1) (char_advance pos l)
unfolding char_advance
char_advance-Ensures pos l = Ensures-assert _ {m = ok (_, record l { stop = l.stop + pos })} λ e.
    returns (record {
      text_eq = refl;
      tokens_eq = refl;
      ahead = omega arith;
      within = leb→le _ _ e;
      lines = omega arith;
    })

pub lexeme_advance-Ensures :
    (l : Lexer) → Ensures (λ l'. Reads 1 l l' × (l'.start ≡ l'.stop)) (lexeme_advance l)
unfolding lexeme_advance
lexeme_advance-Ensures l =
    Ensures-assert _ {m = ok (record l { start = l.stop + 1; stop = l.stop + 1 })} λ e. returns (
      record {
        text_eq = refl;
        tokens_eq = refl;
        ahead = omega arith;
        within = leb→le _ _ e;
        lines = omega arith;
      },
      refl,
    )

-- The test of a loop on characters always has an answer.
abbrev pub IsTotal : (ℕ → Result Bool) → Type 0
IsTotal test = (c : ℕ) → (b : Bool) × (test c ≡ ok b)

advance_while_fuel :
    (fuel : ℕ) (test : ℕ → Result Bool) (l : Lexer)
    → IsTotal test
    → text_size l < l.stop + fuel
    → l.stop ≤ text_size l
    → Ensures (λ r. Reads 1 l r.1) (advance_while fuel test l)
unfolding advance_while
advance_while_fuel zero test l total h w = absurd (omega arith)
advance_while_fuel (suc fuel) test l total h w = Ensures-bind (char_advance-Ensures 1 l) λ r step.
    let (b, e) = total r.0 in
    rw e (
      Ensures-elim b
        (λ _.
          Ensures-mono
            (advance_while_fuel fuel test r.1 total (rw step.text_eq (omega arith))
              (rw step.text_eq step.within))
            (λ s more. Reads-trans step more (omega arith)))
        (λ _. returns step))

pub advance_while-Ensures :
    (test : ℕ → Result Bool) (l : Lexer)
    → IsTotal test
    → l.stop ≤ text_size l
    → Ensures (λ r. Reads 1 l r.1) (advance_while (rounds l) test l)
advance_while-Ensures test l total w = advance_while_fuel (rounds l) test l total (omega arith) w
