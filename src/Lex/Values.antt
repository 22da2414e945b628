-- ===== src/Lex/Values.antt =====
-- The value of a number: what `parse_integer` computes, and when it leaves the range of `int`.
use native.Mathlib.Nat.{pow-zero, pow-suc, one-le-pow}
use native.Mathlib.Decide.{dec_lt}
use mathlib.Core.Path.{subst}
use dp4c.Prelude.{
  ℕ, suc, ◌+◌, ◌-◌, ◌*◌, ◌^◌, ◌≤◌, ◌<◌, ◌≡◌, ◌⊎◌, inl, inr, ◌≢◌, refl, sym, ap, ◌∙◌, arith, List,
  [], ◌∷◌, true, false, leb, ◌==◌, if◌then◌else◌, ok, failed, overflow, ◌>>=◌,
}
use dp4c.Basic.{cstr_is_digit}
use dp4c.Lex.Integer.{digit_to_integer, to_int, parse_digits, parse_integer}

-- The bases of P4's integers.
abbrev pub IsBase : ℕ → Type 0
IsBase b = (b ≡ 2) ⊎ (b ≡ 8) ⊎ (b ≡ 10) ⊎ (b ≡ 16)

-- The digits in ASCII are 0 to 9, then A to F, then a to f.
unfoldable pub digit_value : ℕ → ℕ
digit_value c = if leb c b'9' then c - b'0' else if leb c b'F' then c - 55 else c - 87

abbrev pub IsDigit : ℕ → ℕ → Type 0
IsDigit base c = cstr_is_digit c base ≡ ok true

-- A string of digits and underscores.
abbrev pub IsNumeral : ℕ → List ℕ → Type 0
IsNumeral base [] = Unit
IsNumeral base (c ∷ cs) = (IsDigit base c ⊎ (c ≡ b'_')) × IsNumeral base cs

-- The number of digits, and the number that they write: a digit counts by the power of the base for
-- the digits behind it.
unfoldable pub places : List ℕ → ℕ
places [] = 0
places (c ∷ cs) = if c == b'_' then places cs else suc (places cs)

unfoldable pub positional : ℕ → List ℕ → ℕ
positional base [] = 0
positional base (c ∷ cs) =
    if c == b'_' then positional base cs else digit_value c * base ^ places cs + positional base cs

base_pos : (b : ℕ) → IsBase b → 0 < b
base_pos b h = omega arith

digit_to_integer_lem :
    (base c : ℕ)
    → IsBase base
    → IsDigit base c
    → (digit_to_integer c base ≡ ok (digit_value c)) × (digit_value c < 16) × (c == b'_' ≡ false)
unfolding cstr_is_digit digit_to_integer digit_value
digit_to_integer_lem base c (inl e) d = rw e (ground (arith, rw e at d))
digit_to_integer_lem base c (inr (inl e)) d = rw e (ground (arith, rw e at d))
digit_to_integer_lem base c (inr (inr (inl e))) d = rw e (ground (arith, rw e at d))
digit_to_integer_lem base c (inr (inr (inr e))) d = rw e (ground (arith, rw e at d))

underscore-digit : (base : ℕ) → IsBase base → cstr_is_digit b'_' base ≡ ok false
unfolding cstr_is_digit
underscore-digit base (inl e) = rw e
underscore-digit base (inr (inl e)) = rw e
underscore-digit base (inr (inr (inl e))) = rw e
underscore-digit base (inr (inr (inr e))) = rw e

to_int_small : (v : ℕ) → v < 2 ^ 31 → to_int v ≡ ok v
to_int_small v h = ground arith

to_int_large : (v : ℕ) → 2 ^ 31 ≤ v → to_int v ≡ failed overflow
to_int_large v h = ground arith

-- Horner's rule for one digit.
horner : (r b d p q : ℕ) → (r * b + d) * p + q ≡ r * (p * b) + (d * p + q)
horner r b d p q = omega arith

grows : (v p q : ℕ) → 1 ≤ p → v ≤ v * p + q
grows v p q h = grind arith

parse_digits_lem :
    (base : ℕ) (str : List ℕ) (r : ℕ)
    → IsBase base
    → IsNumeral base str
    → r < 2 ^ 31
    → parse_digits r str base ≡ to_int (r * base ^ places str + positional base str)
unfolding parse_digits places positional
parse_digits_lem base [] r b n h = sym (ap to_int (rw pow-zero (omega arith)) ∙ to_int_small r h)
parse_digits_lem base (c ∷ str) r b (inr e, n) h =
    subst
      (λ (d : ℕ).
        parse_digits r (d ∷ str) base
        ≡ to_int (r * base ^ places (d ∷ str) + positional base (d ∷ str)))
      (sym e) (rw (underscore-digit base b, ◌>>=◌) (parse_digits_lem base str r b n h))
parse_digits_lem base (c ∷ str) r b (inl d, n) h =
    let (v, small, plain) = digit_to_integer_lem base c b d in
    let p = base ^ places str in
    let q = positional base str in
    let s = r * base + digit_value c in
    let sum : s * p + q ≡ r * base ^ suc (places str) + (digit_value c * p + q) =
      rw pow-suc (horner r base (digit_value c) p q) in
    rw (d, ◌>>=◌, v, plain)
      (elim (dec_lt s (2 ^ 31)) [
        | yes lt ↦ rw (to_int_small s lt) (parse_digits_lem base str s b n lt ∙ ap to_int sum)
        | no ge ↦ rw (to_int_large s (omega arith)) (
            sym (
              to_int_large _
                (omega (arith, sum, grows s p q (one-le-pow (places str) base (base_pos base b))))))
      ])

parse_integer-to_int :
    (base c : ℕ) (str : List ℕ)
    → IsBase base
    → IsNumeral base (c ∷ str)
    → parse_integer (c ∷ str) base ≡ to_int (positional base (c ∷ str))
unfolding parse_integer positional
parse_integer-to_int base c str b (inr e, n) =
    subst (λ (d : ℕ). parse_integer (d ∷ str) base ≡ to_int (positional base (d ∷ str))) (sym e)
      (rw (underscore-digit base b, ◌>>=◌)
        (parse_digits_lem base str 0 b n (omega arith) ∙ ap to_int (omega arith)))
parse_integer-to_int base c str b (inl d, n) =
    let (v, small, plain) = digit_to_integer_lem base c b d in
    rw (d, ◌>>=◌, plain, v) (parse_digits_lem base str (digit_value c) b n (omega arith) ∙ refl)

-- On a string of digits and underscores that is not empty, `parse_integer` computes the number that
-- the digits write in their base, with the underscores left out, if that is below 2 ^ 31; and it
-- leaves the range of `int` if not.
pub parse_integer_lem :
    (base : ℕ) (str : List ℕ)
    → IsBase base
    → str ≢ []
    → IsNumeral base str
    → ((positional base str < 2 ^ 31) × (parse_integer str base ≡ ok (positional base str)))
      ⊎ ((2 ^ 31 ≤ positional base str) × (parse_integer str base ≡ failed overflow))
parse_integer_lem base [] b ne n = absurd (ne refl)
parse_integer_lem base (c ∷ str) b ne n =
    let v = positional base (c ∷ str) in
    let run = parse_integer-to_int base c str b n in
    elim (dec_lt v (2 ^ 31)) [
      | yes lt ↦ inl (lt, run ∙ to_int_small v lt)
      | no ge ↦ inr (omega arith, run ∙ to_int_large v (omega arith))
    ]
