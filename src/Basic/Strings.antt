-- ===== src/Basic/Strings.antt =====
-- What `cstr_match` and `cstr_start_with` decide.
use dp4c.Prelude.{
  ℕ, List, [], ◌∷◌, ◌++◌, Bool, true, false, ◌&&◌, ◌≡◌, ◌≢◌, ◌⊎◌, ◌↔◌, refl, inl, inr, arith, ◌==◌,
  ok, failed, out_of_bounds,
}
use dp4c.Basic.{cstr_match, cstr_start_with}

-- Equality of byte strings as a test.
unfoldable pub str_eq : List ℕ → List ℕ → Bool
str_eq [] [] = true
str_eq [] (b ∷ bs) = false
str_eq (a ∷ as') [] = false
str_eq (a ∷ as') (b ∷ bs) = a == b && str_eq as' bs

pub str_eq_iff : (a b : List ℕ) → (str_eq a b ≡ true) ↔ (a ≡ b)
unfolding str_eq
str_eq_iff [] [] = ((λ _. refl), (λ _. refl))
str_eq_iff [] (b ∷ bs) = ((λ e. cc), (λ e. cc))
str_eq_iff (a ∷ s) [] = ((λ e. cc), (λ e. cc))
str_eq_iff (a ∷ s) (b ∷ t) =
    ((λ e. ground (arith, (str_eq_iff s t).0)), (λ e. ground (arith, (str_eq_iff s t).1)))

pub str_eq_refl : (a : List ℕ) → str_eq a a ≡ true
str_eq_refl a = (str_eq_iff a a).1 refl

cstr_match-cons : (a : ℕ) (s t : List ℕ) → cstr_match (a ∷ s) t ≡ ok (str_eq (a ∷ s) t)
unfolding cstr_match str_eq
cstr_match-cons a s [] = refl
cstr_match-cons a [] (b ∷ []) = ground arith
cstr_match-cons a [] (b ∷ b' ∷ t) = ground arith
cstr_match-cons a (a' ∷ s) (b ∷ t) = ground (arith, cstr_match-cons a' s t)

-- `cstr_match` is equality, with no fault, if one of the two strings is not empty.
pub cstr_match-str_eq : (a b : List ℕ) → (a ≢ []) ⊎ (b ≢ []) → cstr_match a b ≡ ok (str_eq a b)
unfolding cstr_match str_eq
cstr_match-str_eq (a ∷ s) b h = cstr_match-cons a s b
cstr_match-str_eq [] (b ∷ t) h = refl
cstr_match-str_eq [] [] (inl h) = absurd (h refl)
cstr_match-str_eq [] [] (inr h) = absurd (h refl)

-- Two empty strings are read behind their ends; otherwise `cstr_match` returns, and it answers true
-- exactly when the strings are equal.
pub cstr_match_lem :
    (a b : List ℕ)
    → ((cstr_match a b ≡ failed out_of_bounds) × (a ≡ []) × (b ≡ []))
      ⊎ ((r : Bool) × (cstr_match a b ≡ ok r) × ((r ≡ true) ↔ (a ≡ b)))
unfolding cstr_match str_eq
cstr_match_lem [] [] = inl (refl, refl, refl)
cstr_match_lem [] (b ∷ t) = inr (false, refl, str_eq_iff [] (b ∷ t))
cstr_match_lem (a ∷ s) b = inr (_, cstr_match-cons a s b, str_eq_iff (a ∷ s) b)

-- Whether a string begins with the prefix.
unfoldable pub begins : List ℕ → List ℕ → Bool
begins str [] = true
begins [] (p ∷ prefix) = false
begins (a ∷ str) (p ∷ prefix) = a == p && begins str prefix

begins-append : (prefix rest : List ℕ) → begins (prefix ++ rest) prefix ≡ true
unfolding begins
begins-append [] rest = refl
begins-append (p ∷ prefix) rest = ground (arith, begins-append prefix rest)

begins_rest :
    (str prefix : List ℕ) → begins str prefix ≡ true → (rest : List ℕ) × (str ≡ prefix ++ rest)
unfolding begins
begins_rest str [] h = (str, refl)
begins_rest [] (p ∷ prefix) h = cc
begins_rest (a ∷ str) (p ∷ prefix) h =
    let (rest, e) = begins_rest str prefix (ground arith) in
    let same : a ≡ p = ground arith in (rest, cc)

cstr_start_with-cons :
    (a : ℕ) (str prefix : List ℕ) → cstr_start_with (a ∷ str) prefix ≡ ok (begins (a ∷ str) prefix)
unfolding cstr_start_with begins
cstr_start_with-cons a str [] = refl
cstr_start_with-cons a str (p ∷ []) = ground arith
cstr_start_with-cons a [] (p ∷ p' ∷ prefix) = ground arith
cstr_start_with-cons a (a' ∷ str) (p ∷ p' ∷ prefix) =
    ground (arith, cstr_start_with-cons a' str (p' ∷ prefix))

-- On a string that is not empty `cstr_start_with` returns, and it answers true exactly when the
-- string is the prefix followed by some rest.
pub cstr_start_with_lem :
    (str prefix : List ℕ)
    → str ≢ []
    → (r : Bool) × (cstr_start_with str prefix ≡ ok r)
      × ((r ≡ true) ↔ ((rest : List ℕ) × (str ≡ prefix ++ rest)))
cstr_start_with_lem [] prefix h = absurd (h refl)
cstr_start_with_lem (a ∷ str) prefix h = (
  begins (a ∷ str) prefix,
  cstr_start_with-cons a str prefix,
  (begins_rest (a ∷ str) prefix, λ t. rw t.1 (begins-append prefix t.0)),
)
