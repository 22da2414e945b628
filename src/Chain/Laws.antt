-- ===== src/Chain/Laws.antt =====
-- What a search of a chain finds.
use dp4c.Prelude.{
  ℕ, zero, suc, ◌<◌, ◌≡◌, ◌≢◌, inl, inr, refl, ap, ◌∙◌, arith, List, [], ◌∷◌, length, get_or, set,
  true, false, Bool-cases, Option, none, some, if◌then◌else◌, ◌==◌, ok, ◌>>=◌,
}
use dp4c.Basic.Strings.{str_eq, str_eq_iff, cstr_match-str_eq}
use dp4c.Chain.{at, search_chain, write_back}

module _ {ℓ} {A : Type ℓ} where
  pub at-get_or : (xs : List A) (i : ℕ) (d : A) → i < length xs → at xs i ≡ ok (get_or xs i d)
  unfolding at
  at-get_or [] i d h = elim h [ ]
  at-get_or (x ∷ xs) zero d h = refl
  at-get_or (x ∷ xs) (suc i) d h = at-get_or xs i d (omega arith)

  pub get_or-set :
      (xs : List A) (i j : ℕ) (v d : A)
      → i < length xs
      → get_or (set xs i v) j d ≡ (if i == j then v else get_or xs j d)
  get_or-set [] i j v d h = elim h [ ]
  get_or-set (x ∷ xs) zero zero v d h = refl
  get_or-set (x ∷ xs) zero (suc j) v d h = ground arith
  get_or-set (x ∷ xs) (suc i) zero v d h = ground arith
  get_or-set (x ∷ xs) (suc i) (suc j) v d h = get_or-set xs i j v d (omega arith) ∙ ground arith

-- Equality of strings is an equivalence.
pub str_eq_symm : (a b : List ℕ) → str_eq a b ≡ str_eq b a
str_eq_symm a b = ground (arith, str_eq_iff a b, str_eq_iff b a)

pub str_eq_congr : (a b c : List ℕ) → str_eq a b ≡ true → str_eq a c ≡ str_eq b c
str_eq_congr a b c e = ap (λ s. str_eq s c) ((str_eq_iff a b).0 e)

module _ {E : Type 0} (name : E → List ℕ) where
  -- The first entry with a name.
  unfoldable pub first : List ℕ → List E → Option E
  first key [] = none
  first key (e ∷ es) = if str_eq (name e) key then some e else first key es

  pub search_chain-first :
      (key : List ℕ) (es : List E) → key ≢ [] → search_chain name key es ≡ ok (first key es)
  unfolding search_chain first
  search_chain-first key [] h = refl
  search_chain-first key (e ∷ es) h =
      rw (cstr_match-str_eq (name e) key (inr h), ◌>>=◌)
        (elim (Bool-cases (str_eq (name e) key)) [
          | inl q ↦ rw q
          | inr q ↦ rw q (search_chain-first key es h)
        ])

  pub first-name : (key : List ℕ) (es : List E) {e : E} → first key es ≡ some e → name e ≡ key
  unfolding first
  first-name key [] h = cc
  first-name key (x ∷ es) h = elim (Bool-cases (str_eq (name x) key)) [
    | inl q ↦ let same = (str_eq_iff (name x) key).0 q in cc (rw q at h)
    | inr q ↦ first-name key es (rw q at h)
  ]

  -- A write under one name is seen under that name, and under no other.
  pub first-write_back :
      (key other : List ℕ) (new : E) (es : List E) {old : E}
      → name new ≡ key
      → first key es ≡ some old
      → first other (write_back name key new es)
        ≡ (if str_eq key other then some new else first other es)
  unfolding first write_back
  first-write_back key other new [] n h = cc
  first-write_back key other new (x ∷ es) n h = elim (Bool-cases (str_eq (name x) key)) [
    | inl q ↦ let same = str_eq_congr (name x) key other q in rw (q, n) (ground (arith, same))
    | inr q ↦
        let ih = first-write_back key other new es n (rw q at h) in
        rw q (elim (Bool-cases (str_eq (name x) other)) [
          | inr r ↦ rw r ih
          | inl r ↦
              let apart : str_eq key other ≡ false =
                ground (
                  arith,
                  str_eq_iff (name x) other,
                  str_eq_iff key other,
                  str_eq_iff (name x) key,
                ) in
              rw (r, apart)
        ])
  ]
