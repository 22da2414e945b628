-- ===== src/Symtable/Latest.antt =====
-- The entries of a table in a row: the last one of a name is the one in its slot.
use mathlib.Core.List.{flatten}
use native.Mathlib.Decide.{dec_lt}
use dp4c.Prelude.{
  ℕ, suc, ◌-◌, ◌≤◌, ◌<◌, ◌≡◌, ◌≢◌, inl, inr, refl, sym, ap, ◌∙◌, arith, List, [], ◌∷◌, ◌++◌, get_or,
  false, Bool-cases, Option, none, some, if◌then◌else◌,
}
use dp4c.Basic.Strings.{str_eq, str_eq_iff}
use dp4c.Hash.{hash_string}
use dp4c.Chain.Laws.{first}
use dp4c.Symtable.Entries.{SymtableEntry, entry_name}

pub names_apart :
    (log2 : ℕ) (a b : List ℕ) → hash_string a log2 ≢ hash_string b log2 → str_eq a b ≡ false
names_apart log2 a b n = elim (Bool-cases (str_eq a b)) [
  | inr q ↦ q
  | inl q ↦ absurd (n (ap (λ s. hash_string s log2) ((str_eq_iff a b).0 q)))
]

module _ {V : Type 0} where
  -- The last entry with a name, or else `d`.
  unfoldable pub latest :
      List ℕ → List (SymtableEntry V) → Option (SymtableEntry V) → Option (SymtableEntry V)
  latest name [] d = d
  latest name (e ∷ es) d = latest name es (if str_eq e.name name then some e else d)

  latest-append :
      (name : List ℕ) (es fs : List (SymtableEntry V)) (d : Option (SymtableEntry V))
      → latest name (es ++ fs) d ≡ latest name fs (latest name es d)
  unfolding latest
  latest-append name [] fs d = refl
  latest-append name (e ∷ es) fs d =
      latest-append name es fs (if str_eq e.name name then some e else d)

  -- The entries of a chain are at home in the slot `i`, and have different names.
  unfoldable pub IsHome : ℕ → ℕ → List (SymtableEntry V) → Type 0
  IsHome log2 i [] = Unit {0}
  IsHome log2 i (e ∷ chain) =
      (hash_string e.name log2 ≡ i) × (first entry_name e.name chain ≡ none) × IsHome log2 i chain

  -- The chains of an array whose first slot is `i`.
  unfoldable pub AreHome : ℕ → ℕ → List (List (SymtableEntry V)) → Type 0
  AreHome log2 i [] = Unit {0}
  AreHome log2 i (chain ∷ array) = IsHome log2 i chain × AreHome log2 (suc i) array

  abbrev or_else : Option (SymtableEntry V) → Option (SymtableEntry V) → Option (SymtableEntry V)
  or_else none d = d
  or_else (some e) d = some e

  latest-away :
      (log2 i : ℕ) (name : List ℕ) (chain : List (SymtableEntry V)) (d : Option (SymtableEntry V))
      → IsHome log2 i chain
      → hash_string name log2 ≢ i
      → latest name chain d ≡ d
  unfolding latest IsHome
  latest-away log2 i name [] d h n = refl
  latest-away log2 i name (e ∷ chain) d (h, u, hs) n =
      let q : str_eq e.name name ≡ false =
        names_apart log2 e.name name (λ same. n (sym same ∙ h)) in
      rw q (latest-away log2 i name chain d hs n)

  latest-none :
      (name : List ℕ) (chain : List (SymtableEntry V)) (d : Option (SymtableEntry V))
      → first entry_name name chain ≡ none
      → latest name chain d ≡ d
  unfolding latest first
  latest-none name [] d h = refl
  latest-none name (e ∷ chain) d h = elim (Bool-cases (str_eq e.name name)) [
    | inl q ↦ cc (rw q at h)
    | inr q ↦ rw q (latest-none name chain d (rw q at h))
  ]

  latest-home :
      (log2 i : ℕ) (name : List ℕ) (chain : List (SymtableEntry V)) (d : Option (SymtableEntry V))
      → IsHome log2 i chain
      → latest name chain d ≡ or_else (first entry_name name chain) d
  unfolding latest first IsHome
  latest-home log2 i name [] d h = refl
  latest-home log2 i name (e ∷ chain) d (h, u, hs) = elim (Bool-cases (str_eq e.name name)) [
    | inl q ↦
        let same : e.name ≡ name = (str_eq_iff e.name name).0 q in
        let gone : first entry_name name chain ≡ none =
          ap (λ key. first entry_name key chain) (sym same) ∙ u in
        rw q (latest-none name chain (some e) gone)
    | inr q ↦ rw q (latest-home log2 i name chain d hs)
  ]

  flatten-away :
      (log2 i : ℕ) (name : List ℕ) (array : List (List (SymtableEntry V)))
      (d : Option (SymtableEntry V))
      → AreHome log2 i array
      → hash_string name log2 < i
      → latest name (flatten array) d ≡ d
  unfolding latest AreHome flatten
  flatten-away log2 i name [] d h lt = refl
  flatten-away log2 i name (chain ∷ array) d (h, hs) lt =
      latest-append name chain (flatten array) d
      ∙ ap (latest name (flatten array)) (latest-away log2 i name chain d h (λ e. omega arith))
      ∙ flatten-away log2 (suc i) name array d hs (omega arith)

  or_else-none : (o : Option (SymtableEntry V)) → or_else o none ≡ o
  or_else-none none = refl
  or_else-none (some e) = refl

  -- The slot of a name has its entry.
  pub flatten-latest :
      (log2 i : ℕ) (name : List ℕ) (array : List (List (SymtableEntry V)))
      → AreHome log2 i array
      → i ≤ hash_string name log2
      → latest name (flatten array) none
        ≡ first entry_name name (get_or array (hash_string name log2 - i) [])
  unfolding latest AreHome flatten first
  flatten-latest log2 i name [] h le = refl
  flatten-latest log2 i name (chain ∷ array) (h, hs) le =
      latest-append name chain (flatten array) none ∙ elim (dec_lt i (hash_string name log2)) [
        | no eq ↦
            let here : hash_string name log2 - i ≡ 0 = omega arith in
            rw here (
              flatten-away log2 (suc i) name array (latest name chain none) hs (omega arith)
              ∙ latest-home log2 i name chain none h
              ∙ or_else-none (first entry_name name chain))
        | yes lt ↦
            let behind : hash_string name log2 - i ≡ suc (hash_string name log2 - suc i) =
              omega arith in
            rw behind (
              ap (latest name (flatten array))
                (latest-away log2 i name chain none h (λ e. omega arith))
              ∙ flatten-latest log2 (suc i) name array hs (omega arith))
      ]
