-- ===== src/Symtable/Homed.antt =====
-- The home slots of the entries, under the writes of the program.
use native.Mathlib.Nat.{add-zero}
use mathlib.Core.Path.{subst}
use mathlib.Core.List.{flatten}
use dp4c.Prelude.{
  ℕ, zero, suc, ◌+◌, ◌<◌, ◌≡◌, inl, inr, refl, sym, ap, ◌∙◌, arith, List, [], ◌∷◌, length,
  length-append, get_or, set, map, false, Bool-cases, none,
}
use dp4c.Basic.Strings.{str_eq, str_eq_iff}
use dp4c.Hash.{hash_string}
use dp4c.Chain.{write_back}
use dp4c.Chain.Laws.{first}
use dp4c.Symtable.Entries.{SymtableEntry, entry_name}
use dp4c.Symtable.Latest.{IsHome, AreHome}

module _ {V : Type 0} where
  pub get_or-IsHome :
      (log2 i j : ℕ) (array : List (List (SymtableEntry V)))
      → AreHome log2 i array
      → IsHome log2 (i + j) (get_or array j [])
  unfolding AreHome
  get_or-IsHome log2 i j [] h = unfold IsHome in tt
  get_or-IsHome log2 i zero (chain ∷ array) (h, hs) = rw (add-zero i) h
  get_or-IsHome log2 i (suc j) (chain ∷ array) (h, hs) =
      subst (λ (k : ℕ). IsHome log2 k (get_or array j [])) (omega arith)
        (get_or-IsHome log2 (suc i) j array hs)

  pub set-AreHome :
      (log2 i j : ℕ) (c : List (SymtableEntry V)) (array : List (List (SymtableEntry V)))
      → AreHome log2 i array
      → IsHome log2 (i + j) c
      → AreHome log2 i (set array j c)
  unfolding AreHome
  set-AreHome log2 i j c [] h hc = tt
  set-AreHome log2 i zero c (chain ∷ array) (h, hs) hc =
      (subst (λ (k : ℕ). IsHome log2 k c) (omega arith) hc, hs)
  set-AreHome log2 i (suc j) c (chain ∷ array) (h, hs) hc = (
    h,
    set-AreHome log2 (suc i) j c array hs (subst (λ (k : ℕ). IsHome log2 k c) (omega arith) hc),
  )

  pub length-flatten-set :
      (array : List (List (SymtableEntry V))) (j : ℕ) (c : List (SymtableEntry V))
      → j < length array
      → length (flatten (set array j c)) + length (get_or array j [])
        ≡ length (flatten array) + length c
  unfolding flatten
  length-flatten-set [] j c h = absurd (omega arith)
  length-flatten-set (chain ∷ array) zero c h =
      omega (arith, length-append chain (flatten array), length-append c (flatten array))
  length-flatten-set (chain ∷ array) (suc j) c h = omega (
    arith,
    length-append chain (flatten array),
    length-append chain (flatten (set array j c)),
    length-flatten-set array j c (omega arith),
  )

  first-none-write_back :
      (key other : List ℕ) (e : SymtableEntry V) (chain : List (SymtableEntry V))
      → e.name ≡ key
      → first entry_name other chain ≡ none
      → first entry_name other (write_back entry_name key e chain) ≡ none
  unfolding first write_back
  first-none-write_back key other e [] n h = refl
  first-none-write_back key other e (x ∷ chain) n h = elim (Bool-cases (str_eq x.name other)) [
    | inl q ↦ cc (rw q at h)
    | inr q ↦ elim (Bool-cases (str_eq x.name key)) [
      | inl r ↦
          let same : e.name ≡ x.name = n ∙ sym ((str_eq_iff x.name key).0 r) in
          let apart : str_eq e.name other ≡ false = ap (λ name. str_eq name other) same ∙ q in
          rw (r, apart) (rw q at h)
      | inr r ↦ rw (r, q) (first-none-write_back key other e chain n (rw q at h))
    ]
  ]

  pub write_back-IsHome :
      (log2 i : ℕ) (key : List ℕ) (e : SymtableEntry V) (chain : List (SymtableEntry V))
      → e.name ≡ key
      → IsHome log2 i chain
      → IsHome log2 i (write_back entry_name key e chain)
  unfolding write_back IsHome
  write_back-IsHome log2 i key e [] n h = tt
  write_back-IsHome log2 i key e (x ∷ chain) n (h, u, hs) = elim (Bool-cases (str_eq x.name key)) [
    | inl r ↦
        let same : x.name ≡ e.name = (str_eq_iff x.name key).0 r ∙ sym n in
        rw r (
          ap (λ name. hash_string name log2) (sym same) ∙ h,
          ap (λ name. first entry_name name chain) (sym same) ∙ u,
          hs,
        )
    | inr r ↦
        rw r (
          h,
          first-none-write_back key x.name e chain n u,
          write_back-IsHome log2 i key e chain n hs,
        )
  ]

  pub length-write_back :
      (key : List ℕ) (e : SymtableEntry V) (chain : List (SymtableEntry V))
      → length (write_back entry_name key e chain) ≡ length chain
  unfolding write_back
  length-write_back key e [] = refl
  length-write_back key e (x ∷ chain) = elim (Bool-cases (str_eq x.name key)) [
    | inl r ↦ rw r
    | inr r ↦ rw r (ap suc (length-write_back key e chain))
  ]

  -- An array of a change that keeps the names.
  module _ (f : SymtableEntry V → SymtableEntry V)
      (keeps : (e : SymtableEntry V) → (f e).name ≡ e.name) where
    first-none-map :
        (name : List ℕ) (chain : List (SymtableEntry V))
        → first entry_name name chain ≡ none
        → first entry_name name (map f chain) ≡ none
    unfolding first
    first-none-map name [] h = refl
    first-none-map name (x ∷ chain) h = elim (Bool-cases (str_eq x.name name)) [
      | inl q ↦ cc (rw q at h)
      | inr q ↦
          let apart : str_eq (f x).name name ≡ false = ap (λ n. str_eq n name) (keeps x) ∙ q in
          rw apart (first-none-map name chain (rw q at h))
    ]

    map-IsHome :
        (log2 i : ℕ) (chain : List (SymtableEntry V))
        → IsHome log2 i chain
        → IsHome log2 i (map f chain)
    unfolding IsHome
    map-IsHome log2 i [] h = tt
    map-IsHome log2 i (x ∷ chain) (h, u, hs) = (
      ap (λ n. hash_string n log2) (keeps x) ∙ h,
      ap (λ n. first entry_name n (map f chain)) (keeps x) ∙ first-none-map x.name chain u,
      map-IsHome log2 i chain hs,
    )

    pub map-AreHome :
        (log2 i : ℕ) (array : List (List (SymtableEntry V)))
        → AreHome log2 i array
        → AreHome log2 i (map (map f) array)
    unfolding AreHome
    map-AreHome log2 i [] h = tt
    map-AreHome log2 i (chain ∷ array) (h, hs) =
        (map-IsHome log2 i chain h, map-AreHome log2 (suc i) array hs)
