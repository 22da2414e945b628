-- ===== src/Symtable/Rehash.antt =====
-- The entries that the growth puts into the new slots: each name once, each at home.
use mathlib.Core.Path.{subst}
use mathlib.Core.List.{flatten}
use dp4c.Prelude.{
  ℕ, zero, suc, ◌+◌, ◌<◌, ◌≡◌, ◌≢◌, ◌⊎◌, inl, inr, refl, sym, ap, ◌∙◌, arith, List, [], ◌∷◌, ◌++◌,
  length, length-set, get_or, set, replicate, false, Bool-cases, none, some, ok, ◌>>=◌,
}
use dp4c.Basic.Strings.{str_eq, str_eq_iff, str_eq_refl}
use dp4c.Hash.{hash_string}
use dp4c.Chain.Laws.{at-get_or, first}
use dp4c.Symtable.Entries.{SymtableEntry, Symtable, entry_name}
use dp4c.Symtable.Table.{rehash}
use dp4c.Symtable.Scopes.{lookup}
use dp4c.Symtable.Laws.{IsSized, home, home-lt, lookup-set}
use dp4c.Symtable.Latest.{IsHome, AreHome, names_apart}
use dp4c.Symtable.Homed.{get_or-IsHome, set-AreHome, length-flatten-set}

module _ (V : Type 0) where
  pub replicate-AreHome :
      (log2 i n : ℕ) → AreHome {V = V} log2 i (replicate {A = List (SymtableEntry V)} n [])
  unfolding AreHome
  replicate-AreHome log2 i zero = tt
  replicate-AreHome log2 i (suc n) = (unfold IsHome in tt, replicate-AreHome log2 (suc i) n)

  pub length-flatten-replicate :
      (n : ℕ) → length (flatten (replicate {A = List (SymtableEntry V)} n [])) ≡ 0
  unfolding flatten
  length-flatten-replicate zero = refl
  length-flatten-replicate (suc n) = length-flatten-replicate n

module _ {V : Type 0} where
  -- The entries have different names.
  unfoldable pub IsUnique : List (SymtableEntry V) → Type 0
  IsUnique [] = Unit {0}
  IsUnique (e ∷ entries) = (first entry_name e.name entries ≡ none) × IsUnique entries

  first-append :
      (name : List ℕ) (a b : List (SymtableEntry V))
      → first entry_name name a ≡ none
      → first entry_name name b ≡ none
      → first entry_name name (a ++ b) ≡ none
  unfolding first
  first-append name [] b h k = k
  first-append name (e ∷ a) b h k = elim (Bool-cases (str_eq e.name name)) [
    | inl q ↦ cc (rw q at h)
    | inr q ↦ rw q (first-append name a b (rw q at h) k)
  ]

  first-away :
      (log2 i : ℕ) (name : List ℕ) (chain : List (SymtableEntry V))
      → IsHome log2 i chain
      → hash_string name log2 ≢ i
      → first entry_name name chain ≡ none
  unfolding first IsHome
  first-away log2 i name [] h n = refl
  first-away log2 i name (e ∷ chain) (h, u, hs) n =
      let q : str_eq e.name name ≡ false =
        names_apart log2 e.name name (λ same. n (sym same ∙ h)) in
      rw q (first-away log2 i name chain hs n)

  first-flatten_away :
      (log2 i : ℕ) (name : List ℕ) (array : List (List (SymtableEntry V)))
      → AreHome log2 i array
      → hash_string name log2 < i
      → first entry_name name (flatten array) ≡ none
  unfolding AreHome flatten
  first-flatten_away log2 i name [] h lt = unfold first in refl
  first-flatten_away log2 i name (chain ∷ array) (h, hs) lt =
      first-append name chain (flatten array) (first-away log2 i name chain h (λ e. omega arith))
        (first-flatten_away log2 (suc i) name array hs (omega arith))

  append-IsUnique :
      (log2 i : ℕ) (chain rest : List (SymtableEntry V))
      → IsHome log2 i chain
      → ((name : List ℕ) → hash_string name log2 ≡ i → first entry_name name rest ≡ none)
      → IsUnique rest
      → IsUnique (chain ++ rest)
  unfolding IsHome IsUnique
  append-IsUnique log2 i [] rest h away u = u
  append-IsUnique log2 i (e ∷ chain) rest (h, d, hs) away u = (
    first-append e.name chain rest d (away e.name h),
    append-IsUnique log2 i chain rest hs away u,
  )

  pub flatten-IsUnique :
      (log2 i : ℕ) (array : List (List (SymtableEntry V)))
      → AreHome log2 i array
      → IsUnique (flatten array)
  unfolding AreHome flatten
  flatten-IsUnique log2 i [] h = unfold IsUnique in tt
  flatten-IsUnique log2 i (chain ∷ array) (h, hs) =
      append-IsUnique log2 i chain (flatten array) h
        (λ name e. first-flatten_away log2 (suc i) name array hs (omega arith))
        (flatten-IsUnique log2 (suc i) array hs)

  -- No name of the entries is in the table.
  abbrev pub AreNew : List (SymtableEntry V) → Symtable V → Type 0
  AreNew entries t =
      (name : List ℕ) → (first entry_name name entries ≡ none) ⊎ (lookup t name ≡ none)

  step :
      (t : Symtable V) (e : SymtableEntry V) (entries : List (SymtableEntry V))
      → IsSized t
      → first entry_name e.name entries ≡ none
      → AreNew (e ∷ entries) t
      → (lookup t e.name ≡ none)
        × AreNew entries (record t {
          array = set t.array (home t e.name) (e ∷ get_or t.array (home t e.name) []);
        })
  unfolding first
  step t e entries s d new =
      let gone : lookup t e.name ≡ none = elim (new e.name) [
        | inl q ↦ cc (rw (str_eq_refl e.name) at q)
        | inr q ↦ q
      ] in
      (
        gone,
        λ name. elim (Bool-cases (str_eq e.name name)) [
          | inl q ↦
              inl
                (ap (λ key. first entry_name key entries) (sym ((str_eq_iff e.name name).0 q)) ∙ d)
          | inr q ↦ elim (new name) [
            | inl r ↦ inl (rw q at r)
            | inr r ↦
                let c = get_or t.array (home t e.name) [] in
                inr (
                  lookup-set t e.name (some e) (e ∷ c) t.entry_count s (λ other. refl) name
                  ∙ rw q r)
          ]
        ],
      )

  pub rehash-AreHome :
      (t : Symtable V) (entries : List (SymtableEntry V)) (array : List (List (SymtableEntry V)))
      → IsSized t
      → AreHome t.capacity_log2 0 t.array
      → IsUnique entries
      → AreNew entries t
      → rehash t.capacity_log2 entries t.array ≡ ok array
      → AreHome t.capacity_log2 0 array
        × (length (flatten array) ≡ length (flatten t.array) + length entries)
  unfolding rehash IsUnique
  rehash-AreHome t [] array s h u new run =
      let same : t.array ≡ array = cc in
      (
        subst (AreHome t.capacity_log2 0) same h,
        ap (λ a. length (flatten a)) (sym same) ∙ omega arith,
      )
  rehash-AreHome t (e ∷ entries) array s h (d, u) new run =
      let c = get_or t.array (home t e.name) [] in
      let room = home-lt t e.name s in
      let look = at-get_or t.array (home t e.name) [] room in
      let t' = record t { array = set t.array (home t e.name) (e ∷ c) } in
      let s' : IsSized t' = record {
        slots = length-set t.array (home t e.name) (e ∷ c) ∙ s.slots;
        width = s.width;
        log2 = s.log2;
      } in
      let (gone, new') = step t e entries s d new in
      let home_c = get_or-IsHome t.capacity_log2 0 (home t e.name) t.array h in
      let home' =
        set-AreHome t.capacity_log2 0 (home t e.name) (e ∷ c) t.array h
          (unfold IsHome in (omega arith, (unfold lookup in gone), home_c)) in
      let (done, count) =
        rehash-AreHome t' entries array s' home' u new' (rw (look, ◌>>=◌) at run) in
      (done, omega (arith, count, length-flatten-set t.array (home t e.name) (e ∷ c) room))
