-- ===== src/Symtable/Laws.antt =====
-- The symbol table as a map from names to entries: its slots, and a write to one.
use dp4c.Prelude.{
  ℕ, ◌-◌, ◌^◌, ◌≤◌, ◌<◌, ◌≡◌, inl, inr, sym, ap, ◌∙◌, arith, List, [], length, get_or, set, false,
  Bool-cases, Option, none, some, if◌then◌else◌, ◌==◌, ==_iff,
}
use dp4c.Basic.Strings.{str_eq, str_eq_iff}
use dp4c.Hash.{hash_string}
use dp4c.Hash.Bounds.{hash_string-lt}
use dp4c.Chain.Laws.{get_or-set, first}
use dp4c.Symtable.Entries.{SymtableEntry, Symtable, entry_name}
use dp4c.Symtable.Table.{new_entry}
use dp4c.Symtable.Scopes.{lookup}

module _ {V : Type 0} where
  abbrev pub home : Symtable V → List ℕ → ℕ
  home t name = hash_string name t.capacity_log2

  -- A slot for every hash.
  pub record IsSized (t : Symtable V) : Type 0 where
    pub slots : length t.array ≡ t.capacity
    pub width : t.capacity ≡ 2 ^ t.capacity_log2 - 1
    pub log2 : 1 ≤ t.capacity_log2

  pub home-lt : (t : Symtable V) (name : List ℕ) → IsSized t → home t name < length t.array
  home-lt t name s = omega (arith, hash_string-lt name t.capacity_log2 s.log2, s.slots, s.width)

  homes_apart : (t : Symtable V) (a b : List ℕ) → home t a == home t b ≡ false → str_eq a b ≡ false
  homes_apart t a b e = elim (Bool-cases (str_eq a b)) [
    | inr h ↦ h
    | inl h ↦
        let same : home t a ≡ home t b = ap (home t) ((str_eq_iff a b).0 h) in
        cc ((==_iff (home t a) (home t b)).1 same)
  ]

  -- A chain put in the home slot of a name that reads as the old one but for that name.
  pub lookup-set :
      (t : Symtable V) (name : List ℕ) (new : Option (SymtableEntry V)) (c : List (SymtableEntry V))
      (k : ℕ)
      → IsSized t
      → ((other : List ℕ)
          → first entry_name other c ≡ (
              if str_eq name other
              then new
              else first entry_name other (get_or t.array (home t name) [])))
      → (other : List ℕ)
      → lookup (record t { array = set t.array (home t name) c; entry_count = k }) other
        ≡ (if str_eq name other then new else lookup t other)
  unfolding lookup
  lookup-set t name new c k s h other =
      rw (get_or-set t.array (home t name) (home t other) c [] (home-lt t name s))
        (elim (Bool-cases (home t name == home t other)) [
          | inl e ↦
              let same = (==_iff (home t name) (home t other)).0 e in
              rw e (
                h other
                ∙ ap
                    (λ (i : ℕ).
                      if str_eq name other
                      then new
                      else first entry_name other (get_or t.array i []))
                    same)
          | inr e ↦
              let apart : str_eq name other ≡ false = homes_apart t name other e in rw (e, apart)
        ])

  -- The entry that a name has, or gets.
  abbrev pub entry_or_new : List ℕ → Option (SymtableEntry V) → SymtableEntry V
  entry_or_new name none = new_entry name
  entry_or_new name (some e) = e

  pub lookup-same :
      (t : Symtable V) (name other : List ℕ) {e : SymtableEntry V}
      → lookup t name ≡ some e
      → lookup t other ≡ (if str_eq name other then some e else lookup t other)
  lookup-same t name other h = elim (Bool-cases (str_eq name other)) [
    | inr q ↦ rw q
    | inl q ↦
        let same : lookup t name ≡ lookup t other = ap (lookup t) ((str_eq_iff name other).0 q) in
        rw q (sym same ∙ h)
  ]
