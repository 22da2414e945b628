-- ===== src/Symtable/Below.antt =====
-- The levels of the symbols in a table, and what the writes of the program make of them.
use mathlib.Core.Path.{subst}
use mathlib.Core.List.{flatten}
use dp4c.Prelude.{
  ◌++◌, replicate, ℕ, zero, suc, ◌≤◌, ◌<◌, ◌≡◌, inl, inr, arith, List, [], ◌∷◌, get_or, set,
  Bool-cases, some,
}
use dp4c.Basic.Strings.{str_eq}
use dp4c.Chain.{write_back}
use dp4c.Chain.Laws.{first}
use dp4c.Symtable.Entries.{Symbol, SymtableEntry, entry_name}

module _ {V : Type 0} where
  -- The levels of a stack fall strictly from its top, which is below `n`: a name has one symbol of a
  -- kind in a scope.
  unfoldable pub IsBelow : ℕ → List (Symbol V) → Type 0
  IsBelow n [] = Unit {0}
  IsBelow n (s ∷ outer) = (s.scope_level < n) × IsBelow s.scope_level outer

  abbrev pub EntryIsBelow : ℕ → SymtableEntry V → Type 0
  EntryIsBelow n e = IsBelow n e.id_kw × IsBelow n e.id_type × IsBelow n e.id_ident

  unfoldable pub ChainIsBelow : ℕ → List (SymtableEntry V) → Type 0
  ChainIsBelow n [] = Unit {0}
  ChainIsBelow n (e ∷ chain) = EntryIsBelow n e × ChainIsBelow n chain

  unfoldable pub ArrayIsBelow : ℕ → List (List (SymtableEntry V)) → Type 0
  ArrayIsBelow n [] = Unit {0}
  ArrayIsBelow n (chain ∷ array) = ChainIsBelow n chain × ArrayIsBelow n array

  pub get_or-IsBelow :
      (n i : ℕ) (array : List (List (SymtableEntry V)))
      → ArrayIsBelow n array
      → ChainIsBelow n (get_or array i [])
  unfolding ArrayIsBelow ChainIsBelow
  get_or-IsBelow n i [] h = tt
  get_or-IsBelow n zero (chain ∷ array) (h, hs) = h
  get_or-IsBelow n (suc i) (chain ∷ array) (h, hs) = get_or-IsBelow n i array hs

  pub set-IsBelow :
      (n i : ℕ) (c : List (SymtableEntry V)) (array : List (List (SymtableEntry V)))
      → ChainIsBelow n c
      → ArrayIsBelow n array
      → ArrayIsBelow n (set array i c)
  unfolding ArrayIsBelow
  set-IsBelow n i c [] hc h = tt
  set-IsBelow n zero c (chain ∷ array) hc (h, hs) = (hc, hs)
  set-IsBelow n (suc i) c (chain ∷ array) hc (h, hs) = (h, set-IsBelow n i c array hc hs)

  pub first-IsBelow :
      (n : ℕ) (key : List ℕ) (chain : List (SymtableEntry V)) {e : SymtableEntry V}
      → ChainIsBelow n chain
      → first entry_name key chain ≡ some e
      → EntryIsBelow n e
  unfolding first ChainIsBelow
  first-IsBelow n key [] h q = cc
  first-IsBelow n key (x ∷ chain) {e} (h, hs) q = elim (Bool-cases (str_eq x.name key)) [
    | inl r ↦
        let found : some x ≡ some e = rw r at q in
        let same : x ≡ e = cc in subst (EntryIsBelow n) same h
    | inr r ↦ first-IsBelow n key chain hs (rw r at q)
  ]

  pub write_back-IsBelow :
      (n : ℕ) (key : List ℕ) (e : SymtableEntry V) (chain : List (SymtableEntry V))
      → EntryIsBelow n e
      → ChainIsBelow n chain
      → ChainIsBelow n (write_back entry_name key e chain)
  unfolding write_back ChainIsBelow
  write_back-IsBelow n key e [] he h = tt
  write_back-IsBelow n key e (x ∷ chain) he (h, hs) = elim (Bool-cases (str_eq x.name key)) [
    | inl q ↦ rw q (he, hs)
    | inr q ↦ rw q (h, write_back-IsBelow n key e chain he hs)
  ]

  IsBelow-mono : (n m : ℕ) (stack : List (Symbol V)) → n ≤ m → IsBelow n stack → IsBelow m stack
  unfolding IsBelow
  IsBelow-mono n m [] le h = tt
  IsBelow-mono n m (s ∷ outer) le (h, hs) = (omega arith, hs)

  ChainIsBelow-mono :
      (n m : ℕ) (chain : List (SymtableEntry V))
      → n ≤ m
      → ChainIsBelow n chain
      → ChainIsBelow m chain
  unfolding ChainIsBelow
  ChainIsBelow-mono n m [] le h = tt
  ChainIsBelow-mono n m (e ∷ chain) le ((a, b, c), hs) = (
    (
      IsBelow-mono n m e.id_kw le a,
      IsBelow-mono n m e.id_type le b,
      IsBelow-mono n m e.id_ident le c,
    ),
    ChainIsBelow-mono n m chain le hs,
  )

  append-IsBelow :
      (n : ℕ) (a b : List (SymtableEntry V))
      → ChainIsBelow n a
      → ChainIsBelow n b
      → ChainIsBelow n (a ++ b)
  unfolding ChainIsBelow
  append-IsBelow n [] b ha hb = hb
  append-IsBelow n (e ∷ a) b (h, hs) hb = (h, append-IsBelow n a b hs hb)

  pub flatten-IsBelow :
      (n : ℕ) (array : List (List (SymtableEntry V)))
      → ArrayIsBelow n array
      → ChainIsBelow n (flatten array)
  unfolding ArrayIsBelow flatten
  flatten-IsBelow n [] h = unfold ChainIsBelow in tt
  flatten-IsBelow n (chain ∷ array) (h, hs) =
      append-IsBelow n chain (flatten array) h (flatten-IsBelow n array hs)

  pub ArrayIsBelow-mono :
      (n m : ℕ) (array : List (List (SymtableEntry V)))
      → n ≤ m
      → ArrayIsBelow n array
      → ArrayIsBelow m array
  unfolding ArrayIsBelow
  ArrayIsBelow-mono n m [] le h = tt
  ArrayIsBelow-mono n m (chain ∷ array) le (h, hs) =
      (ChainIsBelow-mono n m chain le h, ArrayIsBelow-mono n m array le hs)

module _ (V : Type 0) where
  pub replicate-IsBelow :
      (n k : ℕ) → ArrayIsBelow {V = V} n (replicate {A = List (SymtableEntry V)} k [])
  unfolding ArrayIsBelow
  replicate-IsBelow n zero = tt
  replicate-IsBelow n (suc k) = (unfold ChainIsBelow in tt, replicate-IsBelow n k)
