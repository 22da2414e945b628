-- ===== src/Chain.antt =====
-- The chains of the two hash tables (ast.c, symtable.c): lists of entries that are searched by name
-- with `cstr_match`. An entry that the program changes through a pointer is written back by name.
pub mod Laws
use dp4c.Prelude.{
  ℕ, zero, suc, List, [], ◌∷◌, true, false, Option, none, some, Result, ok, failed, assertion,
  if◌then◌else◌, ◌>>=◌,
}
use dp4c.Basic.{cstr_match}
use dp4c.Basic.Strings.{str_eq}

-- An access to an array, with its assertion.
unfoldable pub at {ℓ} : {A : Type ℓ} → List A → ℕ → Result A
at [] i = failed assertion
at (x ∷ xs) zero = ok x
at (x ∷ xs) (suc i) = at xs i

module _ {E : Type 0} (name : E → List ℕ) where
  -- `while (entry) { if (cstr_match(entry->name, key)) break; entry = entry->next; }`
  unfoldable pub search_chain : List ℕ → List E → Result (Option E)
  search_chain key [] = ok none
  search_chain key (e ∷ es) = do
    same ← cstr_match (name e) key
    elim same [ true ↦ ok (some e) | false ↦ search_chain key es ]

  -- The chain with the first entry of that name replaced.
  unfoldable pub write_back : List ℕ → E → List E → List E
  write_back key new [] = []
  write_back key new (e ∷ es) = if str_eq (name e) key then new ∷ es else e ∷ write_back key new es
