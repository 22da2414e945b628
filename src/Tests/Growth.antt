-- ===== src/Tests/Growth.antt =====
-- The theorems on the growth of the symbol table at a full table.
use dp4c.Prelude.{ℕ, List, [], ◌∷◌, codes, ◌≡◌, refl, arith, ok}
use mathlib.Core.List.{flatten}
use dp4c.Basic.Strings.{str_eq}
use dp4c.Hash.{hash_string}
use dp4c.Chain.Laws.{first}
use dp4c.Symtable.Entries.{Symtable}
use dp4c.Symtable.Table.{pages, grow, get_symtable_entry, new_entry}
use dp4c.Symtable.Below.{ArrayIsBelow}
use dp4c.Symtable.Scopes.{lookup}
use dp4c.Symtable.Laws.{IsSized, entry_or_new}
use dp4c.Symtable.Latest.{IsHome, AreHome}
use dp4c.Symtable.Growth.{IsHomed, grow_lem}
use dp4c.Symtable.Full.{IsTable, Updates, get_symtable_entry-IsTable}

abbrev full_table : Symtable ℕ
full_table = record {
  array =
      (new_entry (codes "x") ∷ new_entry (codes "y") ∷ []) ∷ (new_entry (codes "z") ∷ []) ∷ [] ∷ [];
  capacity_log2 = 2;
  capacity = 3;
  entry_count = 3;
  scope_level = 0;
}

full_table-IsSized : IsSized full_table
full_table-IsSized = record { slots = refl; width = refl; log2 = omega arith }

full_table-IsHomed : IsHomed full_table
unfolding IsHome AreHome hash_string first str_eq flatten
full_table-IsHomed = record {
  home = ((refl, refl, (refl, refl, tt)), ((refl, refl, tt), (tt, tt)));
  count = refl;
}

full_table-IsTable : IsTable full_table
full_table-IsTable = record {
  sized = full_table-IsSized;
  homed = full_table-IsHomed;
  bounded = omega arith;
}

grow_example :
    (new : Symtable ℕ) × (grow 4096 full_table ≡ ok new)
    × IsSized new
    × IsHomed new
    × (new.capacity ≡ 7)
    × (new.entry_count ≡ 3)
    × (new.scope_level ≡ 0)
    × ((name : List ℕ) → lookup new name ≡ lookup full_table name)
    × ((m : ℕ) → ArrayIsBelow m full_table.array → ArrayIsBelow m new.array)
unfolding pages
grow_example = grow_lem 4096 full_table full_table-IsSized full_table-IsHomed refl (omega arith)

get_symtable_entry-IsTable_example :
    (new : Symtable ℕ) × (get_symtable_entry 4096 (codes "w") full_table
      ≡ ok (entry_or_new (codes "w") (lookup full_table (codes "w")), new))
    × Updates full_table (codes "w") (entry_or_new (codes "w") (lookup full_table (codes "w"))) new
unfolding pages
get_symtable_entry-IsTable_example =
    get_symtable_entry-IsTable 4096 (codes "w") full_table full_table-IsTable (λ e. cc)
      (omega arith)
