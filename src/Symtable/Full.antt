-- ===== src/Symtable/Full.antt =====
-- `get_symtable_entry` in any table, a full one too.
use dp4c.Prelude.{
  ℕ, ◌+◌, ◌*◌, false, ◌≤◌, ◌<◌, ◌≡◌, ◌≢◌, inl, inr, refl, ◌∙◌, arith, List, [], ◌∷◌, get_or, set,
  length-set, true, Bool-cases, none, some, Option-cases, if◌then◌else◌, leb, ok, ◌>>=◌,
}
use dp4c.Basic.Strings.{str_eq}
use dp4c.Chain.Laws.{at-get_or, first, first-write_back, search_chain-first}
use dp4c.Symtable.Entries.{Symtable, SymtableEntry, entry_name}
use dp4c.Symtable.Table.{pages, grow, insert_entry, get_symtable_entry, new_entry}
use dp4c.Chain.{write_back}
use dp4c.Symtable.Declare.{update_entry}
use dp4c.Symtable.Below.{
  IsBelow, EntryIsBelow, ChainIsBelow, ArrayIsBelow, set-IsBelow, get_or-IsBelow,
  write_back-IsBelow,
}
use dp4c.Symtable.Scopes.{lookup}
use dp4c.Symtable.Laws.{IsSized, home, home-lt, lookup-set, lookup-same, entry_or_new}
use dp4c.Symtable.Latest.{IsHome}
use dp4c.Symtable.Homed.{
  get_or-IsHome, set-AreHome, length-flatten-set, write_back-IsHome, length-write_back,
}
use dp4c.Symtable.Growth.{IsHomed, grow_lem}

module _ {V : Type 0} where
  insert_entry_lem :
      (t : Symtable V) (name : List ℕ)
      → IsSized t
      → IsHomed t
      → lookup t name ≡ none
      → (new : Symtable V) × (insert_entry name t ≡ ok (new_entry name, new))
        × IsSized new
        × IsHomed new
        × (new.entry_count ≡ t.entry_count + 1)
        × (new.capacity ≡ t.capacity)
        × (new.scope_level ≡ t.scope_level)
        × ((m : ℕ) → ArrayIsBelow m t.array → ArrayIsBelow m new.array)
        × ((other : List ℕ)
            → lookup new other
              ≡ (if str_eq name other then some (new_entry name) else lookup t other))
  unfolding insert_entry
  insert_entry_lem t name s h gone =
      let c = get_or t.array (home t name) [] in
      let look = at-get_or t.array (home t name) [] (home-lt t name s) in
      (
        record t {
          array = set t.array (home t name) (new_entry name ∷ c);
          entry_count = t.entry_count + 1;
        },
        rw look,
        record {
          slots = length-set t.array (home t name) (new_entry name ∷ c) ∙ s.slots;
          width = s.width;
          log2 = s.log2;
        },
        record {
          home = set-AreHome t.capacity_log2 0 (home t name) (new_entry name ∷ c) t.array h.home (
              unfold IsHome in
              (
                omega arith,
                (unfold lookup in gone),
                get_or-IsHome t.capacity_log2 0 (home t name) t.array h.home,
              ));
          count = omega (
            arith,
            length-flatten-set t.array (home t name) (new_entry name ∷ c) (home-lt t name s),
            h.count,
          );
        },
        refl,
        refl,
        refl,
        (λ m high.
            set-IsBelow m (home t name) (new_entry name ∷ c) t.array
              (unfold ChainIsBelow in
                (unfold IsBelow in (tt, tt, tt), get_or-IsBelow m (home t name) t.array high))
              high),
        lookup-set t name (some (new_entry name)) (new_entry name ∷ c) (t.entry_count + 1) s
            (λ other. unfold first in refl),
      )

  -- The invariant of the table as a map.
  pub record IsTable (t : Symtable V) : Type 0 where
    pub sized : IsSized t
    pub homed : IsHomed t
    pub bounded : t.entry_count ≤ t.capacity

  -- A table that reads as the old one but for one name, and has no higher symbols than it and the new
  -- entry.
  pub record Updates (t : Symtable V) (name : List ℕ) (e : SymtableEntry V) (new : Symtable V)
      : Type 0 where
    pub table : IsTable new
    pub level : new.scope_level ≡ t.scope_level
    pub reads :
        (other : List ℕ) → lookup new other ≡ (if str_eq name other then some e else lookup t other)
    pub below : (n : ℕ) → ArrayIsBelow n t.array → EntryIsBelow n e → ArrayIsBelow n new.array

  -- There is room for a new name, or the table grows: its entries are the old ones.
  make_room :
      (page_size : ℕ) (t : Symtable V)
      → IsTable t
      → 8 * t.capacity ≤ pages page_size t.capacity
      → (t' : Symtable V) × (elim (leb t.capacity t.entry_count) [
        | true ↦ grow page_size t
        | false ↦ ok t
      ]
          ≡ ok t')
        × IsSized t'
        × IsHomed t'
        × (t'.entry_count < t'.capacity)
        × (t'.scope_level ≡ t.scope_level)
        × ((name : List ℕ) → lookup t' name ≡ lookup t name)
        × ((m : ℕ) → ArrayIsBelow m t.array → ArrayIsBelow m t'.array)
  make_room page_size t h room =
      let s = h.sized in
      elim (Bool-cases (leb t.capacity t.entry_count)) [
        | inr q ↦ (
          t,
          rw q refl,
          s,
          h.homed,
          ground (arith, h.bounded),
          refl,
          (λ name. refl),
          λ m high. high,
        )
        | inl q ↦
            let full : t.entry_count ≡ t.capacity = ground (arith, h.bounded) in
            let (t', run, sized, homed, larger, count, level, same, below) =
              grow_lem page_size t s h.homed full room in
            (t', rw q run, sized, homed, omega (arith, home-lt t [] s, s.slots), level, same, below)
      ]

  -- In a table with its invariant, whose pointers fit into the pages of the temporary array of a
  -- growth, `get_symtable_entry` of a name that is not empty returns the entry of the name, which is a
  -- new one without symbols if there was none, and a table with the invariant that reads as before but
  -- for that entry, in the same scope. This holds of a full table too.
  pub get_symtable_entry-IsTable :
      (page_size : ℕ) (name : List ℕ) (t : Symtable V)
      → IsTable t
      → name ≢ []
      → 8 * t.capacity ≤ pages page_size t.capacity
      → (new : Symtable V) × (get_symtable_entry page_size name t
          ≡ ok (entry_or_new name (lookup t name), new))
        × Updates t name (entry_or_new name (lookup t name)) new
  unfolding get_symtable_entry
  get_symtable_entry-IsTable page_size name t h n room =
      let s = h.sized in
      let c = get_or t.array (home t name) [] in
      let look = at-get_or t.array (home t name) [] (home-lt t name s) in
      let seek = search_chain-first entry_name name c n in
      elim (Option-cases (lookup t name)) [
        | inr (e, old) ↦
            let found : first entry_name name c ≡ some e = unfold lookup in old in
            (
              t,
              rw (look, ◌>>=◌, seek, found, old),
              record {
                table = h;
                level = refl;
                reads = rw old (λ other. lookup-same t name other old);
                below = λ m high _. high;
              },
            )
        | inl old ↦
            let gone : first entry_name name c ≡ none = unfold lookup in old in
            let (t', run, sized, homed, spare, level, same, below) = make_room page_size t h room in
            let (new, put, sized', homed', more, kept, level', below', reads) =
              insert_entry_lem t' name sized homed (same name ∙ old) in
            (
              new,
              rw (look, ◌>>=◌, seek, gone, ◌>>=◌, run, old) put,
              record {
                table = record { sized = sized'; homed = homed'; bounded = omega arith };
                level = level' ∙ level;
                reads = rw old (λ other. reads other ∙ rw (same other) refl);
                below = λ m high _. below' m (below m high);
              },
            )
      ]

  -- A write through the pointer that the table returned.
  pub update_entry_lem :
      (t : Symtable V) (e old : SymtableEntry V)
      → IsTable t
      → lookup t e.name ≡ some old
      → (new : Symtable V) × (update_entry e t ≡ ok new) × Updates t e.name e new
  unfolding update_entry lookup
  update_entry_lem t e old table h =
      let s = table.sized in
      let c = get_or t.array (home t e.name) [] in
      let c' = write_back entry_name e.name e c in
      let look = at-get_or t.array (home t e.name) [] (home-lt t e.name s) in
      (
        record t { array = set t.array (home t e.name) c' },
        rw look,
        record {
          table = record {
            sized = record {
              slots = length-set t.array (home t e.name) c' ∙ s.slots;
              width = s.width;
              log2 = s.log2;
            };
            homed = record {
              home = set-AreHome t.capacity_log2 0 (home t e.name) c' t.array table.homed.home (
                  write_back-IsHome t.capacity_log2 (0 + home t e.name) e.name e c refl
                    (get_or-IsHome t.capacity_log2 0 (home t e.name) t.array table.homed.home));
              count = omega (
                arith,
                length-flatten-set t.array (home t e.name) c' (home-lt t e.name s),
                length-write_back e.name e c,
                table.homed.count,
              );
            };
            bounded = table.bounded;
          };
          level = refl;
          reads =
              lookup-set t e.name (some e) c' t.entry_count s
                (λ other. first-write_back entry_name e.name other e c refl h);
          below = λ m ha he.
              set-IsBelow m (home t e.name) c' t.array
                (write_back-IsBelow m e.name e c he (get_or-IsBelow m (home t e.name) t.array ha))
                ha;
        },
      )
