-- ===== src/Symtable/Growth.antt =====
-- The growth of the table: it keeps what every name stands for.
use mathlib.Core.List.{flatten, append-nil}
use native.Mathlib.Nat.{pow-suc, one-le-pow}
use native.Mathlib.Numerals.{add-one}
use dp4c.Prelude.{
  inr, ℕ, zero, suc, ◌+◌, ◌-◌, ◌*◌, ◌^◌, ◌≤◌, ◌≡◌, refl, sym, ap, ◌∙◌, arith, List, [], ◌∷◌, ◌++◌,
  length, length-append, length-replicate, length-set, get_or, set, drop, replicate, true, none,
  some, leb, le→leb, ◌==◌, ==_iff, ok, ◌>>=◌,
}
use dp4c.Hash.{hash_string}
use dp4c.Chain.Laws.{at-get_or, first}
use dp4c.Symtable.Entries.{SymtableEntry, Symtable, entry_name}
use dp4c.Symtable.Table.{pages, collect, rehash, grow}
use dp4c.Symtable.Below.{
  ChainIsBelow, ArrayIsBelow, set-IsBelow, get_or-IsBelow, flatten-IsBelow, replicate-IsBelow,
}
use dp4c.Symtable.Scopes.{lookup}
use dp4c.Symtable.Laws.{IsSized, home, home-lt, lookup-set}
use dp4c.Symtable.Rehash.{
  rehash-AreHome, replicate-AreHome, length-flatten-replicate, flatten-IsUnique,
}
use dp4c.Symtable.Latest.{latest, AreHome, flatten-latest}

drop-all : {A : Type 0} (n : ℕ) (xs : List A) → length xs ≤ n → drop n xs ≡ []
drop-all zero [] h = refl
drop-all zero (x ∷ xs) h = absurd (omega arith)
drop-all (suc n) [] h = refl
drop-all (suc n) (x ∷ xs) h = drop-all n xs (omega arith)

get_or-replicate : {A : Type 0} (n i : ℕ) (a : A) → get_or (replicate n a) i a ≡ a
get_or-replicate zero i a = refl
get_or-replicate (suc n) zero a = refl
get_or-replicate (suc n) (suc i) a = get_or-replicate n i a

module _ {V : Type 0} where
  rehash_lem :
      (t : Symtable V) (entries : List (SymtableEntry V))
      → IsSized t
      → (array : List (List (SymtableEntry V))) × (rehash t.capacity_log2 entries t.array
          ≡ ok array)
        × IsSized (record t { array = array })
        × ((name : List ℕ)
            → lookup (record t { array = array }) name ≡ latest name entries (lookup t name))
        × ((m : ℕ) → ChainIsBelow m entries → ArrayIsBelow m t.array → ArrayIsBelow m array)
  unfolding rehash latest ChainIsBelow
  rehash_lem t [] s = (t.array, refl, s, (λ name. refl), λ m _ h. h)
  rehash_lem t (e ∷ entries) s =
      let c = get_or t.array (home t e.name) [] in
      let look = at-get_or t.array (home t e.name) [] (home-lt t e.name s) in
      let t' = record t { array = set t.array (home t e.name) (e ∷ c) } in
      let s' : IsSized t' = record {
        slots = length-set t.array (home t e.name) (e ∷ c) ∙ s.slots;
        width = s.width;
        log2 = s.log2;
      } in
      let (array, run, sized, reads, below) = rehash_lem t' entries s' in
      (
        array,
        rw (look, ◌>>=◌, run),
        sized,
        (λ name.
            reads name
            ∙ ap (latest name entries) (
                lookup-set t e.name (some e) (e ∷ c) t.entry_count s (λ other. unfold first in refl)
                  name)),
        λ m (he, hs) h. below m hs (
            set-IsBelow m (home t e.name) (e ∷ c) t.array
              (he, get_or-IsBelow m (home t e.name) t.array h) h),
      )

  collect-flatten :
      (array : List (List (SymtableEntry V))) → collect (length array) array ≡ ok (flatten array)
  unfolding collect flatten
  collect-flatten [] = refl
  collect-flatten (chain ∷ array) = rw (collect-flatten array)

  -- The state of a table, beside its slots: the entries are at home, each name has one, and
  -- `entry_count` counts them.
  pub record IsHomed (t : Symtable V) : Type 0 where
    pub home : AreHome t.capacity_log2 0 t.array
    pub count : length (flatten t.array) ≡ t.entry_count

  double_width : (t : Symtable V) → IsSized t → 2 ^ (t.capacity_log2 + 1) - 1 ≡ 2 * t.capacity + 1
  double_width t s =
      rw (add-one, pow-suc) (omega (arith, s.width, one-le-pow t.capacity_log2 2 (omega arith)))

  lookup-replicate :
      (t : Symtable V) (n : ℕ) (name : List ℕ) → t.array ≡ replicate n [] → lookup t name ≡ none
  unfolding lookup
  lookup-replicate t n name e =
      rw (e, get_or-replicate {A = List (SymtableEntry V)} n (hash_string name t.capacity_log2) [])
        (unfold first in refl)

  lookup-latest :
      (t : Symtable V) (name : List ℕ)
      → AreHome t.capacity_log2 0 t.array
      → latest name (flatten t.array) none ≡ lookup t name
  unfolding lookup
  lookup-latest t name h =
      flatten-latest t.capacity_log2 0 name t.array h (omega arith)
      ∙ ap (λ (i : ℕ). first entry_name name (get_or t.array i [])) (omega arith)

  -- A full table, with a slot for every hash, the entries at home and their number right, whose
  -- pointers fit into the pages of the temporary array, grows: `grow` returns a table of the same kind,
  -- with twice the capacity and one more, the same scope and the same entry for every name, and no
  -- symbols of higher levels.
  pub grow_lem :
      (page_size : ℕ) (t : Symtable V)
      → IsSized t
      → IsHomed t
      → t.entry_count ≡ t.capacity
      → 8 * t.capacity ≤ pages page_size t.capacity
      → (new : Symtable V) × (grow page_size t ≡ ok new)
        × IsSized new
        × IsHomed new
        × (new.capacity ≡ 2 * t.capacity + 1)
        × (new.entry_count ≡ t.entry_count)
        × (new.scope_level ≡ t.scope_level)
        × ((name : List ℕ) → lookup new name ≡ lookup t name)
        × ((m : ℕ) → ArrayIsBelow m t.array → ArrayIsBelow m new.array)
  unfolding grow
  grow_lem page_size t s h full room =
      let n = 2 ^ (t.capacity_log2 + 1) - 1 in
      let entries = flatten t.array in
      let longer = t.array ++ replicate (n - t.entry_count) [] in
      let doubled : n ≡ 2 * t.capacity + 1 = double_width t s in
      let size : length longer ≡ n =
        length-append t.array _
        ∙ omega (
          arith,
          length-replicate {A = List (SymtableEntry V)} (n - t.entry_count) [],
          s.slots,
        ) in
      let listed : collect t.capacity t.array ≡ ok entries =
        ap (λ k. collect k t.array) (sym s.slots) ∙ collect-flatten t.array in
      let fits : leb (8 * length entries) (pages page_size t.capacity) ≡ true =
        le→leb _ _ (omega (arith, h.count)) in
      let counted : length entries == t.entry_count ≡ true = (==_iff _ _).1 h.count in
      let wide : leb n (length longer) ≡ true = le→leb _ _ (omega (arith, size)) in
      let cleared : replicate n [] ++ drop n longer ≡ replicate n [] =
        ap (λ (xs : List (List (SymtableEntry V))). replicate n [] ++ xs)
          (drop-all n longer (omega (arith, size)))
        ∙ append-nil (replicate n []) in
      let t0 = record t {
        array = replicate n [];
        capacity_log2 = t.capacity_log2 + 1;
        capacity = n;
      } in
      let s0 : IsSized t0 = record {
        slots = length-replicate n [];
        width = refl;
        log2 = omega arith;
      } in
      let (array, run, sized, reads, below) = rehash_lem t0 entries s0 in
      let (homed, counts) =
        rehash-AreHome t0 entries array s0 (replicate-AreHome V (t.capacity_log2 + 1) 0 n)
          (flatten-IsUnique t.capacity_log2 0 t.array h.home)
          (λ name. inr (lookup-replicate t0 n name refl)) run in
      (
        record t0 { array = array },
        rw (listed, ◌>>=◌, fits, ◌>>=◌, counted, ◌>>=◌, wide, ◌>>=◌, cleared, run),
        sized,
        record {
          home = homed;
          count = counts ∙ omega (arith, length-flatten-replicate V n, h.count);
        },
        doubled,
        refl,
        refl,
        (λ name.
            reads name
            ∙ ap (latest name entries) (lookup-replicate t0 n name refl)
            ∙ lookup-latest t name h.home),
        λ m high. below m (flatten-IsBelow m t.array high) (replicate-IsBelow V m n),
      )
