-- ===== src/Symtable/Table.antt =====
-- symtable.c: the table. It doubles when it is full; its array of chains is the `UnboundedArray`.
use dp4c.Prelude.{
  ℕ, zero, suc, ◌+◌, ◌-◌, ◌*◌, ◌/◌, ◌^◌, List, [], ◌∷◌, ◌++◌, length, set, replicate, drop, true,
  false, ltb, leb, ◌==◌, none, some, if◌then◌else◌, Result, ok, failed, assertion, out_of_bounds,
  assert, ◌>>=◌, ◌>>◌,
}
use dp4c.Hash.{hash_string}
use dp4c.Chain.{at, search_chain}
use dp4c.Symtable.Entries.{SymtableEntry, Symtable, entry_name, end_chain}

-- `arena_push` of `size` bytes into an empty arena: whole pages, whose size is a power of two.
unfoldable pub pages : ℕ → ℕ → ℕ
pages page_size size = (size + page_size - 1) / page_size * page_size

module _ {V : Type 0} where
  -- The loop over the first `n` slots, with the assertion of `array_get`.
  unfoldable pub end_slots :
      ℕ → ℕ → List (List (SymtableEntry V)) → Result (List (List (SymtableEntry V)))
  end_slots level zero array = ok array
  end_slots level (suc n) [] = failed assertion
  end_slots level (suc n) (chain ∷ array) = do
    chain' ← end_chain level chain
    array' ← end_slots level n array
    ok (chain' ∷ array')

  unfoldable pub pop_scope : Symtable V → Result (Symtable V)
  pop_scope t = do
    assert (ltb 0 t.scope_level)
    array ← end_slots t.scope_level t.capacity t.array
    ok (record t { array = array; scope_level = t.scope_level - 1 })

  abbrev pub new_entry : List ℕ → SymtableEntry V
  new_entry name = record { name = name; id_kw = []; id_type = []; id_ident = [] }

  -- The entries of the first `n` slots, in the order of the growth's first loop.
  unfoldable pub collect : ℕ → List (List (SymtableEntry V)) → Result (List (SymtableEntry V))
  collect zero array = ok []
  collect (suc n) [] = failed assertion
  collect (suc n) (chain ∷ array) = do entries ← collect n array; ok (chain ++ entries)

  -- The growth's last loop.
  unfoldable pub rehash :
      ℕ
      → List (SymtableEntry V)
      → List (List (SymtableEntry V))
      → Result (List (List (SymtableEntry V)))
  rehash log2 [] array = ok array
  rehash log2 (e ∷ entries) array = do
    let h = hash_string e.name log2
    chain ← at array h
    rehash log2 entries (set array h (e ∷ chain))

  -- The room for the pointers (8 bytes each) is that of `arena_push(&temp_storage, capacity)`, and a
  -- write behind it is out of bounds. The array has a slot for each entry, and one is appended for
  -- each of the others.
  unfoldable pub grow : ℕ → Symtable V → Result (Symtable V)
  grow page_size t = do
    entries ← collect t.capacity t.array
    if leb (8 * length entries) (pages page_size t.capacity) then ok tt else failed out_of_bounds
    assert (length entries == t.entry_count)
    let log2 = t.capacity_log2 + 1
    let capacity = 2 ^ log2 - 1
    let longer = t.array ++ replicate (capacity - t.entry_count) []
    assert (leb capacity (length longer))
    array ← rehash log2 entries (replicate capacity [] ++ drop capacity longer)
    ok (record t { array = array; capacity_log2 = log2; capacity = capacity })

  -- The entry is put in front of its chain, in the slot of the capacity that the table has then.
  unfoldable pub insert_entry : List ℕ → Symtable V → Result (SymtableEntry V × Symtable V)
  insert_entry name t = do
    let h = hash_string name t.capacity_log2
    chain ← at t.array h
    ok (
      new_entry name,
      record t { array = set t.array h (new_entry name ∷ chain); entry_count = t.entry_count + 1 },
    )

  -- `page_size` is that of the arena.
  unfoldable pub get_symtable_entry :
      ℕ → List ℕ → Symtable V → Result (SymtableEntry V × Symtable V)
  get_symtable_entry page_size name t = do
    chain ← at t.array (hash_string name t.capacity_log2)
    entry ← search_chain entry_name name chain
    elim entry [
      | some e ↦ ok (e, t)
      | none ↦ do
        t' ← elim (leb t.capacity t.entry_count) [ true ↦ grow page_size t | false ↦ ok t ]
        insert_entry name t'
    ]
