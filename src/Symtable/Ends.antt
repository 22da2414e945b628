-- ===== src/Symtable/Ends.antt =====
-- symtable.c: the lookups and the declarations end, with a value or with a failure. What recurs there
-- recurs on a list.
use dp4c.Prelude.{
  ℕ, zero, suc, List, [], ◌∷◌, leb, ◌==◌, Bool, true, false, Option, none, some, Result, ok, failed,
  assert, Ensures, Ensures-bind, Ensures-if, Ensures-mono, Failure, ◌>>=◌, returns, stops,
  if◌then◌else◌,
}
use dp4c.Hash.{hash_string}
use dp4c.Basic.{cstr_match}
use dp4c.Chain.{at, search_chain}
use dp4c.Symtable.Entries.{SymtableEntry, Symtable, entry_name}
use dp4c.Symtable.Table.{collect, rehash, grow, insert_entry, get_symtable_entry}
use dp4c.Symtable.Declare.{new_type, update_entry}

module _ {ℓ} {A : Type ℓ} where
  abbrev pub Ends : Result A → Type ℓ
  Ends r = Ensures (λ (a : A). Unit {ℓ}) r

  pub at-Ends : (xs : List A) (i : ℕ) → Ends (at xs i)
  unfolding at
  at-Ends [] i = stops
  at-Ends (x ∷ xs) zero = returns tt
  at-Ends (x ∷ xs) (suc i) = at-Ends xs i

pub Ends-bind {ℓ κ} :
    {A : Type ℓ} {B : Type κ} (m : Result A) (f : A → Result B)
    → Ends m
    → ((a : A) → Ends (f a))
    → Ends (m >>= f)
Ends-bind m f hm hf = Ensures-bind hm λ a _. Ensures-mono (hf a) λ b _. tt

pub Ends-ok {ℓ} : {A : Type ℓ} (a : A) → Ends (ok a)
Ends-ok a = returns tt

pub Ends-failed {ℓ} : {A : Type ℓ} (e : Failure) → Ends {A = A} (failed e)
Ends-failed e = stops

pub assert-Ends : (b : Bool) → Ends (assert b)
assert-Ends true = returns tt
assert-Ends false = stops

pub if-Ends {ℓ} :
    {A : Type ℓ} (b : Bool) (x y : Result A) → Ends x → Ends y → Ends (if b then x else y)
if-Ends b x y hx hy = Ensures-if b (λ _. hx) (λ _. hy)

cstr_match-Ends : (a b : List ℕ) → Ends (cstr_match a b)
unfolding cstr_match
cstr_match-Ends [] [] = stops
cstr_match-Ends [] (b ∷ t) = returns tt
cstr_match-Ends (a ∷ s) [] = returns tt
cstr_match-Ends (a ∷ []) (b ∷ []) = returns tt
cstr_match-Ends (a ∷ []) (b ∷ b' ∷ t) = returns tt
cstr_match-Ends (a ∷ a' ∷ s) (b ∷ t) =
    if-Ends (a == b) _ _ (cstr_match-Ends (a' ∷ s) t) (returns tt)

pub Ends-elim {ℓ} :
    {A : Type ℓ} (b : Bool) (x y : Result A)
    → Ends x
    → Ends y
    → Ends (elim b [ true ↦ x | false ↦ y ])
Ends-elim true x y hx hy = hx
Ends-elim false x y hx hy = hy

pub search_chain-Ends :
    {E : Type 0} (name : E → List ℕ) (key : List ℕ) (es : List E) → Ends (search_chain name key es)
unfolding search_chain
search_chain-Ends name key [] = returns tt
search_chain-Ends name key (e ∷ es) =
    Ensures-bind (cstr_match-Ends (name e) key)
      (elim [ true ↦ λ _. returns tt | false ↦ λ _. search_chain-Ends name key es ])

module _ {V : Type 0} where
  pub collect-Ends : (n : ℕ) (array : List (List (SymtableEntry V))) → Ends (collect n array)
  unfolding collect
  collect-Ends zero array = returns tt
  collect-Ends (suc n) [] = stops
  collect-Ends (suc n) (chain ∷ array) = Ensures-bind (collect-Ends n array) λ entries _. returns tt

  pub rehash-Ends :
      (log2 : ℕ) (entries : List (SymtableEntry V)) (array : List (List (SymtableEntry V)))
      → Ends (rehash log2 entries array)
  unfolding rehash
  rehash-Ends log2 [] array = returns tt
  rehash-Ends log2 (e ∷ entries) array =
      Ensures-bind (at-Ends array (hash_string e.name log2)) λ chain _. rehash-Ends log2 entries _

  pub ruleset ends_rules = (
    Ends-bind, Ends-ok, Ends-failed, assert-Ends, if-Ends, at-Ends, search_chain-Ends, collect-Ends,
    rehash-Ends,
  )

  grow-Ends : (page_size : ℕ) (t : Symtable V) → Ends (grow page_size t)
  unfolding grow
  grow-Ends page_size t = search ends_rules depth 20 fits 3000

  insert_entry-Ends : (name : List ℕ) (t : Symtable V) → Ends (insert_entry name t)
  unfolding insert_entry
  insert_entry-Ends name t = search ends_rules

  insert_missing-Ends :
      (page_size : ℕ) (name : List ℕ) (t : Symtable V) (entry : Option (SymtableEntry V))
      → Ends (elim entry [
        | some e ↦ ok (e, t)
        | none ↦
            (elim (leb t.capacity t.entry_count) [ true ↦ grow page_size t | false ↦ ok t ])
            >>= λ t'. insert_entry name t'
      ])
  insert_missing-Ends page_size name t (some e) = returns tt
  insert_missing-Ends page_size name t none =
      Ends-bind _ _ (Ends-elim _ _ _ (grow-Ends page_size t) (returns tt))
        λ t'. insert_entry-Ends name t'

  pub get_symtable_entry-Ends :
      (page_size : ℕ) (name : List ℕ) (t : Symtable V) → Ends (get_symtable_entry page_size name t)
  unfolding get_symtable_entry
  get_symtable_entry-Ends page_size name t = Ends-bind _ _ (at-Ends t.array _) λ chain.
      Ends-bind _ _ (search_chain-Ends entry_name name chain)
        λ entry. insert_missing-Ends page_size name t entry

  update_entry-Ends : (e : SymtableEntry V) (t : Symtable V) → Ends (update_entry e t)
  unfolding update_entry
  update_entry-Ends e t = search ends_rules

  pub new_type-Ends :
      (page_size : ℕ) (name : List ℕ) (ast : Option V) (t : Symtable V)
      → Ends (new_type page_size name ast t)
  unfolding new_type
  new_type-Ends page_size name ast t =
      search (ends_rules, get_symtable_entry-Ends, update_entry-Ends)
