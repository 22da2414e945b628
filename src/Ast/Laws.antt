-- ===== src/Ast/Laws.antt =====
-- The attribute table as a map from names to values.
use mathlib.Core.Path.{subst}
use dp4c.Prelude.{
  ℕ, ◌+◌, ◌≤◌, ◌<◌, ◌≡◌, ◌≢◌, ◌⊎◌, inl, inr, refl, ap, ◌∙◌, arith, List, [], ◌∷◌, length,
  length-set, get_or, set, Bool, true, false, Bool-cases, Option, none, some, Option-cases,
  if◌then◌else◌, ltb, ◌==◌, ==_iff, ok, failed, assertion, ◌>>=◌,
}
use dp4c.Basic.Strings.{str_eq, str_eq_iff}
use dp4c.Hash.{hash_string}
use dp4c.Hash.Bounds.{hash_string-lt}
use dp4c.Chain.{write_back}
use dp4c.Chain.Laws.{at-get_or, get_or-set, first, search_chain-first, first-name, first-write_back}
use dp4c.Ast.Kinds.{AstAttributeType}
use dp4c.Ast.Table.{Ast, AstAttribute, attr_name, value_of, ast_getattr, ast_setattr}

abbrev pub slot : List ℕ → ℕ
slot name = hash_string name 4

pub slot-lt : (name : List ℕ) → slot name < 15
slot-lt name = omega (arith, hash_string-lt name 4 (omega arith))

abbrev pub found {ℓ} : {A : Type ℓ} → Option A → Bool
found none = false
found (some _) = true

slots_apart : (a b : List ℕ) → slot a == slot b ≡ false → str_eq a b ≡ false
slots_apart a b e = elim (Bool-cases (str_eq a b)) [
  | inr h ↦ h
  | inl h ↦
      let same : slot a ≡ slot b = ap slot ((str_eq_iff a b).0 h) in
      cc ((==_iff (slot a) (slot b)).1 same)
]

module _ {V : Type 0} where
  abbrev pub chain_of : Ast V → List ℕ → List (AstAttribute V)
  chain_of ast name = get_or ast.attrs (slot name) []

  -- The map that the table stands for: `none` for a name that is not there.
  unfoldable pub view : Ast V → List ℕ → Option (AstAttribute V)
  view ast name = first attr_name name (chain_of ast name)

  -- A table has its slots.
  abbrev pub HasSlots : Ast V → Type 0
  HasSlots ast = length ast.attrs ≡ 15

  -- In a node with its slots, a get of a name that is not empty reads the map, and does not fail.
  pub ast_getattr-view :
      (ast : Ast V) (name : List ℕ)
      → HasSlots ast
      → name ≢ []
      → ast_getattr ast name ≡ ok (value_of (view ast name))
  unfolding ast_getattr view
  ast_getattr-view ast name s n = rw (
    at-get_or ast.attrs (slot name) [] (omega (arith, slot-lt name)),
    ◌>>=◌,
    search_chain-first attr_name name (chain_of ast name) n,
  )

  -- What a set makes of the map, and of the count.
  pub record Sets (ast : Ast V) (name : List ℕ) (value : Option V) (t : AstAttributeType)
      (new : Ast V) : Type 0 where
    pub slots : HasSlots new
    pub count :
        new.attr_count ≡ (if found (view ast name) then ast.attr_count else ast.attr_count + 1)
    pub reads :
        (other : List ℕ)
        → view new other ≡ (
            if str_eq name other
            then some (record { attr_type = t; name = name; value = value })
            else view ast other)

  module _ (ast : Ast V) (name : List ℕ) (slots : HasSlots ast) where
    -- Both writes put a chain in the home slot of the name, which reads as the old one but for it.
    reads-set :
        (new : Option (AstAttribute V)) (c : List (AstAttribute V)) (k : ℕ)
        → ((other : List ℕ)
            → first attr_name other c
              ≡ (if str_eq name other then new else first attr_name other (chain_of ast name)))
        → (other : List ℕ)
        → view (record ast { attr_count = k; attrs = set ast.attrs (slot name) c }) other
          ≡ (if str_eq name other then new else view ast other)
    unfolding view
    reads-set new c k h other =
        let room : slot name < length ast.attrs = omega (arith, slot-lt name) in
        rw (get_or-set ast.attrs (slot name) (slot other) c [] room)
          (elim (Bool-cases (slot name == slot other)) [
            | inl e ↦
                let same = (==_iff (slot name) (slot other)).0 e in
                rw e (
                  h other
                  ∙ ap
                      (λ (i : ℕ).
                        if str_eq name other
                        then new
                        else first attr_name other (get_or ast.attrs i []))
                      same)
            | inr e ↦
                let apart : str_eq name other ≡ false = slots_apart name other e in rw (e, apart)
          ])

  -- In a node with its slots, a set of a name that is not empty, which is there or for which there is
  -- room, returns a table that reads as the old one but for the new attribute under that name; the
  -- count grows by one for a new name. A set of a new name in a full table is a failed assertion.
  pub ast_setattr_lem :
      (ast : Ast V) (name : List ℕ) (value : Option V) (t : AstAttributeType)
      → HasSlots ast
      → name ≢ []
      → ((new : Ast V) × (ast_setattr ast name value t ≡ ok new) × Sets ast name value t new)
        ⊎ ((view ast name ≡ none)
            × (15 ≤ ast.attr_count)
            × (ast_setattr ast name value t ≡ failed assertion))
  unfolding ast_setattr view
  ast_setattr_lem ast name value t s n =
      let c = chain_of ast name in
      let new : AstAttribute V = record { attr_type = t; name = name; value = value } in
      let look = at-get_or ast.attrs (slot name) [] (omega (arith, slot-lt name)) in
      let seek = search_chain-first attr_name name c n in
      elim (Option-cases (first attr_name name c)) [
        | inr (e, old) ↦
            let c' = write_back attr_name name (record e { attr_type = t; value = value }) c in
            let named = first-name attr_name name c old in
            let same : ◌≡◌ {A = AstAttribute V} (record e { attr_type = t; value = value }) new =
              λ i. record { attr_type = t; name = named i; value = value } in
            inl (
              record ast { attrs = set ast.attrs (slot name) c' },
              rw (look, ◌>>=◌, seek, old),
              record {
                slots = length-set ast.attrs (slot name) c' ∙ s;
                count = rw old;
                reads = reads-set ast name s (some new) c' ast.attr_count (λ other.
                    first-write_back attr_name name other _ c named old
                    ∙ ap (λ a. if str_eq name other then some a else first attr_name other c) same);
              },
            )
        | inl old ↦ elim (Bool-cases (ltb ast.attr_count 15)) [
          | inr full ↦ inr (old, ground arith, rw (look, ◌>>=◌, seek, old, full))
          | inl room ↦ inl (
            record ast {
              attr_count = ast.attr_count + 1;
              attrs = set ast.attrs (slot name) (new ∷ c);
            },
            rw (look, ◌>>=◌, seek, old, room),
            record {
              slots = length-set ast.attrs (slot name) (new ∷ c) ∙ s;
              count = rw old;
              reads =
                  reads-set ast name s (some new) (new ∷ c) (ast.attr_count + 1)
                    (λ other. unfold first in refl);
            },
          )
        ]
      ]

  pub ast_setattr-full :
      (ast : Ast V) (name : List ℕ) (value : Option V) (t : AstAttributeType)
      → HasSlots ast
      → name ≢ []
      → view ast name ≡ none
      → ltb ast.attr_count 15 ≡ false
      → ast_setattr ast name value t ≡ failed assertion
  unfolding ast_setattr view
  ast_setattr-full ast name value t s n old full =
      let look = at-get_or ast.attrs (slot name) [] (omega (arith, slot-lt name)) in
      let seek = search_chain-first attr_name name (chain_of ast name) n in
      rw (look, ◌>>=◌, seek, old, full)

  -- In a node with its slots, a get behind a set that returned reads the new value under the same
  -- name, and what it read before under any other; the names are not empty.
  pub ast_getattr-setattr :
      (ast new : Ast V) (name other : List ℕ) (value : Option V) (t : AstAttributeType)
      → HasSlots ast
      → name ≢ []
      → other ≢ []
      → ast_setattr ast name value t ≡ ok new
      → ast_getattr new other ≡ (if str_eq name other then ok value else ast_getattr ast other)
  ast_getattr-setattr ast new name other value t s n m h =
      elim (ast_setattr_lem ast name value t s n) [
        | inr (_, _, stuck) ↦ cc
        | inl (result, run, sets) ↦
            let e : result ≡ new = cc in
            let q = subst (Sets ast name value t) e sets in
            rw (ast_getattr-view new other q.slots m, ast_getattr-view ast other s m, q.reads other)
              (elim (Bool-cases (str_eq name other)) [ inl b ↦ rw b | inr b ↦ rw b ])
      ]
