-- ===== src/Syntax/Attributes.antt =====
-- ast.c: the attributes of a tree's node, as the table of a node stores them.
use Prim.Native.String.{String}
use dp4c.Prelude.{
  ℕ, zero, suc, ◌+◌, ◌≤◌, get_or, replicate, ◌≡◌, ◌≢◌, ◌⊎◌, inl, inr, refl, ap, ◌∙◌, arith, List,
  [], codes, Bool, true, false, Bool-cases, Option, none, some, Option-cases, sym, if◌then◌else◌,
  ltb, ok, failed, assertion,
}
use dp4c.Basic.Strings.{str_eq, str_eq_iff}
use dp4c.Chain.Laws.{str_eq_congr, first}
use dp4c.Ast.Kinds.{AstKind, AstAttributeType}
use dp4c.Ast.Table.{Ast, AstAttribute, ast_getattr, ast_setattr, value_of}
use dp4c.Ast.Laws.{
  HasSlots, slot, view, found, Sets, ast_getattr-view, ast_setattr_lem, ast_setattr-full,
}
use dp4c.Syntax.Tree.{
  Tree, Attributes, Value, node, null, no_more, attribute, attr_count, has_attr, put_attr, get_attr,
  set_attr,
}

-- What a table's pointer points to.
abbrev pub pointee : Option Value → Value
pointee none = null
pointee (some v) = v

abbrev pub shown : Option (AstAttribute Value) → Option (AstAttributeType × Value)
shown none = none
shown (some e) = some (e.attr_type, pointee e.value)

-- The map that a list of attributes stands for.
unfoldable pub lookup : List ℕ → Attributes → Option (AstAttributeType × Value)
lookup name no_more = none
lookup name (attribute n t v rest) = if str_eq n name then some (t, v) else lookup name rest

abbrev pub attributes : Tree → Attributes
attributes (node kind id line_nr attrs) = attrs

-- The table stores a node's attributes: they read the same, and are as many.
pub record Stores (ast : Ast Value) (attrs : Attributes) : Type 0 where
  pub slots : HasSlots ast
  pub count : ast.attr_count ≡ attr_count attrs
  pub reads : (name : List ℕ) → shown (view ast name) ≡ lookup name attrs

has_attr-lookup :
    (name : List ℕ) (attrs : Attributes) → has_attr name attrs ≡ found (lookup name attrs)
unfolding has_attr lookup
has_attr-lookup name no_more = refl
has_attr-lookup name (attribute n t v rest) = elim (Bool-cases (str_eq n name)) [
  | inl e ↦ rw e
  | inr e ↦ rw e (has_attr-lookup name rest)
]

abbrev value_in : Option (AstAttributeType × Value) → Value
value_in none = null
value_in (some (t, v)) = v

get_attr-lookup :
    (name : List ℕ) (attrs : Attributes) → value_in (lookup name attrs) ≡ get_attr name attrs
unfolding get_attr lookup
get_attr-lookup name no_more = refl
get_attr-lookup name (attribute n t v rest) = elim (Bool-cases (str_eq n name)) [
  | inl e ↦ rw e
  | inr e ↦ rw e (get_attr-lookup name rest)
]

value_in-shown : (e : Option (AstAttribute Value)) → pointee (value_of e) ≡ value_in (shown e)
value_in-shown none = refl
value_in-shown (some e) = refl

lookup-put_attr :
    (name other : List ℕ) (t : AstAttributeType) (v : Value) (attrs : Attributes)
    → lookup other (put_attr name t v attrs)
      ≡ (if str_eq name other then some (t, v) else lookup other attrs)
unfolding put_attr lookup
lookup-put_attr name other t v no_more = refl
lookup-put_attr name other t v (attribute n t' v' rest) = elim (Bool-cases (str_eq n name)) [
  | inl q ↦ rw (q, str_eq_congr n name other q) (ground arith)
  | inr q ↦ rw q (elim (Bool-cases (str_eq n other)) [
    | inr r ↦ rw r (lookup-put_attr name other t v rest)
    | inl r ↦
        let apart : str_eq name other ≡ false =
          ground (arith, str_eq_iff n other, str_eq_iff name other, str_eq_iff n name) in
        rw (r, apart)
  ])
]

attr_count-put_attr :
    (name : List ℕ) (t : AstAttributeType) (v : Value) (attrs : Attributes)
    → attr_count (put_attr name t v attrs)
      ≡ (if has_attr name attrs then attr_count attrs else attr_count attrs + 1)
unfolding put_attr attr_count has_attr
attr_count-put_attr name t v no_more = refl
attr_count-put_attr name t v (attribute n t' v' rest) = elim (Bool-cases (str_eq n name)) [
  | inl q ↦ rw q
  | inr q ↦ rw (q, attr_count-put_attr name t v rest) (ground arith)
]

shown-found : (e : Option (AstAttribute Value)) → found (shown e) ≡ found e
shown-found none = refl
shown-found (some e) = refl

module _ (store : Ast Value) (attrs : Attributes) (stores : Stores store attrs) where
  has_attr-view : (name : List ℕ) → has_attr name attrs ≡ found (view store name)
  has_attr-view name =
      has_attr-lookup name attrs
      ∙ ap found (sym (stores.reads name))
      ∙ shown-found (view store name)

  -- In a table that stores a node's attributes, a get of a name that is not empty reads what it reads
  -- in the list of the attributes.
  pub get_attr-refines :
      (name : List ℕ)
      → name ≢ []
      → (p : Option Value) × (ast_getattr store name ≡ ok p) × (pointee p ≡ get_attr name attrs)
  get_attr-refines name n = (
    value_of (view store name),
    ast_getattr-view store name stores.slots n,
    value_in-shown (view store name) ∙ ap value_in (stores.reads name) ∙ get_attr-lookup name attrs,
  )

  stored :
      (name : List ℕ) (t : AstAttributeType) (p : Option Value) (new : Ast Value)
      → Sets store name p t new
      → Stores new (put_attr name t (pointee p) attrs)
  stored name t p new sets = record {
    slots = sets.slots;
    count =
        sets.count
        ∙ rw (attr_count-put_attr name t (pointee p) attrs, has_attr-view name, stores.count) refl;
    reads = λ other.
        rw (sets.reads other, lookup-put_attr name other t (pointee p) attrs)
          (elim (Bool-cases (str_eq name other)) [
            | inl b ↦ rw b
            | inr b ↦ rw b (stores.reads other)
          ]);
  }

  -- The assertion of a set.
  abbrev has_room : List ℕ → Bool
  has_room name = if has_attr name attrs then true else ltb (attr_count attrs) 15

  no_room :
      (name : List ℕ)
      → has_room name ≡ false
      → (view store name ≡ none) × (ltb store.attr_count 15 ≡ false)
  no_room name full =
      let seen = has_attr-view name in
      elim (Option-cases (view store name)) [
        | inl old ↦ (old, rw stores.count (rw (seen, old) at full))
        | inr (e, there) ↦ cc (rw (seen, there) at full)
      ]

  -- A set of a name that is not empty, in the list of a node's attributes and in a table that stores
  -- them: both return, and the new table stores the new list, or both are a failed assertion.
  pub set_attr-refines :
      (name : String) (t : AstAttributeType) (p : Option Value) (kind : AstKind) (id line_nr : ℕ)
      → codes name ≢ []
      → ((new : Ast Value) × (ast_setattr store (codes name) p t ≡ ok new)
          × (set_attr name t (pointee p) (some (node kind id line_nr attrs))
              ≡ ok (some (node kind id line_nr (put_attr (codes name) t (pointee p) attrs))))
          × Stores new (put_attr (codes name) t (pointee p) attrs))
        ⊎ ((ast_setattr store (codes name) p t ≡ failed assertion)
            × (set_attr name t (pointee p) (some (node kind id line_nr attrs)) ≡ failed assertion))
  unfolding set_attr
  set_attr-refines name t p kind id line_nr n =
      let key = codes name in
      elim (Bool-cases (has_room key)) [
        | inr full ↦
            let (old, most) = no_room key full in
            inr (ast_setattr-full store key p t stores.slots n old most, rw full refl)
        | inl room ↦ elim (ast_setattr_lem store key p t stores.slots n) [
          | inl (new, run, sets) ↦ inl (new, run, rw room refl, stored key t p new sets)
          | inr (old, full, stuck) ↦
              let seen : has_attr key attrs ≡ false = has_attr-view key ∙ ap found old in
              let c : 15 ≤ attr_count attrs = rw (sym stores.count) full in
              ground (arith, seen, c, room)
        ]
      ]

empty_slot : (n i : ℕ) → get_or {A = List (AstAttribute Value)} (replicate n []) i [] ≡ []
empty_slot zero i = refl
empty_slot (suc n) zero = refl
empty_slot (suc n) (suc i) = empty_slot n i

-- The table of a node that `new_ast_node` has just made.
pub fresh-Stores :
    (kind : AstKind) (id line_nr : ℕ)
    → Stores
        (record {
          kind = kind;
          id = id;
          line_nr = line_nr;
          attr_count = 0;
          attrs = replicate 15 [];
        })
        no_more
unfolding view first lookup attr_count
fresh-Stores kind id line_nr = record {
  slots = refl;
  count = refl;
  reads = λ name. rw (empty_slot 15 (slot name)) refl;
}
