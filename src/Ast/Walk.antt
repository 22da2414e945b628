-- ===== src/Ast/Walk.antt =====
-- The iterator of the attribute table: it visits every attribute once, slot by slot.
use native.Mathlib.Numerals.{add-one}
use mathlib.Core.List.{flatten}
use dp4c.Prelude.{
  ℕ, zero, suc, ◌+◌, ◌≤◌, ◌≡◌, ◌⊎◌, inl, inr, refl, sym, ap, ◌∙◌, arith, List, [], ◌∷◌, ◌++◌,
  length, drop,
}
use dp4c.Ast.Table.{
  Ast, AstAttribute, AstAttributeIterator, slots_of, next_slot, ast_attriter_init, advance_attr,
  ast_attriter_get_next,
}

module _ {ℓ} {A : Type ℓ} where
  List-cases : (xs : List A) → (xs ≡ []) ⊎ ((x : A) × (ys : List A) × (xs ≡ x ∷ ys))
  List-cases [] = inl refl
  List-cases (x ∷ ys) = inr (x, ys, refl)

  nil-of_length : (xs : List A) → length xs ≤ 0 → xs ≡ []
  nil-of_length [] h = refl
  nil-of_length (x ∷ xs) h = absurd (omega arith)

  drop-suc : (xs ys : List A) (y : A) (i : ℕ) → drop i xs ≡ y ∷ ys → drop (suc i) xs ≡ ys
  drop-suc [] ys y zero e = cc
  drop-suc [] ys y (suc i) e = cc
  drop-suc (x ∷ xs) ys y zero e = cc
  drop-suc (x ∷ xs) ys y (suc i) e = drop-suc xs ys y i e

  drop-suc_nil : (xs : List A) (i : ℕ) → drop i xs ≡ [] → drop (suc i) xs ≡ []
  drop-suc_nil [] i e = refl
  drop-suc_nil (x ∷ xs) zero e = cc
  drop-suc_nil (x ∷ xs) (suc i) e = drop-suc_nil xs i e

abbrev Chains : Type 0 → Type 0
Chains V = List (List (AstAttribute V))

module _ {V : Type 0} where
  -- What a position of the iterator has still to visit, the attribute that it stands at included.
  abbrev ahead : Chains V → ℕ × List (AstAttribute V) → List (AstAttribute V)
  ahead attrs (i, chain) = chain ++ flatten (drop (suc i) attrs)

  next_slot-ahead :
      (attrs slots : Chains V) (i : ℕ)
      → drop i attrs ≡ slots
      → ahead attrs (next_slot slots i) ≡ flatten slots
  unfolding next_slot flatten
  next_slot-ahead attrs [] i e = rw (drop-suc_nil attrs i e)
  next_slot-ahead attrs ([] ∷ slots) i e =
      next_slot-ahead attrs slots (i + 1) (rw add-one (drop-suc attrs slots [] i e))
  next_slot-ahead attrs ((a ∷ chain) ∷ slots) i e = rw (drop-suc attrs slots (a ∷ chain) i e)

  abbrev here : AstAttributeIterator V → List (AstAttribute V)
  here iter = iter.attr_at ++ flatten (drop (suc iter.table_i) (slots_of iter.ast))

  -- The attributes that a client sees that calls `ast_attriter_get_next` up to the null pointer.
  unfoldable pub visit : ℕ → AstAttributeIterator V → List (AstAttribute V)
  visit zero iter = []
  visit (suc fuel) iter = elim iter.attr_at [
    | [] ↦ []
    | e ∷ _ ↦ e ∷ visit fuel (ast_attriter_get_next iter)
  ]

  next_slot-nil : (slots : Chains V) (i : ℕ) → (next_slot slots i).1 ≡ [] → flatten slots ≡ []
  unfolding next_slot flatten
  next_slot-nil [] i e = refl
  next_slot-nil ([] ∷ slots) i e = next_slot-nil slots (i + 1) e
  next_slot-nil ((a ∷ chain) ∷ slots) i e = cc

  -- At a null pointer nothing is ahead.
  abbrev EndsAtNull : AstAttributeIterator V → Type 0
  EndsAtNull iter = iter.attr_at ≡ [] → here iter ≡ []

  advance_attr-here :
      (iter : AstAttributeIterator V) (e : AstAttribute V) (chain : List (AstAttribute V))
      → (here (advance_attr iter (e ∷ chain))
          ≡ chain ++ flatten (drop (suc iter.table_i) (slots_of iter.ast)))
        × EndsAtNull (advance_attr iter (e ∷ chain))
  unfolding advance_attr
  advance_attr-here iter e [] =
      let step = next_slot-ahead (slots_of iter.ast) _ (iter.table_i + 1) refl in
      (
        step ∙ ap (λ (i : ℕ). flatten (drop i (slots_of iter.ast))) (add-one iter.table_i),
        λ n. step ∙ next_slot-nil _ (iter.table_i + 1) n,
      )
  advance_attr-here iter e (f ∷ chain) = (refl, λ n. cc)

  visit-cons :
      (fuel : ℕ) (iter : AstAttributeIterator V) (e : AstAttribute V)
      (chain : List (AstAttribute V))
      → iter.attr_at ≡ e ∷ chain
      → visit (suc fuel) iter ≡ e ∷ visit fuel (advance_attr iter (e ∷ chain))
  unfolding visit ast_attriter_get_next
  visit-cons fuel iter e chain h =
      ap {B = List (AstAttribute V)}
        (λ (c : List (AstAttribute V)). elim c [
          | [] ↦ []
          | a ∷ _ ↦ a ∷ visit fuel (advance_attr iter iter.attr_at)
        ])
        h
      ∙ ap (λ c. e ∷ visit fuel (advance_attr iter c)) h

  visit-here :
      (fuel : ℕ) (iter : AstAttributeIterator V)
      → length (here iter) ≤ fuel
      → EndsAtNull iter
      → visit fuel iter ≡ here iter
  unfolding visit
  visit-here zero iter h d = sym (nil-of_length (here iter) h)
  visit-here (suc fuel) iter h d = elim (List-cases iter.attr_at) [
    | inl n ↦
        ap {B = List (AstAttribute V)}
          (λ (c : List (AstAttribute V)). elim c [
            | [] ↦ []
            | a ∷ _ ↦ a ∷ visit fuel (ast_attriter_get_next iter)
          ])
          n
        ∙ sym (d n)
    | inr (e, chain, n) ↦
        let rest = chain ++ flatten (drop (suc iter.table_i) (slots_of iter.ast)) in
        let (step, ends) = advance_attr-here iter e chain in
        let whole : here iter ≡ e ∷ rest =
          ap (λ c. c ++ flatten (drop (suc iter.table_i) (slots_of iter.ast))) n in
        let short : length (here (advance_attr iter (e ∷ chain))) ≤ fuel =
          omega (arith, ap length step, ap length whole, h) in
        visit-cons fuel iter e chain n
        ∙ ap (◌∷◌ e) (visit-here fuel (advance_attr iter (e ∷ chain)) short ends ∙ step)
        ∙ sym whole
  ]

  -- A client that starts with `ast_attriter_init` and calls `ast_attriter_get_next` up to the null
  -- pointer, with fuel for each attribute, sees all attributes of the 15 slots of the node, slot by slot, each once.
  pub visit-init :
      (fuel : ℕ) (ast : Ast V)
      → length (flatten (slots_of ast)) ≤ fuel
      → visit fuel (ast_attriter_init ast) ≡ flatten (slots_of ast)
  unfolding ast_attriter_init
  visit-init fuel ast h =
      let step = next_slot-ahead (slots_of ast) (slots_of ast) 0 refl in
      visit-here fuel (ast_attriter_init ast) (rw step h)
        (λ n. step ∙ next_slot-nil (slots_of ast) 0 n)
      ∙ step
