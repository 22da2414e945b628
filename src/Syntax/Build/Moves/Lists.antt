-- ===== src/Syntax/Build/Moves/Lists.antt =====
-- The loops of the parser that append to a list end, and the rules for a `do` block.
use dp4c.Prelude.{
  ℕ, zero, suc, ◌+◌, ◌<◌, ◌≡◌, refl, arith, List, [], ◌∷◌, length, Bool, true, false, none, some,
  Ensures, Ensures-bind, returns, if◌then◌else◌,
}
use dp4c.Token.{TokenClass}
use dp4c.Syntax.Tree.{Node}
use dp4c.Syntax.Build.{
  BuildState, Build, Builders, pure, ◌>>=◌, ◌>>◌, klass, next_token, repeat_while, rounds,
  list_while, list_by_comma, optional_list,
}
use dp4c.Syntax.Build.Moves.{
  left, Moved, Moves, Moves-weaken, Moves-pure, Moves-lift, Moves-fault, Moves-if, Moves-bind,
  Moves-bind_done, Moves-bind_weaken, Moves-bind_suc, Recurs,
}
use dp4c.Syntax.Build.Moves.Steps.{
  Moves-token, Moves-klass, Moves-syntax_failure, Moves-unexpected, Moves-expected,
  Moves-next_token, Moves-peek_token, Moves-accept, Moves-new_ast_node, Moves-new_type,
  Moves-set_ast, Moves-set_list, Moves-set_integer, Moves-set_string, Moves-set_operator,
  Moves-set_attr,
}
use dp4c.Syntax.Build.Moves.Here.{
  MovesAt, Moves-at, MovesAt-of, MovesAt-if, MovesAt-bind, MovesAt-token, MovesAt-klass,
  MovesAt-expected, klass_here,
}

module _ {A : Type 0} where
  -- The body of a loop passes a token wherever the loop's test holds.
  abbrev Passes : ℕ → (TokenClass → Bool) → Build A → Type 0
  Passes m test item = (k : TokenClass) → test k ≡ true → MovesAt 1 m k item

  -- One round, where the rest of the loop ends.
  repeat_round :
      (m n : ℕ) (test : TokenClass → Bool) (item : Build A)
      → ((t : BuildState)
          → left t < m
          → left t < n
          → Ensures (λ (r : List A × BuildState). Moved 0 t r.1) (repeat_while n test item t))
      → (go : Bool) (s : BuildState) → left s < m
      → left s < suc n
      → (go ≡ true → Ensures (λ (r : A × BuildState). Moved 1 s r.1) (item s))
      → Ensures
          (λ (r : List A × BuildState). Moved 0 s r.1)
          ((if go
              then (item >>= λ a. repeat_while n test item >>= λ list. pure (a ∷ list))
              else pure [])
            s)
  unfolding ◌>>=◌ pure
  repeat_round m n test item again false s low few h = returns (omega arith)
  repeat_round m n test item again true s low few h = Ensures-bind (h refl) λ (a, t) moved'.
      Ensures-bind (again t (omega arith) (omega arith)) λ (list, u) moved''. returns (omega arith)

  -- A loop whose body passes a token ends within more rounds than there are tokens.
  repeat_ends :
      (n m : ℕ) (test : TokenClass → Bool) (item : Build A)
      → Passes m test item
      → (s : BuildState) → left s < m
      → left s < n
      → Ensures (λ (r : List A × BuildState). Moved 0 s r.1) (repeat_while n test item s)
  unfolding repeat_while ◌>>=◌
  repeat_ends zero m test item h s low few = absurd (omega arith)
  repeat_ends (suc n) m test item h s low few =
      Ensures-bind (klass_here s) λ (k, s') (t, now, same, stay). rw stay (
        repeat_round m n test item (λ t. repeat_ends n m test item h t) (test k) s low few
          λ go. (h k go).at s t low now same)

  -- A step, and then a loop.
  repeat_behind :
      (d n : ℕ) (test : TokenClass → Bool) (first item : Build A)
      → Passes n test item
      → (s : BuildState) → left s < n
      → Ensures (λ (r : A × BuildState). Moved d s r.1) (first s)
      → Ensures
          (λ (r : List A × BuildState). Moved d s r.1)
          ((first >>= λ a. rounds >>= λ r. repeat_while r test item >>= λ list. pure (a ∷ list)) s)
  unfolding ◌>>=◌ pure rounds
  repeat_behind d n test first item h s low hf = Ensures-bind hf λ (a, t) moved.
      Ensures-bind
        (repeat_ends (length t.parser.tokens + 1) n test item h t (omega arith) (omega arith))
        λ (list, u) moved'. returns (omega arith)

  pub Moves-list_while :
      {n : ℕ} (test : TokenClass → Bool) (item : Build A)
      → Moves 1 n item
      → Moves 1 n (list_while test item)
  unfolding list_while
  Moves-list_while {n} test item h = record {
    at = λ s low. repeat_behind 1 n test item item (λ k go. MovesAt-of h) s low (h.at s low);
  }

  MovesAt-list_while :
      {n : ℕ} {k : TokenClass} (test : TokenClass → Bool) (item : Build A)
      → Passes n test item
      → test k ≡ true
      → MovesAt 1 n k (list_while test item)
  unfolding list_while
  MovesAt-list_while {n} {k} test item h go = record {
    at =
        λ s t low now same. repeat_behind 1 n test item item h s low ((h k go).at s t low now same);
  }

  pub Moves-list_by_comma :
      {n : ℕ} (item : Build A) → Moves 1 n item → Moves 1 n (list_by_comma item)
  unfolding list_by_comma
  Moves-list_by_comma {n} item h = record {
    at = λ s low.
        repeat_behind 1 n _ item (next_token >> item)
          (λ k go. MovesAt-of (Moves-bind_done next_token _ Moves-next_token λ _. Moves-weaken h)) s
          low (h.at s low);
  }

pub Moves-optional_list :
    {n : ℕ} (test : TokenClass → Bool) (list : Build (List Node))
    → Moves 1 n list
    → Moves 0 n (optional_list test list)
unfolding optional_list
Moves-optional_list test list h = Moves-bind klass _ Moves-klass λ k.
    Moves-if (test k) _ _ (Moves-bind_weaken list _ h λ nodes. Moves-pure (some nodes))
      (Moves-pure none)

-- A list whose items pass a token where the test of the list and of its loop holds.
pub Moves-optional_while :
    {n : ℕ} (test : TokenClass → Bool) (item : Build Node)
    → ((k : TokenClass) → test k ≡ true → MovesAt 1 n k item)
    → Moves 0 n (optional_list test (list_while test item))
unfolding optional_list
Moves-optional_while test item h = Moves-at _ λ k.
    MovesAt-if (test k) _ _
      (λ go. MovesAt-bind _ _ (MovesAt-list_while test item h go) λ nodes. Moves-pure (some nodes))
      (λ _. MovesAt-of (Moves-pure none))

-- The rules that take a `do` block apart, and those for a block that reads the class of its token.
pub ruleset moves_rules = (
  Moves-bind_suc, Moves-bind_done, Moves-bind_weaken, Moves-bind, Moves-if, Moves-pure, Moves-fault,
  Moves-token, Moves-klass, Moves-syntax_failure, Moves-unexpected, Moves-expected,
  Moves-next_token, Moves-peek_token, Moves-accept, Moves-new_ast_node, Moves-new_type,
  Moves-set_ast, Moves-set_list, Moves-set_integer, Moves-set_string, Moves-set_operator,
  Moves-set_attr, Moves-list_while, Moves-list_by_comma, Moves-optional_list,
)

pub ruleset here_rules =
    (Moves-at, MovesAt-if, MovesAt-token, MovesAt-klass, MovesAt-expected, MovesAt-of)

pub expression-Moves :
    {n : ℕ} {b : Builders} → Recurs n b → (priority : ℕ) → Moves 1 n (b.build_expression priority)
expression-Moves h priority = h.expression priority

pub type_ref-Moves : {n : ℕ} {b : Builders} → Recurs n b → Moves 1 n b.build_type_ref
type_ref-Moves h = h.type_ref

pub statement-Moves :
    {n : ℕ} {b : Builders}
    → Recurs n b
    → (type_name : Node) → Moves 1 n (b.build_statement type_name)
statement-Moves h type_name = h.statement type_name

pub ruleset recurs_rules = (expression-Moves, type_ref-Moves, statement-Moves)
