-- ===== src/Syntax/Build/Moves/Expressions.antt =====
-- How far expressions go: the operators, and the loop over them.
use dp4c.Prelude.{
  Bool-cases, inl, inr, ℕ, zero, suc, ◌+◌, ◌<◌, arith, length, Bool, true, false, Option, none,
  some, Ensures, Ensures-bind, Ensures-mono, returns, stops, if◌then◌else◌,
}
use dp4c.Token.{TokenClass}
use dp4c.Syntax.Operators.{get_operator_priority}
use dp4c.Syntax.Classes.{token_is_expr_operator}
use dp4c.Syntax.Tree.{Node}
use dp4c.Syntax.Build.{BuildState, Build, Builders, pure, lift, ◌>>=◌, fault, rounds}
use dp4c.Syntax.Build.Expressions.{build_expression_primary}
use dp4c.Syntax.Build.Operations.{
  go_on, member_select, indexed_array, function_call, opens_type_args, type_args, kv_pair,
  binary_expr, binary_operation, operation, after_round, expression_loop, build_expression,
}
use dp4c.Syntax.Build.Moves.{left, Moved, Moves, Recurs, Moves-bind, Moves-lift}
use dp4c.Syntax.Build.Moves.Here.{klass_here}
use dp4c.Syntax.Build.Moves.Steps.{Moves-klass, Moves-expected}
use dp4c.Syntax.Build.Moves.Lists.{moves_rules, recurs_rules}
use dp4c.Syntax.Build.Moves.Names.{names_moves}
use dp4c.Syntax.Build.Moves.Types.{types_moves}
use dp4c.Syntax.Build.Moves.Primaries.{primaries_moves}
use dp4c.Syntax.Build.Moves.Literals.{build_expression_primary-Moves, get_operator_priority-Ends}

member_select-Moves : {n : ℕ} (expr : Node) → Moves 1 n (member_select expr)
unfolding member_select
member_select-Moves expr = search (moves_rules, names_moves) depth 60 fits 6000

module _ {n : ℕ} {b : Builders} (h : Recurs n b) where
  indexed_array-Moves : (expr : Node) → Moves 1 (suc n) (indexed_array b expr)
  unfolding indexed_array
  indexed_array-Moves expr = search (moves_rules, primaries_moves) depth 60 fits 6000

  function_call-Moves : (expr : Node) → Moves 1 (suc n) (function_call b expr)
  unfolding function_call
  function_call-Moves expr = search (moves_rules, primaries_moves) depth 60 fits 6000

  type_args-Moves : (expr : Node) → Moves 1 (suc n) (type_args b expr)
  unfolding type_args
  type_args-Moves expr = search (moves_rules, types_moves) depth 60 fits 6000

  kv_pair-Moves : (expr : Node) → Moves 1 (suc n) (kv_pair b expr)
  unfolding kv_pair
  kv_pair-Moves expr = search (moves_rules, recurs_rules) depth 60 fits 6000

  binary_expr-Moves :
      (priority : ℕ) (k : TokenClass) (expr : Node)
      → Moves 1 (suc n) (binary_expr b priority k expr)
  unfolding binary_expr
  binary_expr-Moves priority k expr = search (moves_rules, recurs_rules) depth 60 fits 6000

-- A round of the loop that goes on has passed a token.
abbrev passed : Option Node → ℕ
passed none = 0
passed (some expr) = 1

record Rounds (n : ℕ) (m : Build (Option Node)) : Type 0 where
  at :
      (s : BuildState)
      → left s < n
      → Ensures (λ (r : Option Node × BuildState). Moved (passed r.0) s r.1) (m s)

Rounds-if :
    {n : ℕ} (c : Bool) (x y : Build (Option Node))
    → Rounds n x
    → Rounds n y
    → Rounds n (if c then x else y)
Rounds-if true x y hx hy = hx
Rounds-if false x y hx hy = hy

Rounds-bind :
    {A : Type 0} {n : ℕ} (m : Build A) (f : A → Build (Option Node))
    → Moves 0 n m
    → ((a : A) → Rounds n (f a))
    → Rounds n (m >>= f)
unfolding ◌>>=◌
Rounds-bind m f hm hf = record {
  at = λ s low.
      Ensures-bind (hm.at s low)
        λ (a, s') moved. Ensures-mono ((hf a).at s' (omega arith)) λ r moved'. omega arith;
}

Rounds-go_on : {n : ℕ} (m : Build Node) → Moves 1 n m → Rounds n (go_on m)
unfolding go_on ◌>>=◌ pure
Rounds-go_on m h = record {
  at = λ s low. Ensures-bind (h.at s low) λ (expr, s') moved. returns moved;
}

Rounds-none : {n : ℕ} → Rounds n (pure none)
unfolding pure
Rounds-none = record { at = λ s low. returns (omega arith) }

Rounds-fault : {n : ℕ} → Rounds n fault
unfolding fault
Rounds-fault = record { at = λ s low. stops }

opens_type_args-Moves : {n : ℕ} (k : TokenClass) → Moves 0 n (opens_type_args k)
unfolding opens_type_args
opens_type_args-Moves k = search moves_rules depth 60 fits 6000

priority-Moves : {n : ℕ} (k : TokenClass) → Moves 0 n (lift (get_operator_priority k))
priority-Moves k = Moves-lift _ (get_operator_priority-Ends k)

ruleset rounds_rules = (
  Rounds-if, Rounds-bind, Rounds-go_on, Rounds-none, Rounds-fault, opens_type_args-Moves,
  priority-Moves,
)

module _ {n : ℕ} {b : Builders} (h : Recurs n b) where
  binary_operation-Rounds :
      (threshold : ℕ) (k : TokenClass) (expr : Node)
      → Rounds (suc n) (binary_operation b threshold k expr)
  unfolding binary_operation
  binary_operation-Rounds threshold k expr =
      search (rounds_rules, binary_expr-Moves) depth 60 fits 6000

  operation-Rounds :
      (threshold : ℕ) (k : TokenClass) (expr : Node) → Rounds (suc n) (operation b threshold k expr)
  unfolding operation
  operation-Rounds threshold k expr =
      search
        (
          rounds_rules, member_select-Moves, indexed_array-Moves, function_call-Moves,
          type_args-Moves, kv_pair-Moves, binary_operation-Rounds,
        )
        depth 60 fits 6000

  after_round-ends :
      (again : Node → Build Node) (expr : Node) (next : Option Node) (s t : BuildState)
      → Moved (passed next) s t
      → ((expr' : Node)
          → Moved 1 s t
          → Ensures (λ (r : Node × BuildState). Moved 0 t r.1) (again expr' t))
      → Ensures (λ (r : Node × BuildState). Moved 0 s r.1) (after_round again expr next t)
  unfolding after_round pure
  after_round-ends again expr none s t moved h = returns moved
  after_round-ends again expr (some expr') s t moved h =
      Ensures-mono (h expr' moved) λ r moved'. omega arith

  -- The loop ends within more rounds than there are tokens.
  expression_loop-ends :
      (m threshold : ℕ) (expr : Node) (s : BuildState)
      → left s < suc n
      → left s < m
      → Ensures (λ (r : Node × BuildState). Moved 0 s r.1) (expression_loop b m threshold expr s)
  unfolding expression_loop ◌>>=◌ pure
  expression_loop-ends zero threshold expr s low few = absurd (omega arith)
  expression_loop-ends (suc m) threshold expr s low few =
      Ensures-bind (klass_here s) λ (k, s') (t, now, same, stay).
        rw stay (elim (Bool-cases (token_is_expr_operator k)) [
          | inl e ↦ rw e (
              Ensures-bind ((operation-Rounds threshold k expr).at s low) λ (next, u) moved.
                after_round-ends (expression_loop b m threshold) expr next s u moved λ expr' moved'.
                  expression_loop-ends m threshold expr' u (omega arith) (omega arith))
          | inr e ↦ rw e (returns (omega arith))
        ])

  primary_behind :
      (threshold : ℕ)
      → Moves 1 (suc n) (
          build_expression_primary b >>= λ expr. rounds >>= λ m. expression_loop b m threshold expr)
  unfolding ◌>>=◌ rounds
  primary_behind threshold = record {
    at = λ s low. Ensures-bind ((build_expression_primary-Moves h).at s low) λ (expr, t) moved.
        Ensures-mono
          (expression_loop-ends (length t.parser.tokens + 1) threshold expr t (omega arith)
            (omega arith))
          λ r moved'. omega arith;
  }

  pub build_expression-Moves : (threshold : ℕ) → Moves 1 (suc n) (build_expression b threshold)
  unfolding build_expression
  build_expression-Moves threshold =
      Moves-bind _ _ Moves-klass
        λ k. Moves-bind _ _ (Moves-expected _ _) λ _. primary_behind threshold
