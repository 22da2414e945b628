-- ===== src/Syntax/Build/Moves.antt =====
-- How far the parser's functions go: rules for the steps that they are made of.
pub mod Steps
pub mod Here
pub mod Lists
pub mod Names
pub mod Types
pub mod Primaries
pub mod Literals
pub mod Expressions
pub mod Structs
pub mod Locals
pub mod Prototypes
pub mod Tables
pub mod Statements
pub mod Controls
pub mod Declarations
pub mod Knot
use Prim.Native.String.{String}
use dp4c.Prelude.{
  ℕ, zero, suc, ◌+◌, ◌-◌, ◌≤◌, ◌<◌, ◌≡◌, refl, ap, inl, inr, arith, List, [], ◌∷◌, length,
  length-set, Bool, true, false, Bool-cases, Option, none, some, Result, ok, failed, out_of_fuel,
  Ensures, Ensures-bind, Ensures-of_eq, Ensures-mono, ◌∙◌, Ensures-ne_fuel, out_of_bounds, returns,
  stops, if◌then◌else◌,
}
use dp4c.Prelude
use dp4c.Token.{Token, TokenClass, is}
use dp4c.Chain.{at}
use dp4c.Symtable.Ends.{Ends, ends_rules, at-Ends, new_type-Ends}
use dp4c.Syntax.Ends.{next_parser_token-Ends}
use dp4c.Symtable.Entries.{Symtable}
use dp4c.Ast.Kinds.{AstKind, AstAttributeType, AstExprOperator}
use dp4c.Syntax.Tokens.{Parser, next_parser_token}
use dp4c.Syntax.Tokens
use dp4c.Syntax.Stepping.{Stops, next_parser_token_lem}
use dp4c.Syntax.Tree.{Node, Nodes, Value, set_attr, node}
use dp4c.Syntax.Build.{
  BuildState, Build, Builders, pure, lift, ◌>>=◌, ◌>>◌, token, klass, fault, syntax_failure,
  unexpected, expected, next_token, peek_token, accept, new_ast_node, new_type, set_ast, set_list,
  set_integer, set_string, set_operator, repeat_while, rounds, list_while, list_by_comma,
  optional_list,
}

-- The tokens from the one that the parser stands at.
abbrev pub left : BuildState → ℕ
left s = length s.parser.tokens - s.parser.token_at

-- From `s` to `t` the parser has passed `d` tokens or more, and each node that it has counted has a new
-- id.
pub record Moved (d : ℕ) (s t : BuildState) : Type 0 where
  pub shorter : left t + d ≤ left s
  pub ids : s.node_id ≤ t.node_id
  pub counted : t.node_count + s.node_id ≡ s.node_count + t.node_id

pub record Moves {A : Type 0} (d n : ℕ) (m : Build A) : Type 0 where
  pub at : (s : BuildState) → left s < n → Ensures (λ (r : A × BuildState). Moved d s r.1) (m s)

module _ {A : Type 0} where
  pub Moves-lower : {d n : ℕ} {m : Build A} → Moves d (suc n) m → Moves d n m
  Moves-lower h = record { at = λ s low. h.at s (omega arith) }

  pub Moves-weaken : {n : ℕ} {m : Build A} → Moves 1 n m → Moves 0 n m
  Moves-weaken h = record { at = λ s low. Ensures-mono (h.at s low) λ r moved. omega arith }

  pub Moves-pure : {n : ℕ} (a : A) → Moves 0 n (pure a)
  unfolding pure
  Moves-pure a = record { at = λ s low. returns (omega arith) }

  pub Moves-lift : {n : ℕ} (r : Result A) → Ends r → Moves 0 n (lift r)
  unfolding lift
  Moves-lift r ends = record { at = λ s low. Ensures-bind ends λ a _. returns (omega arith) }

  pub Moves-fault : {d n : ℕ} → Moves {A = A} d n fault
  unfolding fault
  Moves-fault = record { at = λ s low. stops }

  pub Moves-if :
      {d n : ℕ} (b : Bool) (x y : Build A)
      → Moves d n x
      → Moves d n y
      → Moves d n (if b then x else y)
  Moves-if true x y hx hy = hx
  Moves-if false x y hx hy = hy

module _ {A B : Type 0} where
  -- The rest of a `do` block behind a step: it has as much to do as before, or the step has done it.
  pub Moves-bind :
      {d n : ℕ} (m : Build A) (f : A → Build B)
      → Moves 0 n m
      → ((a : A) → Moves d n (f a))
      → Moves d n (m >>= f)
  unfolding ◌>>=◌
  Moves-bind m f hm hf = record {
    at = λ s low.
        Ensures-bind (hm.at s low)
          λ (a, s') moved. Ensures-mono ((hf a).at s' (omega arith)) λ r moved'. omega arith;
  }

  pub Moves-bind_done :
      {n : ℕ} (m : Build A) (f : A → Build B)
      → Moves 1 n m
      → ((a : A) → Moves 0 n (f a))
      → Moves 1 n (m >>= f)
  unfolding ◌>>=◌
  Moves-bind_done m f hm hf = record {
    at = λ s low.
        Ensures-bind (hm.at s low)
          λ (a, s') moved. Ensures-mono ((hf a).at s' (omega arith)) λ r moved'. omega arith;
  }

  pub Moves-bind_weaken :
      {n : ℕ} (m : Build A) (f : A → Build B)
      → Moves 1 n m
      → ((a : A) → Moves 0 n (f a))
      → Moves 0 n (m >>= f)
  Moves-bind_weaken m f hm hf = Moves-bind m f (Moves-weaken hm) hf

  -- Behind a step that passes a token, one token less is left.
  pub Moves-bind_suc :
      {n : ℕ} (m : Build A) (f : A → Build B)
      → Moves 1 (suc n) m
      → ((a : A) → Moves 0 n (f a))
      → Moves 1 (suc n) (m >>= f)
  unfolding ◌>>=◌
  Moves-bind_suc m f hm hf = record {
    at = λ s low.
        Ensures-bind (hm.at s low)
          λ (a, s') moved. Ensures-mono ((hf a).at s' (omega arith)) λ r moved'. omega arith;
  }

-- The functions that are declared before they are defined pass a token, and end, where `n` tokens are
-- left.
pub record Recurs (n : ℕ) (b : Builders) : Type 0 where
  pub expression : (priority : ℕ) → Moves 1 n (b.build_expression priority)
  pub type_ref : Moves 1 n b.build_type_ref
  pub statement : (type_name : Node) → Moves 1 n (b.build_statement type_name)
