-- ===== src/BuildSymtable/Levels.antt =====
-- build_symtable.c: the walk ends, and leaves the level of the scope as it was.
use dp4c.Prelude.{
  ℕ, zero, suc, ◌+◌, ◌-◌, ◌≤◌, ◌≡◌, refl, ap, ◌∙◌, arith, Option, none, some, Result, Ensures,
  Ensures-bind, Ensures-if, Ensures-mono, returns, stops,
}
use dp4c.Symtable.Entries.{Symtable, push_scope, type_, ident}
use dp4c.Symtable.Ends.{Ends}
use dp4c.Symtable.Levels.{name_is_declared-level, new_type-level, new_ident-level, pop_scope-level}
use dp4c.Syntax.Tree.{
  Tree, Node, Value, Links, null, ast, ast_list, integer, string, operator, no_links, link,
}
use dp4c.BuildSymtable.Names.{
  Action, kind_of, value_at, as_ast, as_list, as_string, as_bool, deref, each_link, in_scope,
  if_list, name_node, declare_type, declare_ident,
}
use dp4c.BuildSymtable.Locals.{
  build_symtable_local_control_declaration, build_symtable_block_statement, is_local_name, is_block,
  is_passed,
}
use dp4c.BuildSymtable.Sizes.{tree_size, value_size, links_size, value_at-size}

-- The run of an action ends, at the level where it began if it returns.
abbrev pub Level : ℕ → Result (Symtable ℕ) → Type 0
Level level r = Ensures (λ t. t.scope_level ≡ level) r

abbrev pub Keeps : Action → Type 0
Keeps m = (t : Symtable ℕ) → Level t.scope_level (m t)

abbrev pub node_size : Node → ℕ
node_size none = 0
node_size (some t) = tree_size t

abbrev pub list_size : Option Links → ℕ
list_size none = 0
list_size (some ls) = links_size ls

pub as_ast-size : (v : Value) → Ensures (λ n. node_size n ≤ value_size v) (as_ast v)
unfolding as_ast value_size
as_ast-size null = returns (omega arith)
as_ast-size (ast t) = returns (omega arith)
as_ast-size (ast_list ls) = stops
as_ast-size (integer n) = stops
as_ast-size (string s) = stops
as_ast-size (operator op) = stops

pub as_list-size : (v : Value) → Ensures (λ ls. list_size ls ≤ value_size v) (as_list v)
unfolding as_list value_size
as_list-size null = returns (omega arith)
as_list-size (ast t) = stops
as_list-size (ast_list ls) = returns (omega arith)
as_list-size (integer n) = stops
as_list-size (string s) = stops
as_list-size (operator op) = stops

pub as_string-Ends : (v : Value) → Ends (as_string v)
unfolding as_string
as_string-Ends null = stops
as_string-Ends (ast t) = stops
as_string-Ends (ast_list ls) = stops
as_string-Ends (integer n) = stops
as_string-Ends (string s) = returns tt
as_string-Ends (operator op) = stops

pub as_bool-Ends : (v : Value) → Ends (as_bool v)
unfolding as_bool
as_bool-Ends null = stops
as_bool-Ends (ast t) = stops
as_bool-Ends (ast_list ls) = stops
as_bool-Ends (integer zero) = returns tt
as_bool-Ends (integer (suc n)) = returns tt
as_bool-Ends (string s) = stops
as_bool-Ends (operator op) = stops

pub deref-node : (n : Node) → Ensures (λ t. tree_size t ≡ node_size n) (deref n)
unfolding deref
deref-node none = stops
deref-node (some t) = returns refl

pub deref-list : (o : Option Links) → Ensures (λ ls. links_size ls ≡ list_size o) (deref o)
unfolding deref
deref-list none = stops
deref-list (some ls) = returns refl

pub Level-Keeps :
    (m : Action) {level : ℕ} (t : Symtable ℕ) → Keeps m → t.scope_level ≡ level → Level level (m t)
Level-Keeps m t h same = Ensures-mono (h t) λ u e. e ∙ same

pub in_scope-Keeps : (body : Action) → Keeps body → Keeps (in_scope body)
unfolding in_scope push_scope
in_scope-Keeps body h t = Ensures-bind (h (push_scope t)) λ t' same.
    Ensures-mono (pop_scope-level t') λ u e.
      e
      ∙ (ap (λ (level : ℕ). level - 1) same)
      ∙ (let k : t.scope_level + 1 - 1 ≡ t.scope_level = omega arith in k)

pub each_link-Keeps :
    (bound : ℕ) (item : Node → Action)
    → ((n : Node) → node_size n ≤ bound → Keeps (item n))
    → (ls : Links) → links_size ls ≤ bound
    → Keeps (each_link item ls)
unfolding each_link links_size
each_link-Keeps bound item h no_links small t = returns refl
each_link-Keeps bound item h (link v ls) small t = Ensures-bind (as_ast-size v) λ n size.
    Ensures-bind (h n (omega arith) t) λ t' same.
      Level-Keeps (each_link item ls) t' (each_link-Keeps bound item h ls (omega arith)) same

pub if_list-Keeps :
    (bound : ℕ) (body : Links → Action)
    → ((ls : Links) → links_size ls ≤ bound → Keeps (body ls))
    → (o : Option Links) → list_size o ≤ bound
    → Keeps (if_list body o)
unfolding if_list
if_list-Keeps bound body h none small t = returns refl
if_list-Keeps bound body h (some ls) small t = h ls small t

pub name_node-Ends : (decl : Tree) → Ends (name_node decl)
unfolding name_node
name_node-Ends decl =
    Ensures-bind (as_ast-size (value_at "name" decl)) λ n _. Ensures-mono (deref-node n) λ t _. tt

pub declare_type-Keeps : (page_size : ℕ) (decl : Tree) → Keeps (declare_type page_size decl)
unfolding declare_type
declare_type-Keeps page_size decl t = Ensures-bind (name_node-Ends decl) λ name _.
    Ensures-bind (as_string-Ends (value_at "name" name)) λ strname _.
      Ensures-bind (name_is_declared-level page_size strname type_ t) λ (declared, t') same.
        Ensures-if declared (λ _. stops)
          (λ _. Ensures-bind (new_type-level page_size strname _ t') λ (s, u) e. returns (e ∙ same))

pub declare_ident-Keeps : (page_size : ℕ) (decl : Tree) → Keeps (declare_ident page_size decl)
unfolding declare_ident
declare_ident-Keeps page_size decl t = Ensures-bind (name_node-Ends decl) λ name _.
    Ensures-bind (as_string-Ends (value_at "name" name)) λ strname _.
      Ensures-bind (name_is_declared-level page_size strname ident t) λ (declared, t') same.
        Ensures-if declared (λ _. stops)
          (λ _.
            Ensures-bind (new_ident-level page_size strname _ t') λ (s, u) e. returns (e ∙ same))

pub local-Keeps :
    (bound : ℕ) (block : Tree → Action) (page_size : ℕ)
    → ((stmt : Tree) → tree_size stmt ≤ bound → Keeps (block stmt))
    → (n : Node) → node_size n ≤ bound
    → Keeps (build_symtable_local_control_declaration block page_size n)
unfolding build_symtable_local_control_declaration
local-Keeps bound block page_size h n small t = Ensures-bind (deref-node n) λ decl size.
    Ensures-if (is_local_name (kind_of decl)) (λ _. declare_ident-Keeps page_size decl t)
      (λ _.
        Ensures-if (is_block (kind_of decl)) (λ _. h decl (omega arith) t)
          (λ _. Ensures-if (is_passed (kind_of decl)) (λ _. returns refl) (λ _. stops)))

pub block_statement-Keeps :
    (fuel page_size : ℕ) (stmt : Tree)
    → tree_size stmt ≤ fuel
    → Keeps (build_symtable_block_statement fuel page_size stmt)
unfolding build_symtable_block_statement
block_statement-Keeps zero page_size stmt small t =
    absurd (omega (arith, value_at-size "stmt_list" stmt))
block_statement-Keeps (suc n) page_size stmt small t =
    in_scope-Keeps _
      (λ t'. Ensures-bind (as_list-size (value_at "stmt_list" stmt)) λ stmt_list size.
        if_list-Keeps n _
          (each_link-Keeps n _ (local-Keeps n _ page_size (block_statement-Keeps n page_size)))
          stmt_list (omega (arith, value_at-size "stmt_list" stmt)) t')
      t
