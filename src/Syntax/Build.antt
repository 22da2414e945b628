-- ===== src/Syntax/Build.antt =====
-- build_ast.c: the state of the parser's functions, and the steps that they are made of. `error` does not
-- return, so `if (test) { ... } else error(...)` is a step that fails unless the test holds.
pub mod Names
pub mod Types
pub mod Expressions
pub mod Operations
pub mod Prototypes
pub mod Structs
pub mod Locals
pub mod Statements
pub mod States
pub mod Tables
pub mod Declarations
pub mod Program
pub mod Moves
pub mod Stands
pub mod Loops
pub mod Refusals
use Prim.Native.String.{String}
use dp4c.Prelude.{
  ℕ, zero, suc, ◌+◌, List, [], ◌∷◌, length, Bool, true, false, Option, none, some, Result, ok,
  failed, out_of_fuel, out_of_bounds, assertion, error, syntax_error, unexpected_token,
  if◌then◌else◌,
}
use dp4c.Prelude
use dp4c.Token.{Token, TokenClass, is, comma}
use dp4c.Chain.{at}
use dp4c.Symtable.Declare
use dp4c.Ast.Kinds.{AstKind, AstAttributeType, AstExprOperator}
use dp4c.Syntax.Tokens.{Parser}
use dp4c.Syntax.Tokens
use dp4c.Syntax.Tree.{Node, Nodes, Tree, Value, set_attr, ast_value, list_value, node, no_more}
use dp4c.Syntax.Tree

-- The globals of build_ast.c, with the page size of the arena. A symbol's `ast` is a node, by its id.
pub record BuildState : Type 0 where
  pub parser : Parser ℕ
  pub page_size : ℕ
  pub node_id : ℕ
  pub node_count : ℕ

abbrev pub Build : Type 0 → Type 0
Build A = BuildState → Result (A × BuildState)

module _ {A : Type 0} where
  unfoldable pub pure : A → Build A
  pure a s = ok (a, s)

  unfoldable pub lift : Result A → Build A
  lift r s = Prelude.◌>>=◌ r λ a. ok (a, s)

module _ {A B : Type 0} where
  infixl 5 ◌>>=◌ ◌>>◌
  unfoldable pub ◌>>=◌ : Build A → (A → Build B) → Build B
  ◌>>=◌ m next s = Prelude.◌>>=◌ (m s) λ (a, s'). next a s'

  abbrev pub ◌>>◌ : Build A → Build B → Build B
  m >> next = m >>= λ _. next

-- What `token` points to, and its class.
unfoldable pub token : Build Token
token s = elim s.parser.token [
  | some i ↦ lift (at s.parser.tokens i) s
  | none ↦ failed out_of_bounds
]

unfoldable pub klass : Build TokenClass
klass = do t ← token; pure t.klass

unfoldable pub fault : {A : Type 0} → Build A
fault s = failed assertion

-- `error("at line %d: <text>, got `%s`.", token->line_nr, token->lexeme)`
unfoldable pub syntax_failure : {A : Type 0} → String → Build A
syntax_failure text = do t ← token; lift (failed (error (syntax_error t.line_nr text t.lexeme)))

-- `error("at line %d: unexpected token `%s`.", token->line_nr, token->lexeme)`
unfoldable pub unexpected : {A : Type 0} → Build A
unexpected = do t ← token; lift (failed (error (unexpected_token t.line_nr t.lexeme)))

-- `if (test) { ... } else error(...)`
unfoldable pub expected : Bool → String → Build (Unit {0})
expected true text = pure tt
expected false text = syntax_failure text

unfoldable pub next_token : Build (Unit {0})
next_token s =
    Prelude.◌>>=◌ (Tokens.next_parser_token s.page_size s.parser)
      λ (i, p). ok (tt, record s { parser = p })

-- The class of the next token, behind which the parser goes back.
unfoldable pub peek_token : Build TokenClass
peek_token s =
    Prelude.◌>>=◌ (Tokens.peek_token s.page_size s.parser)
      λ (i, p). Prelude.◌>>=◌ (at p.tokens i) λ t. ok (t.klass, record s { parser = p })

-- `if (token->klass == k) { next_token(); ... } else error(...)`
unfoldable pub accept : TokenClass → String → Build (Unit {0})
accept k text = do k' ← klass; expected (is k' k) text; next_token

unfoldable pub new_ast_node : AstKind → Build Node
new_ast_node kind = do
  t ← token
  λ s. ok (
    some (node kind s.node_id t.line_nr no_more),
    record s { node_id = s.node_id + 1; node_count = s.node_count + 1 },
  )

-- `new_type(name, node, token->line_nr)`
unfoldable pub new_type : List ℕ → Node → Build (Unit {0})
new_type name none s = failed out_of_bounds
new_type name (some (node kind id line_nr attrs)) s =
    Prelude.◌>>=◌ (Declare.new_type s.page_size name (some id) s.parser.symtable)
      λ (_, t). ok (tt, record s { parser = record s.parser { symtable = t } })

-- The calls of `ast_setattr`, by what the value points to.
unfoldable pub set_ast : Node → String → Node → Build Node
set_ast ast name child = lift (set_attr name AstAttributeType.ast (ast_value child) ast)

unfoldable pub set_list : Node → String → Nodes → Build Node
set_list ast name nodes = lift (set_attr name AstAttributeType.ast_list (list_value nodes) ast)

unfoldable pub set_integer : Node → String → Value → Build Node
set_integer ast name value = lift (set_attr name AstAttributeType.integer value ast)

unfoldable pub set_string : Node → String → List ℕ → Build Node
set_string ast name text = lift (set_attr name AstAttributeType.string (Tree.string text) ast)

unfoldable pub set_operator : Node → String → AstExprOperator → Build Node
set_operator ast name op =
    lift (set_attr name AstAttributeType.expr_operator (Tree.operator op) ast)

-- `while (test(token)) { ... }`, where each round appends a link.
unfoldable pub repeat_while : {A : Type 0} → ℕ → (TokenClass → Bool) → Build A → Build (List A)
repeat_while zero test item = λ s. out_of_fuel
repeat_while (suc n) test item = do
  k ← klass
  if test k then (do a ← item; list ← repeat_while n test item; pure (a ∷ list)) else pure []

-- The rounds that a loop is given: more than there are tokens.
unfoldable pub rounds : Build ℕ
rounds s = ok (length s.parser.tokens + 1, s)

-- A list of one item and of one more as long as the test holds.
unfoldable pub list_while : {A : Type 0} → (TokenClass → Bool) → Build A → Build (List A)
list_while test item = do
  first ← item
  n ← rounds
  list ← repeat_while n test item
  pure (first ∷ list)

-- A list of items with a comma between each two.
unfoldable pub list_by_comma : {A : Type 0} → Build A → Build (List A)
list_by_comma item = do
  first ← item
  n ← rounds
  list ← repeat_while n (λ k. is k comma) (next_token >> item)
  pure (first ∷ list)

-- A list that is a null pointer where the test does not hold.
unfoldable pub optional_list : (TokenClass → Bool) → Build (List Node) → Build Nodes
optional_list test list = do
  k ← klass
  if test k then (do nodes ← list; pure (some nodes)) else pure none

-- The functions that are declared before they are defined, and `build_parserStatement`.
pub record Builders : Type 0 where
  pub build_expression : ℕ → Build Node
  pub build_type_ref : Build Node
  pub build_statement : Node → Build Node
  pub build_parser_statement : Build Node
