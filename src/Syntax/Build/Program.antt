-- ===== src/Syntax/Build/Program.antt =====
-- build_ast.c: the program, and the functions tied together. A call of one of the functions of
-- `Builders` takes one of the fuel, so the fuel bounds their nesting.
use dp4c.Prelude.{
  ℕ, zero, suc, ◌+◌, ◌||◌, List, [], ◌∷◌, ltb, Bool, not, true, false, none, some, Result, ok,
  out_of_fuel, assert, if◌then◌else◌,
}
use dp4c.Prelude
use dp4c.Token.{Token, is, semicolon, end_of_input}
use dp4c.Chain.{at}
use dp4c.Symtable.Entries.{Symtable}
use dp4c.Ast.Kinds.{AstKind}
use dp4c.Syntax.Classes.{token_is_declaration}
use dp4c.Syntax.Tree.{Node}
use dp4c.Syntax.Build.{
  Build, BuildState, Builders, pure, ◌>>=◌, ◌>>◌, klass, unexpected, next_token, rounds,
  new_ast_node, set_list,
}
use dp4c.Syntax.Build.Types
use dp4c.Syntax.Build.Operations
use dp4c.Syntax.Build.Statements
use dp4c.Syntax.Build.States
use dp4c.Syntax.Build.Declarations.{build_declaration}

unfoldable pub builders : ℕ → Builders
builders zero = record {
  build_expression = λ priority s. out_of_fuel;
  build_type_ref = λ s. out_of_fuel;
  build_statement = λ type_name s. out_of_fuel;
  build_parser_statement = λ s. out_of_fuel;
}
builders (suc fuel) = record {
  build_expression = Operations.build_expression (builders fuel);
  build_type_ref = Types.build_type_ref (builders fuel);
  build_statement = Statements.build_statement (builders fuel);
  build_parser_statement = States.build_parser_statement (builders fuel);
}

-- `while (token_is_declaration(token) || token->klass == Token_Semicolon) { ... }`
unfoldable pub declarations : Builders → ℕ → Build (List Node)
declarations b zero = λ s. out_of_fuel
declarations b (suc n) = do
  k ← klass
  if token_is_declaration k
      then (do decl ← build_declaration b; decls ← declarations b n; pure (decl ∷ decls))
      else if is k semicolon
      then (do next_token; declarations b n)
      else pure []

unfoldable pub build_p4program : Builders → Build Node
unfolding declarations
build_p4program b = do
  program ← new_ast_node AstKind.p4_program
  n ← rounds
  decls ← declarations b n
  program ← set_list program "decl_list" (some decls)
  k ← klass
  if is k end_of_input then pure program else unexpected

-- The state that `build_ast_program` starts from, at the first token, which is the mark of the start.
unfoldable pub build_ast_program : ℕ → ℕ → List Token → Symtable ℕ → Result (Node × BuildState)
build_ast_program fuel page_size tokens symtable = Prelude.◌>>=◌ (at tokens 0) λ _.
    (next_token >> build_p4program (builders fuel)) (record {
      parser = record {
        tokens = tokens;
        token_at = 0;
        token = some 0;
        prev_token_at = 0;
        prev_token = none;
        symtable = symtable;
      };
      page_size = page_size;
      node_id = 1;
      node_count = 0;
    })
