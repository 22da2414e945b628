-- ===== src/Syntax/Build/Moves/Controls.antt =====
-- How far controls go, and the declarations that they are made of.
use dp4c.Prelude.{ℕ}
use dp4c.Ast.Kinds.{AstKind}
use dp4c.Syntax.Tree.{Node}
use dp4c.Syntax.Build.{Builders}
use dp4c.Syntax.Build.Statements.{build_action_declaration}
use dp4c.Syntax.Build.States.{type_declaration, build_opt_constructor_parameters}
use dp4c.Syntax.Build.Declarations.{
  build_control_type_declaration, build_control_local_declaration, build_control_local_declarations,
  control_body, build_control_declaration, build_package_type_declaration,
  build_typedef_declaration, build_function_declaration, typed_declaration,
}
use dp4c.Syntax.Build.Moves.Names.{names_moves}
use dp4c.Syntax.Build.Moves.Structs.{structs_moves}
use dp4c.Syntax.Build.Moves.Prototypes.{prototypes_moves}
use dp4c.Syntax.Build.Moves.Tables.{tables_moves}
use dp4c.Syntax.Build.Moves.Locals.{locals_moves}
use dp4c.Syntax.Build.Moves.Prototypes.{parameters-Moves}
use dp4c.Syntax.Build.Moves.Statements.{build_block_statement-Moves}
use dp4c.Syntax.Build.Moves.{Moves, Moves-lower, Moves-weaken, Recurs}
use dp4c.Syntax.Build.Moves.Lists.{moves_rules, recurs_rules}

module _ {n : ℕ} {b : Builders} (h : Recurs n b) where
  pub build_action_declaration-Moves : Moves 1 n (build_action_declaration b)
  unfolding build_action_declaration
  build_action_declaration-Moves =
      let block = Moves-lower (build_block_statement-Moves h) in
      search
        (
          moves_rules, names_moves, structs_moves, prototypes_moves, tables_moves, locals_moves,
          recurs_rules,
        )
        depth 60 fits 6000

  pub type_declaration-Moves : (kind : AstKind) → Moves 1 n (type_declaration b kind)
  unfolding type_declaration
  type_declaration-Moves kind =
      let rest = λ (type : Node). Moves-weaken (parameters-Moves h type) in
      search
        (
          moves_rules, names_moves, structs_moves, prototypes_moves, tables_moves, locals_moves,
          recurs_rules,
        )
        depth 60 fits 6000

  pub build_opt_constructor_parameters-Moves : Moves 0 n (build_opt_constructor_parameters b)
  unfolding build_opt_constructor_parameters
  build_opt_constructor_parameters-Moves =
      search
        (
          moves_rules, names_moves, structs_moves, prototypes_moves, tables_moves, locals_moves,
          recurs_rules,
        )
        depth 60 fits 6000

  pub build_control_type_declaration-Moves : Moves 1 n (build_control_type_declaration b)
  unfolding build_control_type_declaration
  build_control_type_declaration-Moves =
      let rest = Moves-weaken (type_declaration-Moves AstKind.control_type) in
      search
        (
          moves_rules, names_moves, structs_moves, prototypes_moves, tables_moves, locals_moves,
          recurs_rules,
        )
        depth 60 fits 6000

  pub build_control_local_declaration-Moves : Moves 1 n (build_control_local_declaration b)
  unfolding build_control_local_declaration
  build_control_local_declaration-Moves =
      search
        (
          moves_rules, names_moves, structs_moves, prototypes_moves, tables_moves, locals_moves,
          recurs_rules, build_action_declaration-Moves,
        )
        depth 60 fits 6000

  pub build_control_local_declarations-Moves : Moves 0 n (build_control_local_declarations b)
  unfolding build_control_local_declarations
  build_control_local_declarations-Moves =
      search
        (
          moves_rules, names_moves, structs_moves, prototypes_moves, tables_moves, locals_moves,
          recurs_rules, build_control_local_declaration-Moves,
        )
        depth 60 fits 6000

  pub control_body-Moves : (decl : Node) → Moves 1 n (control_body b decl)
  unfolding control_body
  control_body-Moves decl =
      let block = Moves-lower (build_block_statement-Moves h) in
      search
        (
          moves_rules, names_moves, structs_moves, prototypes_moves, tables_moves, locals_moves,
          recurs_rules, build_opt_constructor_parameters-Moves,
          build_control_local_declarations-Moves,
        )
        depth 60 fits 6000

  pub build_control_declaration-Moves : Moves 1 n (build_control_declaration b)
  unfolding build_control_declaration
  build_control_declaration-Moves =
      let rest = λ (decl : Node). Moves-weaken (control_body-Moves decl) in
      search
        (
          moves_rules, names_moves, structs_moves, prototypes_moves, tables_moves, locals_moves,
          recurs_rules, build_control_type_declaration-Moves,
        )
        depth 60 fits 6000

  pub build_package_type_declaration-Moves : Moves 1 n (build_package_type_declaration b)
  unfolding build_package_type_declaration
  build_package_type_declaration-Moves =
      let rest = Moves-weaken (type_declaration-Moves AstKind.package_) in
      search
        (
          moves_rules, names_moves, structs_moves, prototypes_moves, tables_moves, locals_moves,
          recurs_rules,
        )
        depth 60 fits 6000

  pub build_typedef_declaration-Moves : Moves 1 n (build_typedef_declaration b)
  unfolding build_typedef_declaration
  build_typedef_declaration-Moves =
      search
        (
          moves_rules, names_moves, structs_moves, prototypes_moves, tables_moves, locals_moves,
          recurs_rules,
        )
        depth 60 fits 6000

  pub build_function_declaration-Moves :
      (type_ref : Node) → Moves 1 n (build_function_declaration b type_ref)
  unfolding build_function_declaration
  build_function_declaration-Moves type_ref =
      let block = Moves-lower (build_block_statement-Moves h) in
      search
        (
          moves_rules, names_moves, structs_moves, prototypes_moves, tables_moves, locals_moves,
          recurs_rules,
        )
        depth 60 fits 6000

  pub typed_declaration-Moves : Moves 1 n (typed_declaration b)
  unfolding typed_declaration
  typed_declaration-Moves =
      search
        (
          Moves-weaken, moves_rules, names_moves, structs_moves, prototypes_moves, tables_moves,
          locals_moves, recurs_rules, build_function_declaration-Moves,
        )
        depth 60 fits 6000

  pub ruleset controls_moves = (
    build_action_declaration-Moves, type_declaration-Moves, build_opt_constructor_parameters-Moves,
    build_control_type_declaration-Moves, build_control_local_declaration-Moves,
    build_control_local_declarations-Moves, control_body-Moves, build_control_declaration-Moves,
    build_package_type_declaration-Moves, build_typedef_declaration-Moves,
    build_function_declaration-Moves, typed_declaration-Moves,
  )
