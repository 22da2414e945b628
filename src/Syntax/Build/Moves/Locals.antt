-- ===== src/Syntax/Build/Moves/Locals.antt =====
-- How far variables, instantiations, applications, assignments and calls go.
use dp4c.Prelude.{ℕ, suc, none, some}
use dp4c.Syntax.Tree.{Node, Nodes}
use dp4c.Syntax.Build.{Build, Builders}
use dp4c.Syntax.Build.Locals.{
  build_variable_declaration, build_instantiation, typed_local, build_direct_application,
  build_lvalue_expr, build_lvalue, opt_type_args, method_call, assignment,
  build_assignment_or_method_call_statement,
}
use dp4c.Syntax.Build.Moves.Names.{names_moves}
use dp4c.Syntax.Build.Moves.Types.{types_moves}
use dp4c.Syntax.Build.Moves.Primaries.{primaries_moves}
use dp4c.Syntax.Build.Moves.Structs.{structs_moves}
use dp4c.Syntax.Build.Prototypes.{given_or}
use dp4c.Syntax.Build.Moves.{Moves-pure}
use dp4c.Syntax.Build.Moves.{Moves, Moves-weaken, Recurs}
use dp4c.Syntax.Build.Moves.Lists.{moves_rules, recurs_rules}

pub given_or-Moves :
    {n : ℕ} (read : Build Node) (type : Node) → Moves 1 n read → Moves 0 n (given_or read type)
unfolding given_or
given_or-Moves read none h = Moves-weaken h
given_or-Moves read (some type) h = Moves-pure (some type)

module _ {n : ℕ} {b : Builders} (h : Recurs n b) where
  pub build_variable_declaration-Moves :
      (type_ref : Node) → Moves 1 n (build_variable_declaration b type_ref)
  unfolding build_variable_declaration
  build_variable_declaration-Moves type_ref =
      search
        (
          moves_rules, names_moves, types_moves, primaries_moves, structs_moves, recurs_rules,
          given_or-Moves,
        )
        depth 60 fits 6000

  pub build_instantiation-Moves : (type_ref : Node) → Moves 1 n (build_instantiation b type_ref)
  unfolding build_instantiation
  build_instantiation-Moves type_ref =
      search
        (
          moves_rules, names_moves, types_moves, primaries_moves, structs_moves, recurs_rules,
          given_or-Moves,
        )
        depth 60 fits 6000

  pub typed_local-Moves : Moves 1 n (typed_local b)
  unfolding typed_local
  typed_local-Moves =
      search
        (
          Moves-weaken, moves_rules, names_moves, types_moves, primaries_moves, structs_moves,
          recurs_rules, build_variable_declaration-Moves, build_instantiation-Moves,
        )
        depth 60 fits 6000

  pub build_direct_application-Moves :
      (type_name : Node) → Moves 1 (suc n) (build_direct_application b type_name)
  unfolding build_direct_application
  build_direct_application-Moves type_name =
      search
        (
          moves_rules, names_moves, types_moves, primaries_moves, structs_moves, recurs_rules,
          given_or-Moves,
        )
        depth 60 fits 6000

  pub build_lvalue_expr-Moves : Moves 1 n (build_lvalue_expr b)
  unfolding build_lvalue_expr
  build_lvalue_expr-Moves =
      search (moves_rules, names_moves, types_moves, primaries_moves, structs_moves, recurs_rules)
        depth 60 fits 6000

  pub build_lvalue-Moves : Moves 1 (suc n) (build_lvalue b)
  unfolding build_lvalue
  build_lvalue-Moves =
      search
        (
          moves_rules, names_moves, types_moves, primaries_moves, structs_moves, recurs_rules,
          build_lvalue_expr-Moves,
        )
        depth 60 fits 6000

  pub opt_type_args-Moves : Moves 0 n (opt_type_args b)
  unfolding opt_type_args
  opt_type_args-Moves =
      search (moves_rules, names_moves, types_moves, primaries_moves, structs_moves, recurs_rules)
        depth 60 fits 6000

  pub method_call-Moves :
      (lvalue : Node) (type_args : Nodes) → Moves 1 n (method_call b lvalue type_args)
  unfolding method_call
  method_call-Moves lvalue type_args =
      search (moves_rules, names_moves, types_moves, primaries_moves, structs_moves, recurs_rules)
        depth 60 fits 6000

  pub assignment-Moves : (lvalue : Node) → Moves 1 n (assignment b lvalue)
  unfolding assignment
  assignment-Moves lvalue =
      search (moves_rules, names_moves, types_moves, primaries_moves, structs_moves, recurs_rules)
        depth 60 fits 6000

  pub build_assignment_or_method_call_statement-Moves :
      Moves 1 (suc n) (build_assignment_or_method_call_statement b)
  unfolding build_assignment_or_method_call_statement
  build_assignment_or_method_call_statement-Moves =
      search
        (
          moves_rules, names_moves, types_moves, primaries_moves, structs_moves, recurs_rules,
          build_lvalue-Moves, opt_type_args-Moves, method_call-Moves, assignment-Moves,
        )
        depth 60 fits 6000

  pub ruleset locals_moves = (
    given_or-Moves, build_variable_declaration-Moves, build_instantiation-Moves, typed_local-Moves,
    build_direct_application-Moves, build_lvalue_expr-Moves, build_lvalue-Moves,
    opt_type_args-Moves, method_call-Moves, assignment-Moves,
    build_assignment_or_method_call_statement-Moves,
  )
