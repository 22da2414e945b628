-- ===== src/Syntax/Build/Moves/Prototypes.antt =====
-- How far parameters and prototypes go.
use dp4c.Prelude.{ℕ, Bool}
use dp4c.Token.{TokenClass}
use dp4c.Syntax.Tree.{Node}
use dp4c.Syntax.Build.{Builders}
use dp4c.Syntax.Build.Prototypes.{
  build_parameter, build_parameter_list, parameters, build_type_or_void, build_function_prototype,
  is_constructor, build_constructor, build_method_prototype, build_method_prototypes,
  is_function_proto, extern_object,
}
use dp4c.Syntax.Build.Moves.Names.{names_moves}
use dp4c.Syntax.Build.Moves.Locals.{given_or-Moves}
use dp4c.Syntax.Build.Moves.{Moves, Recurs}
use dp4c.Syntax.Build.Moves.Lists.{moves_rules, recurs_rules}

module _ {n : ℕ} {b : Builders} (h : Recurs n b) where
  pub build_parameter-Moves : Moves 1 n (build_parameter b)
  unfolding build_parameter
  build_parameter-Moves = search (moves_rules, names_moves, recurs_rules) depth 60 fits 6000

  pub build_parameter_list-Moves : Moves 0 n (build_parameter_list b)
  unfolding build_parameter_list
  build_parameter_list-Moves =
      search (moves_rules, names_moves, recurs_rules, build_parameter-Moves) depth 60 fits 6000

  pub parameters-Moves : (decl : Node) → Moves 1 n (parameters b decl)
  unfolding parameters
  parameters-Moves decl =
      search (moves_rules, names_moves, recurs_rules, build_parameter_list-Moves) depth 60 fits 6000

  pub build_type_or_void-Moves : (is_type : Bool) → Moves 1 n (build_type_or_void b is_type)
  unfolding build_type_or_void
  build_type_or_void-Moves is_type =
      search (moves_rules, names_moves, recurs_rules) depth 60 fits 6000

  pub build_function_prototype-Moves :
      (type_ref : Node) → Moves 1 n (build_function_prototype b type_ref)
  unfolding build_function_prototype
  build_function_prototype-Moves type_ref =
      search
        (
          moves_rules, names_moves, recurs_rules, given_or-Moves, build_parameter_list-Moves,
          build_type_or_void-Moves,
        )
        depth 60 fits 6000

  pub is_constructor-Moves : (k : TokenClass) → Moves 0 n (is_constructor b k)
  unfolding is_constructor
  is_constructor-Moves k = search (moves_rules, names_moves, recurs_rules) depth 60 fits 6000

  pub build_constructor-Moves : Moves 1 n (build_constructor b)
  unfolding build_constructor
  build_constructor-Moves =
      search (moves_rules, names_moves, recurs_rules, build_parameter_list-Moves) depth 60 fits 6000

  pub build_method_prototype-Moves : Moves 1 n (build_method_prototype b)
  unfolding build_method_prototype
  build_method_prototype-Moves =
      search
        (
          moves_rules, names_moves, recurs_rules, build_function_prototype-Moves,
          is_constructor-Moves, build_constructor-Moves,
        )
        depth 60 fits 6000

  pub build_method_prototypes-Moves : Moves 0 n (build_method_prototypes b)
  unfolding build_method_prototypes
  build_method_prototypes-Moves =
      search (moves_rules, names_moves, recurs_rules, build_method_prototype-Moves) depth 60 fits
        6000

  pub is_function_proto-Moves : (k : TokenClass) → Moves 0 n (is_function_proto b k)
  unfolding is_function_proto
  is_function_proto-Moves k = search (moves_rules, names_moves, recurs_rules) depth 60 fits 6000

  pub extern_object-Moves : (extern_decl : Node) → Moves 1 n (extern_object b extern_decl)
  unfolding extern_object
  extern_object-Moves extern_decl =
      search (moves_rules, names_moves, recurs_rules, build_method_prototypes-Moves) depth 60 fits
        6000

  pub ruleset prototypes_moves = (
    given_or-Moves, build_parameter-Moves, build_parameter_list-Moves, parameters-Moves,
    build_type_or_void-Moves, build_function_prototype-Moves, is_constructor-Moves,
    build_constructor-Moves, build_method_prototype-Moves, build_method_prototypes-Moves,
    is_function_proto-Moves, extern_object-Moves,
  )
