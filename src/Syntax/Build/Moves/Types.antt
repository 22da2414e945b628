-- ===== src/Syntax/Build/Moves/Types.antt =====
-- How far the functions of types go, where the functions that are declared before go far enough.
use dp4c.Prelude.{ℕ, suc}
use dp4c.Ast.Kinds.{AstBaseTypeKind}
use dp4c.Syntax.Tree.{Node}
use dp4c.Syntax.Build.{Builders}
use dp4c.Syntax.Build.Types.{
  build_type_arg, build_integer_type_size, type_size, build_base_type, build_type_argument_list,
  build_tuple_type, build_header_stack_type, build_specialized_type, build_type_name,
  build_type_ref, build_real_type_arg, build_real_type_argument_list,
}
use dp4c.Syntax.Build.Moves.Names.{names_moves}
use dp4c.Syntax.Build.Types.{base_type_of}
use dp4c.Syntax.Build.Moves.{Moves, Moves-weaken, Recurs}
use dp4c.Syntax.Build.Moves.Lists.{moves_rules, recurs_rules}

pub base_type_of-Moves :
    {n : ℕ} (kind : AstBaseTypeKind) (base_type : Node) → Moves 1 n (base_type_of kind base_type)
unfolding base_type_of
base_type_of-Moves kind base_type = search moves_rules depth 60 fits 6000

module _ {n : ℕ} {b : Builders} (h : Recurs n b) where
  pub build_type_arg-Moves : Moves 1 n (build_type_arg b)
  unfolding build_type_arg
  build_type_arg-Moves = search (moves_rules, names_moves, recurs_rules) depth 60 fits 6000

  pub build_integer_type_size-Moves : Moves 0 n (build_integer_type_size b)
  unfolding build_integer_type_size
  build_integer_type_size-Moves =
      search (Moves-weaken, moves_rules, names_moves, recurs_rules) depth 60 fits 6000

  pub type_size-Moves : (base_type : Node) → Moves 0 n (type_size b base_type)
  unfolding type_size
  type_size-Moves base_type =
      search (moves_rules, names_moves, recurs_rules, build_integer_type_size-Moves) depth 60 fits
        6000

  pub build_base_type-Moves : Moves 1 (suc n) (build_base_type b)
  unfolding build_base_type
  build_base_type-Moves =
      search (moves_rules, names_moves, recurs_rules, base_type_of-Moves, type_size-Moves) depth 60
        fits 6000

  pub build_type_argument_list-Moves : Moves 0 n (build_type_argument_list b)
  unfolding build_type_argument_list
  build_type_argument_list-Moves =
      search (moves_rules, names_moves, recurs_rules, build_type_arg-Moves) depth 60 fits 6000

  pub build_tuple_type-Moves : Moves 1 (suc n) (build_tuple_type b)
  unfolding build_tuple_type
  build_tuple_type-Moves =
      search (moves_rules, names_moves, recurs_rules, build_type_argument_list-Moves) depth 60 fits
        6000

  pub build_header_stack_type-Moves : Moves 1 n (build_header_stack_type b)
  unfolding build_header_stack_type
  build_header_stack_type-Moves = search (moves_rules, names_moves, recurs_rules) depth 60 fits 6000

  pub build_specialized_type-Moves : Moves 1 n (build_specialized_type b)
  unfolding build_specialized_type
  build_specialized_type-Moves =
      search (moves_rules, names_moves, recurs_rules, build_type_argument_list-Moves) depth 60 fits
        6000

  pub build_type_name-Moves : Moves 1 (suc n) (build_type_name b)
  unfolding build_type_name
  build_type_name-Moves =
      search
        (
          moves_rules, names_moves, recurs_rules, build_header_stack_type-Moves,
          build_specialized_type-Moves,
        )
        depth 60 fits 6000

  pub build_type_ref-Moves : Moves 1 (suc n) (build_type_ref b)
  unfolding build_type_ref
  build_type_ref-Moves =
      search
        (
          moves_rules, names_moves, recurs_rules, build_base_type-Moves, build_tuple_type-Moves,
          build_type_name-Moves,
        )
        depth 60 fits 6000

  pub build_real_type_arg-Moves : Moves 1 n (build_real_type_arg b)
  unfolding build_real_type_arg
  build_real_type_arg-Moves = search (moves_rules, names_moves, recurs_rules) depth 60 fits 6000

  pub build_real_type_argument_list-Moves : Moves 0 n (build_real_type_argument_list b)
  unfolding build_real_type_argument_list
  build_real_type_argument_list-Moves =
      search (moves_rules, names_moves, recurs_rules, build_real_type_arg-Moves) depth 60 fits 6000

  pub ruleset types_moves = (
    base_type_of-Moves, build_type_arg-Moves, build_integer_type_size-Moves, type_size-Moves,
    build_base_type-Moves, build_type_argument_list-Moves, build_tuple_type-Moves,
    build_header_stack_type-Moves, build_specialized_type-Moves, build_type_name-Moves,
    build_type_ref-Moves, build_real_type_arg-Moves, build_real_type_argument_list-Moves,
  )
