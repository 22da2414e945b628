-- ===== src/Syntax/Build/Moves/Primaries.antt =====
-- How far the functions of arguments and of primary expressions go.
use dp4c.Prelude.{ℕ, suc}
use dp4c.Ast.Kinds.{AstExprOperator}
use dp4c.Syntax.Build.{Builders}
use dp4c.Syntax.Build.Expressions.{
  build_expression_list, build_initializer, build_opt_initializer, build_argument,
  build_argument_list, build_array_index, dot_primary, expression_list_expr, parenth_primary,
  unary_expr, error_primary,
}
use dp4c.Syntax.Build.Moves.Names.{names_moves}
use dp4c.Syntax.Build.Moves.Types.{types_moves}
use dp4c.Syntax.Build.Moves.Types.{build_type_name-Moves}
use dp4c.Syntax.Build.Moves.{Moves, Moves-lower, Moves-weaken, Recurs}
use dp4c.Syntax.Build.Moves.Lists.{moves_rules, recurs_rules}

module _ {n : ℕ} {b : Builders} (h : Recurs n b) where
  pub build_expression_list-Moves : Moves 0 n (build_expression_list b)
  unfolding build_expression_list
  build_expression_list-Moves =
      search (moves_rules, names_moves, types_moves, recurs_rules) depth 60 fits 6000

  pub build_initializer-Moves : Moves 1 n (build_initializer b)
  unfolding build_initializer
  build_initializer-Moves =
      search (moves_rules, names_moves, types_moves, recurs_rules) depth 60 fits 6000

  pub build_opt_initializer-Moves : Moves 0 n (build_opt_initializer b)
  unfolding build_opt_initializer
  build_opt_initializer-Moves =
      search
        (Moves-weaken, moves_rules, names_moves, types_moves, recurs_rules, build_initializer-Moves)
        depth 60 fits 6000

  pub build_argument-Moves : Moves 1 n (build_argument b)
  unfolding build_argument
  build_argument-Moves =
      search (moves_rules, names_moves, types_moves, recurs_rules) depth 60 fits 6000

  pub build_argument_list-Moves : Moves 0 n (build_argument_list b)
  unfolding build_argument_list
  build_argument_list-Moves =
      search (moves_rules, names_moves, types_moves, recurs_rules, build_argument-Moves) depth 60
        fits 6000

  pub build_array_index-Moves : Moves 1 n (build_array_index b)
  unfolding build_array_index
  build_array_index-Moves =
      search (moves_rules, names_moves, types_moves, recurs_rules) depth 60 fits 6000

  pub dot_primary-Moves : Moves 1 (suc n) (dot_primary b)
  unfolding dot_primary
  dot_primary-Moves =
      let type_name = Moves-lower (build_type_name-Moves h) in
      search (moves_rules, names_moves, types_moves, recurs_rules) depth 60 fits 6000

  pub expression_list_expr-Moves : Moves 1 (suc n) (expression_list_expr b)
  unfolding expression_list_expr
  expression_list_expr-Moves =
      search (moves_rules, names_moves, types_moves, recurs_rules, build_expression_list-Moves)
        depth 60 fits 6000

  pub parenth_primary-Moves : Moves 1 (suc n) (parenth_primary b)
  unfolding parenth_primary
  parenth_primary-Moves =
      search (moves_rules, names_moves, types_moves, recurs_rules) depth 60 fits 6000

  pub unary_expr-Moves : (op : AstExprOperator) → Moves 1 (suc n) (unary_expr b op)
  unfolding unary_expr
  unary_expr-Moves op =
      search (moves_rules, names_moves, types_moves, recurs_rules) depth 60 fits 6000

  pub error_primary-Moves : Moves 1 (suc n) (error_primary b)
  unfolding error_primary
  error_primary-Moves =
      search (moves_rules, names_moves, types_moves, recurs_rules) depth 60 fits 6000

  pub ruleset primaries_moves = (
    build_expression_list-Moves, build_initializer-Moves, build_opt_initializer-Moves,
    build_argument-Moves, build_argument_list-Moves, build_array_index-Moves, dot_primary-Moves,
    expression_list_expr-Moves, parenth_primary-Moves, unary_expr-Moves, error_primary-Moves,
  )
