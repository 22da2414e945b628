-- ===== src/Syntax/Build/Moves/Statements.antt =====
-- How far statements go.
use dp4c.Prelude.{ℕ, suc, true}
use dp4c.Token.{TokenClass}
use dp4c.Syntax.Tree.{Node}
use dp4c.Syntax.Build.{Builders}
use dp4c.Syntax.Build.Statements.{
  build_block_statement, else_branch, build_conditional_statement, build_exit_statement,
  build_return_statement, build_switch_label, build_switch_case, build_switch_cases,
  build_switch_statement, build_statement,
}
use dp4c.Syntax.Build.Moves.Names.{names_moves}
use dp4c.Syntax.Build.Moves.Types.{types_moves}
use dp4c.Syntax.Build.Moves.Primaries.{primaries_moves}
use dp4c.Syntax.Build.Moves.Structs.{structs_moves}
use dp4c.Syntax.Build.Moves.Locals.{locals_moves}
use dp4c.Syntax.Build.Statements.{build_statement_or_decl, build_statement_or_decl_list}
use dp4c.Syntax.Build.Moves.Here.{MovesAt-klass, MovesAt-then}
use dp4c.Syntax.Build.Moves.Lists.{Moves-optional_while}
use dp4c.Syntax.Classes.{token_is_statement_or_declaration}
use dp4c.Prelude.{◌≡◌}
use dp4c.Syntax.Build.Moves.{Moves, Moves-lower, Moves-weaken, Recurs}
use dp4c.Syntax.Build.Moves.Here.{MovesAt}
use dp4c.Syntax.Build.Moves.Lists.{moves_rules, recurs_rules}

module _ {n : ℕ} {b : Builders} (h : Recurs n b) where
  build_statement_or_decl-MovesAt :
      (k : TokenClass)
      → token_is_statement_or_declaration k ≡ true
      → MovesAt 1 n k (build_statement_or_decl b)
  unfolding build_statement_or_decl
  build_statement_or_decl-MovesAt k go = MovesAt-klass _ (
      MovesAt-then _ _ _ go (
        search (moves_rules, structs_moves, locals_moves, recurs_rules, Moves-weaken) depth 60 fits
          6000))

  pub build_statement_or_decl_list-Moves : Moves 0 n (build_statement_or_decl_list b)
  unfolding build_statement_or_decl_list
  build_statement_or_decl_list-Moves = Moves-optional_while _ _ build_statement_or_decl-MovesAt

  pub build_block_statement-Moves : Moves 1 (suc n) (build_block_statement b)
  unfolding build_block_statement
  build_block_statement-Moves =
      search
        (
          moves_rules, names_moves, types_moves, primaries_moves, structs_moves, locals_moves,
          recurs_rules, build_statement_or_decl_list-Moves,
        )
        depth 60 fits 6000

  pub else_branch-Moves : (if_stmt : Node) → Moves 0 n (else_branch b if_stmt)
  unfolding else_branch
  else_branch-Moves if_stmt =
      search
        (
          moves_rules, names_moves, types_moves, primaries_moves, structs_moves, locals_moves,
          recurs_rules,
        )
        depth 60 fits 6000

  pub build_conditional_statement-Moves : Moves 1 (suc n) (build_conditional_statement b)
  unfolding build_conditional_statement
  build_conditional_statement-Moves =
      search
        (
          moves_rules, names_moves, types_moves, primaries_moves, structs_moves, locals_moves,
          recurs_rules, else_branch-Moves,
        )
        depth 60 fits 6000

  pub build_exit_statement-Moves : Moves 1 (suc n) (build_exit_statement b)
  unfolding build_exit_statement
  build_exit_statement-Moves =
      search
        (
          moves_rules, names_moves, types_moves, primaries_moves, structs_moves, locals_moves,
          recurs_rules,
        )
        depth 60 fits 6000

  pub build_return_statement-Moves : Moves 1 (suc n) (build_return_statement b)
  unfolding build_return_statement
  build_return_statement-Moves =
      search
        (
          moves_rules, names_moves, types_moves, primaries_moves, structs_moves, locals_moves,
          recurs_rules,
        )
        depth 60 fits 6000

  pub build_switch_label-Moves : Moves 1 n (build_switch_label b)
  unfolding build_switch_label
  build_switch_label-Moves =
      search
        (
          moves_rules, names_moves, types_moves, primaries_moves, structs_moves, locals_moves,
          recurs_rules,
        )
        depth 60 fits 6000

  pub build_switch_case-Moves : Moves 1 n (build_switch_case b)
  unfolding build_switch_case
  build_switch_case-Moves =
      let block = Moves-lower build_block_statement-Moves in
      search
        (
          moves_rules, names_moves, types_moves, primaries_moves, structs_moves, locals_moves,
          recurs_rules, build_switch_label-Moves,
        )
        depth 60 fits 6000

  pub build_switch_cases-Moves : Moves 0 n (build_switch_cases b)
  unfolding build_switch_cases
  build_switch_cases-Moves =
      search
        (
          moves_rules, names_moves, types_moves, primaries_moves, structs_moves, locals_moves,
          recurs_rules, build_switch_case-Moves,
        )
        depth 60 fits 6000

  pub build_switch_statement-Moves : Moves 1 (suc n) (build_switch_statement b)
  unfolding build_switch_statement
  build_switch_statement-Moves =
      search
        (
          moves_rules, names_moves, types_moves, primaries_moves, structs_moves, locals_moves,
          recurs_rules, build_switch_cases-Moves,
        )
        depth 60 fits 6000

  pub build_statement-Moves : (type_name : Node) → Moves 1 (suc n) (build_statement b type_name)
  unfolding build_statement
  build_statement-Moves type_name =
      search
        (
          moves_rules, names_moves, types_moves, primaries_moves, structs_moves, locals_moves,
          recurs_rules, build_block_statement-Moves, build_conditional_statement-Moves,
          build_exit_statement-Moves, build_return_statement-Moves, build_switch_statement-Moves,
        )
        depth 60 fits 6000

  pub ruleset statements_moves = (
    build_statement_or_decl_list-Moves, build_block_statement-Moves, else_branch-Moves,
    build_conditional_statement-Moves, build_exit_statement-Moves, build_return_statement-Moves,
    build_switch_label-Moves, build_switch_case-Moves, build_switch_cases-Moves,
    build_switch_statement-Moves, build_statement-Moves,
  )
