-- ===== src/Syntax/Build/Moves/Names.antt =====
-- How far the functions of names and literals go.
use dp4c.Prelude.{ℕ, Bool}
use dp4c.Syntax.Tree.{Node}
use dp4c.Syntax.Build.Names.{
  build_non_type_name, build_name, build_type_parameter_list, build_opt_type_parameters,
  build_direction, build_integer, build_boolean, build_string_literal, dot_prefixed,
  build_prefixed_type, build_prefixed_non_type_name, build_identifier_list, braced_identifiers,
  build_error_declaration, build_match_kind_declaration,
}
use dp4c.Syntax.Build.Moves.{Moves}
use dp4c.Syntax.Build.Moves.Lists.{moves_rules}

pub build_non_type_name-Moves : {n : ℕ} (is_type : Bool) → Moves 1 n (build_non_type_name is_type)
unfolding build_non_type_name
build_non_type_name-Moves is_type = search moves_rules depth 60 fits 6000

pub build_name-Moves : {n : ℕ} (is_type : Bool) → Moves 1 n (build_name is_type)
unfolding build_name
build_name-Moves is_type = search (moves_rules, build_non_type_name-Moves) depth 60 fits 6000

pub build_type_parameter_list-Moves : {n : ℕ} → Moves 1 n build_type_parameter_list
unfolding build_type_parameter_list
build_type_parameter_list-Moves = search (moves_rules, build_name-Moves) depth 60 fits 6000

pub build_opt_type_parameters-Moves : {n : ℕ} → Moves 0 n build_opt_type_parameters
unfolding build_opt_type_parameters
build_opt_type_parameters-Moves =
    search (moves_rules, build_type_parameter_list-Moves) depth 60 fits 6000

pub build_direction-Moves : {n : ℕ} → Moves 0 n build_direction
unfolding build_direction
build_direction-Moves = search moves_rules depth 60 fits 6000

pub build_integer-Moves : {n : ℕ} → Moves 0 n build_integer
unfolding build_integer
build_integer-Moves = search moves_rules depth 60 fits 6000

pub build_boolean-Moves : {n : ℕ} → Moves 0 n build_boolean
unfolding build_boolean
build_boolean-Moves = search moves_rules depth 60 fits 6000

pub build_string_literal-Moves : {n : ℕ} → Moves 0 n build_string_literal
unfolding build_string_literal
build_string_literal-Moves = search moves_rules depth 60 fits 6000

pub dot_prefixed-Moves : {n : ℕ} → Moves 0 n dot_prefixed
unfolding dot_prefixed
dot_prefixed-Moves = search moves_rules depth 60 fits 6000

pub build_prefixed_type-Moves : {n : ℕ} → Moves 1 n build_prefixed_type
unfolding build_prefixed_type
build_prefixed_type-Moves = search (moves_rules, dot_prefixed-Moves) depth 60 fits 6000

pub build_prefixed_non_type_name-Moves : {n : ℕ} → Moves 1 n build_prefixed_non_type_name
unfolding build_prefixed_non_type_name
build_prefixed_non_type_name-Moves =
    search (moves_rules, build_non_type_name-Moves, dot_prefixed-Moves) depth 60 fits 6000

pub build_identifier_list-Moves : {n : ℕ} → Moves 1 n build_identifier_list
unfolding build_identifier_list
build_identifier_list-Moves = search (moves_rules, build_name-Moves) depth 60 fits 6000

pub braced_identifiers-Moves : {n : ℕ} (decl : Node) → Moves 1 n (braced_identifiers decl)
unfolding braced_identifiers
braced_identifiers-Moves decl = search (moves_rules, build_identifier_list-Moves) depth 60 fits 6000

pub build_error_declaration-Moves : {n : ℕ} → Moves 1 n build_error_declaration
unfolding build_error_declaration
build_error_declaration-Moves = search (moves_rules, build_identifier_list-Moves) depth 60 fits 6000

pub build_match_kind_declaration-Moves : {n : ℕ} → Moves 1 n build_match_kind_declaration
unfolding build_match_kind_declaration
build_match_kind_declaration-Moves =
    search (moves_rules, build_identifier_list-Moves) depth 60 fits 6000

pub ruleset names_moves = (
  build_non_type_name-Moves, build_name-Moves, build_type_parameter_list-Moves,
  build_opt_type_parameters-Moves, build_direction-Moves, build_integer-Moves, build_boolean-Moves,
  build_string_literal-Moves, dot_prefixed-Moves, build_prefixed_type-Moves,
  build_prefixed_non_type_name-Moves, build_identifier_list-Moves, braced_identifiers-Moves,
  build_error_declaration-Moves, build_match_kind_declaration-Moves,
)
