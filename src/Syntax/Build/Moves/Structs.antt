-- ===== src/Syntax/Build/Moves/Structs.antt =====
-- How far structures, enumerations and constants go.
use dp4c.Prelude.{ℕ}
use dp4c.Ast.Kinds.{AstKind}
use dp4c.Syntax.Tree.{Node}
use dp4c.Syntax.Build.{Builders}
use dp4c.Syntax.Build.Structs.{
  build_struct_field, build_struct_field_list, fields_declaration, build_header_type_declaration,
  build_header_union_declaration, build_struct_type_declaration, build_specified_identifier,
  build_specified_identifier_list, enum_size, build_enum_declaration,
  build_derived_type_declaration, build_constant_declaration,
}
use dp4c.Syntax.Build.Moves.Names.{names_moves}
use dp4c.Syntax.Build.Moves.Primaries.{build_initializer-Moves}
use dp4c.Syntax.Build.Moves.{Moves, Recurs}
use dp4c.Syntax.Build.Moves.Lists.{moves_rules, recurs_rules}

module _ {n : ℕ} {b : Builders} (h : Recurs n b) where
  pub build_struct_field-Moves : Moves 1 n (build_struct_field b)
  unfolding build_struct_field
  build_struct_field-Moves = search (moves_rules, names_moves, recurs_rules) depth 60 fits 6000

  pub build_struct_field_list-Moves : Moves 0 n (build_struct_field_list b)
  unfolding build_struct_field_list
  build_struct_field_list-Moves =
      search (moves_rules, names_moves, recurs_rules, build_struct_field-Moves) depth 60 fits 6000

  pub fields_declaration-Moves : (kind : AstKind) → Moves 1 n (fields_declaration b kind)
  unfolding fields_declaration
  fields_declaration-Moves kind =
      search (moves_rules, names_moves, recurs_rules, build_struct_field_list-Moves) depth 60 fits
        6000

  pub build_header_type_declaration-Moves : Moves 1 n (build_header_type_declaration b)
  unfolding build_header_type_declaration
  build_header_type_declaration-Moves =
      search (moves_rules, names_moves, recurs_rules, build_struct_field_list-Moves) depth 60 fits
        6000

  pub build_header_union_declaration-Moves : Moves 1 n (build_header_union_declaration b)
  unfolding build_header_union_declaration
  build_header_union_declaration-Moves =
      search (moves_rules, names_moves, recurs_rules, build_struct_field_list-Moves) depth 60 fits
        6000

  pub build_struct_type_declaration-Moves : Moves 1 n (build_struct_type_declaration b)
  unfolding build_struct_type_declaration
  build_struct_type_declaration-Moves =
      search (moves_rules, names_moves, recurs_rules, build_struct_field_list-Moves) depth 60 fits
        6000

  pub build_specified_identifier-Moves : Moves 1 n (build_specified_identifier b)
  unfolding build_specified_identifier
  build_specified_identifier-Moves =
      search (moves_rules, names_moves, recurs_rules, build_initializer-Moves) depth 60 fits 6000

  pub build_specified_identifier_list-Moves : Moves 1 n (build_specified_identifier_list b)
  unfolding build_specified_identifier_list
  build_specified_identifier_list-Moves =
      search (moves_rules, names_moves, recurs_rules, build_specified_identifier-Moves) depth 60
        fits 6000

  pub enum_size-Moves : (decl : Node) → Moves 0 n (enum_size b decl)
  unfolding enum_size
  enum_size-Moves decl = search (moves_rules, names_moves, recurs_rules) depth 60 fits 6000

  pub build_enum_declaration-Moves : Moves 1 n (build_enum_declaration b)
  unfolding build_enum_declaration
  build_enum_declaration-Moves =
      search
        (
          moves_rules, names_moves, recurs_rules, build_specified_identifier_list-Moves,
          enum_size-Moves,
        )
        depth 60 fits 6000

  pub build_derived_type_declaration-Moves : Moves 1 n (build_derived_type_declaration b)
  unfolding build_derived_type_declaration
  build_derived_type_declaration-Moves =
      search
        (
          moves_rules, names_moves, recurs_rules, build_header_type_declaration-Moves,
          build_header_union_declaration-Moves, build_struct_type_declaration-Moves,
          build_enum_declaration-Moves,
        )
        depth 60 fits 6000

  pub build_constant_declaration-Moves : Moves 1 n (build_constant_declaration b)
  unfolding build_constant_declaration
  build_constant_declaration-Moves =
      search (moves_rules, names_moves, recurs_rules) depth 60 fits 6000

  pub ruleset structs_moves = (
    build_initializer-Moves, build_struct_field-Moves, build_struct_field_list-Moves,
    fields_declaration-Moves, build_header_type_declaration-Moves,
    build_header_union_declaration-Moves, build_struct_type_declaration-Moves,
    build_specified_identifier-Moves, build_specified_identifier_list-Moves, enum_size-Moves,
    build_enum_declaration-Moves, build_derived_type_declaration-Moves,
    build_constant_declaration-Moves,
  )
