-- ===== src/Syntax/Build/Moves/Tables.antt =====
-- How far the keys, the actions and the entries of a table go.
use dp4c.Prelude.{ℕ, Bool}
use dp4c.Syntax.Build.{Builders}
use dp4c.Syntax.Build.States.{
  build_simple_keyset_expression, build_tuple_keyset_expression, build_keyset_expression,
}
use dp4c.Syntax.Build.Tables.{
  build_key_element, build_key_element_list, build_action_ref, listed_action, build_action_list,
  build_entry, build_entries_list, const_prefix, key_property, actions_property, entries_property,
  single_property, build_table_property, build_table_property_list, build_table_declaration,
}
use dp4c.Syntax.Build.Moves.Names.{names_moves}
use dp4c.Syntax.Build.Moves.Primaries.{primaries_moves}
use dp4c.Syntax.Build.Moves.{Moves, Recurs}
use dp4c.Syntax.Build.Moves.Lists.{moves_rules, recurs_rules}

module _ {n : ℕ} {b : Builders} (h : Recurs n b) where
  pub build_simple_keyset_expression-Moves : Moves 1 n (build_simple_keyset_expression b)
  unfolding build_simple_keyset_expression
  build_simple_keyset_expression-Moves =
      search (moves_rules, names_moves, primaries_moves, recurs_rules) depth 60 fits 6000

  pub build_tuple_keyset_expression-Moves : Moves 1 n (build_tuple_keyset_expression b)
  unfolding build_tuple_keyset_expression
  build_tuple_keyset_expression-Moves =
      search
        (
          moves_rules, names_moves, primaries_moves, recurs_rules,
          build_simple_keyset_expression-Moves,
        )
        depth 60 fits 6000

  pub build_keyset_expression-Moves : Moves 1 n (build_keyset_expression b)
  unfolding build_keyset_expression
  build_keyset_expression-Moves =
      search
        (
          moves_rules, names_moves, primaries_moves, recurs_rules,
          build_simple_keyset_expression-Moves, build_tuple_keyset_expression-Moves,
        )
        depth 60 fits 6000

  pub build_key_element-Moves : Moves 1 n (build_key_element b)
  unfolding build_key_element
  build_key_element-Moves =
      search (moves_rules, names_moves, primaries_moves, recurs_rules) depth 60 fits 6000

  pub build_key_element_list-Moves : Moves 0 n (build_key_element_list b)
  unfolding build_key_element_list
  build_key_element_list-Moves =
      search (moves_rules, names_moves, primaries_moves, recurs_rules, build_key_element-Moves)
        depth 60 fits 6000

  pub build_action_ref-Moves : Moves 1 n (build_action_ref b)
  unfolding build_action_ref
  build_action_ref-Moves =
      search (moves_rules, names_moves, primaries_moves, recurs_rules) depth 60 fits 6000

  pub listed_action-Moves : Moves 1 n (listed_action b)
  unfolding listed_action
  listed_action-Moves =
      search (moves_rules, names_moves, primaries_moves, recurs_rules, build_action_ref-Moves) depth
        60 fits 6000

  pub build_action_list-Moves : Moves 0 n (build_action_list b)
  unfolding build_action_list
  build_action_list-Moves =
      search (moves_rules, names_moves, primaries_moves, recurs_rules, listed_action-Moves) depth 60
        fits 6000

  pub build_entry-Moves : Moves 1 n (build_entry b)
  unfolding build_entry
  build_entry-Moves =
      search
        (
          moves_rules, names_moves, primaries_moves, recurs_rules, build_keyset_expression-Moves,
          build_action_ref-Moves,
        )
        depth 60 fits 6000

  pub build_entries_list-Moves : Moves 1 n (build_entries_list b)
  unfolding build_entries_list
  build_entries_list-Moves =
      search (moves_rules, names_moves, primaries_moves, recurs_rules, build_entry-Moves) depth 60
        fits 6000

  pub const_prefix-Moves : Moves 0 n (const_prefix b)
  unfolding const_prefix
  const_prefix-Moves =
      search (moves_rules, names_moves, primaries_moves, recurs_rules) depth 60 fits 6000

  pub key_property-Moves : Moves 1 n (key_property b)
  unfolding key_property
  key_property-Moves =
      search (moves_rules, names_moves, primaries_moves, recurs_rules, build_key_element_list-Moves)
        depth 60 fits 6000

  pub actions_property-Moves : Moves 1 n (actions_property b)
  unfolding actions_property
  actions_property-Moves =
      search (moves_rules, names_moves, primaries_moves, recurs_rules, build_action_list-Moves)
        depth 60 fits 6000

  pub entries_property-Moves : (is_const : Bool) → Moves 1 n (entries_property b is_const)
  unfolding entries_property
  entries_property-Moves is_const =
      search (moves_rules, names_moves, primaries_moves, recurs_rules, build_entries_list-Moves)
        depth 60 fits 6000

  pub single_property-Moves : Moves 1 n (single_property b)
  unfolding single_property
  single_property-Moves =
      search (moves_rules, names_moves, primaries_moves, recurs_rules) depth 60 fits 6000

  pub build_table_property-Moves : Moves 1 n (build_table_property b)
  unfolding build_table_property
  build_table_property-Moves =
      search
        (
          moves_rules, names_moves, primaries_moves, recurs_rules, const_prefix-Moves,
          key_property-Moves, actions_property-Moves, entries_property-Moves, single_property-Moves,
        )
        depth 60 fits 6000

  pub build_table_property_list-Moves : Moves 1 n (build_table_property_list b)
  unfolding build_table_property_list
  build_table_property_list-Moves =
      search (moves_rules, names_moves, primaries_moves, recurs_rules, build_table_property-Moves)
        depth 60 fits 6000

  pub build_table_declaration-Moves : Moves 1 n (build_table_declaration b)
  unfolding build_table_declaration
  build_table_declaration-Moves =
      search
        (moves_rules, names_moves, primaries_moves, recurs_rules, build_table_property_list-Moves)
        depth 60 fits 6000

  pub ruleset tables_moves = (
    build_simple_keyset_expression-Moves, build_tuple_keyset_expression-Moves,
    build_keyset_expression-Moves, build_key_element-Moves, build_key_element_list-Moves,
    build_action_ref-Moves, listed_action-Moves, build_action_list-Moves, build_entry-Moves,
    build_entries_list-Moves, const_prefix-Moves, key_property-Moves, actions_property-Moves,
    entries_property-Moves, single_property-Moves, build_table_property-Moves,
    build_table_property_list-Moves, build_table_declaration-Moves,
  )
