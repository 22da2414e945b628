-- ===== src/Tests/Endings.antt =====
-- The theorems on where the parser's functions end, at short programs.
use dp4c.Prelude.{
  ℕ, [], ◌∷◌, ◌≡◌, refl, arith, out_of_fuel, failed, error, syntax_error, inl, codes,
}
use dp4c.Token
use dp4c.Token.{Token, zero_token}
use dp4c.Chain.{at}
use dp4c.Syntax.Classes.{token_is_parser_statement}
use dp4c.Syntax.Tree.{Node}
use dp4c.Syntax.Build.{BuildState, token, lift, repeat_while}
use dp4c.Syntax.Build.Declarations.{build_declaration}
use dp4c.Syntax.Build.States.{build_parser_statement, build_parser_statements}
use dp4c.Syntax.Build.Program.{builders}
use dp4c.Syntax.Build.Moves.Knot.{EndsAhead, builders_end, build_declaration_ends}
use dp4c.Syntax.Build.Stands.{Stands}
use dp4c.Syntax.Build.Loops.{empty_statement_loops}
use dp4c.Syntax.Build.Refusals.{untyped_function_refused}
use dp4c.Tests.Parsing.{of, word, at_first, constant}

builders_end_example :
    ((priority : ℕ)
      → EndsAhead (at_first constant) ((builders 12).build_expression priority (at_first constant)))
    × EndsAhead (at_first constant) ((builders 12).build_type_ref (at_first constant))
    × ((type_name : Node)
        → EndsAhead
            (at_first constant)
            ((builders 12).build_statement type_name (at_first constant)))
builders_end_example = builders_end 12 (at_first constant) (omega arith)

build_declaration_ends_example :
    EndsAhead (at_first constant) (build_declaration (builders 12) (at_first constant))
unfolding token lift at
build_declaration_ends_example =
    build_declaration_ends 12 (at_first constant) (of Token.const_kw) (omega arith) refl refl

abbrev at_semicolon : BuildState
at_semicolon = at_first (of Token.start_of_input ∷ of Token.semicolon ∷ of Token.brace_close ∷ [])

at_semicolon-Stands : Stands Token.semicolon at_semicolon
unfolding at
at_semicolon-Stands = record {
  index = 1;
  token_there = of Token.semicolon;
  points = refl;
  reads = refl;
  is_klass = refl;
}

empty_statement_loops_example :
    ((n : ℕ)
      → repeat_while n token_is_parser_statement (build_parser_statement (builders 9)) at_semicolon
        ≡ out_of_fuel)
    × (build_parser_statements (builders 9) at_semicolon ≡ out_of_fuel)
empty_statement_loops_example = empty_statement_loops 9 at_semicolon at_semicolon-Stands

-- void f();
abbrev at_void : BuildState
at_void = at_first (of Token.start_of_input ∷ of Token.void_kw ∷ word (codes "f") ∷ [])

untyped_function_refused_example :
    build_declaration (builders 10) at_void ≡ failed (error (syntax_error 1 "type was expected" []))
unfolding token lift at
untyped_function_refused_example =
    untyped_function_refused at_void (of Token.void_kw) refl 9 (inl refl)
