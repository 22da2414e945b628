-- ===== src/Syntax/Build/Loops.antt =====
-- build_ast.c: the loop over the statements of a parser, at an empty statement.
use dp4c.Prelude.{ℕ, zero, suc, ◌≡◌, refl, true, some, ok, out_of_fuel}
use dp4c.Token.{semicolon}
use dp4c.Syntax.Classes.{
  token_is_parser_statement, token_is_assignment_or_method_call_statement, token_is_lvalue,
  token_is_non_type_name, token_is_type_name, token_is_type_ref, token_is_base_type,
  token_is_prefixed_type,
}
use dp4c.Ast.Kinds.{AstKind}
use dp4c.Syntax.Tree.{Node, node, no_more}
use dp4c.Syntax.Build.{
  BuildState, Builders, ◌>>=◌, new_ast_node, repeat_while, list_while, optional_list, rounds,
}
use dp4c.Syntax.Build.States.{build_parser_statement, build_parser_statements}
use dp4c.Syntax.Build.Program.{builders}
use dp4c.Syntax.Build.Stands.{Stands, counted, counted-Stands, token_at, klass_at}

statement_at :
    (b : Builders) (s : BuildState)
    → Stands semicolon s
    → (stmt : Node) × (build_parser_statement b s ≡ ok (stmt, counted s))
unfolding build_parser_statement ◌>>=◌ new_ast_node token_is_type_ref token_is_base_type
    token_is_prefixed_type token_is_assignment_or_method_call_statement token_is_lvalue
    token_is_non_type_name
statement_at b s h = (
  some (node AstKind.empty_stmt s.node_id h.token_there.line_nr no_more),
  rw (klass_at s h) (rw (token_at s h)),
)

test_at : token_is_parser_statement semicolon ≡ true
unfolding token_is_parser_statement token_is_assignment_or_method_call_statement token_is_lvalue
    token_is_non_type_name token_is_type_name token_is_type_ref token_is_base_type
    token_is_prefixed_type
test_at = refl

-- The round that begins at a semicolon, where the later rounds do not end.
repeat_at :
    (n : ℕ) (b : Builders) (s : BuildState)
    → Stands semicolon s
    → repeat_while n token_is_parser_statement (build_parser_statement b) s ≡ out_of_fuel
unfolding repeat_while ◌>>=◌
repeat_at zero b s h = refl
repeat_at (suc n) b s h =
    let (stmt, run) = statement_at b s h in
    rw (klass_at s h) (rw test_at (rw run (rw (repeat_at n b (counted s) (counted-Stands s h)))))

list_at :
    (b : Builders) (s : BuildState)
    → Stands semicolon s
    → optional_list token_is_parser_statement
        (list_while token_is_parser_statement (build_parser_statement b))
        s
      ≡ out_of_fuel
unfolding optional_list list_while rounds ◌>>=◌
list_at b s h =
    let (stmt, run) = statement_at b s h in
    rw (klass_at s h) (rw test_at (rw run (rw (repeat_at _ b (counted s) (counted-Stands s h)))))

-- At a semicolon the loop of `build_parserStatements` does not end, in however many rounds: the parser
-- makes nodes of empty statements and stays at the semicolon. So `build_parserStatements` does not
-- return there, whatever the fuel.
pub empty_statement_loops :
    (fuel : ℕ) (s : BuildState)
    → Stands semicolon s
    → ((n : ℕ)
        → repeat_while n token_is_parser_statement (build_parser_statement (builders fuel)) s
          ≡ out_of_fuel)
      × (build_parser_statements (builders fuel) s ≡ out_of_fuel)
unfolding build_parser_statements builders optional_list list_while ◌>>=◌
empty_statement_loops zero s h = ((λ n. repeat_at n _ s h), rw (klass_at s h) (rw test_at))
empty_statement_loops (suc fuel) s h = ((λ n. repeat_at n _ s h), list_at (builders fuel) s h)
