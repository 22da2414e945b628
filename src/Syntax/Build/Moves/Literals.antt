-- ===== src/Syntax/Build/Moves/Literals.antt =====
-- How far primary expressions go: a literal passes a token where its own token stands.
use dp4c.Prelude.{ℕ, suc, ◌≡◌, ap, ◌∙◌, arith, ◌||◌, true}
use dp4c.Token.{Token, TokenClass, is, true_kw, false_kw}
use dp4c.Token
use dp4c.Symtable.Ends.{Ends, ends_rules}
use dp4c.Syntax.Operators.{get_operator_priority}
use dp4c.Syntax.Build.{Builders}
use dp4c.Syntax.Build.Names.{build_integer, build_boolean, build_string_literal}
use dp4c.Syntax.Build.Expressions.{build_expression_primary}
use dp4c.Syntax.Build.Moves.{Moves, Recurs}
use dp4c.Syntax.Build.Moves.Here.{MovesAt, MovesAt-then, MovesAt-token, MovesAt-klass}
use dp4c.Syntax.Build.Moves.Lists.{moves_rules, here_rules}
use dp4c.Syntax.Build.Moves.Names.{names_moves}
use dp4c.Syntax.Build.Moves.Types.{types_moves}
use dp4c.Syntax.Build.Moves.Primaries.{primaries_moves}

build_integer-MovesAt :
    {n : ℕ} {k : TokenClass} → is k Token.integer ≡ true → MovesAt 1 n k build_integer
unfolding build_integer
build_integer-MovesAt go = MovesAt-token _ λ t same.
    MovesAt-then _ _ _ (ap (λ k. is k Token.integer) same ∙ go)
      (search moves_rules depth 60 fits 6000)

build_boolean-MovesAt :
    {n : ℕ} {k : TokenClass} → (is k true_kw || is k false_kw) ≡ true → MovesAt 1 n k build_boolean
unfolding build_boolean
build_boolean-MovesAt go =
    MovesAt-klass _ (MovesAt-then _ _ _ go (search moves_rules depth 60 fits 6000))

build_string_literal-MovesAt :
    {n : ℕ} {k : TokenClass} → is k Token.string_literal ≡ true → MovesAt 1 n k build_string_literal
unfolding build_string_literal
build_string_literal-MovesAt go = MovesAt-token _ λ t same.
    MovesAt-then _ _ _ (ap (λ k. is k Token.string_literal) same ∙ go)
      (search moves_rules depth 60 fits 6000)

true_boolean : {n : ℕ} {k : TokenClass} → is k true_kw ≡ true → MovesAt 1 n k build_boolean
true_boolean go = build_boolean-MovesAt (rw go)

false_boolean : {n : ℕ} {k : TokenClass} → is k false_kw ≡ true → MovesAt 1 n k build_boolean
false_boolean {k = k} go = build_boolean-MovesAt (ground arith)

ruleset literals =
    (build_integer-MovesAt, true_boolean, false_boolean, build_string_literal-MovesAt)

pub get_operator_priority-Ends : (k : TokenClass) → Ends (get_operator_priority k)
unfolding get_operator_priority
get_operator_priority-Ends k = search ends_rules depth 20

module _ {n : ℕ} {b : Builders} (h : Recurs n b) where
  pub build_expression_primary-Moves : Moves 1 (suc n) (build_expression_primary b)
  unfolding build_expression_primary
  build_expression_primary-Moves =
      search (here_rules, literals, moves_rules, names_moves, types_moves, primaries_moves) depth 60
        fits 20000
