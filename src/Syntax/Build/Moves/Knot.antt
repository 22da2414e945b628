-- ===== src/Syntax/Build/Moves/Knot.antt =====
-- The functions of expressions, types and statements end: fuel for the tokens that are left is enough.
use dp4c.Prelude.{ℕ, zero, suc, ◌<◌, ◌≡◌, refl, false, arith, Result, ok, Ensures}
use dp4c.Token.{Token, is, parser_kw}
use dp4c.Syntax.Tree.{Node}
use dp4c.Syntax.Build.{BuildState, token}
use dp4c.Syntax.Build.Declarations.{build_declaration}
use dp4c.Syntax.Build.Program.{builders}
use dp4c.Syntax.Build.Moves.{left, Moved, Recurs}
use dp4c.Syntax.Build.Moves.Declarations.{build_declaration-MovesAt}
use dp4c.Syntax.Build.Moves.Types.{build_type_ref-Moves}
use dp4c.Syntax.Build.Moves.Expressions.{build_expression-Moves}
use dp4c.Syntax.Build.Moves.Statements.{build_statement-Moves}

pub builders-Recurs : (n : ℕ) → Recurs n (builders n)
unfolding builders
builders-Recurs zero = record {
  expression = λ priority. record { at = λ s low. absurd (omega arith) };
  type_ref = record { at = λ s low. absurd (omega arith) };
  statement = λ type_name. record { at = λ s low. absurd (omega arith) };
}
builders-Recurs (suc n) =
    let h = builders-Recurs n in
    record {
      expression = λ priority. build_expression-Moves h priority;
      type_ref = build_type_ref-Moves h;
      statement = λ type_name. build_statement-Moves h type_name;
    }

-- A run that has passed a token, or has failed: it stays within its fuel.
abbrev pub EndsAhead : {A : Type 0} → BuildState → Result (A × BuildState) → Type 0
EndsAhead {A} s r = Ensures (λ (p : A × BuildState). Moved 1 s p.1) r

-- With more fuel than tokens are left, `build_expression` at any priority, `build_typeRef` and
-- `build_statement` each end, from any state: they fail, or they return with a token or more passed, and
-- then each node that they have counted has a new id.
pub builders_end :
    (fuel : ℕ) (s : BuildState)
    → left s < fuel
    → ((priority : ℕ) → EndsAhead s ((builders fuel).build_expression priority s))
      × EndsAhead s ((builders fuel).build_type_ref s)
      × ((type_name : Node) → EndsAhead s ((builders fuel).build_statement type_name s))
builders_end fuel s few =
    let h = builders-Recurs fuel in
    (
      (λ priority. (h.expression priority).at s few),
      h.type_ref.at s few,
      λ type_name. (h.statement type_name).at s few,
    )

-- So does `build_declaration`, where the parser stands at a token other than `parser`.
pub build_declaration_ends :
    (fuel : ℕ) (s : BuildState) (t : Token)
    → left s < fuel
    → token s ≡ ok (t, s)
    → is t.klass parser_kw ≡ false
    → EndsAhead s (build_declaration (builders fuel) s)
build_declaration_ends fuel s t few now other =
    (build_declaration-MovesAt (builders-Recurs fuel) other).at s t few now refl
