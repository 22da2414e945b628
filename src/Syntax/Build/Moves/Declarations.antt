-- ===== src/Syntax/Build/Moves/Declarations.antt =====
-- How far a declaration goes that does not begin with `parser`.
use dp4c.Prelude.{◌≡◌, ℕ, Bool, true, false}
use dp4c.Token.{TokenClass, is, parser_kw, extern_kw}
use dp4c.Syntax.Tree.{Node}
use dp4c.Syntax.Build.{Build, Builders}
use dp4c.Syntax.Build.Prototypes.{build_extern_declaration}
use dp4c.Syntax.Build.Declarations.{build_type_declaration, build_declaration}
use dp4c.Syntax.Build.Moves.{Moves-weaken, Recurs}
use dp4c.Syntax.Build.Moves.Here.{MovesAt, MovesAt-klass, MovesAt-then}
use dp4c.Syntax.Build.Moves.Lists.{moves_rules, here_rules, recurs_rules}
use dp4c.Syntax.Build.Moves.Names.{names_moves}
use dp4c.Syntax.Build.Moves.Structs.{structs_moves}
use dp4c.Syntax.Build.Moves.Prototypes.{prototypes_moves}
use dp4c.Syntax.Build.Moves.Controls.{build_function_declaration-Moves, controls_moves}

-- A branch that another test has ruled out.
MovesAt-other :
    {A : Type 0} {d n : ℕ} {k : TokenClass} (c : Bool) (m : Build A)
    → c ≡ false
    → c ≡ true
    → MovesAt d n k m
MovesAt-other c m is_not holds = cc

module _ {n : ℕ} {b : Builders} (h : Recurs n b) where
  build_extern_declaration-MovesAt :
      {k : TokenClass} → is k extern_kw ≡ true → MovesAt 1 n k (build_extern_declaration b)
  unfolding build_extern_declaration
  build_extern_declaration-MovesAt go = MovesAt-klass _ (
      MovesAt-then _ _ _ go
        (search (moves_rules, prototypes_moves, Moves-weaken) depth 60 fits 6000))

  module _ {k : TokenClass} (other : is k parser_kw ≡ false) where
    parser_branch : {A : Type 0} {d : ℕ} {m : Build A} → is k parser_kw ≡ true → MovesAt d n k m
    parser_branch go = MovesAt-other _ _ other go

    build_type_declaration-MovesAt : MovesAt 1 n k (build_type_declaration b)
    unfolding build_type_declaration
    build_type_declaration-MovesAt =
        search (here_rules, parser_branch, moves_rules, structs_moves, controls_moves) depth 60 fits
          6000

    pub build_declaration-MovesAt : MovesAt 1 n k (build_declaration b)
    unfolding build_declaration
    build_declaration-MovesAt =
        let rest =
          λ (type_ref : Node). Moves-weaken (build_function_declaration-Moves h type_ref) in
        search
          (
            here_rules, build_type_declaration-MovesAt, build_extern_declaration-MovesAt,
            moves_rules, names_moves, structs_moves, controls_moves, recurs_rules,
          )
          depth 60 fits 6000
