-- ===== src/Syntax/Binary.antt =====
-- The binary operators of the expression parser.
use dp4c.Prelude.{ℕ, ◌≤◌, ◌≡◌, ◌≢◌, ◌⊎◌, inl, inr, refl, arith, true, false, ok, failed, assertion}
use dp4c.Token.{
  TokenClass, none_, equal, two_ampersand, two_pipe, two_equal, exclamation_equal, angle_open,
  angle_close, angle_open_equal, angle_close_equal, plus, minus, ampersand, pipe, circumflex,
  two_angle_open, two_angle_close, star, slash, three_ampersand,
}
use dp4c.Ast.Kinds.{AstExprOperator}
use dp4c.Syntax.Classes.{token_is_binary_operator}
use dp4c.Syntax.Operators.{get_operator_priority, token_to_binop}

-- A token that the parser takes for a binary operator, `=` apart, has a priority from 1 to 5 and an
-- operator of the tree; every other token has no operator, and asking for its priority is a failed
-- assertion. `=` is a binary operator to that test, and has neither.
pub binary_operator_lem :
    (k : TokenClass)
    → ((token_is_binary_operator k ≡ true)
        × (k ≢ equal)
        × (token_to_binop k ≢ AstExprOperator.none_)
        × ((p : ℕ) × (get_operator_priority k ≡ ok p) × (1 ≤ p) × (p ≤ 5)))
      ⊎ (((token_is_binary_operator k ≡ false) ⊎ (k ≡ equal))
          × (token_to_binop k ≡ AstExprOperator.none_)
          × (get_operator_priority k ≡ failed assertion))
unfolding token_is_binary_operator get_operator_priority token_to_binop
binary_operator_lem none_ = inr (inl refl, refl, refl)
binary_operator_lem two_ampersand =
    inl (refl, (λ e. cc), (λ e. cc), (1, refl, omega arith, omega arith))
binary_operator_lem two_pipe = inl (refl, (λ e. cc), (λ e. cc), (1, refl, omega arith, omega arith))
binary_operator_lem two_equal =
    inl (refl, (λ e. cc), (λ e. cc), (2, refl, omega arith, omega arith))
binary_operator_lem exclamation_equal =
    inl (refl, (λ e. cc), (λ e. cc), (2, refl, omega arith, omega arith))
binary_operator_lem angle_open =
    inl (refl, (λ e. cc), (λ e. cc), (2, refl, omega arith, omega arith))
binary_operator_lem angle_close =
    inl (refl, (λ e. cc), (λ e. cc), (2, refl, omega arith, omega arith))
binary_operator_lem angle_open_equal =
    inl (refl, (λ e. cc), (λ e. cc), (2, refl, omega arith, omega arith))
binary_operator_lem angle_close_equal =
    inl (refl, (λ e. cc), (λ e. cc), (2, refl, omega arith, omega arith))
binary_operator_lem plus = inl (refl, (λ e. cc), (λ e. cc), (3, refl, omega arith, omega arith))
binary_operator_lem minus = inl (refl, (λ e. cc), (λ e. cc), (3, refl, omega arith, omega arith))
binary_operator_lem ampersand =
    inl (refl, (λ e. cc), (λ e. cc), (3, refl, omega arith, omega arith))
binary_operator_lem pipe = inl (refl, (λ e. cc), (λ e. cc), (3, refl, omega arith, omega arith))
binary_operator_lem circumflex =
    inl (refl, (λ e. cc), (λ e. cc), (3, refl, omega arith, omega arith))
binary_operator_lem two_angle_open =
    inl (refl, (λ e. cc), (λ e. cc), (3, refl, omega arith, omega arith))
binary_operator_lem two_angle_close =
    inl (refl, (λ e. cc), (λ e. cc), (3, refl, omega arith, omega arith))
binary_operator_lem star = inl (refl, (λ e. cc), (λ e. cc), (4, refl, omega arith, omega arith))
binary_operator_lem slash = inl (refl, (λ e. cc), (λ e. cc), (4, refl, omega arith, omega arith))
binary_operator_lem three_ampersand =
    inl (refl, (λ e. cc), (λ e. cc), (5, refl, omega arith, omega arith))
binary_operator_lem equal = inr (inr refl, refl, refl)
binary_operator_lem _ = inr (inl refl, refl, refl)
