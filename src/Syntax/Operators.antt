-- ===== src/Syntax/Operators.antt =====
-- build_ast.c: the priority and the operator of a token between two operands.
use dp4c.Prelude.{ℕ, ◌||◌, if◌then◌else◌, Result, ok, failed, assertion}
use dp4c.Token.{
  TokenClass, is, two_ampersand, two_pipe, two_equal, exclamation_equal, angle_open, angle_close,
  angle_open_equal, angle_close_equal, plus, minus, ampersand, pipe, circumflex, two_angle_open,
  two_angle_close, star, slash, three_ampersand,
}
use dp4c.Ast.Kinds.{AstExprOperator}

unfoldable pub get_operator_priority : TokenClass → Result ℕ
get_operator_priority k =
    if is k two_ampersand || is k two_pipe
    then ok 1
    else if is k two_equal
        || is k exclamation_equal
        || is k angle_open
        || is k angle_close
        || is k angle_open_equal
        || is k angle_close_equal
    then ok 2
    else if is k plus
        || is k minus
        || is k ampersand
        || is k pipe
        || is k circumflex
        || is k two_angle_open
        || is k two_angle_close
    then ok 3
    else if is k star || is k slash
    then ok 4
    else if is k three_ampersand
    then ok 5
    else failed assertion

unfoldable pub token_to_binop : TokenClass → AstExprOperator
token_to_binop two_ampersand = AstExprOperator.and
token_to_binop two_pipe = AstExprOperator.or
token_to_binop two_equal = AstExprOperator.equal
token_to_binop exclamation_equal = AstExprOperator.not_equal
token_to_binop angle_open = AstExprOperator.less
token_to_binop angle_close = AstExprOperator.greater
token_to_binop angle_open_equal = AstExprOperator.less_equal
token_to_binop angle_close_equal = AstExprOperator.greater_equal
token_to_binop plus = AstExprOperator.add
token_to_binop minus = AstExprOperator.sub
token_to_binop star = AstExprOperator.mul
token_to_binop slash = AstExprOperator.div
token_to_binop ampersand = AstExprOperator.bit_and
token_to_binop pipe = AstExprOperator.bit_or
token_to_binop circumflex = AstExprOperator.bit_xor
token_to_binop two_angle_open = AstExprOperator.bit_shift_left
token_to_binop two_angle_close = AstExprOperator.bit_shift_right
token_to_binop three_ampersand = AstExprOperator.mask
token_to_binop _ = AstExprOperator.none_
