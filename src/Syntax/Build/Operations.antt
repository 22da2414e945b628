-- ===== src/Syntax/Build/Operations.antt =====
-- build_ast.c: `build_expression`, with the branches of its loop over the operators.
use dp4c.Prelude.{
  ℕ, zero, suc, ◌+◌, leb, Bool, false, Option, none, some, out_of_fuel, if◌then◌else◌,
}
use dp4c.Token.{
  TokenClass, is, angle_open, angle_close, dot_prefix, parenth_open, parenth_close, bracket_open,
  bracket_close, equal,
}
use dp4c.Ast.Kinds.{AstKind}
use dp4c.Syntax.Classes.{
  token_is_expression, token_is_name, token_is_real_type_arg, token_is_expr_operator,
  token_is_binary_operator,
}
use dp4c.Syntax.Operators.{get_operator_priority, token_to_binop}
use dp4c.Syntax.Tree.{Node}
use dp4c.Syntax.Build.{
  Build, Builders, pure, lift, ◌>>=◌, ◌>>◌, klass, fault, expected, next_token, peek_token, accept,
  new_ast_node, set_ast, set_list, set_operator, rounds,
}
use dp4c.Syntax.Build.Names.{build_name}
use dp4c.Syntax.Build.Types.{build_real_type_argument_list}
use dp4c.Syntax.Build.Expressions.{build_argument_list, build_array_index, build_expression_primary}

-- The branches of a round that go on with another expression.
unfoldable pub go_on : Build Node → Build (Option Node)
go_on m = do expr ← m; pure (some expr)

unfoldable pub member_select : Node → Build Node
member_select expr = do
  next_token
  select_expr ← new_ast_node AstKind.member_select_expr
  select_expr ← set_ast select_expr "expr" expr
  k ← klass
  expected (token_is_name k) "name was expected"
  name ← build_name false
  set_ast select_expr "member_name" name

-- `token->klass == Token_AngleOpen && token_is_realTypeArg(peek_token())`
unfoldable pub opens_type_args : TokenClass → Build Bool
opens_type_args k =
    if is k angle_open then (do k' ← peek_token; pure (token_is_real_type_arg k')) else pure false

-- The rest of the loop behind a round.
unfoldable pub after_round : (Node → Build Node) → Node → Option Node → Build Node
after_round again expr none = pure expr
after_round again expr (some expr') = again expr'

module _ (b : Builders) where
  unfoldable pub indexed_array : Node → Build Node
  indexed_array expr = do
    next_token
    index_expr ← new_ast_node AstKind.indexed_array_expr
    index_expr ← set_ast index_expr "expr" expr
    index ← build_array_index b
    index_expr ← set_ast index_expr "index_expr" index
    accept bracket_close "`]` was expected"
    pure index_expr

  unfoldable pub function_call : Node → Build Node
  function_call expr = do
    next_token
    call_expr ← new_ast_node AstKind.function_call_expr
    call_expr ← set_ast call_expr "expr" expr
    args ← build_argument_list b
    call_expr ← set_list call_expr "args" args
    accept parenth_close "`)` was expected"
    pure call_expr

  unfoldable pub type_args : Node → Build Node
  type_args expr = do
    next_token
    args_expr ← new_ast_node AstKind.type_args_expr
    args_expr ← set_ast args_expr "expr" expr
    args ← build_real_type_argument_list b
    args_expr ← set_list args_expr "type_args" args
    accept angle_close "`>` was expected"
    pure args_expr

  unfoldable pub kv_pair : Node → Build Node
  kv_pair expr = do
    next_token
    kv_pair ← new_ast_node AstKind.kv_pair
    kv_pair ← set_ast kv_pair "name" expr
    value ← b.build_expression 1
    set_ast kv_pair "expr" value

  unfoldable pub binary_expr : ℕ → TokenClass → Node → Build Node
  binary_expr priority k expr = do
    bin_expr ← new_ast_node AstKind.binary_expr
    bin_expr ← set_ast bin_expr "left_operand" expr
    bin_expr ← set_operator bin_expr "op" (token_to_binop k)
    next_token
    right ← b.build_expression (priority + 1)
    set_ast bin_expr "right_operand" right

  -- `none` is the `break` at an operator of a priority below the threshold.
  unfoldable pub binary_operation : ℕ → TokenClass → Node → Build (Option Node)
  unfolding go_on
  binary_operation priority_threshold k expr = do
    priority ← lift (get_operator_priority k)
    if leb priority_threshold priority then go_on (binary_expr priority k expr) else pure none

  unfoldable pub operation : ℕ → TokenClass → Node → Build (Option Node)
  unfolding go_on
  operation priority_threshold k expr =
      if is k dot_prefix
      then go_on (member_select expr)
      else if is k bracket_open
      then go_on (indexed_array expr)
      else if is k parenth_open
      then go_on (function_call expr)
      else (do
        opens ← opens_type_args k
        if opens
            then go_on (type_args expr)
            else if is k equal
            then go_on (kv_pair expr)
            else if token_is_binary_operator k
            then binary_operation priority_threshold k expr
            else fault)

  -- `while (token_is_exprOperator(token)) { ... }`
  unfoldable pub expression_loop : ℕ → ℕ → Node → Build Node
  unfolding after_round
  expression_loop zero priority_threshold expr = λ s. out_of_fuel
  expression_loop (suc n) priority_threshold expr = do
    k ← klass
    if token_is_expr_operator k
        then (do
          next ← operation priority_threshold k expr
          after_round (expression_loop n priority_threshold) expr next)
        else pure expr

  unfoldable pub build_expression : ℕ → Build Node
  unfolding expression_loop
  build_expression priority_threshold = do
    k ← klass
    expected (token_is_expression k) "an expression was expected"
    expr ← build_expression_primary b
    n ← rounds
    expression_loop n priority_threshold expr
