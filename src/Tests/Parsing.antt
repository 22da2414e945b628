-- ===== src/Tests/Parsing.antt =====
-- Runs of the parser on short programs, and the theorems on how far it goes at one of them.
use dp4c.Prelude.{ℕ, List, [], ◌∷◌, codes, replicate, ◌≡◌, refl, some, Result, ok, ◌>>=◌}
use dp4c.Token
use dp4c.Token.{Token, TokenClass, zero_token}
use dp4c.Symtable.Entries.{Symtable}
use dp4c.Ast.Kinds.{AstKind, AstAttributeType, AstExprOperator}
use dp4c.Syntax.Tree.{Node, Tree, node, attribute, no_more, ast, operator}
use dp4c.Syntax.Tree
use dp4c.Basic.Strings.{str_eq}
use dp4c.Chain.{at}
use dp4c.Syntax.Classes.{
  token_is_expression, token_is_expression_primary, token_is_non_type_name, token_is_expr_operator,
  token_is_binary_operator,
}
use dp4c.Syntax.Operators.{get_operator_priority, token_to_binop}
use dp4c.Syntax.Tokens.{skip_comments, classify, next_parser_token}
use dp4c.Syntax.Build
use dp4c.Syntax.Build.{
  BuildState, klass, token, lift, pure, expected, next_token, new_ast_node, set_integer, set_ast,
  set_operator, rounds,
}
use dp4c.Syntax.Build.Operations
use dp4c.Syntax.Build.Expressions
use dp4c.Syntax.Build.Names
use dp4c.Syntax.Build.Program.{builders}

abbrev pub symbols : Symtable ℕ
symbols = record {
  array = replicate 31 [];
  capacity_log2 = 5;
  capacity = 31;
  entry_count = 0;
  scope_level = 0;
}

abbrev pub of : TokenClass → Token
of k = record zero_token { klass = k; line_nr = 1 }

abbrev pub word : List ℕ → Token
word text = record zero_token { klass = Token.identifier; lexeme = text; line_nr = 1 }

abbrev pub number : ℕ → Token
number n = record zero_token { klass = Token.integer; value = n; line_nr = 1 }

abbrev pub at_first : List Token → BuildState
at_first tokens = record {
  parser = record {
    tokens = tokens;
    token_at = 1;
    token = some 1;
    prev_token_at = 0;
    prev_token = some 0;
    symtable = symbols;
  };
  page_size = 4096;
  node_id = 1;
  node_count = 0;
}

-- const int x = 1 + 2 * 3;
abbrev pub constant : List Token
constant =
    of Token.start_of_input
    ∷ of Token.const_kw
    ∷ of Token.int_kw
    ∷ word (codes "x")
    ∷ of Token.equal
    ∷ number 1
    ∷ of Token.plus
    ∷ number 2
    ∷ of Token.star
    ∷ number 3
    ∷ of Token.semicolon
    ∷ of Token.end_of_input
    ∷ []

abbrev tree_of : Result (Node × BuildState) → Result Node
tree_of r = do (n, s) ← r; ok n

-- The trees that the tests expect.
abbrev integer_of : ℕ → ℕ → Tree
integer_of id n = node AstKind.int_ id 1 (
    attribute (codes "flags") AstAttributeType.integer (Tree.integer 0) (
      attribute (codes "width") AstAttributeType.integer (Tree.integer 0)
        (attribute (codes "value") AstAttributeType.integer (Tree.integer n) no_more)))

abbrev binary : ℕ → AstExprOperator → Tree → Tree → Tree
binary id op l r = node AstKind.binary_expr id 1 (
    attribute (codes "left_operand") AstAttributeType.ast (ast l) (
      attribute (codes "op") AstAttributeType.expr_operator (operator op)
        (attribute (codes "right_operand") AstAttributeType.ast (ast r) no_more)))

abbrev negated : ℕ → Tree → Tree
negated id e = node AstKind.unary_expr id 1 (
    attribute (codes "op") AstAttributeType.expr_operator (operator AstExprOperator.minus)
      (attribute (codes "expr") AstAttributeType.ast (ast e) no_more))

abbrev expression_of : List Token → Result Node
expression_of tokens =
    tree_of ((builders 20).build_expression 1 (at_first (of Token.start_of_input ∷ tokens)))

-- `1 + 2 * 3;` is a sum, `1 - 2 - 3;` a difference from a difference, and `-1 + 2;` the negation of a
-- sum.
expressions_run :
    (expression_of
        (number 1 ∷ of Token.plus ∷ number 2 ∷ of Token.star ∷ number 3 ∷ of Token.semicolon ∷ [])
      ≡ ok (
          some (
            binary 2 AstExprOperator.add
              (integer_of 1 1)
              (binary 4 AstExprOperator.mul (integer_of 3 2) (integer_of 5 3)))))
    × (expression_of (
          number 1
          ∷ of Token.minus
          ∷ number 2
          ∷ of Token.minus
          ∷ number 3
          ∷ of Token.semicolon
          ∷ [])
        ≡ ok (
            some (
              binary 4 AstExprOperator.sub
                (binary 2 AstExprOperator.sub (integer_of 1 1) (integer_of 3 2))
                (integer_of 5 3))))
    × (expression_of
          (of Token.unary_minus ∷ number 1 ∷ of Token.plus ∷ number 2 ∷ of Token.semicolon ∷ [])
        ≡ ok (some (negated 1 (binary 3 AstExprOperator.add (integer_of 2 1) (integer_of 4 2)))))
unfolding builders Operations.build_expression Operations.expression_loop Operations.operation
    Operations.binary_operation Operations.binary_expr Operations.opens_type_args Build.◌>>=◌ klass
    token lift pure expected next_token new_ast_node set_integer set_ast set_operator rounds at
    Expressions.build_expression_primary Expressions.unary_expr Names.build_integer Tree.set_attr
    Tree.has_attr Tree.put_attr Tree.attr_count str_eq next_parser_token skip_comments classify
    get_operator_priority token_to_binop token_is_expression token_is_expression_primary
    token_is_non_type_name token_is_expr_operator token_is_binary_operator
expressions_run = (refl, refl, refl)
