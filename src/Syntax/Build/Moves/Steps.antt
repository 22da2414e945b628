-- ===== src/Syntax/Build/Moves/Steps.antt =====
-- How far the steps go that the parser's functions are made of.
use Prim.Native.String.{String}
use dp4c.Prelude.{
  ℕ, ◌≡◌, refl, ap, arith, List, length, length-set, Bool, true, false, Option, none, some, ok,
  failed, Ensures, Ensures-bind, Ensures-of_eq, Ensures-ok, Ensures-mono, ◌∙◌, Ensures-ne_fuel,
  out_of_bounds, returns, stops,
}
use dp4c.Token.{Token, TokenClass, is}
use dp4c.Chain.{at}
use dp4c.Symtable.Ends.{Ends, ends_rules, at-Ends, new_type-Ends}
use dp4c.Syntax.Ends.{next_parser_token-Ends}
use dp4c.Ast.Kinds.{AstKind, AstAttributeType, AstExprOperator}
use dp4c.Syntax.Tokens.{Parser, next_parser_token}
use dp4c.Syntax.Tokens
use dp4c.Syntax.Stepping.{Stops, next_parser_token_lem}
use dp4c.Syntax.Tree.{Node, Nodes, Value, set_attr, node}
use dp4c.Syntax.Build.{
  BuildState, lift, token, klass, syntax_failure, unexpected, expected, next_token, peek_token,
  accept, new_ast_node, new_type, set_ast, set_list, set_integer, set_string, set_operator,
}
use dp4c.Syntax.Build.Moves.{left, Moved, Moves, Moves-pure, Moves-lift, Moves-bind}

token-Ends :
    (s : BuildState) (i : Option ℕ)
    → Ensures
        (λ (r : Token × BuildState). r.1 ≡ s)
        (elim i [ some i ↦ lift (at s.parser.tokens i) s | none ↦ failed out_of_bounds ])
unfolding lift
token-Ends s none = stops
token-Ends s (some i) = Ensures-bind (at-Ends s.parser.tokens i) λ t _. returns refl

stays : (s t : BuildState) → t ≡ s → Moved 0 s t
stays s t e = omega (
  arith,
  ap left e,
  ap (λ (u : BuildState). u.node_id) e,
  ap (λ (u : BuildState). u.node_count) e,
)

-- What `token` reads, if it reads: the state stays as it is.
pub here :
    (s : BuildState)
    → Ensures (λ (r : Token × BuildState). (token s ≡ ok (r.0, s)) × (r.1 ≡ s)) (token s)
unfolding token
here s = Ensures-of_eq _ (Ensures-ne_fuel (token-Ends s s.parser.token)) λ (t, s') e.
    let stay = Ensures-ok (token-Ends s s.parser.token) e in
    (e ∙ ap (λ (u : BuildState). ok (t, u)) stay, stay)

pub Moves-token : {n : ℕ} → Moves 0 n token
unfolding token
Moves-token = record {
  at = λ s low. Ensures-mono (token-Ends s s.parser.token) λ r e. stays s r.1 e;
}

pub Moves-klass : {n : ℕ} → Moves 0 n klass
unfolding klass
Moves-klass = Moves-bind token _ Moves-token λ t. Moves-pure t.klass

module _ {A : Type 0} where
  pub Moves-syntax_failure : {d n : ℕ} (text : String) → Moves {A = A} d n (syntax_failure text)
  unfolding syntax_failure lift
  Moves-syntax_failure text = Moves-bind token _ Moves-token λ t. record { at = λ s low. stops }

  pub Moves-unexpected : {d n : ℕ} → Moves {A = A} d n unexpected
  unfolding unexpected lift
  Moves-unexpected = Moves-bind token _ Moves-token λ t. record { at = λ s low. stops }

pub Moves-expected : {n : ℕ} (b : Bool) (text : String) → Moves 0 n (expected b text)
unfolding expected
Moves-expected true text = Moves-pure tt
Moves-expected false text = Moves-syntax_failure text

-- A step over the tokens, with what it has run.
step :
    (s : BuildState)
    → Ensures
        (λ (r : ℕ × Parser ℕ). next_parser_token s.page_size s.parser ≡ ok r)
        (next_parser_token s.page_size s.parser)
step s = Ensures-of_eq _ (Ensures-ne_fuel (next_parser_token-Ends s.page_size s.parser)) λ r e. e

same_length : (p q : Parser ℕ) (i : ℕ) → Stops p i q → length q.tokens ≡ length p.tokens
same_length p q i stop = ap length stop.writes.1 ∙ length-set p.tokens i _

pub Moves-next_token : {n : ℕ} → Moves 1 n next_token
unfolding next_token
Moves-next_token = record {
  at = λ s low. Ensures-bind (step s) λ (i, p) h.
      let stop = next_parser_token_lem s.page_size s.parser p i h in
      let same = same_length s.parser p i stop in
      let ahead = stop.ahead in
      let inside = stop.inside in let position = stop.position in returns (omega arith);
}

-- A look ahead goes back to the token that it came from.
looked :
    (s : BuildState)
    → Ensures
        (λ (r : ℕ × Parser ℕ).
          (length r.1.tokens ≡ length s.parser.tokens) × (r.1.token_at ≡ s.parser.token_at))
        (Tokens.peek_token s.page_size s.parser)
unfolding Tokens.peek_token
looked s = Ensures-bind (step s) λ (i, p) h.
    let stop = next_parser_token_lem s.page_size s.parser p i h in
    returns (same_length s.parser p i stop, stop.back)

pub Moves-peek_token : {n : ℕ} → Moves 0 n peek_token
unfolding peek_token
Moves-peek_token = record {
  at = λ s low.
      Ensures-bind (looked s)
        λ (i, q) (same, back). Ensures-bind (at-Ends q.tokens i) λ t _. returns (omega arith);
}

pub Moves-new_ast_node : {n : ℕ} (kind : AstKind) → Moves 0 n (new_ast_node kind)
unfolding new_ast_node
Moves-new_ast_node kind =
    Moves-bind token _ Moves-token λ t. record { at = λ s low. returns (omega arith) }

pub Moves-new_type : {n : ℕ} (name : List ℕ) (ast : Node) → Moves 0 n (new_type name ast)
unfolding new_type
Moves-new_type name none = record { at = λ s low. stops }
Moves-new_type name (some (node kind id line_nr attrs)) = record {
  at = λ s low.
      Ensures-bind (new_type-Ends s.page_size name (some id) s.parser.symtable)
        λ (_, t) _. returns (omega arith);
}

pub Moves-accept : {n : ℕ} (k : TokenClass) (text : String) → Moves 1 n (accept k text)
unfolding accept
Moves-accept k text = Moves-bind klass _ Moves-klass λ k'.
    Moves-bind (expected (is k' k) text) _ (Moves-expected (is k' k) text) λ _. Moves-next_token

set_attr-Ends :
    (name : String) (t : AstAttributeType) (value : Value) (ast : Node)
    → Ends (set_attr name t value ast)
unfolding set_attr
set_attr-Ends name t value none = stops
set_attr-Ends name t value (some (node kind id line_nr attrs)) = search ends_rules

pub Moves-set_attr :
    {n : ℕ} (name : String) (t : AstAttributeType) (value : Value) (ast : Node)
    → Moves 0 n (lift (set_attr name t value ast))
Moves-set_attr name t value ast = Moves-lift _ (set_attr-Ends name t value ast)

pub Moves-set_ast :
    {n : ℕ} (ast : Node) (name : String) (child : Node) → Moves 0 n (set_ast ast name child)
unfolding set_ast
Moves-set_ast ast name child = Moves-set_attr name _ _ ast

pub Moves-set_list :
    {n : ℕ} (ast : Node) (name : String) (nodes : Nodes) → Moves 0 n (set_list ast name nodes)
unfolding set_list
Moves-set_list ast name nodes = Moves-set_attr name _ _ ast

pub Moves-set_integer :
    {n : ℕ} (ast : Node) (name : String) (value : Value) → Moves 0 n (set_integer ast name value)
unfolding set_integer
Moves-set_integer ast name value = Moves-set_attr name _ value ast

pub Moves-set_string :
    {n : ℕ} (ast : Node) (name : String) (text : List ℕ) → Moves 0 n (set_string ast name text)
unfolding set_string
Moves-set_string ast name text = Moves-set_attr name _ _ ast

pub Moves-set_operator :
    {n : ℕ} (ast : Node) (name : String) (op : AstExprOperator)
    → Moves 0 n (set_operator ast name op)
unfolding set_operator
Moves-set_operator ast name op = Moves-set_attr name _ _ ast
