-- ===== src/Tests/Operators.antt =====
-- The theorems on the parser's operators and tokens, at an operator and at a short array.
use dp4c.Prelude.{
  refl, [], ◌∷◌, none, some, ℕ, ◌≤◌, ◌≡◌, ◌≢◌, ◌⊎◌, true, false, ok, failed, assertion,
}
use dp4c.Token.{Token, TokenClass, plus, equal, start_of_input, comment, semicolon, zero_token}
use dp4c.Chain.{at}
use dp4c.Symtable.Entries.{Symtable}
use dp4c.Syntax.Tokens.{Parser, skip_comments, classify, next_parser_token}
use dp4c.Syntax.Stepping.{Stops, next_parser_token_lem}
use dp4c.Ast.Kinds.{AstExprOperator}
use dp4c.Syntax.Classes.{token_is_binary_operator}
use dp4c.Syntax.Operators.{get_operator_priority, token_to_binop}
use dp4c.Syntax.Binary.{binary_operator_lem}

binary_operator_example :
    ((token_is_binary_operator plus ≡ true)
      × (plus ≢ equal)
      × (token_to_binop plus ≢ AstExprOperator.none_)
      × ((p : ℕ) × (get_operator_priority plus ≡ ok p) × (1 ≤ p) × (p ≤ 5)))
    ⊎ (((token_is_binary_operator plus ≡ false) ⊎ (plus ≡ equal))
        × (token_to_binop plus ≡ AstExprOperator.none_)
        × (get_operator_priority plus ≡ failed assertion))
binary_operator_example = binary_operator_lem plus

abbrev symbols : Symtable ℕ
symbols = record { array = []; capacity_log2 = 5; capacity = 0; entry_count = 0; scope_level = 0 }

abbrev token_of : TokenClass → Token
token_of k = record zero_token { klass = k }

-- The parser at the mark of the start, and at the semicolon behind a comment.
abbrev at_start : Parser ℕ
at_start = record {
  tokens = token_of start_of_input ∷ token_of comment ∷ token_of semicolon ∷ [];
  token_at = 0;
  token = none;
  prev_token_at = 0;
  prev_token = none;
  symtable = symbols;
}

abbrev at_semicolon : Parser ℕ
at_semicolon = record at_start { token_at = 2; token = some 2 }

next_parser_token_example : Stops at_start 2 at_semicolon
unfolding next_parser_token skip_comments at classify
next_parser_token_example = next_parser_token_lem 4096 at_start at_semicolon 2 refl
