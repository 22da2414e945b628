-- ===== src/Syntax/Ends.antt =====
-- build_ast.c: a step of the parser over the tokens ends, with the next token or with a failure.
use dp4c.Prelude.{ℕ, ◌+◌, List, [], ◌∷◌, Option, none, some, ok, failed, returns, stops}
use dp4c.Prelude.{out_of_bounds}
use dp4c.Token.{Token, TokenClass, is, identifier}
use dp4c.Symtable.Entries.{Symbol, Symtable, SymbolKind, keyword, type_, ident}
use dp4c.Symtable.Ends.{Ends, ends_rules, Ends-bind, Ends-elim, if-Ends, get_symtable_entry-Ends}
use dp4c.Syntax.Tokens.{Parser, entry_class, classify, skip_comments, next_parser_token}

skip_comments-Ends : (tokens : List Token) (i : ℕ) → Ends (skip_comments tokens i)
unfolding skip_comments
skip_comments-Ends [] i = stops
skip_comments-Ends (t ∷ tokens) i = if-Ends _ _ _ (skip_comments-Ends tokens (i + 1)) (returns tt)

keyword_class-Ends :
    (kind : SymbolKind) (klass : Option TokenClass) (other : TokenClass)
    → Ends (elim kind [
      | keyword ↦ elim klass [ some k ↦ ok k | none ↦ failed out_of_bounds ]
      | _ ↦ ok other
    ])
keyword_class-Ends keyword (some k) other = returns tt
keyword_class-Ends keyword none other = stops
keyword_class-Ends SymbolKind.none_ klass other = returns tt
keyword_class-Ends type_ klass other = returns tt
keyword_class-Ends ident klass other = returns tt

module _ {V : Type 0} where
  entry_class-Ends : (keywords types : List (Symbol V)) → Ends (entry_class keywords types)
  unfolding entry_class
  entry_class-Ends [] types = returns tt
  entry_class-Ends (s ∷ rest) types = keyword_class-Ends s.ident_kind s.token_klass _

  classify-Ends :
      (page_size : ℕ) (t : Token) (table : Symtable V) → Ends (classify page_size t table)
  unfolding classify
  classify-Ends page_size t table =
      Ends-elim (is t.klass identifier) _ _
        (Ends-bind _ _ (get_symtable_entry-Ends page_size t.lexeme table)
          λ (e, table'). Ends-bind _ _ (entry_class-Ends e.id_kw e.id_type) λ k. returns tt)
        (returns tt)

  pub next_parser_token-Ends : (page_size : ℕ) (p : Parser V) → Ends (next_parser_token page_size p)
  unfolding next_parser_token
  next_parser_token-Ends page_size p =
      search (ends_rules, skip_comments-Ends, classify-Ends) depth 20 fits 3000
