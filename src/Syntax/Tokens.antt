-- ===== src/Syntax/Tokens.antt =====
-- build_ast.c: the parser's steps over the array of tokens. `token` is the index of the token that the
-- pointer stands at; the class of that token is written to the array.
use dp4c.Prelude.{
  ℕ, ◌+◌, List, [], ◌∷◌, length, set, drop, true, false, ltb, if◌then◌else◌, Option, none, some,
  Result, ok, failed, assertion, out_of_bounds, assert, ◌>>=◌, ◌>>◌,
}
use dp4c.Token.{Token, TokenClass, is, comment, identifier, type_identifier}
use dp4c.Chain.{at}
use dp4c.Symtable.Entries.{Symbol, Symtable, keyword, type_}
use dp4c.Symtable.Table.{get_symtable_entry}

module _ (V : Type 0) where
  pub record Parser : Type 0 where
    pub tokens : List Token
    pub token_at : ℕ
    pub token : Option ℕ
    pub prev_token_at : ℕ
    pub prev_token : Option ℕ
    pub symtable : Symtable V

-- The index of the first token of a list that is no comment, where the list starts at the index `i`;
-- behind the array `array_get` fails.
unfoldable pub skip_comments : List Token → ℕ → Result ℕ
skip_comments [] i = failed assertion
skip_comments (t ∷ tokens) i = if is t.klass comment then skip_comments tokens (i + 1) else ok i

module _ {V : Type 0} where
  -- The class of an identifier with an entry. A keyword has a class.
  unfoldable pub type_class : List (Symbol V) → TokenClass
  type_class [] = identifier
  type_class (s ∷ _) = elim s.ident_kind [ type_ ↦ type_identifier | _ ↦ identifier ]

  unfoldable pub entry_class : List (Symbol V) → List (Symbol V) → Result TokenClass
  entry_class [] types = ok (type_class types)
  entry_class (s ∷ _) types = elim s.ident_kind [
    | keyword ↦ elim s.token_klass [ some k ↦ ok k | none ↦ failed out_of_bounds ]
    | _ ↦ ok (type_class types)
  ]

  -- The new class of a token, and the symbol table, which a lookup may extend.
  unfoldable pub classify : ℕ → Token → Symtable V → Result (TokenClass × Symtable V)
  classify page_size t symtable = elim (is t.klass identifier) [
    | false ↦ ok (t.klass, symtable)
    | true ↦ do
      (e, symtable') ← get_symtable_entry page_size t.lexeme symtable
      k ← entry_class e.id_kw e.id_type
      ok (k, symtable')
  ]

  unfoldable pub next_parser_token : ℕ → Parser V → Result (ℕ × Parser V)
  next_parser_token page_size p = do
    assert (ltb p.token_at (length p.tokens))
    i ← skip_comments (drop (p.token_at + 1) p.tokens) (p.token_at + 1)
    t ← at p.tokens i
    (k, symtable) ← classify page_size t p.symtable
    ok (
      i,
      record p {
        tokens = set p.tokens i (record t { klass = k });
        token_at = i;
        token = some i;
        prev_token_at = p.token_at;
        prev_token = p.token;
        symtable = symtable;
      },
    )

  unfoldable pub peek_token : ℕ → Parser V → Result (ℕ × Parser V)
  peek_token page_size p = do
    (i, q) ← next_parser_token page_size p
    ok (i, record q { token = q.prev_token; token_at = q.prev_token_at })
