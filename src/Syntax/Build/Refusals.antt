-- ===== src/Syntax/Build/Refusals.antt =====
-- build_ast.c: a function whose return type is `void` or an unknown name.
use dp4c.Prelude.{ℕ, suc, ◌≡◌, ◌⊎◌, inl, inr, ok, failed, error, syntax_error, false}
use dp4c.Token.{Token, TokenClass, void_kw, identifier}
use dp4c.Syntax.Classes.{
  token_is_declaration, token_is_type_declaration, token_is_derived_type_declaration,
  token_is_type_ref, token_is_base_type, token_is_prefixed_type, token_is_type_or_void,
}
use dp4c.Syntax.Build.{
  BuildState, Builders, lift, token, klass, pure, expected, syntax_failure, ◌>>=◌,
}
use dp4c.Syntax.Build.Types.{build_type_ref}
use dp4c.Syntax.Build.Declarations.{build_declaration, build_function_declaration}
use dp4c.Syntax.Build.Program.{builders}

-- The two classes that `token_is_typeOrVoid` has beside those of `token_is_typeRef`.
abbrev pub IsUntyped : TokenClass → Type 0
IsUntyped k = (k ≡ void_kw) ⊎ (k ≡ identifier)

not_type_ref : (k : TokenClass) → IsUntyped k → token_is_type_ref k ≡ false
unfolding token_is_type_ref token_is_base_type token_is_prefixed_type
not_type_ref k (inl e) = rw e
not_type_ref k (inr e) = rw e

module _ (s : BuildState) (t : Token) (now : token s ≡ ok (t, s)) where
  klass_now : klass s ≡ ok (t.klass, s)
  unfolding klass ◌>>=◌ pure
  klass_now = rw now

  type_ref_refused :
      (b : Builders)
      → token_is_type_ref t.klass ≡ false
      → build_type_ref b s ≡ failed (error (syntax_error t.line_nr "type was expected" t.lexeme))
  unfolding build_type_ref ◌>>=◌ expected syntax_failure lift
  type_ref_refused b other = rw klass_now (rw other (rw now))

  type_first :
      (b : Builders)
      → IsUntyped t.klass
      → build_declaration b s ≡ (b.build_type_ref >>= build_function_declaration b) s
  unfolding build_declaration ◌>>=◌ expected pure token_is_declaration token_is_type_declaration
      token_is_derived_type_declaration token_is_type_ref token_is_base_type token_is_prefixed_type
      token_is_type_or_void
  type_first b (inl e) = rw klass_now (rw e)
  type_first b (inr e) = rw klass_now (rw e)

  -- A declaration that begins with `void`, or with an identifier that is no type, is refused: the
  -- message is that a type was expected, at that token.
  pub untyped_function_refused :
      (fuel : ℕ)
      → IsUntyped t.klass
      → build_declaration (builders (suc fuel)) s
        ≡ failed (error (syntax_error t.line_nr "type was expected" t.lexeme))
  unfolding builders ◌>>=◌
  untyped_function_refused fuel untyped =
      rw (type_first (builders (suc fuel)) untyped)
        (rw (type_ref_refused (builders fuel) (not_type_ref t.klass untyped)))
