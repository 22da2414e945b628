-- ===== src/Lex/Stream.antt =====
-- `lex_tokenize` ends at every text, and what the array of tokens then holds.
use dp4c.Prelude.{
  ℕ, zero, suc, ◌+◌, ◌≤◌, ◌≡◌, ◌≢◌, ◌⊎◌, inl, inr, refl, ap, ◌∙◌, arith, List, [], ◌∷◌, length,
  true, false, Bool-cases, ok, out_of_fuel, Ensures, returns, Ensures-bind, Ensures-mono,
  Ensures-of_eq,
}
use dp4c.Token.{Token, TokenClass, start_of_input, end_of_input, unknown, lexical_error}
use dp4c.Lex.Chars.{Lexer, text_size}
use dp4c.Lex.Machine.{append_token, check_token, tokens_loop, initial, lex_tokenize}
use dp4c.Lex.Progress.{Reads-stop_le}
use dp4c.Lex.Steps.Run.{HasRead, next_token-HasRead}

-- A token that a caller may see in the middle of the input.
abbrev pub IsPlain : TokenClass → Type 0
IsPlain k = (k ≢ end_of_input) × (k ≢ unknown) × (k ≢ lexical_error)

-- The tokens read so far, the last one first, on lines up to `line`: the mark of the start, then
-- plain tokens, whose lines do not decrease.
abbrev pub IsPrefixStream : ℕ → List Token → Type 0
IsPrefixStream line [] = ⊥
IsPrefixStream line (t ∷ []) = (t.klass ≡ start_of_input) × (t.line_nr ≤ line)
IsPrefixStream line (t ∷ u ∷ ts) =
    IsPlain t.klass × (t.line_nr ≤ line) × IsPrefixStream t.line_nr (u ∷ ts)

-- A whole stream: the end of the input stands behind such tokens, and nowhere else.
abbrev pub IsStream : List Token → Type 0
IsStream [] = ⊥
IsStream (t ∷ ts) = (t.klass ≡ end_of_input) × IsPrefixStream t.line_nr ts

check_token-true : (k : TokenClass) (line : ℕ) → check_token k line ≡ ok true → k ≡ end_of_input
unfolding check_token
check_token-true end_of_input line h = refl
check_token-true _ line h = cc

check_token-false : (k : TokenClass) (line : ℕ) → check_token k line ≡ ok false → IsPlain k
unfolding check_token
check_token-false end_of_input line h = cc
check_token-false _ line h = ((λ e. cc), (λ e. cc), (λ e. cc))

check_token-ne_fuel : (k : TokenClass) (line : ℕ) → check_token k line ≢ out_of_fuel
unfolding check_token
check_token-ne_fuel end_of_input line h = cc
check_token-ne_fuel _ line h = cc

-- The fuel that the loop needs at a token.
abbrev Enough : ℕ → Token → Lexer → Type 0
Enough fuel token l =
    ((token.klass ≡ end_of_input) × (1 ≤ fuel)) ⊎ (text_size l + 2 ≤ l.stop + fuel)

grow_stream :
    (t t' : Token) (ts : List Token)
    → IsPlain t.klass
    → t.line_nr ≤ t'.line_nr
    → IsPrefixStream t.line_nr ts
    → IsPrefixStream t'.line_nr (t ∷ ts)
grow_stream t t' [] p h s = absurd s
grow_stream t t' (u ∷ ts) p h s = (p, h, s)

spend_fuel :
    (fuel : ℕ) (token : Token) (l l' : Lexer) (token' : Token)
    → token.klass ≢ end_of_input
    → HasRead l l' token'
    → Enough (suc fuel) token l
    → Enough fuel token' (append_token token' l')
spend_fuel fuel token l l' token' n h (inl (e, _)) = absurd (n e)
spend_fuel fuel token l l' token' n h (inr room) = elim h.moves [
  | inl e ↦ inl (e, omega (arith, h.reads.within, h.reads.ahead))
  | inr lt ↦ inr (rw h.reads.text_eq (omega arith))
]

tokens_loop-IsStream :
    (fuel : ℕ) (token : Token) (l : Lexer) (ts : List Token)
    → l.tokens ≡ token ∷ ts
    → l.start ≡ l.stop
    → l.stop ≤ text_size l
    → token.line_nr ≡ l.line_nr
    → IsPrefixStream token.line_nr ts
    → Enough fuel token l
    → Ensures
        (λ m. (m.text ≡ l.text) × (m.stop ≤ text_size l) × IsStream m.tokens)
        (tokens_loop fuel token l)
unfolding tokens_loop
tokens_loop-IsStream zero token l ts eq f w line s h = absurd (omega arith)
tokens_loop-IsStream (suc fuel) token l ts eq f w line s h =
    Ensures-bind
      (Ensures-of_eq {P = λ b. check_token token.klass token.line_nr ≡ ok b} _
        (check_token-ne_fuel token.klass token.line_nr) (λ b e. e))
      λ done e. elim (Bool-cases done) [
        | inl d ↦
            rw d (
              returns
                (refl, w, rw eq (check_token-true token.klass token.line_nr (e ∙ ap ok d), s)))
        | inr d ↦
            let plain = check_token-false token.klass token.line_nr (e ∙ ap ok d) in
            rw d (
              Ensures-bind (next_token-HasRead l f) λ r (h', line').
                let r' = h'.reads in
                Ensures-mono
                  (tokens_loop-IsStream fuel r.0 (append_token r.0 r.1) r.1.tokens refl h'.empty
                    (Reads-stop_le r') line'
                    (rw (r'.tokens_eq, eq)
                      (grow_stream token r.0 ts plain (omega (arith, r'.lines)) s))
                    (spend_fuel fuel token l r.1 r.0 plain.0 h' h))
                  (λ q (a, b, c). (a ∙ r'.text_eq, rw r'.text_eq at b, c)))
      ]

-- The lexer returns or stops with a failure, at every text. If it returns then the text is the one
-- that was given, the lexer stands within it, and the tokens are the mark of the start, plain tokens
-- (none is unknown or an error) on lines that do not decrease, and the end of the input.
pub lex_tokenize-IsStream :
    (text : List ℕ)
    → Ensures
        (λ l. (l.text ≡ text) × (l.stop ≤ length text) × IsStream l.tokens)
        (lex_tokenize text)
unfolding lex_tokenize
lex_tokenize-IsStream text = Ensures-bind (next_token-HasRead (initial text) refl) λ r (h, line).
    let e = h.reads.tokens_eq in
    let room : Enough (length text + 1) r.0 (append_token r.0 r.1) = elim h.moves [
      | inl end ↦ inl (end, omega arith)
      | inr lt ↦ inr (rw h.reads.text_eq (omega arith))
    ] in
    Ensures-mono
      (tokens_loop-IsStream (length text + 1) r.0 (append_token r.0 r.1) r.1.tokens refl h.empty
        (Reads-stop_le h.reads) line (rw e (refl, omega arith)) room)
      (λ m (a, b, c). (a ∙ h.reads.text_eq, rw h.reads.text_eq at b, c))
