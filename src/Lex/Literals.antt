-- ===== src/Lex/Literals.antt =====
-- String literals.
use dp4c.Prelude.{
  ℕ, zero, suc, ◌+◌, ◌≤◌, ◌<◌, ◌≡◌, inl, inr, refl, ap, ◌∙◌, arith, drop, Bool, true, false, not,
  Bool-cases, ◌||◌, ◌==◌, if◌then◌else◌, Result, ok, failed, assertion, ◌>>=◌,
}
use native.Mathlib.Decide.{dec_lt}
use dp4c.Token.{string_literal, zero_token}
use dp4c.Lex.Chars.{Lexer, text_size, char_at, rounds, lexeme_to_cstring}
use dp4c.Lex.Switch.{State, state_4, state_200, state_201, is_newline}
use dp4c.Lex.Operators.{first_state}
use dp4c.Lex.Texts.{string_loop, case_200}
use dp4c.Lex.Machine.{dispatch, next_token}
use dp4c.Lex.Scan.{
  span, span-drop, span-drop_stop, char_advance_lem, char_advance_fails, span_to_end, get_or-end,
}
use dp4c.Lex.Rounds.{accept_lem, is_space, dispatch-first, next_token-two, next_token-two_failed}

-- A character that the loop of a string literal passes over.
abbrev pub in_string : ℕ → Bool
in_string c = not (c == b'\\' || c == b'"')

quote-first_state : (c : ℕ) → c ≡ b'"' → first_state c ≡ ok state_200
unfolding first_state
quote-first_state c e = rw e

quote-not_space : (c : ℕ) → c ≡ b'"' → is_space c ≡ false
quote-not_space c e = rw e

-- The loop leaves the lexer at the offset `k`, in some state.
abbrev Leaves : Result (State × Lexer) → Lexer → ℕ → Type 0
Leaves r l k = (s : State) × (r ≡ ok (s, record l { stop = k }))

string_loop_stop :
    (fuel : ℕ) (s : State) (l : Lexer)
    → l.stop < text_size l
    → in_string (char_at l (suc l.stop)) ≡ false
    → Leaves (string_loop (suc fuel) s l) l (suc l.stop)
unfolding string_loop
string_loop_stop fuel s l h e =
    let c = char_at l (suc l.stop) in
    let step = char_advance_lem 1 l (suc l.stop) (omega arith) h in
    elim (Bool-cases (c == b'\\')) [
      | inl q ↦ (state_201, rw (step, ◌>>=◌, q))
      | inr q ↦
          let quoted : c == b'"' ≡ true = ground arith in
          ((if is_newline c then state_4 else s), rw (step, ◌>>=◌, q, quoted))
    ]

string_loop_more :
    (fuel : ℕ) (s : State) (l : Lexer)
    → l.stop < text_size l
    → in_string (char_at l (suc l.stop)) ≡ true
    → (s' : State) × (string_loop (suc fuel) s l
        ≡ string_loop fuel s' (record l { stop = suc l.stop }))
unfolding string_loop
string_loop_more fuel s l h e =
    let c = char_at l (suc l.stop) in
    let step = char_advance_lem 1 l (suc l.stop) (omega arith) h in
    let plain : c == b'\\' ≡ false = ground arith in
    let open_ : c == b'"' ≡ false = ground arith in
    ((if is_newline c then state_4 else s), rw (step, ◌>>=◌, plain, open_))

string_loop_at :
    (fuel : ℕ) (s : State) (l : Lexer) (i : ℕ)
    → suc i + span in_string (drop (suc i) l.text) < text_size l
    → text_size l < i + fuel
    → Leaves
        (string_loop fuel s (record l { stop = i }))
        l
        (suc i + span in_string (drop (suc i) l.text))
string_loop_at zero s l i h f = absurd (omega arith)
string_loop_at (suc fuel) s l i h f =
    let m = record l { stop = i } in
    elim (Bool-cases (in_string (char_at l (suc i)))) [
      | inr e ↦
          let (s', q) = string_loop_stop fuel s m (omega arith) e in
          let k : suc i ≡ suc i + span in_string (drop (suc i) l.text) =
            omega (arith, span-drop_stop in_string l.text (suc i) e) in
          (s', q ∙ ap (λ (j : ℕ). ok (s', record l { stop = j })) k)
      | inl e ↦
          let (s', q) = string_loop_more fuel s m (omega arith) e in
          let more = span-drop in_string l.text (suc i) (omega arith) e in
          let (t, r) = string_loop_at fuel s' l (suc i) (omega arith) (omega arith) in
          (t, q ∙ r ∙ ap (λ (j : ℕ). ok (t, record l { stop = j })) (omega (arith, more)))
    ]

string_loop_at_end :
    (fuel : ℕ) (s : State) (l : Lexer) (i : ℕ)
    → text_size l ≤ suc i + span in_string (drop (suc i) l.text)
    → i ≤ text_size l
    → text_size l < i + fuel
    → string_loop fuel s (record l { stop = i }) ≡ failed assertion
string_loop_at_end zero s l i e h f = absurd (omega arith)
string_loop_at_end (suc fuel) s l i e h f = elim (dec_lt i (text_size l)) [
  | no at_end ↦
      unfold string_loop in rw (char_advance_fails 1 (record l { stop = i }) (omega arith))
  | yes lt ↦ elim (Bool-cases (in_string (char_at l (suc i)))) [
    | inr stop ↦
        let short = span-drop_stop in_string l.text (suc i) stop in
        let last : in_string 0 ≡ false = rw (get_or-end l.text (suc i) 0 (omega arith)) at stop in
        cc
    | inl more ↦
        let (s', q) = string_loop_more fuel s (record l { stop = i }) lt more in
        q
        ∙ string_loop_at_end fuel s' l (suc i) (span_to_end in_string l.text (suc i) e more) lt
            (omega arith)
  ]
]

-- At a quote. `string_end` is the offset of the first quote or backslash behind it, or the end of the
-- text.
module _ (l : Lexer) (quote : char_at l l.stop ≡ b'"') (h : l.stop < text_size l) where
  abbrev pub string_end : ℕ
  string_end = suc l.stop + span in_string (drop (suc l.stop) l.text)

  -- At a quote with another quote or a backslash somewhere behind it, `next_token` returns a string
  -- literal that ends with the first of those: a backslash escapes nothing, and a newline in the
  -- literal is neither an error nor counted.
  pub next_token_string :
      string_end < text_size l
      → next_token l
        ≡ ok (
          record zero_token {
            klass = string_literal;
            lexeme = lexeme_to_cstring l (record { start = l.start; stop = string_end });
            line_nr = l.line_nr;
          },
          record l { start = suc string_end; stop = suc string_end },
        )
  unfolding lexeme_to_cstring
  next_token_string found =
      let (s, q) = string_loop_at (rounds l) state_200 l l.stop found (omega arith) in
      next_token-two l (omega arith) state_200 refl
        (dispatch-first l zero_token state_200 (quote-not_space _ quote)
          (quote-first_state _ quote))
        (record l { start = suc string_end; stop = suc string_end })
        (record zero_token {
          klass = string_literal;
          lexeme = lexeme_to_cstring l (record { start = l.start; stop = string_end });
        })
        (unfold dispatch case_200 in
          rw q (
            accept_lem string_literal (record l { stop = string_end }) zero_token (suc string_end)
              (omega arith) (omega arith)))

  -- At a quote with neither a quote nor a backslash behind it, `next_token` is a failed assertion.
  pub next_token_string_at_end : text_size l ≤ string_end → next_token l ≡ failed assertion
  next_token_string_at_end e =
      next_token-two_failed l (omega arith) state_200 refl
        (dispatch-first l zero_token state_200 (quote-not_space _ quote)
          (quote-first_state _ quote))
        (unfold dispatch case_200 in
          rw (string_loop_at_end (rounds l) state_200 l l.stop e (omega arith) (omega arith)))
