-- ===== src/Lex/Scan.antt =====
-- The loops of the lexer against the text that is left: how far they run, and what a lexeme copies.
use native.Mathlib.Decide.{dec_lt}
use dp4c.Prelude.{
  ℕ, zero, suc, ◌+◌, ◌-◌, ◌≤◌, ◌<◌, ◌≡◌, ◌⊎◌, inl, inr, refl, ap, ◌∙◌, arith, List, [], ◌∷◌, length,
  get_or, drop, take, Bool, true, false, Bool-cases, le→leb, ◌==◌, ==_iff, if◌then◌else◌, Result,
  ok, failed, assertion,
}
use dp4c.Lex.Chars.{
  Lexer, Lexeme, text_size, char_at, char_advance, advance_while, rounds, lexeme_copy, until_nul,
  lexeme_to_cstring,
}

module _ {ℓ} {A : Type ℓ} where
  pub drop-cons :
      (xs : List A) (i : ℕ) (d : A) → i < length xs → drop i xs ≡ get_or xs i d ∷ drop (suc i) xs
  drop-cons [] i d h = elim h [ ]
  drop-cons (x ∷ xs) zero d h = refl
  drop-cons (x ∷ xs) (suc i) d h = drop-cons xs i d (omega arith)

  pub drop-nil : (xs : List A) (i : ℕ) → length xs ≤ i → drop i xs ≡ []
  drop-nil [] zero h = refl
  drop-nil [] (suc i) h = refl
  drop-nil (x ∷ xs) zero h = absurd (omega arith)
  drop-nil (x ∷ xs) (suc i) h = drop-nil xs i (omega arith)

  pub get_or-end : (xs : List A) (i : ℕ) (d : A) → length xs ≤ i → get_or xs i d ≡ d
  get_or-end [] i d h = refl
  get_or-end (x ∷ xs) zero d h = absurd (omega arith)
  get_or-end (x ∷ xs) (suc i) d h = get_or-end xs i d (omega arith)

  pub length-drop : (xs : List A) (i : ℕ) → length (drop i xs) ≡ length xs - i
  length-drop [] zero = omega arith
  length-drop [] (suc i) = omega arith
  length-drop (x ∷ xs) zero = omega arith
  length-drop (x ∷ xs) (suc i) = omega (arith, length-drop xs i)

-- The number of characters at the front of a text that pass a test.
unfoldable pub span : (ℕ → Bool) → List ℕ → ℕ
span p [] = 0
span p (c ∷ cs) = if p c then suc (span p cs) else 0

pub span_le : (p : ℕ → Bool) (cs : List ℕ) → span p cs ≤ length cs
unfolding span
span_le p [] = omega arith
span_le p (c ∷ cs) = ground (arith, span_le p cs)

pub char_advance_lem :
    (pos : ℕ) (l : Lexer) (k : ℕ)
    → l.stop + pos ≡ k
    → k ≤ text_size l
    → char_advance pos l ≡ ok (char_at l k, record l { stop = k })
unfolding char_advance
char_advance_lem pos l k e h =
    rw (le→leb (l.stop + pos) (text_size l) (omega arith))
      (ap (λ (i : ℕ). ok (char_at l i, record l { stop = i })) e)

pub char_advance_fails :
    (pos : ℕ) (l : Lexer) → text_size l < l.stop + pos → char_advance pos l ≡ failed assertion
unfolding char_advance
char_advance_fails pos l h = ground arith

-- The result of a loop that stops at the offset `k`.
abbrev pub stopped : Lexer → ℕ → Result (ℕ × Lexer)
stopped l k = ok (char_at l k, record l { stop = k })

-- A test that always answers, as `p` does.
abbrev pub Decides : (ℕ → Result Bool) → (ℕ → Bool) → Type 0
Decides test p = (c : ℕ) → test c ≡ ok (p c)

pub span-drop :
    (p : ℕ → Bool) (text : List ℕ) (i : ℕ)
    → i < length text
    → p (get_or text i 0) ≡ true
    → span p (drop i text) ≡ suc (span p (drop (suc i) text))
unfolding span
span-drop p text i h e = rw (drop-cons text i 0 h, e)

pub span-drop_stop :
    (p : ℕ → Bool) (text : List ℕ) (i : ℕ) → p (get_or text i 0) ≡ false → span p (drop i text) ≡ 0
unfolding span
span-drop_stop p [] zero e = refl
span-drop_stop p [] (suc i) e = refl
span-drop_stop p (x ∷ xs) zero e = rw e
span-drop_stop p (x ∷ xs) (suc i) e = span-drop_stop p xs i e

-- A character that passes a test stands within the text, if the NUL fails it.
pub passes-lt :
    (p : ℕ → Bool) (text : List ℕ) (i : ℕ)
    → p 0 ≡ false
    → p (get_or text i 0) ≡ true
    → i < length text
passes-lt p text i z e = elim (dec_lt i (length text)) [
  | yes h ↦ h
  | no h ↦ cc (get_or-end text i 0 (omega arith))
]

-- If a run reaches the end of the text then so does the run from the next character.
pub span_to_end :
    (p : ℕ → Bool) (text : List ℕ) (i : ℕ)
    → length text ≤ i + span p (drop i text)
    → p (get_or text i 0) ≡ true
    → length text ≤ suc i + span p (drop (suc i) text)
span_to_end p text i h e = elim (dec_lt i (length text)) [
  | yes lt ↦ omega (arith, span-drop p text i lt e)
  | no ge ↦ omega arith
]

module _ (test : ℕ → Result Bool) (p : ℕ → Bool) (decides : Decides test p) where
  advance_while_step :
      (fuel : ℕ) (l : Lexer)
      → l.stop < text_size l
      → advance_while (suc fuel) test l ≡ (elim (p (char_at l (suc l.stop))) [
        | true ↦ advance_while fuel test (record l { stop = suc l.stop })
        | false ↦ stopped l (suc l.stop)
      ])
  unfolding advance_while
  advance_while_step fuel l h =
      rw (char_advance_lem 1 l (suc l.stop) (omega arith) h, decides (char_at l (suc l.stop)))

  -- The loop from the offset `i`: it stops at the first character behind that fails the test, if
  -- there is one.
  advance_while_at :
      (fuel : ℕ) (l : Lexer) (i : ℕ)
      → (p 0 ≡ false) ⊎ (suc i + span p (drop (suc i) l.text) < text_size l)
      → i < text_size l
      → text_size l < i + fuel
      → advance_while fuel test (record l { stop = i })
        ≡ stopped l (suc i + span p (drop (suc i) l.text))
  advance_while_at zero l i z h f = absurd (omega arith)
  advance_while_at (suc fuel) l i z h f =
      rw (advance_while_step fuel (record l { stop = i }) h)
        (elim (Bool-cases (p (char_at l (suc i)))) [
          | inr e ↦ rw e (ap (stopped l) (omega (arith, span-drop_stop p l.text (suc i) e)))
          | inl e ↦
              let room : suc i < text_size l = elim z [
                | inl q ↦ passes-lt p l.text (suc i) q e
                | inr lt ↦ omega arith
              ] in
              let more = span-drop p l.text (suc i) room e in
              rw e (
                advance_while_at fuel l (suc i)
                  (elim z [ inl q ↦ inl q | inr lt ↦ inr (omega arith) ]) room (omega arith)
                ∙ ap (stopped l) (omega (arith, more)))
        ])

  pub advance_while-span :
      (l : Lexer)
      → (p 0 ≡ false) ⊎ (suc l.stop + span p (drop (suc l.stop) l.text) < text_size l)
      → l.stop < text_size l
      → advance_while (rounds l) test l ≡ stopped l (suc l.stop + span p (drop (suc l.stop) l.text))
  advance_while-span l z h = advance_while_at (rounds l) l l.stop z h (omega arith)

  advance_while_at_end :
      (fuel : ℕ) (l : Lexer) (i : ℕ)
      → p 0 ≡ true
      → text_size l ≤ suc i + span p (drop (suc i) l.text)
      → i ≤ text_size l
      → text_size l < i + fuel
      → advance_while fuel test (record l { stop = i }) ≡ failed assertion
  advance_while_at_end zero l i z e h f = absurd (omega arith)
  advance_while_at_end (suc fuel) l i z e h f = elim (dec_lt i (text_size l)) [
    | no at_end ↦
        unfold advance_while in rw (char_advance_fails 1 (record l { stop = i }) (omega arith))
    | yes lt ↦
        rw (advance_while_step fuel (record l { stop = i }) lt)
          (elim (Bool-cases (p (char_at l (suc i)))) [
            | inr stop ↦
                let short = span-drop_stop p l.text (suc i) stop in
                let last : p 0 ≡ false = rw (get_or-end l.text (suc i) 0 (omega arith)) at stop in
                cc
            | inl more ↦ rw more (
                advance_while_at_end fuel l (suc i) z (span_to_end p l.text (suc i) e more) lt
                  (omega arith))
          ])
  ]

  -- Where no character fails the test, and the NUL does not either, the loop leaves the text.
  pub advance_while_fails :
      (l : Lexer)
      → p 0 ≡ true
      → text_size l ≤ suc l.stop + span p (drop (suc l.stop) l.text)
      → l.stop ≤ text_size l
      → advance_while (rounds l) test l ≡ failed assertion
  advance_while_fails l z e h = advance_while_at_end (rounds l) l l.stop z e h (omega arith)

differs : (p : ℕ → Bool) (c d : ℕ) → p c ≡ true → p d ≡ false → c == d ≡ false
differs p c d e z = elim (Bool-cases (c == d)) [ inr h ↦ h | inl h ↦ cc ((==_iff c d).0 h) ]

copy-cons :
    (c : ℕ) (cs : List ℕ) (n : ℕ)
    → c == b'\\' ≡ false
    → lexeme_copy (c ∷ cs) (suc n) ≡ c ∷ lexeme_copy cs n
unfolding lexeme_copy
copy-cons c cs zero e = rw e
copy-cons c cs (suc n) e = rw (e, lexeme_copy)

copy-span :
    (p : ℕ → Bool) (src : List ℕ) (n : ℕ)
    → p b'\\' ≡ false
    → p 0 ≡ false
    → n ≤ span p src
    → until_nul (lexeme_copy src n) ≡ take n src
unfolding span until_nul
copy-span p src zero b z h = unfold lexeme_copy in refl
copy-span p [] (suc n) b z h = absurd (omega arith)
copy-span p (c ∷ cs) (suc n) b z h = elim (Bool-cases (p c)) [
  | inr e ↦ absurd (omega (arith, rw e at h))
  | inl e ↦
      rw (copy-cons c cs n (differs p c b'\\' e b), differs p c 0 e z)
        (ap (◌∷◌ c) (copy-span p cs n b z (omega (arith, rw e at h))))
]

-- A lexeme of characters that pass a test, which a backslash and the NUL fail, is copied as it is.
pub lexeme_to_cstring-span :
    (p : ℕ → Bool) (l : Lexer) (x : Lexeme) (n : ℕ)
    → x.stop + 1 ≡ x.start + n
    → p b'\\' ≡ false
    → p 0 ≡ false
    → n ≤ span p (drop x.start l.text)
    → lexeme_to_cstring l x ≡ take n (drop x.start l.text)
unfolding lexeme_to_cstring
lexeme_to_cstring-span p l x n e b z h =
    let size : x.stop + 1 - x.start ≡ n = omega arith in
    rw size (copy-span p (drop x.start l.text) n b z h)
