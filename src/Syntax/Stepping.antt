-- ===== src/Syntax/Stepping.antt =====
-- Where a step of the parser over the tokens stops.
use dp4c.Lex.Scan.{length-drop}
use dp4c.Prelude.{
  >>=-eq-ok, some, ℕ, zero, suc, ◌+◌, ◌-◌, ◌≤◌, ◌<◌, ◌≡◌, inl, inr, refl, sym, ap, ◌∙◌, arith, List,
  [], ◌∷◌, length, get_or, drop, set, true, false, ltb, Bool, Bool-cases, ok, assert,
}
use dp4c.Token.{Token, TokenClass, is, comment, zero_token}
use dp4c.Chain.{at}
use dp4c.Syntax.Tokens.{Parser, skip_comments, classify, next_parser_token}

-- Whether the token at an index is a comment.
abbrev pub is_comment : List Token → ℕ → Bool
is_comment tokens i = is (get_or tokens i zero_token).klass comment

before :
    (t : Token) (tokens : List Token) (k : ℕ)
    → is t.klass comment ≡ true
    → ((m : ℕ) → m < k → is_comment tokens m ≡ true)
    → (m : ℕ) → m < suc k
    → is_comment (t ∷ tokens) m ≡ true
before t tokens k q skipped zero lt = q
before t tokens k q skipped (suc m) lt = skipped m (omega arith)

skip_comments_lem :
    (tokens : List Token) (i j : ℕ)
    → skip_comments tokens i ≡ ok j
    → (k : ℕ) × (j ≡ i + k)
      × (k < length tokens)
      × (is_comment tokens k ≡ false)
      × ((m : ℕ) → m < k → is_comment tokens m ≡ true)
unfolding skip_comments
skip_comments_lem [] i j h = cc
skip_comments_lem (t ∷ tokens) i j h = elim (Bool-cases (is t.klass comment)) [
  | inr q ↦
      let e : i ≡ j = cc (rw q at h) in
      (0, omega arith, omega arith, q, λ m lt. absurd (omega arith))
  | inl q ↦
      let (k, e, inside, stop, skipped) = skip_comments_lem tokens (i + 1) j (rw q at h) in
      (suc k, omega arith, omega arith, stop, λ m lt. before t tokens k q skipped m lt)
]

get_or-drop :
    (tokens : List Token) (n k : ℕ)
    → get_or (drop n tokens) k zero_token ≡ get_or tokens (n + k) zero_token
get_or-drop tokens zero k =
    (let e : k ≡ 0 + k = omega arith in ap (λ (i : ℕ). get_or tokens i zero_token) e)
get_or-drop [] (suc n) k = refl
get_or-drop (t ∷ tokens) (suc n) k =
    let e : suc (n + k) ≡ suc n + k = omega arith in
    get_or-drop tokens n k ∙ ap (λ (i : ℕ). get_or (t ∷ tokens) i zero_token) e

at-get :
    (tokens : List Token) (i : ℕ) (t : Token) → at tokens i ≡ ok t → t ≡ get_or tokens i zero_token
unfolding at
at-get [] i t h = cc
at-get (x ∷ tokens) zero t h = cc
at-get (x ∷ tokens) (suc i) t h = at-get tokens i t h

-- The same of the rest of the array.
skip_from :
    (tokens : List Token) (n j : ℕ)
    → skip_comments (drop n tokens) n ≡ ok j
    → (n ≤ j)
      × (j < length tokens)
      × (is_comment tokens j ≡ false)
      × ((m : ℕ) → n ≤ m → m < j → is_comment tokens m ≡ true)
skip_from tokens n j h =
    let (k, e, inside, stop, skipped) = skip_comments_lem (drop n tokens) n j h in
    let at_k = ap (λ (t : Token). is t.klass comment) (get_or-drop tokens n k) in
    (
      omega arith,
      omega (arith, length-drop tokens n),
      ap (is_comment tokens) e ∙ sym at_k ∙ stop,
      λ m low high.
          let d : m ≡ n + (m - n) = omega arith in
          ap (is_comment tokens) d
          ∙ sym (ap (λ (t : Token). is t.klass comment) (get_or-drop tokens n (m - n)))
          ∙ skipped (m - n) (omega arith),
    )

set_same :
    (tokens : List Token) (j i : ℕ) (t : Token) (k : TokenClass)
    → t ≡ get_or tokens j zero_token
    → j ≡ i
    → set tokens j (record t { klass = k })
      ≡ set tokens i (record (get_or tokens i zero_token) { klass = k })
set_same tokens j i t k read same =
    ap (λ (u : Token). set tokens j (record u { klass = k })) read
    ∙ ap (λ (n : ℕ). set tokens n (record (get_or tokens n zero_token) { klass = k })) same

module _ {V : Type 0} where
  -- Where a step stops, and what it writes.
  pub record Stops (p : Parser V) (i : ℕ) (q : Parser V) : Type 0 where
    pub ahead : p.token_at < i
    pub inside : i < length p.tokens
    pub no_comment : is_comment p.tokens i ≡ false
    pub skipped : (j : ℕ) → p.token_at < j → j < i → is_comment p.tokens j ≡ true
    pub position : q.token_at ≡ i
    pub back : q.prev_token_at ≡ p.token_at
    pub writes :
        (k : TokenClass) × (q.tokens
          ≡ set p.tokens i (record (get_or p.tokens i zero_token) { klass = k }))

  -- A step that returns stops at the first token behind the old one that is no comment, and writes no
  -- more to the array than the class of that token; it keeps the index of the old one.
  pub next_parser_token_lem :
      (page_size : ℕ) (p q : Parser V) (i : ℕ)
      → next_parser_token page_size p ≡ ok (i, q)
      → Stops p i q
  unfolding next_parser_token
  next_parser_token_lem page_size p q i run =
      let (_, a, r1) = >>=-eq-ok (assert (ltb p.token_at (length p.tokens))) _ run in
      let (j, skip, r2) =
        >>=-eq-ok (skip_comments (drop (p.token_at + 1) p.tokens) (p.token_at + 1)) _ r1 in
      let (t, look, r3) = >>=-eq-ok (at p.tokens j) _ r2 in
      let (c, _, r4) = >>=-eq-ok (classify page_size t p.symtable) _ r3 in
      let (low, inside, stop, skipped) = skip_from p.tokens (p.token_at + 1) j skip in
      let read = at-get p.tokens j t look in
      let same : j ≡ i = cc in
      let last : Parser V = record p {
        tokens = set p.tokens j (record t { klass = c.0 });
        token_at = j;
        token = some j;
        prev_token_at = p.token_at;
        prev_token = p.token;
        symtable = c.1;
      } in
      let end : last ≡ q = cc in
      let moved : p.token_at < i = omega arith in
      record {
        ahead = moved;
        inside = omega arith;
        no_comment = ap (is_comment p.tokens) (sym same) ∙ stop;
        skipped = λ m lt lt'. skipped m (omega arith) (omega arith);
        position = ap (λ (r : Parser V). r.token_at) (sym end) ∙ same;
        back = ap (λ (r : Parser V). r.prev_token_at) (sym end);
        writes = (
          c.0,
          ap (λ (r : Parser V). r.tokens) (sym end) ∙ set_same p.tokens j i t c.0 read same,
        );
      }
