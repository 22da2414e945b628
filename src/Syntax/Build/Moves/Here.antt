-- ===== src/Syntax/Build/Moves/Here.antt =====
-- What a step does at a token whose class is known.
use Prim.Native.String.{String}
use dp4c.Prelude.{
  ℕ, ◌<◌, ◌≡◌, refl, arith, Bool, true, false, ok, Ensures, Ensures-bind, Ensures-mono, returns,
  stops, if◌then◌else◌,
}
use dp4c.Token.{Token, TokenClass}
use dp4c.Syntax.Build.{BuildState, Build, pure, lift, ◌>>=◌, token, klass, syntax_failure, expected}
use dp4c.Syntax.Build.Moves.{left, Moved, Moves}
use dp4c.Syntax.Build.Moves.Steps.{here}

-- The same where the parser stands at a token of the class `k`.
pub record MovesAt {A : Type 0} (d n : ℕ) (k : TokenClass) (m : Build A) : Type 0 where
  pub at :
      (s : BuildState) (t : Token)
      → left s < n
      → token s ≡ ok (t, s)
      → t.klass ≡ k
      → Ensures (λ (r : A × BuildState). Moved d s r.1) (m s)

pub klass_here :
    (s : BuildState)
    → Ensures
        (λ (r : TokenClass × BuildState).
          (t : Token) × (token s ≡ ok (t, s)) × (t.klass ≡ r.0) × (r.1 ≡ s))
        (klass s)
unfolding klass ◌>>=◌ pure
klass_here s = Ensures-bind (here s) λ (t, s') (now, stay). returns (t, now, refl, stay)

fails :
    (text : String) (s : BuildState)
    → Ensures (λ (r : Unit {0} × BuildState). ⊥) (syntax_failure text s)
unfolding syntax_failure ◌>>=◌ lift
fails text s = Ensures-bind (here s) λ r _. stops

module _ {A : Type 0} where
  pub MovesAt-of : {d n : ℕ} {k : TokenClass} {m : Build A} → Moves d n m → MovesAt d n k m
  MovesAt-of h = record { at = λ s t low now same. h.at s low }

  pub MovesAt-if :
      {d n : ℕ} {k : TokenClass} (b : Bool) (x y : Build A)
      → (b ≡ true → MovesAt d n k x)
      → (b ≡ false → MovesAt d n k y)
      → MovesAt d n k (if b then x else y)
  MovesAt-if true x y hx hy = hx refl
  MovesAt-if false x y hx hy = hy refl

  -- The branch of a test that holds.
  pub MovesAt-then :
      {d n : ℕ} {k : TokenClass} (b : Bool) (x y : Build A)
      → b ≡ true
      → Moves d n x
      → MovesAt d n k (if b then x else y)
  MovesAt-then true x y e hx = MovesAt-of hx
  MovesAt-then false x y e hx = cc

  -- The class is read, or the token is.
  pub Moves-at :
      {d n : ℕ} (f : TokenClass → Build A)
      → ((k : TokenClass) → MovesAt d n k (f k))
      → Moves d n (klass >>= f)
  unfolding ◌>>=◌
  Moves-at f hf = record {
    at = λ s low.
        Ensures-bind (klass_here s)
          λ (k, s') (t, now, same, stay). rw stay ((hf k).at s t low now same);
  }

  pub MovesAt-token :
      {d n : ℕ} {k : TokenClass} (f : Token → Build A)
      → ((t : Token) → t.klass ≡ k → MovesAt d n k (f t))
      → MovesAt d n k (token >>= f)
  unfolding ◌>>=◌
  MovesAt-token f hf = record { at = λ s t low now same. rw now ((hf t same).at s t low now same) }

  pub MovesAt-klass :
      {d n : ℕ} {k : TokenClass} (f : TokenClass → Build A)
      → MovesAt d n k (f k)
      → MovesAt d n k (klass >>= f)
  unfolding klass ◌>>=◌ pure
  MovesAt-klass f hf = record { at = λ s t low now same. rw (now, same) (hf.at s t low now same) }

  pub MovesAt-expected :
      {d n : ℕ} {k : TokenClass} (b : Bool) (text : String) (f : Unit {0} → Build A)
      → MovesAt d n k (f tt)
      → MovesAt d n k (expected b text >>= f)
  unfolding expected ◌>>=◌ pure
  MovesAt-expected true text f hf = record { at = λ s t low now same. hf.at s t low now same }
  MovesAt-expected false text f hf = record {
    at = λ s t low now same. Ensures-bind (fails text s) λ a never. absurd never;
  }

  pub MovesAt-bind :
      {B : Type 0} {n : ℕ} {k : TokenClass} (m : Build B) (f : B → Build A)
      → MovesAt 1 n k m
      → ((b : B) → Moves 0 n (f b))
      → MovesAt 0 n k (m >>= f)
  unfolding ◌>>=◌
  MovesAt-bind m f hm hf = record {
    at = λ s t low now same.
        Ensures-bind (hm.at s t low now same)
          λ (b, u) moved. Ensures-mono ((hf b).at u (omega arith)) λ r moved'. omega arith;
  }
