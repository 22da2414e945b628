-- ===== src/Prelude/Outcome.antt =====
-- What a run of the program ends in: a value, or a way to stop.
use Prim.Native.Nat.{ℕ}
use Prim.Native.String.{String}
use mathlib.Core.Bool.{Bool, true, false}
use mathlib.Core.List.{List}
use mathlib.Core.Logic.{◌≢◌}
use mathlib.Core.Path.{◌≡◌, refl, subst}
use dp4c.Prelude.Tests.{if◌then◌else◌}

-- The calls of `error` (exit status 1), with what their messages print.
pub data Message : Type 0 where
  expected_digits : ℕ → ℕ → List ℕ → Message
  unknown_token : ℕ → Message
  lexical_error : ℕ → Message
  -- "at line %d: <text>, got `%s`."
  syntax_error : ℕ → String → List ℕ → Message
  -- "at line %d: unexpected token `%s`."
  unexpected_token : ℕ → List ℕ → Message
  -- "at line %d: name `%s` redeclared."
  redeclared : ℕ → List ℕ → Message

-- `assertion` is a failed `assert` (exit status 2); `out_of_bounds` and `overflow` are undefined
-- behaviour in C: an access outside an object, and an `int` that leaves its range.
pub data Failure : Type 0 where
  assertion out_of_bounds overflow : Failure
  error : Message → Failure

-- `out_of_fuel` has no counterpart in the program.
pub data Result {ℓ} (A : Type ℓ) : Type ℓ where
  out_of_fuel : Result A
  failed : Failure → Result A
  ok : A → Result A

-- `assert (b)`
abbrev pub assert : Bool → Result (Unit {0})
assert false = failed assertion
assert true = ok tt

module _ {ℓ κ} {A : Type ℓ} {B : Type κ} where
  infixl 5 ◌>>=◌
  abbrev pub ◌>>=◌ : Result A → (A → Result B) → Result B
  out_of_fuel >>= next = out_of_fuel
  failed why >>= next = failed why
  ok value >>= next = next value

module _ {κ} {B : Type κ} where
  infixl 5 ◌>>◌
  abbrev pub ◌>>◌ : Result (Unit {0}) → Result B → Result B
  first >> second = first >>= λ _. second

-- The run stays within its fuel, and its value, if it has one, satisfies `P`.
pub data Ensures {ℓ κ} {A : Type ℓ} (P : A → Type κ) : Result A → Type (ℓ ⊔ κ) where
  returns : {a : A} → P a → Ensures P (ok a)
  stops : {e : Failure} → Ensures P (failed e)

module _ {ℓ κ} {A : Type ℓ} {P : A → Type κ} where
  pub Ensures-ok : {m : Result A} {a : A} → Ensures P m → m ≡ ok a → P a
  Ensures-ok (returns h) e = subst P (cc) h
  Ensures-ok stops e = cc

  pub Ensures-ne_fuel : {m : Result A} → Ensures P m → m ≢ out_of_fuel
  Ensures-ne_fuel (returns h) = cc
  Ensures-ne_fuel stops = cc

  pub Ensures-of_eq : (m : Result A) → m ≢ out_of_fuel → ((a : A) → m ≡ ok a → P a) → Ensures P m
  Ensures-of_eq (ok a) ends value = returns (value a refl)
  Ensures-of_eq (failed e) ends value = stops
  Ensures-of_eq out_of_fuel ends value = absurd (ends refl)

  pub Ensures-bind {ℓ' κ'} :
      {B : Type ℓ'} {Q : B → Type κ'} {m : Result A} {f : A → Result B}
      → Ensures P m
      → ((a : A) → P a → Ensures Q (f a))
      → Ensures Q (m >>= f)
  Ensures-bind (returns {a} h) next = next a h
  Ensures-bind stops next = stops

  pub Ensures-elim :
      (b : Bool) {x y : Result A}
      → (b ≡ true → Ensures P x)
      → (b ≡ false → Ensures P y)
      → Ensures P (elim b [ true ↦ x | false ↦ y ])
  Ensures-elim true hx hy = hx refl
  Ensures-elim false hx hy = hy refl

  pub Ensures-assert :
      (b : Bool) {m : Result A} → (b ≡ true → Ensures P m) → Ensures P (assert b >> m)
  Ensures-assert true hm = hm refl
  Ensures-assert false hm = stops

  pub Ensures-mono {κ'} :
      {Q : A → Type κ'} {m : Result A} → Ensures P m → ((a : A) → P a → Q a) → Ensures Q m
  Ensures-mono (returns {a} h) weaken = returns (weaken a h)
  Ensures-mono stops weaken = stops

  pub Ensures-if :
      (b : Bool) {x y : Result A}
      → (b ≡ true → Ensures P x)
      → (b ≡ false → Ensures P y)
      → Ensures P (if b then x else y)
  Ensures-if true hx hy = hx refl
  Ensures-if false hx hy = hy refl

-- What a bind that returned has run.
pub >>=-eq-ok {ℓ κ} :
    {A : Type ℓ} {B : Type κ} {value : B} (first : Result A) (next : A → Result B)
    → (first >>= next) ≡ ok value
    → (middle : A) × (first ≡ ok middle) × (next middle ≡ ok value)
>>=-eq-ok out_of_fuel next e = cc
>>=-eq-ok (failed why) next e = cc
>>=-eq-ok (ok middle) next e = (middle, refl, e)
