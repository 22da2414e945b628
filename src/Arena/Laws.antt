-- ===== src/Arena/Laws.antt =====
-- arena.c: an `UnboundedArray` is the list of its elements.
use native.Mathlib.Nat.{pow-zero, pow-suc, one-le-pow}
use dp4c.Prelude.{
  ℕ, zero, suc, ◌+◌, ◌-◌, ◌^◌, ◌≤◌, ◌<◌, ◌≡◌, inl, inr, refl, ◌∙◌, arith, List, [], ◌∷◌, ◌++◌,
  length, set, ltb, Bool-cases, ◌==◌, Option, none, some, if◌then◌else◌, ok,
}
use dp4c.Arena.Array.{segment_at, elem_at}

-- The integer logarithm, at the numbers below 2^24: `2^k + off` has the logarithm `k` if `off` is below
-- `2^k`.
abbrev pub IsFloorLog2 : (ℕ → ℕ) → Type 0
IsFloorLog2 log2 = (k off : ℕ) → k < 24 → off < 2 ^ k → log2 (2 ^ k + off) ≡ k

pub double : (k : ℕ) → 2 ^ suc k ≡ 2 ^ k + 2 ^ k
double k = rw pow-suc (omega arith)

pub positive : (k : ℕ) → 1 ≤ 2 ^ k
positive k = one-le-pow k 2 (omega arith)

-- The segment and the offset of an index below the capacity of `m` segments.
pub record Place (m i : ℕ) : Type 0 where
  pub segment : ℕ
  pub offset : ℕ
  pub within : segment < m
  pub inside : offset < 2 ^ segment
  pub sums : i + 1 ≡ 2 ^ segment + offset

pub place : (m i : ℕ) → i + 1 < 2 ^ m → Place m i
place zero i h = absurd (omega (arith, rw pow-zero at h))
place (suc m) i h = elim (Bool-cases (ltb (i + 1) (2 ^ m))) [
  | inl low ↦
      let p = place m i (ground arith) in
      record {
        segment = p.segment;
        offset = p.offset;
        within = omega (arith, p.within);
        inside = p.inside;
        sums = p.sums;
      }
  | inr high ↦
      let above : 2 ^ m ≤ i + 1 = ground arith in
      record {
        segment = m;
        offset = i + 1 - 2 ^ m;
        within = omega arith;
        inside = omega (arith, double m, h, above);
        sums = omega (arith, above);
      }
]

module _ {A : Type 0} where
  pub segment_at-set :
      (table : List (Option (List A))) (i j : ℕ) (segment : List A)
      → i < length table
      → segment_at (set table i (some segment)) j
        ≡ (if i == j then ok segment else segment_at table j)
  unfolding segment_at
  segment_at-set [] i j segment h = elim h [ ]
  segment_at-set (none ∷ table) zero zero segment h = refl
  segment_at-set (some _ ∷ table) zero zero segment h = refl
  segment_at-set (none ∷ table) zero (suc j) segment h = ground arith
  segment_at-set (some _ ∷ table) zero (suc j) segment h = ground arith
  segment_at-set (none ∷ table) (suc i) zero segment h = ground arith
  segment_at-set (some _ ∷ table) (suc i) zero segment h = ground arith
  segment_at-set (none ∷ table) (suc i) (suc j) segment h =
      segment_at-set table i j segment (omega arith) ∙ ground arith
  segment_at-set (some _ ∷ table) (suc i) (suc j) segment h =
      segment_at-set table i j segment (omega arith) ∙ ground arith

  pub elem_at-set :
      (xs : List A) (i j : ℕ) (x : A)
      → i < length xs
      → elem_at (set xs i x) j ≡ (if i == j then ok x else elem_at xs j)
  unfolding elem_at
  elem_at-set [] i j x h = elim h [ ]
  elem_at-set (y ∷ xs) zero zero x h = refl
  elem_at-set (y ∷ xs) zero (suc j) x h = ground arith
  elem_at-set (y ∷ xs) (suc i) zero x h = ground arith
  elem_at-set (y ∷ xs) (suc i) (suc j) x h = elem_at-set xs i j x (omega arith) ∙ ground arith

  pub elem_at-inside : (xs : List A) (i : ℕ) → i < length xs → (x : A) × (elem_at xs i ≡ ok x)
  unfolding elem_at
  elem_at-inside [] i h = elim h [ ]
  elem_at-inside (x ∷ xs) zero h = (x, refl)
  elem_at-inside (x ∷ xs) (suc i) h = elem_at-inside xs i (omega arith)

  pub elem_at-append :
      (xs : List A) (x : A) (i : ℕ)
      → elem_at (xs ++ x ∷ []) i ≡ (if i == length xs then ok x else elem_at xs i)
  unfolding elem_at
  elem_at-append [] x zero = refl
  elem_at-append [] x (suc i) = ground arith
  elem_at-append (y ∷ xs) x zero = ground arith
  elem_at-append (y ∷ xs) x (suc i) = elem_at-append xs x i ∙ ground arith
