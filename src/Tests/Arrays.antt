-- ===== src/Tests/Arrays.antt =====
-- The theorems on arrays at one with an integer logarithm.
use dp4c.Prelude.{
  ℕ, zero, suc, ◌+◌, ◌/◌, ◌^◌, ◌≤◌, ◌<◌, ◌≡◌, inl, inr, refl, arith, [], ◌∷◌, leb, ltb, true, false,
  Bool-cases, if◌then◌else◌, ok, failed, assertion, ◌>>=◌,
}
use dp4c.Arena.Array.{
  Floats, floor_log2, UnboundedArray, segment_at, elem_at, array_init, array_get, array_set,
  add_segment, array_append,
}
use dp4c.Arena.Laws.{IsFloorLog2, double}
use dp4c.Arena.Refines.{Holds, array_init-Holds, array_get-Holds}
use dp4c.Arena.Append.{array_append-Holds}

-- The last power of two below `m` that is not above `x`.
unfoldable log_below : ℕ → ℕ → ℕ
log_below zero x = 0
log_below (suc m) x = if leb (2 ^ m) x then m else log_below m x

-- The integer logarithm in place of the floating-point one: that of 2 is 1.
abbrev floats : Floats
floats = record { Double = ℕ; log10 = log_below 24; divide = λ a b. a / b; floor = λ a. a }

grows : (k m : ℕ) → k < m → 2 ^ k + 2 ^ k ≤ 2 ^ m
grows k zero h = absurd (omega arith)
grows k (suc m) h = elim (Bool-cases (ltb k m)) [
  | inl low ↦ omega (arith, grows k m (ground arith), double m)
  | inr high ↦ let same : k ≡ m = ground arith in rw same (omega (arith, double m))
]

log_below_lem : (m k off : ℕ) → k < m → off < 2 ^ k → log_below m (2 ^ k + off) ≡ k
unfolding log_below
log_below_lem zero k off h low = absurd (omega arith)
log_below_lem (suc m) k off h low = elim (Bool-cases (ltb k m)) [
  | inl before ↦
      let less : k < m = ground arith in
      let q : leb (2 ^ m) (2 ^ k + off) ≡ false = ground (arith, grows k m less) in
      rw q (log_below_lem m k off less low)
  | inr last ↦
      let same : k ≡ m = ground arith in
      let q : leb (2 ^ m) (2 ^ k + off) ≡ true = rw same (ground arith) in rw q (omega arith)
]

log2_of_two : log_below 24 2 ≡ 1
unfolding log_below
log2_of_two = refl

floats-IsFloorLog2 : IsFloorLog2 (floor_log2 floats)
unfolding floor_log2
floats-IsFloorLog2 k off h low = rw (log2_of_two, log_below_lem 24 k off h low) (omega arith)

-- Three elements stand in two segments.
three_elements :
    (do
      a ← array_append {A = ℕ} floats 0 array_init 7
      b ← array_append {A = ℕ} floats 0 a 8
      c ← array_append {A = ℕ} floats 0 b 9
      array_get floats c 2)
    ≡ ok 9
unfolding array_init array_get array_set array_append add_segment segment_at elem_at floor_log2
    log_below
three_elements = refl

array_append-Holds_example :
    (new : UnboundedArray ℕ) × (array_append floats 0 array_init 7 ≡ ok new) × Holds new (7 ∷ [])
array_append-Holds_example =
    array_append-Holds floats floats-IsFloorLog2 0 array_init [] array_init-Holds 7 (omega arith)

abbrev one_element : (new : UnboundedArray ℕ) × Holds new (7 ∷ [])
one_element =
    let (new, run, holds) =
      array_append-Holds floats floats-IsFloorLog2 0 array_init [] array_init-Holds 7
        (omega arith) in
    (new, holds)

array_get-Holds_example :
    array_get floats one_element.0 0 ≡ (if ltb 0 1 then elem_at (7 ∷ []) 0 else failed assertion)
array_get-Holds_example =
    array_get-Holds floats floats-IsFloorLog2 one_element.0 (7 ∷ []) one_element.1 0
