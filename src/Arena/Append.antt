-- ===== src/Arena/Append.antt =====
-- arena.c: `array_append` puts an element behind the list.
use dp4c.Prelude.{
  ℕ, suc, ◌+◌, ◌^◌, ◌≤◌, ◌<◌, ◌≡◌, inl, inr, refl, sym, ap, ◌∙◌, arith, List, [], ◌∷◌, ◌++◌, length,
  set, replicate, ltb, leb, true, Bool-cases, ◌==◌, ==_iff, some, ok, length-set, length-replicate,
}
use dp4c.Arena.Array.{Floats, floor_log2, UnboundedArray, segment_at, add_segment, array_append}
use dp4c.Arena.Laws.{IsFloorLog2, double, positive, segment_at-set}
use dp4c.Arena.Refines.{Holds, store}

module _ {A : Type 0} (floats : Floats) (is_log2 : IsFloorLog2 (floor_log2 floats)) (zero_elem : A)
    (array : UnboundedArray A) (xs : List A) (h : Holds array xs) where
  -- A full array has room for another segment below 2^24 elements.
  few_segments : length xs + 1 < 2 ^ 24 → array.capacity ≤ array.elem_count → h.segments < 24
  few_segments small full = elim (Bool-cases (ltb h.segments 24)) [
    | inl few ↦ ground arith
    | inr many ↦
        let all : h.segments ≡ 24 = ground (arith, h.few, many) in
        let power : 2 ^ h.segments ≡ 2 ^ 24 = ap (λ (j : ℕ). 2 ^ j) all in
        absurd (omega (arith, power, small, full, h.fits, h.room, h.count))
  ]

  add_segment-Holds :
      h.segments < 24
      → array.capacity ≤ array.elem_count
      → (new : UnboundedArray A) × (add_segment floats zero_elem array ≡ ok new)
        × Holds new xs
        × (new.elem_count < new.capacity)
        × (new.elem_count ≡ array.elem_count)
  unfolding add_segment
  add_segment-Holds few full =
      let m = h.segments in
      let segment = replicate (2 ^ m) zero_elem in
      let next : array.elem_count + 1 ≡ 2 ^ m + 0 = omega (arith, h.room, h.fits, full) in
      let index : floor_log2 floats (array.elem_count + 1) ≡ m =
        ap (floor_log2 floats) next ∙ is_log2 m 0 few (omega (arith, positive m)) in
      let within : ltb m (length array.segment_table) ≡ true = ground (arith, h.table, few) in
      let look =
        λ (k : ℕ). segment_at-set array.segment_table m k segment (omega (arith, h.table, few)) in
      (
        record array {
          segment_table = set array.segment_table m (some segment);
          capacity = array.capacity + 2 ^ m;
        },
        rw index (rw within refl),
        record {
          segments = suc m;
          table = length-set array.segment_table m (some segment) ∙ h.table;
          few = omega (arith, few);
          room = omega (arith, h.room, double m);
          count = h.count;
          fits = omega (arith, h.fits);
          shape = λ k low. elim (Bool-cases (m == k)) [
            | inl e ↦ (
              segment,
              look k ∙ rw e refl,
              length-replicate (2 ^ m) zero_elem ∙ ap (λ (j : ℕ). 2 ^ j) ((==_iff m k).0 e),
            )
            | inr e ↦ let (s, f, z) = h.shape k (ground (arith, e, low)) in (s, look k ∙ rw e f, z)
          ];
          reads = λ k off s low inside f le. elim (Bool-cases (m == k)) [
            | inl e ↦
                let power : 2 ^ m ≡ 2 ^ k = ap (λ (j : ℕ). 2 ^ j) ((==_iff m k).0 e) in
                absurd (omega (arith, power, le, next))
            | inr e ↦
                let f' : segment_at array.segment_table k ≡ ok s = sym (look k ∙ rw e refl) ∙ f in
                h.reads k off s (ground (arith, e, low)) inside f' le
          ];
        },
        omega (arith, h.fits, positive m),
        refl,
      )

  -- With an integer logarithm, in an array that holds a list of less than 2^24 - 1 elements,
  -- `array_append` returns an array that holds the list with the new element behind it.
  pub array_append-Holds :
      (x : A)
      → length xs + 1 < 2 ^ 24
      → (new : UnboundedArray A) × (array_append floats zero_elem array x ≡ ok new)
        × Holds new (xs ++ x ∷ [])
  unfolding array_append
  array_append-Holds x small = elim (Bool-cases (leb array.capacity array.elem_count)) [
    | inr free ↦
        let (new, run, holds) = store floats is_log2 array xs h x (ground arith) in
        (new, rw free run, holds)
    | inl full ↦
        let full' : array.capacity ≤ array.elem_count = ground arith in
        let (grown, grows, holds, room, same) =
          add_segment-Holds (few_segments small full') full' in
        let (new, run, held) = store floats is_log2 grown xs holds x room in
        (new, rw full (rw grows run), held)
  ]
