-- ===== src/Arena/Refines.antt =====
-- arena.c: an `UnboundedArray` as the list of its elements.
use native.Mathlib.Nat.{pow-zero}
use dp4c.Prelude.{
  ℕ, ◌+◌, ◌-◌, ◌^◌, ◌≤◌, ◌<◌, ◌≡◌, inl, inr, refl, sym, ap, ◌∙◌, arith, List, [], ◌∷◌, ◌++◌, length,
  set, ltb, true, false, Bool-cases, ◌==◌, ==_iff, some, if◌then◌else◌, Result, ok, failed,
  assertion, length-set, length-append,
}
use dp4c.Arena.Array.{
  Floats, floor_log2, UnboundedArray, segment_at, elem_at, array_init, array_get, array_set,
}
use dp4c.Arena.Laws.{
  IsFloorLog2, positive, Place, place, segment_at-set, elem_at-set, elem_at-inside, elem_at-append,
}

module _ {A : Type 0} where
  -- The array holds the list: its segments, each of its size, have the elements in order.
  pub record Holds (array : UnboundedArray A) (xs : List A) : Type 0 where
    pub segments : ℕ
    pub table : length array.segment_table ≡ 24
    pub few : segments ≤ 24
    pub room : array.capacity + 1 ≡ 2 ^ segments
    pub count : array.elem_count ≡ length xs
    pub fits : array.elem_count ≤ array.capacity
    pub shape :
        (k : ℕ)
        → k < segments
        → (segment : List A) × (segment_at array.segment_table k ≡ ok segment)
          × (length segment ≡ 2 ^ k)
    pub reads :
        (k off : ℕ) (segment : List A)
        → k < segments
        → off < 2 ^ k
        → segment_at array.segment_table k ≡ ok segment
        → 2 ^ k + off ≤ array.elem_count
        → elem_at segment off ≡ elem_at xs (2 ^ k + off - 1)

  pub array_init-Holds : Holds array_init []
  unfolding array_init
  array_init-Holds = record {
    segments = 0;
    table = refl;
    few = omega arith;
    room = sym (pow-zero 2);
    count = refl;
    fits = omega arith;
    shape = λ k h. absurd (omega (arith, h));
    reads = λ k off segment h. absurd (omega (arith, h));
  }

  module _ (floats : Floats) (is_log2 : IsFloorLog2 (floor_log2 floats)) (array : UnboundedArray A)
      (xs : List A) (h : Holds array xs) where
    log2_at : (i : ℕ) (p : Place h.segments i) → floor_log2 floats (i + 1) ≡ p.segment
    log2_at i p = rw p.sums (is_log2 p.segment p.offset (omega (arith, p.within, h.few)) p.inside)

    offset_at : (i : ℕ) (p : Place h.segments i) → i - (2 ^ p.segment - 1) ≡ p.offset
    offset_at i p = omega (arith, p.sums, positive p.segment)

    -- With an integer logarithm, in an array that holds a list, `array_get` reads the list, and behind
    -- its end it is a failed assertion.
    pub array_get-Holds :
        (i : ℕ)
        → array_get floats array i ≡ (if ltb i (length xs) then elem_at xs i else failed assertion)
    unfolding array_get
    array_get-Holds i = elim (Bool-cases (ltb i (length xs))) [
      | inr out ↦ rw h.count (rw out refl)
      | inl low ↦
          let p = place h.segments i (ground (arith, h.count, h.fits, h.room)) in
          let (segment, found, size) = h.shape p.segment p.within in
          let index : 2 ^ p.segment + p.offset - 1 ≡ i = omega (arith, p.sums) in
          let read =
            h.reads p.segment p.offset segment p.within p.inside found
              (ground (arith, p.sums, h.count)) in
          rw h.count (
            rw low
              (rw (log2_at i p) (rw found (rw (offset_at i p) (read ∙ ap (elem_at xs) index)))))
    ]

    -- What is read in the segment `s` that the table has at `k` behind the write.
    stored_reads :
        (x : A) (p : Place h.segments array.elem_count) (segment : List A)
        → segment_at array.segment_table p.segment ≡ ok segment
        → length segment ≡ 2 ^ p.segment
        → (k off : ℕ) (s : List A) → k < h.segments
        → off < 2 ^ k
        → (if p.segment == k then ok (set segment p.offset x) else segment_at array.segment_table k)
          ≡ ok s
        → 2 ^ k + off ≤ array.elem_count + 1
        → elem_at s off ≡ elem_at (xs ++ x ∷ []) (2 ^ k + off - 1)
    stored_reads x p segment found size k off s low inside f le =
        let i = 2 ^ k + off - 1 in
        let ends = elem_at-append xs x i in
        elim (Bool-cases (p.segment == k)) [
          | inl e ↦
              let same : p.segment ≡ k = (==_iff p.segment k).0 e in
              let power : 2 ^ p.segment ≡ 2 ^ k = ap (λ (j : ℕ). 2 ^ j) same in
              let f' : ◌≡◌ {A = Result (List A)} (ok (set segment p.offset x)) (ok s) = rw e at f in
              let here : set segment p.offset x ≡ s = cc in
              let step =
                ap (λ (ys : List A). elem_at ys off) (sym here)
                ∙ elem_at-set segment p.offset off x (omega (arith, size, p.inside)) in
              elim (Bool-cases (p.offset == off)) [
                | inl o ↦
                    let q : p.offset ≡ off = (==_iff p.offset off).0 o in
                    let last : (i == length xs) ≡ true =
                      (==_iff i (length xs)).1 (omega (arith, power, q, p.sums, h.count)) in
                    step ∙ rw o (sym (ends ∙ rw last refl))
                | inr o ↦
                    let other : (i == length xs) ≡ false =
                      ground (arith, power, p.sums, h.count, positive k, o) in
                    step
                    ∙ rw o (
                        h.reads k off segment low inside
                          (ap (segment_at array.segment_table) (sym same) ∙ found)
                          (ground (arith, power, p.sums, o, le))
                        ∙ sym (ends ∙ rw other refl))
              ]
          | inr e ↦
              let f' : segment_at array.segment_table k ≡ ok s = rw e at f in
              elim (Bool-cases (i == length xs)) [
                | inl o ↦
                    let q : i ≡ length xs = (==_iff i (length xs)).0 o in
                    let meets : 2 ^ k + off ≡ array.elem_count + 1 =
                      omega (arith, q, h.count, positive k) in
                    let same : k ≡ p.segment =
                      sym (is_log2 k off (omega (arith, low, h.few)) inside)
                      ∙ ap (floor_log2 floats) meets
                      ∙ log2_at array.elem_count p in
                    cc ((==_iff p.segment k).1 (sym same))
                | inr o ↦
                    h.reads k off s low inside f' (ground (arith, o, h.count, le, positive k))
                    ∙ sym (ends ∙ rw o refl)
              ]
        ]

    -- The write behind the last element, where there is room.
    pub store :
        (x : A)
        → array.elem_count < array.capacity
        → (new : UnboundedArray A) × (array_set floats
              (record array { elem_count = array.elem_count + 1 })
              array.elem_count
              x
            ≡ ok new)
          × Holds new (xs ++ x ∷ [])
    unfolding array_set
    store x free =
        let n = array.elem_count in
        let p = place h.segments n (omega (arith, free, h.room)) in
        let (segment, found, size) = h.shape p.segment p.within in
        let (old, there) = elem_at-inside segment p.offset (omega (arith, size, p.inside)) in
        let written = set segment p.offset x in
        let table = set array.segment_table p.segment (some written) in
        let inner : ltb n (n + 1) ≡ true = ground arith in
        let look = λ (k : ℕ).
          segment_at-set array.segment_table p.segment k written
            (omega (arith, h.table, h.few, p.within)) in
        (
          record array { elem_count = n + 1; segment_table = table },
          rw (inner) (rw (log2_at n p) (rw found (rw (offset_at n p) (rw there refl)))),
          record {
            segments = h.segments;
            table = length-set array.segment_table p.segment (some written) ∙ h.table;
            few = h.few;
            room = h.room;
            count = omega (arith, length-append xs (x ∷ []), h.count);
            fits = omega (arith, free);
            shape = λ k low. elim (Bool-cases (p.segment == k)) [
              | inl e ↦ (
                written,
                look k ∙ rw e refl,
                length-set segment p.offset x
                    ∙ size
                    ∙ ap (λ (j : ℕ). 2 ^ j) ((==_iff p.segment k).0 e),
              )
              | inr e ↦ let (s, f, z) = h.shape k low in (s, look k ∙ rw e f, z)
            ];
            reads = λ k off s low inside f le.
                stored_reads x p segment found size k off s low inside (sym (look k) ∙ f) le;
          },
        )
