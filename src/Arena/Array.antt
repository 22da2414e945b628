-- ===== src/Arena/Array.antt =====
-- arena.c: `UnboundedArray`. Memory does not run out, and a segment is zero when it is handed out. The
-- floating-point operations behind `floor_log2` are the parameter `floats`, and `zero_elem` is the
-- element whose bytes are zero.
use dp4c.Prelude.{
  ℕ, zero, suc, ◌+◌, ◌-◌, ◌^◌, List, [], ◌∷◌, length, set, replicate, ltb, leb, Option, none, some,
  if◌then◌else◌, Result, ok, failed, out_of_bounds, assert, ◌>>=◌, ◌>>◌,
}

module _ (A : Type 0) where
  pub record UnboundedArray : Type 0 where
    pub segment_table : List (Option (List A))
    pub elem_count : ℕ
    pub capacity : ℕ

module _ {A : Type 0} where
  -- A segment through the table: a null pointer is read through, and so is what lies behind the table.
  unfoldable pub segment_at : List (Option (List A)) → ℕ → Result (List A)
  segment_at [] i = failed out_of_bounds
  segment_at (none ∷ table) zero = failed out_of_bounds
  segment_at (some segment ∷ table) zero = ok segment
  segment_at (_ ∷ table) (suc i) = segment_at table i

  unfoldable pub elem_at : List A → ℕ → Result A
  elem_at [] i = failed out_of_bounds
  elem_at (x ∷ xs) zero = ok x
  elem_at (x ∷ xs) (suc i) = elem_at xs i

  unfoldable pub array_init : UnboundedArray A
  array_init = record { segment_table = replicate 24 none; elem_count = 0; capacity = 0 }

-- The floating-point operations that arena.c takes from C and its library.
pub record Floats : Type 1 where
  pub Double : Type 0
  pub log10 : ℕ → Double
  pub divide : Double → Double → Double
  pub floor : Double → ℕ

unfoldable pub floor_log2 : Floats → ℕ → ℕ
floor_log2 floats x = floats.floor (floats.divide (floats.log10 x) (floats.log10 2))

-- The index of the segment, and the offset in it.
abbrev pub array_elem_at_i : Floats → ℕ → ℕ × ℕ
array_elem_at_i floats i = (floor_log2 floats (i + 1), i - (2 ^ floor_log2 floats (i + 1) - 1))

module _ {A : Type 0} (floats : Floats) where
  unfoldable pub array_get : UnboundedArray A → ℕ → Result A
  array_get array i = do
    assert (ltb i array.elem_count)
    let (segment_index, elem_offset) = array_elem_at_i floats i
    data_segment ← segment_at array.segment_table segment_index
    elem_at data_segment elem_offset

  unfoldable pub array_set : UnboundedArray A → ℕ → A → Result (UnboundedArray A)
  array_set array i elem = do
    assert (ltb i array.elem_count)
    let (segment_index, elem_offset) = array_elem_at_i floats i
    data_segment ← segment_at array.segment_table segment_index
    old ← elem_at data_segment elem_offset
    ok (record array {
      segment_table =
          set array.segment_table segment_index (some (set data_segment elem_offset elem));
    })

  -- The new segment of `array_append`.
  unfoldable pub add_segment : A → UnboundedArray A → Result (UnboundedArray A)
  add_segment zero_elem array = do
    let segment_index = floor_log2 floats (array.elem_count + 1)
    let segment_capacity = 2 ^ segment_index
    if ltb segment_index (length array.segment_table) then ok tt else failed out_of_bounds
    ok (record array {
      segment_table =
          set array.segment_table segment_index (some (replicate segment_capacity zero_elem));
      capacity = array.capacity + segment_capacity;
    })

  unfoldable pub array_append : A → UnboundedArray A → A → Result (UnboundedArray A)
  array_append zero_elem array elem = do
    grown ← if leb array.capacity array.elem_count then add_segment zero_elem array else ok array
    array_set (record grown { elem_count = grown.elem_count + 1 }) grown.elem_count elem
