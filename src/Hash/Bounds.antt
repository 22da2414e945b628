-- ===== src/Hash/Bounds.antt =====
-- The range of the hash, and the agreement of its two entry points.
use native.Mathlib.Nat.{mod-lt, pow-suc}
use dp4c.Prelude.{
  ℕ, zero, suc, ◌==◌, false, ◌-◌, ◌^◌, ◌≤◌, ◌<◌, List, [], ◌∷◌, ◌++◌, ◌≡◌, refl, length, arith, ok,
}
use dp4c.Hash.{fold_from, fold_string, fold_bytes_from, fold_bytes, hash_string, hash_bytes}

-- No byte is a NUL.
unfoldable pub HasNoNul : List ℕ → Type 0
HasNoNul [] = Unit
HasNoNul (b ∷ bytes) = (1 ≤ b) × HasNoNul bytes

not_nul : (b : ℕ) → 1 ≤ b → b == 0 ≡ false
not_nul b h = ground arith

module _ (rest : List ℕ) where
  fold_from-nul :
      (bytes : List ℕ) (k : ℕ)
      → HasNoNul bytes
      → fold_from k (bytes ++ 0 ∷ rest) ≡ fold_from k bytes
  unfolding fold_from HasNoNul
  fold_from-nul [] k h = refl
  fold_from-nul (b ∷ bytes) k (some_byte, h) = rw (not_nul b some_byte) (fold_from-nul bytes _ h)

  fold_bytes_from-fold_from :
      (bytes : List ℕ) (k : ℕ)
      → HasNoNul bytes
      → fold_bytes_from k (bytes ++ rest) (length bytes) ≡ ok (fold_from k bytes)
  unfolding fold_bytes_from fold_from HasNoNul
  fold_bytes_from-fold_from [] k h = refl
  fold_bytes_from-fold_from (b ∷ bytes) k (some_byte, h) =
      rw (not_nul b some_byte) (fold_bytes_from-fold_from bytes _ h)

-- A buffer holds bytes of which none is a NUL, a NUL, and more bytes. For widths from 1 to 30,
-- `hash_string` of the buffer does not depend on what stands behind the NUL, and is what `hash_bytes` of
-- the bytes before it returns.
pub hash_bytes-hash_string :
    (bytes rest : List ℕ) (m : ℕ)
    → HasNoNul bytes
    → 1 ≤ m
    → m < 31
    → (hash_string (bytes ++ 0 ∷ rest) m ≡ hash_string bytes m)
      × (hash_bytes (bytes ++ 0 ∷ rest) (length bytes) m ≡ ok (hash_string (bytes ++ 0 ∷ rest) m))
unfolding hash_bytes hash_string fold_bytes fold_string
hash_bytes-hash_string bytes rest m h low high = (
  rw (fold_from-nul rest bytes 0 h),
  rw (fold_bytes_from-fold_from (0 ∷ rest) bytes 0 h, fold_from-nul rest bytes 0 h),
)

one-le-pow : (m : ℕ) → 1 ≤ 2 ^ m
one-le-pow zero = omega arith
one-le-pow (suc m) = rw pow-suc (omega (arith, one-le-pow m))

-- The hash is a slot of a table of 2 ^ m - 1.
pub hash_string-lt : (string : List ℕ) (m : ℕ) → 1 ≤ m → hash_string string m < 2 ^ m - 1
unfolding hash_string
hash_string-lt string zero h = elim h [ ]
hash_string-lt string (suc m) h = mod-lt _ (rw pow-suc (omega (arith, one-le-pow m)))
