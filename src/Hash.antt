-- ===== src/Hash.antt =====
-- hash.c: the string hash of the symbol table and of the attribute tables.
pub mod Bounds
use dp4c.Prelude.{
  ℕ, zero, suc, ◌+◌, ◌-◌, ◌*◌, ◌/◌, ◌%◌, ◌^◌, ◌==◌, if◌then◌else◌, List, [], ◌∷◌, Result, ok,
  failed, out_of_bounds, ◌>>=◌,
}

abbrev p : ℕ
p = 257

abbrev q : ℕ
q = 4294967029

abbrev sigma : ℕ
sigma = 2654435769

-- The loop of `fold_string`, in `uint32_t`: it stops at a NUL, and at the one behind the list.
fold_from : ℕ → List ℕ → ℕ
fold_from k [] = k
fold_from k (s ∷ string) = if s == 0 then k else fold_from ((p * k + s) % 2 ^ 32 % q) string

fold_string : List ℕ → ℕ
fold_string string = fold_from 0 string

-- The loop of `fold_bytes`: `length` is the number of bytes left to read; a read behind the object is out
-- of bounds.
fold_bytes_from : ℕ → List ℕ → ℕ → Result ℕ
fold_bytes_from k bytes zero = ok k
fold_bytes_from k [] (suc n) = failed out_of_bounds
fold_bytes_from k (b ∷ bytes) (suc n) = fold_bytes_from ((p * k + b) % 2 ^ 32 % q) bytes n

fold_bytes : List ℕ → ℕ → Result ℕ
fold_bytes bytes length = fold_bytes_from 0 bytes length

-- The product is taken in 64 bits, cut to 32, and shifted down to `m` bits.
multiply_hash : ℕ → ℕ → ℕ
multiply_hash k m = k * sigma % 2 ^ 64 % 2 ^ 32 / 2 ^ (32 - m)

-- C defines the shifts for `m` from 1 to 30 only. The callers have 4, and the logarithm of a table's
-- capacity.
unfoldable pub hash_string : List ℕ → ℕ → ℕ
unfolding fold_string fold_from multiply_hash
hash_string string m = multiply_hash (fold_string string) m % (2 ^ m - 1)

unfoldable pub hash_bytes : List ℕ → ℕ → ℕ → Result ℕ
unfolding fold_bytes fold_bytes_from multiply_hash
hash_bytes bytes length m = do k ← fold_bytes bytes length; ok (multiply_hash k m % (2 ^ m - 1))
