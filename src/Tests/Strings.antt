-- ===== src/Tests/Strings.antt =====
-- The theorems on strings, hashes and numbers at concrete inputs.
use dp4c.Prelude.{
  ℕ, ◌∷◌, List, [], codes, ◌≡◌, ◌↔◌, ◌⊎◌, ◌<◌, ◌≤◌, ◌++◌, ◌^◌, inl, inr, refl, arith, Bool, true,
  ok, failed, out_of_bounds, overflow,
}
use dp4c.Basic.{cstr_match, cstr_start_with, cstr_is_digit}
use dp4c.Basic.Strings.{cstr_match_lem, cstr_start_with_lem}
use dp4c.Hash.{hash_string, hash_bytes}
use dp4c.Hash.Bounds.{HasNoNul, hash_bytes-hash_string}
use dp4c.Lex.Integer.{parse_integer}
use dp4c.Lex.Values.{parse_integer_lem, positional}

cstr_match_example :
    ((cstr_match (codes "in") (codes "inout") ≡ failed out_of_bounds)
      × (codes "in" ≡ [])
      × (codes "inout" ≡ []))
    ⊎ ((r : Bool) × (cstr_match (codes "in") (codes "inout") ≡ ok r)
        × ((r ≡ true) ↔ (codes "in" ≡ codes "inout")))
cstr_match_example = cstr_match_lem (codes "in") (codes "inout")

cstr_start_with_example :
    (r : Bool) × (cstr_start_with (codes "inout") (codes "in") ≡ ok r)
    × ((r ≡ true) ↔ ((rest : List ℕ) × (codes "inout" ≡ codes "in" ++ rest)))
cstr_start_with_example = cstr_start_with_lem (codes "inout") (codes "in") (λ e. cc)

key-HasNoNul : HasNoNul (codes "key")
unfolding HasNoNul
key-HasNoNul = (omega arith, (omega arith, (omega arith, tt)))

hash_bytes-hash_string_example :
    (hash_string (codes "key" ++ 0 ∷ codes "=1") 4 ≡ hash_string (codes "key") 4)
    × (hash_bytes (codes "key" ++ 0 ∷ codes "=1") 3 4
        ≡ ok (hash_string (codes "key" ++ 0 ∷ codes "=1") 4))
hash_bytes-hash_string_example =
    hash_bytes-hash_string (codes "key") (codes "=1") 4 key-HasNoNul (omega arith) (omega arith)

parse_integer_example :
    ((positional 16 (codes "f_F") < 2 ^ 31)
      × (parse_integer (codes "f_F") 16 ≡ ok (positional 16 (codes "f_F"))))
    ⊎ ((2 ^ 31 ≤ positional 16 (codes "f_F")) × (parse_integer (codes "f_F") 16 ≡ failed overflow))
unfolding cstr_is_digit
parse_integer_example =
    parse_integer_lem 16 (codes "f_F") (inr (inr (inr refl))) (λ e. cc)
      (inl refl, (inr refl, (inl refl, tt)))
