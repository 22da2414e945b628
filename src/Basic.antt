-- ===== src/Basic.antt =====
-- basic.c: character classes and C strings. A `char` is a byte, a number below 256: every test of
-- the source that compares `char`s gives the same answer for signed and for unsigned ones.
-- A C string is the list of its bytes with the final NUL left out.
pub mod Strings
use dp4c.Prelude.{
  ℕ, zero, suc, List, [], ◌∷◌, Bool, true, false, ◌&&◌, ◌||◌, leb, ltb, ◌==◌, if◌then◌else◌, length,
  get_or, Result, ok, failed, assertion, out_of_bounds, ◌>>=◌,
}

unfoldable pub cstr_is_letter : ℕ → Bool
cstr_is_letter c = leb b'A' c && leb c b'Z' || leb b'a' c && leb c b'z'

-- `assert(0)` in any other base.
unfoldable pub cstr_is_digit : ℕ → ℕ → Result Bool
cstr_is_digit c base =
    if base == 10
    then ok (leb b'0' c && leb c b'9')
    else if base == 16
    then ok (leb b'0' c && leb c b'9' || leb b'a' c && leb c b'f' || leb b'A' c && leb c b'F')
    else if base == 8
    then ok (leb b'0' c && leb c b'7')
    else if base == 2
    then ok (c == b'0' || c == b'1')
    else failed assertion

unfoldable pub cstr_is_ascii_printable : ℕ → Bool
cstr_is_ascii_printable c = leb b' ' c && leb c b'~'

unfoldable pub cstr_is_whitespace : ℕ → Bool
cstr_is_whitespace c = c == b' ' || c == b'\n' || c == b'\r' || c == b'\t'

unfoldable pub cstr_len : List ℕ → ℕ
cstr_len [] = 0
cstr_len (_ ∷ str) = suc (cstr_len str)

-- The loop of `cstr_match`, over the rests of the two strings. Behind the final NUL of a string
-- there is nothing to read: that happens when both rests are empty at the test of the loop.
unfoldable pub cstr_match : List ℕ → List ℕ → Result Bool
cstr_match [] [] = failed out_of_bounds
cstr_match [] (b ∷ str_b) = ok false
cstr_match (a ∷ str_a) [] = ok false
cstr_match (a ∷ []) (b ∷ []) = ok (a == b)
cstr_match (a ∷ []) (b ∷ b' ∷ str_b) = ok false
cstr_match (a ∷ a' ∷ str_a) (b ∷ str_b) =
    let rest = cstr_match (a' ∷ str_a) str_b in if a == b then rest else ok false

-- Likewise for `cstr_start_with`, which leaves its loop at the end of the prefix.
unfoldable pub cstr_start_with : List ℕ → List ℕ → Result Bool
cstr_start_with [] [] = failed out_of_bounds
cstr_start_with (a ∷ str) [] = ok true
cstr_start_with [] (p ∷ prefix) = ok false
cstr_start_with (a ∷ str) (p ∷ []) = ok (a == p)
cstr_start_with (a ∷ str) (p ∷ p' ∷ prefix) =
    let rest = cstr_start_with str (p' ∷ prefix) in if a == p then rest else ok false
