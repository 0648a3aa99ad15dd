-- ===== src/QuadKey/Unify.antt =====
-- src/QuadKeyTS.cpp, `QuadKeyTS::unifyQuadkeys2`: four quadkeys that make up a larger tile become the
-- quadkey of that tile, level by level. `none` is the exception of `std::vector::at` (or a call of
-- `back()` on an empty string).
pub mod Covers
pub mod Throws
pub mod Reason
use s_ldm.Common.{
  ℕ, zero, suc, ◌+◌, ◌-◌, ◌%◌, ◌^◌, Bool, true, false, List, [], ◌∷◌, Option, none, some, ◌==◌, ltb,
  leb, if◌then◌else◌, length, get_elem?,
}
use mathlib.Core.Option
use s_ldm.Decoder.Bytes.{◌>>=◌}
use s_ldm.Numeral.{Text, same_text}

-- `k.substr(0, k.length() - 1)`
unfoldable pub main_part : Text → Text
main_part [] = []
main_part (c ∷ []) = []
main_part (c ∷ d ∷ k) = c ∷ main_part (d ∷ k)

unfoldable pub back : Text → Option ℕ
back [] = none
back (c ∷ []) = some c
back (c ∷ d ∷ k) = back (d ∷ k)

-- `&&`, whose right side is evaluated only if the left one is true
unfoldable pub and_then : Option Bool → Option Bool → Option Bool
and_then none b = none
and_then (some true) b = b
and_then (some false) b = some false

unfoldable pub ends_in : ℕ → Text → Option Bool
ends_in digit k = Option.map (λ c. c == digit) (back k)

-- whether the key `j` places behind `k` has its main part and ends in the digit
unfoldable pub is_sibling : Text → List Text → ℕ → ℕ → Option Bool
is_sibling k ks j digit = elim (get_elem? ks j) [
  | none ↦ none
  | some q ↦ and_then (some (same_text (main_part k) (main_part q))) (ends_in digit q)
]

-- `i <= quadKeys.size() - 4`, a subtraction of 64-bit unsigned numbers; `ks` is the vector from the
-- index `i` on
unfoldable pub has_room : (size : ℕ) → List Text → Bool
has_room size ks = leb (size - length ks) ((size + (2 ^ 64 - 4)) % 2 ^ 64)

-- the condition of the `if`, at the key `k` with the keys `ks` behind it
unfoldable pub is_block : (size : ℕ) → Text → List Text → Option Bool
is_block size k ks = and_then (some (has_room size (k ∷ ks))) (
    and_then (ends_in b'0' k) (
      and_then (is_sibling k ks 0 b'1')
        (and_then (is_sibling k ks 1 b'2') (is_sibling k ks 2 b'3'))))

-- The loop over `i`, on the vector from there on: whether a reduction occurred, and the vector `vf`.
-- The first number counts the keys that `i += 3` jumps over.
unfoldable pub unify_round : (size skip : ℕ) → List Text → Option (Bool × List Text)
unify_round size skip [] = some (false, [])
unify_round size (suc skip) (k ∷ ks) = unify_round size skip ks
unify_round size zero (k ∷ ks) =
    let merged = unify_round size 3 ks in
    let kept = unify_round size 0 ks in
    is_block size k ks >>= λ block.
    if block
    then Option.map (λ (reduced, vf). (true, main_part k ∷ vf)) merged
    else Option.map (λ (reduced, vf). (reduced, k ∷ vf)) kept

-- the loop over `v`, with the rounds that are left
unfoldable pub unify_levels : ℕ → List Text → Option (List Text)
unify_levels zero ks = some ks
unify_levels (suc n) ks = unify_round (length ks) 0 ks >>= λ (reduced, vf). elim reduced [
  | true ↦ unify_levels n vf
  | false ↦ some ks
]

unfoldable pub less : Text → Text → Bool
less s [] = false
less [] (d ∷ t) = true
less (c ∷ s) (d ∷ t) = let rest = less s t in if c == d then rest else ltb c d

-- `std::sort` with a comparison
unfoldable pub insert_sorted : (Text → Text → Bool) → Text → List Text → List Text
insert_sorted before k [] = k ∷ []
insert_sorted before k (j ∷ ks) =
    let rest = insert_sorted before k ks in if before j k then j ∷ rest else k ∷ j ∷ ks

unfoldable pub sort : (Text → Text → Bool) → List Text → List Text
sort before [] = []
sort before (k ∷ ks) = insert_sorted before k (sort before ks)

-- the comparison of the second sort
unfoldable pub is_shorter : Text → Text → Bool
is_shorter s t = ltb (length s) (length t)

unfoldable pub unify_quadkeys2 : (level_of_detail : ℕ) → List Text → Option (List Text)
unify_quadkeys2 level_of_detail ks =
    Option.map (sort is_shorter) (unify_levels level_of_detail (sort less ks))
