-- ===== src/QuadKey/Dimension.antt =====
-- src/QuadKeyTS.cpp, `QuadKeyTS::checkdim`: quadkeys lose their last character until the filter is
-- short enough for the broker.
pub mod Rounds
pub mod Short
use mathlib.Core.Option
use s_ldm.Common.{
  ℕ, zero, suc, ◌+◌, ◌-◌, ◌*◌, ◌%◌, ◌^◌, Bool, true, false, ◌&&◌, List, [], ◌∷◌, ◌++◌, Option, none,
  some, ◌==◌, ltb, leb, if◌then◌else◌, length, erase,
}
use s_ldm.Decoder.Bytes.{◌>>=◌}
use s_ldm.Numeral.{Text}
use s_ldm.QuadKey.Distinct.{remove_duplicates}
use s_ldm.QuadKey.Keys.{chars}

-- The `std::accumulate` with its start -4 and 21 more characters for each key, and the 180 added to
-- it: an `int`, so modulo 2^32.
unfoldable pub dimension : List Text → ℕ
dimension ks = (chars ks + 21 * length ks + 176) % 2 ^ 32

unfoldable pub max_length : ℕ
max_length = 100_000

-- `>= max_length`, for the `int` with these 32 bits
unfoldable pub is_too_long : ℕ → Bool
unfolding max_length
is_too_long d = leb max_length d && ltb d (2 ^ 31)

-- `k.substr(0, n)`
unfoldable pub take_chars : ℕ → Text → Text
take_chars zero k = []
take_chars (suc n) [] = []
take_chars (suc n) (c ∷ k) = c ∷ take_chars n k

-- the loop over `j`: the index of the first key with `l` characters
unfoldable pub find_long : ℕ → List Text → Option (ℕ × Text)
find_long l [] = none
find_long l (k ∷ ks) =
    let rest = find_long l ks in
    if length k == l then some (0, k) else Option.map (λ (j, q). (suc j, q)) rest

-- what the loop over `j` does to `vf` and to `l`
unfoldable pub shorten_one : ℕ → List Text → ℕ × List Text
shorten_one l ks = elim (find_long l ks) [
  | some (j, k) ↦ (l, erase (ks ++ take_chars (l - 1) k ∷ []) j)
  | none ↦ elim ks [ [] ↦ (l, []) | k ∷ rest ↦ (l - 1, k ∷ rest) ]
]

-- the `while` loop; `none` only if the fuel runs out
unfoldable pub shorten : (fuel l : ℕ) → List Text → Option (List Text)
shorten zero l ks = none
shorten (suc fuel) l ks = elim (is_too_long (dimension ks)) [
  | false ↦ some ks
  | true ↦
      let (l', vf) = shorten_one l ks in
      elim (ltb l' 1) [ true ↦ some vf | false ↦ remove_duplicates vf >>= shorten fuel l' ]
]

-- each round takes one from the characters or from `l`
unfoldable pub checkdim : (level_of_detail : ℕ) → List Text → Option (List Text)
checkdim level_of_detail ks = shorten (chars ks + level_of_detail + 1) level_of_detail ks
