-- ===== src/Dict.antt =====
-- `std::unordered_map` with an unsigned key, as an association list. The order of the list stands
-- for the order of iteration, which the standard leaves open.
pub mod Laws
pub mod Totals
use s_ldm.Common.{
  ℕ, Bool, true, false, Option, none, some, List, [], ◌∷◌, ◌+◌, ◌==◌, if◌then◌else◌, is_some,
}

abbrev pub Dict {ℓ} : Type ℓ → Type ℓ
Dict V = List (ℕ × V)

module _ {ℓ} {V : Type ℓ} where
  unfoldable pub find : ℕ → Dict V → Option V
  find k [] = none
  find k ((j, v) ∷ m) = if j == k then some v else find k m

  -- `count(k)`, which is 0 or 1 as a test
  unfoldable pub contains : ℕ → Dict V → Bool
  unfolding find
  contains k m = is_some (find k m)

  -- `m[k] = v`
  unfoldable pub assign : ℕ → V → Dict V → Dict V
  assign k v [] = (k, v) ∷ []
  assign k v ((j, w) ∷ m) = if j == k then (k, v) ∷ m else (j, w) ∷ assign k v m

  -- `erase(k)`
  unfoldable pub erase : ℕ → Dict V → Dict V
  erase k [] = []
  erase k ((j, w) ∷ m) = let rest = erase k m in if j == k then rest else (j, w) ∷ rest

  abbrev pub retain : (V → Bool) → Option V → Option V
  retain p none = none
  retain p (some v) = if p v then some v else none

  -- The keys are distinct, as those of a map are.
  unfoldable pub count : ℕ → Dict V → ℕ
  count k [] = 0
  count k ((j, w) ∷ m) = (if j == k then 1 else 0) + count k m

  -- the loop `for (it = m.begin(); it != m.end();)` that erases the entries that fail a test
  unfoldable pub keep : (V → Bool) → Dict V → Dict V
  keep p [] = []
  keep p ((j, w) ∷ m) = let rest = keep p m in if p w then (j, w) ∷ rest else rest

  -- the sum of a weight over the entries
  unfoldable pub total : (V → ℕ) → Dict V → ℕ
  total w [] = 0
  total w ((j, v) ∷ m) = w v + total w m

  abbrev pub weight? : (V → ℕ) → Option V → ℕ
  weight? w none = 0
  weight? w (some v) = w v

  unfoldable pub map_values : (V → V) → Dict V → Dict V
  map_values f [] = []
  map_values f ((j, v) ∷ m) = (j, f v) ∷ map_values f m
