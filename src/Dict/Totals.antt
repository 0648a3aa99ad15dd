-- ===== src/Dict/Totals.antt =====
-- The laws of the sum of a weight over a map.
use s_ldm.Common.{ℕ, ◌+◌, ◌≤◌, ◌≡◌, inl, inr, Bool, false, some, [], ◌∷◌, arith, ◌==◌, Bool-cases}
use s_ldm.Dict.{Dict, find, assign, erase, keep, total, weight?, map_values}

module _ {ℓ} {V : Type ℓ} where
  some_injective : {u v : V} → some u ≡ some v → u ≡ v
  some_injective h = cc

  -- A write exchanges the weight of the old entry for that of the new one.
  pub total-assign :
      (w : V → ℕ) (k : ℕ) (v : V) (m : Dict V)
      → total w (assign k v m) + weight? w (find k m) ≡ total w m + w v
  unfolding total assign find
  total-assign w k v [] = omega arith
  total-assign w k v ((j, u) ∷ m) = elim (Bool-cases (j == k)) [
    | inl e ↦ rw e (omega arith)
    | inr e ↦ rw e (omega (arith, total-assign w k v m))
  ]

  pub weight-le-total : (w : V → ℕ) (k : ℕ) (m : Dict V) → weight? w (find k m) ≤ total w m
  unfolding total find
  weight-le-total w k [] = omega arith
  weight-le-total w k ((j, u) ∷ m) = elim (Bool-cases (j == k)) [
    | inl e ↦ rw e (omega arith)
    | inr e ↦ rw e (omega (arith, weight-le-total w k m))
  ]

  pub two-le-total :
      (w : V → ℕ) (k j : ℕ) (m : Dict V)
      → (k == j) ≡ false
      → weight? w (find k m) + weight? w (find j m) ≤ total w m
  unfolding total find
  two-le-total w k j [] h = omega arith
  two-le-total w k j ((i, u) ∷ m) h = elim (Bool-cases (i == k)) [
    | inl e ↦ elim (Bool-cases (i == j)) [
      | inl f ↦ absurd (ground arith)
      | inr f ↦ rw (e, f) (omega (arith, weight-le-total w j m))
    ]
    | inr e ↦ elim (Bool-cases (i == j)) [
      | inl f ↦ rw (e, f) (omega (arith, weight-le-total w k m))
      | inr f ↦ rw (e, f) (omega (arith, two-le-total w k j m h))
    ]
  ]

  pub total-keep_le : (w : V → ℕ) (p : V → Bool) (m : Dict V) → total w (keep p m) ≤ total w m
  unfolding total keep
  total-keep_le w p [] = omega arith
  total-keep_le w p ((j, u) ∷ m) = elim (Bool-cases (p u)) [
    | inl e ↦ rw e (omega (arith, total-keep_le w p m))
    | inr e ↦ rw e (omega (arith, total-keep_le w p m))
  ]

  pub total-erase_le : (w : V → ℕ) (k : ℕ) (m : Dict V) → total w (erase k m) ≤ total w m
  unfolding total erase
  total-erase_le w k [] = omega arith
  total-erase_le w k ((j, u) ∷ m) = elim (Bool-cases (j == k)) [
    | inl e ↦ rw e (omega (arith, total-erase_le w k m))
    | inr e ↦ rw e (omega (arith, total-erase_le w k m))
  ]

  -- What a filter drops is missing from the sum.
  pub total-keep_lt :
      (w : V → ℕ) (p : V → Bool) (k : ℕ) (m : Dict V) {v : V}
      → find k m ≡ some v
      → p v ≡ false
      → total w (keep p m) + w v ≤ total w m
  unfolding total keep find
  total-keep_lt w p k [] h g = absurd (ground arith)
  total-keep_lt w p k ((j, u) ∷ m) {v} h g = elim (Bool-cases (j == k)) [
    | inl e ↦ let same : u ≡ v = some_injective (rw e at h) in ground (arith, total-keep_le w p m)
    | inr e ↦ ground (arith, total-keep_lt w p k m (rw e at h) g)
  ]

  pub total-map_values_le :
      (w : V → ℕ) (f : V → V) (m : Dict V)
      → ((v : V) → w (f v) ≤ w v)
      → total w (map_values f m) ≤ total w m
  unfolding total map_values
  total-map_values_le w f [] h = omega arith
  total-map_values_le w f ((j, u) ∷ m) h = omega (arith, h u, total-map_values_le w f m h)

  pub total-map_values_lt :
      (w : V → ℕ) (f : V → V) (k : ℕ) (m : Dict V) {v : V} (n : ℕ)
      → ((v : V) → w (f v) ≤ w v)
      → find k m ≡ some v
      → w (f v) + n ≤ w v
      → total w (map_values f m) + n ≤ total w m
  unfolding total map_values find
  total-map_values_lt w f k [] n h e g = absurd (ground arith)
  total-map_values_lt w f k ((j, u) ∷ m) {v} n h e g = elim (Bool-cases (j == k)) [
    | inl s ↦
        let same : u ≡ v = some_injective (rw s at e) in
        let here : w (f u) + n ≤ w u = rw same g in omega (arith, total-map_values_le w f m h)
    | inr s ↦ omega (arith, h u, total-map_values_lt w f k m n h (rw s at e) g)
  ]
