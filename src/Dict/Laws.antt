-- ===== src/Dict/Laws.antt =====
-- The laws of the map operations.
use s_ldm.Common.{
  ap, ◌∙◌, inl, inr, Bool-cases, ℕ, ◌+◌, ◌≤◌, ◌≡◌, refl, Bool, none, some, [], ◌∷◌, arith, ◌==◌,
  if◌then◌else◌, length, is_some,
}
use s_ldm.Dict.{Dict, find, assign, erase, count, keep, retain, map_values}

module _ {ℓ} {V : Type ℓ} where
  pub find-assign :
      (k q : ℕ) (v : V) (m : Dict V) → find q (assign k v m) ≡ (if k == q then some v else find q m)
  unfolding find assign
  find-assign k q v [] = ground arith
  find-assign k q v ((j, w) ∷ m) = ground (arith, find-assign k q v m)

  pub find-erase : (k q : ℕ) (m : Dict V) → find q (erase k m) ≡ (if k == q then none else find q m)
  unfolding find erase
  find-erase k q [] = ground arith
  find-erase k q ((j, w) ∷ m) = ground (arith, find-erase k q m)

  pub length-assign :
      (k : ℕ) (v : V) (m : Dict V)
      → length (assign k v m) ≡ length m + (if is_some (find k m) then 0 else 1)
  unfolding find assign
  length-assign k v [] = refl
  length-assign k v ((j, w) ∷ m) = ground (arith, length-assign k v m)

  pub count-assign :
      (k q : ℕ) (v : V) (m : Dict V)
      → count q (assign k v m)
        ≡ (if k == q then (if count q m == 0 then 1 else count q m) else count q m)
  unfolding count assign
  count-assign k q v [] = ground arith
  count-assign k q v ((j, w) ∷ m) = elim (Bool-cases (j == k)) [
    | inl e ↦ rw e (ground arith)
    | inr e ↦ rw e (ground (arith, count-assign k q v m))
  ]

  pub count-eq-zero : (k : ℕ) (m : Dict V) → find k m ≡ none → count k m ≡ 0
  unfolding count find
  count-eq-zero k [] h = refl
  count-eq-zero k ((j, w) ∷ m) h = ground (arith, count-eq-zero k m)

  pub find-eq-none : (k : ℕ) (m : Dict V) → count k m ≡ 0 → find k m ≡ none
  unfolding count find
  find-eq-none k [] h = refl
  find-eq-none k ((j, w) ∷ m) h = ground (arith, find-eq-none k m)

  -- Where the keys are distinct, `erase` drops one entry if the key is there.
  pub length-erase : (k : ℕ) (m : Dict V) → length m ≡ length (erase k m) + count k m
  unfolding count erase
  length-erase k [] = refl
  length-erase k ((j, w) ∷ m) = ground (arith, length-erase k m)

  pub count-erase_le : (k q : ℕ) (m : Dict V) → count q (erase k m) ≤ count q m
  unfolding count erase
  count-erase_le k q [] = omega arith
  count-erase_le k q ((j, w) ∷ m) = elim (Bool-cases (j == k)) [
    | inl e ↦ rw e (omega (arith, count-erase_le k q m))
    | inr e ↦ rw e (omega (arith, count-erase_le k q m))
  ]

  pub erase_absent : (k : ℕ) (m : Dict V) → count k m ≡ 0 → erase k m ≡ m
  unfolding count erase
  erase_absent k [] h = refl
  erase_absent k ((j, w) ∷ m) h = ground (arith, erase_absent k m)

  pub find-keep :
      (p : V → Bool) (k : ℕ) (m : Dict V) → count k m ≤ 1 → find k (keep p m) ≡ retain p (find k m)
  unfolding find keep count
  find-keep p k [] c = refl
  find-keep p k ((j, w) ∷ m) c = elim (Bool-cases (p w)) [
    | inl e ↦ rw e (elim (Bool-cases (j == k)) [
      | inl f ↦ rw (f, e)
      | inr f ↦ rw f (find-keep p k m (ground arith))
    ])
    | inr e ↦ rw e (elim (Bool-cases (j == k)) [
      | inl f ↦
          rw (f, e)
            (find-keep p k m (ground arith) ∙ ap (retain p) (find-eq-none k m (ground arith)))
      | inr f ↦ rw f (find-keep p k m (ground arith))
    ])
  ]

  pub count-keep_le : (p : V → Bool) (k : ℕ) (m : Dict V) → count k (keep p m) ≤ count k m
  unfolding count keep
  count-keep_le p k [] = omega arith
  count-keep_le p k ((j, w) ∷ m) = elim (Bool-cases (p w)) [
    | inl e ↦ rw e (omega (arith, count-keep_le p k m))
    | inr e ↦ rw e (omega (arith, count-keep_le p k m))
  ]

  pub find-map_values :
      (f : V → V) (k : ℕ) (m : Dict V)
      → find k (map_values f m) ≡ elim (find k m) [ none ↦ none | some v ↦ some (f v) ]
  unfolding find map_values
  find-map_values f k [] = refl
  find-map_values f k ((j, v) ∷ m) = elim (Bool-cases (j == k)) [
    | inl e ↦ rw e
    | inr e ↦ rw e (find-map_values f k m)
  ]

  pub count-map_values : (f : V → V) (k : ℕ) (m : Dict V) → count k (map_values f m) ≡ count k m
  unfolding count map_values
  count-map_values f k [] = refl
  count-map_values f k ((j, v) ∷ m) = rw (count-map_values f k m)
