-- ===== src/Ldm/Aging.antt =====
-- `LDMMap::deleteOlderThan` and `LDMMap::deleteOlderThanAndExecute`.
use s_ldm.Common.{
  ℕ, ◌+◌, ◌≡◌, ◌≤◌, ◌<◌, ◌^◌, refl, inl, inr, Bool, true, not, none, some, [], ◌∷◌, arith,
  if◌then◌else◌, length, is_some, Bool-cases, Option-cases, ap, ap₂,
}
use s_ldm.Dict
use s_ldm.Dict.{Dict, keep, map_values, total, retain}
use s_ldm.Dict.Laws.{find-map_values, count-map_values, find-keep, count-keep_le}
use s_ldm.Dict.Totals.{total-keep_le, total-keep_lt, total-map_values_le, total-map_values_lt}
use s_ldm.Double.{Double}
use s_ldm.Ldm.{Entry, LdmMap, ok, item_not_found, entry_at, key_upper, key_lower, lookup, decrement}
use s_ldm.Ldm.Invariant.{IsValid, entries, points, pointers}
use s_ldm.Ldm.Insert.Effect.{lookup-entry_at}
use s_ldm.Ldm.Scan.{is_older, sweep_lower, sweep, delete_older_than}

module _ {D : Type 0} ⦃dbl : Double D⦄ (t : D) (now : ℕ) where
  abbrev pub is_recent : Entry D → Bool
  is_recent e = not (is_older t now e)

  -- The loop over a lower map is a filter, and counts what it drops.
  sweep_lower-keep :
      (m : Dict (Entry D)) (c : ℕ)
      → length m ≤ c
      → c < 2 ^ 64
      → ((sweep_lower t now m c).0 ≡ keep is_recent m)
        × ((sweep_lower t now m c).1 + length m ≡ c + length (keep is_recent m))
  unfolding sweep_lower keep
  sweep_lower-keep [] c h b = (refl, refl)
  sweep_lower-keep ((k, e) ∷ m) c h b = elim (Bool-cases (is_older t now e)) [
    | inl old ↦
        let ih = sweep_lower-keep m (decrement c) (omega arith) (omega arith) in
        rw old (ih.0, omega arith)
    | inr recent ↦
        let ih = sweep_lower-keep m c (omega arith) b in
        rw recent (ap (◌∷◌ (k, e)) ih.0, omega arith)
  ]

  length-keep_le : (m : Dict (Entry D)) → length (keep is_recent m) ≤ length m
  unfolding keep
  length-keep_le [] = omega arith
  length-keep_le ((k, e) ∷ m) = elim (Bool-cases (is_older t now e)) [
    | inl old ↦ rw old (omega (arith, length-keep_le m))
    | inr recent ↦ rw recent (omega (arith, length-keep_le m))
  ]

  abbrev swept : Dict (Dict (Entry D)) → Dict (Dict (Entry D))
  swept = map_values (keep is_recent)

  sweep-swept :
      (m : Dict (Dict (Entry D))) (c : ℕ)
      → entries m ≤ c
      → c < 2 ^ 64
      → ((sweep t now m c).0 ≡ swept m) × ((sweep t now m c).1 + entries m ≡ c + entries (swept m))
  unfolding sweep map_values total
  sweep-swept [] c h b = (refl, refl)
  sweep-swept ((k, lower) ∷ m) c h b =
      let first = sweep_lower-keep lower c (omega arith) b in
      let ih =
        sweep-swept m (sweep_lower t now lower c).1 (omega arith)
          (omega (arith, length-keep_le lower)) in
      (ap₂ (λ x y. (k, x) ∷ y) first.0 ih.0, omega arith)

module _ {D P : Type 0} ⦃dbl : Double D⦄ (t : D) (now : ℕ) (s : LdmMap D P)
    (valid : IsValid s) where
  abbrev after : LdmMap D P
  after = record s { ldmmap = swept t now s.ldmmap; card = entries (swept t now s.ldmmap) }

  delete_older_than-after : delete_older_than t now s ≡ after
  unfolding delete_older_than
  delete_older_than-after =
      let both = sweep-swept t now s.ldmmap s.card (omega (arith, valid.counted)) valid.bounded in
      let counted : (sweep t now s.ldmmap s.card).1 ≡ entries (swept t now s.ldmmap) =
        omega (arith, valid.counted, both.1) in
      λ i. record s { ldmmap = both.0 i; card = counted i }

  entry_at-swept :
      (u l : ℕ) → entry_at after.ldmmap u l ≡ retain (is_recent t now) (entry_at s.ldmmap u l)
  unfolding entry_at
  entry_at-swept u l = elim (Option-cases (Dict.find u s.ldmmap)) [
    | inl e ↦ ground (arith, find-map_values (keep (is_recent t now)) u s.ldmmap)
    | inr (lower, e) ↦ ground (
      arith,
      find-map_values (keep (is_recent t now)) u s.ldmmap,
      find-keep (is_recent t now) l lower (valid.lower_distinct u lower l e),
    )
  ]

  pointers-after_le : (p : ℕ) → pointers p after.ldmmap ≤ pointers p s.ldmmap
  pointers-after_le p =
      total-map_values_le (total (points p)) (keep (is_recent t now)) s.ldmmap
        (total-keep_le (points p) (is_recent t now))

  lower_distinct-after :
      (k : ℕ) (lower : Dict (Entry D)) (j : ℕ)
      → Dict.find k after.ldmmap ≡ some lower
      → Dict.count j lower ≤ 1
  lower_distinct-after k lower j f = elim (Option-cases (Dict.find k s.ldmmap)) [
    | inl e ↦ absurd (ground (arith, find-map_values (keep (is_recent t now)) k s.ldmmap))
    | inr (old, e) ↦ ground (
      arith,
      find-map_values (keep (is_recent t now)) k s.ldmmap,
      count-keep_le (is_recent t now) j old,
      valid.lower_distinct k old j,
    )
  ]

  after-IsValid : IsValid after
  after-IsValid = record {
    counted = refl;
    bounded = omega (
      arith,
      valid.counted,
      valid.bounded,
      total-map_values_le length (keep (is_recent t now)) s.ldmmap (length-keep_le t now),
    );
    upper_distinct = λ k. rw (count-map_values) (valid.upper_distinct k);
    lower_distinct = lower_distinct-after;
    filed = λ u l d f. ground (arith, entry_at-swept u l, valid.filed u l d);
    fresh = valid.fresh;
    owned = λ p h. valid.owned p (omega (arith, pointers-after_le p));
    unshared = λ p. omega (arith, valid.unshared p, pointers-after_le p);
  }

  -- In a valid database `deleteOlderThan` leaves a valid database, with the cardinality adjusted;
  -- it no longer finds the entries that the age test selects, and finds the others as before.
  pub delete_older_than_lem :
      IsValid (delete_older_than t now s)
      × ((q : ℕ)
          → lookup q (delete_older_than t now s) ≡ elim (lookup q s).1 [
            | none ↦ (item_not_found, none)
            | some e ↦ if is_older t now e then (item_not_found, none) else (ok, some e)
          ])
  delete_older_than_lem = rw delete_older_than-after (
    after-IsValid,
    λ q. ground (
      arith,
      lookup-entry_at q s,
      lookup-entry_at q after,
      entry_at-swept (key_upper q) (key_lower q),
    ),
  )

  pointers-after_lt :
      (u l : ℕ) (e : Entry D)
      → entry_at s.ldmmap u l ≡ some e
      → is_older t now e ≡ true
      → pointers e.ph_data after.ldmmap + 1 ≤ pointers e.ph_data s.ldmmap
  unfolding entry_at
  pointers-after_lt u l e there old = elim (Option-cases (Dict.find u s.ldmmap)) [
    | inl f ↦ absurd (ground arith)
    | inr (lower, f) ↦
        total-map_values_lt (total (points e.ph_data)) (keep (is_recent t now)) u s.ldmmap 1
          (total-keep_le (points e.ph_data) (is_recent t now)) f
          (ground (
            arith,
            total-keep_lt (points e.ph_data) (is_recent t now) l lower {v = e} (ground arith)
                (rw old),
          ))
  ]

  -- In a valid database the history of an entry that the age test selects is leaked: its object stays
  -- on the heap, and no entry points to it any more.
  pub delete_older_than_leaks :
      (q : ℕ) (e : Entry D)
      → lookup q s ≡ (ok, some e)
      → is_older t now e ≡ true
      → (is_some (Dict.find e.ph_data (delete_older_than t now s).heap) ≡ true)
        × (pointers e.ph_data (delete_older_than t now s).ldmmap ≡ 0)
  delete_older_than_leaks q e there old =
      let entry : entry_at s.ldmmap (key_upper q) (key_lower q) ≡ some e =
        ground (arith, lookup-entry_at q s) in
      let fewer = pointers-after_lt (key_upper q) (key_lower q) e entry old in
      rw delete_older_than-after
        (valid.owned e.ph_data (omega arith), omega (arith, valid.unshared e.ph_data))
