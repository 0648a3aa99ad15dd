-- ===== src/Ldm/Listing/Operations.antt =====
-- What the operations do to the list of the entries.
use s_ldm.Common.{
  ℕ, ◌≡◌, ◌≢◌, ◌⊎◌, refl, sym, ap, ◌∙◌, Bool, not, some, [], ◌∷◌, ◌==◌, arith, Bool-cases,
  Option-cases, inl, inr,
}
use s_ldm.Common.Partial.{some_injective}
use s_ldm.Dict
use s_ldm.Dict.{Dict}
use s_ldm.Double.{Double}
use s_ldm.Ldm.{Entry, entry, LdmMap, LdmMapError, map_full, History, insert, uint64_max, entry_at}
use s_ldm.Ldm.Contents.{lower_contents, contents, only, only-append}
use s_ldm.Ldm.Insert.{up, low, insert_new, insert_present}
use s_ldm.Ldm.Invariant.{IsValid}
use s_ldm.Ldm.Scan.{is_older, sweep_lower, sweep, delete_older_than}
use s_ldm.Ldm.Write.{write, entry_at-pointers}
use s_ldm.Vehicle.{VehicleData}

module _ {D P : Type 0} ⦃hist : History D P⦄ where
  -- The maps after `insert`: as before where the database is full, or with one write, in the place of
  -- an entry with the same keys.
  pub insert-contents :
      (v : VehicleData D) (s s' : LdmMap D P) (status : LdmMapError)
      → IsValid s
      → insert v s ≡ some (status, s')
      → (s'.ldmmap ≡ s.ldmmap)
        ⊎ ((p : ℕ) × (s'.ldmmap ≡ write (up v s) (low v s) (entry v p) s.ldmmap))
  unfolding insert
  insert-contents v s s' status valid h = elim (Bool-cases (s.card == uint64_max)) [
    | inl full ↦
        let same : insert v s ≡ some (map_full, s) = simp (insert, full) in
        inl (ap (λ u. u.1.ldmmap) (some_injective (status, s') (map_full, s) (sym h ∙ same)))
    | inr room ↦
        let some_room : s.card ≢ uint64_max = ground arith in
        elim (Option-cases (entry_at s.ldmmap (up v s) (low v s))) [
          | inl absent ↦
              let new = insert_new v s some_room absent in
              inr (s.next, ap (λ u. u.1.ldmmap) (some_injective (status, s') _ (sym h ∙ new)))
          | inr (d, there) ↦
              let object =
                valid.owned d.ph_data
                  (ground (arith, entry_at-pointers d.ph_data (up v s) (low v s) s.ldmmap)) in
              elim (Option-cases (Dict.find d.ph_data s.heap)) [
                | inl e ↦ absurd (ground arith)
                | inr (g, e) ↦
                    let old = insert_present v s d g some_room there e in
                    inr (
                      d.ph_data,
                      ap (λ u. u.1.ldmmap) (some_injective (status, s') _ (sym h ∙ old)),
                    )
              ]
        ]
  ]

module _ {D : Type 0} ⦃dbl : Double D⦄ (t : D) (now : ℕ) where
  abbrev pub is_kept : Entry D → Bool
  is_kept e = not (is_older t now e)

  sweep_lower-only :
      (m : Dict (Entry D)) (c : ℕ)
      → lower_contents (sweep_lower t now m c).0 ≡ only is_kept (lower_contents m)
  unfolding sweep_lower
  sweep_lower-only [] c = refl
  sweep_lower-only ((k, e) ∷ m) c = elim (Bool-cases (is_older t now e)) [
    | inl f ↦ rw f (sweep_lower-only m _)
    | inr f ↦ rw f (ap (λ l. e ∷ l) (sweep_lower-only m c))
  ]

  sweep-only :
      (m : Dict (Dict (Entry D))) (c : ℕ) → contents (sweep t now m c).0 ≡ only is_kept (contents m)
  unfolding sweep
  sweep-only [] c = refl
  sweep-only ((k, lower) ∷ m) c = rw (
    sweep_lower-only lower c,
    sweep-only m (sweep_lower t now lower c).1,
    only-append is_kept (lower_contents lower) (contents m),
  )

  -- The entries that `deleteOlderThan` leaves are those that the age test does not select, in order.
  pub delete_older_than-contents :
      {P : Type 0} (s : LdmMap D P)
      → contents (delete_older_than t now s).ldmmap ≡ only is_kept (contents s.ldmmap)
  unfolding delete_older_than
  delete_older_than-contents s = sweep-only s.ldmmap s.card
