-- ===== src/System/Rounds.antt =====
-- One round of a periodic thread, once the map is drawn.
use s_ldm.Common.{ap, none, ℕ, ◌≡◌, refl, ◌∙◌, Bool, true, not, ◌&&◌, ◌||◌, some}
use s_ldm.Common.Partial.{Yields, Yields-bind}
use s_ldm.Double.{Double}
use s_ldm.Ldm.{LdmMap}
use s_ldm.Ldm.Contents.{
  contents, fold, only, delete_older_than_and_execute_lem, execute_on_all_contents-fold,
}
use s_ldm.Ldm.Listing.{any, only-cons}
use s_ldm.Ldm.Scan.{
  is_older, delete_older_than, delete_older_than_and_execute, execute_on_all_contents,
}
use s_ldm.Numeral.{Text}
use s_ldm.Program.Threads.{
  Threads, clear_visualizer_object, update_visualizer, goes_on, clean, update,
}
use s_ldm.Decoder.Bytes.{◌>>=◌}
use s_ldm.System.Shown.{clear_first, is_shown, has_id, IsDrawn, clear_all, clear_gone, update_all}
use s_ldm.Visualizer.{Visualizer}

module _ {D P : Type 0} ⦃dbl : Double D⦄ (db : LdmMap D P) (t : Threads D) (v : Visualizer D) where
  -- A round of the cleaner deletes what is older than a second, and removes it from the map.
  pub clean-shown :
      (expired : Bool) (now : ℕ)
      → goes_on expired t ≡ true
      → t.visualizer ≡ some v
      → IsDrawn v
      → (w : Visualizer D) × (clean expired now db t
          ≡ some (delete_older_than (dbl.of_ℕ 1000) now db, record t { visualizer = some w }))
        × IsDrawn w
        × ((id : Text)
            → is_shown id w ≡ (
                is_shown id v
                && not
                    (any (has_id id) (only (is_older (dbl.of_ℕ 1000) now) (contents db.ldmmap)))))
  unfolding clean
  clean-shown expired now on there drawn =
      let (w, f, still, shown) =
        clear_all (only (is_older (dbl.of_ℕ 1000) now) (contents db.ldmmap)) v drawn in
      let both : delete_older_than_and_execute (dbl.of_ℕ 1000) now clear_visualizer_object
            (some t.visualizer) db
          ≡ (delete_older_than (dbl.of_ℕ 1000) now db, some (some w)) =
        delete_older_than_and_execute_lem (dbl.of_ℕ 1000) now clear_visualizer_object
          (some t.visualizer) db
        ∙ rw (there, f) refl in
      (w, rw (on, both) refl, still, shown)

  -- A round of the updater puts all entries on the map.
  pub update-shown :
      (expired : Bool) (length : ℕ)
      → goes_on expired t ≡ true
      → t.visualizer ≡ some v
      → IsDrawn v
      → (w : Visualizer D) × (update expired length db t ≡ some (record t { visualizer = some w }))
        × IsDrawn w
        × ((id : Text) → is_shown id w ≡ (is_shown id v || any (has_id id) (contents db.ldmmap)))
  unfolding update
  update-shown expired length on there drawn =
      let (w, f, still, shown) = update_all (contents db.ldmmap) v drawn in
      let all : execute_on_all_contents update_visualizer t.visualizer db ≡ some w =
        execute_on_all_contents-fold update_visualizer t.visualizer db ∙ rw (there, f) refl in
      (w, rw (on, all) refl, still, shown)

module _ {D P : Type 0} ⦃dbl : Double D⦄ (db : LdmMap D P) (t : Threads D) where
  clean-cleared :
      (expired : Bool) (now : ℕ)
      → goes_on expired t ≡ true
      → t.visualizer ≡ none
      → clean expired now db t ≡ (
          fold
            (λ e. clear_visualizer_object {D = D} e.veh_data.station_id)
            (only (is_older (dbl.of_ℕ 1000) now) (contents db.ldmmap))
            (some none)
          >>= λ v. some (delete_older_than (dbl.of_ℕ 1000) now db, record t { visualizer = v }))
  unfolding clean
  clean-cleared expired now on gone =
      rw
        (
          on,
          delete_older_than_and_execute_lem (dbl.of_ℕ 1000) now clear_visualizer_object
              (some t.visualizer) db,
          gone,
        )
        refl

  -- A round of the cleaner once the object is gone: it comes to its end where no entry is old.
  pub clean-gone :
      (expired : Bool) (now : ℕ)
      → goes_on expired t ≡ true
      → t.visualizer ≡ none
      → Yields
          (λ r. r ≡ (delete_older_than (dbl.of_ℕ 1000) now db, record t { visualizer = none }))
          (clean expired now db t)
  clean-gone expired now on gone =
      let old = only (is_older (dbl.of_ℕ 1000) now) (contents db.ldmmap) in
      rw (clean-cleared expired now on gone) (
        Yields-bind (λ u. u ≡ none) _ _ _ (clear_gone old)
          λ u e.
            ap (λ x. (delete_older_than (dbl.of_ℕ 1000) now db, record t { visualizer = x })) e)

  -- and it faults where one is
  pub clean-fault :
      (expired : Bool) (now : ℕ)
      → goes_on expired t ≡ true
      → t.visualizer ≡ none
      → any (is_older (dbl.of_ℕ 1000) now) (contents db.ldmmap) ≡ true
      → clean expired now db t ≡ none
  clean-fault expired now on gone old =
      let (e, es, f) = only-cons (is_older (dbl.of_ℕ 1000) now) (contents db.ldmmap) old in
      clean-cleared expired now on gone ∙ rw (f, clear_first e es) refl
