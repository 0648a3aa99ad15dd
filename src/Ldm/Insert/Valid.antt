-- ===== src/Ldm/Insert/Valid.antt =====
-- `LDMMap::insert` does not fault, keeps the invariant, and changes one entry.
use s_ldm.Common.{ℕ, ◌≡◌, ◌≢◌, ◌≤◌, refl, none, some, arith}
use s_ldm.Dict
use s_ldm.Dict.Laws.{find-assign}
use s_ldm.Ldm.{Entry, entry, LdmMap, History, entry_at, uint64_max}
use s_ldm.Ldm.Invariant.{IsValid, pointers}
use s_ldm.Ldm.Write.{
  entries-write, pointers-write, upper_distinct-write, lower_distinct-write, filed-write,
}
use s_ldm.Ldm.Insert.{up, low, with_new, with_point}
use s_ldm.Vehicle.{VehicleData}

module _ {D P : Type 0} ⦃hist : History D P⦄ (v : VehicleData D) (s : LdmMap D P)
    (valid : IsValid s) where
  not_pointed : (p : ℕ) → s.next ≤ p → pointers p s.ldmmap ≡ 0
  not_pointed p h = ground (arith, valid.fresh p, valid.owned p)

  pub with_new-IsValid :
      s.card ≢ uint64_max → entry_at s.ldmmap (up v s) (low v s) ≡ none → IsValid (with_new v s)
  with_new-IsValid room absent = record {
    counted = ground (
      arith,
      valid.counted,
      valid.bounded,
      entries-write (up v s) (low v s) (entry v s.next) s.ldmmap,
    );
    bounded = omega arith;
    upper_distinct =
        upper_distinct-write (up v s) (low v s) (entry v s.next) s.ldmmap valid.upper_distinct;
    lower_distinct =
        lower_distinct-write (up v s) (low v s) (entry v s.next) s.ldmmap valid.lower_distinct;
    filed = filed-write (up v s) (low v s) (entry v s.next) s.ldmmap (refl, refl) valid.filed;
    fresh = λ p h. ground (
      arith,
      valid.fresh p,
      find-assign s.next p (hist.record_point v hist.create)
          (Dict.assign s.next hist.create s.heap),
      find-assign s.next p hist.create s.heap,
    );
    owned = λ p h. ground (
      arith,
      valid.owned p,
      pointers-write p (up v s) (low v s) (entry v s.next) s.ldmmap,
      find-assign s.next p (hist.record_point v hist.create)
          (Dict.assign s.next hist.create s.heap),
      find-assign s.next p hist.create s.heap,
    );
    unshared = λ p. ground (
      arith,
      valid.unshared p,
      not_pointed p,
      pointers-write p (up v s) (low v s) (entry v s.next) s.ldmmap,
    );
  }

  pub with_point-IsValid :
      (e : Entry D) (h : P)
      → entry_at s.ldmmap (up v s) (low v s) ≡ some e
      → Dict.find e.ph_data s.heap ≡ some h
      → IsValid (with_point v s e.ph_data h)
  with_point-IsValid e h there object = record {
    counted =
        ground
          (arith, valid.counted, entries-write (up v s) (low v s) (entry v e.ph_data) s.ldmmap);
    bounded = valid.bounded;
    upper_distinct =
        upper_distinct-write (up v s) (low v s) (entry v e.ph_data) s.ldmmap valid.upper_distinct;
    lower_distinct =
        lower_distinct-write (up v s) (low v s) (entry v e.ph_data) s.ldmmap valid.lower_distinct;
    filed = filed-write (up v s) (low v s) (entry v e.ph_data) s.ldmmap (refl, refl) valid.filed;
    fresh = λ p q.
        ground (arith, valid.fresh p, find-assign e.ph_data p (hist.record_point v h) s.heap);
    owned = λ p q. ground (
      arith,
      valid.owned p,
      pointers-write p (up v s) (low v s) (entry v e.ph_data) s.ldmmap,
      find-assign e.ph_data p (hist.record_point v h) s.heap,
    );
    unshared = λ p.
        ground (
          arith,
          valid.unshared p,
          pointers-write p (up v s) (low v s) (entry v e.ph_data) s.ldmmap,
        );
  }
