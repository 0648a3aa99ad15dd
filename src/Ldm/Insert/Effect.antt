-- ===== src/Ldm/Insert/Effect.antt =====
-- What `LDMMap::insert` does, seen through `lookup`.
use s_ldm.Common.{
  ℕ, ◌≡◌, ◌≢◌, ◌%◌, ◌^◌, inl, inr, none, some, arith, ◌==◌, ◌&&◌, if◌then◌else◌, is_some,
  Option-cases, false,
}
use s_ldm.Dict
use s_ldm.Dict.Laws.{find-assign}
use s_ldm.Ldm.{
  Entry, entry, LdmMap, LdmMapError, ok, updated, item_not_found, History, entry_at, key_upper,
  key_lower, insert, lookup, uint64_max,
}
use s_ldm.Ldm.Invariant.{IsValid}
use s_ldm.Ldm.Write.{entry_at-write, entry_at-pointers, entry_at-apart}
use s_ldm.Ldm.Insert.{up, low, with_new, with_point, insert_new, insert_present}
use s_ldm.Ldm.Insert.Valid.{with_new-IsValid, with_point-IsValid}
use s_ldm.Vehicle.{VehicleData}

pub lookup-entry_at :
    {D P : Type 0} (q : ℕ) (s : LdmMap D P)
    → lookup q s ≡ elim (entry_at s.ldmmap (key_upper q) (key_lower q)) [
      | none ↦ (item_not_found, none)
      | some e ↦ (ok, some e)
    ]
unfolding lookup entry_at
lookup-entry_at q s = ground arith

-- Two station IDs with other low 32 bits have other keys.
pub keys_apart :
    (a b : ℕ)
    → a % 2 ^ 32 ≢ b % 2 ^ 32
    → (key_upper a == key_upper b && key_lower a == key_lower b) ≡ false
keys_apart a b h = ground arith

module _ {D P : Type 0} ⦃hist : History D P⦄ (v : VehicleData D) (s : LdmMap D P) where
  -- the object that takes the point: that of the entry, or a new one
  abbrev pub history_before : P
  history_before = elim (entry_at s.ldmmap (up v s) (low v s)) [
    | none ↦ hist.create
    | some e ↦ elim (Dict.find e.ph_data s.heap) [ none ↦ hist.create | some h ↦ h ]
  ]

  pub record Inserted (r : LdmMapError × LdmMap D P) : Type 0 where
    pub status : r.0 ≡ (if is_some (lookup v.station_id s).1 then updated else ok)
    pub valid : IsValid r.1
    pub there :
        (p : ℕ) × (lookup v.station_id r.1 ≡ (ok, some (entry v p)))
        × (Dict.find p r.1.heap ≡ some (hist.record_point v history_before))
    pub others : (q : ℕ) → q % 2 ^ 32 ≢ v.station_id % 2 ^ 32 → lookup q r.1 ≡ lookup q s
    pub other_histories :
        (q : ℕ) (e : Entry D)
        → q % 2 ^ 32 ≢ v.station_id % 2 ^ 32
        → lookup q s ≡ (ok, some e)
        → Dict.find e.ph_data r.1.heap ≡ Dict.find e.ph_data s.heap

  module _ (valid : IsValid s) (room : s.card ≢ uint64_max) where
    inserted_new : entry_at s.ldmmap (up v s) (low v s) ≡ none → Inserted (ok, with_new v s)
    inserted_new absent = record {
      status = ground (arith, lookup-entry_at v.station_id s);
      valid = with_new-IsValid v s valid room absent;
      there = (
        s.next,
        ground (
          arith,
          lookup-entry_at v.station_id (with_new v s),
          entry_at-write (up v s) (low v s) (entry v s.next) s.ldmmap (up v s) (low v s),
        ),
        ground (
          arith,
          find-assign s.next s.next (hist.record_point v hist.create)
              (Dict.assign s.next hist.create s.heap),
        ),
      );
      others = λ q h. ground (
        arith,
        lookup-entry_at q (with_new v s),
        lookup-entry_at q s,
        entry_at-write (up v s) (low v s) (entry v s.next) s.ldmmap (key_upper q) (key_lower q),
        keys_apart v.station_id q,
      );
      other_histories = λ q e h f. ground (
        arith,
        lookup-entry_at q s,
        entry_at-pointers e.ph_data (key_upper q) (key_lower q) s.ldmmap,
        valid.owned e.ph_data,
        valid.fresh e.ph_data,
        find-assign s.next e.ph_data (hist.record_point v hist.create)
            (Dict.assign s.next hist.create s.heap),
        find-assign s.next e.ph_data hist.create s.heap,
      );
    }

    inserted_present :
        (d : Entry D) (g : P)
        → entry_at s.ldmmap (up v s) (low v s) ≡ some d
        → Dict.find d.ph_data s.heap ≡ some g
        → Inserted (updated, with_point v s d.ph_data g)
    inserted_present d g there object = record {
      status = ground (arith, lookup-entry_at v.station_id s);
      valid = with_point-IsValid v s valid d g there object;
      there = (
        d.ph_data,
        ground (
          arith,
          lookup-entry_at v.station_id (with_point v s d.ph_data g),
          entry_at-write (up v s) (low v s) (entry v d.ph_data) s.ldmmap (up v s) (low v s),
        ),
        ground (arith, find-assign d.ph_data d.ph_data (hist.record_point v g) s.heap),
      );
      others = λ q h. ground (
        arith,
        lookup-entry_at q (with_point v s d.ph_data g),
        lookup-entry_at q s,
        entry_at-write (up v s) (low v s) (entry v d.ph_data) s.ldmmap (key_upper q) (key_lower q),
        keys_apart v.station_id q,
      );
      other_histories = λ q e h f. ground (
        arith,
        lookup-entry_at q s,
        entry_at-apart e.ph_data (up v s) (low v s) (key_upper q) (key_lower q) s.ldmmap,
        keys_apart v.station_id q,
        valid.unshared e.ph_data,
        find-assign d.ph_data e.ph_data (hist.record_point v g) s.heap,
      );
    }

    -- In a valid database with room for one more entry, `insert` does not fault. The database stays
    -- valid; the result says whether the station ID was new; a lookup of it finds the new data and a
    -- pointer to its history with the new point; the entry and the history of every station ID with
    -- other low 32 bits are as before.
    pub insert-Inserted : (r : LdmMapError × LdmMap D P) × (insert v s ≡ some r) × Inserted r
    insert-Inserted = elim (Option-cases (entry_at s.ldmmap (up v s) (low v s))) [
      | inl absent ↦ ((ok, with_new v s), insert_new v s room absent, inserted_new absent)
      | inr (d, there) ↦
          let object =
            valid.owned d.ph_data
              (ground (arith, entry_at-pointers d.ph_data (up v s) (low v s) s.ldmmap)) in
          elim (Option-cases (Dict.find d.ph_data s.heap)) [
            | inl e ↦ absurd (ground arith)
            | inr (g, e) ↦ (
              (updated, with_point v s d.ph_data g),
              insert_present v s d g room there e,
              inserted_present d g there e,
            )
          ]
    ]
