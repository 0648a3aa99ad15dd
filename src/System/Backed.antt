-- ===== src/System/Backed.antt =====
-- What the operations on the database keep: its entries are inside the area, and the map shows only
-- vehicles that it has.
use s_ldm.AreaFilter.{is_inside}
use s_ldm.Common.{
  ℕ, ◌≡◌, ◌^◌, ◌<◌, sym, ap, subst, ◌∙◌, true, not, ◌&&◌, ◌||◌, some, ◌==◌, arith, All, Bool-cases,
  inl, inr,
}
use s_ldm.Common.Partial.{some_injective}
use s_ldm.Double.{Double}
use s_ldm.Ldm.{Entry, entry, History, LdmMap, LdmMapError, insert, entry_at, uint64_max, map_full}
use s_ldm.Ldm.Aging.{delete_older_than_lem}
use s_ldm.Ldm.Contents.{contents, only}
use s_ldm.Ldm.Insert.{up, low}
use s_ldm.Ldm.Insert.Effect.{insert-Inserted}
use s_ldm.Ldm.Invariant.{IsValid}
use s_ldm.Ldm.Listing.{any, All-only, any-only, All-write, All-entry_at, any-write}
use s_ldm.Ldm.Listing.Operations.{insert-contents, is_kept, delete_older_than-contents}
use s_ldm.Ldm.Scan.{is_older, delete_older_than}
use s_ldm.Numeral.{Text, same_text, to_string}
use s_ldm.Options.{Options}
use s_ldm.Vehicle.{VehicleData}
use s_ldm.Visualizer.{Visualizer}
use s_ldm.System.Shown.{is_shown, has_id}

module _ {D P : Type 0} where
  -- every object on the map has an entry in the database
  abbrev pub IsBacked : LdmMap D P → Visualizer D → Type 0
  IsBacked db v = (id : Text) → is_shown id v ≡ true → any (has_id id) (contents db.ldmmap) ≡ true

module _ {D : Type 0} ⦃dbl : Double D⦄ where
  -- a stored entry: inside the area, with a station ID of 32 bits
  pub record IsStored (o : Options D) (e : Entry D) : Type 0 where
    pub inside : is_inside (some o) e.veh_data.lat e.veh_data.lon ≡ true
    pub narrow : e.veh_data.station_id < 2 ^ 32

module _ {D P : Type 0} ⦃dbl : Double D⦄ where
  pub record IsSoundDb (o : Options D) (db : LdmMap D P) : Type 0 where
    pub valid : IsValid db
    pub stored : All (IsStored o) (contents db.ldmmap)

  insert-IsValid :
      ⦃hist : History D P⦄ (v : VehicleData D) (s s' : LdmMap D P) (status : LdmMapError)
      → IsValid s
      → insert v s ≡ some (status, s')
      → IsValid s'
  unfolding insert
  insert-IsValid v s s' status valid h = elim (Bool-cases (s.card == uint64_max)) [
    | inl full ↦
        let same : insert v s ≡ some (map_full, s) = simp (insert, full) in
        subst IsValid (ap (λ u. u.1) (some_injective (map_full, s) (status, s') (sym same ∙ h)))
          valid
    | inr room ↦
        let (r, e, i) = insert-Inserted v s valid (ground arith) in
        subst IsValid (ap (λ u. u.1) (some_injective r (status, s') (sym e ∙ h))) i.valid
  ]

  pub insert-IsSoundDb :
      ⦃hist : History D P⦄ (o : Options D) (v : VehicleData D) (s s' : LdmMap D P)
      (status : LdmMapError)
      → is_inside (some o) v.lat v.lon ≡ true
      → v.station_id < 2 ^ 32
      → IsSoundDb o s
      → insert v s ≡ some (status, s')
      → IsSoundDb o s'
  insert-IsSoundDb o v s s' status inside narrow h e = record {
    valid = insert-IsValid v s s' status h.valid e;
    stored = elim (insert-contents v s s' status h.valid e) [
      | inl same ↦ subst (λ m. All (IsStored o) (contents m)) (sym same) h.stored
      | inr (p, written) ↦
          subst (λ m. All (IsStored o) (contents m)) (sym written)
            (All-write (IsStored o) (up v s) (low v s) (entry v p) s.ldmmap
              (record { inside = inside; narrow = narrow }) h.stored)
    ];
  }

  -- the entry in whose place a vehicle is written has its station ID
  same_station :
      ⦃hist : History D P⦄ (o : Options D) (v : VehicleData D) (s : LdmMap D P) (d : Entry D)
      → v.station_id < 2 ^ 32
      → IsSoundDb o s
      → entry_at s.ldmmap (up v s) (low v s) ≡ some d
      → d.veh_data.station_id ≡ v.station_id
  same_station o v s d narrow h e =
      let own = h.valid.filed (up v s) (low v s) d e in
      let stored = All-entry_at (IsStored o) (up v s) (low v s) s.ldmmap d h.stored e in
      let least = stored.narrow in omega (arith, own.0, own.1, least, narrow)

  -- `insert` keeps an entry for every station ID that has one
  pub insert-any :
      ⦃hist : History D P⦄ (o : Options D) (v : VehicleData D) (s s' : LdmMap D P)
      (status : LdmMapError) (id : Text)
      → v.station_id < 2 ^ 32
      → IsSoundDb o s
      → insert v s ≡ some (status, s')
      → any (has_id id) (contents s.ldmmap) ≡ true
      → any (has_id id) (contents s'.ldmmap) ≡ true
  insert-any o v s s' status id narrow h e before = elim (insert-contents v s s' status h.valid e) [
    | inl same ↦ subst (λ m. any (has_id id) (contents m) ≡ true) (sym same) before
    | inr (p, written) ↦
        subst (λ m. any (has_id id) (contents m) ≡ true) (sym written)
          (any-write (has_id id) (up v s) (low v s) (entry v p) s.ldmmap
            (λ d f g.
              ap (λ n. same_text (to_string n) id) (sym (same_station o v s d narrow h f)) ∙ g)
            before)
  ]

  pub delete_older_than-IsSoundDb :
      (o : Options D) (t : D) (now : ℕ) (s : LdmMap D P)
      → IsSoundDb o s
      → IsSoundDb o (delete_older_than t now s)
  delete_older_than-IsSoundDb o t now s h = record {
    valid = (delete_older_than_lem t now s h.valid).0;
    stored =
        subst (All (IsStored o)) (sym (delete_older_than-contents t now s))
          (All-only (IsStored o) (is_kept t now) (contents s.ldmmap) h.stored);
  }

  pub clean-IsBacked :
      (t : D) (now : ℕ) (s : LdmMap D P) (v w : Visualizer D)
      → ((id : Text)
          → is_shown id w
            ≡ (is_shown id v && not (any (has_id id) (only (is_older t now) (contents s.ldmmap)))))
      → IsBacked s v
      → IsBacked (delete_older_than t now s) w
  clean-IsBacked t now s v w shown backed id on =
      let kept = any-only (has_id id) (is_older t now) (contents s.ldmmap) in
      let there : any (has_id id) (only (is_kept t now) (contents s.ldmmap)) ≡ true =
        ground (arith, shown id, backed id, kept) in
      subst (λ l. any (has_id id) l ≡ true) (sym (delete_older_than-contents t now s)) there

  pub update-IsBacked :
      (s : LdmMap D P) (v w : Visualizer D)
      → ((id : Text) → is_shown id w ≡ (is_shown id v || any (has_id id) (contents s.ldmmap)))
      → IsBacked s v
      → IsBacked s w
  update-IsBacked s v w shown backed id on = elim (Bool-cases (is_shown id v)) [
    | inl e ↦ backed id e
    | inr e ↦ ground (arith, shown id)
  ]
