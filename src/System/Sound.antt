-- ===== src/System/Sound.antt =====
-- What holds in every state that the running program reaches.
use s_ldm.Common.{
  none, ◌∙◌, Option-cases, ℕ, ◌≡◌, ◌^◌, ◌<◌, refl, sym, subst, Bool, true, some, arith, Bool-cases,
  inl, inr,
}
use s_ldm.Program.Threads.{
  ended, notify_all, Threads, end_updater, looping, start_cleaner, make_visualizer, start_updater,
  update, clean, goes_on,
}
use s_ldm.Common.Partial.{none_ne_some, Yields, Yields-some, Yields-imp, Yields-bind}
use s_ldm.Decoder.Bytes.{◌>>=◌}
use s_ldm.Visualizer.{destroy, Visualizer, SocketCalls, ServerCalls}
use s_ldm.System.Rounds.{clean-gone, clean-shown, update-shown}
use s_ldm.AmqpClient.{CamView, ProtonMessage}
use s_ldm.AmqpClient.Message.{Client, State, Surroundings, Memory, vehicle_of, on_message}
use s_ldm.AmqpClient.Message.Laws.{on_message-db}
use s_ldm.AreaFilter.{is_inside}
use s_ldm.Decoder.Frontend.{Asn}
use s_ldm.Double.{Double}
use s_ldm.Ldm
use s_ldm.Ldm.{
  set_central_lat_lon, Entry, entry, History, LdmMap, LdmMapError, insert, entry_at, uint64_max,
  map_full,
}
use s_ldm.Ldm.Invariant.{IsValid, new-IsValid}
use s_ldm.Options.{Options}
use s_ldm.System.{System, initial}
use s_ldm.System.Shown.{IsDrawn}
use s_ldm.System.Backed.{
  IsSoundDb, IsBacked, insert-IsSoundDb, insert-any, delete_older_than-IsSoundDb, clean-IsBacked,
  update-IsBacked,
}
use s_ldm.System.Startup.{IsEmptyMap, make_visualizer-IsEmptyMap}

module _ {D P : Type 0} ⦃dbl : Double D⦄ where
  -- What the threads rely on: the map is drawn and shows only vehicles of the database, and it is
  -- there once a periodic thread is in its loop.
  pub record IsSound (o : Options D) (s : System D P) : Type 0 where
    pub db : IsSoundDb o s.clients.db
    pub visible : Yields (λ v. IsDrawn v × IsBacked s.clients.db v) s.threads.visualizer
    pub gone : s.threads.updater ≡ ended → s.threads.visualizer ≡ none
    pub updater_ready :
        s.threads.updater ≡ looping → (v : Visualizer D) × (s.threads.visualizer ≡ some v)

  set_central_lat_lon-IsValid :
      (lat lon : D) (s : LdmMap D P) → IsValid s → IsValid (set_central_lat_lon lat lon s)
  unfolding set_central_lat_lon
  set_central_lat_lon-IsValid lat lon s h = record {
    counted = h.counted;
    bounded = h.bounded;
    upper_distinct = h.upper_distinct;
    lower_distinct = h.lower_distinct;
    filed = h.filed;
    fresh = h.fresh;
    owned = h.owned;
    unshared = h.unshared;
  }

  pub initial-IsSound : (o : Options D) → IsSound o (initial o)
  unfolding initial Ldm.new set_central_lat_lon
  initial-IsSound o = record {
    db = record {
      valid = set_central_lat_lon-IsValid _ _ (Ldm.new (dbl.of_ℕ 0)) (new-IsValid (dbl.of_ℕ 0));
      stored = tt;
    };
    visible = tt;
    gone = λ e. refl;
    updater_ready = λ e. absurd (ground arith);
  }

  -- A message leaves the database sound, and the map with vehicles of the database.
  pub received-IsSound :
      ⦃hist : History D P⦄ {M : Type 0} ⦃asn : Asn M⦄ ⦃cams : CamView M⦄ (o : Options D)
      (s : System D P) (after : State D P) (c : Client D) (env : Surroundings) (memory : Memory D M)
      (msg : ProtonMessage)
      → c.opts ≡ o
      → on_message c env memory msg s.clients ≡ some after
      → IsSound o s
      → IsSound o (record s { clients = after })
  unfolding vehicle_of
  received-IsSound ⦃cams = cams⦄ o s after c env memory msg same_opts e h =
      elim (on_message-db c env msg s.clients memory after e) [
        | inl same ↦ record {
          db = subst (IsSoundDb o) (sym same) h.db;
          visible =
              subst (λ db. Yields (λ v. IsDrawn v × IsBacked db v) s.threads.visualizer) (sym same)
                h.visible;
          gone = h.gone;
          updater_ready = h.updater_ready;
        }
        | inr received ↦
            let stored = received.content.stored in
            let cam = cams.view received.content.cam in
            let v = vehicle_of env msg cam stored.header in
            let (status, inserted) = stored.inserted in
            let inside : is_inside (some o) v.lat v.lon ≡ true =
              subst (λ p. is_inside (some p) v.lat v.lon ≡ true) same_opts stored.inside in
            let narrow : v.station_id < 2 ^ 32 = omega arith in
            record {
              db = insert-IsSoundDb o v s.clients.db after.db status inside narrow h.db inserted;
              visible = Yields-imp _ _ s.threads.visualizer h.visible λ w (drawn, backed). (
                drawn,
                λ id on.
                    insert-any o v s.clients.db after.db status id narrow h.db inserted
                      (backed id on),
              );
              gone = h.gone;
              updater_ready = h.updater_ready;
            }
      ]

  pub start_cleaner-IsSound :
      (o : Options D) (s : System D P) (timer_started : Bool)
      → IsSound o s
      → IsSound o (record s { threads = start_cleaner timer_started s.threads })
  unfolding start_cleaner
  start_cleaner-IsSound o s timer_started h = elim (Bool-cases timer_started) [
    | inl e ↦
        rw e (record {
          db = h.db;
          visible = h.visible;
          gone = h.gone;
          updater_ready = h.updater_ready;
        })
    | inr e ↦
        rw e (record {
          db = h.db;
          visible = h.visible;
          gone = h.gone;
          updater_ready = h.updater_ready;
        })
  ]

  end_updater-IsSound :
      (o : Options D) (s : System D P) (t : Threads D) (length : ℕ)
      → IsSoundDb o s.clients.db
      → Yields (λ after. IsSound o (record s { threads = after })) (end_updater length t)
  unfolding end_updater
  end_updater-IsSound o s t length h = elim (Option-cases (t.visualizer >>= destroy length)) [
    | inl e ↦ rw e tt
    | inr (w, e) ↦ rw e (record {
      db = h;
      visible = tt;
      gone = λ f. refl;
      updater_ready = λ f. absurd (ground arith);
    })
  ]

  pub start_updater-IsSound :
      (o : Options D) (s : System D P) (server : ServerCalls) (socket : SocketCalls)
      (timer_started : Bool) (length : ℕ)
      → IsSound o s
      → Yields
          (λ after. IsSound o (record s { threads = after }))
          (start_updater o server socket timer_started length s.clients.db s.threads)
  unfolding start_updater
  start_updater-IsSound o s server socket timer_started length h =
      let db = s.clients.db in
      Yields-bind IsEmptyMap _ _ (make_visualizer o db.central_lat db.central_lon server socket)
        (make_visualizer-IsEmptyMap o db.central_lat db.central_lon server socket)
        λ v (drawn, empty).
          let backed : IsBacked db v = λ id on. absurd (ground (arith, empty id)) in
          elim (Bool-cases timer_started) [
            | inl e ↦ rw e (record {
              db = h.db;
              visible = (drawn, backed);
              gone = λ f. absurd (ground arith);
              updater_ready = λ f. (v, refl);
            })
            | inr e ↦
                let stopped : Threads D = record s.threads {
                  terminated = true;
                  cleaner = notify_all s.threads.cleaner;
                  visualizer = some v;
                } in
                rw e (end_updater-IsSound o s stopped length h.db)
          ]

  -- the visualizer of a sound state
  pub visible_at :
      (o : Options D) (s : System D P) (v : Visualizer D)
      → IsSound o s
      → s.threads.visualizer ≡ some v
      → IsDrawn v × IsBacked s.clients.db v
  visible_at o s v h e = Yields-some _ s.threads.visualizer v h.visible e

  pub clean-IsSound :
      (o : Options D) (s : System D P) (expired : Bool) (now : ℕ)
      → s.threads.cleaner ≡ looping
      → IsSound o s
      → Yields
          (λ (db, after).
            IsSound o (record { clients = record s.clients { db = db }; threads = after }))
          (clean expired now s.clients.db s.threads)
  unfolding clean
  clean-IsSound o s expired now loops h = elim (Bool-cases (goes_on expired s.threads)) [
    | inr e ↦
        rw e (record {
          db = h.db;
          visible = h.visible;
          gone = h.gone;
          updater_ready = h.updater_ready;
        })
    | inl e ↦
        let kept = delete_older_than-IsSoundDb o (dbl.of_ℕ 1000) now s.clients.db h.db in
        elim (Option-cases s.threads.visualizer) [
          | inl gone ↦
              Yields-imp _
                (λ (r : LdmMap D P × Threads D).
                  IsSound o (record { clients = record s.clients { db = r.0 }; threads = r.1 }))
                (clean expired now s.clients.db s.threads)
                (clean-gone s.clients.db s.threads expired now e gone)
                λ r same.
                  subst
                    (λ (u : LdmMap D P × Threads D).
                      IsSound o (record { clients = record s.clients { db = u.0 }; threads = u.1 }))
                    (sym same)
                    (record {
                      db = kept;
                      visible = tt;
                      gone = λ f. refl;
                      updater_ready =
                          λ f. absurd (none_ne_some _ (sym gone ∙ (h.updater_ready f).1));
                    })
          | inr (v, there) ↦
              let (drawn, backed) = visible_at o s v h there in
              let (w, result, still, shown) =
                clean-shown s.clients.db s.threads v expired now e there drawn in
              subst
                (Yields (λ (db, after).
                  IsSound o (record { clients = record s.clients { db = db }; threads = after })))
                (sym result)
                (record {
                  db = kept;
                  visible =
                      (still, clean-IsBacked (dbl.of_ℕ 1000) now s.clients.db v w shown backed);
                  gone = λ f. absurd (none_ne_some v (sym (h.gone f) ∙ there));
                  updater_ready = λ f. (w, refl);
                })
        ]
  ]

  pub update-IsSound :
      (o : Options D) (s : System D P) (expired : Bool) (length : ℕ)
      → s.threads.updater ≡ looping
      → IsSound o s
      → Yields
          (λ after. IsSound o (record s { threads = after }))
          (update expired length s.clients.db s.threads)
  unfolding update
  update-IsSound o s expired length loops h = elim (Bool-cases (goes_on expired s.threads)) [
    | inr e ↦ rw e (end_updater-IsSound o s s.threads length h.db)
    | inl e ↦
        let (v, there) = h.updater_ready loops in
        let (drawn, backed) = visible_at o s v h there in
        let (w, result, still, shown) =
          update-shown s.clients.db s.threads v expired length e there drawn in
        subst (Yields (λ after. IsSound o (record s { threads = after }))) (sym result) (record {
          db = h.db;
          visible = (still, update-IsBacked s.clients.db v w shown backed);
          gone = λ f. absurd (none_ne_some v (sym (h.gone f) ∙ there));
          updater_ready = λ f. (w, refl);
        })
  ]
