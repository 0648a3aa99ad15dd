-- ===== src/System/Wakeup.antt =====
-- The wait of the cleaner for the visualizer. `synccv.wait` stands outside of a loop with a condition;
-- the standard's spurious wake-ups are left out.
use s_ldm.Decoder.Bytes.{◌>>=◌}
use s_ldm.Visualizer.{destroy}
use s_ldm.Program.Threads.{
  end_updater, Threads, starting, looping, start_cleaner, update, goes_on, update_visualizer,
}
use s_ldm.AmqpClient.Message.{Client, State, Surroundings, Memory, vehicle_of, on_message}
use s_ldm.AmqpClient.{CamView, ProtonMessage}
use s_ldm.AmqpClient.Message.Laws.{on_message-db}
use s_ldm.Common.{
  ◌≡◌, ◌≢◌, ◌^◌, ◌<◌, refl, sym, ◌∙◌, subst, Bool, true, false, some, arith, inl, inr, Bool-cases,
  Option-cases, is_some, ℕ,
}
use s_ldm.Common.Partial.{Yields, Yields-some}
use s_ldm.Decoder.Frontend.{Asn}
use s_ldm.Double.{Double}
use s_ldm.Ldm.{History, LdmMap, lookup}
use s_ldm.Ldm.Contents.{contents}
use s_ldm.Ldm.Scan.{execute_on_all_contents}
use s_ldm.Ldm.Listing.{any}
use s_ldm.Numeral.{Text, to_string}
use s_ldm.System.Found.{any-is_some}
use s_ldm.Options.{Options}
use s_ldm.System.{
  System, initial, Step, Reach, here, next, received, failed, released, cleaner_started,
  updater_started, cleaned, updated,
}
use s_ldm.System.Backed.{insert-any}
use s_ldm.System.Safety.{Step-IsSound, Reach-IsSound}
use s_ldm.System.Shown.{has_id}
use s_ldm.System.Sound.{IsSound}

module _ {D : Type 0} where
  start_cleaner-asleep :
      (timer_started : Bool) (t : Threads D)
      → ((start_cleaner timer_started t).cleaner ≢ looping)
        × ((start_cleaner timer_started t).updater ≡ t.updater)
  unfolding start_cleaner
  start_cleaner-asleep true t = (λ e. absurd (ground arith), refl)
  start_cleaner-asleep false t = (λ e. absurd (ground arith), refl)

  update-awake :
      {P : Type 0} (expired : Bool) (length : ℕ) (db : LdmMap D P) (t : Threads D)
      → t.updater ≡ looping
      → Yields
          (λ after. (after.cleaner ≡ t.cleaner) × (after.updater ≢ starting))
          (update expired length db t)
  unfolding update
  update-awake expired length db t f = elim (Bool-cases (goes_on expired t)) [
    | inr e ↦ rw e (elim (Option-cases (t.visualizer >>= destroy length)) [
      | inl g ↦ rw (g, end_updater) tt
      | inr (w, g) ↦ rw (g, end_updater) (refl, λ k. absurd (ground arith))
    ])
    | inl e ↦
        rw e (elim (Option-cases (execute_on_all_contents update_visualizer t.visualizer db)) [
          | inl g ↦ rw g tt
          | inr (v, g) ↦ rw g (refl, λ k. absurd (ground arith))
        ])
  ]

module _ {D P : Type 0} ⦃dbl : Double D⦄ ⦃hist : History D P⦄ (M : Type 0) ⦃asn : Asn M⦄
    ⦃cams : CamView M⦄ (o : Options D) (id : Text) where
  -- whether the object has an entry
  abbrev is_stored : System D P → Bool
  is_stored s = any (has_id id) (contents s.clients.db.ldmmap)

  -- the notification was given, and the cleaner did not get it
  record IsMissed (s : System D P) : Type 0 where
    sound : IsSound o s
    asleep : s.threads.cleaner ≢ looping
    notified : s.threads.updater ≢ starting
    stored : is_stored s ≡ true

  on_message-is_stored :
      (s : System D P) (after : State D P) (c : Client D) (env : Surroundings) (memory : Memory D M)
      (msg : ProtonMessage)
      → on_message c env memory msg s.clients ≡ some after
      → IsSound o s
      → is_stored s ≡ true
      → is_stored (record s { clients = after }) ≡ true
  unfolding vehicle_of
  on_message-is_stored s after c env memory msg e h before =
      elim (on_message-db c env msg s.clients memory after e) [
        | inl same ↦ subst (λ db. any (has_id id) (contents db.ldmmap) ≡ true) (sym same) before
        | inr got ↦
            let stored = got.content.stored in
            let v = vehicle_of env msg (cams.view got.content.cam) stored.header in
            let narrow : v.station_id < 2 ^ 32 = omega arith in
            insert-any o v s.clients.db after.db stored.inserted.0 id narrow h.db stored.inserted.1
              before
      ]

  Step-IsMissed : {s t : System D P} → Step M o s t → IsMissed s → IsMissed t
  Step-IsMissed {s} (received {after} c env memory msg f e) h = record {
    sound = Step-IsSound M o (received c env memory msg f e) h.sound;
    asleep = h.asleep;
    notified = h.notified;
    stored = on_message-is_stored s after c env memory msg e h.sound h.stored;
  }
  Step-IsMissed failed h = record {
    sound = Step-IsSound M o failed h.sound;
    asleep = h.asleep;
    notified = h.notified;
    stored = h.stored;
  }
  Step-IsMissed (released client) h = record {
    sound = Step-IsSound M o (released client) h.sound;
    asleep = h.asleep;
    notified = h.notified;
    stored = h.stored;
  }
  Step-IsMissed {s} (cleaner_started timer_started e) h =
      let (asleep, same) = start_cleaner-asleep timer_started s.threads in
      record {
        sound = Step-IsSound M o (cleaner_started timer_started e) h.sound;
        asleep = asleep;
        notified = λ f. h.notified (sym same ∙ f);
        stored = h.stored;
      }
  Step-IsMissed (updater_started server socket timer_started length f e) h = absurd (h.notified f)
  Step-IsMissed (cleaned expired now f e) h = absurd (h.asleep f)
  Step-IsMissed {s} (updated {after} expired length f e) h =
      let (same, on) =
        Yields-some _ _ after (update-awake expired length s.clients.db s.threads f) e in
      record {
        sound = Step-IsSound M o (updated expired length f e) h.sound;
        asleep = λ g. h.asleep (sym same ∙ g);
        notified = on;
        stored = h.stored;
      }

  Reach-IsMissed : {s t : System D P} → Reach M o s t → IsMissed s → IsMissed t
  Reach-IsMissed here h = h
  Reach-IsMissed (next r st) h = Step-IsMissed st (Reach-IsMissed r h)

module _ {D P : Type 0} ⦃dbl : Double D⦄ ⦃hist : History D P⦄ (M : Type 0) ⦃asn : Asn M⦄
    ⦃cams : CamView M⦄ (o : Options D) where
  -- Where the visualizer is ready before the cleaner waits for it, the cleaner misses the notification:
  -- in no later state is it in its loop, and a station ID of 32 bits that has an entry keeps one for
  -- ever.
  pub Reach-missed :
      (s t : System D P) (n : ℕ)
      → Reach M o (initial o) s
      → s.threads.cleaner ≡ starting
      → s.threads.updater ≡ looping
      → n < 2 ^ 32
      → is_some (lookup n s.clients.db).1 ≡ true
      → Reach M o s t
      → (t.threads.cleaner ≢ looping) × (is_some (lookup n t.clients.db).1 ≡ true)
  Reach-missed s t n r early ready small there later =
      let id = to_string n in
      let sound = Reach-IsSound M o s r in
      let missed : IsMissed M o id s = record {
        sound = sound;
        asleep = λ e. absurd (ground arith);
        notified = λ e. absurd (ground arith);
        stored = any-is_some o n s.clients.db sound.db small ∙ there;
      } in
      let h = Reach-IsMissed M o id later missed in
      (h.asleep, sym (any-is_some o n t.clients.db h.sound.db small) ∙ h.stored)
