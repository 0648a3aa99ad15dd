-- ===== src/System/Safety.antt =====
-- What every run of the program keeps: the database, the map, and the two periodic threads.
use s_ldm.Common.{
  none, ℕ, ◌≡◌, refl, ◌∙◌, true, false, not, ◌&&◌, some, All, Bool-cases, inl, inr, is_some, ◌<◌,
  ◌^◌, sym,
}
use s_ldm.Program.Threads.{ended, looping, goes_on, clean, update}
use s_ldm.AmqpClient.{CamView}
use s_ldm.Common.Partial.{Yields-some}
use s_ldm.Decoder.Frontend.{Asn}
use s_ldm.Double.{Double}
use s_ldm.Ldm.{History, lookup}
use s_ldm.Ldm.Contents.{contents, only}
use s_ldm.Ldm.Invariant.{IsValid}
use s_ldm.Ldm.Listing.{any}
use s_ldm.Ldm.Scan.{is_older, delete_older_than}
use s_ldm.Numeral.{Text, to_string}
use s_ldm.System.Found.{any-is_some}
use s_ldm.Options.{Options}
use s_ldm.System.{
  System, initial, Step, Reach, here, next, received, failed, released, cleaner_started,
  updater_started, cleaned, updated,
}
use s_ldm.System.Backed.{IsStored}
use s_ldm.System.Rounds.{clean-shown, update-shown, clean-fault}
use s_ldm.System.Shown.{is_shown, has_id}
use s_ldm.System.Sound.{
  IsSound, initial-IsSound, received-IsSound, start_cleaner-IsSound, start_updater-IsSound,
  clean-IsSound, update-IsSound, visible_at,
}
use s_ldm.Visualizer.{Visualizer}

module _ {D P : Type 0} ⦃dbl : Double D⦄ ⦃hist : History D P⦄ (M : Type 0) ⦃asn : Asn M⦄
    ⦃cams : CamView M⦄ (o : Options D) where
  pub Step-IsSound : {s t : System D P} → Step M o s t → IsSound o s → IsSound o t
  Step-IsSound {s} (received {after} c env memory msg f e) h =
      received-IsSound o s after c env memory msg f e h
  Step-IsSound failed h = record {
    db = h.db;
    visible = h.visible;
    gone = h.gone;
    updater_ready = h.updater_ready;
  }
  Step-IsSound (released id) h = record {
    db = h.db;
    visible = h.visible;
    gone = h.gone;
    updater_ready = h.updater_ready;
  }
  Step-IsSound {s} (cleaner_started timer_started e) h = start_cleaner-IsSound o s timer_started h
  Step-IsSound {s} (updater_started {after} server socket timer_started length f e) h =
      Yields-some (λ u. IsSound o (record s { threads = u })) _ after
        (start_updater-IsSound o s server socket timer_started length h) e
  Step-IsSound {s} (cleaned {db} {after} expired now f e) h =
      Yields-some
        (λ (d, u). IsSound o (record { clients = record s.clients { db = d }; threads = u })) _
        (db, after) (clean-IsSound o s expired now f h) e
  Step-IsSound {s} (updated {after} expired length f e) h =
      Yields-some (λ u. IsSound o (record s { threads = u })) _ after
        (update-IsSound o s expired length f h) e

  pub Reach-IsSound : (s : System D P) → Reach M o (initial o) s → IsSound o s
  Reach-IsSound s here = initial-IsSound o
  Reach-IsSound s (next {t} r st) = Step-IsSound st (Reach-IsSound t r)

  -- Whatever messages arrive and in whatever order the threads run, the database is valid, and every
  -- entry has a position inside the area of the options and a station ID of 32 bits.
  pub Reach-IsStored :
      (s : System D P)
      → Reach M o (initial o) s
      → IsValid s.clients.db × All (IsStored o) (contents s.clients.db.ldmmap)
  Reach-IsStored s r = let h = Reach-IsSound s r in (h.db.valid, h.db.stored)

  -- In every reachable state, the map shows only vehicles of the database: where the datagrams of the
  -- visualizer have left the object of a station ID of 32 bits, a lookup finds the station ID.
  pub Reach-shown :
      (s : System D P) (v : Visualizer D) (n : ℕ)
      → Reach M o (initial o) s
      → s.threads.visualizer ≡ some v
      → n < 2 ^ 32
      → is_shown (to_string n) v ≡ true
      → is_some (lookup n s.clients.db).1 ≡ true
  Reach-shown s v n r there small on =
      let h = Reach-IsSound s r in
      let (drawn, backed) = visible_at o s v h there in
      sym (any-is_some o n s.clients.db h.db small) ∙ backed (to_string n) on

  -- In every reachable state in which the updater is in its loop and nothing has failed, its next
  -- round at an expired timer does not end the process, and leaves the object of a station ID of 32
  -- bits on the map just where a lookup finds the station ID.
  pub Reach-update :
      (s : System D P) (length n : ℕ)
      → Reach M o (initial o) s
      → s.threads.updater ≡ looping
      → s.threads.terminated ≡ false
      → n < 2 ^ 32
      → (w : Visualizer D) × (update true length s.clients.db s.threads
          ≡ some (record s.threads { visualizer = some w }))
        × (is_shown (to_string n) w ≡ is_some (lookup n s.clients.db).1)
  unfolding goes_on
  Reach-update s length n r loops running small =
      let h = Reach-IsSound s r in
      let (v, there) = h.updater_ready loops in
      let (drawn, backed) = visible_at o s v h there in
      let (w, result, still, shown) =
        update-shown s.clients.db s.threads v true length (rw running refl) there drawn in
      let id = to_string n in
      let exact : is_shown id w ≡ any (has_id id) (contents s.clients.db.ldmmap) =
        elim (Bool-cases (is_shown id v)) [
          | inl f ↦ shown id ∙ rw (f, backed id f) refl
          | inr f ↦ shown id ∙ rw f refl
        ] in
      (w, result, exact ∙ any-is_some o n s.clients.db h.db small)

  -- In every reachable state in which both periodic threads are in their loops and nothing has failed,
  -- the next round of the cleaner at an expired timer does not end the process. It deletes the entries that are older than a
  -- second, and removes their objects, and no other, from the map.
  pub Reach-clean :
      (s : System D P) (now : ℕ)
      → Reach M o (initial o) s
      → s.threads.cleaner ≡ looping
      → s.threads.updater ≡ looping
      → s.threads.terminated ≡ false
      → (v w : Visualizer D) × (s.threads.visualizer ≡ some v)
        × (clean true now s.clients.db s.threads
            ≡ some (
              delete_older_than (dbl.of_ℕ 1000) now s.clients.db,
              record s.threads { visualizer = some w },
            ))
        × ((id : Text)
            → is_shown id w ≡ (
                is_shown id v
                && not (
                    any
                      (has_id id)
                      (only (is_older (dbl.of_ℕ 1000) now) (contents s.clients.db.ldmmap)))))
  unfolding goes_on
  Reach-clean s now r ready loops running =
      let h = Reach-IsSound s r in
      let (v, there) = h.updater_ready loops in
      let (drawn, backed) = visible_at o s v h there in
      let (w, result, still, shown) =
        clean-shown s.clients.db s.threads v true now (rw running refl) there drawn in
      (v, w, there, result, shown)

  -- In a reachable state in which the updater has ended and nothing has failed, as where its wait for
  -- the timer failed, the next round of the cleaner at an expired timer faults if an entry is older
  -- than a second: the object that its pointer leads to is gone.
  pub Reach-dangling :
      (s : System D P) (now : ℕ)
      → Reach M o (initial o) s
      → s.threads.updater ≡ ended
      → s.threads.terminated ≡ false
      → any (is_older (dbl.of_ℕ 1000) now) (contents s.clients.db.ldmmap) ≡ true
      → clean true now s.clients.db s.threads ≡ none
  unfolding goes_on
  Reach-dangling s now r stopped running old =
      clean-fault s.clients.db s.threads true now (rw running refl)
        ((Reach-IsSound s r).gone stopped) old
