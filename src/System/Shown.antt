-- ===== src/System/Shown.antt =====
-- The objects that the datagrams of the visualizer leave on its map, and what the rounds of the two
-- periodic threads do to them.
use s_ldm.Common.{
  none, ◌≡◌, refl, ap, ◌∙◌, Bool, true, false, not, ◌&&◌, ◌||◌, some, List, [], ◌∷◌, ◌++◌, arith,
}
use s_ldm.Common.Partial.{Yields}
use s_ldm.Common.Int.{pos}
use s_ldm.Ldm.{Entry}
use s_ldm.Ldm.Contents.{fold}
use s_ldm.Ldm.Listing.{any}
use s_ldm.Numeral.{Text, same_text, to_string}
use s_ldm.Program.Threads.{clear_visualizer_object, update_visualizer}
use s_ldm.Visualizer.{
  Message, object_update, object_clean, Visualizer, send, send_object_update, send_object_clean,
}

module _ {D : Type 0} (id : Text) where
  -- whether the object is on the map after a datagram
  abbrev pub after_message : Message D → Bool → Bool
  after_message (object_update i lat lon station_type heading) b = b || same_text i id
  after_message (object_clean i) b = b && not (same_text i id)
  after_message _ b = b

  abbrev pub after_messages : List (Message D) → Bool → Bool
  after_messages [] b = b
  after_messages (m ∷ ms) b = after_messages ms (after_message m b)

  after_messages-append :
      (ms : List (Message D)) (m : Message D) (b : Bool)
      → after_messages (ms ++ m ∷ []) b ≡ after_message m (after_messages ms b)
  after_messages-append [] m b = refl
  after_messages-append (k ∷ ms) m b = after_messages-append ms m (after_message k b)

  -- whether the object is on the map
  abbrev pub is_shown : Visualizer D → Bool
  is_shown v = after_messages v.sent false

  -- whether an entry is that of the object
  abbrev pub has_id : Entry D → Bool
  has_id e = same_text (to_string e.veh_data.station_id) id

module _ {D : Type 0} where
  -- the object of the visualizer once the map is drawn
  pub record IsDrawn (v : Visualizer D) : Type 0 where
    pub connected : v.is_connected ≡ true
    pub map_sent : v.is_map_sent ≡ true

  -- the rounds over some entries: each is sent, and what is on the map afterwards
  pub clear_all :
      (es : List (Entry D)) (v : Visualizer D)
      → IsDrawn v
      → (w : Visualizer D) × (fold
            (λ e. clear_visualizer_object e.veh_data.station_id)
            es
            (some (some v))
          ≡ some (some w))
        × IsDrawn w
        × ((id : Text) → is_shown id w ≡ (is_shown id v && not (any (has_id id) es)))
  unfolding clear_visualizer_object send_object_clean send
  clear_all [] v h = (v, refl, h, λ id. ground arith)
  clear_all (e ∷ es) v h =
      let m = object_clean (to_string e.veh_data.station_id) in
      let v' = send m v in
      let step : clear_visualizer_object e.veh_data.station_id (some (some v)) ≡ some (some v') =
        rw (h.connected, h.map_sent) refl in
      let (w, f, d, shown) =
        clear_all es v' (record { connected = h.connected; map_sent = h.map_sent }) in
      (
        w,
        ap (fold (λ e. clear_visualizer_object e.veh_data.station_id) es) step ∙ f,
        d,
        λ id. shown id ∙ rw (after_messages-append id v.sent m false) (ground arith),
      )

  clear_fault :
      (es : List (Entry D))
      → fold (λ e. clear_visualizer_object {D = D} e.veh_data.station_id) es none ≡ none
  unfolding clear_visualizer_object
  clear_fault [] = refl
  clear_fault (e ∷ es) = clear_fault es

  -- where the object is gone, the round faults at its first call
  pub clear_gone :
      (es : List (Entry D))
      → Yields
          (λ u. u ≡ none)
          (fold (λ e. clear_visualizer_object {D = D} e.veh_data.station_id) es (some none))
  unfolding clear_visualizer_object
  clear_gone [] = refl
  clear_gone (e ∷ es) = rw (clear_fault es) tt

  pub clear_first :
      (e : Entry D) (es : List (Entry D))
      → fold (λ d. clear_visualizer_object {D = D} d.veh_data.station_id) (e ∷ es) (some none)
        ≡ none
  unfolding clear_visualizer_object
  clear_first e es = clear_fault es

  pub update_all :
      (es : List (Entry D)) (v : Visualizer D)
      → IsDrawn v
      → (w : Visualizer D) × (fold (λ e. update_visualizer e.veh_data) es (some v) ≡ some w)
        × IsDrawn w
        × ((id : Text) → is_shown id w ≡ (is_shown id v || any (has_id id) es))
  unfolding update_visualizer send_object_update send
  update_all [] v h = (v, refl, h, λ id. ground arith)
  update_all (e ∷ es) v h =
      let d = e.veh_data in
      let m = object_update (to_string d.station_id) d.lat d.lon (pos d.station_type) d.heading in
      let v' = send m v in
      let step : update_visualizer d (some v) ≡ some v' = rw (h.connected, h.map_sent) refl in
      let (w, f, drawn, shown) =
        update_all es v' (record { connected = h.connected; map_sent = h.map_sent }) in
      (
        w,
        ap (fold (λ e. update_visualizer e.veh_data) es) step ∙ f,
        drawn,
        λ id. shown id ∙ rw (after_messages-append id v.sent m false) (ground arith),
      )
