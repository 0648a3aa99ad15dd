-- ===== src/Ldm/Scan.antt =====
-- The operations of src/LDMmap.cpp that walk the whole database.
use s_ldm.Common.{ℕ, ◌+◌, ◌-◌, ◌%◌, ◌^◌, Bool, none, some, List, [], ◌∷◌, ◌++◌, if◌then◌else◌}
use s_ldm.Dict.{Dict}
use s_ldm.Double.{Double}
use s_ldm.Ldm.{Entry, LdmMap, LdmMapError, ok, item_not_found, decrement, lookup}
use s_ldm.Vehicle.{VehicleData}

module _ {D : Type 0} ⦃dbl : Double D⦄ where
  -- `DEG_2_RAD`
  unfoldable pub deg_2_rad : D → D
  deg_2_rad val = dbl.div (dbl.mul val dbl.pi) (dbl.of_ℕ 180)

  -- `haversineDist`, in metres
  unfoldable pub haversine_dist : (lat_a lon_a lat_b lon_b : D) → D
  unfolding deg_2_rad
  haversine_dist lat_a lon_a lat_b lon_b =
      let two : D = dbl.of_ℕ 2 in
      let half_lat = dbl.sin (dbl.div (deg_2_rad (dbl.sub lat_b lat_a)) two) in
      let half_lon = dbl.sin (dbl.div (deg_2_rad (dbl.sub lon_b lon_a)) two) in
      let across =
        dbl.mul (dbl.mul (dbl.mul (dbl.cos (deg_2_rad lat_a)) (dbl.cos (deg_2_rad lat_b))) half_lon)
          half_lon in
      dbl.mul (dbl.of_ℕ 12742000) (dbl.asin (dbl.sqrt (dbl.add (dbl.mul half_lat half_lat) across)))

  -- the age test of the two functions that delete: the difference is a `uint64_t` and wraps
  unfoldable pub is_older : (time_milliseconds : D) (now : ℕ) → Entry D → Bool
  is_older t now e =
      dbl.lt t
        (dbl.div (dbl.of_ℕ ((now + 2 ^ 64 - e.veh_data.timestamp_us) % 2 ^ 64)) (dbl.of_ℕ 1000))

  -- the inner loop of `rangeSelect`
  unfoldable pub select_lower :
      (range_m lat lon : D) → Dict (Entry D) → List (Entry D) → List (Entry D)
  select_lower r lat lon [] selected = selected
  select_lower r lat lon ((k, e) ∷ lower) selected = select_lower r lat lon lower (
      if dbl.le (haversine_dist lat lon e.veh_data.lat e.veh_data.lon) r
      then selected ++ (e ∷ [])
      else selected)

  unfoldable pub select_all :
      (range_m lat lon : D) → Dict (Dict (Entry D)) → List (Entry D) → List (Entry D)
  unfolding select_lower
  select_all r lat lon [] selected = selected
  select_all r lat lon ((k, lower) ∷ m) selected =
      select_all r lat lon m (select_lower r lat lon lower selected)

  -- the loop over one lower map that deletes, with the cardinality
  unfoldable pub sweep_lower : D → ℕ → Dict (Entry D) → ℕ → Dict (Entry D) × ℕ
  sweep_lower t now [] card = ([], card)
  sweep_lower t now ((k, e) ∷ lower) card =
      let old = is_older t now e in
      let (rest, card') = sweep_lower t now lower (if old then decrement card else card) in
      (if old then rest else (k, e) ∷ rest, card')

  unfoldable pub sweep : D → ℕ → Dict (Dict (Entry D)) → ℕ → Dict (Dict (Entry D)) × ℕ
  unfolding sweep_lower
  sweep t now [] card = ([], card)
  sweep t now ((k, lower) ∷ m) card =
      let (kept, card') = sweep_lower t now lower card in
      let (rest, card'') = sweep t now m card' in ((k, kept) ∷ rest, card'')

  -- The same loop with a callback: `A` is what the callback reaches through its last argument.
  unfoldable pub sweep_lower_execute {ℓ} :
      {A : Type ℓ} → D → ℕ → (ℕ → A → A) → Dict (Entry D) → ℕ → A → Dict (Entry D) × ℕ × A
  sweep_lower_execute t now oper [] card a = ([], card, a)
  sweep_lower_execute t now oper ((k, e) ∷ lower) card a =
      let old = is_older t now e in
      let (rest, card', a') =
        sweep_lower_execute t now oper lower (if old then decrement card else card)
          (if old then oper e.veh_data.station_id a else a) in
      (if old then rest else (k, e) ∷ rest, card', a')

  unfoldable pub sweep_execute {ℓ} :
      {A : Type ℓ}
      → D
      → ℕ
      → (ℕ → A → A)
      → Dict (Dict (Entry D))
      → ℕ
      → A
      → Dict (Dict (Entry D)) × ℕ × A
  unfolding sweep_lower_execute
  sweep_execute t now oper [] card a = ([], card, a)
  sweep_execute t now oper ((k, lower) ∷ m) card a =
      let (kept, card', a') = sweep_lower_execute t now oper lower card a in
      let (rest, card'', a'') = sweep_execute t now oper m card' a' in
      ((k, kept) ∷ rest, card'', a'')

module _ {D P : Type 0} ⦃dbl : Double D⦄ where
  -- `rangeSelect` round a point
  unfoldable pub range_select :
      (range_m lat lon : D) → List (Entry D) → LdmMap D P → LdmMapError × List (Entry D)
  unfolding select_all
  range_select r lat lon selected s = (ok, select_all r lat lon s.ldmmap selected)

  -- `rangeSelect` round a vehicle; `lookup` fills its argument exactly when it returns `ok`
  unfoldable pub range_select_around :
      (range_m : D) → ℕ → List (Entry D) → LdmMap D P → LdmMapError × List (Entry D)
  range_select_around r station_id selected s =
      let (status, found) = lookup station_id s in
      elim found [
        | some e ↦ range_select r e.veh_data.lat e.veh_data.lon selected s
        | none ↦ (item_not_found, selected)
      ]

  -- `now` is the clock at the start of the call
  unfoldable pub delete_older_than : D → (now : ℕ) → LdmMap D P → LdmMap D P
  unfolding sweep
  delete_older_than t now s =
      let (m, c) = sweep t now s.ldmmap s.card in record s { ldmmap = m; card = c }

  unfoldable pub delete_older_than_and_execute {ℓ} :
      {A : Type ℓ} → D → (now : ℕ) → (ℕ → A → A) → A → LdmMap D P → LdmMap D P × A
  unfolding sweep_execute
  delete_older_than_and_execute t now oper a s =
      let (m, c, a') = sweep_execute t now oper s.ldmmap s.card a in
      (record s { ldmmap = m; card = c }, a')

module _ {ℓ} {D : Type 0} {A : Type ℓ} where
  unfoldable pub execute_lower : (VehicleData D → A → A) → Dict (Entry D) → A → A
  execute_lower oper [] a = a
  execute_lower oper ((k, e) ∷ lower) a = execute_lower oper lower (oper e.veh_data a)

  unfoldable pub execute_maps : (VehicleData D → A → A) → Dict (Dict (Entry D)) → A → A
  unfolding execute_lower
  execute_maps oper [] a = a
  execute_maps oper ((k, lower) ∷ m) a = execute_maps oper m (execute_lower oper lower a)

unfoldable pub execute_on_all_contents {ℓ} :
    {D P : Type 0} {A : Type ℓ} → (VehicleData D → A → A) → A → LdmMap D P → A
unfolding execute_maps
execute_on_all_contents oper a s = execute_maps oper s.ldmmap a
