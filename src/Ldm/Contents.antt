-- ===== src/Ldm/Contents.antt =====
-- The database as the list of its entries, in the order of iteration: what the operations that visit
-- all entries do with that list.
use s_ldm.Common.{
  ℕ, ◌≡◌, refl, sym, ap, ◌∙◌, Bool, List, [], ◌∷◌, ◌++◌, if◌then◌else◌, arith, Bool-cases,
  Option-cases, none, some, inl, inr,
}
use s_ldm.Dict.{Dict}
use s_ldm.Double.{Double}
use s_ldm.Ldm.{Entry, LdmMap, ok, item_not_found, lookup, decrement}
use s_ldm.Ldm.Scan.{
  haversine_dist, is_older, select_lower, select_all, range_select, range_select_around,
  sweep_lower, sweep, sweep_lower_execute, sweep_execute, delete_older_than,
  delete_older_than_and_execute, execute_lower, execute_maps, execute_on_all_contents,
}
use s_ldm.Vehicle.{VehicleData}

module _ {ℓ κ} {A : Type ℓ} {B : Type κ} where
  -- the elements in order, each given to the function with what the ones before it left
  abbrev pub fold : (B → A → A) → List B → A → A
  fold f [] a = a
  fold f (b ∷ bs) a = fold f bs (f b a)

  fold-append :
      (f : B → A → A) (xs ys : List B) (a : A) → fold f (xs ++ ys) a ≡ fold f ys (fold f xs a)
  fold-append f [] ys a = refl
  fold-append f (x ∷ xs) ys a = fold-append f xs ys (f x a)

module _ {ℓ} {A : Type ℓ} where
  abbrev pub only : (A → Bool) → List A → List A
  only p [] = []
  only p (x ∷ xs) = if p x then x ∷ only p xs else only p xs

  pub only-append : (p : A → Bool) (xs ys : List A) → only p (xs ++ ys) ≡ only p xs ++ only p ys
  only-append p [] ys = refl
  only-append p (x ∷ xs) ys = ground (arith, only-append p xs ys)

  append_nil : (xs : List A) → xs ++ [] ≡ xs
  append_nil [] = refl
  append_nil (x ∷ xs) = ap (λ l. x ∷ l) (append_nil xs)

  append_assoc : (xs ys zs : List A) → (xs ++ ys) ++ zs ≡ xs ++ (ys ++ zs)
  append_assoc [] ys zs = refl
  append_assoc (x ∷ xs) ys zs = ap (λ l. x ∷ l) (append_assoc xs ys zs)

module _ {D : Type 0} where
  abbrev pub lower_contents : Dict (Entry D) → List (Entry D)
  lower_contents [] = []
  lower_contents ((k, e) ∷ lower) = e ∷ lower_contents lower

  abbrev pub contents : Dict (Dict (Entry D)) → List (Entry D)
  contents [] = []
  contents ((k, lower) ∷ m) = lower_contents lower ++ contents m

module _ {D : Type 0} ⦃dbl : Double D⦄ where
  abbrev pub is_near : (range_m lat lon : D) → Entry D → Bool
  is_near r lat lon e = dbl.le (haversine_dist lat lon e.veh_data.lat e.veh_data.lon) r

  select_lower-only :
      (r lat lon : D) (lower : Dict (Entry D)) (acc : List (Entry D))
      → select_lower r lat lon lower acc ≡ acc ++ only (is_near r lat lon) (lower_contents lower)
  unfolding select_lower
  select_lower-only r lat lon [] acc = sym (append_nil acc)
  select_lower-only r lat lon ((k, e) ∷ lower) acc = elim (Bool-cases (is_near r lat lon e)) [
    | inl f ↦
        rw f (select_lower-only r lat lon lower (acc ++ (e ∷ [])) ∙ append_assoc acc (e ∷ []) _)
    | inr f ↦ rw f (select_lower-only r lat lon lower acc)
  ]

  select_all-only :
      (r lat lon : D) (m : Dict (Dict (Entry D))) (acc : List (Entry D))
      → select_all r lat lon m acc ≡ acc ++ only (is_near r lat lon) (contents m)
  unfolding select_all
  select_all-only r lat lon [] acc = sym (append_nil acc)
  select_all-only r lat lon ((k, lower) ∷ m) acc =
      select_all-only r lat lon m (select_lower r lat lon lower acc)
      ∙ rw
          (
            select_lower-only r lat lon lower acc,
            only-append (is_near r lat lon) (lower_contents lower) (contents m),
          )
          (append_assoc acc _ _)

  -- the deletion with a callback, seen from the one without
  sweep_lower_execute-sweep_lower {ℓ} :
      {A : Type ℓ} (t : D) (now : ℕ) (oper : ℕ → A → A) (lower : Dict (Entry D)) (card : ℕ) (a : A)
      → sweep_lower_execute t now oper lower card a ≡ (
        (sweep_lower t now lower card).0,
        (sweep_lower t now lower card).1,
        fold (λ e. oper e.veh_data.station_id) (only (is_older t now) (lower_contents lower)) a,
      )
  unfolding sweep_lower_execute sweep_lower
  sweep_lower_execute-sweep_lower t now oper [] card a = refl
  sweep_lower_execute-sweep_lower t now oper ((k, e) ∷ lower) card a =
      elim (Bool-cases (is_older t now e)) [
        | inl f ↦ rw (
          f,
          sweep_lower_execute-sweep_lower t now oper lower (decrement card)
              (oper e.veh_data.station_id a),
        )
        | inr f ↦ rw (f, sweep_lower_execute-sweep_lower t now oper lower card a)
      ]

  sweep_execute-sweep {ℓ} :
      {A : Type ℓ} (t : D) (now : ℕ) (oper : ℕ → A → A) (m : Dict (Dict (Entry D))) (card : ℕ)
      (a : A)
      → sweep_execute t now oper m card a ≡ (
        (sweep t now m card).0,
        (sweep t now m card).1,
        fold (λ e. oper e.veh_data.station_id) (only (is_older t now) (contents m)) a,
      )
  unfolding sweep_execute sweep
  sweep_execute-sweep t now oper [] card a = refl
  sweep_execute-sweep t now oper ((k, lower) ∷ m) card a = rw (
    sweep_lower_execute-sweep_lower t now oper lower card a,
    sweep_execute-sweep t now oper m (sweep_lower t now lower card).1
        (fold (λ e. oper e.veh_data.station_id) (only (is_older t now) (lower_contents lower)) a),
    only-append (is_older t now) (lower_contents lower) (contents m),
    fold-append (λ e. oper e.veh_data.station_id) (only (is_older t now) (lower_contents lower))
        (only (is_older t now) (contents m)) a,
  )

module _ {D P : Type 0} ⦃dbl : Double D⦄ where
  -- `rangeSelect` round a point appends the entries within the range, in order, each once.
  pub range_select-only :
      (r lat lon : D) (selected : List (Entry D)) (s : LdmMap D P)
      → range_select r lat lon selected s
        ≡ (ok, selected ++ only (is_near r lat lon) (contents s.ldmmap))
  unfolding range_select
  range_select-only r lat lon selected s =
      ap (λ l. (ok, l)) (select_all-only r lat lon s.ldmmap selected)

  -- `rangeSelect` round a vehicle selects round the position of its entry; where the station ID is
  -- not found it says so and selects nothing.
  pub range_select_around-only :
      (r : D) (station_id : ℕ) (selected : List (Entry D)) (s : LdmMap D P)
      → range_select_around r station_id selected s ≡ elim (lookup station_id s).1 [
        | none ↦ (item_not_found, selected)
        | some e ↦
            (ok, selected ++ only (is_near r e.veh_data.lat e.veh_data.lon) (contents s.ldmmap))
      ]
  unfolding range_select_around
  range_select_around-only r station_id selected s = elim (Option-cases (lookup station_id s).1) [
    | inl e ↦ ground arith
    | inr (d, e) ↦ ground (arith, range_select-only r d.veh_data.lat d.veh_data.lon selected s)
  ]

  -- `deleteOlderThanAndExecute` leaves the database that `deleteOlderThan` leaves, and calls the
  -- function for the station ID of every entry that the age test selects, once each and in order.
  pub delete_older_than_and_execute_lem {ℓ} :
      {A : Type ℓ} (t : D) (now : ℕ) (oper : ℕ → A → A) (a : A) (s : LdmMap D P)
      → delete_older_than_and_execute t now oper a s ≡ (
        delete_older_than t now s,
        fold (λ e. oper e.veh_data.station_id) (only (is_older t now) (contents s.ldmmap)) a,
      )
  unfolding delete_older_than_and_execute delete_older_than
  delete_older_than_and_execute_lem t now oper a s =
      rw (sweep_execute-sweep t now oper s.ldmmap s.card a)

module _ {ℓ} {D : Type 0} {A : Type ℓ} where
  execute_lower-fold :
      (oper : VehicleData D → A → A) (lower : Dict (Entry D)) (a : A)
      → execute_lower oper lower a ≡ fold (λ e. oper e.veh_data) (lower_contents lower) a
  unfolding execute_lower
  execute_lower-fold oper [] a = refl
  execute_lower-fold oper ((k, e) ∷ lower) a = execute_lower-fold oper lower (oper e.veh_data a)

  execute_maps-fold :
      (oper : VehicleData D → A → A) (m : Dict (Dict (Entry D))) (a : A)
      → execute_maps oper m a ≡ fold (λ e. oper e.veh_data) (contents m) a
  unfolding execute_maps
  execute_maps-fold oper [] a = refl
  execute_maps-fold oper ((k, lower) ∷ m) a =
      execute_maps-fold oper m (execute_lower oper lower a)
      ∙ rw (
        execute_lower-fold oper lower a,
        fold-append (λ e. oper e.veh_data) (lower_contents lower) (contents m) a,
      )

-- `executeOnAllContents` calls the function for the data of every entry, once each and in order.
pub execute_on_all_contents-fold {ℓ} :
    {D P : Type 0} {A : Type ℓ} (oper : VehicleData D → A → A) (a : A) (s : LdmMap D P)
    → execute_on_all_contents oper a s ≡ fold (λ e. oper e.veh_data) (contents s.ldmmap) a
unfolding execute_on_all_contents
execute_on_all_contents-fold oper a s = execute_maps-fold oper s.ldmmap a
