-- ===== src/TriggerManager/Reach.antt =====
-- The runs of the manager, as a list of calls, and the clients that each of them starts and ends.
use s_ldm.Common.{
  ℕ, ◌+◌, ◌≡◌, ◌≤◌, refl, Bool, true, false, ◌&&◌, Option, none, some, List, [], ◌∷◌, ◌++◌, ◌==◌,
  if◌then◌else◌, arith,
}
use s_ldm.Options.{Options}
use s_ldm.TriggerManager.{
  TriggerManager, RestClient, has, without, check_and_trigger, notify_op_termination,
  set_left_turn_indicator_enable,
}

abbrev pub occurrences : ℕ → List ℕ → ℕ
occurrences id [] = 0
occurrences id (i ∷ ids) = (if i == id then 1 else 0) + occurrences id ids

has-occurrences : (id : ℕ) (ids : List ℕ) → has id ids ≡ false → occurrences id ids ≡ 0
unfolding has
has-occurrences id [] h = refl
has-occurrences id (i ∷ ids) h = ground (arith, has-occurrences id ids)

occurrences-append :
    (id j : ℕ) (ids : List ℕ)
    → occurrences id (ids ++ (j ∷ [])) ≡ occurrences id ids + (if j == id then 1 else 0)
occurrences-append id j [] = ground arith
occurrences-append id j (i ∷ ids) = ground (arith, occurrences-append id j ids)

occurrences-without :
    (id j : ℕ) (ids : List ℕ)
    → occurrences id (without j ids) ≡ (if j == id then 0 else occurrences id ids)
unfolding without
occurrences-without id j [] = ground arith
occurrences-without id j (i ∷ ids) = ground (arith, occurrences-without id j ids)

has_iff :
    (id : ℕ) (ids : List ℕ)
    → occurrences id ids ≤ 1
    → occurrences id ids ≡ (if has id ids then 1 else 0)
unfolding has
has_iff id [] h = refl
has_iff id (i ∷ ids) h = ground (arith, has_iff id ids, has-occurrences id ids)

has-append : (id : ℕ) (ids : List ℕ) → has id (ids ++ (id ∷ [])) ≡ true
unfolding has
has-append id [] = ground arith
has-append id (i ∷ ids) = ground (arith, has-append id ids)

has-without : (id : ℕ) (ids : List ℕ) → has id (without id ids) ≡ false
unfolding has without
has-without id [] = refl
has-without id (i ∷ ids) = ground (arith, has-without id ids)

module _ {D : Type 0} where
  -- whether a client of the vehicle was started
  abbrev pub started : ℕ → Option (RestClient D) → ℕ
  started id none = 0
  started id (some c) = if c.station_id == id then 1 else 0

  -- The states that calls lead to, each with the number of clients of one vehicle that were started
  -- and of those that ended.
  pub data Reach (id : ℕ) : (starts ends : ℕ) → TriggerManager D → Type 0 where
    fresh :
        (has_db : Bool) (opts : Option (Options D))
        → Reach id 0 0 (record {
          has_db = has_db;
          opts = opts;
          left_indicator_enabled = false;
          already_triggered = [];
        })
    check :
        (starts ends : ℕ) (m : TriggerManager D) (lat lon : D) (j lights : ℕ) (allocated : Bool)
        → Reach id starts ends m
        → Reach id
            (starts + started id (check_and_trigger lat lon j lights allocated m).1)
            ends
            (check_and_trigger lat lon j lights allocated m).2
    notify :
        (starts ends : ℕ) (m : TriggerManager D) (j : ℕ)
        → Reach id starts ends m
        → Reach id starts
            (ends + (if j == id && has id m.already_triggered then 1 else 0))
            (notify_op_termination j m)
    set_left :
        (starts ends : ℕ) (m : TriggerManager D) (enable : Bool)
        → Reach id starts ends m
        → Reach id starts ends (set_left_turn_indicator_enable enable m)

  -- a client of the vehicle is in progress once for each one that was started and has not ended, and
  -- never twice
  pub record IsBalanced (id starts ends : ℕ) (m : TriggerManager D) : Type 0 where
    pub once : occurrences id m.already_triggered ≤ 1
    pub balance : starts ≡ ends + occurrences id m.already_triggered

  check-IsBalanced :
      (id starts ends : ℕ) (m : TriggerManager D) (lat lon : D) (j lights : ℕ) (allocated : Bool)
      → IsBalanced id starts ends m
      → IsBalanced id
          (starts + started id (check_and_trigger lat lon j lights allocated m).1)
          ends
          (check_and_trigger lat lon j lights allocated m).2
  unfolding check_and_trigger
  check-IsBalanced id starts ends m lat lon j lights allocated b = record {
    once =
        ground (
          arith,
          occurrences-append id j m.already_triggered,
          has_iff id m.already_triggered b.once,
        );
    balance = ground (
      arith,
      b.balance,
      occurrences-append id j m.already_triggered,
      has_iff id m.already_triggered b.once,
    );
  }

  notify-IsBalanced :
      (id starts ends : ℕ) (m : TriggerManager D) (j : ℕ)
      → IsBalanced id starts ends m
      → IsBalanced id starts
          (ends + (if j == id && has id m.already_triggered then 1 else 0))
          (notify_op_termination j m)
  unfolding notify_op_termination
  notify-IsBalanced id starts ends m j b = record {
    once = ground (arith, occurrences-without id j m.already_triggered);
    balance = ground (
      arith,
      b.balance,
      occurrences-without id j m.already_triggered,
      has_iff id m.already_triggered b.once,
    );
  }

  set_left-IsBalanced :
      (id starts ends : ℕ) (m : TriggerManager D) (enable : Bool)
      → IsBalanced id starts ends m
      → IsBalanced id starts ends (set_left_turn_indicator_enable enable m)
  unfolding set_left_turn_indicator_enable
  set_left-IsBalanced id starts ends m enable b = record { once = b.once; balance = b.balance }

  -- In every reachable state at most one client of a vehicle is in progress, and one is exactly where
  -- more clients were started than have ended.
  pub reach-IsBalanced :
      (id starts ends : ℕ) (m : TriggerManager D)
      → Reach id starts ends m
      → IsBalanced id starts ends m
  reach-IsBalanced id _ _ _ (fresh has_db opts) = record { once = omega arith; balance = refl }
  reach-IsBalanced id _ _ _ (check starts ends m lat lon j lights allocated r) =
      check-IsBalanced id starts ends m lat lon j lights allocated
        (reach-IsBalanced id starts ends m r)
  reach-IsBalanced id _ _ _ (notify starts ends m j r) =
      notify-IsBalanced id starts ends m j (reach-IsBalanced id starts ends m r)
  reach-IsBalanced id _ _ _ (set_left starts ends m enable r) =
      set_left-IsBalanced id starts ends m enable (reach-IsBalanced id starts ends m r)

  -- Where `checkAndTrigger` returns true for a vehicle, the client is set up for that vehicle, every
  -- next call for it returns false and starts nothing, and after the notification that the client
  -- has ended the same call returns true again.
  check_and_trigger_once :
      (lat lon : D) (id lights : ℕ) (m : TriggerManager D)
      → (check_and_trigger lat lon id lights true m).0 ≡ true
      → let after = (check_and_trigger lat lon id lights true m).2 in
        (started id (check_and_trigger lat lon id lights true m).1 ≡ 1)
        × ((lights' : ℕ) (allocated : Bool)
            → check_and_trigger lat lon id lights' allocated after ≡ (false, none, after))
        × ((check_and_trigger lat lon id lights true (notify_op_termination id after)).0 ≡ true)
  unfolding check_and_trigger notify_op_termination
  check_and_trigger_once lat lon id lights m h = (
    ground arith,
    λ lights' allocated. ground (arith, has-append id m.already_triggered),
    ground (arith, has-without id (m.already_triggered ++ (id ∷ []))),
  )
