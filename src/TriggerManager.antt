-- ===== src/TriggerManager.antt =====
-- src/triggerManager.cpp: the REST clients that the turn indicators start. Locks are left out: a call
-- runs alone. Whether `new(std::nothrow)` returns a client is an argument.
pub mod Reach
mod Tests
use s_ldm.Common.{
  ℕ, ◌+◌, ◌/◌, ◌%◌, ◌^◌, Bool, true, false, not, ◌&&◌, ◌||◌, Option, none, some, List, [], ◌∷◌,
  ◌++◌, ◌==◌, if◌then◌else◌,
}
use s_ldm.Common.Int.{ℤ}
use s_ldm.Numeral.{Text}
use s_ldm.OptionString.{options_string_pop}
use s_ldm.Options.{Options}

module _ (D : Type 0) where
  -- the members; a pointer may be null, and of the database only that is looked at
  pub record TriggerManager : Type 0 where
    pub has_db : Bool
    pub opts : Option (Options D)
    pub left_indicator_enabled : Bool
    pub already_triggered : List ℕ

  -- what a started client is set up with; `addr` is `none` for a null address
  pub record RestClient : Type 0 where
    pub station_id : ℕ
    pub addr : Option Text
    pub port : ℤ
    pub context_range : D
    pub interval : D

-- `std::find(…) != end()`
unfoldable pub has : ℕ → List ℕ → Bool
has id [] = false
has id (i ∷ ids) = i == id || has id ids

-- `std::list::remove`: every element that is equal
unfoldable pub without : ℕ → List ℕ → List ℕ
without id [] = []
without id (i ∷ ids) = let rest = without id ids in if i == id then rest else i ∷ rest

-- bit 4 is the right indicator, and bit 5 the left one
abbrev pub is_signalling : (left_enabled : Bool) (exterior_lights : ℕ) → Bool
is_signalling left_enabled exterior_lights =
    exterior_lights / 2 ^ 4 % 2 == 1 || (left_enabled && exterior_lights / 2 ^ 5 % 2 == 1)

module _ {D : Type 0} where
  abbrev pub client_of : Options D → ℕ → RestClient D
  client_of o id = record {
    station_id = id;
    addr = options_string_pop o.ms_rest_addr;
    port = o.ms_rest_port;
    context_range = o.context_radius;
    interval = o.ms_rest_periodicity;
  }

  -- `checkAndTrigger`; its position is not used
  unfoldable pub check_and_trigger :
      (lat lon : D) (ref_veh_station_id exterior_lights : ℕ) (allocated : Bool)
      → TriggerManager D
      → Bool × Option (RestClient D) × TriggerManager D
  check_and_trigger lat lon id exterior_lights allocated m = elim m.opts [
    | none ↦ (false, none, m)
    | some o ↦
        if not m.has_db
        then (false, none, m)
        else (if is_signalling m.left_indicator_enabled exterior_lights
              && not (has id m.already_triggered)
            then (if allocated
                then (
                  true,
                  some (client_of o id),
                  record m { already_triggered = m.already_triggered ++ (id ∷ []) },
                )
                else (false, none, m))
            else (false, none, m))
  ]

  -- `notifyOpTermination`, which a client calls at its end
  unfoldable pub notify_op_termination : ℕ → TriggerManager D → TriggerManager D
  notify_op_termination id m = record m { already_triggered = without id m.already_triggered }

  -- the constructor
  unfoldable pub new : (has_db : Bool) → Option (Options D) → TriggerManager D
  new has_db opts = record {
    has_db = has_db;
    opts = opts;
    left_indicator_enabled = false;
    already_triggered = [];
  }

  -- `setDBpointer`
  unfoldable pub set_db_pointer : (has_db : Bool) → TriggerManager D → TriggerManager D
  set_db_pointer has_db m = record m { has_db = has_db }

  -- `setLeftTurnIndicatorEnable`
  unfoldable pub set_left_turn_indicator_enable : Bool → TriggerManager D → TriggerManager D
  set_left_turn_indicator_enable enable m = record m { left_indicator_enabled = enable }
