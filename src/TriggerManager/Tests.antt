-- ===== src/TriggerManager/Tests.antt =====
-- The theorems on the manager at a vehicle that signals to the right twice.
use s_ldm.Common.{ℕ, ◌+◌, true, false, some, []}
use s_ldm.Options.{options_initialize}
use s_ldm.Options.Samples.{nat_scan}
use s_ldm.Samples.{nat_double}
use s_ldm.TriggerManager.{TriggerManager, check_and_trigger}
use s_ldm.TriggerManager.Reach.{fresh, check, IsBalanced, started, reach-IsBalanced}

abbrev idle : TriggerManager ℕ
idle = record {
  has_db = true;
  opts = some options_initialize;
  left_indicator_enabled = false;
  already_triggered = [];
}

abbrev signalled : TriggerManager ℕ
signalled = (check_and_trigger 45 7 9 16 true idle).2

reach-IsBalanced_example :
    IsBalanced 9 (0 + started 9 (check_and_trigger 45 7 9 16 true idle).1) 0 signalled
reach-IsBalanced_example =
    reach-IsBalanced 9 _ _ signalled
      (check 0 0 idle 45 7 9 16 true (fresh true (some options_initialize)))
