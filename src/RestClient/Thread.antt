-- ===== src/RestClient/Thread.antt =====
-- src/ManeuveringServiceRESTclient.cpp: `startRESTthread`, and the loop of `RESTthread_callback` over
-- the events of its timer. What a request gives is an argument.
use s_ldm.Common.{
  ℕ, ◌≡◌, refl, Bool, true, false, not, ◌||◌, Option, none, some, List, [], ◌∷◌, if◌then◌else◌,
  arith, Bool-cases, inl, inr,
}
use s_ldm.Numeral.{Text, same_text}
use s_ldm.Options.{codes}
use s_ldm.TriggerManager.{TriggerManager, notify_op_termination}

-- One request: an answer with status 200, with its `rsp_type`, or `none` where a member that is read
-- (`rsp_type`, `rsp_time` or `post_time`) is missing; an answer with another status; or an exception,
-- and whether its text has `Failed to connect`.
pub data Outcome : Type 0 where
  answered : Option Text → Outcome
  refused : Outcome
  failed : (failed_to_connect : Bool) → Outcome

-- Whether the loop goes on, on the last JSON answer that there was. A missing member throws an
-- exception of another text, which is caught.
unfoldable pub check_response : Option Text → Bool
check_response none = true
check_response (some rsp_type) = not (same_text rsp_type (codes "STOP"))

-- a round: `continue_flg`, and the answer that is kept
unfoldable pub handle : Outcome → Option Text → Bool × Option Text
unfolding check_response
handle (answered rsp_type) last = (check_response rsp_type, rsp_type)
handle refused last = (check_response last, last)
handle (failed failed_to_connect) last = (not failed_to_connect, last)

-- the loop over a number of events: whether it has ended
unfoldable pub run : List Outcome → Option Text → Bool
unfolding handle
run [] last = false
run (o ∷ os) last =
    let (go_on, last') = handle o last in let rest = run os last' in if go_on then rest else true

-- an outcome that ends the loop
unfoldable pub is_last : Outcome → Bool
is_last (answered none) = false
is_last (answered (some rsp_type)) = same_text rsp_type (codes "STOP")
is_last refused = false
is_last (failed failed_to_connect) = failed_to_connect

unfoldable pub any_last : List Outcome → Bool
any_last [] = false
any_last (o ∷ os) = is_last o || any_last os

-- `startRESTthread`; the thread ID is `none` where `pthread_create` fails, and then what the memory of
-- `tid` held is returned
unfoldable pub start_rest_thread : (thread : Option ℕ) (memory : ℕ) → Bool → Option ℕ × Bool
start_rest_thread thread memory true = (none, true)
start_rest_thread (some tid) memory false = (some tid, true)
start_rest_thread none memory false = (some memory, false)

-- what the thread does at its end: the running status and the notification
unfoldable pub finish : {D : Type 0} → ℕ → TriggerManager D → Bool × TriggerManager D
finish ref_veh_station_id m = (false, notify_op_termination ref_veh_station_id m)

run_from :
    (os : List Outcome) (last : Option Text)
    → check_response last ≡ true
    → run os last ≡ any_last os
unfolding run any_last handle is_last check_response
run_from [] last h = refl
run_from (answered none ∷ os) last h = run_from os none refl
run_from (answered (some t) ∷ os) last h = elim (Bool-cases (same_text t (codes "STOP"))) [
  | inl e ↦ ground arith
  | inr e ↦ ground (arith, run_from os (some t))
]
run_from (refused ∷ os) last h = ground (arith, run_from os last h)
run_from (failed b ∷ os) last h = ground (arith, run_from os last h)

-- The thread of a client ends exactly when one of its requests is answered with `STOP` or fails to
-- connect: an answer with another status, a missing `rsp_type` and other exceptions do not end it,
-- and the answer that is kept from an earlier round does not either.
pub run-any_last : (os : List Outcome) → run os none ≡ any_last os
unfolding check_response
run-any_last os = run_from os none refl
