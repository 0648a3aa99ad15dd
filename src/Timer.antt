-- ===== src/Timer.antt =====
-- src/timers.cpp: a periodic timer on a file descriptor of the kernel. What the kernel answers is an
-- argument, and the calls that change its state are listed.
use s_ldm.Common.{
  ℕ, ◌+◌, ◌-◌, ◌*◌, ◌/◌, ◌%◌, ◌^◌, ◌≡◌, ◌≢◌, ◌<◌, Bool, true, false, not, Option, none, some, List,
  [], ◌∷◌, ◌==◌, if◌then◌else◌, arith, refl,
}

-- `it_value` and `it_interval`, which are set alike
pub record Period : Type 0 where
  pub seconds : ℕ
  pub nanoseconds : ℕ

pub data Call : Type 0 where
  timerfd_settime : (fd : Option ℕ) → Period → Call
  close_fd : (fd : Option ℕ) → Call
  read_fd : (fd : Option ℕ) → Call

-- `none` is a descriptor that is not open
pub record Timer : Type 0 where
  pub clock_fd : Option ℕ
  pub polled_fd : Option ℕ
  pub time_ms : ℕ

-- the conversion of a time in `start` and `rearm`, in 64 bits
unfoldable pub period : ℕ → Period
period ms =
    let sec = ms / 1000 in
    record {
      seconds = sec;
      nanoseconds = (1000000 * ms % 2 ^ 64 + 2 ^ 64 - sec * 1000000000 % 2 ^ 64) % 2 ^ 64;
    }

-- `created` is what `timerfd_create` returns, and `done` whether `timerfd_settime` succeeds
unfoldable pub start : (created : Option ℕ) (done : Bool) → Timer → Bool × Timer × List Call
start created done t = if t.time_ms == 0 then (false, t, []) else elim created [
  | none ↦ (false, record t { clock_fd = none }, [])
  | some fd ↦
      let t' = record t { clock_fd = some fd; polled_fd = some fd } in
      let set = timerfd_settime (some fd) (period t.time_ms) in
      if done then (true, t', set ∷ []) else (false, t', set ∷ close_fd (some fd) ∷ [])
]

unfoldable pub stop : (done : Bool) → Timer → Bool × List Call
stop done t = (done, timerfd_settime t.clock_fd (record { seconds = 0; nanoseconds = 0 }) ∷ [])

-- `return -2` and `return 0` of a `bool`
unfoldable pub rearm : (time_ms : ℕ) (done : Bool) → Timer → Bool × List Call
rearm time_ms done t =
    let set = timerfd_settime t.clock_fd (period t.time_ms) in
    if done then (false, set ∷ []) else (true, set ∷ close_fd t.clock_fd ∷ [])

-- `expired` is whether `poll` finds an event
unfoldable pub wait_for_expiration : (expired : Bool) → Timer → Bool × List Call
wait_for_expiration true t = (true, read_fd t.clock_fd ∷ [])
wait_for_expiration false t = (false, [])

-- the time of a period in nanoseconds
abbrev pub nanoseconds_of : Period → ℕ
nanoseconds_of p = p.seconds * 1000000000 + p.nanoseconds

-- Where the kernel creates and sets the timer, and its time is not 0 and fits 64 bits in nanoseconds,
-- `start` sets a period of that time, with less than a second in its nanoseconds, and not the period
-- 0 that would disarm the timer; the descriptor that is polled is the new one.
pub start_lem :
    (fd : ℕ) (t : Timer)
    → t.time_ms ≢ 0
    → 1000000 * t.time_ms < 2 ^ 64
    → (start (some fd) true t ≡ (
      true,
      record t { clock_fd = some fd; polled_fd = some fd },
      timerfd_settime (some fd) (period t.time_ms) ∷ [],
    ))
      × (nanoseconds_of (period t.time_ms) ≡ 1000000 * t.time_ms)
      × ((period t.time_ms).nanoseconds < 1000000000)
      × (nanoseconds_of (period t.time_ms) ≢ 0)
unfolding start period
start_lem fd t some_time fits = (ground arith, omega arith, omega arith, omega arith)

-- `rearm` does not use its argument: two calls with different times set the same period, that of the
-- constructor; and it returns true exactly where the kernel refuses.
pub rearm_ignores :
    (a b : ℕ) (done : Bool) (t : Timer)
    → (rearm a done t ≡ rearm b done t) × ((rearm a done t).0 ≡ not done)
unfolding rearm
rearm_ignores a b done t = (refl, ground arith)
