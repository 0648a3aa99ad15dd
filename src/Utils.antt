-- ===== src/Utils.antt =====
-- src/utils.cpp: the timestamps, the interval of a timer, and the text for the exterior lights. The
-- clock is an argument; the divisions by 1000 of doubles are exact to the integer at these sizes.
use s_ldm.Common.{
  ℕ, suc, ◌+◌, ◌-◌, ◌*◌, ◌/◌, ◌%◌, ◌^◌, ◌≡◌, ◌≤◌, ◌<◌, List, [], ◌∷◌, ◌++◌, ◌==◌, ltb,
  if◌then◌else◌, arith,
}
use s_ldm.Numeral.{Text}
use s_ldm.Options.{codes}

-- `struct timespec`
pub record Timespec : Type 0 where
  pub tv_sec : ℕ
  pub tv_nsec : ℕ

-- the microseconds since the epoch
unfoldable pub get_timestamp_us : Timespec → ℕ
get_timestamp_us now =
    let microseconds = (now.tv_nsec + 500) / 1000 in
    if ltb 999_999 microseconds
    then (now.tv_sec + 1) * 1_000_000
    else now.tv_sec * 1_000_000 + microseconds

unfoldable pub get_timestamp_ns : Timespec → ℕ
get_timestamp_ns now = now.tv_sec * 1_000_000_000 + now.tv_nsec

-- the epoch at 2004-01-01, in milliseconds
unfoldable pub time_shift_milli : ℕ
time_shift_milli = 1_072_915_200_000

-- milliseconds since 2004, by the clock of TAI, in 32 bits
unfoldable pub get_timestamp_ms_gn : (tai : Timespec) → ℕ
unfolding get_timestamp_us time_shift_milli
get_timestamp_ms_gn tai =
    (get_timestamp_us tai / 1000 + 2 ^ 64 - time_shift_milli) % 2 ^ 64 % 4_294_967_296

unfoldable pub get_timestamp_ms_cam : Timespec → ℕ
unfolding get_timestamp_us time_shift_milli
get_timestamp_ms_cam now =
    (get_timestamp_us now / 1000 + 2 ^ 64 - time_shift_milli) % 2 ^ 64 % 65_536

-- `timer_fd_create`: the first event and the interval of the timer
unfoldable pub timer_interval : (time_us : ℕ) → Timespec
timer_interval time_us =
    let sec = time_us / 1_000_000 in
    record { tv_sec = sec; tv_nsec = 1000 * time_us - sec * 1_000_000_000 }

unfoldable pub bit_names : List Text
bit_names =
    codes "lowBeamHeadlightsOn"
    ∷ codes "highBeamHeadlightsOn"
    ∷ codes "leftTurnSignalOn"
    ∷ codes "rightTurnSignalOn"
    ∷ codes "daytimeRunningLightsOn"
    ∷ codes "reverseLightOn"
    ∷ codes "fogLightOn"
    ∷ codes "parkingLightsOn"
    ∷ []

unfoldable pub with_comma : Text → Text
with_comma [] = []
with_comma (c ∷ t) = (c ∷ t) ++ codes ","

-- the loop over the bits, from the highest one of the names that are left
unfoldable pub add_names : (ext_lights bits : ℕ) → List Text → Text → Text
unfolding with_comma
add_names ext_lights (suc i) (name ∷ names) s =
    add_names ext_lights i names (if ext_lights / 2 ^ i % 2 == 1 then with_comma s ++ name else s)
add_names ext_lights _ _ s = s

unfoldable pub exterior_lights_bit_to_string : ℕ → Text
unfolding add_names bit_names
exterior_lights_bit_to_string ext_lights = elim (add_names ext_lights 8 bit_names []) [
  | [] ↦ codes "off"
  | c ∷ t ↦ c ∷ t
]

-- The timestamp in microseconds is the clock's time rounded to the nearest microsecond, also where
-- the rounding reaches the next second.
pub get_timestamp_us_lem :
    (now : Timespec)
    → now.tv_nsec < 1_000_000_000
    → (get_timestamp_us now * 1000 ≤ get_timestamp_ns now + 500)
      × (get_timestamp_ns now < get_timestamp_us now * 1000 + 500)
unfolding get_timestamp_us get_timestamp_ns
get_timestamp_us_lem now h = ground arith

-- A timer is set to its interval: seconds and nanoseconds together are the time asked for, and the
-- nanoseconds are less than a second, as `timerfd_settime` asks.
pub timer_interval_lem :
    (time_us : ℕ)
    → ((timer_interval time_us).tv_sec * 1_000_000_000 + (timer_interval time_us).tv_nsec
        ≡ time_us * 1000)
      × ((timer_interval time_us).tv_nsec < 1_000_000_000)
unfolding timer_interval
timer_interval_lem time_us = (omega arith, omega arith)
