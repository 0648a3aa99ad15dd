-- ===== src/Options/Parse.antt =====
-- `parse_options` of options/options.c. Messages are left out; a call of `exit` ends the run with the
-- status. `getopt_long` is run by the C library: the list of the options that it returns is given.
pub mod Step
pub mod Finish
use s_ldm.Common.{ℕ, Bool, true, false, not, ◌&&◌, ◌||◌, List, [], ◌∷◌, ◌==◌, if◌then◌else◌}
use s_ldm.Common.Int.{ℤ, pos, ltb_ℤ}
use s_ldm.Double.{Double}
use s_ldm.Numeral.{Text, LongResult, strtol}
use s_ldm.OptionString.{OptionsString, options_string_push}
use s_ldm.Options.{Options, DoubleScan, DoubleResult}

pub data Outcome {ℓ} (A : Type ℓ) : Type ℓ where
  ok : A → Outcome A
  -- `return 1` of `parse_options`
  fails : Outcome A
  -- `exit(EXIT_SUCCESS)`, which every `print_short_info_err` ends in, and `exit(EXIT_FAILURE)`
  exits_success exits_failure : Outcome A

infixl 5 ◌>>=◌
abbrev pub ◌>>=◌ {ℓ κ} : {A : Type ℓ} {B : Type κ} → Outcome A → (A → Outcome B) → Outcome B
ok a >>= f = f a
fails >>= f = fails
exits_success >>= f = exits_success
exits_failure >>= f = exits_failure

-- `if(!options_string_push(&field,optarg)) print_short_info_err(…)`
abbrev pub push_or_exit {ℓ} : {A : Type ℓ} → OptionsString → Text → (OptionsString → A) → Outcome A
push_or_exit s text put =
    let (done, s') = options_string_push s text in if done then ok (put s') else exits_success

-- the two tests behind a `strtol`: no digit, or an error or a value that is not wanted
abbrev pub long_or_exit {ℓ} : {A : Type ℓ} → Text → (ℤ → Bool) → (ℤ → A) → Outcome A
long_or_exit text bad put =
    let r = strtol text in
    if not r.found
    then exits_success
    else (if r.range_error || bad r.value then exits_success else ok (put r.value))

-- a port outside of [1, 65535]
abbrev pub bad_port : ℤ → Bool
bad_port n = ltb_ℤ n (pos 1) || ltb_ℤ (pos 65535) n

-- the same two tests behind a `strtod`
abbrev pub double_or_exit {ℓ} :
    {D : Type 0} {A : Type ℓ} → DoubleResult D → (D → Bool) → (D → A) → Outcome A
double_or_exit r bad put =
    if not r.found
    then exits_success
    else (if r.range_error || bad r.value then exits_success else ok (put r.value))
