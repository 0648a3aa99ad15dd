-- ===== src/OptionString.antt =====
-- options/options_strings.c: strings that can be set once. A text is shorter than 2 ^ 31 - 1 bytes,
-- so that its length fits an `int`; `malloc` does not fail.
use s_ldm.Common.{
  ℕ, ◌+◌, ◌≡◌, ◌≤◌, Bool, true, false, ◌||◌, Option, none, some, ltb, ◌==◌, if◌then◌else◌, length,
  arith, ◌<◌,
}
use s_ldm.Common.Int.{ℤ, pos, negsuc, ltb_ℤ}
use s_ldm.Numeral.{Text}

pub record OptionsString : Type 0 where
  pub buf : Option Text
  pub len : ℤ

abbrev pub max_options_string_len : ℕ
max_options_string_len = 512

unfoldable pub options_string_declare : OptionsString
options_string_declare = record { buf = none; len = negsuc 0 }

-- whether the text was taken, and the new string; the text is not NULL
unfoldable pub options_string_push : OptionsString → Text → Bool × OptionsString
options_string_push s text = elim s.buf [
  | some old ↦ (false, s)
  | none ↦
      let len = length text + 1 in
      if len == 0 || ltb max_options_string_len len
      then (false, s)
      else (true, record { buf = some text; len = pos len })
]

unfoldable pub options_string_pop : OptionsString → Option Text
options_string_pop s = s.buf

unfoldable pub options_string_len : OptionsString → ℤ
options_string_len s = s.len

-- `options_string_len(…) <= 0`
abbrev pub is_unset : OptionsString → Bool
is_unset s = ltb_ℤ s.len (pos 1)

-- A string has a positive length exactly when it has a buffer, and then that of its text.
abbrev pub IsString : OptionsString → Type 0
IsString s = elim s.buf [
  | none ↦ s.len ≡ negsuc 0
  | some text ↦ (s.len ≡ pos (length text + 1)) × (length text + 1 ≤ max_options_string_len)
]

pub push-IsString :
    (s : OptionsString) (text : Text) → IsString s → IsString (options_string_push s text).1
unfolding options_string_push
push-IsString s text h = ground arith

-- A string can be set once: a second push fails and keeps the first text.
pub push-push :
    (s : OptionsString) (a b : Text)
    → (options_string_push s a).0 ≡ true
    → (options_string_push (options_string_push s a).1 b ≡ (false, (options_string_push s a).1))
      × ((options_string_push s a).1.buf ≡ some a)
unfolding options_string_push
push-push s a b h = ground arith

pub push_unset :
    (s : OptionsString) (text : Text)
    → IsString s
    → is_unset s ≡ true
    → length text < 512
    → (options_string_push s text ≡ (true, record { buf = some text; len = pos (length text + 1) }))
unfolding options_string_push
push_unset s text h u l = ground arith
