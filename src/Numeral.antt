-- ===== src/Numeral.antt =====
-- The functions of the C library that the option parser uses: `strtol` in base 10, and the tokens
-- of `strtok_r` at commas; and `std::to_string`. A text is the list of its bytes, without the NUL.
pub mod Decimal
use s_ldm.Common.{
  ℕ, zero, suc, ◌+◌, ◌-◌, ◌*◌, ◌/◌, ◌%◌, ◌^◌, Bool, true, false, ◌&&◌, ◌||◌, List, [], ◌∷◌, ◌++◌,
  ◌==◌, leb, ltb, if◌then◌else◌,
}
use s_ldm.Common.Int.{ℤ, pos, negsuc, neg_ℕ}

abbrev pub Text : Type 0
Text = List ℕ

-- whether two texts are equal: `strcmp(…) == 0`, and `==` of two `std::string`s
unfoldable pub same_text : Text → Text → Bool
same_text [] [] = true
same_text [] (d ∷ t) = false
same_text (c ∷ s) [] = false
same_text (c ∷ s) (d ∷ t) = c == d && same_text s t

unfoldable pub is_space : ℕ → Bool
is_space c = (leb 9 c && leb c 13) || c == b' '

unfoldable pub is_digit : ℕ → Bool
is_digit c = leb b'0' c && leb c b'9'

unfoldable pub skip_spaces : Text → Text
unfolding is_space
skip_spaces [] = []
skip_spaces (c ∷ s) = let rest = skip_spaces s in if is_space c then rest else c ∷ s

-- whether a digit was read, and the value of the digits at the head of the text
unfoldable pub read_digits : Text → Bool → ℕ → Bool × ℕ
unfolding is_digit
read_digits [] some_digit n = (some_digit, n)
read_digits (c ∷ s) some_digit n =
    let rest = read_digits s true (n * 10 + (c - b'0')) in
    if is_digit c then rest else (some_digit, n)

pub record LongResult : Type 0 where
  -- `sPtr != optarg`: a digit was found
  pub found : Bool
  -- `errno` was set: the value does not fit a `long`
  pub range_error : Bool
  pub value : ℤ

-- the value with its sign, cut to the range of a 64-bit `long`
unfoldable pub in_long : Bool → Bool × ℕ → LongResult
in_long minus (false, n) = record { found = false; range_error = false; value = pos 0 }
in_long false (true, n) =
    if ltb n (2 ^ 63)
    then record { found = true; range_error = false; value = pos n }
    else record { found = true; range_error = true; value = pos (2 ^ 63 - 1) }
in_long true (true, n) =
    if leb n (2 ^ 63)
    then record { found = true; range_error = false; value = neg_ℕ n }
    else record { found = true; range_error = true; value = negsuc (2 ^ 63 - 1) }

unfoldable pub signed : Text → LongResult
unfolding in_long read_digits
signed [] = in_long false (false, 0)
signed (c ∷ s) =
    if c == b'-'
    then in_long true (read_digits s false 0)
    else (if c == b'+'
        then in_long false (read_digits s false 0)
        else in_long false (read_digits (c ∷ s) false 0))

unfoldable pub strtol : Text → LongResult
unfolding skip_spaces signed
strtol s = signed (skip_spaces s)

-- the delimiters at the head, and the text behind them
unfoldable pub skip_commas : Text → Text
skip_commas [] = []
skip_commas (c ∷ s) = let rest = skip_commas s in if c == b',' then rest else c ∷ s

unfoldable pub leading_commas : Text → Text
leading_commas [] = []
leading_commas (c ∷ s) = let rest = leading_commas s in if c == b',' then c ∷ rest else []

-- a token up to the next comma, and the text behind that comma
unfoldable pub split_token : Text → Text × Text
split_token [] = ([], [])
split_token (c ∷ s) =
    let (token, rest) = split_token s in if c == b',' then ([], s) else (c ∷ token, rest)

-- `optarg` as it reads once the first call of `strtok_r` has put a NUL behind the first token
unfoldable pub first_segment : Text → Text
unfolding leading_commas split_token skip_commas
first_segment s = leading_commas s ++ (split_token (skip_commas s)).0

-- the decimal digits of a number, up to `fuel` of them
unfoldable pub digits : (fuel n : ℕ) → Text
digits zero n = []
digits (suc fuel) n =
    let front = digits fuel (n / 10) in
    if ltb n 10 then (b'0' + n) ∷ [] else front ++ (b'0' + n % 10) ∷ []

-- `std::to_string` of a number with at most 20 digits, as all numbers below 2 ^ 64 have
unfoldable pub to_string : ℕ → Text
unfolding digits
to_string n = digits 20 n

-- `std::to_string` of an `int`
unfoldable pub to_string_ℤ : ℤ → Text
unfolding to_string
to_string_ℤ (pos n) = to_string n
to_string_ℤ (negsuc n) = b'-' ∷ to_string (suc n)
