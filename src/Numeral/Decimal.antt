-- ===== src/Numeral/Decimal.antt =====
-- `strtol` reads what `std::to_string` writes.
use s_ldm.Common.{
  ℕ, zero, suc, ◌+◌, ◌-◌, ◌*◌, ◌/◌, ◌%◌, ◌^◌, ◌≡◌, ◌≤◌, ◌<◌, refl, sym, ap, subst, ◌∙◌, Bool, true,
  false, [], ◌∷◌, ◌++◌, ◌==◌, arith, leb, ltb, Bool-cases, inl, inr,
}
use s_ldm.Common.Int.{ℤ, pos, negsuc, neg_ℕ}
use s_ldm.QuadKey.Keys.{same_text_eq}
use s_ldm.Numeral.{
  Text, is_digit, is_space, skip_spaces, read_digits, LongResult, in_long, signed, strtol, digits,
  to_string, to_string_ℤ, same_text,
}

-- the numbers of 64 bits with a sign
abbrev pub is_long : ℤ → Bool
is_long (pos n) = ltb n (2 ^ 63)
is_long (negsuc n) = ltb n (2 ^ 63)

append_assoc : (s t u : Text) → (s ++ t) ++ u ≡ s ++ (t ++ u)
append_assoc [] t u = refl
append_assoc (c ∷ s) t u = ap (λ l. c ∷ l) (append_assoc s t u)

digit_read :
    (n a m : ℕ) (some_digit : Bool) (rest : Text)
    → n < 10
    → a * 10 + n ≡ m
    → read_digits ((b'0' + n) ∷ rest) some_digit a ≡ read_digits rest true m
unfolding read_digits is_digit
digit_read n a m some_digit rest h e =
    let digit : is_digit (b'0' + n) ≡ true = ground arith in
    let value : a * 10 + (b'0' + n - b'0') ≡ m = omega (arith, e) in
    rw digit (ap (λ v. read_digits rest true v) value)

digits_read :
    (fuel n : ℕ) (some_digit : Bool) (rest : Text)
    → n < 10 ^ suc fuel
    → read_digits (digits (suc fuel) n ++ rest) some_digit 0 ≡ read_digits rest true n
unfolding digits
digits_read zero n some_digit rest h =
    let small : ltb n 10 ≡ true = ground arith in
    rw small (digit_read n 0 n some_digit rest (omega arith) (omega arith))
digits_read (suc fuel) n some_digit rest h = elim (Bool-cases (ltb n 10)) [
  | inl e ↦ rw e (digit_read n 0 n some_digit rest (ground arith) (omega arith))
  | inr e ↦
      let front = digits (suc fuel) (n / 10) in
      let last = b'0' + n % 10 in
      let few : n / 10 < 10 ^ suc fuel = omega arith in
      rw e (
        ap (λ t. read_digits t some_digit 0) (append_assoc front (last ∷ []) rest)
        ∙ digits_read fuel (n / 10) some_digit (last ∷ rest) few
        ∙ digit_read (n % 10) (n / 10) n true rest (omega arith) (omega arith))
]

append_nil : (s : Text) → s ++ [] ≡ s
append_nil [] = refl
append_nil (c ∷ s) = ap (λ l. c ∷ l) (append_nil s)

to_string_read : (n : ℕ) → n < 10 ^ 20 → read_digits (to_string n) false 0 ≡ (true, n)
unfolding to_string read_digits
to_string_read n h =
    ap (λ t. read_digits t false 0) (sym (append_nil (digits 20 n))) ∙ digits_read 19 n false [] h

-- Numbers with the same text are equal.
pub to_string_injective :
    (m n : ℕ) → m < 10 ^ 20 → n < 10 ^ 20 → same_text (to_string m) (to_string n) ≡ true → m ≡ n
to_string_injective m n a b h =
    let same = same_text_eq (to_string m) (to_string n) h in
    ap (λ r. r.1)
      (sym (to_string_read m a) ∙ ap (λ t. read_digits t false 0) same ∙ to_string_read n b)

digits-head :
    (fuel n : ℕ) → (c : ℕ) × (t : Text) × (digits (suc fuel) n ≡ c ∷ t) × (b'0' ≤ c) × (c ≤ b'9')
unfolding digits
digits-head zero n = elim (Bool-cases (ltb n 10)) [
  | inl e ↦ (b'0' + n, [], rw e refl, omega arith, ground (arith, e))
  | inr e ↦ (b'0' + n % 10, [], rw e refl, omega arith, omega arith)
]
digits-head (suc fuel) n = elim (Bool-cases (ltb n 10)) [
  | inl e ↦ (b'0' + n, [], rw e refl, omega arith, ground (arith, e))
  | inr e ↦
      let (c, t, f, low, high) = digits-head fuel (n / 10) in
      (c, t ++ (b'0' + n % 10) ∷ [], rw e (ap (λ l. l ++ (b'0' + n % 10) ∷ []) f), low, high)
]

to_string-head : (n : ℕ) → (c : ℕ) × (t : Text) × (to_string n ≡ c ∷ t) × (b'0' ≤ c) × (c ≤ b'9')
unfolding to_string
to_string-head n = digits-head 19 n

abbrev found_long : ℤ → LongResult
found_long z = record { found = true; range_error = false; value = z }

strtol_positive :
    (c : ℕ) (t : Text) (n : ℕ)
    → b'0' ≤ c
    → c ≤ b'9'
    → n < 2 ^ 63
    → read_digits (c ∷ t) false 0 ≡ (true, n)
    → strtol (c ∷ t) ≡ found_long (pos n)
unfolding strtol skip_spaces is_space signed in_long
strtol_positive c t n low high small read =
    let skipped : skip_spaces (c ∷ t) ≡ c ∷ t =
      let no_space : is_space c ≡ false = ground arith in rw no_space refl in
    let no_minus : (c == b'-') ≡ false = ground arith in
    let no_plus : (c == b'+') ≡ false = ground arith in
    let fits : ltb n (2 ^ 63) ≡ true = ground arith in
    let unsigned : signed (c ∷ t) ≡ in_long false (read_digits (c ∷ t) false 0) =
      rw (no_minus, no_plus) refl in
    ap signed skipped ∙ unsigned ∙ ap (in_long false) read ∙ rw fits refl

strtol_negative :
    (t : Text) (n : ℕ)
    → n ≤ 2 ^ 63
    → read_digits t false 0 ≡ (true, n)
    → strtol (b'-' ∷ t) ≡ found_long (neg_ℕ n)
unfolding strtol skip_spaces is_space signed in_long
strtol_negative t n small read =
    let fits : leb n (2 ^ 63) ≡ true = ground arith in ap (in_long true) read ∙ rw fits refl

-- `strtol` reads the text of every 64-bit number that `std::to_string` writes as that number, without
-- an error and up to its end.
strtol-to_string_ℤ :
    (z : ℤ)
    → is_long z ≡ true
    → strtol (to_string_ℤ z) ≡ record { found = true; range_error = false; value = z }
unfolding to_string_ℤ
strtol-to_string_ℤ (pos n) h =
    let (c, t, f, low, high) = to_string-head n in
    let read : read_digits (c ∷ t) false 0 ≡ (true, n) =
      subst (λ s. read_digits s false 0 ≡ (true, n)) f (to_string_read n (ground arith)) in
    ap strtol f ∙ strtol_positive c t n low high (ground arith) read
strtol-to_string_ℤ (negsuc n) h =
    strtol_negative (to_string (suc n)) (suc n) (ground arith)
      (to_string_read (suc n) (ground arith))
