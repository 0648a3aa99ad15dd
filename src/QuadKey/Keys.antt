-- ===== src/QuadKey/Keys.antt =====
-- Lists of quadkeys: the tests and edits on a `std::vector<std::string>` that src/QuadKeyTS.cpp
-- makes, and the set of tiles that a list of quadkeys stands for.
use s_ldm.Common.{
  ℕ, zero, suc, ◌+◌, ◌≡◌, refl, Bool, true, false, ◌&&◌, ◌||◌, List, [], ◌∷◌, some, ◌==◌,
  if◌then◌else◌, arith, ◌<◌, Bool-cases, inl, inr, length, get_elem?, erase, ap₂,
}
use s_ldm.Numeral.{Text, same_text}

pub same_text_refl : (s : Text) → same_text s s ≡ true
unfolding same_text
same_text_refl [] = refl
same_text_refl (c ∷ s) = ground (arith, same_text_refl s)

pub same_text_eq : (s t : Text) → same_text s t ≡ true → s ≡ t
unfolding same_text
same_text_eq [] [] h = refl
same_text_eq [] (d ∷ t) h = absurd (ground arith)
same_text_eq (c ∷ s) [] h = absurd (ground arith)
same_text_eq (c ∷ s) (d ∷ t) h =
    let e : c ≡ d = ground arith in
    let f : same_text s t ≡ true = ground arith in ap₂ (λ x y. x ∷ y) e (same_text_eq s t f)

-- how often a quadkey is in the list
unfoldable pub count : Text → List Text → ℕ
count x [] = 0
count x (k ∷ ks) = (if same_text x k then 1 else 0) + count x ks

unfoldable pub is_prefix : Text → Text → Bool
is_prefix [] t = true
is_prefix (c ∷ k) [] = false
is_prefix (c ∷ k) (d ∷ t) = c == d && is_prefix k t

-- Whether the message of a vehicle with the quadkey `t` passes the filter built from the keys: one of
-- them is a prefix of `t`.
unfoldable pub covers : List Text → Text → Bool
covers [] t = false
covers (k ∷ ks) t = is_prefix k t || covers ks t

-- the total number of characters
unfoldable pub chars : List Text → ℕ
chars [] = 0
chars (k ∷ ks) = length k + chars ks

pub count-erase :
    (x : Text) (ks : List Text) (i : ℕ) (k : Text)
    → get_elem? ks i ≡ some k
    → count x (erase ks i) + (if same_text x k then 1 else 0) ≡ count x ks
unfolding count
count-erase x [] i k h = absurd (ground arith)
count-erase x (j ∷ ks) zero k h = ground arith
count-erase x (j ∷ ks) (suc i) k h = ground (arith, count-erase x ks i k h)

pub chars-erase :
    (ks : List Text) (i : ℕ) (k : Text)
    → get_elem? ks i ≡ some k
    → chars (erase ks i) + length k ≡ chars ks
unfolding chars
chars-erase [] i k h = absurd (ground arith)
chars-erase (j ∷ ks) zero k h = ground arith
chars-erase (j ∷ ks) (suc i) k h = ground (arith, chars-erase ks i k h)

pub length-erase :
    (ks : List Text) (i : ℕ) (k : Text)
    → get_elem? ks i ≡ some k
    → length (erase ks i) + 1 ≡ length ks
length-erase [] i k h = absurd (ground arith)
length-erase (j ∷ ks) zero k h = omega arith
length-erase (j ∷ ks) (suc i) k h = ground (arith, length-erase ks i k h)

pub count-get : (ks : List Text) (i : ℕ) (k : Text) → get_elem? ks i ≡ some k → 0 < count k ks
unfolding count
count-get [] i k h = absurd (ground arith)
count-get (j ∷ ks) zero k h = ground (arith, same_text_refl k)
count-get (j ∷ ks) (suc i) k h = ground (arith, count-get ks i k h)

pub covers-count :
    (t : Text) (ls : List Text) (k : Text)
    → is_prefix k t ≡ true
    → 0 < count k ls
    → covers ls t ≡ true
unfolding covers count
covers-count t [] k e p = absurd (omega arith)
covers-count t (l ∷ ls) k e p = elim (Bool-cases (same_text k l)) [
  | inl s ↦ let eq = same_text_eq k l s in rw (← eq, e) refl
  | inr n ↦ ground (arith, covers-count t ls k e)
]

-- a tile is covered by the members only
pub covers_mono :
    (t : Text) (ks ls : List Text)
    → ((x : Text) → 0 < count x ks → 0 < count x ls)
    → covers ks t ≡ true
    → covers ls t ≡ true
unfolding covers count
covers_mono t [] ls h c = absurd (ground arith)
covers_mono t (k ∷ ks) ls h c = elim (Bool-cases (is_prefix k t)) [
  | inl e ↦ covers-count t ls k e (h k (rw (same_text_refl k) (omega arith)))
  | inr n ↦ covers_mono t ks ls (λ x p. h x (omega arith)) (ground arith)
]

pub is_prefix_refl : (k : Text) → is_prefix k k ≡ true
unfolding is_prefix
is_prefix_refl [] = refl
is_prefix_refl (c ∷ k) = ground (arith, is_prefix_refl k)
