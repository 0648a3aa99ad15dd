-- ===== src/QuadKey/Dimension/Rounds.antt =====
-- What one round of the loop of `checkdim` does to the quadkeys.
use s_ldm.Common.{
  ℕ, zero, suc, ◌+◌, ◌-◌, ◌*◌, ◌%◌, ◌^◌, ◌≡◌, refl, true, false, ◌||◌, List, [], ◌∷◌, ◌++◌, none,
  some, ◌==◌, arith, ◌<◌, ◌≤◌, ◌⊎◌, Bool-cases, Option-cases, inl, inr, length, get_elem?, erase,
  All, All-append,
}
use s_ldm.Common.Partial.{Yields, Yields-map, Yields-some}
use s_ldm.Numeral.{Text, same_text}
use s_ldm.QuadKey.Dimension.{dimension, max_length, is_too_long, take_chars, find_long, shorten_one}
use s_ldm.QuadKey.Keys.{is_prefix, covers, count, chars, chars-erase}

-- the key that is found
find_long-Yields :
    (l : ℕ) (ks : List Text)
    → Yields (λ (s : ℕ × Text). (get_elem? ks s.0 ≡ some s.1) × (length s.1 ≡ l)) (find_long l ks)
unfolding find_long
find_long-Yields l [] = tt
find_long-Yields l (q ∷ ks) = elim (Bool-cases (length q == l)) [
  | inl e ↦ rw e (refl, ground arith)
  | inr e ↦ rw e (Yields-map _ _ _ (find_long l ks) (find_long-Yields l ks) λ s p. p)
]

-- no key has more than `l` characters
unfoldable pub AreWithin : ℕ → List Text → Type 0
AreWithin l ks = All (λ k. length k ≤ l) ks

find_long-none :
    (l : ℕ) (ks : List Text) → find_long l ks ≡ none → AreWithin l ks → AreWithin (l - 1) ks
unfolding find_long AreWithin
find_long-none l [] h a = tt
find_long-none l (q ∷ ks) h (b, a) = elim (Bool-cases (length q == l)) [
  | inl e ↦ absurd (ground arith)
  | inr e ↦ elim (Option-cases (find_long l ks)) [
    | inl f ↦ (ground arith, find_long-none l ks f a)
    | inr (s, f) ↦ absurd (ground arith)
  ]
]

All-erase {κ} : {A : Type 0} (P : A → Type κ) (xs : List A) (i : ℕ) → All P xs → All P (erase xs i)
All-erase P [] i h = tt
All-erase P (x ∷ xs) zero (h, hs) = hs
All-erase P (x ∷ xs) (suc i) (h, hs) = (h, All-erase P xs i hs)

-- a list of empty keys in which none is repeated
empty-length : (ks : List Text) → AreWithin 0 ks → count [] ks ≡ length ks
unfolding AreWithin count same_text
empty-length [] h = refl
empty-length ([] ∷ ks) (h, hs) = omega (arith, empty-length ks hs)
empty-length ((c ∷ k) ∷ ks) (h, hs) = absurd (omega arith)

empty-chars : (ks : List Text) → AreWithin 0 ks → chars ks ≡ 0
unfolding AreWithin chars
empty-chars [] h = refl
empty-chars (k ∷ ks) (h, hs) = omega (arith, empty-chars ks hs)

length-take_chars : (n : ℕ) (k : Text) → length (take_chars n k) ≤ n
unfolding take_chars
length-take_chars zero k = omega arith
length-take_chars (suc n) [] = omega arith
length-take_chars (suc n) (c ∷ k) = omega (arith, length-take_chars n k)

is_prefix-take_chars :
    (n : ℕ) (k t : Text) → is_prefix k t ≡ true → is_prefix (take_chars n k) t ≡ true
unfolding is_prefix take_chars
is_prefix-take_chars zero k t h = refl
is_prefix-take_chars (suc n) [] t h = refl
is_prefix-take_chars (suc n) (c ∷ k) [] h = absurd (ground arith)
is_prefix-take_chars (suc n) (c ∷ k) (d ∷ t) h = ground (arith, is_prefix-take_chars n k t)

-- the total of the characters, and the tiles covered, when a key is replaced
chars-append : (ks : List Text) (k : Text) → chars (ks ++ k ∷ []) ≡ chars ks + length k
unfolding chars
chars-append [] k = omega arith
chars-append (q ∷ ks) k = omega (arith, chars-append ks k)

get-append :
    (ks : List Text) (k q : Text) (j : ℕ)
    → get_elem? ks j ≡ some q
    → get_elem? (ks ++ k ∷ []) j ≡ some q
get-append [] k q j h = absurd (ground arith)
get-append (u ∷ ks) k q zero h = h
get-append (u ∷ ks) k q (suc j) h = get-append ks k q j h

covers-append :
    (t : Text) (ks : List Text) (q : Text)
    → covers (ks ++ q ∷ []) t ≡ (covers ks t || is_prefix q t)
unfolding covers
covers-append t [] q = ground arith
covers-append t (k ∷ ks) q = ground (arith, covers-append t ks q)

covers-replaced :
    (t : Text) (ks : List Text) (j : ℕ) (k q : Text)
    → get_elem? ks j ≡ some k
    → (is_prefix k t ≡ true → is_prefix q t ≡ true)
    → covers ks t ≡ true
    → covers (erase (ks ++ q ∷ []) j) t ≡ true
unfolding covers
covers-replaced t [] j k q g h c = absurd (ground arith)
covers-replaced t (u ∷ ks) zero k q g h c = ground (arith, covers-append t ks q)
covers-replaced t (u ∷ ks) (suc j) k q g h c = ground (arith, covers-replaced t ks j k q g h)

shorten_one-none :
    (l : ℕ) (k : Text) (ks : List Text)
    → find_long l (k ∷ ks) ≡ none
    → shorten_one l (k ∷ ks) ≡ (l - 1, k ∷ ks)
unfolding shorten_one
shorten_one-none l k ks e = rw (shorten_one, e) refl

-- a single key at most is left when all the characters are gone
is_too_long-empty :
    (ks : List Text) → AreWithin 0 ks → count [] ks ≤ 1 → is_too_long (dimension ks) ≡ false
unfolding is_too_long dimension max_length
is_too_long-empty ks w c =
    let size = empty-length ks w in
    let total = empty-chars ks w in
    let small : (chars ks + 21 * length ks + 176) % 2 ^ 32 < 198 = omega arith in ground arith

-- the round, while the filter is too long
pub record IsRound (l : ℕ) (ks : List Text) (l' : ℕ) (vf : List Text) : Type 0 where
  pub goes_on : 0 < l'
  pub within : AreWithin l' vf
  pub less : chars vf + l' < chars ks + l
  pub covered : (t : Text) → covers ks t ≡ true → covers vf t ≡ true

still_long :
    (l : ℕ) (ks : List Text)
    → 0 < l
    → (1 < l) ⊎ (count [] ks ≤ 1)
    → is_too_long (dimension ks) ≡ true
    → AreWithin (l - 1) ks
    → 0 < l - 1
still_long (suc zero) ks p (inr c) long w = absurd (ground (arith, is_too_long-empty ks w c))
still_long (suc (suc l)) ks p (inr c) long w = omega arith
still_long zero ks p (inr c) long w = absurd (omega arith)
still_long l ks p (inl c) long w = omega arith

pub shorten_one-IsRound :
    (l : ℕ) (ks : List Text)
    → 0 < l
    → AreWithin l ks
    → (1 < l) ⊎ (count [] ks ≤ 1)
    → is_too_long (dimension ks) ≡ true
    → IsRound l ks (shorten_one l ks).0 (shorten_one l ks).1
unfolding shorten_one AreWithin count
shorten_one-IsRound l [] p w c long = absurd (ground (arith, is_too_long-empty [] tt (omega arith)))
shorten_one-IsRound l (u ∷ us) p w c long =
    let ks = u ∷ us in
    elim (Option-cases (find_long l ks)) [
      | inr ((j, k), e) ↦
          let (g, size) = Yields-some _ (find_long l ks) (j, k) (find_long-Yields l ks) e in
          let q = take_chars (l - 1) k in
          let short = length-take_chars (l - 1) k in
          let total = chars-erase (ks ++ q ∷ []) j k (get-append ks q k j g) in
          rw (shorten_one, e)
            (record {
              goes_on = p;
              within = All-erase _ (ks ++ q ∷ []) j (All-append _ ks (q ∷ []) w (omega arith, tt));
              less = omega (arith, chars-append ks q);
              covered = λ t. covers-replaced t ks j k q g (is_prefix-take_chars (l - 1) k t);
            })
      | inl e ↦ rw (shorten_one-none l u us e) (record {
        goes_on = still_long l ks p c long (find_long-none l ks e w);
        within = find_long-none l ks e w;
        less = omega arith;
        covered = λ t h. h;
      })
    ]
