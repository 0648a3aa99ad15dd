-- ===== src/QuadKey/Distinct.antt =====
-- The two nested loops of src/QuadKeyTS.cpp that erase the repeated quadkeys of a vector; the
-- file has them three times.
use s_ldm.Common.{
  ℕ, zero, suc, ◌+◌, ◌*◌, ◌≡◌, ◌≢◌, refl, not, ◌&&◌, List, [], ◌∷◌, Option, none, some, ◌==◌, ltb,
  if◌then◌else◌, arith, ◌<◌, ◌≤◌, Bool-cases, Option-cases, inl, inr, length, get_elem?, erase, sym,
  ap, ◌∙◌,
}
use s_ldm.Numeral.{Text, same_text}
use s_ldm.QuadKey.Keys.{
  count, chars, same_text_refl, same_text_eq, count-erase, chars-erase, length-erase, count-get,
}

-- the loop over `k`: the first other index that holds the key of index `i`
unfoldable pub other_index : Text → ℕ → ℕ → List Text → Option ℕ
other_index x i p [] = none
other_index x i p (k ∷ ks) =
    let rest = other_index x i (p + 1) ks in if not (p == i) && same_text x k then some p else rest

-- The loop over `i`. After an erasure `i--` and the loop's `i++` cancel, also at 0.
unfoldable pub remove_equal : (fuel i : ℕ) → List Text → Option (List Text)
remove_equal zero i ks = none
remove_equal (suc fuel) i ks = elim (get_elem? ks i) [
  | none ↦ some ks
  | some x ↦ elim (other_index x i 0 ks) [
    | none ↦ remove_equal fuel (i + 1) ks
    | some k ↦ remove_equal fuel i (erase ks k)
  ]
]

-- each round goes on by one index or makes the vector shorter by one
unfoldable pub remove_duplicates : List Text → Option (List Text)
remove_duplicates ks = remove_equal (2 * length ks + 1) 0 ks

other_index-some :
    (x : Text) (i p k : ℕ) (ks : List Text)
    → other_index x i p ks ≡ some k
    → (j : ℕ) × (k ≡ p + j) × (k ≢ i) × (get_elem? ks j ≡ some x)
unfolding other_index
other_index-some x i p k [] h = absurd (ground arith)
other_index-some x i p k (y ∷ ks) h = elim (Bool-cases (not (p == i) && same_text x y)) [
  | inl e ↦ (0, ground arith, ground arith, ground (arith, same_text_eq x y))
  | inr n ↦
      let (j, a, b, c) = other_index-some x i (p + 1) k ks (ground arith) in
      (suc j, omega arith, b, c)
]

other_index-none :
    (x : Text) (i p : ℕ) (ks : List Text) → other_index x i p ks ≡ none → i < p → count x ks ≡ 0
unfolding other_index count
other_index-none x i p [] h l = refl
other_index-none x i p (y ∷ ks) h l = elim (Bool-cases (same_text x y)) [
  | inl e ↦ absurd (ground arith)
  | inr n ↦ ground (arith, other_index-none x i (p + 1) ks)
]

other_index-none_single :
    (x : Text) (i p j : ℕ) (ks : List Text)
    → other_index x i p ks ≡ none
    → i ≡ p + j
    → get_elem? ks j ≡ some x
    → count x ks ≡ 1
unfolding other_index count
other_index-none_single x i p j [] h l g = absurd (ground arith)
other_index-none_single x i p zero (y ∷ ks) h l g =
    ground (arith, same_text_refl x, other_index-none x i (p + 1) ks)
other_index-none_single x i p (suc j) (y ∷ ks) h l g = elim (Bool-cases (same_text x y)) [
  | inl e ↦ absurd (ground arith)
  | inr n ↦ ground (arith, other_index-none_single x i (p + 1) j ks)
]

count-get_two :
    (x : Text) (ks : List Text) (i k : ℕ)
    → get_elem? ks i ≡ some x
    → get_elem? ks k ≡ some x
    → k ≢ i
    → 2 ≤ count x ks
unfolding count
count-get_two x [] i k a b n = absurd (ground arith)
count-get_two x (y ∷ ks) zero zero a b n = absurd (n refl)
count-get_two x (y ∷ ks) zero (suc k) a b n = ground (arith, same_text_refl x, count-get ks k x b)
count-get_two x (y ∷ ks) (suc i) zero a b n = ground (arith, same_text_refl x, count-get ks i x a)
count-get_two x (y ∷ ks) (suc i) (suc k) a b n = ground (arith, count-get_two x ks i k a b)

get-erase : (ks : List Text) (k j : ℕ) → j < k → get_elem? (erase ks k) j ≡ get_elem? ks j
get-erase [] k j h = refl
get-erase (y ∷ ks) zero j h = absurd (omega arith)
get-erase (y ∷ ks) (suc k) zero h = refl
get-erase (y ∷ ks) (suc k) (suc j) h = get-erase ks k j (omega arith)

get-length : (ks : List Text) (i : ℕ) (x : Text) → get_elem? ks i ≡ some x → i < length ks
get-length [] i x h = absurd (ground arith)
get-length (y ∷ ks) zero x h = omega arith
get-length (y ∷ ks) (suc i) x h = ground (arith, get-length ks i x)

get-length-none : (ks : List Text) (i : ℕ) → get_elem? ks i ≡ none → length ks ≤ i
get-length-none [] i h = omega arith
get-length-none (y ∷ ks) zero h = absurd (ground arith)
get-length-none (y ∷ ks) (suc i) h = ground (arith, get-length-none ks i)

count_index : (x : Text) (ks : List Text) → 0 < count x ks → (j : ℕ) × (get_elem? ks j ≡ some x)
unfolding count
count_index x [] h = absurd (omega arith)
count_index x (y ∷ ks) h = elim (Bool-cases (same_text x y)) [
  | inl e ↦ (0, ground (arith, same_text_eq x y))
  | inr n ↦ let (j, g) = count_index x ks (ground arith) in (suc j, g)
]

-- the keys before the index `i` stand in the list once
pub IsSettled : ℕ → List Text → Type 0
IsSettled i ks = (j : ℕ) (y : Text) → j < i → get_elem? ks j ≡ some y → count y ks ≡ 1

-- the members of `ks`, each once, with no more characters
unfoldable pub IsDistinct : List Text → List Text → Type 0
IsDistinct ks r =
    ((x : Text) → count x r ≡ (if ltb 0 (count x ks) then 1 else 0)) × (chars r ≤ chars ks)

module _ (ks : List Text) (i k : ℕ) (x : Text) (a : get_elem? ks i ≡ some x)
    (b : get_elem? ks k ≡ some x) (n : k ≢ i) where
  -- the other index is behind the ones that are settled
  other-IsSettled : IsSettled i ks → i < k
  unfolding IsSettled
  other-IsSettled s = elim (Bool-cases (ltb k i)) [
    | inl l ↦ absurd (omega (arith, count-get_two x ks i k a b n, s k x (ground arith) b))
    | inr m ↦ ground arith
  ]

  erase-IsSettled : IsSettled i ks → IsSettled i (erase ks k)
  unfolding IsSettled
  erase-IsSettled s j y l g =
      let g' : get_elem? ks j ≡ some y =
        sym (get-erase ks k j (omega (arith, other-IsSettled s))) ∙ g in
      elim (Bool-cases (same_text y x)) [
        | inl e ↦ absurd (
            omega
              (arith, count-get_two x ks i k a b n, s j x l (g' ∙ ap some (same_text_eq y x e))))
        | inr m ↦
            let c : count y (erase ks k) + (if same_text y x then 1 else 0) ≡ count y ks =
              count-erase y ks k x b in
            let d : count y ks ≡ 1 = s j y l g' in ground arith
      ]

  count-erase_other : (y : Text) → ltb 0 (count y (erase ks k)) ≡ ltb 0 (count y ks)
  count-erase_other y = elim (Bool-cases (same_text y x)) [
    | inl e ↦
        let eq = same_text_eq y x e in
        let c : 2 ≤ count y ks = rw eq (count-get_two x ks i k a b n) in
        let d = count-erase y ks k x b in ground arith
    | inr m ↦ let d = count-erase y ks k x b in ground arith
  ]

next-IsSettled :
    (ks : List Text) (i : ℕ) (x : Text)
    → get_elem? ks i ≡ some x
    → count x ks ≡ 1
    → IsSettled i ks
    → IsSettled (i + 1) ks
unfolding IsSettled
next-IsSettled ks i x e c s j y l g = elim (Bool-cases (ltb j i)) [
  | inl m ↦ s j y (ground arith) g
  | inr m ↦
      let same : j ≡ i = ground arith in
      let e' : get_elem? ks j ≡ some x = rw same e in
      let same_key : y ≡ x = ground arith in rw same_key c
]

IsDistinct-erase :
    (ks : List Text) (i k : ℕ) (x : Text)
    → get_elem? ks i ≡ some x
    → get_elem? ks k ≡ some x
    → k ≢ i
    → (r : List Text) → IsDistinct (erase ks k) r
    → IsDistinct ks r
unfolding IsDistinct
IsDistinct-erase ks i k x a b n r (c, l) =
    (λ y. c y ∙ rw (count-erase_other ks i k x a b n y) refl, omega (arith, chars-erase ks k x b))

settled-IsDistinct : (i : ℕ) (ks : List Text) → IsSettled i ks → length ks ≤ i → IsDistinct ks ks
unfolding IsSettled IsDistinct
settled-IsDistinct i ks s l = (
  λ x. elim (Bool-cases (ltb 0 (count x ks))) [
    | inl e ↦
        let (j, g) = count_index x ks (ground arith) in
        rw e (s j x (omega (arith, get-length ks j x g)) g)
    | inr n ↦ rw n (ground arith)
  ],
  omega arith,
)

remove_equal_lem :
    (fuel i : ℕ) (ks : List Text)
    → IsSettled i ks
    → i ≤ length ks
    → 2 * length ks < fuel + i
    → (r : List Text) × (remove_equal fuel i ks ≡ some r) × IsDistinct ks r
unfolding remove_equal
remove_equal_lem zero i ks s b l = absurd (omega arith)
remove_equal_lem (suc fuel) i ks s b l = elim (Option-cases (get_elem? ks i)) [
  | inl e ↦ rw (remove_equal, e) (ks, refl, settled-IsDistinct i ks s (get-length-none ks i e))
  | inr (x, e) ↦
      rw (remove_equal, e)
        (elim (Option-cases (other_index x i 0 ks)) [
          | inl f ↦ rw f (
              remove_equal_lem fuel (i + 1) ks
                (next-IsSettled ks i x e (other_index-none_single x i 0 i ks f (omega arith) e) s)
                (omega (arith, get-length ks i x e)) (omega arith))
          | inr (k, f) ↦
              let (j, p, n, g) = other_index-some x i 0 k ks f in
              let same : k ≡ j = omega arith in
              let g' : get_elem? ks k ≡ some x = rw same g in
              let shorter = length-erase ks k x g' in
              let before = other-IsSettled ks i k x e g' n s in
              let bound = get-length ks k x g' in
              let (r, q, d) =
                remove_equal_lem fuel i (erase ks k) (erase-IsSettled ks i k x e g' n s)
                  (omega arith) (omega arith) in
              rw f (r, q, IsDistinct-erase ks i k x e g' n r d)
        ])
]

-- the loops end, and leave each key once
pub remove_duplicates-IsDistinct :
    (ks : List Text) → (r : List Text) × (remove_duplicates ks ≡ some r) × IsDistinct ks r
unfolding remove_duplicates IsSettled
remove_duplicates-IsDistinct ks =
    remove_equal_lem (2 * length ks + 1) 0 ks (λ j y l g. absurd (omega arith)) (omega arith)
      (omega arith)
