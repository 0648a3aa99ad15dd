-- ===== src/QuadKey/Unify/Reason.antt =====
-- The only reason for which `unifyQuadkeys2` throws.
use mathlib.Core.Option
use s_ldm.Common.{
  ℕ, zero, suc, ◌+◌, ◌^◌, ◌≡◌, refl, Bool, true, false, List, [], ◌∷◌, Option, none, some, leb,
  arith, ◌<◌, ◌≤◌, ◌⊎◌, Bool-cases, Option-cases, inl, inr, length,
}
use s_ldm.Common.Partial.{Yields, Yields-map, Yields-imp, Yields-some}
use s_ldm.Numeral.{Text}
use s_ldm.QuadKey.Unify.{
  main_part, is_block, unify_round, unify_levels, less, insert_sorted, sort, is_shorter,
  unify_quadkeys2,
}
use s_ldm.QuadKey.Unify.Throws.{AreLong, has_zero, unify_round-some}

-- the vectors that the rounds with a reduction lead to
pub data Rounds : List Text → List Text → Type 0 where
  here : {ks : List Text} → Rounds ks ks
  next :
      {ks vf ws : List Text}
      → unify_round (length ks) 0 ks ≡ some (true, vf)
      → Rounds vf ws
      → Rounds ks ws

length-main_part : (k : Text) → length k ≤ length (main_part k) + 1
unfolding main_part
length-main_part [] = omega arith
length-main_part (c ∷ []) = omega arith
length-main_part (c ∷ d ∷ k) = omega (arith, length-main_part (d ∷ k))

-- a round takes off one character at most, and adds no key
unify_round-AreLong :
    (n size skip : ℕ) (ks : List Text)
    → AreLong (suc n) ks
    → Yields
        (λ (s : Bool × List Text). AreLong n s.1 × (length s.1 ≤ length ks))
        (unify_round size skip ks)
unfolding unify_round AreLong
unify_round-AreLong n size skip [] h = (tt, omega arith)
unify_round-AreLong n size (suc skip) (k ∷ ks) (h, hs) =
    Yields-imp _ _ (unify_round size skip ks) (unify_round-AreLong n size skip ks hs)
      λ s (a, l). (a, omega arith)
unify_round-AreLong n size zero (k ∷ ks) (h, hs) = elim (Option-cases (is_block size k ks)) [
  | inl e ↦ rw e tt
  | inr (true, e) ↦ rw e (
      Yields-map _ _ _ (unify_round size 3 ks) (unify_round-AreLong n size 3 ks hs)
        λ s (a, l). ((omega (arith, length-main_part k), a), omega arith))
  | inr (false, e) ↦ rw e (
      Yields-map _ _ _ (unify_round size 0 ks) (unify_round-AreLong n size 0 ks hs)
        λ s (a, l). ((omega arith, a), omega arith))
]

AreLong-one : (n : ℕ) (ks : List Text) → AreLong (suc n) ks → AreLong 1 ks
unfolding AreLong
AreLong-one n [] h = tt
AreLong-one n (k ∷ ks) (h, hs) = (omega arith, AreLong-one n ks hs)

-- what makes a round throw
pub record IsStuck (ks : List Text) : Type 0 where
  pub few : length ks < 4
  pub zero_at_end : has_zero ks ≡ true

round-IsStuck :
    (ks : List Text)
    → AreLong 1 ks
    → length ks < 2 ^ 64
    → ((s : Bool × List Text) × (unify_round (length ks) 0 ks ≡ some s)) ⊎ IsStuck ks
round-IsStuck ks long fits = elim (Bool-cases (leb 4 (length ks))) [
  | inl four ↦ inl (unify_round-some (length ks) fits 0 ks long (omega arith) (inl (ground arith)))
  | inr few ↦ elim (Bool-cases (has_zero ks)) [
    | inl z ↦ inr (record { few = ground arith; zero_at_end = z })
    | inr z ↦ inl (unify_round-some (length ks) fits 0 ks long (omega arith) (inr z))
  ]
]

unify_levels-none :
    (n : ℕ) (ks : List Text)
    → AreLong n ks
    → length ks < 2 ^ 64
    → unify_levels n ks ≡ none
    → (ws : List Text) × Rounds ks ws × IsStuck ws
unfolding unify_levels
unify_levels-none zero ks long fits h = absurd (ground arith)
unify_levels-none (suc n) ks long fits h = elim (round-IsStuck ks (AreLong-one n ks long) fits) [
  | inr stuck ↦ (ks, Rounds.here, stuck)
  | inl ((false, vf), e) ↦ absurd (ground arith)
  | inl ((true, vf), e) ↦
      let kept = unify_round-AreLong n (length ks) 0 ks long in
      let (long', l) = Yields-some _ (unify_round (length ks) 0 ks) (true, vf) kept e in
      let (ws, path, stuck) =
        unify_levels-none n vf long' (omega arith) (rw (unify_levels, e) at h) in
      (ws, Rounds.next e path, stuck)
]

insert_sorted-AreLong :
    (n : ℕ) (before : Text → Text → Bool) (k : Text) (ks : List Text)
    → AreLong n (k ∷ ks)
    → AreLong n (insert_sorted before k ks) × (length (insert_sorted before k ks) ≡ length ks + 1)
unfolding insert_sorted AreLong
insert_sorted-AreLong n before k [] h = (h, omega arith)
insert_sorted-AreLong n before k (j ∷ ks) (h, (i, hs)) =
    let (a, l) = insert_sorted-AreLong n before k ks (h, hs) in
    elim (Bool-cases (before j k)) [
      | inl e ↦ rw e ((i, a), omega arith)
      | inr e ↦ rw e ((h, (i, hs)), omega arith)
    ]

sort-AreLong :
    (n : ℕ) (before : Text → Text → Bool) (ks : List Text)
    → AreLong n ks
    → AreLong n (sort before ks) × (length (sort before ks) ≡ length ks)
unfolding sort AreLong
sort-AreLong n before [] h = (tt, refl)
sort-AreLong n before (k ∷ ks) (h, hs) =
    let (a, l) = sort-AreLong n before ks hs in
    let (b, m) = insert_sorted-AreLong n before k (sort before ks) (h, a) in (b, omega arith)

-- If `unifyQuadkeys2` throws, on quadkeys with as many characters as the level of detail at least,
-- then some of its rounds, begun with the sorted keys, lead to a vector of less than four keys of
-- which one ends in the digit 0. So it returns where each round leaves four keys or more.
unify_quadkeys2-none :
    (level_of_detail : ℕ) (ks : List Text)
    → AreLong level_of_detail ks
    → length ks < 2 ^ 64
    → unify_quadkeys2 level_of_detail ks ≡ none
    → (ws : List Text) × Rounds (sort less ks) ws × IsStuck ws
unfolding unify_quadkeys2
unify_quadkeys2-none level_of_detail ks long fits h =
    let (a, l) = sort-AreLong level_of_detail less ks long in
    unify_levels-none level_of_detail (sort less ks) a (omega arith)
      (map-none (unify_levels level_of_detail (sort less ks)) h)
  where
    map-none : (m : Option (List Text)) → Option.map (sort is_shorter) m ≡ none → m ≡ none
    map-none none e = refl
    map-none (some a) e = absurd (ground arith)
