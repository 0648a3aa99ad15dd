-- ===== src/QuadKey/Unify/Covers.antt =====
-- The keys that `unifyQuadkeys2` returns cover the same tiles as the ones it is given.
use s_ldm.Common.{
  ℕ, zero, suc, ◌+◌, ◌≡◌, refl, sym, ◌∙◌, Bool, true, false, ◌||◌, List, [], ◌∷◌, ◌++◌, Option,
  none, some, arith, ◌<◌, ◌≤◌, Bool-cases, Option-cases, inl, inr, length, drop, get_elem?, All,
  length-append, ap, ap₂,
}
use s_ldm.Numeral.{Text, same_text}
use s_ldm.Common.Partial.{Yields, Yields-map, Yields-bind, Yields-imp, Yields-some}
use s_ldm.QuadKey.Keys.{is_prefix, covers, same_text_eq}
use s_ldm.QuadKey.Unify.{
  main_part, back, and_then, ends_in, is_sibling, has_room, is_block, unify_round, unify_levels,
  less, insert_sorted, sort, is_shorter, unify_quadkeys2,
}

-- the digits of a quadkey
unfoldable pub IsDigits : Text → Type 0
IsDigits t = All (λ c. (b'0' ≤ c) × (c ≤ b'3')) t

-- no key is longer than the tile's
unfoldable pub AreShort : Text → List Text → Type 0
AreShort t ks = All (λ k. length k ≤ length t) ks

-- a tile is one of the four parts of a larger one
is_prefix-parts :
    (m t : Text)
    → IsDigits t
    → length m < length t
    → is_prefix m t ≡ (
        is_prefix (m ++ b'0' ∷ []) t
        || (is_prefix (m ++ b'1' ∷ []) t
            || (is_prefix (m ++ b'2' ∷ []) t || is_prefix (m ++ b'3' ∷ []) t)))
unfolding is_prefix IsDigits
is_prefix-parts m [] d h = absurd (omega arith)
is_prefix-parts [] (c ∷ t) ((a, b), d) h = ground arith
is_prefix-parts (e ∷ m) (c ∷ t) (x, d) h = ground (arith, is_prefix-parts m t d)

main_part-back : (k : Text) (c : ℕ) → back k ≡ some c → k ≡ main_part k ++ c ∷ []
unfolding main_part back
main_part-back [] c h = absurd (ground arith)
main_part-back (d ∷ []) c h = ground arith
main_part-back (d ∷ e ∷ k) c h = cc (main_part-back (e ∷ k) c h)

ends_in-true : (digit : ℕ) (k : Text) → ends_in digit k ≡ some true → k ≡ main_part k ++ digit ∷ []
unfolding ends_in
ends_in-true digit k h = elim (Option-cases (back k)) [
  | inl e ↦ absurd (ground arith)
  | inr (c, e) ↦ let same : c ≡ digit = ground arith in rw (← same) (main_part-back k c e)
]

and_then-true : (a b : Option Bool) → and_then a b ≡ some true → (a ≡ some true) × (b ≡ some true)
unfolding and_then
and_then-true none b h = absurd (ground arith)
and_then-true (some true) b h = (refl, h)
and_then-true (some false) b h = absurd (ground arith)

is_sibling-true :
    (k : Text) (ks : List Text) (j digit : ℕ)
    → is_sibling k ks j digit ≡ some true
    → get_elem? ks j ≡ some (main_part k ++ digit ∷ [])
unfolding is_sibling
is_sibling-true k ks j digit h = elim (Option-cases (get_elem? ks j)) [
  | inl e ↦ absurd (ground arith)
  | inr (q, e) ↦
      let (same, last) =
        and_then-true (some (same_text (main_part k) (main_part q))) (ends_in digit q)
          (rw (is_sibling, e) at h) in
      let eq = same_text_eq (main_part k) (main_part q) (ground arith) in
      e ∙ ap some (rw eq (ends_in-true digit q last))
]

first_three :
    (ks : List Text) (a b c : Text)
    → get_elem? ks 0 ≡ some a
    → get_elem? ks 1 ≡ some b
    → get_elem? ks 2 ≡ some c
    → (rest : List Text) × (ks ≡ a ∷ b ∷ c ∷ rest)
first_three [] a b c x y z = absurd (ground arith)
first_three (_ ∷ []) a b c x y z = absurd (ground arith)
first_three (_ ∷ _ ∷ []) a b c x y z = absurd (ground arith)
first_three (p ∷ q ∷ r ∷ ks) a b c x y z = (ks, ground arith)

-- the block that is merged
is_block-true :
    (size : ℕ) (k : Text) (ks : List Text)
    → is_block size k ks ≡ some true
    → (k ≡ main_part k ++ b'0' ∷ [])
      × ((rest : List Text) × (ks
            ≡ (main_part k ++ b'1' ∷ [])
              ∷ (main_part k ++ b'2' ∷ [])
              ∷ (main_part k ++ b'3' ∷ [])
              ∷ rest))
unfolding is_block
is_block-true size k ks h =
    let (room, h1) = and_then-true (some (has_room size (k ∷ ks))) _ h in
    let (zeroth, h2) = and_then-true (ends_in b'0' k) _ h1 in
    let (first, h3) = and_then-true (is_sibling k ks 0 b'1') _ h2 in
    let (second, third) = and_then-true (is_sibling k ks 1 b'2') (is_sibling k ks 2 b'3') h3 in
    (
      ends_in-true b'0' k zeroth,
      first_three ks _ _ _ (is_sibling-true k ks 0 b'1' first) (is_sibling-true k ks 1 b'2' second)
          (is_sibling-true k ks 2 b'3' third),
    )

four_parts :
    (m a b c d rest : Bool)
    → m ≡ (a || (b || (c || d)))
    → (m || rest) ≡ (a || (b || (c || (d || rest))))
four_parts m a b c d rest h = ground arith

-- the vectors cover the same tiles
module _ (t : Text) (digits : IsDigits t) where
  pub record IsSame (ks r : List Text) : Type 0 where
    pub same : covers r t ≡ covers ks t
    pub short : AreShort t r

  covers-block :
      (k : Text) (ks rest : List Text)
      → k ≡ main_part k ++ b'0' ∷ []
      → ks
        ≡ (main_part k ++ b'1' ∷ [])
          ∷ (main_part k ++ b'2' ∷ [])
          ∷ (main_part k ++ b'3' ∷ [])
          ∷ rest
      → length k ≤ length t
      → (covers (main_part k ∷ rest) t ≡ covers (k ∷ ks) t) × (length (main_part k) < length t)
  unfolding covers
  covers-block k ks rest e f l =
      let m = main_part k in
      let size : length k ≡ length m + 1 = ap length e ∙ length-append m (b'0' ∷ []) in
      let parts = is_prefix-parts m t digits (omega arith) in
      (
        four_parts (is_prefix m t) (is_prefix (m ++ b'0' ∷ []) t) (is_prefix (m ++ b'1' ∷ []) t)
              (is_prefix (m ++ b'2' ∷ []) t) (is_prefix (m ++ b'3' ∷ []) t) (covers rest t) parts
            ∙ sym (ap (λ u. covers u t) (ap₂ (λ x y. x ∷ y) e f)),
        omega arith,
      )

  -- a round, on what is left behind the keys to jump over
  unify_round-IsSame :
      (size skip : ℕ) (ks : List Text)
      → AreShort t ks
      → Yields (λ (s : Bool × List Text). IsSame (drop skip ks) s.1) (unify_round size skip ks)
  unfolding unify_round AreShort covers
  unify_round-IsSame size zero [] short = record { same = refl; short = tt }
  unify_round-IsSame size (suc skip) [] short = record { same = refl; short = tt }
  unify_round-IsSame size (suc skip) (k ∷ ks) (s, short) = unify_round-IsSame size skip ks short
  unify_round-IsSame size zero (k ∷ ks) (s, short) = elim (Option-cases (is_block size k ks)) [
    | inl e ↦ rw e tt
    | inr (true, e) ↦
        let (zeroth, (rest, others)) = is_block-true size k ks e in
        let (tiles, l) = covers-block k ks rest zeroth others s in
        rw e (
          Yields-map _ _ _ (unify_round size 3 ks) (unify_round-IsSame size 3 ks short) λ r i.
            record {
              same =
                  ap (λ b. is_prefix (main_part k) t || b)
                    (i.same ∙ ap (λ u. covers (drop 3 u) t) others)
                  ∙ tiles;
              short = (omega arith, i.short);
            })
    | inr (false, e) ↦ rw e (
        Yields-map _ _ _ (unify_round size 0 ks) (unify_round-IsSame size 0 ks short)
          λ r i. record { same = ap (λ b. is_prefix k t || b) i.same; short = (s, i.short) })
  ]

  unify_levels-IsSame :
      (n : ℕ) (ks : List Text) → AreShort t ks → Yields (IsSame ks) (unify_levels n ks)
  unfolding unify_levels
  unify_levels-IsSame zero ks short = record { same = refl; short = short }
  unify_levels-IsSame (suc n) ks short =
      Yields-bind _ _ _ (unify_round (length ks) 0 ks) (unify_round-IsSame (length ks) 0 ks short)
        λ a i. elim (Bool-cases a.0) [
          | inl e ↦
              let rest = unify_levels-IsSame n a.1 i.short in
              rw e (
                Yields-imp _ _ (unify_levels n a.1) rest
                  λ r j. record { same = j.same ∙ i.same; short = j.short })
          | inr e ↦ rw e (record { same = refl; short = short })
        ]

  insert_sorted-IsSame :
      (before : Text → Text → Bool) (k : Text) (ks : List Text)
      → AreShort t (k ∷ ks)
      → IsSame (k ∷ ks) (insert_sorted before k ks)
  unfolding insert_sorted covers AreShort
  insert_sorted-IsSame before k [] short = record { same = refl; short = short }
  insert_sorted-IsSame before k (j ∷ ks) (s, (s', short)) =
      let i = insert_sorted-IsSame before k ks (s, short) in
      elim (Bool-cases (before j k)) [
        | inl e ↦ rw e (record { same = ground (arith, i.same); short = (s', i.short) })
        | inr e ↦ rw e (record { same = refl; short = (s, (s', short)) })
      ]

  sort-IsSame :
      (before : Text → Text → Bool) (ks : List Text) → AreShort t ks → IsSame ks (sort before ks)
  unfolding sort covers AreShort
  sort-IsSame before [] short = record { same = refl; short = short }
  sort-IsSame before (k ∷ ks) (s, short) =
      let i = sort-IsSame before ks short in
      let j = insert_sorted-IsSame before k (sort before ks) (s, i.short) in
      record { same = j.same ∙ ap (λ b. is_prefix k t || b) i.same; short = j.short }

pub unify_quadkeys2-IsSame :
    (level_of_detail : ℕ) (ks r : List Text) (t : Text) (digits : IsDigits t)
    → AreShort t ks
    → unify_quadkeys2 level_of_detail ks ≡ some r
    → IsSame t digits ks r
unfolding unify_quadkeys2
unify_quadkeys2-IsSame level_of_detail ks r t digits short h =
    let i = sort-IsSame t digits less ks short in
    let levels = unify_levels-IsSame t digits level_of_detail (sort less ks) i.short in
    let result = Yields-map _ (IsSame t digits ks) (sort is_shorter) _ levels λ u j.
      let s = sort-IsSame t digits is_shorter u j.short in
      record { same = s.same ∙ j.same ∙ i.same; short = s.short } in
    Yields-some (IsSame t digits ks) _ r result h

-- The filter of `unifyQuadkeys2` lets the vehicles of the same tiles through as the one of the keys
-- it is given: a quadkey of digits that is at least as long as each of the keys is covered by what
-- the function returns exactly when it is covered by the keys.
pub unify_quadkeys2-covers :
    (level_of_detail : ℕ) (ks r : List Text) (t : Text)
    → IsDigits t
    → AreShort t ks
    → unify_quadkeys2 level_of_detail ks ≡ some r
    → covers r t ≡ covers ks t
unify_quadkeys2-covers level_of_detail ks r t digits short h =
    (unify_quadkeys2-IsSame level_of_detail ks r t digits short h).same
