-- ===== src/QuadKey/Unify/Throws.antt =====
-- When `unifyQuadkeys2` throws: `quadKeys.size() - 4` is a subtraction of unsigned numbers.
use s_ldm.Common.{
  ℕ, zero, suc, ◌+◌, ◌-◌, ◌%◌, ◌^◌, ◌≡◌, refl, Bool, true, false, ◌||◌, List, [], ◌∷◌, ◌++◌, Option,
  none, some, ◌==◌, ap, ltb, leb, arith, ◌<◌, ◌≤◌, ◌⊎◌, Bool-cases, inl, inr, length, get_elem?,
  All,
}
use s_ldm.Numeral.{Text, same_text}
use s_ldm.QuadKey.Keys.{same_text_refl}
use s_ldm.QuadKey.Unify.{
  main_part, back, and_then, ends_in, is_sibling, has_room, is_block, unify_round, unify_levels,
  less, insert_sorted, sort, unify_quadkeys2,
}

-- every key has at least so many characters
unfoldable pub AreLong : ℕ → List Text → Type 0
AreLong n ks = All (λ k. n ≤ length k) ks

-- whether some key ends in the digit 0
unfoldable pub has_zero : List Text → Bool
has_zero [] = false
has_zero (k ∷ ks) = (elim (ends_in b'0' k) [ some b ↦ b | none ↦ false ]) || has_zero ks

ends_in-some : (digit : ℕ) (k : Text) → 0 < length k → (b : Bool) × (ends_in digit k ≡ some b)
unfolding ends_in back
ends_in-some digit [] h = absurd (omega arith)
ends_in-some digit (c ∷ []) h = (c == digit, refl)
ends_in-some digit (c ∷ d ∷ k) h = ends_in-some digit (d ∷ k) (omega arith)

and_then-some :
    (a b : Option Bool)
    → (x : Bool) × (a ≡ some x)
    → (a ≡ some true → (y : Bool) × (b ≡ some y))
    → (z : Bool) × (and_then a b ≡ some z)
unfolding and_then
and_then-some none b (x, e) h = absurd (ground arith)
and_then-some (some true) b p h = h refl
and_then-some (some false) b p h = (false, refl)

is_sibling-some :
    (k : Text) (ks : List Text) (j digit : ℕ)
    → AreLong 1 ks
    → j < length ks
    → (b : Bool) × (is_sibling k ks j digit ≡ some b)
unfolding is_sibling AreLong
is_sibling-some k [] j digit h l = absurd (omega arith)
is_sibling-some k (q ∷ ks) zero digit (h, _) l =
    and_then-some (some (same_text (main_part k) (main_part q))) (ends_in digit q) (_, refl)
      λ _. ends_in-some digit q h
is_sibling-some k (q ∷ ks) (suc j) digit (_, h) l = is_sibling-some k ks j digit h (omega arith)

-- with four keys or more, the subtraction does not wrap
has_room-length :
    (size : ℕ) (ks : List Text)
    → 4 ≤ size
    → size < 2 ^ 64
    → length ks ≤ size
    → has_room size ks ≡ true
    → 4 ≤ length ks
unfolding has_room
has_room-length size ks a b c h =
    let wrapped : (size + (2 ^ 64 - 4)) % 2 ^ 64 ≡ size - 4 = omega arith in
    omega (arith, rw wrapped at (leb_le h))
  where
    leb_le : {x y : ℕ} → leb x y ≡ true → x ≤ y
    leb_le e = ground arith

without_head :
    {A : Type 0} (k : Text) (ks : List Text)
    → A ⊎ (has_zero (k ∷ ks) ≡ false)
    → A ⊎ (has_zero ks ≡ false)
unfolding has_zero
without_head k ks (inl a) = inl a
without_head k ks (inr e) = inr (ground arith)

module _ (size : ℕ) (fits : size < 2 ^ 64) where
  -- the condition of the loop does not throw
  is_block-some :
      (k : Text) (ks : List Text)
      → AreLong 1 (k ∷ ks)
      → length (k ∷ ks) ≤ size
      → (4 ≤ size) ⊎ (has_zero (k ∷ ks) ≡ false)
      → (b : Bool) × (is_block size k ks ≡ some b)
  unfolding is_block AreLong has_zero
  is_block-some k ks (h, hs) l (inl four) =
      and_then-some (some (has_room size (k ∷ ks))) _ (_, refl)
        λ room.
          let long = has_room-length size (k ∷ ks) four fits l (ground arith) in
          let sibling : (j digit : ℕ) → j < 3 → (b : Bool) × (is_sibling k ks j digit ≡ some b) =
            λ j digit p. is_sibling-some k ks j digit hs (omega arith) in
          and_then-some (ends_in b'0' k) _ (ends_in-some b'0' k h) λ _.
            and_then-some (is_sibling k ks 0 b'1') _ (sibling 0 b'1' (omega arith)) λ _.
              and_then-some (is_sibling k ks 1 b'2') _ (sibling 1 b'2' (omega arith))
                λ _. sibling 2 b'3' (omega arith)
  is_block-some k ks (h, hs) l (inr none_zero) =
      and_then-some (some (has_room size (k ∷ ks))) _ (_, refl)
        λ _.
          let (b, e) = ends_in-some b'0' k h in
          and_then-some (ends_in b'0' k) _ (b, e) λ t. absurd (ground arith)

  -- a round returns, on any part of the vector
  pub unify_round-some :
      (skip : ℕ) (ks : List Text)
      → AreLong 1 ks
      → length ks ≤ size
      → (4 ≤ size) ⊎ (has_zero ks ≡ false)
      → (s : Bool × List Text) × (unify_round size skip ks ≡ some s)
  unfolding unify_round AreLong
  unify_round-some skip [] h l c = (_, refl)
  unify_round-some (suc skip) (k ∷ ks) (h, hs) l c =
      unify_round-some skip ks hs (omega arith) (without_head k ks c)
  unify_round-some zero (k ∷ ks) (h, hs) l c =
      let (b, e) = is_block-some k ks (h, hs) l c in
      let (m, f) = unify_round-some 3 ks hs (omega arith) (without_head k ks c) in
      let (u, g) = unify_round-some 0 ks hs (omega arith) (without_head k ks c) in
      elim (Bool-cases b) [ inl t ↦ rw (e, t, f) (_, refl) | inr t ↦ rw (e, t, g) (_, refl) ]

module _ (m : Text) (c : ℕ) where
  back-append : back (m ++ c ∷ []) ≡ some c
  unfolding back
  back-append = last m
    where
      last : (m : Text) → back (m ++ c ∷ []) ≡ some c
      last [] = refl
      last (d ∷ []) = refl
      last (d ∷ e ∷ m) = last (e ∷ m)

  main_part-append : main_part (m ++ c ∷ []) ≡ m
  unfolding main_part
  main_part-append = first m
    where
      first : (m : Text) → main_part (m ++ c ∷ []) ≡ m
      first [] = refl
      first (d ∷ []) = refl
      first (d ∷ e ∷ m) = ap (λ u. d ∷ u) (first (e ∷ m))

less-append_not : (m : Text) (c d : ℕ) → ltb c d ≡ true → less (m ++ d ∷ []) (m ++ c ∷ []) ≡ false
unfolding less
less-append_not [] c d h = ground arith
less-append_not (e ∷ m) c d h = ground (arith, less-append_not m c d h)

is_sibling-append :
    (m : Text) (c d : ℕ) (ks : List Text) (j : ℕ)
    → get_elem? ks j ≡ some (m ++ d ∷ [])
    → is_sibling (m ++ c ∷ []) ks j d ≡ some true
unfolding is_sibling and_then ends_in
is_sibling-append m c d ks j e =
    rw (is_sibling, e, main_part-append m c, main_part-append m d, back-append, same_text_refl)
      (ground arith)

single_throws : (m : Text) → unify_round 1 0 ((m ++ b'0' ∷ []) ∷ []) ≡ none
unfolding unify_round is_block has_room and_then is_sibling ends_in
single_throws m = rw back-append refl

block_merges :
    (m : Text)
    → unify_round 4 0
        ((m ++ b'0' ∷ []) ∷ (m ++ b'1' ∷ []) ∷ (m ++ b'2' ∷ []) ∷ (m ++ b'3' ∷ []) ∷ [])
      ≡ some (true, m ∷ [])
unfolding unify_round is_block has_room and_then ends_in
block_merges m =
    let next = λ (d : ℕ). is_sibling-append m b'0' d in
    rw
      (
        back-append,
        next b'1' _ 0 refl,
        next b'2' _ 1 refl,
        next b'3' _ 2 refl,
        main_part-append m b'0',
      )
      refl

sort_block :
    (m : Text)
    → let ks = (m ++ b'0' ∷ []) ∷ (m ++ b'1' ∷ []) ∷ (m ++ b'2' ∷ []) ∷ (m ++ b'3' ∷ []) ∷ [] in
      sort less ks ≡ ks
unfolding sort insert_sorted
sort_block m =
    let apart = less-append_not m in
    rw (apart b'2' b'3' refl, apart b'1' b'2' refl, apart b'0' b'1' refl) refl

-- The filter of a small area cannot be set up: on a single quadkey that ends in the digit 0, and on
-- the four parts of such a tile, `unifyQuadkeys2` throws at any level of detail above 1.
pub unify_quadkeys2-throws :
    (level_of_detail : ℕ) (k : Text)
    → let q = k ++ b'0' ∷ [] in
      (unify_quadkeys2 (suc level_of_detail) (q ∷ []) ≡ none)
      × (unify_quadkeys2
            (suc (suc level_of_detail))
            ((q ++ b'0' ∷ []) ∷ (q ++ b'1' ∷ []) ∷ (q ++ b'2' ∷ []) ∷ (q ++ b'3' ∷ []) ∷ [])
          ≡ none)
unfolding unify_quadkeys2 unify_levels unify_round sort insert_sorted
unify_quadkeys2-throws level_of_detail k = (
  rw (single_throws k) refl,
  rw (sort_block (k ++ b'0' ∷ []), block_merges (k ++ b'0' ∷ []), single_throws k) refl,
)
