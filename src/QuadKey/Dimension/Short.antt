-- ===== src/QuadKey/Dimension/Short.antt =====
-- The loop of `checkdim` ends, with a filter that is short enough and covers what it covered.
use s_ldm.Common.{
  ℕ, zero, suc, ◌+◌, ◌≡◌, refl, true, false, List, [], ◌∷◌, some, ltb, sym, ◌∙◌, arith, ◌<◌, ◌≤◌,
  ◌⊎◌, Bool-cases, inl, inr, length,
}
use s_ldm.Numeral.{Text, same_text}
use s_ldm.QuadKey.Dimension.{dimension, is_too_long, shorten_one, shorten, checkdim}
use s_ldm.QuadKey.Dimension.Rounds.{AreWithin, shorten_one-IsRound}
use s_ldm.QuadKey.Distinct.{IsDistinct, remove_duplicates-IsDistinct}
use s_ldm.QuadKey.Keys.{covers, count, chars, covers_mono, same_text_refl, same_text_eq}

pub record IsShortened (ks r : List Text) : Type 0 where
  pub short : is_too_long (dimension r) ≡ false
  pub covered : (t : Text) → covers ks t ≡ true → covers r t ≡ true

AreWithin-count :
    (l : ℕ) (ks : List Text) (k : Text) → AreWithin l ks → 0 < count k ks → length k ≤ l
unfolding AreWithin count
AreWithin-count l [] k w h = absurd (omega arith)
AreWithin-count l (q ∷ ks) k (w, ws) h = elim (Bool-cases (same_text k q)) [
  | inl e ↦ rw (same_text_eq k q e) w
  | inr e ↦ ground (arith, AreWithin-count l ks k ws)
]

pub count-AreWithin :
    (l : ℕ) (ks : List Text) → ((k : Text) → 0 < count k ks → length k ≤ l) → AreWithin l ks
unfolding AreWithin count
count-AreWithin l [] h = tt
count-AreWithin l (k ∷ ks) h =
    (h k (rw (same_text_refl k) (omega arith)), count-AreWithin l ks λ q c. h q (omega arith))

-- what the removal of the repeated keys keeps
module _ (ks r : List Text) (d : IsDistinct ks r) where
  pub IsDistinct-count : (k : Text) → 0 < count k r → 0 < count k ks
  unfolding IsDistinct
  IsDistinct-count k h = let e = d.0 k in ground arith

  pub IsDistinct-count_rev : (k : Text) → 0 < count k ks → 0 < count k r
  unfolding IsDistinct
  IsDistinct-count_rev k h = let e = d.0 k in ground arith

  IsDistinct-once : (k : Text) → count k r ≤ 1
  unfolding IsDistinct
  IsDistinct-once k = let e = d.0 k in ground arith

  IsDistinct-chars : chars r ≤ chars ks
  unfolding IsDistinct
  IsDistinct-chars = d.1

  IsDistinct-AreWithin : (l : ℕ) → AreWithin l ks → AreWithin l r
  IsDistinct-AreWithin l w =
      count-AreWithin l r λ k c. AreWithin-count l ks k w (IsDistinct-count k c)

shorten_lem :
    (fuel l : ℕ) (ks : List Text)
    → chars ks + l < fuel
    → 0 < l
    → AreWithin l ks
    → (1 < l) ⊎ (count [] ks ≤ 1)
    → (r : List Text) × (shorten fuel l ks ≡ some r) × IsShortened ks r
unfolding shorten
shorten_lem zero l ks f p w c = absurd (omega arith)
shorten_lem (suc fuel) l ks f p w c = elim (Bool-cases (is_too_long (dimension ks))) [
  | inr e ↦ rw (shorten, e) (ks, refl, record { short = e; covered = λ t h. h })
  | inl e ↦
      let round = shorten_one-IsRound l ks p w c e in
      let l' = (shorten_one l ks).0 in
      let vf = (shorten_one l ks).1 in
      let go_on : ltb l' 1 ≡ false = ground (arith, round.goes_on) in
      let (u, g, d) = remove_duplicates-IsDistinct vf in
      let (r, h, s) =
        shorten_lem fuel l' u (omega (arith, round.less, IsDistinct-chars vf u d)) round.goes_on
          (IsDistinct-AreWithin vf u d l' round.within) (inr (IsDistinct-once vf u d [])) in
      rw (shorten, e, go_on, g)
        (
          r,
          h,
          record {
            short = s.short;
            covered = λ t b.
                s.covered t (covers_mono t vf u (IsDistinct-count_rev vf u d) (round.covered t b));
          },
        )
]

-- `checkdim` ends. At a level of detail of 2 at least (`setLevelOfDetail` sets 14 to 18), on keys
-- that are not longer than that level, the keys it leaves pass its test of the length of the filter.
pub checkdim_ends :
    (level_of_detail : ℕ) (ks : List Text)
    → 1 < level_of_detail
    → AreWithin level_of_detail ks
    → (r : List Text) × (checkdim level_of_detail ks ≡ some r) × (is_too_long (dimension r) ≡ false)
unfolding checkdim
checkdim_ends level_of_detail ks h w =
    let fuel = chars ks + level_of_detail + 1 in
    let (r, e, s) = shorten_lem fuel level_of_detail ks (omega arith) (omega arith) w (inl h) in
    (r, e, s.short)

-- `checkdim` loses no tile: under the same conditions, what it leaves covers each tile that the
-- given keys cover.
pub checkdim-covers :
    (level_of_detail : ℕ) (ks r : List Text) (t : Text)
    → 1 < level_of_detail
    → AreWithin level_of_detail ks
    → checkdim level_of_detail ks ≡ some r
    → covers ks t ≡ true
    → covers r t ≡ true
unfolding checkdim
checkdim-covers level_of_detail ks r t h w e c =
    let fuel = chars ks + level_of_detail + 1 in
    let (u, f, s) = shorten_lem fuel level_of_detail ks (omega arith) (omega arith) w (inl h) in
    let both : some u ≡ some r = sym f ∙ e in
    let same : u ≡ r = ground arith in rw (← same) (s.covered t c)
