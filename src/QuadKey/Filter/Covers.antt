-- ===== src/QuadKey/Filter/Covers.antt =====
-- The quadkeys of an area, from the scan of its positions to the ones in the filter.
use s_ldm.Common.{
  ℕ, zero, suc, ◌+◌, ◌≡◌, ◌∙◌, true, List, [], ◌∷◌, ◌++◌, some, arith, ◌<◌, Bool-cases,
  Option-cases, inl, inr, length, get_elem?, subst,
}
use s_ldm.Common.Partial.{some_injective}
use s_ldm.Double.{Double}
use s_ldm.Numeral.{Text, same_text}
use s_ldm.QuadKey.Dimension.Rounds.{AreWithin}
use s_ldm.QuadKey.Dimension.Short.{
  checkdim-covers, IsDistinct-count, IsDistinct-count_rev, count-AreWithin,
}
use s_ldm.QuadKey.Distinct.{remove_duplicates-IsDistinct}
use s_ldm.QuadKey.Filter.{Area, consolidate, compute_quadkeys}
use s_ldm.QuadKey.Keys.{covers, count, covers-count, is_prefix_refl, same_text_refl, same_text_eq}
use s_ldm.QuadKey.Tile.{
  QuadKeyTs, Projection, position_key, lat_lon_to_quadkey, steps, row_keys, scan_keys, round_down,
  round_up, lat_lon_to_quadkey_range,
}
use s_ldm.QuadKey.Tile.Digits.{length-tile_key, tile_key-IsDigits}
use s_ldm.QuadKey.Unify.{unify_quadkeys2}
use s_ldm.QuadKey.Unify.Covers.{IsDigits, AreShort, unify_quadkeys2-IsSame}

count-append : (k : Text) (ks ls : List Text) → count k (ks ++ ls) ≡ count k ks + count k ls
unfolding count
count-append k [] ls = omega arith
count-append k (q ∷ ks) ls = omega (arith, count-append k ks ls)

-- the keys of the level of detail, unified and shortened, cover what they covered
consolidate-covers :
    (n : ℕ) (ks r : List Text) (t : Text)
    → IsDigits t
    → length t ≡ n
    → 1 < n
    → ((k : Text) → 0 < count k ks → length k ≡ n)
    → covers ks t ≡ true
    → consolidate n ks ≡ some r
    → covers r t ≡ true
unfolding consolidate AreShort AreWithin
consolidate-covers n ks r t digits size l sizes c h = elim (Option-cases (unify_quadkeys2 n ks)) [
  | inl e ↦ absurd (ground arith)
  | inr (u, e) ↦
      let short = count-AreWithin (length t) ks (λ k p. omega (arith, sizes k p)) in
      let i = unify_quadkeys2-IsSame n ks u t digits short e in
      checkdim-covers n u r t l (subst (λ m. AreWithin m u) size i.short) (rw e at h) (i.same ∙ c)
]

module _ {D : Type 0} ⦃dbl : Double D⦄ ⦃proj : Projection D⦄ where
  length-position_key : (n : ℕ) (lat lon : D) → length (position_key n lat lon) ≡ n
  unfolding position_key
  length-position_key n lat lon = length-tile_key n _ _

  position_key-IsDigits : (n : ℕ) (lat lon : D) → IsDigits (position_key n lat lon)
  unfolding position_key
  position_key-IsDigits n lat lon = tile_key-IsDigits n _ _

  -- a position of the scan is among the keys
  count-row_keys :
      (n : ℕ) (lat lon : D) (lons : List D) (j : ℕ)
      → get_elem? lons j ≡ some lon
      → 0 < count (position_key n lat lon) (row_keys n lat lons)
  unfolding row_keys count
  count-row_keys n lat lon [] j h = absurd (ground arith)
  count-row_keys n lat lon (x ∷ lons) zero h =
      let same : x ≡ lon = some_injective x lon h in rw (same, same_text_refl) (omega arith)
  count-row_keys n lat lon (x ∷ lons) (suc j) h = omega (arith, count-row_keys n lat lon lons j h)

  count-scan_keys :
      (n : ℕ) (lat lon : D) (lats lons : List D) (i j : ℕ)
      → get_elem? lats i ≡ some lat
      → get_elem? lons j ≡ some lon
      → 0 < count (position_key n lat lon) (scan_keys n lats lons)
  unfolding scan_keys
  count-scan_keys n lat lon [] lons i j g h = absurd (ground arith)
  count-scan_keys n lat lon (x ∷ lats) lons zero j g h =
      let same : x ≡ lat = some_injective x lat g in
      rw (same, count-append) (omega (arith, count-row_keys n lat lon lons j h))
  count-scan_keys n lat lon (x ∷ lats) lons (suc i) j g h =
      rw count-append (omega (arith, count-scan_keys n lat lon lats lons i j g h))

  -- every key of the scan has as many characters as the level of detail
  length-row_keys :
      (n : ℕ) (lat : D) (lons : List D) (k : Text)
      → 0 < count k (row_keys n lat lons)
      → length k ≡ n
  unfolding row_keys count
  length-row_keys n lat [] k h = absurd (omega arith)
  length-row_keys n lat (x ∷ lons) k h = elim (Bool-cases (same_text k (position_key n lat x))) [
    | inl e ↦ rw (same_text_eq k (position_key n lat x) e) (length-position_key n lat x)
    | inr e ↦ length-row_keys n lat lons k (ground arith)
  ]

  length-scan_keys :
      (n : ℕ) (lats lons : List D) (k : Text) → 0 < count k (scan_keys n lats lons) → length k ≡ n
  unfolding scan_keys count
  length-scan_keys n [] lons k h = absurd (omega arith)
  length-scan_keys n (x ∷ lats) lons k h = ground (
    arith,
    count-append k (row_keys n x lons) (scan_keys n lats lons),
    length-row_keys n x lons k,
    length-scan_keys n lats lons k,
  )

  -- Where the computation of the quadkeys of an area returns, at a level of detail of 2 at least, the
  -- keys of the filter cover the quadkey of each position that is in the same tile as a position that
  -- the scan of the area visits; removing duplicates, unifying and shortening lose none of these
  -- tiles. Which tiles of the area the steps of the scan visit is no part of this.
  pub compute_quadkeys-covers :
      (fuel : ℕ) (q : QuadKeyTs D) (a : Area D) (r : List Text) (lats lons : List D) (i j : ℕ)
      (lat lon lat' lon' : D)
      → 1 < q.level_of_detail
      → steps fuel q.latlon_variation (round_up a.max_latitude) (round_down a.min_latitude)
        ≡ some lats
      → steps fuel q.latlon_variation (round_up a.max_longitude) (round_down a.min_longitude)
        ≡ some lons
      → get_elem? lats i ≡ some lat
      → get_elem? lons j ≡ some lon
      → lat_lon_to_quadkey q lat' lon' ≡ lat_lon_to_quadkey q lat lon
      → compute_quadkeys fuel q a ≡ some r
      → covers r (lat_lon_to_quadkey q lat' lon') ≡ true
  unfolding compute_quadkeys lat_lon_to_quadkey lat_lon_to_quadkey_range
  compute_quadkeys-covers fuel q a r lats lons i j lat lon lat' lon' l e f g h same c =
      let n = q.level_of_detail in
      let t = position_key n lat lon in
      let scan = scan_keys n lats lons in
      let (range, m, d) = remove_duplicates-IsDistinct scan in
      let found : 0 < count t range =
        IsDistinct-count_rev scan range d t (count-scan_keys n lat lon lats lons i j g h) in
      let sizes : (k : Text) → 0 < count k range → length k ≡ n =
        λ k p. length-scan_keys n lats lons k (IsDistinct-count scan range d k p) in
      rw same (
        consolidate-covers n range r t (position_key-IsDigits n lat lon)
          (length-position_key n lat lon) l sizes (covers-count t range t (is_prefix_refl t) found)
          (rw (e, f, m) at c))
