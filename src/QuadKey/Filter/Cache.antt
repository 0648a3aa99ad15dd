-- ===== src/QuadKey/Filter/Cache.antt =====
-- The cache file `cachefile.sldmc`.
use s_ldm.Common.{
  ℕ, ◌≡◌, ◌≢◌, refl, sym, ap, Bool, true, false, List, [], ◌∷◌, ◌++◌, none, some, arith,
  Option-cases, inl, inr, subst,
}
use s_ldm.Common.Partial.{some_injective}
use s_ldm.Double.{Double}
use s_ldm.Numeral.{Text}
use s_ldm.QuadKey.Filter.{
  Area, Decimal, FilterResult, doublecomp, line_value, is_cached, area_lines, add_clauses,
  compute_quadkeys, new_filter, get_quadkey_filter,
}
use s_ldm.QuadKey.Tile.{QuadKeyTs, Projection}

module _ {D : Type 0} ⦃dbl : Double D⦄ ⦃dec : Decimal D⦄ where
  -- Reading back the six decimals of a number gives one that `doublecomp` takes for the same.
  abbrev pub IsReadBack : D → Type 0
  IsReadBack x = (y : D) × (dec.stod (dec.show_fixed x) ≡ some y) × (doublecomp y x ≡ true)

  pub record AreReadBack (a : Area D) : Type 0 where
    pub min_latitude : IsReadBack a.min_latitude
    pub max_latitude : IsReadBack a.max_latitude
    pub min_longitude : IsReadBack a.min_longitude
    pub max_longitude : IsReadBack a.max_longitude

  area_lines-cached :
      (a : Area D) (k : Text) (ks : List Text)
      → AreReadBack a
      → is_cached (area_lines a ++ k ∷ ks) a ≡ some true
  unfolding is_cached area_lines line_value
  area_lines-cached a k ks r =
      let (y0, e0, d0) = r.min_latitude in
      let (y1, e1, d1) = r.max_latitude in
      let (y2, e2, d2) = r.min_longitude in
      let (y3, e3, d3) = r.max_longitude in rw (e0, e1, e2, e3, d0, d1, d2, d3) (ground arith)

  module _ ⦃proj : Projection D⦄ where
    -- A filter that is not empty is found again in the cache file that its computation writes: the
    -- next call for the same area gives the same filter, says that it comes from the file, and
    -- leaves the file as it is. This holds whatever the level of detail is by then.
    pub get_quadkey_filter-again :
        (fuel fuel' : ℕ) (q q' : QuadKeyTs D) (writable' : Bool) (a : Area D) (r : FilterResult)
        → AreReadBack a
        → get_quadkey_filter fuel q true none a ≡ some r
        → r.filter ≢ []
        → get_quadkey_filter fuel' q' writable' r.cache_file a
          ≡ some (record r { cache_file_found = true })
    unfolding get_quadkey_filter new_filter add_clauses
    get_quadkey_filter-again fuel fuel' q q' writable' a r b h n =
        elim (Option-cases (compute_quadkeys fuel q a)) [
          | inl e ↦ absurd (ground arith)
          | inr ([], e) ↦
              let same = some_injective (computed []) r (rw e at h) in
              absurd (n (sym (ap (λ s. s.filter) same)))
          | inr (k ∷ ks, e) ↦
              let same = some_injective (computed (k ∷ ks)) r (rw e at h) in
              subst
                (λ s.
                  get_quadkey_filter fuel' q' writable' s.cache_file a
                  ≡ some (record s { cache_file_found = true }))
                same (rw (area_lines-cached a k ks b) refl)
        ]
      where
        computed : List Text → FilterResult
        computed ks = record {
          filter = add_clauses ks [];
          cache_file_found = false;
          cache_file = some (area_lines a ++ ks);
        }
