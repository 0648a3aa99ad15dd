-- ===== src/QuadKey/Filter.antt =====
-- src/QuadKeyTS.cpp, `QuadKeyTS::getQuadKeyFilter`: the text of the filter for the broker, and the
-- file `cachefile.sldmc` with the quadkeys of the last area.
pub mod Clauses
pub mod Cache
pub mod Covers
use s_ldm.Common.{
  ℕ, zero, suc, ◌+◌, ◌-◌, Bool, true, false, ◌&&◌, List, [], ◌∷◌, ◌++◌, Option, none, some, ltb,
  if◌then◌else◌, length, drop, get_elem?,
}
use s_ldm.Decoder.Bytes.{◌>>=◌}
use s_ldm.Double.{Double}
use s_ldm.Numeral.{Text}
use s_ldm.Options.{codes}
use s_ldm.QuadKey.Dimension.{checkdim, take_chars}
use s_ldm.QuadKey.Tile.{QuadKeyTs, Projection, lat_lon_to_quadkey_range}
use s_ldm.QuadKey.Unify.{unify_quadkeys2}

-- `std::string::insert` at a position
unfoldable pub insert : ℕ → Text → Text → Text
insert position piece s = take_chars position s ++ piece ++ drop position s

-- the three or four insertions of one round of the loop
unfoldable pub add_clause : (is_last : Bool) → Text → Text → Text
add_clause is_last k s =
    let opened = insert (length s) (codes "quadkeys LIKE ''") s in
    let with_key = insert (length opened - 1) k opened in
    let closed = insert (length with_key - 1) (codes "%") with_key in
    if is_last then closed else insert (length closed) (codes " OR ") closed

-- the loop, from the filter that is there on; `i < quadKeys.size() - 1` is that keys are left
unfoldable pub add_clauses : List Text → Text → Text
add_clauses [] s = s
add_clauses (k ∷ []) s = add_clause true k s
add_clauses (k ∷ l ∷ ks) s = add_clauses (l ∷ ks) (add_clause false k s)

-- what the file needs of the standard library: `std::stod`, whose exception is `none`, and the output
-- with `std::fixed` and six decimals
pub record Decimal (D : Type 0) : Type 0 where
  pub stod : Text → Option D
  pub show_fixed : D → Text

pub record Area (D : Type 0) : Type 0 where
  pub min_latitude : D
  pub max_latitude : D
  pub min_longitude : D
  pub max_longitude : D

pub record FilterResult : Type 0 where
  pub filter : Text
  pub cache_file_found : Bool
  -- the lines of the file afterwards
  pub cache_file : Option (List Text)

unfoldable pub consolidate : (level_of_detail : ℕ) → List Text → Option (List Text)
consolidate level_of_detail range =
    unify_quadkeys2 level_of_detail range >>= checkdim level_of_detail

module _ {D : Type 0} ⦃dbl : Double D⦄ where
  -- the quadkeys of the area
  unfoldable pub compute_quadkeys :
      ⦃proj : Projection D⦄ (fuel : ℕ) → QuadKeyTs D → Area D → Option (List Text)
  unfolding consolidate
  compute_quadkeys fuel q a =
      lat_lon_to_quadkey_range fuel q a.min_latitude a.max_latitude a.min_longitude a.max_longitude
      >>= consolidate q.level_of_detail

  -- `doublecomp` of src/utils.cpp, with its default for `eps`
  unfoldable pub doublecomp : D → D → Bool
  doublecomp d1 d2 = dbl.lt (dbl.fabs (dbl.sub d1 d2)) (dbl.div (dbl.of_ℕ 1) (dbl.of_ℕ 10_000))

  module _ ⦃dec : Decimal D⦄ where
    unfoldable pub line_value : List Text → ℕ → Option D
    line_value lines i = get_elem? lines i >>= dec.stod

    -- whether the file is that of the area; `none` for an exception of `at` or `stod`
    unfoldable pub is_cached : List Text → Area D → Option Bool
    unfolding line_value doublecomp
    is_cached lines a = line_value lines 0 >>= λ min_lat. line_value lines 1 >>= λ max_lat.
        line_value lines 2 >>= λ min_lon. line_value lines 3 >>= λ max_lon. some (
          doublecomp min_lat a.min_latitude
          && doublecomp max_lat a.max_latitude
          && doublecomp min_lon a.min_longitude
          && doublecomp max_lon a.max_longitude
          && ltb 4 (length lines))

    unfoldable pub area_lines : Area D → List Text
    area_lines a =
        dec.show_fixed a.min_latitude
        ∷ dec.show_fixed a.max_latitude
        ∷ dec.show_fixed a.min_longitude
        ∷ dec.show_fixed a.max_longitude
        ∷ []

    module _ ⦃proj : Projection D⦄ where
      -- the branch without a cache file
      unfoldable pub new_filter :
          (fuel : ℕ)
          → QuadKeyTs D
          → (writable : Bool) → Option (List Text)
          → Area D
          → Option FilterResult
      unfolding compute_quadkeys area_lines
      new_filter fuel q writable file a = compute_quadkeys fuel q a >>= λ ks. some (record {
        filter = add_clauses ks [];
        cache_file_found = false;
        cache_file = if writable then some (area_lines a ++ ks) else file;
      })

      -- the whole function, on the lines of the cache file where it can be opened
      unfoldable pub get_quadkey_filter :
          (fuel : ℕ)
          → QuadKeyTs D
          → (writable : Bool) → Option (List Text)
          → Area D
          → Option FilterResult
      unfolding is_cached new_filter
      get_quadkey_filter fuel q writable none a = new_filter fuel q writable none a
      get_quadkey_filter fuel q writable (some lines) a =
          let recomputed = new_filter fuel q writable (some lines) a in
          is_cached lines a >>= λ cached.
          if cached
          then some (record {
            filter = add_clauses (drop 4 lines) [];
            cache_file_found = true;
            cache_file = some lines;
          })
          else recomputed
