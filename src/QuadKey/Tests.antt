-- ===== src/QuadKey/Tests.antt =====
-- The theorems on quadkeys at concrete inputs.
use s_ldm.QuadKey.Tile.{
  Projection, QuadKeyTs, map_size, digit, tile_key, clip, pixel, position_key, lat_lon_to_quadkey,
  steps, row_keys, scan_keys, round_down, round_up, lat_lon_to_quadkey_range,
}
use s_ldm.Common.{
  ℕ, ◌+◌, ◌*◌, ◌^◌, ◌≡◌, ◌<◌, refl, true, false, none, some, List, [], ◌∷◌, ◌++◌, arith, leb,
  length,
}
use s_ldm.Double.{Double}
use s_ldm.Numeral.{Text, same_text}
use s_ldm.Options.{codes}
use s_ldm.QuadKey.Dimension.{checkdim, shorten, dimension, is_too_long, max_length, take_chars}
use s_ldm.QuadKey.Dimension.Rounds.{AreWithin}
use s_ldm.QuadKey.Dimension.Short.{checkdim_ends}
use s_ldm.QuadKey.Distinct.{other_index, remove_equal, remove_duplicates}
use s_ldm.QuadKey.Filter.{
  Area, Decimal, FilterResult, insert, add_clause, add_clauses, doublecomp, consolidate,
  compute_quadkeys, area_lines, new_filter, get_quadkey_filter,
}
use s_ldm.QuadKey.Filter.Cache.{AreReadBack, get_quadkey_filter-again}
use s_ldm.QuadKey.Filter.Clauses.{separated, add_clauses_lem, length-add_clauses}
use s_ldm.QuadKey.Filter.Covers.{compute_quadkeys-covers}
use s_ldm.QuadKey.Keys.{covers, chars}
use s_ldm.QuadKey.Tile.Digits.{key_tile, key_tile-tile_key}
use s_ldm.QuadKey.Unify.{
  main_part, back, and_then, ends_in, is_sibling, has_room, is_block, unify_round, unify_levels,
  less, insert_sorted, sort, is_shorter, unify_quadkeys2,
}
use s_ldm.QuadKey.Unify.Covers.{IsDigits, AreShort, unify_quadkeys2-covers}
use s_ldm.QuadKey.Unify.Throws.{unify_quadkeys2-throws}
use s_ldm.Samples.{nat_double}

-- A projection that puts every position on the tile (1, 1), numbers written as one character, and a
-- comparison that takes a number for equal to itself.
instance abbrev flat : Projection ℕ
flat = record { log = λ x. x; floor = λ x. x; ceil = λ x. x; to_int = λ x. 300 }

-- the four parts of the tile 1
abbrev block : List Text
block = codes "10" ∷ codes "11" ∷ codes "12" ∷ codes "13" ∷ []

block_unified : unify_quadkeys2 2 block ≡ some (codes "1" ∷ [])
unfolding unify_quadkeys2 sort less insert_sorted unify_levels unify_round is_block and_then
    has_room ends_in back is_sibling main_part same_text is_shorter
block_unified = refl

tile-IsDigits : IsDigits (codes "123")
unfolding IsDigits
tile-IsDigits =
    ((omega arith, omega arith), ((omega arith, omega arith), ((omega arith, omega arith), tt)))

block_short : AreShort (codes "123") block
unfolding AreShort
block_short = (omega arith, (omega arith, (omega arith, (omega arith, tt))))

unify_quadkeys2-covers_example : covers (codes "1" ∷ []) (codes "123") ≡ covers block (codes "123")
unify_quadkeys2-covers_example =
    unify_quadkeys2-covers 2 block (codes "1" ∷ []) (codes "123") tile-IsDigits block_short
      block_unified

unify_quadkeys2-throws_example :
    let q = codes "2" ++ b'0' ∷ [] in
    (unify_quadkeys2 16 (q ∷ []) ≡ none)
    × (unify_quadkeys2 17
          ((q ++ b'0' ∷ []) ∷ (q ++ b'1' ∷ []) ∷ (q ++ b'2' ∷ []) ∷ (q ++ b'3' ∷ []) ∷ [])
        ≡ none)
unify_quadkeys2-throws_example = unify_quadkeys2-throws 15 (codes "2")

block_within : AreWithin 2 block
unfolding AreWithin
block_within = (omega arith, (omega arith, (omega arith, (omega arith, tt))))

checkdim_ends_example :
    (r : List Text) × (checkdim 2 block ≡ some r) × (is_too_long (dimension r) ≡ false)
checkdim_ends_example = checkdim_ends 2 block (omega arith) block_within

key_tile-tile_key_example : key_tile 0 0 (tile_key 3 5 2) ≡ (5, 2)
key_tile-tile_key_example = key_tile-tile_key 3 5 2 (omega arith) (omega arith)

add_clauses_lem_example : add_clauses block [] ≡ separated block
add_clauses_lem_example = add_clauses_lem block

block_passes : is_too_long (dimension block) ≡ false
unfolding is_too_long dimension max_length chars
block_passes = refl

block_small : chars block + 21 * length block + 176 < 2 ^ 31
unfolding chars
block_small = omega arith

length-add_clauses_example : length (add_clauses block []) + 180 < 100_000
length-add_clauses_example = length-add_clauses block block_passes block_small

instance abbrev plain : Decimal ℕ
plain = record { stod = λ s. elim s [ [] ↦ none | c ∷ t ↦ some c ]; show_fixed = λ x. x ∷ [] }

abbrev coarse_double : Double ℕ
coarse_double = record nat_double { lt = leb }

abbrev level_2 : QuadKeyTs ℕ
level_2 = record { level_of_detail = 2; latlon_variation = 1 }

abbrev area : Area ℕ
area = record { min_latitude = 4; max_latitude = 5; min_longitude = 7; max_longitude = 8 }

latitudes :
    steps 4 1 (round_up area.max_latitude) (round_down area.min_latitude) ≡ some (4 ∷ 5 ∷ [])
unfolding steps round_up round_down
latitudes = refl

longitudes :
    steps 4 1 (round_up area.max_longitude) (round_down area.min_longitude) ≡ some (7 ∷ 8 ∷ [])
unfolding steps round_up round_down
longitudes = refl

area_keys : compute_quadkeys 4 level_2 area ≡ some (codes "03" ∷ [])
unfolding compute_quadkeys consolidate lat_lon_to_quadkey_range steps round_up round_down scan_keys
    row_keys position_key pixel clip map_size tile_key digit remove_duplicates remove_equal
    other_index unify_quadkeys2 sort less insert_sorted unify_levels unify_round is_block and_then
    has_room ends_in back is_sibling main_part same_text is_shorter checkdim shorten dimension
    is_too_long max_length chars
area_keys = refl

-- a position of the same tile
same_tile : lat_lon_to_quadkey level_2 5 6 ≡ lat_lon_to_quadkey level_2 5 7
unfolding lat_lon_to_quadkey position_key pixel clip map_size tile_key digit
same_tile = refl

compute_quadkeys-covers_example : covers (codes "03" ∷ []) (lat_lon_to_quadkey level_2 5 6) ≡ true
compute_quadkeys-covers_example =
    compute_quadkeys-covers 4 level_2 area (codes "03" ∷ []) (4 ∷ 5 ∷ []) (7 ∷ 8 ∷ []) 1 0 5 7 5 6
      (omega arith) latitudes longitudes refl refl same_tile area_keys

-- the numbers with the comparison that takes a number for equal to itself
module _ where
  abbrev found : FilterResult
  found = record {
    filter = codes "quadkeys LIKE '03%'";
    cache_file_found = false;
    cache_file = some ((4 ∷ []) ∷ (5 ∷ []) ∷ (7 ∷ []) ∷ (8 ∷ []) ∷ codes "03" ∷ []);
  }

  first_call : get_quadkey_filter ⦃dbl = coarse_double⦄ 4 level_2 true none area ≡ some found
  unfolding get_quadkey_filter new_filter area_lines add_clauses add_clause insert compute_quadkeys
      consolidate lat_lon_to_quadkey_range steps round_up round_down scan_keys row_keys position_key
      pixel clip map_size tile_key digit remove_duplicates remove_equal other_index unify_quadkeys2
      sort less insert_sorted unify_levels unify_round is_block and_then has_room ends_in back
      is_sibling main_part same_text is_shorter checkdim shorten dimension is_too_long max_length
      chars take_chars
  first_call = refl

  area_read_back : AreReadBack ⦃dbl = coarse_double⦄ area
  unfolding doublecomp
  area_read_back = record {
    min_latitude = (4, refl, refl);
    max_latitude = (5, refl, refl);
    min_longitude = (7, refl, refl);
    max_longitude = (8, refl, refl);
  }

get_quadkey_filter-again_example :
    get_quadkey_filter ⦃dbl = coarse_double⦄ 0 level_2 false found.cache_file area
    ≡ some (record found { cache_file_found = true })
get_quadkey_filter-again_example =
    get_quadkey_filter-again ⦃dbl = coarse_double⦄ 4 0 level_2 level_2 false area found
      area_read_back first_call (λ e. ground arith)
