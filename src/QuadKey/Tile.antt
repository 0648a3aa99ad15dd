-- ===== src/QuadKey/Tile.antt =====
-- src/QuadKeyTS.cpp: the level of detail, and the quadkeys of a position and of a range of them.
pub mod Digits
use s_ldm.Common.{
  ℕ, zero, suc, ◌+◌, ◌-◌, ◌*◌, ◌/◌, ◌%◌, ◌^◌, Bool, true, false, List, [], ◌∷◌, ◌++◌, Option, none,
  some, map, ◌==◌, ltb, if◌then◌else◌,
}
use s_ldm.Common.Int.{ℤ, pos, pos_part, ltb_ℤ}
use s_ldm.Decoder.Bytes.{◌>>=◌}
use s_ldm.Double.{Double}
use s_ldm.Numeral.{Text}
use s_ldm.QuadKey.Distinct.{remove_duplicates}

-- What this file uses of doubles besides their arithmetic: the functions of math.h, and the
-- conversion to `int` of a number that is not negative.
pub record Projection (D : Type 0) : Type 0 where
  pub log : D → D
  pub floor : D → D
  pub ceil : D → D
  pub to_int : D → ℕ

-- the members of the object
pub record QuadKeyTs (D : Type 0) : Type 0 where
  pub level_of_detail : ℕ
  pub latlon_variation : D

-- 256 << levelOfDetail, in 32 bits
unfoldable pub map_size : ℕ → ℕ
map_size level_of_detail = 256 * 2 ^ level_of_detail % 2 ^ 32

-- the `switch` of `setLevelOfDetail`, in thousandths
unfoldable pub variation : ℕ → ℕ
variation level_of_detail =
    if level_of_detail == 18
    then 1
    else (if level_of_detail == 17
        then 2
        else (if level_of_detail == 16
            then 3
            else (if level_of_detail == 15
                then 7
                else (if level_of_detail == 14 then 15 else 10_000_000))))

-- the two `if`s of `setLevelOfDetail`, on an `int`
unfoldable pub clamp_level : ℤ → ℕ
clamp_level level_of_detail =
    if ltb_ℤ (pos 18) level_of_detail
    then 18
    else (if ltb_ℤ level_of_detail (pos 14) then 14 else pos_part level_of_detail)

-- One character of the quadkey, at the mask `1 << i`: bit `i` of `tileX` adds 1 to '0', that of
-- `tileY` adds 2.
unfoldable pub digit : (i tile_x tile_y : ℕ) → ℕ
digit i tile_x tile_y = b'0' + tile_x / 2 ^ i % 2 + 2 * (tile_y / 2 ^ i % 2)

-- the loop from the level of detail down to 1
unfoldable pub tile_key : (level_of_detail tile_x tile_y : ℕ) → Text
tile_key zero tile_x tile_y = []
tile_key (suc i) tile_x tile_y = digit i tile_x tile_y ∷ tile_key i tile_x tile_y

module _ {D : Type 0} ⦃dbl : Double D⦄ ⦃proj : Projection D⦄ where
  thousandths : ℕ → D
  thousandths n = dbl.div (dbl.of_ℕ n) (dbl.of_ℕ 1000)

  unfoldable pub new_quadkey : QuadKeyTs D
  unfolding thousandths
  new_quadkey = record { level_of_detail = 16; latlon_variation = thousandths 1 }

  unfoldable pub set_level_of_detail : ℤ → QuadKeyTs D → QuadKeyTs D
  unfolding thousandths
  set_level_of_detail level_of_detail q =
      let level = clamp_level level_of_detail in
      record { level_of_detail = level; latlon_variation = thousandths (variation level) }

  -- `std::min(std::max(n, minValue), maxValue)`
  unfoldable pub clip : D → D → D → D
  clip n min_value max_value =
      let lower = if dbl.lt n min_value then min_value else n in
      if dbl.lt max_value lower then max_value else lower

  -- the pixel of a coordinate of the map, which goes from 0 to 1
  unfoldable pub pixel : (map_size : ℕ) → D → ℕ
  unfolding clip
  pixel map_size x =
      let half = dbl.div (dbl.of_ℕ 1) (dbl.of_ℕ 2) in
      proj.to_int
        (clip (dbl.add (dbl.mul x (dbl.of_ℕ map_size)) half) (dbl.of_ℕ 0) (dbl.of_ℕ (map_size - 1)))

  -- the quadkey, without the object around it
  unfoldable pub position_key : (level_of_detail : ℕ) (latitude longitude : D) → Text
  unfolding pixel map_size tile_key
  position_key level_of_detail latitude longitude =
      let x = dbl.div (dbl.add longitude (dbl.of_ℕ 180)) (dbl.of_ℕ 360) in
      let sin_latitude = dbl.sin (dbl.div (dbl.mul latitude dbl.pi) (dbl.of_ℕ 180)) in
      let ratio = dbl.div (dbl.add (dbl.of_ℕ 1) sin_latitude) (dbl.sub (dbl.of_ℕ 1) sin_latitude) in
      let half = dbl.div (dbl.of_ℕ 1) (dbl.of_ℕ 2) in
      let y = dbl.sub half (dbl.div (proj.log ratio) (dbl.mul (dbl.of_ℕ 4) dbl.pi)) in
      let size = map_size level_of_detail in
      tile_key level_of_detail (pixel size x / 256) (pixel size y / 256)

  unfoldable pub lat_lon_to_quadkey : QuadKeyTs D → (latitude longitude : D) → Text
  unfolding position_key
  lat_lon_to_quadkey q latitude longitude = position_key q.level_of_detail latitude longitude

  -- the values of `for(double j = low; j <= high; j += step)`; `none` if the fuel runs out
  unfoldable pub steps : (fuel : ℕ) (step high low : D) → Option (List D)
  steps zero step high low = none
  steps (suc fuel) step high low =
      let rest = steps fuel step high (dbl.add low step) in
      if dbl.le low high then (rest >>= λ js. some (low ∷ js)) else some []

  -- the keys of one latitude, and of all
  unfoldable pub row_keys : (level_of_detail : ℕ) (latitude : D) → List D → List Text
  row_keys level_of_detail latitude = map (position_key level_of_detail latitude)

  unfoldable pub scan_keys : (level_of_detail : ℕ) (latitudes longitudes : List D) → List Text
  unfolding row_keys
  scan_keys level_of_detail [] longitudes = []
  scan_keys level_of_detail (latitude ∷ latitudes) longitudes =
      row_keys level_of_detail latitude longitudes ++ scan_keys level_of_detail latitudes longitudes

  -- rounding to two decimal digits
  unfoldable pub round_down : D → D
  round_down x = dbl.div (proj.floor (dbl.mul x (dbl.of_ℕ 100))) (dbl.of_ℕ 100)

  unfoldable pub round_up : D → D
  round_up x = dbl.div (proj.ceil (dbl.mul x (dbl.of_ℕ 100))) (dbl.of_ℕ 100)

  unfoldable pub lat_lon_to_quadkey_range :
      (fuel : ℕ) → QuadKeyTs D → (min_lat max_lat min_lon max_lon : D) → Option (List Text)
  unfolding scan_keys
  lat_lon_to_quadkey_range fuel q min_lat max_lat min_lon max_lon =
      steps fuel q.latlon_variation (round_up max_lat) (round_down min_lat) >>= λ latitudes.
      steps fuel q.latlon_variation (round_up max_lon) (round_down min_lon) >>= λ longitudes.
      remove_duplicates (scan_keys q.level_of_detail latitudes longitudes)
