-- ===== src/AreaFilter.antt =====
-- src/areaFilter.cpp: whether a position is in the area that the program covers. The pointer to the
-- options may be null.
use s_ldm.Common.{◌≡◌, Bool, true, false, ◌&&◌, Option, none, some, arith}
use s_ldm.Double.{Double}
use s_ldm.Options.{Options}
use s_ldm.Options.Parse.Finish.Valid.{IsValid}

-- what the arithmetic of the machine has: the order is transitive, and a number that is not below 0
-- moves another down when it is subtracted, and up when it is added
pub record IsOrdered (D : Type 0) ⦃dbl : Double D⦄ : Type 0 where
  pub le_trans : (x y z : D) → dbl.le x y ≡ true → dbl.le y z ≡ true → dbl.le x z ≡ true
  pub sub_le : (x e : D) → dbl.lt e (dbl.of_ℕ 0) ≡ false → dbl.le (dbl.sub x e) x ≡ true
  pub le_add : (x e : D) → dbl.lt e (dbl.of_ℕ 0) ≡ false → dbl.le x (dbl.add x e) ≡ true

module _ {D : Type 0} ⦃dbl : Double D⦄ where
  -- `isInside`; `a >= b` is `b <= a`
  unfoldable pub is_inside : Option (Options D) → (lat lon : D) → Bool
  is_inside none lat lon = false
  is_inside (some o) lat lon =
      dbl.le (dbl.sub o.min_lat o.ext_lat_factor) lat
      && (dbl.le lat (dbl.add o.max_lat o.ext_lat_factor)
          && (dbl.le (dbl.sub o.min_lon o.ext_lon_factor) lon
              && dbl.le lon (dbl.add o.max_lon o.ext_lon_factor)))

  -- `isInsideInternal`
  unfoldable pub is_inside_internal : Option (Options D) → (lat lon : D) → Bool
  is_inside_internal none lat lon = false
  is_inside_internal (some o) lat lon =
      dbl.le o.min_lat lat
      && (dbl.le lat o.max_lat && (dbl.le o.min_lon lon && dbl.le lon o.max_lon))

  -- The internal area is a part of the whole area, where the options are valid and the arithmetic is
  -- ordered as that of numbers.
  is_inside_internal-is_inside :
      IsOrdered D
      → (o : Options D) → IsValid o
      → (lat lon : D) → is_inside_internal (some o) lat lon ≡ true
      → is_inside (some o) lat lon ≡ true
  unfolding is_inside is_inside_internal
  is_inside_internal-is_inside ord o v lat lon h = ground (
    arith,
    ord.le_trans (dbl.sub o.min_lat o.ext_lat_factor) o.min_lat lat
        (ord.sub_le o.min_lat o.ext_lat_factor v.lat_factor),
    ord.le_trans lat o.max_lat (dbl.add o.max_lat o.ext_lat_factor),
    ord.le_add o.max_lat o.ext_lat_factor v.lat_factor,
    ord.le_trans (dbl.sub o.min_lon o.ext_lon_factor) o.min_lon lon
        (ord.sub_le o.min_lon o.ext_lon_factor v.lon_factor),
    ord.le_trans lon o.max_lon (dbl.add o.max_lon o.ext_lon_factor),
    ord.le_add o.max_lon o.ext_lon_factor v.lon_factor,
  )
