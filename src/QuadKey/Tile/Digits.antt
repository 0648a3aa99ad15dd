-- ===== src/QuadKey/Tile/Digits.antt =====
-- The digits of a quadkey and the tile they stand for.
use native.Mathlib.Nat.{pow-suc, pow-succ', div-div-eq-div-mul, div-eq_of_lt}
use s_ldm.Common.{
  ℕ, zero, suc, ◌+◌, ◌-◌, ◌*◌, ◌/◌, ◌%◌, ◌^◌, ◌≡◌, refl, sym, ap, ap₂, ◌∙◌, [], ◌∷◌, arith, ◌<◌,
  length,
}
use s_ldm.Numeral.{Text}
use s_ldm.QuadKey.Tile.{digit, tile_key}
use s_ldm.QuadKey.Unify.{main_part}
use s_ldm.QuadKey.Unify.Covers.{IsDigits}

-- the tile that a quadkey stands for, read from its first digit on
unfoldable pub key_tile : (tile_x tile_y : ℕ) → Text → ℕ × ℕ
key_tile tile_x tile_y [] = (tile_x, tile_y)
key_tile tile_x tile_y (c ∷ k) =
    key_tile (2 * tile_x + (c - b'0') % 2) (2 * tile_y + (c - b'0') / 2) k

div_pow_suc : (x n : ℕ) → x / 2 ^ suc n ≡ x / 2 ^ n / 2
div_pow_suc x n = rw (pow-suc 2 n) (sym (div-div-eq-div-mul x (2 ^ n) 2))

div_suc_pow : (x n : ℕ) → x / 2 ^ suc n ≡ x / 2 / 2 ^ n
div_suc_pow x n = rw (pow-succ' 2 n) (sym (div-div-eq-div-mul x 2 (2 ^ n)))

-- the bit of a coordinate that stands in a digit, put behind the higher bits
digit-bits :
    (n x y : ℕ)
    → (2 * (x / 2 ^ suc n) + (digit n x y - b'0') % 2 ≡ x / 2 ^ n)
      × (2 * (y / 2 ^ suc n) + (digit n x y - b'0') / 2 ≡ y / 2 ^ n)
unfolding digit
digit-bits n x y = let a = div_pow_suc x n in let b = div_pow_suc y n in (omega arith, omega arith)

key_tile-tile_key_from : (n x y : ℕ) → key_tile (x / 2 ^ n) (y / 2 ^ n) (tile_key n x y) ≡ (x, y)
unfolding key_tile tile_key
key_tile-tile_key_from zero x y = ap₂ (λ a b. (a, b)) (omega arith) (omega arith)
key_tile-tile_key_from (suc n) x y =
    let (a, b) = digit-bits n x y in
    ap₂ (λ u v. key_tile u v (tile_key n x y)) a b ∙ key_tile-tile_key_from n x y

pub length-tile_key : (n x y : ℕ) → length (tile_key n x y) ≡ n
unfolding tile_key
length-tile_key zero x y = refl
length-tile_key (suc n) x y = ap suc (length-tile_key n x y)

pub tile_key-IsDigits : (n x y : ℕ) → IsDigits (tile_key n x y)
unfolding tile_key digit IsDigits
tile_key-IsDigits zero x y = tt
tile_key-IsDigits (suc n) x y = ((omega arith, omega arith), tile_key-IsDigits n x y)

-- A quadkey names its tile: reading back the key of a tile gives the tile, where both coordinates
-- fit the level of detail.
pub key_tile-tile_key : (n x y : ℕ) → x < 2 ^ n → y < 2 ^ n → key_tile 0 0 (tile_key n x y) ≡ (x, y)
key_tile-tile_key n x y p q =
    let a : x / 2 ^ n ≡ 0 = div-eq_of_lt p in
    let b : y / 2 ^ n ≡ 0 = div-eq_of_lt q in rw (a, b) at (key_tile-tile_key_from n x y)

digit-suc : (n x y : ℕ) → digit (suc n) x y ≡ digit n (x / 2) (y / 2)
unfolding digit
digit-suc n x y = rw (div_suc_pow x n, div_suc_pow y n) refl

-- A quadkey without its last character is the key of the tile around it, at the level of detail
-- below: what `unifyQuadkeys2` and `checkdim` make of a key is a larger area.
pub main_part-tile_key : (n x y : ℕ) → main_part (tile_key (suc n) x y) ≡ tile_key n (x / 2) (y / 2)
unfolding main_part tile_key
main_part-tile_key zero x y = refl
main_part-tile_key (suc n) x y = ap₂ (λ d k. d ∷ k) (digit-suc n x y) (main_part-tile_key n x y)
