-- ===== src/Decoder/GeoNet/Wire.antt =====
-- An independent description of the packets: the bytes of each header, in network order.
use s_ldm.Common.{ℕ, ◌+◌, ◌*◌, ◌/◌, ◌%◌, ◌^◌, ◌≡◌, ap, ◌∙◌, ◌<◌, some, ◌==◌, [], ◌∷◌, ◌++◌, arith}
use s_ldm.Decoder.Bytes.{Bytes, be16, be32, swap_16bit, swap_32bit}
use s_ldm.Decoder.Headers.{LongPositionVector, remove_shb}

-- the values of the fields of a long position vector
pub record Position : Type 0 where
  pub tst : ℕ
  pub latitude : ℕ
  pub longitude : ℕ
  pub accurate : ℕ
  pub speed : ℕ
  pub heading : ℕ

pub record InRange (p : Position) : Type 0 where
  pub tst : p.tst < 2 ^ 32
  pub latitude : p.latitude < 2 ^ 32
  pub longitude : p.longitude < 2 ^ 32
  pub accurate : p.accurate < 2
  pub speed : p.speed < 2 ^ 15
  pub heading : p.heading < 2 ^ 16

-- the eight bytes of an address
pub record Address : Type 0 where
  pub a0 : ℕ
  pub a1 : ℕ
  pub a2 : ℕ
  pub a3 : ℕ
  pub a4 : ℕ
  pub a5 : ℕ
  pub a6 : ℕ
  pub a7 : ℕ

abbrev pub address_bytes : Address → Bytes
address_bytes a = a.a0 ∷ a.a1 ∷ a.a2 ∷ a.a3 ∷ a.a4 ∷ a.a5 ∷ a.a6 ∷ a.a7 ∷ []

-- One bit of accuracy and fifteen bits of speed share two bytes.
abbrev pub position_bytes : Address → Position → Bytes
position_bytes a p =
    address_bytes a
    ++ (be32 p.tst
        ++ (be32 p.latitude
            ++ (be32 p.longitude ++ (be16 (p.accurate * 2 ^ 15 + p.speed) ++ be16 p.heading))))

-- what the decoder makes of them
abbrev pub decoded : Address → Position → LongPositionVector
decoded a p = record {
  gn_address = address_bytes a;
  tst = p.tst;
  latitude = p.latitude;
  longitude = p.longitude;
  position_accuracy = p.accurate == 1;
  speed = p.speed % 2 ^ 7;
  heading = p.heading;
}

-- What the two swaps make of a load from network order.
pub swap_16bit-be16 : (n : ℕ) → n < 2 ^ 16 → swap_16bit (n / 2 ^ 8 + n % 2 ^ 8 * 2 ^ 8) ≡ n
swap_16bit-be16 n h = omega arith

pub swap_32bit-be32 :
    (n : ℕ)
    → n < 2 ^ 32
    → swap_32bit
        (n / 2 ^ 24 + n / 2 ^ 16 % 2 ^ 8 * 2 ^ 8 + n / 2 ^ 8 % 2 ^ 8 * 2 ^ 16 + n % 2 ^ 8 * 2 ^ 24)
      ≡ n
swap_32bit-be32 n h = omega arith

module _ (a : Address) (p : Position) (r : InRange p) where
  unfoldable pub pai : ℕ
  pai = p.accurate * 2 ^ 15 + p.speed

  pub pai_lem : swap_16bit (pai / 2 ^ 8 + pai % 2 ^ 8 * 2 ^ 8) ≡ pai
  unfolding pai
  pai_lem = swap_16bit-be16 pai (omega arith)

  pub accurate_lem : (pai / 2 ^ 15 == 1) ≡ (p.accurate == 1)
  unfolding pai
  accurate_lem = ground arith

  pub speed_lem : pai % 2 ^ 7 ≡ p.speed % 2 ^ 7
  unfolding pai
  speed_lem = omega arith

  pub remove_shb-position_bytes :
      (rest : Bytes) → remove_shb (position_bytes a p ++ rest) ≡ some (decoded a p)
  unfolding remove_shb pai
  remove_shb-position_bytes rest = λ i. some (record {
    gn_address = address_bytes a;
    tst = swap_32bit-be32 p.tst r.tst i;
    latitude = swap_32bit-be32 p.latitude r.latitude i;
    longitude = swap_32bit-be32 p.longitude r.longitude i;
    position_accuracy = (ap (λ n. n / 2 ^ 15 == 1) pai_lem ∙ accurate_lem) i;
    speed = (ap (λ n. n % 2 ^ 7) pai_lem ∙ speed_lem) i;
    heading = swap_16bit-be16 p.heading r.heading i;
  })
