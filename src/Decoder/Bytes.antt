-- ===== src/Decoder/Bytes.antt =====
-- decoder-module/include/utils.h and the reads from a buffer.
use s_ldm.Common.{ℕ, zero, suc, ◌+◌, ◌*◌, ◌/◌, ◌%◌, ◌^◌, Option, none, some, List, [], ◌∷◌}

abbrev pub Bytes : Type 0
Bytes = List ℕ

-- `none` is a read out of the buffer
infixl 5 ◌>>=◌
abbrev pub ◌>>=◌ {ℓ κ} : {A : Type ℓ} {B : Type κ} → Option A → (A → Option B) → Option B
none >>= f = none
some a >>= f = f a

-- `*(buffer + i)`
abbrev pub byte : ℕ → Bytes → Option ℕ
byte i [] = none
byte zero (b ∷ buffer) = some b
byte (suc i) (b ∷ buffer) = byte i buffer

-- `(us & 0xFF00) >> 8 | (us & 0x00FF) << 8` of a `uint16_t`; the parts have no bit in common
abbrev pub swap_16bit : ℕ → ℕ
swap_16bit us = us / 2 ^ 8 % 2 ^ 8 + us % 2 ^ 8 * 2 ^ 8

abbrev pub swap_32bit : ℕ → ℕ
swap_32bit ul =
    ul / 2 ^ 24 % 2 ^ 8
    + ul / 2 ^ 16 % 2 ^ 8 * 2 ^ 8
    + ul / 2 ^ 8 % 2 ^ 8 * 2 ^ 16
    + ul % 2 ^ 8 * 2 ^ 24

-- `memcpy(&x, buffer + i, sizeof(uint16_t))` on a little-endian machine
unfoldable pub load16 : ℕ → Bytes → Option ℕ
load16 i buffer = do b0 ← byte i buffer; b1 ← byte (suc i) buffer; some (b0 + b1 * 2 ^ 8)

unfoldable pub load32 : ℕ → Bytes → Option ℕ
load32 i buffer = do
  b0 ← byte i buffer
  b1 ← byte (suc i) buffer
  b2 ← byte (suc (suc i)) buffer
  b3 ← byte (suc (suc (suc i))) buffer
  some (b0 + b1 * 2 ^ 8 + b2 * 2 ^ 16 + b3 * 2 ^ 24)

-- `memcpy(m_sourcePV.GnAddress, buffer + i, 8)`: the eight bytes
unfoldable pub load_bytes : (n i : ℕ) → Bytes → Option Bytes
load_bytes zero i buffer = some []
load_bytes (suc n) i buffer = do b ← byte i buffer; bs ← load_bytes n (suc i) buffer; some (b ∷ bs)

-- the network order of two and of four bytes
abbrev pub be16 : ℕ → Bytes
be16 n = n / 2 ^ 8 ∷ n % 2 ^ 8 ∷ []

abbrev pub be32 : ℕ → Bytes
be32 n = n / 2 ^ 24 ∷ n / 2 ^ 16 % 2 ^ 8 ∷ n / 2 ^ 8 % 2 ^ 8 ∷ n % 2 ^ 8 ∷ []
