-- ===== src/Decoder/Headers/Reads.antt =====
-- Reads inside the buffer succeed, and reads past its end do not.
use s_ldm.Common.{
  ℕ, zero, suc, ◌+◌, ◌≡◌, refl, ◌≤◌, ◌<◌, true, Option, none, some, [], ◌∷◌, arith, length, is_some,
  drop,
}
use s_ldm.Decoder.Bytes.{Bytes, byte, ◌>>=◌, load16, load32, load_bytes}
use s_ldm.Decoder.Headers.{remove_basic, remove_common, remove_lpv, remove_shb, remove_gbc}

abbrev pub Succeeds {ℓ} : {A : Type ℓ} → Option A → Type 0
Succeeds m = is_some m ≡ true

pub bind-Succeeds {ℓ κ} :
    {A : Type ℓ} {B : Type κ} (m : Option A) (f : A → Option B)
    → Succeeds m
    → ((a : A) → Succeeds (f a))
    → Succeeds (m >>= f)
bind-Succeeds none f h k = cc
bind-Succeeds (some a) f h k = k a

pub byte-Succeeds : (i : ℕ) (buffer : Bytes) → i < length buffer → Succeeds (byte i buffer)
byte-Succeeds i [] h = absurd (omega arith)
byte-Succeeds zero (b ∷ buffer) h = refl
byte-Succeeds (suc i) (b ∷ buffer) h = byte-Succeeds i buffer (omega arith)

pub byte_past : (i : ℕ) (buffer : Bytes) → length buffer ≤ i → byte i buffer ≡ none
byte_past i [] h = refl
byte_past zero (b ∷ buffer) h = absurd (omega arith)
byte_past (suc i) (b ∷ buffer) h = byte_past i buffer (omega arith)

load16-Succeeds : (i : ℕ) (buffer : Bytes) → i + 2 ≤ length buffer → Succeeds (load16 i buffer)
unfolding load16
load16-Succeeds i buffer h =
    bind-Succeeds _ _ (byte-Succeeds i buffer (omega arith))
      λ b0. bind-Succeeds _ _ (byte-Succeeds (suc i) buffer (omega arith)) λ b1. refl

pub load32-Succeeds : (i : ℕ) (buffer : Bytes) → i + 4 ≤ length buffer → Succeeds (load32 i buffer)
unfolding load32
load32-Succeeds i buffer h = bind-Succeeds _ _ (byte-Succeeds i buffer (omega arith)) λ b0.
    bind-Succeeds _ _ (byte-Succeeds (suc i) buffer (omega arith)) λ b1.
      bind-Succeeds _ _ (byte-Succeeds (suc (suc i)) buffer (omega arith))
        λ b2. bind-Succeeds _ _ (byte-Succeeds (suc (suc (suc i))) buffer (omega arith)) λ b3. refl

load_bytes-Succeeds :
    (n i : ℕ) (buffer : Bytes) → i + n ≤ length buffer → Succeeds (load_bytes n i buffer)
unfolding load_bytes
load_bytes-Succeeds zero i buffer h = refl
load_bytes-Succeeds (suc n) i buffer h =
    bind-Succeeds _ _ (byte-Succeeds i buffer (omega arith))
      λ b. bind-Succeeds _ _ (load_bytes-Succeeds n (suc i) buffer (omega arith)) λ bs. refl

remove_lpv-Succeeds :
    (i : ℕ) (buffer : Bytes) → i + 24 ≤ length buffer → Succeeds (remove_lpv i buffer)
unfolding remove_lpv
remove_lpv-Succeeds i buffer h =
    bind-Succeeds _ _ (load_bytes-Succeeds 8 i buffer (omega arith)) λ a.
      bind-Succeeds _ _ (load32-Succeeds (i + 8) buffer (omega arith)) λ t.
        bind-Succeeds _ _ (load32-Succeeds (i + 12) buffer (omega arith)) λ la.
          bind-Succeeds _ _ (load32-Succeeds (i + 16) buffer (omega arith)) λ lo.
            bind-Succeeds _ _ (load16-Succeeds (i + 20) buffer (omega arith))
              λ s. bind-Succeeds _ _ (load16-Succeeds (i + 22) buffer (omega arith)) λ hd. refl

pub remove_basic-Succeeds : (buffer : Bytes) → 4 ≤ length buffer → Succeeds (remove_basic buffer)
unfolding remove_basic
remove_basic-Succeeds buffer h = bind-Succeeds _ _ (byte-Succeeds 0 buffer (omega arith)) λ b0.
    bind-Succeeds _ _ (byte-Succeeds 1 buffer (omega arith)) λ b1.
      bind-Succeeds _ _ (byte-Succeeds 2 buffer (omega arith))
        λ b2. bind-Succeeds _ _ (byte-Succeeds 3 buffer (omega arith)) λ b3. refl

pub remove_common-Succeeds : (buffer : Bytes) → 8 ≤ length buffer → Succeeds (remove_common buffer)
unfolding remove_common
remove_common-Succeeds buffer h = bind-Succeeds _ _ (byte-Succeeds 0 buffer (omega arith)) λ b0.
    bind-Succeeds _ _ (byte-Succeeds 1 buffer (omega arith)) λ b1.
      bind-Succeeds _ _ (byte-Succeeds 2 buffer (omega arith)) λ b2.
        bind-Succeeds _ _ (byte-Succeeds 3 buffer (omega arith)) λ b3.
          bind-Succeeds _ _ (load16-Succeeds 4 buffer (omega arith)) λ p.
            bind-Succeeds _ _ (byte-Succeeds 6 buffer (omega arith))
              λ m. bind-Succeeds _ _ (byte-Succeeds 7 buffer (omega arith)) λ r. refl

pub remove_shb-Succeeds : (buffer : Bytes) → 24 ≤ length buffer → Succeeds (remove_shb buffer)
unfolding remove_shb
remove_shb-Succeeds buffer h = remove_lpv-Succeeds 0 buffer h

pub remove_gbc-Succeeds : (buffer : Bytes) → 44 ≤ length buffer → Succeeds (remove_gbc buffer)
unfolding remove_gbc
remove_gbc-Succeeds buffer h = bind-Succeeds _ _ (load16-Succeeds 0 buffer (omega arith)) λ s.
    bind-Succeeds _ _ (load16-Succeeds 2 buffer (omega arith)) λ r.
      bind-Succeeds _ _ (remove_lpv-Succeeds 4 buffer (omega arith)) λ p.
        bind-Succeeds _ _ (load32-Succeeds 28 buffer (omega arith)) λ la.
          bind-Succeeds _ _ (load32-Succeeds 32 buffer (omega arith)) λ lo.
            bind-Succeeds _ _ (load16-Succeeds 36 buffer (omega arith)) λ da.
              bind-Succeeds _ _ (load16-Succeeds 38 buffer (omega arith)) λ db.
                bind-Succeeds _ _ (load16-Succeeds 40 buffer (omega arith))
                  λ an. bind-Succeeds _ _ (load16-Succeeds 42 buffer (omega arith)) λ rr. refl

pub length-drop :
    (n : ℕ) (buffer : Bytes) → n ≤ length buffer → length (drop n buffer) + n ≡ length buffer
length-drop zero buffer h = omega arith
length-drop (suc n) [] h = absurd (omega arith)
length-drop (suc n) (b ∷ buffer) h = omega (arith, length-drop n buffer)
