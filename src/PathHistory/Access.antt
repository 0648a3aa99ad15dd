-- ===== src/PathHistory/Access.antt =====
-- Accesses to the memory of the array that do not fault, and what they give.
use s_ldm.Common.{
  ℕ, zero, suc, ◌≡◌, ◌<◌, refl, Bool, true, false, Option, none, some, List, [], ◌∷◌, if◌then◌else◌,
  arith, length,
}
use s_ldm.Decoder.Bytes.{◌>>=◌}
use s_ldm.PathHistory.{slot, set_slot}

-- an access that does not fault, with what holds of its result
abbrev pub Gives {ℓ} : {A : Type ℓ} → (A → Type 0) → Option A → Type 0
Gives P none = ⊥
Gives P (some a) = P a

pub Gives-map {ℓ} :
    {A : Type ℓ} (P Q : A → Type 0) (m : Option A) → ((a : A) → P a → Q a) → Gives P m → Gives Q m
Gives-map P Q none h p = absurd p
Gives-map P Q (some a) h p = h a p

pub if-Gives {ℓ} :
    {A : Type ℓ} (P : A → Type 0) (b : Bool) (x y : Option A)
    → Gives P x
    → Gives P y
    → Gives P (if b then x else y)
if-Gives P true x y p q = p
if-Gives P false x y p q = q

pub when-Gives {ℓ} :
    {A : Type ℓ} (P : A → Type 0) (b : Bool) (x y : Option A)
    → (b ≡ true → Gives P x)
    → (b ≡ false → Gives P y)
    → Gives P (if b then x else y)
when-Gives P true x y p q = p refl
when-Gives P false x y p q = q refl

pub Gives-some {ℓ} :
    {A : Type ℓ} (P : A → Type 0) (m : Option A) → Gives P m → (a : A) × (m ≡ some a) × P a
Gives-some P none h = absurd h
Gives-some P (some a) h = (a, refl, h)

pub Gives-bind {ℓ κ} :
    {A : Type ℓ} {B : Type κ} (P : A → Type 0) (Q : B → Type 0) (m : Option A) (f : A → Option B)
    → Gives P m
    → ((a : A) → P a → Gives Q (f a))
    → Gives Q (m >>= f)
Gives-bind P Q none f p h = absurd p
Gives-bind P Q (some a) f p h = h a p

module _ {A : Type 0} where
  pub slot-Gives : (i : ℕ) (xs : List A) → i < length xs → Gives (λ a. Unit {0}) (slot i xs)
  unfolding slot
  slot-Gives i [] h = absurd (omega arith)
  slot-Gives zero (a ∷ xs) h = tt
  slot-Gives (suc i) (a ∷ xs) h = slot-Gives i xs (omega arith)

  pub set_slot-Gives :
      (i : ℕ) (b : A) (xs : List A)
      → i < length xs
      → Gives (λ bs. (length bs ≡ length xs) × (slot i bs ≡ some b)) (set_slot i b xs)
  unfolding slot set_slot
  set_slot-Gives i b [] h = absurd (omega arith)
  set_slot-Gives zero b (a ∷ xs) h = (refl, refl)
  set_slot-Gives (suc i) b (a ∷ xs) h =
      Gives-bind (λ bs. (length bs ≡ length xs) × (slot i bs ≡ some b)) _ (set_slot i b xs) _
        (set_slot-Gives i b xs (omega arith)) λ rest (l, s). (omega arith, s)
