-- ===== src/Common/Partial.antt =====
-- Predicates on results that may be missing: nothing is said of `none`.
use mathlib.Core.Option
use s_ldm.Common.{Option, none, some, ◌≡◌, ap, arith}
use s_ldm.Decoder.Bytes.{◌>>=◌}

abbrev pub Yields {ℓ κ} : {A : Type ℓ} → (A → Type κ) → Option A → Type κ
Yields P none = Unit
Yields P (some a) = P a

module _ {ℓ ℓ' κ κ'} {A : Type ℓ} {B : Type ℓ'} where
  pub Yields-map :
      (P : A → Type κ) (Q : B → Type κ') (f : A → B) (m : Option A)
      → Yields P m
      → ((a : A) → P a → Q (f a))
      → Yields Q (Option.map f m)
  Yields-map P Q f none p h = tt
  Yields-map P Q f (some a) p h = h a p

  pub Yields-bind :
      (P : A → Type κ) (Q : B → Type κ') (f : A → Option B) (m : Option A)
      → Yields P m
      → ((a : A) → P a → Yields Q (f a))
      → Yields Q (m >>= f)
  Yields-bind P Q f none p h = tt
  Yields-bind P Q f (some a) p h = h a p

pub Yields-some {ℓ κ} :
    {A : Type ℓ} (P : A → Type κ) (m : Option A) (a : A) → Yields P m → m ≡ some a → P a
Yields-some P m a p e = rw e at p

pub Yields-imp {ℓ κ κ'} :
    {A : Type ℓ} (P : A → Type κ) (Q : A → Type κ') (m : Option A)
    → Yields P m
    → ((a : A) → P a → Q a)
    → Yields Q m
Yields-imp P Q none p h = tt
Yields-imp P Q (some a) p h = h a p

pub some_injective {ℓ} : {A : Type ℓ} (a b : A) → some a ≡ some b → a ≡ b
some_injective a b e = ap (λ o. elim o [ some x ↦ x | none ↦ a ]) e

pub none_ne_some {ℓ} : {A : Type ℓ} (a : A) → none ≡ some a → ⊥
none_ne_some a e = ground arith
