-- ===== src/Ldm/Listing.antt =====
-- The entries of the maps as a list: what holds of some of them or of all of them after a write.
pub mod Operations
pub mod Lookup
use s_ldm.Common.{
  ℕ, ◌≡◌, ◌≢◌, ◌⊎◌, ◌<◌, refl, sym, ap, subst, ◌∙◌, Bool, true, false, not, ◌||◌, some, List, [],
  ◌∷◌, ◌++◌, ◌==◌, arith, All, All-append, Bool-cases, Option-cases, inl, inr,
}
use s_ldm.Common.Partial.{some_injective}
use s_ldm.Dict
use s_ldm.Dict.{Dict}
use s_ldm.Double.{Double}
use s_ldm.Ldm.{Entry, entry, LdmMap, LdmMapError, map_full, History, insert, uint64_max, entry_at}
use s_ldm.Ldm.Contents.{lower_contents, contents, only, only-append}
use s_ldm.Ldm.Insert.{up, low, insert_new, insert_present}
use s_ldm.Ldm.Invariant.{IsValid, points, pointers}
use s_ldm.Ldm.Scan.{is_older, sweep_lower, sweep, delete_older_than}
use s_ldm.Ldm.Write.{write, lower_at, entry_at-pointers}
use s_ldm.Vehicle.{VehicleData}

module _ {ℓ} {A : Type ℓ} where
  -- whether some member passes the test
  abbrev pub any : (A → Bool) → List A → Bool
  any p [] = false
  any p (x ∷ xs) = p x || any p xs

  pub any-append : (p : A → Bool) (xs ys : List A) → any p (xs ++ ys) ≡ (any p xs || any p ys)
  any-append p [] ys = refl
  any-append p (x ∷ xs) ys = ground (arith, any-append p xs ys)

  pub only-cons :
      (p : A → Bool) (xs : List A)
      → any p xs ≡ true
      → (x : A) × (ys : List A) × (only p xs ≡ x ∷ ys)
  only-cons p [] h = absurd (ground arith)
  only-cons p (x ∷ xs) h = elim (Bool-cases (p x)) [
    | inl e ↦ (x, only p xs, rw e refl)
    | inr e ↦ let (y, ys, f) = only-cons p xs (ground (arith, e)) in (y, ys, rw e f)
  ]

  pub All-only {κ} : (P : A → Type κ) (p : A → Bool) (xs : List A) → All P xs → All P (only p xs)
  All-only P p [] h = tt
  All-only P p (x ∷ xs) (h, hs) = elim (Bool-cases (p x)) [
    | inl e ↦ rw e (h, All-only P p xs hs)
    | inr e ↦ rw e (All-only P p xs hs)
  ]

  -- a member passes one of two tests that exclude each other
  pub any-only :
      (p q : A → Bool) (xs : List A)
      → any p xs ≡ (any p (only q xs) || any p (only (λ x. not (q x)) xs))
  any-only p q [] = refl
  any-only p q (x ∷ xs) = ground (arith, any-only p q xs)

module _ {D : Type 0} where
  All-assign {κ} :
      (P : Entry D → Type κ) (k : ℕ) (e : Entry D) (m : Dict (Entry D))
      → P e
      → All P (lower_contents m)
      → All P (lower_contents (Dict.assign k e m))
  unfolding Dict.assign
  All-assign P k e [] h hs = (h, tt)
  All-assign P k e ((j, d) ∷ m) h (hd, hs) = elim (Bool-cases (j == k)) [
    | inl f ↦ rw f (h, hs)
    | inr f ↦ rw f (hd, All-assign P k e m h hs)
  ]

  All-split {κ} :
      (P : Entry D → Type κ) (xs ys : List (Entry D)) → All P (xs ++ ys) → All P xs × All P ys
  All-split P [] ys h = (tt, h)
  All-split P (x ∷ xs) ys (h, hs) = let (a, b) = All-split P xs ys hs in ((h, a), b)

  All-upper {κ} :
      (P : Entry D → Type κ) (u : ℕ) (new : Dict (Entry D)) (m : Dict (Dict (Entry D)))
      → All P (lower_contents new)
      → All P (contents m)
      → All P (contents (Dict.assign u new m))
  unfolding Dict.assign
  All-upper P u new [] h hs = All-append P (lower_contents new) [] h tt
  All-upper P u new ((k, lower) ∷ m) h hs =
      let (first, rest) = All-split P (lower_contents lower) (contents m) hs in
      elim (Bool-cases (k == u)) [
        | inl f ↦ rw f (All-append P (lower_contents new) (contents m) h rest)
        | inr f ↦ rw f (All-append P (lower_contents lower) _ first (All-upper P u new m h rest))
      ]

  All-lower_at {κ} :
      (P : Entry D → Type κ) (u : ℕ) (m : Dict (Dict (Entry D)))
      → All P (contents m)
      → All P (lower_contents (lower_at u m))
  unfolding Dict.find
  All-lower_at P u [] hs = tt
  All-lower_at P u ((k, lower) ∷ m) hs =
      let (first, rest) = All-split P (lower_contents lower) (contents m) hs in
      elim (Bool-cases (k == u)) [
        | inl f ↦ rw (f, lower_at) first
        | inr f ↦ rw (f, lower_at) (All-lower_at P u m rest)
      ]

  -- what holds of the entries and of the one that is written holds of all entries afterwards
  pub All-write {κ} :
      (P : Entry D → Type κ) (u l : ℕ) (e : Entry D) (m : Dict (Dict (Entry D)))
      → P e
      → All P (contents m)
      → All P (contents (write u l e m))
  All-write P u l e m h hs =
      All-upper P u (Dict.assign l e (lower_at u m)) m
        (All-assign P l e (lower_at u m) h (All-lower_at P u m hs)) hs

  All-find {κ} :
      (P : Entry D → Type κ) (k : ℕ) (m : Dict (Entry D)) (d : Entry D)
      → All P (lower_contents m)
      → Dict.find k m ≡ some d
      → P d
  unfolding Dict.find
  All-find P k [] d hs f = absurd (ground arith)
  All-find P k ((j, e) ∷ m) d (h, hs) f = elim (Bool-cases (j == k)) [
    | inl g ↦ subst P (ground (arith, g)) h
    | inr g ↦ All-find P k m d hs (ground (arith, g))
  ]

  -- what holds of all entries holds of the one that is found
  pub All-entry_at {κ} :
      (P : Entry D → Type κ) (u l : ℕ) (m : Dict (Dict (Entry D))) (d : Entry D)
      → All P (contents m)
      → entry_at m u l ≡ some d
      → P d
  unfolding entry_at
  All-entry_at P u l m d hs f = elim (Option-cases (Dict.find u m)) [
    | inl e ↦ absurd (ground (arith, e))
    | inr (lower, e) ↦
        let here : All P (lower_contents lower) = rw (e, lower_at) at (All-lower_at P u m hs) in
        All-find P l lower d here (ground (arith, e))
  ]

  any-assign :
      (p : Entry D → Bool) (k : ℕ) (e : Entry D) (m : Dict (Entry D))
      → ((d : Entry D) → Dict.find k m ≡ some d → p d ≡ true → p e ≡ true)
      → any p (lower_contents m) ≡ true
      → any p (lower_contents (Dict.assign k e m)) ≡ true
  unfolding Dict.assign Dict.find
  any-assign p k e [] h a = absurd (ground arith)
  any-assign p k e ((j, d) ∷ m) h a = elim (Bool-cases (j == k)) [
    | inl f ↦ ground (arith, h d (rw f refl))
    | inr f ↦ ground (arith, any-assign p k e m (λ c g. h c (rw f g)))
  ]

  any-upper :
      (p : Entry D → Bool) (u : ℕ) (new : Dict (Entry D)) (m : Dict (Dict (Entry D)))
      → ((lower : Dict (Entry D))
          → Dict.find u m ≡ some lower
          → any p (lower_contents lower) ≡ true
          → any p (lower_contents new) ≡ true)
      → any p (contents m) ≡ true
      → any p (contents (Dict.assign u new m)) ≡ true
  unfolding Dict.assign Dict.find
  any-upper p u new [] h a = absurd (ground arith)
  any-upper p u new ((k, lower) ∷ m) h a = elim (Bool-cases (k == u)) [
    | inl f ↦ ground (
      arith,
      h lower (rw f refl),
      any-append p (lower_contents new) (contents m),
      any-append p (lower_contents lower) (contents m),
    )
    | inr f ↦ ground (
      arith,
      any-upper p u new m (λ c g. h c (rw f g)),
      any-append p (lower_contents lower) (contents (Dict.assign u new m)),
      any-append p (lower_contents lower) (contents m),
    )
  ]

  -- A test that some entry passes is still passed after a write, where the entry that is written
  -- passes it if the one in its place did.
  pub any-write :
      (p : Entry D → Bool) (u l : ℕ) (e : Entry D) (m : Dict (Dict (Entry D)))
      → ((d : Entry D) → entry_at m u l ≡ some d → p d ≡ true → p e ≡ true)
      → any p (contents m) ≡ true
      → any p (contents (write u l e m)) ≡ true
  unfolding entry_at
  any-write p u l e m h a =
      any-upper p u (Dict.assign l e (lower_at u m)) m
        (λ lower f b. rw (f, lower_at) (any-assign p l e lower (λ d g. h d (rw (f, entry_at) g)) b))
        a

  -- Every entry has a pointer that is counted.
  All-lower_pointers {κ} :
      (Q : ℕ → Type κ) (m : Dict (Entry D))
      → ((p : ℕ) → 0 < Dict.total (points p) m → Q p)
      → All (λ (e : Entry D). Q e.ph_data) (lower_contents m)
  unfolding Dict.total
  All-lower_pointers Q [] h = tt
  All-lower_pointers Q ((k, e) ∷ m) h =
      (h e.ph_data (ground arith), All-lower_pointers Q m (λ p pos. h p (omega arith)))

  pub All-pointers {κ} :
      (Q : ℕ → Type κ) (m : Dict (Dict (Entry D)))
      → ((p : ℕ) → 0 < pointers p m → Q p)
      → All (λ (e : Entry D). Q e.ph_data) (contents m)
  unfolding Dict.total
  All-pointers Q [] h = tt
  All-pointers Q ((k, lower) ∷ m) h =
      All-append (λ (e : Entry D). Q e.ph_data) (lower_contents lower) (contents m)
        (All-lower_pointers Q lower (λ p pos. h p (omega arith)))
        (All-pointers Q m (λ p pos. h p (omega arith)))
