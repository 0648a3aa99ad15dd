-- ===== src/Ldm/Listing/Lookup.antt =====
-- The entries that a lookup finds, and those that the loops over the database visit.
use s_ldm.Common.{
  ℕ, ◌≡◌, ◌<◌, ◌≤◌, refl, sym, ap, subst, ◌∙◌, Bool, true, false, some, [], ◌∷◌, ◌==◌, arith,
  Bool-cases, Option-cases, inl, inr,
}
use s_ldm.Common.Partial.{none_ne_some}
use s_ldm.Dict
use s_ldm.Dict.{Dict}
use s_ldm.Ldm.{Entry, LdmMap, ok, entry_at, lookup, key_upper, key_lower}
use s_ldm.Ldm.Contents.{lower_contents, contents}
use s_ldm.Ldm.Insert.{low}
use s_ldm.Ldm.Invariant.{IsValid}
use s_ldm.Dict.Laws.{find-eq-none}
use s_ldm.Ldm.Insert.Effect.{lookup-entry_at}
use s_ldm.Ldm.Listing.{any, any-append}

find-count : {V : Type 0} (k : ℕ) (m : Dict V) (v : V) → Dict.find k m ≡ some v → 0 < Dict.count k m
find-count k m v f = elim (Bool-cases (Dict.count k m == 0)) [
  | inl e ↦ absurd (none_ne_some v (sym (find-eq-none k m (ground (arith, e))) ∙ f))
  | inr e ↦ ground (arith, e)
]

module _ {D : Type 0} where
  any-find :
      (p : Entry D → Bool) (k : ℕ) (m : Dict (Entry D)) (e : Entry D)
      → Dict.find k m ≡ some e
      → p e ≡ true
      → any p (lower_contents m) ≡ true
  unfolding Dict.find
  any-find p k [] e f h = absurd (ground arith)
  any-find p k ((j, d) ∷ m) e f h = elim (Bool-cases (j == k)) [
    | inl g ↦
        let same : d ≡ e = ground (arith, g) in
        let passes : p d ≡ true = ap p same ∙ h in ground arith
    | inr g ↦ let rest = any-find p k m e (ground (arith, g)) h in ground arith
  ]

  -- a test that an entry passes which is found
  pub any-entry_at :
      (p : Entry D → Bool) (u l : ℕ) (m : Dict (Dict (Entry D))) (e : Entry D)
      → entry_at m u l ≡ some e
      → p e ≡ true
      → any p (contents m) ≡ true
  unfolding entry_at Dict.find
  any-entry_at p u l [] e f h = absurd (ground arith)
  any-entry_at p u l ((k, lower) ∷ m) e f h = elim (Bool-cases (k == u)) [
    | inl g ↦
        let here = any-find p l lower e (ground (arith, g)) h in
        ground (arith, any-append p (lower_contents lower) (contents m))
    | inr g ↦
        let rest = any-entry_at p u l m e (ground (arith, g)) h in
        ground (arith, any-append p (lower_contents lower) (contents m))
  ]

  -- Where the keys are distinct, an entry that is visited is found under its key.
  find-any :
      (p : Entry D → Bool) (m : Dict (Entry D))
      → ((k : ℕ) → Dict.count k m ≤ 1)
      → any p (lower_contents m) ≡ true
      → (k : ℕ) × (e : Entry D) × (Dict.find k m ≡ some e) × (p e ≡ true)
  unfolding Dict.find Dict.count
  find-any p [] distinct h = absurd (ground arith)
  find-any p ((j, d) ∷ m) distinct h = elim (Bool-cases (p d)) [
    | inl e ↦ (j, d, ground arith, e)
    | inr e ↦
        let rest : any p (lower_contents m) ≡ true = ground (arith, e) in
        let (k, c, f, g) = find-any p m (λ q. omega (arith, distinct q)) rest in
        (k, c, ground (arith, find-count k m c f, distinct k), g)
  ]

  entry_at-find :
      (m : Dict (Dict (Entry D))) (u l : ℕ) (e : Entry D)
      → entry_at m u l ≡ some e
      → (lower : Dict (Entry D)) × (Dict.find u m ≡ some lower)
  unfolding entry_at
  entry_at-find m u l e f = elim (Option-cases (Dict.find u m)) [
    | inl g ↦ absurd (ground (arith, g))
    | inr found ↦ found
  ]

  entry_at-later :
      (u k l : ℕ) (lower : Dict (Entry D)) (m : Dict (Dict (Entry D)))
      → (u == k) ≡ false
      → entry_at ((u, lower) ∷ m) k l ≡ entry_at m k l
  unfolding entry_at Dict.find
  entry_at-later u k l lower m h = rw (h, entry_at) refl

  entry_at-any :
      (p : Entry D → Bool) (m : Dict (Dict (Entry D)))
      → ((k : ℕ) → Dict.count k m ≤ 1)
      → ((k : ℕ) (lower : Dict (Entry D)) (j : ℕ)
          → Dict.find k m ≡ some lower
          → Dict.count j lower ≤ 1)
      → any p (contents m) ≡ true
      → (u l : ℕ) × (e : Entry D) × (entry_at m u l ≡ some e) × (p e ≡ true)
  unfolding Dict.find Dict.count entry_at
  entry_at-any p [] distinct lower_distinct h = absurd (ground arith)
  entry_at-any p ((u, lower) ∷ m) distinct lower_distinct h =
      elim (Bool-cases (any p (lower_contents lower))) [
        | inl e ↦
            let (l, c, f, g) = find-any p lower (λ j. lower_distinct u lower j (ground arith)) e in
            (u, l, c, ground arith, g)
        | inr e ↦
            let rest : any p (contents m) ≡ true =
              ground (arith, any-append p (lower_contents lower) (contents m)) in
            let later : (k : ℕ) (low : Dict (Entry D))
                → Dict.find k m ≡ some low
                → (u == k) ≡ false =
              λ k low f. ground (arith, find-count k m low f, distinct k) in
            let (k, l, c, f, g) =
              entry_at-any p m (λ q. omega (arith, distinct q))
                (λ q low j f. lower_distinct q low j (rw (later q low f) f)) rest in
            let (low, there) = entry_at-find m k l c f in
            (k, l, c, entry_at-later u k l lower m (later k low there) ∙ f, g)
      ]

module _ {D P : Type 0} where
  -- In a valid database, a test holds of some entry that the loops visit just when it holds of one
  -- that a lookup finds.
  pub any-lookup :
      (p : Entry D → Bool) (s : LdmMap D P)
      → IsValid s
      → any p (contents s.ldmmap) ≡ true
      → (e : Entry D) × (lookup e.veh_data.station_id s ≡ (ok, some e)) × (p e ≡ true)
  any-lookup p s valid h =
      let (u, l, e, f, g) = entry_at-any p s.ldmmap valid.upper_distinct valid.lower_distinct h in
      let own = valid.filed u l e f in
      let there : entry_at s.ldmmap (key_upper e.veh_data.station_id)
            (key_lower e.veh_data.station_id)
          ≡ some e =
        subst (λ a. entry_at s.ldmmap a (key_lower e.veh_data.station_id) ≡ some e) own.0
          (subst (λ b. entry_at s.ldmmap u b ≡ some e) own.1 f) in
      (e, ground (arith, lookup-entry_at e.veh_data.station_id s), g)
