-- ===== src/Ldm/Invariant.antt =====
-- What holds of the database between two calls.
use s_ldm.Common.{
  ℕ, ◌≤◌, ◌<◌, ◌^◌, ◌≡◌, refl, arith, true, none, some, ◌==◌, if◌then◌else◌, length, is_some,
}
use s_ldm.Dict
use s_ldm.Dict.{Dict}
use s_ldm.Ldm.{Entry, LdmMap, new, entry_at, key_upper, key_lower}

module _ {D : Type 0} where
  -- the number of the entries
  abbrev pub entries : Dict (Dict (Entry D)) → ℕ
  entries m = Dict.total length m

  -- how many entries point to `p`
  abbrev pub points : ℕ → Entry D → ℕ
  points p e = if e.ph_data == p then 1 else 0

  abbrev pub pointers : ℕ → Dict (Dict (Entry D)) → ℕ
  pointers p m = Dict.total (Dict.total (points p)) m

pub record IsValid {D P : Type 0} (s : LdmMap D P) : Type 0 where
  pub counted : s.card ≡ entries s.ldmmap
  pub bounded : s.card < 2 ^ 64
  pub upper_distinct : (k : ℕ) → Dict.count k s.ldmmap ≤ 1
  pub lower_distinct :
      (k : ℕ) (lower : Dict (Entry D)) (j : ℕ)
      → Dict.find k s.ldmmap ≡ some lower
      → Dict.count j lower ≤ 1
  -- an entry stands under the halves of its own station ID
  pub filed :
      (up low : ℕ) (e : Entry D)
      → entry_at s.ldmmap up low ≡ some e
      → (up ≡ key_upper e.veh_data.station_id) × (low ≡ key_lower e.veh_data.station_id)
  -- fresh pointers are unused, and each entry owns an object of its own
  pub fresh : (p : ℕ) → s.next ≤ p → Dict.find p s.heap ≡ none
  pub owned : (p : ℕ) → 0 < pointers p s.ldmmap → is_some (Dict.find p s.heap) ≡ true
  pub unshared : (p : ℕ) → pointers p s.ldmmap ≤ 1

-- the database that the constructor makes
pub new-IsValid : {D P : Type 0} (zero : D) → IsValid (new {P = P} zero)
unfolding new Dict.total Dict.count Dict.find entry_at
new-IsValid zero = record {
  counted = refl;
  bounded = omega arith;
  upper_distinct = λ k. omega arith;
  lower_distinct = λ k lower j f. ground arith;
  filed = λ u l e f. ground arith;
  fresh = λ p h. refl;
  owned = λ p h. ground arith;
  unshared = λ p. omega arith;
}
