-- ===== src/Ldm/Remove.antt =====
-- `LDMMap::remove`. It searches the lower map under the lower 16 bits of the station ID and erases
-- under the low 32 bits, which are another key as soon as the upper half is not zero.
use s_ldm.Common.{
  ℕ, ◌+◌, ◌≡◌, ◌≢◌, ◌≤◌, ◌<◌, ◌%◌, ◌^◌, none, some, arith, ◌==◌, ◌&&◌, if◌then◌else◌, length,
  Option-cases, inl, inr, refl,
}
use s_ldm.Dict
use s_ldm.Dict.{Dict}
use s_ldm.Dict.Laws.{
  find-assign, find-erase, find-eq-none, count-erase_le, count-assign, length-erase, count-eq-zero,
}
use s_ldm.Dict.Totals.{total-assign, total-erase_le}
use s_ldm.Ldm.{
  Entry, LdmMap, ok, item_not_found, entry_at, key_upper, key_lower, lookup, remove, decrement,
}
use s_ldm.Ldm.Invariant.{IsValid, entries, points, pointers}
use s_ldm.Ldm.Write.{lower_at}
use s_ldm.Ldm.Insert.Effect.{lookup-entry_at, keys_apart}

module _ {D : Type 0} where
  -- the map after an erasure in one lower map
  abbrev without : (up key : ℕ) → Dict (Dict (Entry D)) → Dict (Dict (Entry D))
  without up key m = Dict.assign up (Dict.erase key (lower_at up m)) m

  entry_at-without :
      (up key : ℕ) (m : Dict (Dict (Entry D))) (u l : ℕ)
      → entry_at (without up key m) u l ≡ (if up == u && key == l then none else entry_at m u l)
  unfolding entry_at Dict.find
  entry_at-without up key m u l =
      ground (
        arith,
        find-assign up u (Dict.erase key (lower_at up m)) m,
        find-erase key l (lower_at up m),
      )

  entries-without :
      (up key : ℕ) (m : Dict (Dict (Entry D)))
      → entries m ≡ entries (without up key m) + Dict.count key (lower_at up m)
  unfolding Dict.count
  entries-without up key m = ground (
    arith,
    total-assign length up (Dict.erase key (lower_at up m)) m,
    length-erase key (lower_at up m),
  )

  pointers-without_le :
      (p up key : ℕ) (m : Dict (Dict (Entry D))) → pointers p (without up key m) ≤ pointers p m
  unfolding Dict.total
  pointers-without_le p up key m = ground (
    arith,
    total-assign (Dict.total (points p)) up (Dict.erase key (lower_at up m)) m,
    total-erase_le (points p) key (lower_at up m),
  )

  upper_distinct-without :
      (up key : ℕ) (m : Dict (Dict (Entry D)))
      → ((k : ℕ) → Dict.count k m ≤ 1)
      → (k : ℕ) → Dict.count k (without up key m) ≤ 1
  upper_distinct-without up key m h k =
      ground (arith, h k, count-assign up k (Dict.erase key (lower_at up m)) m)

  lower_distinct-without :
      (up key : ℕ) (m : Dict (Dict (Entry D)))
      → ((k : ℕ) (lower : Dict (Entry D)) (j : ℕ)
          → Dict.find k m ≡ some lower
          → Dict.count j lower ≤ 1)
      → (k : ℕ) (lower : Dict (Entry D)) (j : ℕ) → Dict.find k (without up key m) ≡ some lower
      → Dict.count j lower ≤ 1
  unfolding Dict.count
  lower_distinct-without up key m h k lower j f = ground (
    arith,
    find-assign up k (Dict.erase key (lower_at up m)) m,
    h k lower j,
    h up (lower_at up m) j,
    count-erase_le key j (lower_at up m),
  )

module _ {D P : Type 0} (q : ℕ) (s : LdmMap D P) where
  abbrev removed : LdmMap D P
  removed = record s {
    ldmmap = without (key_upper q) (q % 2 ^ 32) s.ldmmap;
    card = decrement s.card;
  }

  remove-removed : (e : Entry D) → lookup q s ≡ (ok, some e) → remove q s ≡ (ok, removed)
  unfolding remove lookup
  remove-removed e there = ground arith

  -- A station ID that is not there is reported, and nothing changes.
  pub remove_absent : (lookup q s).0 ≡ item_not_found → remove q s ≡ (item_not_found, s)
  unfolding remove lookup
  remove_absent absent = ground arith

  -- how often the key occurs under which the entry was found
  count_there :
      (e : Entry D)
      → IsValid s
      → lookup q s ≡ (ok, some e)
      → Dict.count (key_lower q) (lower_at (key_upper q) s.ldmmap) ≡ 1
  unfolding lookup
  count_there e valid there = ground (
    arith,
    find-eq-none (key_lower q) (lower_at (key_upper q) s.ldmmap),
    valid.lower_distinct (key_upper q) (lower_at (key_upper q) s.ldmmap) (key_lower q),
  )

  module _ (valid : IsValid s) (e : Entry D) (there : lookup q s ≡ (ok, some e)) where
    same_key : q % 2 ^ 32 < 2 ^ 16 → q % 2 ^ 32 ≡ key_lower q
    same_key small = omega arith

    removed-IsValid : q % 2 ^ 32 < 2 ^ 16 → IsValid removed
    removed-IsValid small = record {
      counted = ground (
        arith,
        valid.counted,
        valid.bounded,
        count_there e valid there,
        entries-without (key_upper q) (q % 2 ^ 32) s.ldmmap,
        same_key small,
      );
      bounded = omega arith;
      upper_distinct =
          upper_distinct-without (key_upper q) (q % 2 ^ 32) s.ldmmap valid.upper_distinct;
      lower_distinct =
          lower_distinct-without (key_upper q) (q % 2 ^ 32) s.ldmmap valid.lower_distinct;
      filed = λ u l d f.
          ground
            (arith, entry_at-without (key_upper q) (q % 2 ^ 32) s.ldmmap u l, valid.filed u l d);
      fresh = valid.fresh;
      owned = λ p h.
          valid.owned p (omega (arith, pointers-without_le p (key_upper q) (q % 2 ^ 32) s.ldmmap));
      unshared = λ p.
          omega
            (arith, valid.unshared p, pointers-without_le p (key_upper q) (q % 2 ^ 32) s.ldmmap);
    }

    -- In a valid database that has the station ID, and where its low 32 bits are below 2^16, `remove`
    -- returns `ok`, the database stays valid, the station ID is no longer found, and a station ID
    -- with other low 32 bits is found as before.
    pub remove_small :
        (r : ℕ)
        → q % 2 ^ 32 < 2 ^ 16
        → q % 2 ^ 32 ≢ r % 2 ^ 32
        → ((remove q s).0 ≡ ok)
          × IsValid (remove q s).1
          × (lookup q (remove q s).1 ≡ (item_not_found, none))
          × (lookup r (remove q s).1 ≡ lookup r s)
    remove_small r small h = rw (remove-removed e there) (
      refl,
      removed-IsValid small,
      ground (
        arith,
        lookup-entry_at q removed,
        entry_at-without (key_upper q) (q % 2 ^ 32) s.ldmmap (key_upper q) (key_lower q),
        same_key small,
      ),
      ground (
        arith,
        lookup-entry_at r removed,
        lookup-entry_at r s,
        keys_apart q r h,
        same_key small,
        entry_at-without (key_upper q) (q % 2 ^ 32) s.ldmmap (key_upper r) (key_lower r),
      ),
    )

    -- Nothing is filed under a lower key of more than 16 bits.
    no_wide_key :
        2 ^ 16 ≤ q % 2 ^ 32 → Dict.count (q % 2 ^ 32) (lower_at (key_upper q) s.ldmmap) ≡ 0
    unfolding Dict.count entry_at
    no_wide_key wide = elim (Option-cases (entry_at s.ldmmap (key_upper q) (q % 2 ^ 32))) [
      | inl e ↦ ground (arith, count-eq-zero (q % 2 ^ 32) (lower_at (key_upper q) s.ldmmap))
      | inr (d, f) ↦ absurd (omega (arith, valid.filed (key_upper q) (q % 2 ^ 32) d f))
    ]

    -- In a valid database that has the station ID, and where its low 32 bits are 2^16 or more, `remove`
    -- returns `ok` and removes nothing: every station ID, this one too, is found as before, while the cardinality is one less than the entries.
    pub remove_wide :
        2 ^ 16 ≤ q % 2 ^ 32
        → ((remove q s).0 ≡ ok)
          × ((r : ℕ) → lookup r (remove q s).1 ≡ lookup r s)
          × ((remove q s).1.card + 1 ≡ entries (remove q s).1.ldmmap)
    remove_wide wide = rw (remove-removed e there) (
      refl,
      λ r. ground (
        arith,
        lookup-entry_at r removed,
        lookup-entry_at r s,
        entry_at-without (key_upper q) (q % 2 ^ 32) s.ldmmap (key_upper r) (key_lower r),
      ),
      omega (
        arith,
        valid.counted,
        valid.bounded,
        count_there e valid there,
        entries-without (key_upper q) (key_lower q) s.ldmmap,
        entries-without (key_upper q) (q % 2 ^ 32) s.ldmmap,
        no_wide_key wide,
      ),
    )
