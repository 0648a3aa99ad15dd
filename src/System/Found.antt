-- ===== src/System/Found.antt =====
-- The objects of the entries in a sound database, and the station IDs that a lookup finds.
use s_ldm.Common.{
  ℕ, ◌≡◌, ◌^◌, ◌<◌, sym, ap, subst, ◌∙◌, true, some, arith, is_some, Bool-cases, Option-cases, inl,
  inr,
}
use s_ldm.Double.{Double}
use s_ldm.Ldm.{Entry, LdmMap, lookup, entry_at, key_upper, key_lower}
use s_ldm.Ldm.Contents.{contents}
use s_ldm.Ldm.Insert.Effect.{lookup-entry_at}
use s_ldm.Ldm.Listing.{any, All-entry_at}
use s_ldm.Ldm.Listing.Lookup.{any-entry_at, any-lookup}
use s_ldm.Numeral.{same_text, to_string}
use s_ldm.Numeral.Decimal.{to_string_injective}
use s_ldm.Options.{Options}
use s_ldm.QuadKey.Keys.{same_text_refl}
use s_ldm.System.Backed.{IsStored, IsSoundDb}
use s_ldm.System.Shown.{has_id}

module _ {D P : Type 0} ⦃dbl : Double D⦄ (o : Options D) where
  found-entry_at :
      (n : ℕ) (s : LdmMap D P) (e : Entry D)
      → (lookup n s).1 ≡ some e
      → entry_at s.ldmmap (key_upper n) (key_lower n) ≡ some e
  found-entry_at n s e f = ground (arith, lookup-entry_at n s)

  -- what a lookup finds has a station ID of 32 bits
  found-narrow :
      (n : ℕ) (s : LdmMap D P) (e : Entry D)
      → IsSoundDb o s
      → (lookup n s).1 ≡ some e
      → e.veh_data.station_id < 2 ^ 32
  found-narrow n s e h f =
      (All-entry_at (IsStored o) (key_upper n) (key_lower n) s.ldmmap e h.stored
        (found-entry_at n s e f)).narrow

  found-same :
      (n : ℕ) (s : LdmMap D P) (e : Entry D)
      → IsSoundDb o s
      → n < 2 ^ 32
      → (lookup n s).1 ≡ some e
      → e.veh_data.station_id ≡ n
  found-same n s e h small f =
      let own = h.valid.filed (key_upper n) (key_lower n) e (found-entry_at n s e f) in
      let narrow = found-narrow n s e h f in omega (arith, own.0, own.1, narrow, small)

  -- A station ID of 32 bits has an entry, by its text, just where a lookup finds it.
  pub any-is_some :
      (n : ℕ) (s : LdmMap D P)
      → IsSoundDb o s
      → n < 2 ^ 32
      → any (has_id (to_string n)) (contents s.ldmmap) ≡ is_some (lookup n s).1
  any-is_some n s h small = elim (Bool-cases (any (has_id (to_string n)) (contents s.ldmmap))) [
    | inl e ↦
        let (d, f, g) = any-lookup (has_id (to_string n)) s h.valid e in
        let second : (lookup d.veh_data.station_id s).1 ≡ some d = ap (λ u. u.1) f in
        let narrow = found-narrow d.veh_data.station_id s d h second in
        let same : d.veh_data.station_id ≡ n =
          to_string_injective d.veh_data.station_id n (omega (arith, narrow)) (omega (arith, small))
            g in
        e ∙ sym (ap is_some (subst (λ k. (lookup k s).1 ≡ some d) same second))
    | inr e ↦ elim (Option-cases (lookup n s).1) [
      | inl f ↦ e ∙ sym (ap is_some f)
      | inr (d, f) ↦
          let same = found-same n s d h small f in
          let passes : has_id (to_string n) d ≡ true =
            ap (λ k. same_text (to_string k) (to_string n)) same ∙ same_text_refl (to_string n) in
          let visited =
            any-entry_at (has_id (to_string n)) (key_upper n) (key_lower n) s.ldmmap d
              (found-entry_at n s d f) passes in
          absurd (ground (arith, e, visited))
    ]
  ]
