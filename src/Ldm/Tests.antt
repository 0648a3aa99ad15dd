-- ===== src/Ldm/Tests.antt =====
-- The theorems on the database at concrete inputs. A path history is the list of its latitudes.
use s_ldm.Common.{
  ℕ, ◌+◌, ◌-◌, if◌then◌else◌, ◌≡◌, ◌≢◌, ◌^◌, refl, true, some, none, List, [], ◌∷◌, arith, is_some,
}
use s_ldm.Dict
use s_ldm.Ldm.{
  History, LdmMap, LdmMapError, ok, item_not_found, Entry, new, insert, place, add_point, entry_at,
  lookup, remove,
}
use s_ldm.Ldm.Invariant.{IsValid, new-IsValid, pointers, entries}
use s_ldm.Ldm.Insert.Effect.{Inserted, insert-Inserted}
use s_ldm.Ldm.Remove.{remove_small, remove_wide}
use s_ldm.Ldm.Scan.{delete_older_than, is_older}
use s_ldm.Ldm.Aging.{delete_older_than_lem, delete_older_than_leaks}
use s_ldm.Samples.{nat_double, vehicle}

instance abbrev list_history : History ℕ (List ℕ)
list_history = record { create = []; record_point = λ v p. v.lat ∷ p }

abbrev empty : LdmMap ℕ (List ℕ)
empty = new 0

empty-IsValid : IsValid empty
empty-IsValid = new-IsValid 0

program : Unit {0}
unfolding new insert place add_point entry_at lookup remove Dict.find Dict.assign Dict.erase
    is_older
program = tt

empty-room : empty.card ≢ 2 ^ 64 - 1
unfolding new
empty-room = omega arith

insert-Inserted_example :
    (r : LdmMapError × LdmMap ℕ (List ℕ)) × (insert (vehicle 7 45 9 1000) empty ≡ some r)
    × Inserted (vehicle 7 45 9 1000) empty r
insert-Inserted_example = insert-Inserted (vehicle 7 45 9 1000) empty empty-IsValid empty-room

-- databases with one vehicle, whose station ID is small or wide
abbrev first :
    (r : LdmMapError × LdmMap ℕ (List ℕ)) × (insert (vehicle 7 45 9 1000) empty ≡ some r)
    × Inserted (vehicle 7 45 9 1000) empty r
first = insert-Inserted (vehicle 7 45 9 1000) empty empty-IsValid empty-room

abbrev one : LdmMap ℕ (List ℕ)
one = first.0.1

abbrev there_one : (e : Entry ℕ) × (lookup 7 one ≡ (ok, some e))
there_one = (_, first.2.there.1)

remove_small_example :
    ((remove 7 one).0 ≡ ok)
    × IsValid (remove 7 one).1
    × (lookup 7 (remove 7 one).1 ≡ (item_not_found, none))
    × (lookup 8 (remove 7 one).1 ≡ lookup 8 one)
remove_small_example =
    remove_small 7 one first.2.valid there_one.0 there_one.1 8 (omega arith) (omega arith)

abbrev wide :
    (r : LdmMapError × LdmMap ℕ (List ℕ)) × (insert (vehicle 70000 45 9 1000) empty ≡ some r)
    × Inserted (vehicle 70000 45 9 1000) empty r
wide = insert-Inserted (vehicle 70000 45 9 1000) empty empty-IsValid empty-room

remove_wide_example :
    ((remove 70000 wide.0.1).0 ≡ ok)
    × ((r : ℕ) → lookup r (remove 70000 wide.0.1).1 ≡ lookup r wide.0.1)
    × ((remove 70000 wide.0.1).1.card + 1 ≡ entries (remove 70000 wide.0.1).1.ldmmap)
remove_wide_example = remove_wide 70000 wide.0.1 wide.2.valid _ wide.2.there.1 (omega arith)

delete_older_than_lem_example :
    IsValid (delete_older_than 5 9000 one)
    × ((q : ℕ)
        → lookup q (delete_older_than 5 9000 one) ≡ elim (lookup q one).1 [
          | none ↦ (item_not_found, none)
          | some e ↦ if is_older 5 9000 e then (item_not_found, none) else (ok, some e)
        ])
delete_older_than_lem_example = delete_older_than_lem 5 9000 one first.2.valid

delete_older_than_leaks_example :
    (is_some (Dict.find there_one.0.ph_data (delete_older_than 5 9000 one).heap) ≡ true)
    × (pointers there_one.0.ph_data (delete_older_than 5 9000 one).ldmmap ≡ 0)
delete_older_than_leaks_example =
    delete_older_than_leaks 5 9000 one first.2.valid 7 there_one.0 there_one.1
      (unfold program in refl)
