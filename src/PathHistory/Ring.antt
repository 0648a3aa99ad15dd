-- ===== src/PathHistory/Ring.antt =====
-- The indices of the cyclic array stay inside of it.
use native.Mathlib.Nat.{mod-lt}
use s_ldm.Common.{
  ℕ, zero, suc, ◌+◌, ◌-◌, ◌%◌, ◌≡◌, ◌≢◌, ◌≤◌, ◌<◌, ◌⊎◌, ◌↔◌, inl, inr, refl, true, ◌&&◌, some, ◌==◌,
  ltb, if◌then◌else◌, arith, length, Bool-cases, ◌∙◌, subst,
}
use s_ldm.Decoder.Bytes.{◌>>=◌}
use s_ldm.Double.{Double}
use s_ldm.PathHistory.{
  PhPoints, PhpRetval, php_inserted, php_skipped, slot, set_slot, prev_idx, drop_oldest, drop_while,
  make_room, append_point, point_of, is_skipped, is_long, insert,
}
use s_ldm.Vehicle.{VehicleData}
use s_ldm.PathHistory.Access.{
  Gives, Gives-map, if-Gives, when-Gives, Gives-some, Gives-bind, slot-Gives, set_slot-Gives,
}

mod_lt : (n m i : ℕ) → i < m → n % m < m
mod_lt n m i h = mod-lt n (omega arith)

module _ {D : Type 0} where
  pub record IsRing (p : PhPoints D) : Type 0 where
    pub memory : length p.data_array ≡ p.reserved_size
    pub next : p.next_idx < p.reserved_size
    pub oldest : p.oldest_idx < p.reserved_size
    pub bounded : p.size ≤ p.reserved_size

  -- the points and the place of the next one are as before
  pub record IsShorter (p q : PhPoints D) : Type 0 where
    pub ring : IsRing q
    pub same_data : q.data_array ≡ p.data_array
    pub same_next : q.next_idx ≡ p.next_idx
    pub same_reserved : q.reserved_size ≡ p.reserved_size

  drop_oldest-IsShorter :
      ⦃dbl : Double D⦄ (p : PhPoints D)
      → IsRing p
      → Gives (λ q. IsShorter p q × (q.size ≡ p.size - 1)) (drop_oldest p)
  unfolding drop_oldest
  drop_oldest-IsShorter p r =
      Gives-bind (λ a. Unit {0}) _ (slot p.oldest_idx p.data_array) _
        (slot-Gives p.oldest_idx p.data_array (omega (arith, r.oldest, r.memory)))
        λ oldest u. (
          record {
            ring = record {
              memory = r.memory;
              next = r.next;
              oldest = mod_lt (p.oldest_idx + 1) p.reserved_size p.next_idx r.next;
              bounded = omega (arith, r.bounded);
            };
            same_data = refl;
            same_next = refl;
            same_reserved = refl;
          },
          refl,
        )

module _ {D : Type 0} ⦃dbl : Double D⦄ where
  IsShorter-trans : (p q s : PhPoints D) → IsShorter p q → IsShorter q s → IsShorter p s
  IsShorter-trans p q s a b = record {
    ring = b.ring;
    same_data = b.same_data ∙ a.same_data;
    same_next = b.same_next ∙ a.same_next;
    same_reserved = b.same_reserved ∙ a.same_reserved;
  }

  drop_while-IsShorter : (n : ℕ) (p : PhPoints D) → IsRing p → Gives (IsShorter p) (drop_while n p)
  unfolding drop_while
  drop_while-IsShorter zero p r = record {
    ring = r;
    same_data = refl;
    same_next = refl;
    same_reserved = refl;
  }
  drop_while-IsShorter (suc n) p r = elim (Bool-cases (is_long p && ltb 1 p.size)) [
    | inl e ↦ rw e (
        Gives-bind (λ q. IsShorter p q × (q.size ≡ p.size - 1)) _ (drop_oldest p) _
          (drop_oldest-IsShorter p r)
          λ q (s, z).
            Gives-map (IsShorter q) (IsShorter p) (drop_while n q)
              (λ x h. IsShorter-trans p q x s h) (drop_while-IsShorter n q s.ring))
    | inr e ↦ rw e (record { ring = r; same_data = refl; same_next = refl; same_reserved = refl })
  ]

  make_room-IsShorter : (p : PhPoints D) → IsRing p → Gives (IsShorter p) (make_room p)
  unfolding make_room
  make_room-IsShorter p r =
      if-Gives (IsShorter p) p.remove_only_one _ _
        (if-Gives (IsShorter p) (is_long p) _ _
          (Gives-map _ (IsShorter p) (drop_oldest p) (λ x h. h.0) (drop_oldest-IsShorter p r))
          (record { ring = r; same_data = refl; same_next = refl; same_reserved = refl }))
        (drop_while-IsShorter p.size p r)

  -- the point is the last one, and the indices stay inside
  pub record IsAppended (v : VehicleData D) (d : D) (p q : PhPoints D) : Type 0 where
    pub ring : IsRing q
    pub stored : slot p.next_idx q.data_array ≡ some (point_of v d)
    pub advanced : q.next_idx ≡ (p.next_idx + 1) % p.reserved_size

  append_point-IsAppended :
      (v : VehicleData D) (d : D) (p : PhPoints D)
      → IsRing p
      → Gives (IsAppended v d p) (append_point v d p)
  unfolding append_point
  append_point-IsAppended v d p r =
      Gives-bind
        (λ bs. (length bs ≡ length p.data_array) × (slot p.next_idx bs ≡ some (point_of v d))) _
        (set_slot p.next_idx (point_of v d) p.data_array) _
        (set_slot-Gives p.next_idx (point_of v d) p.data_array (omega (arith, r.next, r.memory)))
        λ bs (l, s). record {
          ring = record {
            memory = l ∙ r.memory;
            next = mod_lt (p.next_idx + 1) p.reserved_size p.next_idx r.next;
            oldest = r.oldest;
            bounded = ground (arith, r.bounded);
          };
          stored = s;
          advanced = refl;
        }

  -- a call of `insert` either skips the update or appends it
  pub record IsInserted (v : VehicleData D) (p : PhPoints D) (r : PhpRetval × PhPoints D)
      : Type 0 where
    pub ring : IsRing r.1
    pub result :
        ((r.0 ≡ php_skipped) × (r.1 ≡ p))
        ⊎ ((r.0 ≡ php_inserted)
            × (r.1.next_idx ≡ (p.next_idx + 1) % p.reserved_size)
            × ((d : D) × (slot p.next_idx r.1.data_array ≡ some (point_of v d))))

  appended-IsInserted :
      (v : VehicleData D) (d : D) (p q : PhPoints D)
      → IsRing q
      → q.next_idx ≡ p.next_idx
      → q.reserved_size ≡ p.reserved_size
      → Gives (IsInserted v p) (do done ← append_point v d q; some (php_inserted, done))
  appended-IsInserted v d p q r n s =
      Gives-bind (IsAppended v d q) (IsInserted v p) (append_point v d q) _
        (append_point-IsAppended v d q r)
        λ done a. record {
          ring = a.ring;
          result = inr (
            refl,
            a.advanced ∙ rw (n, s),
            (d, subst (λ i. slot i done.data_array ≡ some (point_of v d)) n a.stored),
          );
        }

  prev_idx_inside :
      (p : PhPoints D) → IsRing p → ltb 0 p.size ≡ true → prev_idx p < length p.data_array
  unfolding prev_idx
  prev_idx_inside p r e = ground (arith, r.memory, r.bounded, r.next)

  insert-Gives :
      (v : VehicleData D) (p : PhPoints D) → IsRing p → Gives (IsInserted v p) (insert v p)
  unfolding insert
  insert-Gives v p r =
      when-Gives (IsInserted v p) (ltb 0 p.size) _ _
        (λ e.
          Gives-bind (λ a. Unit {0}) (IsInserted v p) (slot (prev_idx p) p.data_array) _
            (slot-Gives (prev_idx p) p.data_array (prev_idx_inside p r e))
            λ prev u.
              if-Gives (IsInserted v p) (is_skipped p v prev _) _ _
                (record { ring = r; result = inl (refl, refl) })
                (Gives-bind (IsShorter p) (IsInserted v p) (make_room p) _ (make_room-IsShorter p r)
                  λ shorter s.
                    appended-IsInserted v _ p _
                      (record {
                        memory = s.ring.memory;
                        next = s.ring.next;
                        oldest = s.ring.oldest;
                        bounded = s.ring.bounded;
                      })
                      s.same_next s.same_reserved))
        (λ e. appended-IsInserted v (dbl.of_ℕ 0) p p r refl refl)

  -- With indices inside of the array, `insert` makes no access past it and leaves such indices; it
  -- skips the update and changes nothing, or stores it in the next slot and advances.
  pub insert-IsInserted :
      (v : VehicleData D) (p : PhPoints D)
      → IsRing p
      → (r : PhpRetval × PhPoints D) × (insert v p ≡ some r) × IsInserted v p r
  insert-IsInserted v p r = Gives-some (IsInserted v p) (insert v p) (insert-Gives v p r)

  -- With indices inside of the array and at least one point, the index of the point that an update is
  -- compared with is that of the slot before the next one, cyclically, exactly where the next one is
  -- not the first slot or the array is full.
  prev_idx_iff :
      (p : PhPoints D)
      → IsRing p
      → 0 < p.size
      → (prev_idx p ≡ (if p.next_idx == 0 then p.reserved_size - 1 else p.next_idx - 1))
        ↔ ((p.next_idx ≢ 0) ⊎ (p.size ≡ p.reserved_size))
  unfolding prev_idx
  prev_idx_iff p r some_points = ground (arith, r.bounded)
