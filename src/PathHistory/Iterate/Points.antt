-- ===== src/PathHistory/Iterate/Points.antt =====
-- The loop over `iterate` ends, and reads the points from the newest to the oldest.
use s_ldm.Common.{
  ℕ, zero, suc, ◌+◌, ◌-◌, ◌≡◌, ◌≤◌, ◌<◌, refl, ap, ◌∙◌, sym, true, false, none, some, List, [], ◌∷◌,
  ltb, leb, if◌then◌else◌, arith, length, get_elem?, Bool-cases, inl, inr, subst,
}
use s_ldm.PathHistory.{PhData, PhPoints, php_continue_iteration, php_terminate_iteration, slot}
use s_ldm.PathHistory.Access.{Gives-some, slot-Gives}
use s_ldm.PathHistory.Iterate.{PhDataIter, initializer, step_back, begin, iterate, read_points}
use s_ldm.PathHistory.Ring.{IsRing}

module _ {D : Type 0} (p : PhPoints D) where
  -- the index `k` places before the next one, in the cyclic array
  unfoldable pub index_before : ℕ → ℕ
  index_before k = if leb k p.next_idx then p.next_idx - k else p.next_idx + p.reserved_size - k

  -- how many points are left out: the current one, unless all are read
  unfoldable pub skipped : ℕ
  skipped = if p.iterate_full then 0 else 1

  step_back-index_before :
      (k : ℕ)
      → p.next_idx < p.reserved_size
      → k < p.reserved_size
      → (step_back p (index_before k) ≡ index_before (k + 1))
        × (index_before (k + 1) < p.reserved_size)
  unfolding step_back index_before
  step_back-index_before k h l = ground arith

  -- an iterator that has read up to the point of its index
  pub record IsAt (it : PhDataIter D) : Type 0 where
    pub started : it.started ≡ true
    pub size : it.array_size ≡ p.size
    pub cyclic : it.cyclic_idx ≡ index_before it.idx

  -- the points from an index on
  unfoldable pub ArePoints : ℕ → List (PhData D) → Type 0
  ArePoints idx points =
      (length points ≡ p.size - idx)
      × ((j : ℕ)
          → get_elem? points j ≡ (
              if ltb j (p.size - idx)
              then slot (index_before (idx + 1 + j)) p.data_array
              else none))

  begin-started : (it : PhDataIter D) → it.started ≡ true → begin p it ≡ it
  unfolding begin
  begin-started it e = simp e

  iterate-read :
      (it : PhDataIter D)
      → IsRing p
      → IsAt it
      → it.idx < p.size
      → (d : PhData D) × (it' : PhDataIter D) × (iterate p it ≡ some (php_continue_iteration, it'))
        × IsAt it'
        × (it'.idx ≡ it.idx + 1)
        × (it'.data_read ≡ some d)
        × (slot (index_before (it.idx + 1)) p.data_array ≡ some d)
  unfolding iterate
  iterate-read it r a l =
      let same = begin-started it a.started in
      let (back, bound) = step_back-index_before it.idx r.next (omega (arith, l, r.bounded)) in
      let i = index_before (it.idx + 1) in
      let at : step_back p it.cyclic_idx ≡ i = ap (step_back p) a.cyclic ∙ back in
      let (d, e, _) =
        Gives-some _ (slot i p.data_array)
          (slot-Gives i p.data_array (omega (arith, r.memory, bound))) in
      let less : ltb it.idx it.array_size ≡ true = ground (arith, a.size) in
      (
        d,
        record it { cyclic_idx = i; idx = it.idx + 1; data_read = some d },
        simp (iterate, same, at, less, e),
        record { started = a.started; size = a.size; cyclic = refl },
        refl,
        refl,
        e,
      )

  iterate-end :
      (it : PhDataIter D)
      → IsAt it
      → p.size ≤ it.idx
      → iterate p it ≡ some (php_terminate_iteration, it)
  unfolding iterate
  iterate-end it a l =
      let same = begin-started it a.started in
      let done : ltb it.idx it.array_size ≡ false = ground (arith, a.size) in
      simp (iterate, same, done)

  ArePoints-none : (idx : ℕ) → p.size ≤ idx → ArePoints idx []
  unfolding ArePoints
  ArePoints-none idx l = (omega arith, λ j. ground arith)

  ArePoints-next :
      (idx idx' : ℕ) (d : PhData D) (points : List (PhData D))
      → idx < p.size
      → idx' ≡ idx + 1
      → slot (index_before (idx + 1)) p.data_array ≡ some d
      → ArePoints idx' points
      → ArePoints idx (d ∷ points)
  unfolding ArePoints
  ArePoints-next idx idx' d points l e g (size, at) = (omega arith, there)
    where
      there :
          (j : ℕ)
          → get_elem? (d ∷ points) j ≡ (
              if ltb j (p.size - idx) then slot (index_before (idx + 1 + j)) p.data_array else none)
      there zero =
          let same : idx + 1 + 0 ≡ idx + 1 = omega arith in
          let inside : ltb 0 (p.size - idx) ≡ true = ground arith in rw (inside, same) (sym g)
      there (suc j) =
          let same : idx' + 1 + j ≡ idx + 1 + suc j = omega arith in
          let inside : ltb (suc j) (p.size - idx) ≡ ltb j (p.size - idx') = ground arith in
          rw (inside, ← same) (at j)

  read_points-ArePoints :
      (fuel : ℕ) (it : PhDataIter D)
      → IsRing p
      → IsAt it
      → p.size < fuel + it.idx
      → 0 < fuel
      → (points : List (PhData D)) × (read_points fuel p it ≡ some points) × ArePoints it.idx points
  unfolding read_points
  read_points-ArePoints zero it r a f b = absurd (omega arith)
  read_points-ArePoints (suc fuel) it r a f b = elim (Bool-cases (ltb it.idx p.size)) [
    | inr e ↦ (
      [],
      simp (read_points, iterate-end it a (ground arith)),
      ArePoints-none it.idx (ground arith),
    )
    | inl e ↦
        let (d, it', h, a', i, q, g) = iterate-read it r a (ground arith) in
        let (points, t, ps) = read_points-ArePoints fuel it' r a' (omega arith) (ground arith) in
        (
          d ∷ points,
          simp (read_points, h, q, t),
          ArePoints-next it.idx it'.idx d points (ground arith) i g ps,
        )
  ]

  begin-IsAt : IsAt (begin p initializer) × ((begin p initializer).idx ≡ skipped)
  unfolding begin initializer skipped index_before step_back
  begin-IsAt = elim (Bool-cases p.iterate_full) [
    | inl e ↦ (record { started = refl; size = refl; cyclic = ground arith }, refl)
    | inr e ↦ (record { started = refl; size = refl; cyclic = ground arith }, refl)
  ]

  read_points-begin :
      (fuel : ℕ)
      → read_points (suc fuel) p initializer ≡ read_points (suc fuel) p (begin p initializer)
  unfolding read_points iterate
  read_points-begin fuel =
      let again : begin p (begin p initializer) ≡ begin p initializer =
        begin-started (begin p initializer) begin-IsAt.0.started in
      simp again

  -- The loop in which the points of a vehicle are read ends after one call more than there are
  -- points. It gets each stored point once, from the newest to the oldest, the current one only if
  -- the history is set to iterate in full, and none of its reads is outside of the array.
  pub read_points_lem :
      IsRing p
      → (points : List (PhData D)) × (read_points (p.size + 1) p initializer ≡ some points)
        × (length points ≡ p.size - skipped)
        × ((j : ℕ)
            → get_elem? points j ≡ (
                if ltb j (p.size - skipped)
                then slot (index_before (skipped + 1 + j)) p.data_array
                else none))
  unfolding ArePoints
  read_points_lem r =
      let (a, e) = begin-IsAt in
      let (points, t, ps) =
        read_points-ArePoints (suc p.size) (begin p initializer) r a (omega arith) (omega arith) in
      let fuel : p.size + 1 ≡ suc p.size = omega arith in
      let (size, at) = subst (λ i. ArePoints i points) e ps in
      (points, rw fuel (read_points-begin p.size ∙ t), size, at)
