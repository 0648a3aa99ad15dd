-- ===== src/PathHistory/Iterate.antt =====
-- src/PHpoints.cpp, `PHpoints::iterate`, and the loop in which src/JSONserver.cpp and
-- src/ManeuveringServiceRESTclient.cpp read the points of a vehicle.
pub mod Points
use s_ldm.Common.{
  ℕ, zero, suc, ◌+◌, ◌-◌, Bool, true, false, Option, none, some, List, [], ◌∷◌, ◌==◌, ltb,
  if◌then◌else◌,
}
use s_ldm.Decoder.Bytes.{◌>>=◌}
use s_ldm.PathHistory.{
  PhData, PhPoints, PhpRetval, php_continue_iteration, php_terminate_iteration, slot,
}

-- `PHDataIter_t`: `started` is that the pointer to the array is set
pub record PhDataIter (D : Type 0) : Type 0 where
  pub started : Bool
  pub data_read : Option (PhData D)
  pub idx : ℕ
  pub cyclic_idx : ℕ
  pub array_size : ℕ

module _ {D : Type 0} where
  -- `PHDATAITER_INITIALIZER`
  unfoldable pub initializer : PhDataIter D
  initializer = record {
    started = false;
    data_read = none;
    idx = 0;
    cyclic_idx = 0;
    array_size = 0;
  }

  -- the index before, in the cyclic array
  unfoldable pub step_back : PhPoints D → ℕ → ℕ
  step_back p i = if i == 0 then p.reserved_size - 1 else i - 1

  -- the first call
  unfoldable pub begin : PhPoints D → PhDataIter D → PhDataIter D
  unfolding step_back
  begin p it = if it.started then it else (record it {
    started = true;
    cyclic_idx = if p.iterate_full then p.next_idx else step_back p p.next_idx;
    idx = if p.iterate_full then 0 else 1;
    array_size = p.size;
  })

  -- `iterate` with a null pointer for the next point; `none` is an access past the memory
  unfoldable pub iterate : PhPoints D → PhDataIter D → Option (PhpRetval × PhDataIter D)
  unfolding begin step_back
  iterate p it =
      let it' = begin p it in
      let i = step_back p it'.cyclic_idx in
      let read = slot i p.data_array >>= λ d. some (
        php_continue_iteration,
        record it' { cyclic_idx = i; idx = it'.idx + 1; data_read = some d },
      ) in
      if ltb it'.idx it'.array_size then read else some (php_terminate_iteration, it')

  -- What `nextPHData` is set to after a point was read, where it is not null; `none` in the result
  -- is a point of `INVALID_PHDATA`.
  unfoldable pub next_point : PhPoints D → PhDataIter D → Option (Option (PhData D))
  unfolding step_back
  next_point p it =
      let found = slot (step_back p it.cyclic_idx) p.data_array >>= λ d. some (some d) in
      if ltb it.idx (it.array_size - 1) then found else some none

  -- the `while` loop, with the points it pushes; `none` if the fuel runs out
  unfoldable pub read_points : (fuel : ℕ) → PhPoints D → PhDataIter D → Option (List (PhData D))
  read_points zero p it = none
  read_points (suc fuel) p it = iterate p it >>= λ (status, it').
      let rest = read_points fuel p it' in
      elim status [
        | php_terminate_iteration ↦ some []
        | _ ↦ rest >>= λ points. some (elim it'.data_read [ some d ↦ d ∷ points | none ↦ points ])
      ]
