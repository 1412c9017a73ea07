-- ===== src/Store/Capacity.antt =====
-- The limit on the participants of a trip.
use myride_api.Common.{
  ℕ, ◌≤◌, ◌≡◌, ap, subst, some, List, arith, inl, inr, ◌==◌, ==_iff, Option-cases, Bool-cases,
  find_first, update_where, find_first-update_where,
}
use myride_api.Entities.{Trip}
use myride_api.Store.{trip_with_id}
use myride_api.Store.Members.{id_of_find}

-- No trip holds more approved participants than its limit.
abbrev pub IsWithinCapacity : List Trip → Type 0
IsWithinCapacity trips =
    (t : ℕ) (row : Trip)
    → find_first (trip_with_id t) trips ≡ some row
    → row.current_participants ≤ row.max_participants

-- A trip whose count is set within its limit, and its limit kept, stays within capacity.
pub update-IsWithinCapacity :
    (trips : List Trip) (trip_id : ℕ) (f : Trip → Trip)
    → IsWithinCapacity trips
    → ((x : Trip) → (f x).id ≡ x.id)
    → ((x : Trip)
        → find_first (trip_with_id trip_id) trips ≡ some x
        → (f x).current_participants ≤ (f x).max_participants)
    → IsWithinCapacity (update_where (trip_with_id trip_id) f trips)
update-IsWithinCapacity trips trip_id f h same_id fits t row e =
    let spec =
      find_first-update_where (trip_with_id t) (trip_with_id trip_id) f trips
        (λ x. ap (λ n. n == t) (same_id x)) in
    elim (Option-cases (find_first (trip_with_id t) trips)) [
      | inl none_there ↦ absurd (ground (arith, spec))
      | inr (old, there) ↦
          let held : old.id ≡ t = id_of_find t trips there in
          elim (Bool-cases (t == trip_id)) [
            | inl same ↦
                let at : find_first (trip_with_id trip_id) trips ≡ some old =
                  rw (← (==_iff t trip_id).0 same) there in
                let eq : f old ≡ row = ground (arith, spec) in
                subst (λ (r : Trip). r.current_participants ≤ r.max_participants) eq (fits old at)
            | inr other ↦
                let eq : old ≡ row = ground (arith, spec) in
                subst (λ (r : Trip). r.current_participants ≤ r.max_participants) eq (h t old there)
          ]
    ]
