-- ===== src/Trips/Membership/Capacity.antt =====
-- Approvals and the limit on the participants of a trip: src/modules/trips/trips.service.ts.
use myride_api.Common.{ℕ, refl, Bool, arith, inl, inr, Option-cases, find_first}
use myride_api.Store.{Db, trip_with_id, participant_of}
use myride_api.Store.Capacity.{IsWithinCapacity, update-IsWithinCapacity}
use myride_api.Store.Members.{id_of_find}
use myride_api.Trips.Membership.{approve_join}
use myride_api.Trips.Membership.Invariant.{approve_join_missing, approve_join_found}

-- An approval never takes a trip over its limit, whatever the request.
pub approve_join-IsWithinCapacity :
    (now : ℕ) (new_ids : ℕ → ℕ) (has_token : Bool) (trip_id admin_id user_id : ℕ) (db : Db)
    → IsWithinCapacity db.trips
    → IsWithinCapacity (approve_join now new_ids has_token trip_id admin_id user_id db).1.trips
approve_join-IsWithinCapacity now new_ids has_token trip_id admin_id user_id db h =
    elim (Option-cases (find_first (trip_with_id trip_id) db.trips)) [
      | inl missing ↦
          rw (approve_join_missing now new_ids has_token trip_id admin_id user_id db (inl missing))
            h
      | inr (trip, there) ↦
          elim (Option-cases (find_first (participant_of trip_id user_id) db.participants)) [
            | inl none_there ↦
                rw
                  (approve_join_missing now new_ids has_token trip_id admin_id user_id db
                    (inr none_there))
                  h
            | inr (p, found) ↦
                elim (approve_join_found now new_ids has_token trip_id admin_id user_id db there
                  found) [
                    | inl same ↦ rw same h
                    | inr done ↦
                        rw (done.counted, id_of_find trip_id db.trips there)
                          (update-IsWithinCapacity db.trips trip_id _ h (λ x. refl)
                            (λ x e. ground (arith, done.room)))
                  ]
          ]
    ]
