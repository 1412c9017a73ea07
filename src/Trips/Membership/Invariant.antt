-- ===== src/Trips/Membership/Invariant.antt =====
-- The membership methods of src/modules/trips/trips.service.ts and the invariant of the trips.
use myride_api.Common.{
  ℕ, ◌+◌, ◌-◌, ◌<◌, ◌≡◌, refl, sym, Bool, true, false, some, none, [], ◌∷◌, ◌++◌, arith, ◌==◌, inl,
  inr, ◌⊎◌, Option-cases, find_first, update_where, count_where-pos,
}
use myride_api.Entities.{Trip, TripParticipant, is_approved, is_pending}
use myride_api.Store.{Db, trip_with_id, participant_of, participant_with_id, is_member_of}
use myride_api.Store.Members.{
  IsConsistent, insert-AreConsistent, trip_id_of_find, save-AreConsistent,
  save_counting-AreConsistent,
}
use myride_api.Progress.Seed.{ensure_rows_exist}
use myride_api.Trips.Membership.{
  request_join, request_again, new_request, approve_join, approve_row, reject_join, reject_row,
  leave_trip, leave_row,
}

module _ (now new_id trip_id user_id : ℕ) (db : Db) where
  request_join_missing :
      find_first (trip_with_id trip_id) db.trips ≡ none
      → (request_join now new_id trip_id user_id db).1 ≡ db
  unfolding request_join
  request_join_missing e = ground arith

  request_join_first :
      {trip : Trip}
      → find_first (trip_with_id trip_id) db.trips ≡ some trip
      → find_first (participant_of trip_id user_id) db.participants ≡ none
      → let db' = (request_join now new_id trip_id user_id db).1 in
        (db' ≡ db)
        ⊎ (db' ≡ record db {
          participants = db.participants ++ new_request now new_id trip_id user_id trip ∷ [];
        })
  unfolding request_join
  request_join_first e n = ground arith

  request_join_again :
      {trip : Trip} {p : TripParticipant}
      → find_first (trip_with_id trip_id) db.trips ≡ some trip
      → find_first (participant_of trip_id user_id) db.participants ≡ some p
      → let db' = (request_join now new_id trip_id user_id db).1 in
        (db' ≡ db)
        ⊎ ((is_approved p.status ≡ false)
            × (db' ≡ record db {
              participants = update_where (λ x. x.id == p.id) request_again db.participants;
            }))
  unfolding request_join
  request_join_again e n = ground arith

-- A join request keeps participant rows unique and every trip's count right, whatever it answers,
-- if the id that the database generates for a new row is fresh.
pub request_join-IsConsistent :
    (now new_id trip_id user_id : ℕ) (db : Db)
    → IsConsistent db
    → find_first (participant_with_id new_id) db.participants ≡ none
    → IsConsistent (request_join now new_id trip_id user_id db).1
request_join-IsConsistent now new_id trip_id user_id db h fresh =
    elim (Option-cases (find_first (trip_with_id trip_id) db.trips)) [
      | inl missing ↦ rw (request_join_missing now new_id trip_id user_id db missing) h
      | inr (trip, there) ↦
          elim (Option-cases (find_first (participant_of trip_id user_id) db.participants)) [
            | inl single ↦ elim (request_join_first now new_id trip_id user_id db there single) [
              | inl same ↦ rw same h
              | inr added ↦ rw added (insert-AreConsistent h _ fresh single refl)
            ]
            | inr (p, found) ↦ elim (request_join_again now new_id trip_id user_id db there found) [
              | inl same ↦ rw same h
              | inr (waits, saved) ↦ rw saved (
                  save-AreConsistent h trip_id user_id p found request_again (λ x. refl) (λ x. refl)
                    (sym waits))
            ]
          ]
    ]

module _ (now : ℕ) (new_ids : ℕ → ℕ) (has_token : Bool) (trip_id admin_id user_id : ℕ)
    (db : Db) where
  -- What an approval has written, if it wrote anything.
  pub record Approves (trip : Trip) (p : TripParticipant) (db' : Db) : Type 0 where
    pub waiting : is_pending p.status ≡ true
    pub room : trip.current_participants < trip.max_participants
    pub saved :
        db'.participants ≡ update_where (λ x. x.id == p.id) (approve_row now) db.participants
    pub counted :
        db'.trips
        ≡ update_where
            (trip_with_id trip.id)
            (λ t. record t { current_participants = trip.current_participants + 1 })
            db.trips

  pub approve_join_missing :
      (find_first (trip_with_id trip_id) db.trips ≡ none)
        ⊎ (find_first (participant_of trip_id user_id) db.participants ≡ none)
      → (approve_join now new_ids has_token trip_id admin_id user_id db).1 ≡ db
  unfolding approve_join
  approve_join_missing e = ground arith

  pub approve_join_found :
      {trip : Trip} {p : TripParticipant}
      → find_first (trip_with_id trip_id) db.trips ≡ some trip
      → find_first (participant_of trip_id user_id) db.participants ≡ some p
      → let db' = (approve_join now new_ids has_token trip_id admin_id user_id db).1 in
        (db' ≡ db) ⊎ Approves trip p db'
  unfolding approve_join ensure_rows_exist
  approve_join_found e n = ground arith

-- An approval keeps participant rows unique and every trip's count right, whatever it answers.
pub approve_join-IsConsistent :
    (now : ℕ) (new_ids : ℕ → ℕ) (has_token : Bool) (trip_id admin_id user_id : ℕ) (db : Db)
    → IsConsistent db
    → IsConsistent (approve_join now new_ids has_token trip_id admin_id user_id db).1
approve_join-IsConsistent now new_ids has_token trip_id admin_id user_id db h =
    elim (Option-cases (find_first (trip_with_id trip_id) db.trips)) [
      | inl missing ↦
          rw (approve_join_missing now new_ids has_token trip_id admin_id user_id db (inl missing))
            h
      | inr (trip, there) ↦
          elim (Option-cases (find_first (participant_of trip_id user_id) db.participants)) [
            | inl none_there ↦
                rw
                  (approve_join_missing now new_ids has_token trip_id admin_id user_id db
                    (inr none_there))
                  h
            | inr (p, found) ↦
                elim (approve_join_found now new_ids has_token trip_id admin_id user_id db there
                  found) [
                    | inl same ↦ rw same h
                    | inr done ↦
                        rw (done.saved, done.counted)
                          (save_counting-AreConsistent h trip_id user_id p found (approve_row now)
                            (λ x. refl) (λ x. refl) trip _ there (λ x. refl)
                            (ground (arith, done.waiting)))
                  ]
          ]
    ]

module _ (trip_id admin_id user_id : ℕ) (db : Db) where
  pub reject_join_missing :
      (find_first (trip_with_id trip_id) db.trips ≡ none)
        ⊎ (find_first (participant_of trip_id user_id) db.participants ≡ none)
      → (reject_join trip_id admin_id user_id db).1 ≡ db
  unfolding reject_join
  reject_join_missing e = ground arith

  reject_join_found :
      {trip : Trip} {p : TripParticipant}
      → find_first (trip_with_id trip_id) db.trips ≡ some trip
      → find_first (participant_of trip_id user_id) db.participants ≡ some p
      → let db' = (reject_join trip_id admin_id user_id db).1 in
        (db' ≡ db)
        ⊎ ((is_approved p.status ≡ false)
            × (db' ≡ record db {
              participants = update_where (λ x. x.id == p.id) reject_row db.participants;
            }))
  unfolding reject_join
  reject_join_found e n = ground arith

-- A rejection keeps participant rows unique and every trip's count right, whatever it answers.
pub reject_join-IsConsistent :
    (trip_id admin_id user_id : ℕ) (db : Db)
    → IsConsistent db
    → IsConsistent (reject_join trip_id admin_id user_id db).1
reject_join-IsConsistent trip_id admin_id user_id db h =
    elim (Option-cases (find_first (trip_with_id trip_id) db.trips)) [
      | inl missing ↦ rw (reject_join_missing trip_id admin_id user_id db (inl missing)) h
      | inr (trip, there) ↦
          elim (Option-cases (find_first (participant_of trip_id user_id) db.participants)) [
            | inl none_there ↦
                rw (reject_join_missing trip_id admin_id user_id db (inr none_there)) h
            | inr (p, found) ↦ elim (reject_join_found trip_id admin_id user_id db there found) [
              | inl same ↦ rw same h
              | inr (waits, saved) ↦ rw saved (
                  save-AreConsistent h trip_id user_id p found reject_row (λ x. refl) (λ x. refl)
                    (sym waits))
            ]
          ]
    ]

module _ (now trip_id user_id : ℕ) (db : Db) where
  -- What a leave has written: the row, and the trip's count if the row was approved.
  pub record Leaves (trip : Trip) (p : TripParticipant) (db' : Db) : Type 0 where
    pub saved : db'.participants ≡ update_where (λ x. x.id == p.id) (leave_row now) db.participants
    pub counted :
        ((is_approved p.status ≡ false) × (db'.trips ≡ db.trips))
        ⊎ ((is_approved p.status ≡ true)
            × (db'.trips
                ≡ update_where
                    (trip_with_id trip.id)
                    (λ t. record t { current_participants = trip.current_participants - 1 })
                    db.trips))

  pub leave_trip_missing :
      (find_first (trip_with_id trip_id) db.trips ≡ none)
        ⊎ (find_first (participant_of trip_id user_id) db.participants ≡ none)
      → (leave_trip now trip_id user_id db).1 ≡ db
  unfolding leave_trip
  leave_trip_missing e = ground arith

  pub leave_trip_found :
      {trip : Trip} {p : TripParticipant}
      → find_first (trip_with_id trip_id) db.trips ≡ some trip
      → find_first (participant_of trip_id user_id) db.participants ≡ some p
      → let db' = (leave_trip now trip_id user_id db).1 in (db' ≡ db) ⊎ Leaves trip p db'
  unfolding leave_trip
  leave_trip_found e n = ground arith

-- Leaving keeps participant rows unique and every trip's count right, whatever it answers.
pub leave_trip-IsConsistent :
    (now trip_id user_id : ℕ) (db : Db)
    → IsConsistent db
    → IsConsistent (leave_trip now trip_id user_id db).1
leave_trip-IsConsistent now trip_id user_id db h =
    elim (Option-cases (find_first (trip_with_id trip_id) db.trips)) [
      | inl missing ↦ rw (leave_trip_missing now trip_id user_id db (inl missing)) h
      | inr (trip, there) ↦
          elim (Option-cases (find_first (participant_of trip_id user_id) db.participants)) [
            | inl none_there ↦ rw (leave_trip_missing now trip_id user_id db (inr none_there)) h
            | inr (p, found) ↦ elim (leave_trip_found now trip_id user_id db there found) [
              | inl same ↦ rw same h
              | inr done ↦ elim done.counted [
                | inl (waits, kept) ↦
                    rw (done.saved, kept)
                      (save-AreConsistent h trip_id user_id p found (leave_row now) (λ x. refl)
                        (λ x. refl) (sym waits))
                | inr (was, counted) ↦
                    rw (done.saved, counted)
                      (save_counting-AreConsistent h trip_id user_id p found (leave_row now)
                        (λ x. refl) (λ x. refl) trip _ there (λ x. refl)
                        (ground (
                          arith,
                          h.counted trip_id trip there,
                          trip_id_of_find trip_id user_id db.participants found,
                          count_where-pos (is_member_of trip_id) (participant_of trip_id user_id)
                              db.participants found,
                        )))
              ]
            ]
          ]
    ]
