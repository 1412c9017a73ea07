-- ===== src/Trips/Standing/Membership.antt =====
-- The membership methods of src/modules/trips/trips.service.ts, and the moves between standings.
use myride_api.Common.{
  ℕ, ◌≡◌, refl, ap, Bool, true, none, some, [], ◌∷◌, ◌++◌, arith, ◌⊎◌, inl, inr, ◌==◌, Option-cases,
  find_first, update_where,
}
use myride_api.Entities.{
  TripParticipant, Trip, ParticipantStatus, pending, approved, rejected, left, is_pending,
}
use myride_api.Store.{Db, trip_with_id, participant_of}
use myride_api.Trips.Membership.{
  request_join, request_again, new_request, approve_join, approve_row, reject_join, reject_row,
  leave_trip, leave_row,
}
use myride_api.Trips.Membership.Invariant.{
  approve_join_missing, approve_join_found, reject_join_missing, leave_trip_missing,
  leave_trip_found,
}
use myride_api.Trips.Standing.{
  ◌⇝◌, stays, asks, asks_after_rejection, asks_after_leave, is_let_in, is_turned_down, withdraws,
  leaves, leaves_after_rejection, Change, same, saves, adds,
}

was_pending : (s : ParticipantStatus) → is_pending s ≡ true → s ≡ pending
was_pending pending h = refl
was_pending approved h = cc
was_pending rejected h = cc
was_pending left h = cc

-- A row that may be asked for again.
abbrev pub MayReturn : ParticipantStatus → Type 0
MayReturn s = (s ≡ rejected) ⊎ (s ≡ left)

module _ (now new_id trip_id user_id : ℕ) (db : Db) where
  request_join-missing :
      find_first (trip_with_id trip_id) db.trips ≡ none
      → (request_join now new_id trip_id user_id db).1.participants ≡ db.participants
  unfolding request_join
  request_join-missing missing = ground arith

  request_join-first :
      {trip : Trip}
      → find_first (trip_with_id trip_id) db.trips ≡ some trip
      → find_first (participant_of trip_id user_id) db.participants ≡ none
      → let db' = (request_join now new_id trip_id user_id db).1 in
        (db'.participants ≡ db.participants)
        ⊎ (db'.participants ≡ db.participants ++ new_request now new_id trip_id user_id trip ∷ [])
  unfolding request_join
  request_join-first there single = ground arith

  request_join-again :
      (p : TripParticipant)
      → find_first (participant_of trip_id user_id) db.participants ≡ some p
      → let db' = (request_join now new_id trip_id user_id db).1 in
        (db'.participants ≡ db.participants)
        ⊎ (MayReturn p.status
            × (db'.participants ≡ update_where (λ x. x.id == p.id) request_again db.participants))
  unfolding request_join
  request_join-again p found = elim (Option-cases (find_first (trip_with_id trip_id) db.trips)) [
    | inl missing ↦ inl (request_join-missing missing)
    | inr (trip, there) ↦ ground arith
  ]

  asks_again : (s : ParticipantStatus) → MayReturn s → some s ⇝ some pending
  asks_again s (inl e) = rw e asks_after_rejection
  asks_again s (inr e) = rw e asks_after_leave

  pub request_join-Change :
      Change db.participants (request_join now new_id trip_id user_id db).1.participants
  request_join-Change =
      elim (Option-cases (find_first (participant_of trip_id user_id) db.participants)) [
        | inl single ↦ elim (Option-cases (find_first (trip_with_id trip_id) db.trips)) [
          | inl missing ↦ same (request_join-missing missing)
          | inr (trip, there) ↦ elim (request_join-first there single) [
            | inl kept ↦ same kept
            | inr added ↦ adds (new_request now new_id trip_id user_id trip) single asks added
          ]
        ]
        | inr (p, found) ↦ elim (request_join-again p found) [
          | inl kept ↦ same kept
          | inr (may, saved) ↦
              saves trip_id user_id p request_again found (λ x. refl) (λ x. refl)
                (asks_again p.status may) saved
        ]
      ]

module _ (now : ℕ) (new_ids : ℕ → ℕ) (has_token : Bool) (trip_id admin_id user_id : ℕ)
    (db : Db) where
  approve_join-cases :
      (p : TripParticipant)
      → find_first (participant_of trip_id user_id) db.participants ≡ some p
      → let db' = (approve_join now new_ids has_token trip_id admin_id user_id db).1 in
        (db'.participants ≡ db.participants)
        ⊎ ((p.status ≡ pending)
            × (db'.participants
                ≡ update_where (λ x. x.id == p.id) (approve_row now) db.participants))
  approve_join-cases p found = elim (Option-cases (find_first (trip_with_id trip_id) db.trips)) [
    | inl missing ↦ inl (
        ap (λ (d : Db). d.participants)
          (approve_join_missing now new_ids has_token trip_id admin_id user_id db (inl missing)))
    | inr (trip, there) ↦
        elim (approve_join_found now new_ids has_token trip_id admin_id user_id db there found) [
          | inl kept ↦ inl (ap (λ (d : Db). d.participants) kept)
          | inr done ↦ inr (was_pending p.status done.waiting, done.saved)
        ]
  ]

  pub approve_join-Change :
      Change db.participants
        (approve_join now new_ids has_token trip_id admin_id user_id db).1.participants
  approve_join-Change =
      elim (Option-cases (find_first (participant_of trip_id user_id) db.participants)) [
        | inl nothing ↦ same (
            ap (λ (d : Db). d.participants)
              (approve_join_missing now new_ids has_token trip_id admin_id user_id db
                (inr nothing)))
        | inr (p, found) ↦ elim (approve_join-cases p found) [
          | inl kept ↦ same kept
          | inr (waits, saved) ↦
              saves trip_id user_id p (approve_row now) found (λ x. refl) (λ x. refl)
                (rw waits is_let_in) saved
        ]
      ]

module _ (trip_id admin_id user_id : ℕ) (db : Db) where
  reject_join-cases :
      (p : TripParticipant)
      → find_first (participant_of trip_id user_id) db.participants ≡ some p
      → let db' = (reject_join trip_id admin_id user_id db).1 in
        (db'.participants ≡ db.participants)
        ⊎ ((p.status ≡ pending)
            × (db'.participants ≡ update_where (λ x. x.id == p.id) reject_row db.participants))
  unfolding reject_join
  reject_join-cases p found = elim (Option-cases (find_first (trip_with_id trip_id) db.trips)) [
    | inl missing ↦ inl (
        ap (λ (d : Db). d.participants)
          (reject_join_missing trip_id admin_id user_id db (inl missing)))
    | inr (trip, there) ↦ ground arith
  ]

  pub reject_join-Change :
      Change db.participants (reject_join trip_id admin_id user_id db).1.participants
  reject_join-Change =
      elim (Option-cases (find_first (participant_of trip_id user_id) db.participants)) [
        | inl nothing ↦ same (
            ap (λ (d : Db). d.participants)
              (reject_join_missing trip_id admin_id user_id db (inr nothing)))
        | inr (p, found) ↦ elim (reject_join-cases p found) [
          | inl kept ↦ same kept
          | inr (waits, saved) ↦
              saves trip_id user_id p reject_row found (λ x. refl) (λ x. refl)
                (rw waits is_turned_down) saved
        ]
      ]

module _ (now trip_id user_id : ℕ) (db : Db) where
  leaving : (s : ParticipantStatus) → some s ⇝ some left
  leaving pending = withdraws
  leaving approved = leaves
  leaving rejected = leaves_after_rejection
  leaving left = stays

  pub leave_trip-Change : Change db.participants (leave_trip now trip_id user_id db).1.participants
  leave_trip-Change =
      elim (Option-cases (find_first (participant_of trip_id user_id) db.participants)) [
        | inl nothing ↦ same (
            ap (λ (d : Db). d.participants)
              (leave_trip_missing now trip_id user_id db (inr nothing)))
        | inr (p, found) ↦ elim (Option-cases (find_first (trip_with_id trip_id) db.trips)) [
          | inl missing ↦ same (
              ap (λ (d : Db). d.participants)
                (leave_trip_missing now trip_id user_id db (inl missing)))
          | inr (trip, there) ↦ elim (leave_trip_found now trip_id user_id db there found) [
            | inl kept ↦ same (ap (λ (d : Db). d.participants) kept)
            | inr done ↦
                saves trip_id user_id p (leave_row now) found (λ x. refl) (λ x. refl)
                  (leaving p.status) done.saved
          ]
        ]
      ]
