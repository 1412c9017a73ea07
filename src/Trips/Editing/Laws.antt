-- ===== src/Trips/Editing/Laws.antt =====
-- Creating, reading, editing and cancelling a trip: src/modules/trips/trips.service.ts.
use myride_api.Common.{
  ℕ, ◌≡◌, ◌≢◌, refl, ap, false, some, none, [], ◌∷◌, ◌++◌, arith, ◌==◌, ◌&&◌, ◌||◌, inl, inr, ◌⊎◌,
  ◌↔◌, Option-cases, find_first, find_all, sort_by, ok, find_first-append, find_first-update_where,
}
use myride_api.Entities.{Trip, is_approved, is_pending, private, TripStatus, TripParticipant}
use myride_api.Store.{Db, trip_with_id, participant_with_id}
use myride_api.Store.Members.{IsConsistent, open-AreConsistent, id_of_find}
use myride_api.Progress.Seed.{stops_in_order}
use myride_api.Trips.Membership.{get_trip, by_created_at}
use myride_api.Trips.Editing.{
  CreateTripDto, UpdateTripDto, NewIds, FullTrip, create, new_trip, new_stops, admin_participant,
  is_paid_trip, find_one, update, cancel, join_rows, starts_within_window, reader_row,
  load_full_trip, apply_update,
}

-- An accepted update came from the creator of a pending trip that has no start within six hours,
-- and answers the trip with the request's columns, those that it leaves out keeping their values.
pub update-ok :
    (now trip_id user_id : ℕ) (dto : UpdateTripDto) (db : Db) {full : FullTrip} {trip : Trip}
    → (update now trip_id user_id dto db).0 ≡ ok full
    → find_first (trip_with_id trip_id) db.trips ≡ some trip
    → (trip.creator_id ≡ user_id)
      × (trip.status ≡ TripStatus.pending)
      × (starts_within_window now trip.scheduled_start_time ≡ false)
      × (full.trip ≡ apply_update dto trip trip)
unfolding update load_full_trip
update-ok now trip_id user_id dto db {full} {trip} e there =
    let spec =
      find_first-update_where (trip_with_id trip_id) (trip_with_id trip.id) (apply_update dto trip)
        db.trips (λ x. refl) in
    (
      ground arith,
      ground arith,
      ground arith,
      ground (arith, spec, id_of_find trip_id db.trips there),
    )

-- A cancellation that is accepted leaves the trip cancelled with all else unchanged, came from its
-- creator, and was not for a completed trip.
pub cancel-ok :
    (trip_id user_id : ℕ) (db : Db) {trip : Trip}
    → (cancel trip_id user_id db).0 ≡ ok tt
    → find_first (trip_with_id trip_id) db.trips ≡ some trip
    → (trip.creator_id ≡ user_id)
      × (trip.status ≢ TripStatus.completed)
      × (find_first (trip_with_id trip_id) (cancel trip_id user_id db).1.trips
          ≡ some (record trip { status = TripStatus.cancelled }))
unfolding cancel
cancel-ok trip_id user_id db {trip} e there =
    let spec =
      find_first-update_where (trip_with_id trip_id) (trip_with_id trip.id)
        (λ (t : Trip). record t { status = TripStatus.cancelled }) db.trips (λ x. refl) in
    (ground arith, ground arith, ground (arith, spec, id_of_find trip_id db.trips there))

-- A private trip is shown to its creator, to users with an approved row and to users with a
-- pending row, and to nobody else.
pub find_one-private_iff :
    (trip_id user_id : ℕ) (db : Db) {trip : Trip}
    → find_first (trip_with_id trip_id) db.trips ≡ some trip
    → trip.visibility ≡ private
    → ((full : FullTrip) × ((find_one trip_id user_id db).0 ≡ ok full)) ↔ (
        (trip.creator_id ≡ user_id)
        ⊎ ((p : TripParticipant) × (find_first
                (λ q.
                  q.trip_id == trip_id
                  && q.user_id == user_id
                  && (is_approved q.status || is_pending q.status))
                db.participants
              ≡ some p)))
unfolding find_one
find_one-private_iff trip_id user_id db {trip} there hidden =
    elim (Option-cases (find_first (reader_row trip_id user_id) db.participants)) [
      | inl no_row ↦ (
        (λ (full, e). inl (ground arith)),
        (λ d. elim d [
          | inl own ↦ (join_rows trip_id db trip, ground arith)
          | inr (p, row) ↦ absurd (ground arith)
        ]),
      )
      | inr (p, row) ↦ ((λ _. inr (p, row)), (λ _. (join_rows trip_id db trip, ground arith)))
    ]

pub create-cases :
    (now : ℕ) (ids : NewIds) (creator_id : ℕ) (dto : CreateTripDto) (db : Db)
    → let db' = (create now ids creator_id dto db).1 in
      (db' ≡ db)
      ⊎ ((db'.trips ≡ db.trips ++ new_trip now ids.trip creator_id dto ∷ [])
          × (db'.participants
              ≡ db.participants
                ++ admin_participant now ids.participant ids.trip creator_id (is_paid_trip dto)
                  ∷ []))
unfolding create
create-cases now ids creator_id dto db = ground arith

-- Creating a trip keeps participant rows unique and every trip's count right, if the ids that the
-- database generates are fresh: no row has them yet, and none
-- refers to the new trip.
pub create-IsConsistent :
    (now : ℕ) (ids : NewIds) (creator_id : ℕ) (dto : CreateTripDto) (db : Db)
    → IsConsistent db
    → find_first (participant_with_id ids.participant) db.participants ≡ none
    → find_first (λ p. p.trip_id == ids.trip) db.participants ≡ none
    → find_first (trip_with_id ids.trip) db.trips ≡ none
    → IsConsistent (create now ids creator_id dto db).1
create-IsConsistent now ids creator_id dto db h fresh unseen new =
    elim (create-cases now ids creator_id dto db) [
      | inl same ↦ rw same h
      | inr (opened, joined) ↦
          rw (opened, joined)
            (open-AreConsistent h (new_trip now ids.trip creator_id dto)
              (admin_participant now ids.participant ids.trip creator_id (is_paid_trip dto)) fresh
              unseen new refl refl refl)
    ]

-- The answer to an accepted creation has the new trip and neither its stops nor its creator's
-- participant row, though both are stored: the joined rows are read outside the transaction. No row
-- may refer to the new trip before.
pub create-misses_rows :
    (now : ℕ) (ids : NewIds) (creator_id : ℕ) (dto : CreateTripDto) (db : Db) {full : FullTrip}
    → (create now ids creator_id dto db).0 ≡ ok full
    → find_first (trip_with_id ids.trip) db.trips ≡ none
    → stops_in_order ids.trip db ≡ []
    → find_all (λ p. p.trip_id == ids.trip) db.participants ≡ []
    → (full.trip ≡ new_trip now ids.trip creator_id dto)
      × (full.stops ≡ [])
      × (full.participants ≡ [])
      × ((create now ids creator_id dto db).1.stops
          ≡ db.stops ++ new_stops ids.trip ids.stop 0 dto.stops)
unfolding create get_trip sort_by
create-misses_rows now ids creator_id dto db {full} done new no_stops no_rows =
    let trip_at =
      find_first-append (trip_with_id ids.trip) db.trips (new_trip now ids.trip creator_id dto) in
    let rows : sort_by by_created_at (find_all (λ p. p.trip_id == ids.trip) db.participants) ≡ [] =
      ap (sort_by by_created_at) no_rows in
    (
      ground (arith, trip_at),
      ground (arith, trip_at),
      ground (arith, trip_at, rows),
      ground (arith, trip_at),
    )
