-- ===== src/Trips/Editing/Invariant.antt =====
-- Editing and cancelling a trip in src/modules/trips/trips.service.ts, and the invariant of the trips.
use myride_api.Common.{
  ℕ, ◌≡◌, refl, some, none, arith, ◌⊎◌, inl, inr, Option-cases, find_first, update_where,
}
use myride_api.Entities.{Trip, TripStatus}
use myride_api.Store.{Db, trip_with_id}
use myride_api.Store.Members.{IsConsistent, find_own, set_count-CountsMembers}
use myride_api.Trips.Editing.{UpdateTripDto, update, cancel, apply_update}

-- Saving columns of a trip other than its id and its count keeps the invariant.
edit-IsConsistent :
    (trip_id : ℕ) (f : Trip → Trip) (db db' : Db) {trip : Trip}
    → IsConsistent db
    → find_first (trip_with_id trip_id) db.trips ≡ some trip
    → ((x : Trip) → (f x).id ≡ x.id)
    → (f trip).current_participants ≡ trip.current_participants
    → db'.trips ≡ update_where (trip_with_id trip.id) f db.trips
    → db'.participants ≡ db.participants
    → IsConsistent db'
edit-IsConsistent trip_id f db db' {trip} h there same_id same_count saved kept =
    let counted =
      set_count-CountsMembers db.trips db.participants db.participants trip.id 0 0 f trip h.counted
        (find_own trip_id db.trips there) same_id (λ t. ground arith) (ground arith) in
    rw (saved, kept) (record { ids = h.ids; pairs = h.pairs; counted = counted })

update-cases :
    (now trip_id user_id : ℕ) (dto : UpdateTripDto) (db : Db) {trip : Trip}
    → find_first (trip_with_id trip_id) db.trips ≡ some trip
    → let db' = (update now trip_id user_id dto db).1 in
      (db' ≡ db)
      ⊎ ((db'.trips ≡ update_where (trip_with_id trip.id) (apply_update dto trip) db.trips)
          × (db'.participants ≡ db.participants))
unfolding update
update-cases now trip_id user_id dto db e = ground arith

update-missing :
    (now trip_id user_id : ℕ) (dto : UpdateTripDto) (db : Db)
    → find_first (trip_with_id trip_id) db.trips ≡ none
    → (update now trip_id user_id dto db).1 ≡ db
unfolding update
update-missing now trip_id user_id dto db e = ground arith

-- An update keeps participant rows unique and every trip's count right, whatever it answers.
pub update-IsConsistent :
    (now trip_id user_id : ℕ) (dto : UpdateTripDto) (db : Db)
    → IsConsistent db
    → IsConsistent (update now trip_id user_id dto db).1
update-IsConsistent now trip_id user_id dto db h =
    elim (Option-cases (find_first (trip_with_id trip_id) db.trips)) [
      | inl missing ↦ rw (update-missing now trip_id user_id dto db missing) h
      | inr (trip, there) ↦ elim (update-cases now trip_id user_id dto db there) [
        | inl same ↦ rw same h
        | inr (saved, kept) ↦
            edit-IsConsistent trip_id (apply_update dto trip) db
              (update now trip_id user_id dto db).1 h there (λ x. refl) refl saved kept
      ]
    ]

cancel-cases :
    (trip_id user_id : ℕ) (db : Db) {trip : Trip}
    → find_first (trip_with_id trip_id) db.trips ≡ some trip
    → let db' = (cancel trip_id user_id db).1 in
      (db' ≡ db)
      ⊎ ((db'.trips
            ≡ update_where
                (trip_with_id trip.id)
                (λ (t : Trip). record t { status = TripStatus.cancelled })
                db.trips)
          × (db'.participants ≡ db.participants))
unfolding cancel
cancel-cases trip_id user_id db e = ground arith

cancel-missing :
    (trip_id user_id : ℕ) (db : Db)
    → find_first (trip_with_id trip_id) db.trips ≡ none
    → (cancel trip_id user_id db).1 ≡ db
unfolding cancel
cancel-missing trip_id user_id db e = ground arith

-- A cancellation keeps participant rows unique and every trip's count right, whatever it answers.
pub cancel-IsConsistent :
    (trip_id user_id : ℕ) (db : Db) → IsConsistent db → IsConsistent (cancel trip_id user_id db).1
cancel-IsConsistent trip_id user_id db h =
    elim (Option-cases (find_first (trip_with_id trip_id) db.trips)) [
      | inl missing ↦ rw (cancel-missing trip_id user_id db missing) h
      | inr (trip, there) ↦ elim (cancel-cases trip_id user_id db there) [
        | inl same ↦ rw same h
        | inr (saved, kept) ↦
            edit-IsConsistent trip_id (λ (t : Trip). record t { status = TripStatus.cancelled }) db
              (cancel trip_id user_id db).1 h there (λ x. refl) refl saved kept
      ]
    ]
