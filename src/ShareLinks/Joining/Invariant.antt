-- ===== src/ShareLinks/Joining/Invariant.antt =====
-- Joining by a link (src/modules/share-links/share-links.service.ts) and the invariants of the trips.
use myride_api.Common.{
  ℕ, ◌+◌, ◌<◌, ◌≡◌, refl, sym, String, Bool, true, false, none, some, [], ◌∷◌, ◌++◌, arith, ◌⊎◌,
  inl, inr, ◌==◌, not, ◌&&◌, if◌then◌else◌, Option-cases, find_first, update_where,
}
use myride_api.Entities.{Trip, TripParticipant, TripShareableLink, is_approved}
use myride_api.Store.{Db, trip_with_id, participant_of, participant_with_id}
use myride_api.Store.Members.{
  IsConsistent, AreConsistent, find_own, insert-AreConsistent, insert_counting-AreConsistent,
  save-AreConsistent, save_counting-AreConsistent,
}
use myride_api.Store.Capacity.{IsWithinCapacity, update-IsWithinCapacity}
use myride_api.ShareLinks.{link_with_token}
use myride_api.ShareLinks.Joining.{join_via_link, is_auto_join, join_again, new_joiner}

-- `link.access_mode === 'auto-join' && !trip.is_paid`
abbrev pub approves : TripShareableLink → Trip → Bool
approves link trip = is_auto_join link.access_mode && not trip.is_paid

abbrev pub count_up : Trip → Trip
count_up t = record t { current_participants = t.current_participants + 1 }

module _ (now new_id : ℕ) (token : String) (user_id : ℕ) (db : Db) where
  join_via_link_missing :
      find_first (link_with_token token) db.links ≡ none
      → (join_via_link now new_id token user_id db).1 ≡ db
  unfolding join_via_link
  join_via_link_missing e = ground arith

  module _ (link : TripShareableLink)
      (at : find_first (link_with_token token) db.links ≡ some link) where
    join_via_link_no_trip :
        find_first (trip_with_id link.trip_id) db.trips ≡ none
        → (join_via_link now new_id token user_id db).1 ≡ db
    unfolding join_via_link
    join_via_link_no_trip e = ground arith

    -- What a join has written, when it found the trip and, or not, a row of the user.
    pub record Joins (trip : Trip) (db' : Db) : Type 0 where
      pub room : trip.current_participants < trip.max_participants
      pub counted : db'.trips ≡ (
          if approves link trip
          then update_where (trip_with_id trip.id) count_up db.trips
          else db.trips)

    pub join_via_link_first :
        (trip : Trip)
        → find_first (trip_with_id link.trip_id) db.trips ≡ some trip
        → find_first (participant_of trip.id user_id) db.participants ≡ none
        → let db' = (join_via_link now new_id token user_id db).1 in
          (db' ≡ db)
          ⊎ (Joins trip db'
              × (db'.participants
                  ≡ db.participants
                    ++ new_joiner now new_id trip.id user_id (approves link trip) trip.is_paid
                      ∷ []))
    unfolding join_via_link
    join_via_link_first trip e n = ground arith

    join_via_link_again :
        (trip : Trip) (p : TripParticipant)
        → find_first (trip_with_id link.trip_id) db.trips ≡ some trip
        → find_first (participant_of trip.id user_id) db.participants ≡ some p
        → let db' = (join_via_link now new_id token user_id db).1 in
          (db' ≡ db)
          ⊎ (Joins trip db'
              × (is_approved p.status ≡ false)
              × (db'.participants
                  ≡ update_where
                      (λ x. x.id == p.id)
                      (join_again now (approves link trip))
                      db.participants))
    unfolding join_via_link
    join_via_link_again trip p e n = ground arith

module _ (now new_id user_id : ℕ) (db : Db) (h : IsConsistent db) (trip : Trip)
    (there : find_first (trip_with_id trip.id) db.trips ≡ some trip) where
  first-AreConsistent :
      (auto paid : Bool)
      → find_first (participant_with_id new_id) db.participants ≡ none
      → find_first (participant_of trip.id user_id) db.participants ≡ none
      → AreConsistent
          (if auto then update_where (trip_with_id trip.id) count_up db.trips else db.trips)
          (db.participants ++ new_joiner now new_id trip.id user_id auto paid ∷ [])
  first-AreConsistent true paid fresh single =
      insert_counting-AreConsistent h _ trip count_up fresh single refl there (λ x. refl) refl
  first-AreConsistent false paid fresh single = insert-AreConsistent h _ fresh single refl

  again-AreConsistent :
      (auto : Bool) (p : TripParticipant)
      → find_first (participant_of trip.id user_id) db.participants ≡ some p
      → is_approved p.status ≡ false
      → AreConsistent
          (if auto then update_where (trip_with_id trip.id) count_up db.trips else db.trips)
          (update_where (λ x. x.id == p.id) (join_again now auto) db.participants)
  again-AreConsistent true p found waits =
      save_counting-AreConsistent h trip.id user_id p found (join_again now true) (λ x. refl)
        (λ x. refl) trip count_up there (λ x. refl) (ground (arith, waits))
  again-AreConsistent false p found waits =
      save-AreConsistent h trip.id user_id p found (join_again now false) (λ x. refl) (λ x. refl)
        (sym waits)

counted-IsWithinCapacity :
    (db : Db)
    → IsWithinCapacity db.trips
    → (trip : Trip) → find_first (trip_with_id trip.id) db.trips ≡ some trip
    → (auto : Bool) → trip.current_participants < trip.max_participants
    → IsWithinCapacity
        (if auto then update_where (trip_with_id trip.id) count_up db.trips else db.trips)
counted-IsWithinCapacity db h trip own true room =
    update-IsWithinCapacity db.trips trip.id count_up h (λ x. refl) (λ x e. ground arith)
counted-IsWithinCapacity db h trip own false room = h

-- Joining by a link keeps participant rows unique and every trip's count right, whatever it
-- answers, if the id that the database generates for a new row is fresh.
pub join_via_link-IsConsistent :
    (now new_id : ℕ) (token : String) (user_id : ℕ) (db : Db)
    → IsConsistent db
    → find_first (participant_with_id new_id) db.participants ≡ none
    → IsConsistent (join_via_link now new_id token user_id db).1
join_via_link-IsConsistent now new_id token user_id db h fresh =
    elim (Option-cases (find_first (link_with_token token) db.links)) [
      | inl missing ↦ rw (join_via_link_missing now new_id token user_id db missing) h
      | inr (link, at) ↦ elim (Option-cases (find_first (trip_with_id link.trip_id) db.trips)) [
        | inl no_trip ↦ rw (join_via_link_no_trip now new_id token user_id db link at no_trip) h
        | inr (trip, there) ↦
            let own : find_first (trip_with_id trip.id) db.trips ≡ some trip =
              find_own link.trip_id db.trips there in
            elim (Option-cases (find_first (participant_of trip.id user_id) db.participants)) [
              | inl single ↦
                  elim (join_via_link_first now new_id token user_id db link at trip there single) [
                    | inl same ↦ rw same h
                    | inr (done, added) ↦
                        rw (done.counted, added)
                          (first-AreConsistent now new_id user_id db h trip own (approves link trip)
                            trip.is_paid fresh single)
                  ]
              | inr (p, found) ↦
                  elim (join_via_link_again now new_id token user_id db link at trip p there
                    found) [
                      | inl same ↦ rw same h
                      | inr (done, waits, saved) ↦
                          rw (done.counted, saved)
                            (again-AreConsistent now new_id user_id db h trip own
                              (approves link trip) p found waits)
                    ]
            ]
      ]
    ]

-- Joining by a link never takes a trip over its limit.
pub join_via_link-IsWithinCapacity :
    (now new_id : ℕ) (token : String) (user_id : ℕ) (db : Db)
    → IsWithinCapacity db.trips
    → IsWithinCapacity (join_via_link now new_id token user_id db).1.trips
join_via_link-IsWithinCapacity now new_id token user_id db h =
    elim (Option-cases (find_first (link_with_token token) db.links)) [
      | inl missing ↦ rw (join_via_link_missing now new_id token user_id db missing) h
      | inr (link, at) ↦ elim (Option-cases (find_first (trip_with_id link.trip_id) db.trips)) [
        | inl no_trip ↦ rw (join_via_link_no_trip now new_id token user_id db link at no_trip) h
        | inr (trip, there) ↦
            let own : find_first (trip_with_id trip.id) db.trips ≡ some trip =
              find_own link.trip_id db.trips there in
            elim (Option-cases (find_first (participant_of trip.id user_id) db.participants)) [
              | inl single ↦
                  elim (join_via_link_first now new_id token user_id db link at trip there single) [
                    | inl same ↦ rw same h
                    | inr (done, _) ↦
                        rw done.counted
                          (counted-IsWithinCapacity db h trip own (approves link trip) done.room)
                  ]
              | inr (p, found) ↦
                  elim (join_via_link_again now new_id token user_id db link at trip p there
                    found) [
                      | inl same ↦ rw same h
                      | inr (done, _, _) ↦
                          rw done.counted
                            (counted-IsWithinCapacity db h trip own (approves link trip) done.room)
                    ]
            ]
      ]
    ]
