-- ===== src/Trips/Standing/Joining.antt =====
-- Creating, editing and cancelling a trip (src/modules/trips/trips.service.ts), joining by a link
-- (src/modules/share-links/share-links.service.ts), and the moves between standings.
use myride_api.Common.{
  ℕ, ◌≡◌, refl, ap, String, Bool, true, false, none, some, List, [], ◌∷◌, ◌++◌, arith, ◌⊎◌, inl,
  inr, ◌==◌, Option-cases, find_first, update_where, Bool-cases,
}
use myride_api.Entities.{TripParticipant, TripShareableLink, Trip}
use myride_api.Store.{Db, trip_with_id, participant_of}
use myride_api.Trips.Editing.{
  NewIds, CreateTripDto, UpdateTripDto, create, update, cancel, admin_participant, is_paid_trip,
}
use myride_api.Trips.Editing.Laws.{create-cases}
use myride_api.ShareLinks.Joining.Invariant.{approves as approves_at_once, join_via_link_first}
use myride_api.Trips.Standing.Membership.{MayReturn}
use myride_api.ShareLinks.{link_with_token}
use myride_api.ShareLinks.Joining.{join_via_link, join_again, new_joiner}
use myride_api.Trips.Standing.{
  ◌⇝◌, asks, asks_after_rejection, asks_after_leave, creates, returns_after_rejection,
  returns_after_leave, Change, same, saves, adds,
}

create-kept_or_joined :
    (now : ℕ) (ids : NewIds) (creator_id : ℕ) (dto : CreateTripDto) (db : Db)
    → let db' = (create now ids creator_id dto db).1 in
      (db'.participants ≡ db.participants)
      ⊎ (db'.participants
          ≡ db.participants
            ++ admin_participant now ids.participant ids.trip creator_id (is_paid_trip dto) ∷ [])
create-kept_or_joined now ids creator_id dto db = elim (create-cases now ids creator_id dto db) [
  | inl kept ↦ inl (ap (λ (d : Db). d.participants) kept)
  | inr (_, joined) ↦ inr joined
]

no_row_of_trip :
    (t user_id : ℕ) (ps : List TripParticipant)
    → find_first (λ (p : TripParticipant). p.trip_id == t) ps ≡ none
    → find_first (participant_of t user_id) ps ≡ none
unfolding find_first
no_row_of_trip t user_id [] h = refl
no_row_of_trip t user_id (p ∷ ps) h = elim (Bool-cases (p.trip_id == t)) [
  | inl hit ↦ absurd (ground arith)
  | inr miss ↦ rw miss (no_row_of_trip t user_id ps (rw miss at h))
]

pub create-Change :
    (now : ℕ) (ids : NewIds) (creator_id : ℕ) (dto : CreateTripDto) (db : Db)
    → find_first (λ p. p.trip_id == ids.trip) db.participants ≡ none
    → Change db.participants (create now ids creator_id dto db).1.participants
create-Change now ids creator_id dto db unseen =
    elim (create-kept_or_joined now ids creator_id dto db) [
      | inl kept ↦ same kept
      | inr joined ↦
          adds (admin_participant now ids.participant ids.trip creator_id (is_paid_trip dto))
            (no_row_of_trip ids.trip creator_id db.participants unseen) creates joined
    ]

pub update-participants :
    (now trip_id user_id : ℕ) (dto : UpdateTripDto) (db : Db)
    → (update now trip_id user_id dto db).1.participants ≡ db.participants
unfolding update
update-participants now trip_id user_id dto db = ground arith

pub cancel-participants :
    (trip_id user_id : ℕ) (db : Db) → (cancel trip_id user_id db).1.participants ≡ db.participants
unfolding cancel
cancel-participants trip_id user_id db = ground arith

module _ (now new_id : ℕ) (token : String) (user_id : ℕ) (db : Db) where
  returning :
      (auto : Bool) (p : TripParticipant)
      → MayReturn p.status
      → some p.status ⇝ some (join_again now auto p).status
  returning true p (inl e) = rw e returns_after_rejection
  returning true p (inr e) = rw e returns_after_leave
  returning false p (inl e) = rw e asks_after_rejection
  returning false p (inr e) = rw e asks_after_leave

  joining :
      (auto paid : Bool) (trip_id : ℕ)
      → none ⇝ some (new_joiner now new_id trip_id user_id auto paid).status
  joining true paid trip_id = creates
  joining false paid trip_id = asks

  join_via_link-missing :
      (find_first (link_with_token token) db.links ≡ none)
      → (join_via_link now new_id token user_id db).1.participants ≡ db.participants
  unfolding join_via_link
  join_via_link-missing e = ground arith

  module _ (link : TripShareableLink)
      (at : find_first (link_with_token token) db.links ≡ some link) where
    join_via_link-no_trip :
        find_first (trip_with_id link.trip_id) db.trips ≡ none
        → (join_via_link now new_id token user_id db).1.participants ≡ db.participants
    unfolding join_via_link
    join_via_link-no_trip e = ground arith

    join_via_link-first :
        (trip : Trip)
        → find_first (trip_with_id link.trip_id) db.trips ≡ some trip
        → find_first (participant_of trip.id user_id) db.participants ≡ none
        → Change db.participants (join_via_link now new_id token user_id db).1.participants
    join_via_link-first trip there single =
        elim (join_via_link_first now new_id token user_id db link at trip there single) [
          | inl kept ↦ same (ap (λ (d : Db). d.participants) kept)
          | inr (_, added) ↦
              adds (new_joiner now new_id trip.id user_id (approves_at_once link trip) trip.is_paid)
                single (joining (approves_at_once link trip) trip.is_paid trip.id) added
        ]

    join_via_link-again :
        (trip : Trip) (p : TripParticipant)
        → find_first (trip_with_id link.trip_id) db.trips ≡ some trip
        → find_first (participant_of trip.id user_id) db.participants ≡ some p
        → let db' = (join_via_link now new_id token user_id db).1 in
          (db'.participants ≡ db.participants)
          ⊎ (MayReturn p.status
              × (db'.participants
                  ≡ update_where
                      (λ x. x.id == p.id)
                      (join_again now (approves_at_once link trip))
                      db.participants))
    unfolding join_via_link
    join_via_link-again trip p there found = ground arith

    join_via_link-found :
        Change db.participants (join_via_link now new_id token user_id db).1.participants
    join_via_link-found = elim (Option-cases (find_first (trip_with_id link.trip_id) db.trips)) [
      | inl no_trip ↦ same (join_via_link-no_trip no_trip)
      | inr (trip, there) ↦
          elim (Option-cases (find_first (participant_of trip.id user_id) db.participants)) [
            | inl single ↦ join_via_link-first trip there single
            | inr (p, found) ↦ elim (join_via_link-again trip p there found) [
              | inl kept ↦ same kept
              | inr (may, saved) ↦
                  saves trip.id user_id p (join_again now (approves_at_once link trip)) found
                    (λ x. refl) (λ x. refl) (returning (approves_at_once link trip) p may) saved
            ]
          ]
    ]

  pub join_via_link-Change :
      Change db.participants (join_via_link now new_id token user_id db).1.participants
  join_via_link-Change = elim (Option-cases (find_first (link_with_token token) db.links)) [
    | inl missing ↦ same (join_via_link-missing missing)
    | inr (link, at) ↦ join_via_link-found link at
  ]
