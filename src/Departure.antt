-- ===== src/Departure.antt =====
-- Leaving a trip and its chat room: `leaveTrip` of src/modules/trips/trips.service.ts sends two messages,
-- to the access cache of src/modules/chat/chat.service.ts and, over Redis, to the kick subscription of
-- src/modules/chat/chat.gateway.ts.
use myride_api.Common.{
  ℕ, ◌≡◌, ◌≢◌, refl, ap, ◌∙◌, true, false, not, some, none, List, [], ◌∷◌, ◌++◌, arith, ◌==◌, inl,
  inr, ◌⊎◌, Option-cases, Bool-cases, All-implies, ok, find_first, find_all, update_where,
  find_first-update_where-none, All-same_key, append_assoc,
}
use myride_api.Entities.{Trip, TripParticipant}
use myride_api.Store.{
  Db, Effect, invalidate_room_access, chat_kick, push_approved, trip_with_id, participant_of,
  approved_row,
}
use myride_api.Store.Members.{IsConsistent, pair, participant_id, trip_id_of_find}
use myride_api.Trips.Membership.{leave_trip, leave_row}
use myride_api.Redis.{Redis}
use myride_api.Chat.{RoomType}
use myride_api.Chat.Access
use myride_api.Chat.Access.{
  access_key, check_room_access, invalidate_room_access_cache, is_room_member,
}
use myride_api.Chat.Limits
use myride_api.Chat.Window.{SortedSets}
use myride_api.Chat.Stream.{Group}
use myride_api.Chat.Gateway.{Room, is_of, receivers, evict_user_from_room, Server}
use myride_api.Chat.Gateway.Handlers.{has_access}
use myride_api.Chat.Gateway.Eviction.{evict_user_from_room-receivers}

abbrev pub trip_room : ℕ → Room
trip_room trip_id = record { room_type = RoomType.trip; room_id = trip_id }

module _ (R : Redis Access.Key) (C : Redis ℕ) (L : Redis Limits.Key) (Z : SortedSets ℕ)
    (G : Group) where
  -- What the chat does with a message of the trip services.
  unfoldable pub deliver : Effect → Server R C L Z G → Server R C L Z G
  deliver (invalidate_room_access user_id trip_id) s = record s {
    access = (invalidate_room_access_cache R user_id RoomType.trip trip_id s.access).1;
  }
  deliver (chat_kick trip_id user_id) s =
      evict_user_from_room R C L Z G (trip_room trip_id) user_id s
  deliver (push_approved user_id trip_id title) s = s

  unfoldable pub deliver_all : List Effect → Server R C L Z G → Server R C L Z G
  unfolding deliver
  deliver_all [] s = s
  deliver_all (e ∷ es) s = deliver_all es (deliver e s)

-- Once the row that is found is saved as left, no approved row of the user is left in the trip.
no_approved_row :
    (now trip_id user_id : ℕ) (db : Db) (p : TripParticipant)
    → IsConsistent db
    → find_first (participant_of trip_id user_id) db.participants ≡ some p
    → find_first
        (approved_row trip_id user_id)
        (update_where (λ x. x.id == p.id) (leave_row now) db.participants)
      ≡ none
no_approved_row now trip_id user_id db p h found =
    let (in_trip, of_user) = trip_id_of_find trip_id user_id db.participants found in
    let others =
      All-same_key pair participant_id (participant_of trip_id user_id) db.participants h.pairs
        found in
    find_first-update_where-none (approved_row trip_id user_id) (λ x. x.id == p.id) (leave_row now)
      db.participants
      (All-implies (λ (x : TripParticipant). (x.id ≡ p.id) ⊎ (pair x ≢ pair p))
        (λ (x : TripParticipant).
          ((x.id == p.id) ≡ true) × (approved_row trip_id user_id (leave_row now x) ≡ false)
          ⊎ (((x.id == p.id) ≡ false) × (approved_row trip_id user_id x ≡ false)))
        db.participants (λ x c. row_case x in_trip of_user c) others)
  where
    row_case :
        (x : TripParticipant)
        → p.trip_id ≡ trip_id
        → p.user_id ≡ user_id
        → (x.id ≡ p.id) ⊎ (pair x ≢ pair p)
        → (((x.id == p.id) ≡ true) × (approved_row trip_id user_id (leave_row now x) ≡ false))
          ⊎ (((x.id == p.id) ≡ false) × (approved_row trip_id user_id x ≡ false))
    row_case x t u c = elim (Bool-cases (x.id == p.id)) [
      | inl same ↦ inl (same, ground arith)
      | inr differs ↦ elim c [
        | inl same ↦ absurd (ground arith)
        | inr apart ↦ elim (Bool-cases (participant_of trip_id user_id x)) [
          | inl own ↦
              let trips : x.trip_id ≡ p.trip_id = ground arith in
              let users : x.user_id ≡ p.user_id = ground arith in
              absurd (apart (ap (λ a. (a, x.user_id)) trips ∙ ap (λ b. (p.trip_id, b)) users))
          | inr other ↦ inr (differs, rw other refl)
        ]
      ]
    ]

module _ (now trip_id user_id : ℕ) (db : Db) where
  leave_trip-trip :
      find_first (trip_with_id trip_id) db.trips ≡ none
      → (leave_trip now trip_id user_id db).0 ≡ ok tt
      → ⊥
  unfolding leave_trip
  leave_trip-trip missing done = ground arith

  module _ (trip : Trip) where
    leave_trip-row :
        find_first (trip_with_id trip_id) db.trips ≡ some trip
        → find_first (participant_of trip_id user_id) db.participants ≡ none
        → (leave_trip now trip_id user_id db).0 ≡ ok tt
        → ⊥
    unfolding leave_trip
    leave_trip-row there nothing done = ground arith

    leave_trip-writes :
        (p : TripParticipant)
        → find_first (trip_with_id trip_id) db.trips ≡ some trip
        → find_first (participant_of trip_id user_id) db.participants ≡ some p
        → (leave_trip now trip_id user_id db).0 ≡ ok tt
        → let db' = (leave_trip now trip_id user_id db).1 in
          (db'.participants ≡ update_where (λ x. x.id == p.id) (leave_row now) db.participants)
          × (db'.outbox
              ≡ (db.outbox ++ invalidate_room_access user_id trip_id ∷ [])
                ++ chat_kick trip_id user_id ∷ [])
    unfolding leave_trip
    leave_trip-writes p there found done = ground arith

leave_trip-ok :
    (now trip_id user_id : ℕ) (db : Db)
    → (leave_trip now trip_id user_id db).0 ≡ ok tt
    → let db' = (leave_trip now trip_id user_id db).1 in
      (p : TripParticipant) × (find_first (participant_of trip_id user_id) db.participants ≡ some p)
      × (db'.participants ≡ update_where (λ x. x.id == p.id) (leave_row now) db.participants)
      × (db'.outbox
          ≡ db.outbox ++ invalidate_room_access user_id trip_id ∷ chat_kick trip_id user_id ∷ [])
leave_trip-ok now trip_id user_id db done =
    elim (Option-cases (find_first (trip_with_id trip_id) db.trips)) [
      | inl missing ↦ absurd (leave_trip-trip now trip_id user_id db missing done)
      | inr (trip, there) ↦
          elim (Option-cases (find_first (participant_of trip_id user_id) db.participants)) [
            | inl nothing ↦ absurd (leave_trip-row now trip_id user_id db trip there nothing done)
            | inr (p, found) ↦
                let (saved, sent) =
                  leave_trip-writes now trip_id user_id db trip p there found done in
                (p, found, saved, sent ∙ append_assoc db.outbox _ _)
          ]
    ]

module _ (R : Redis Access.Key) (C : Redis ℕ) (L : Redis Limits.Key) (Z : SortedSets ℕ)
    (G : Group) where
  -- Once the cached answer is gone, a user without an approved row is refused.
  refused :
      (later user_id trip_id : ℕ) (s : Access.State R)
      → find_first (approved_row trip_id user_id) s.tables.participants ≡ none
      → (check_room_access R later user_id
          (some RoomType.trip)
          trip_id
          (invalidate_room_access_cache R user_id RoomType.trip trip_id s).1).0
        ≡ ok false
  unfolding check_room_access invalidate_room_access_cache
  refused later user_id trip_id s nothing =
      rw (R.view-del_self (access_key RoomType.trip trip_id user_id) s.store) (rw nothing refl)

  -- After an accepted leave, when the chat has got the two messages that it sends and reads the same
  -- participants, the user has no access to the trip's room at any time before a new answer is
  -- cached, and none of the user's sockets is in the room; every other socket of the room stays. The
  -- participants' rows must meet the invariant before.
  pub leave_trip-deliver_all :
      (now trip_id user_id : ℕ) (db : Db) (s : Server R C L Z G)
      → IsConsistent db
      → (leave_trip now trip_id user_id db).0 ≡ ok tt
      → let db' = (leave_trip now trip_id user_id db).1 in
        s.access.tables.participants ≡ db'.participants
        → (sent : List Effect) × (db'.outbox ≡ db.outbox ++ sent)
          × ((later : ℕ)
              → has_access R C L Z G later user_id
                  (trip_room trip_id)
                  (deliver_all R C L Z G sent s)
                ≡ false)
          × (receivers (trip_room trip_id) (deliver_all R C L Z G sent s).sockets
              ≡ find_all (λ k. not (is_of user_id k)) (receivers (trip_room trip_id) s.sockets))
  unfolding deliver_all deliver evict_user_from_room
  leave_trip-deliver_all now trip_id user_id db s h done same =
      let (p, found, saved, sent) = leave_trip-ok now trip_id user_id db done in
      let gone : find_first (approved_row trip_id user_id) s.access.tables.participants ≡ none =
        ap (find_first (approved_row trip_id user_id)) (same ∙ saved)
        ∙ no_approved_row now trip_id user_id db p h found in
      (
        invalidate_room_access user_id trip_id ∷ chat_kick trip_id user_id ∷ [],
        sent,
        (λ later. rw (refused later user_id trip_id s.access gone) refl),
        (evict_user_from_room-receivers R C L Z G (trip_room trip_id) user_id
            (deliver R C L Z G (invalidate_room_access user_id trip_id) s)).0,
      )
