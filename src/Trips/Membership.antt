-- ===== src/Trips/Membership.antt =====
-- Join requests and membership: src/modules/trips/trips.service.ts.
-- `now` is the clock's reading, `new_id` and `new_ids` the uuids that the database generates.
pub mod Invariant
pub mod Capacity
use myride_api.Common.{
  ℕ, ◌+◌, ◌-◌, Bool, not, ◌&&◌, ◌||◌, Option, some, none, List, is_some, ltb, leb, ◌==◌,
  if◌then◌else◌, find_first, find_all, sort_by, pure, gets, throw, throw_if, or_throw, transaction,
  ◌>>=◌, ◌>>◌,
}
use myride_api.Entities.{
  Trip, TripParticipant, ParticipantStatus, PaymentStatus, member, is_pending_trip, is_pending,
  is_approved, is_rejected, has_left,
}
use myride_api.Store.{
  Db, Method, Error, trip_not_found, not_trip_admin, creator_cannot_request, trip_full,
  request_not_found, creator_cannot_leave, not_a_member, trip_not_joinable, already_requested,
  request_not_pending, invalidate_room_access, chat_kick, push_approved, trip_with_id,
  participant_of, save_participant, save_trip, insert_participant, send,
}
use myride_api.Progress.Seed.{ensure_rows_exist}

unfoldable pub get_trip : ℕ → Method Trip
get_trip trip_id = do
  found ← gets λ (db : Db). find_first (trip_with_id trip_id) db.trips
  or_throw found trip_not_found

unfoldable pub assert_admin : ℕ → ℕ → Method Trip
unfolding get_trip
assert_admin trip_id user_id = do
  trip ← get_trip trip_id
  throw_if (not (trip.creator_id == user_id)) not_trip_admin
  pure trip

-- `existing && existing.status !== 'rejected' && existing.status !== 'left'`
abbrev pub refuse_existing : Option TripParticipant → Method (Unit {0})
refuse_existing none = pure tt
refuse_existing (some p) =
    throw_if (not (is_rejected p.status) && not (has_left p.status)) (already_requested p.status)

-- Re-request after a rejection or a leave: the row goes back to pending.
abbrev pub request_again : TripParticipant → TripParticipant
request_again p = record p { status = ParticipantStatus.pending; joined_at = none; left_at = none }

abbrev pub new_request : (now new_id trip_id user_id : ℕ) → Trip → TripParticipant
new_request now new_id trip_id user_id trip = record {
  id = new_id;
  trip_id = trip_id;
  user_id = user_id;
  status = ParticipantStatus.pending;
  role = member;
  joined_at = none;
  left_at = none;
  payment_status = if trip.is_paid then some PaymentStatus.pending else none;
  created_at = now;
}

-- The end of `requestJoin`: `if (existing) { … } else { … }`.
abbrev pub store_request :
    (now new_id trip_id user_id : ℕ) → Trip → Option TripParticipant → Method TripParticipant
store_request now new_id trip_id user_id trip none = do
  insert_participant (new_request now new_id trip_id user_id trip)
  pure (new_request now new_id trip_id user_id trip)
store_request now new_id trip_id user_id trip (some p) = do
  save_participant p.id request_again
  pure (request_again p)

unfoldable pub request_join : (now new_id trip_id user_id : ℕ) → Method TripParticipant
unfolding get_trip
request_join now new_id trip_id user_id = do
  trip ← get_trip trip_id
  throw_if (trip.creator_id == user_id) creator_cannot_request
  throw_if (not (is_pending_trip trip.status)) (trip_not_joinable trip.status)
  throw_if (leb trip.max_participants trip.current_participants) trip_full
  existing ← gets λ (db : Db). find_first (participant_of trip_id user_id) db.participants
  refuse_existing existing
  store_request now new_id trip_id user_id trip existing

abbrev pub approve_row : ℕ → TripParticipant → TripParticipant
approve_row now p = record p { status = ParticipantStatus.approved; joined_at = some now }

-- The writes of `approveJoin`, once every check has passed. `has_token` says whether the user has
-- a push token.
abbrev pub approve_pending :
    (now : ℕ) (new_ids : ℕ → ℕ) (has_token : Bool) (trip_id user_id : ℕ)
    → Trip
    → TripParticipant
    → Method TripParticipant
approve_pending now new_ids has_token trip_id user_id trip p = do
  save_participant p.id (approve_row now)
  save_trip trip.id λ t. record t { current_participants = trip.current_participants + 1 }
  send (invalidate_room_access user_id trip_id)
  ensure_rows_exist new_ids trip_id user_id
  if has_token then send (push_approved user_id trip_id trip.title) else pure tt
  pure (approve_row now p)

unfoldable pub approve_join :
    (now : ℕ) (new_ids : ℕ → ℕ) (has_token : Bool) (trip_id admin_id user_id : ℕ)
    → Method TripParticipant
unfolding get_trip
approve_join now new_ids has_token trip_id admin_id user_id = transaction do
  trip ← get_trip trip_id
  throw_if (not (trip.creator_id == admin_id)) not_trip_admin
  found ← gets λ (db : Db). find_first (participant_of trip_id user_id) db.participants
  p ← or_throw found request_not_found
  if is_approved p.status then pure p else do
    throw_if (not (is_pending p.status)) (request_not_pending p.status)
    throw_if (leb trip.max_participants trip.current_participants) trip_full
    approve_pending now new_ids has_token trip_id user_id trip p

abbrev pub reject_row : TripParticipant → TripParticipant
reject_row p = record p { status = ParticipantStatus.rejected }

unfoldable pub reject_join : (trip_id admin_id user_id : ℕ) → Method TripParticipant
unfolding assert_admin
reject_join trip_id admin_id user_id = do
  trip ← assert_admin trip_id admin_id
  found ← gets λ (db : Db). find_first (participant_of trip_id user_id) db.participants
  p ← or_throw found request_not_found
  if is_rejected p.status then pure p else do
    throw_if (not (is_pending p.status)) (request_not_pending p.status)
    save_participant p.id reject_row
    pure (reject_row p)

abbrev pub leave_row : ℕ → TripParticipant → TripParticipant
leave_row now p = record p { status = ParticipantStatus.left; left_at = some now }

-- `Math.max(0, n - 1)` is the truncated subtraction.
unfoldable pub leave_trip : (now trip_id user_id : ℕ) → Method (Unit {0})
unfolding get_trip
leave_trip now trip_id user_id = transaction do
  trip ← get_trip trip_id
  throw_if (trip.creator_id == user_id) creator_cannot_leave
  found ← gets λ (db : Db). find_first (participant_of trip_id user_id) db.participants
  p ← or_throw found not_a_member
  throw_if (has_left p.status) not_a_member
  save_participant p.id (leave_row now)
  if is_approved p.status
      then save_trip trip.id
          (λ t. record t { current_participants = trip.current_participants - 1 })
      else pure tt
  send (invalidate_room_access user_id trip_id)
  send (chat_kick trip_id user_id)

-- `order: { created_at: 'ASC' }`
abbrev pub by_created_at : TripParticipant → TripParticipant → Bool
by_created_at a b = leb a.created_at b.created_at

unfoldable pub list_join_requests : (trip_id admin_id : ℕ) → Method (List TripParticipant)
unfolding assert_admin
list_join_requests trip_id admin_id = do
  trip ← assert_admin trip_id admin_id
  gets λ (db : Db).
      sort_by by_created_at
        (find_all (λ p. p.trip_id == trip_id && is_pending p.status) db.participants)
