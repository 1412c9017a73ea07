-- ===== src/Store.antt =====
-- The state that the trip services share: their tables, and what they send to other services.
-- Each row is found by its columns, as the `where` objects of the repositories do.
pub mod Members
pub mod Capacity
use myride_api.Common.{
  ℕ, String, Bool, ◌&&◌, ◌||◌, List, [], ◌∷◌, ◌++◌, ◌==◌, Action, modify, update_where,
}
use myride_api.Entities.{
  Trip, TripStatus, TripStop, ParticipantStatus, TripParticipant, UserStopProgress,
  TripShareableLink, is_approved, is_pending,
}

-- A best-effort message to another service: the code catches and drops every failure of it.
pub data Effect : Type 0 where
  -- `chatService.invalidateRoomAccessCache(user, 'trip', trip)`
  invalidate_room_access : (user_id trip_id : ℕ) → Effect
  -- `chatRedis.publish('chat:kick', …)`
  chat_kick : (trip_id user_id : ℕ) → Effect
  -- the push notification of an approval
  push_approved : (user_id trip_id : ℕ) (title : String) → Effect

pub record Db : Type 0 where
  pub trips : List Trip
  pub stops : List TripStop
  pub participants : List TripParticipant
  pub progress : List UserStopProgress
  pub links : List TripShareableLink
  pub outbox : List Effect

-- The `error` field of the exceptions that the trip services throw.
pub data Error : Type 0 where
  trip_not_found not_trip_admin trip_private invalid_departure_time invalid_route : Error
  edit_window_closed already_completed creator_cannot_request trip_full : Error
  request_not_found creator_cannot_leave not_a_member : Error
  stop_not_found progress_row_missing not_trip_member : Error
  password_required link_not_found link_not_found_or_disabled link_expired : Error
  wrong_password creator_cannot_join link_trip_not_joinable : Error
  trip_not_editable trip_not_joinable : TripStatus → Error
  already_requested request_not_pending : ParticipantStatus → Error

-- A method of a trip service.
abbrev pub Method : Type 0 → Type 0
Method A = Action Db Error A

abbrev pub trip_with_id : ℕ → Trip → Bool
trip_with_id trip_id t = t.id == trip_id

abbrev pub participant_of : (trip_id user_id : ℕ) → TripParticipant → Bool
participant_of trip_id user_id p = p.trip_id == trip_id && p.user_id == user_id

abbrev pub participant_with_id : ℕ → TripParticipant → Bool
participant_with_id id p = p.id == id

-- `{ trip_id, status: 'approved' }`
abbrev pub is_member_of : ℕ → TripParticipant → Bool
is_member_of trip_id p = p.trip_id == trip_id && is_approved p.status

-- `{ trip_id, user_id, status: 'approved' }`
abbrev pub approved_row : (trip_id user_id : ℕ) → TripParticipant → Bool
approved_row trip_id user_id p = participant_of trip_id user_id p && is_approved p.status

-- Saving a loaded row writes the columns that have changed to the row with its id.
abbrev pub save_participant : ℕ → (TripParticipant → TripParticipant) → Method (Unit {0})
save_participant id f =
    modify λ db. record db { participants = update_where (λ p. p.id == id) f db.participants }

abbrev pub save_trip : ℕ → (Trip → Trip) → Method (Unit {0})
save_trip id f = modify λ db. record db { trips = update_where (trip_with_id id) f db.trips }

abbrev pub insert_participant : TripParticipant → Method (Unit {0})
insert_participant p = modify λ db. record db { participants = db.participants ++ p ∷ [] }

abbrev pub send : Effect → Method (Unit {0})
send e = modify λ db. record db { outbox = db.outbox ++ e ∷ [] }
