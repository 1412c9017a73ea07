-- ===== src/Sos.antt =====
-- Emergency alerts of a trip: src/modules/sos/sos.service.ts, with entities/sos-alert.entity.ts and
-- dto/create-sos.dto.ts beside it. Times are in milliseconds.
pub mod Closing
pub mod Acknowledging
pub mod Listing
use myride_api.Common.{
  ℕ, ◌+◌, ◌-◌, ◌*◌, String, Bool, true, false, not, ◌&&◌, Option, some, none, List, [], ◌∷◌, ◌++◌,
  map, take, ◌==◌, leb, is_some, if◌then◌else◌, Action, find_first, find_all, update_where, sort_by,
  pure, gets, modify, throw_if, or_throw, ◌>>=◌, ◌>>◌,
}
use myride_api.Entities.{Trip, TripParticipant, Point}
use myride_api.Store.{trip_with_id, approved_row, is_member_of}

pub data SosStatus : Type 0 where
  active resolved false_alarm : SosStatus

pub data AlertType : Type 0 where
  breakdown accident medical other : AlertType

pub record Ack : Type 0 where
  pub user_id : ℕ
  pub acknowledged_at : ℕ

pub record SosAlert : Type 0 where
  pub id : ℕ
  pub trip_id : ℕ
  pub sender_id : ℕ
  pub status : SosStatus
  pub location : Point
  pub address : Option String
  pub message : Option String
  pub alert_type : Option AlertType
  pub acknowledged_by : List Ack
  pub created_at : ℕ
  pub resolved_at : Option ℕ

pub record CreateSosDto : Type 0 where
  pub location : Point
  pub message : Option String
  pub address : Option String
  pub alert_type : Option AlertType

-- What is published, and the push to the other members. Every failure of these is dropped.
pub data Notice : Type 0 where
  sos_new : (trip_id sos_id sender_id : ℕ) → Notice
  sos_update : (trip_id sos_id : ℕ) (status : SosStatus) (resolved_at : Option ℕ) → Notice
  sos_push : (user_ids : List ℕ) (trip_id sos_id : ℕ) → Notice

pub record Db : Type 0 where
  pub alerts : List SosAlert
  pub trips : List Trip
  pub participants : List TripParticipant
  pub outbox : List Notice

pub data Error : Type 0 where
  trip_not_found not_trip_member sos_not_found cannot_cancel_sos : Error

abbrev pub Method : Type 0 → Type 0
Method A = Action Db Error A

abbrev pub self_cancel_window_ms : ℕ
self_cancel_window_ms = 30 * 1000

abbrev pub alert_with_id : ℕ → SosAlert → Bool
alert_with_id id a = a.id == id

abbrev pub is_active : SosStatus → Bool
is_active SosStatus.active = true
is_active _ = false

unfoldable pub assert_member : (trip_id user_id : ℕ) → Method (Unit {0})
assert_member trip_id user_id = do
  found ← gets λ (db : Db). find_first (trip_with_id trip_id) db.trips
  trip ← or_throw found trip_not_found
  row ← gets λ (db : Db). find_first (approved_row trip_id user_id) db.participants
  throw_if (not (trip.creator_id == user_id) && not (is_some row)) not_trip_member

-- The approved members of the trip without the sender.
abbrev pub others : (trip_id sender_id : ℕ) → Db → List ℕ
others trip_id sender_id db =
    map (λ p. p.user_id)
      (find_all (λ p. is_member_of trip_id p && not (p.user_id == sender_id)) db.participants)

abbrev pub push_to : (trip_id sos_id : ℕ) → List ℕ → List Notice
push_to trip_id sos_id [] = []
push_to trip_id sos_id (id ∷ ids) = sos_push (id ∷ ids) trip_id sos_id ∷ []

abbrev pub new_alert : (now new_id trip_id sender_id : ℕ) → CreateSosDto → SosAlert
new_alert now new_id trip_id sender_id dto = record {
  id = new_id;
  trip_id = trip_id;
  sender_id = sender_id;
  status = SosStatus.active;
  location = dto.location;
  address = dto.address;
  message = dto.message;
  alert_type = dto.alert_type;
  acknowledged_by = [];
  created_at = now;
  resolved_at = none;
}

unfoldable pub create : (now new_id : ℕ) → (trip_id sender_id : ℕ) → CreateSosDto → Method SosAlert
create now new_id trip_id sender_id dto = do
  assert_member trip_id sender_id
  modify λ db. record db { alerts = db.alerts ++ new_alert now new_id trip_id sender_id dto ∷ [] }
  found ← gets λ (db : Db). find_first (alert_with_id new_id) db.alerts
  alert ← or_throw found sos_not_found
  modify λ db. record db { outbox = db.outbox ++ sos_new trip_id new_id sender_id ∷ [] }
  modify
      λ db. record db { outbox = db.outbox ++ push_to trip_id new_id (others trip_id sender_id db) }
  pure alert

-- The status that a cancellation leads to.
abbrev pub cancelled_status : (is_sender within_window : Bool) → SosStatus
cancelled_status true true = SosStatus.false_alarm
cancelled_status _ _ = SosStatus.resolved

abbrev pub closed : (now user_id : ℕ) → SosAlert → SosAlert
closed now user_id alert = record alert {
  status =
      cancelled_status (alert.sender_id == user_id)
        (leb (now - alert.created_at) self_cancel_window_ms);
  resolved_at = some now;
}

unfoldable pub cancel : (now : ℕ) → (sos_id user_id : ℕ) → Method SosAlert
cancel now sos_id user_id = do
  found ← gets λ (db : Db). find_first (alert_with_id sos_id) db.alerts
  alert ← or_throw found sos_not_found
  if not (is_active alert.status) then pure alert else do
    at ← gets λ (db : Db). find_first (trip_with_id alert.trip_id) db.trips
    trip ← or_throw at trip_not_found
    throw_if (not (alert.sender_id == user_id) && not (trip.creator_id == user_id))
        cannot_cancel_sos
    modify λ db. record db {
      alerts = update_where (alert_with_id alert.id) (closed now user_id) db.alerts;
    }
    modify λ db. record db {
      outbox =
          db.outbox
          ++ sos_update alert.trip_id sos_id (closed now user_id alert).status (some now) ∷ [];
    }
    pure (closed now user_id alert)

-- `order: { created_at: 'DESC' }`
abbrev pub newest_first : SosAlert → SosAlert → Bool
newest_first a b = leb b.created_at a.created_at

abbrev pub active_of : ℕ → SosAlert → Bool
active_of trip_id a = a.trip_id == trip_id && is_active a.status

unfoldable pub list_active : (trip_id user_id : ℕ) → Method (List SosAlert)
list_active trip_id user_id = do
  assert_member trip_id user_id
  gets λ (db : Db). sort_by newest_first (find_all (active_of trip_id) db.alerts)

unfoldable pub list_all : (trip_id user_id : ℕ) → Method (List SosAlert)
list_all trip_id user_id = do
  assert_member trip_id user_id
  gets λ (db : Db). take 100 (sort_by newest_first (find_all (λ a. a.trip_id == trip_id) db.alerts))

abbrev pub ack_of : ℕ → Ack → Bool
ack_of user_id a = a.user_id == user_id

abbrev pub acknowledged : (now user_id : ℕ) → SosAlert → SosAlert
acknowledged now user_id alert = record alert {
  acknowledged_by =
      alert.acknowledged_by ++ record { user_id = user_id; acknowledged_at = now } ∷ [];
}

unfoldable pub acknowledge : (now : ℕ) → (sos_id user_id : ℕ) → Method SosAlert
acknowledge now sos_id user_id = do
  found ← gets λ (db : Db). find_first (alert_with_id sos_id) db.alerts
  alert ← or_throw found sos_not_found
  assert_member alert.trip_id user_id
  if is_some (find_first (ack_of user_id) alert.acknowledged_by) then pure alert else do
    modify λ db. record db {
      alerts = update_where (alert_with_id alert.id) (acknowledged now user_id) db.alerts;
    }
    pure (acknowledged now user_id alert)
