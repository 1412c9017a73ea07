-- ===== src/Location.antt =====
-- Live positions: src/modules/location/location.service.ts. The distance of two points, which is computed
-- in floating point, is an argument: `near` says whether it is less than MIN_MOVE_M. A coordinate is its
-- decimal text, a position is stored as it is and not as JSON text, and times are in seconds.
pub mod Storage
pub mod Gateway
pub mod Sharing
pub mod Rest
pub mod Departing
use myride_api.Common.{
  ℕ, ◌+◌, String, Bool, true, false, not, ◌&&◌, Option, some, none, List, [], ◌∷◌, map, ◌==◌,
  is_some, find_first, if◌then◌else◌, Action, Result, ok, err, pure, gets, modify, throw_if, ◌>>=◌,
  ◌>>◌,
}
use myride_api.Redis.{Redis}
use myride_api.Chat.{RoomType}
use myride_api.Chat.Access
use myride_api.Chat.Access.{check_room_access}
use myride_api.Chat.Limits
use myride_api.Chat.Limits.{check_rate_limit}
use myride_api.Location.Storage.{LocationPayload, ParticipantPosition, Positions, live}

pub data Error : Type 0 where
  not_a_trip_member : Error

abbrev pub pos_ttl : ℕ
pos_ttl = 3600

abbrev pub position_of :
    (user_id : ℕ) (name : Option String) → LocationPayload → ParticipantPosition
position_of user_id name payload = record {
  user_id = user_id;
  name = name;
  lat = payload.lat;
  lng = payload.lng;
  heading = payload.heading;
  speed = payload.speed;
  ts = payload.ts;
}

-- Latitude and longitude of the old and of the new point.
abbrev pub Near : Type 0
Near = (lat1 lng1 lat2 lng2 : String) → Bool

-- `if (existing) { … if (dist < MIN_MOVE_M) return null }`
abbrev pub is_jitter : Near → Option ParticipantPosition → LocationPayload → Bool
is_jitter near none payload = false
is_jitter near (some prev) payload = near prev.lat prev.lng payload.lat payload.lng

module _ (R : Redis Access.Key) (L : Redis Limits.Key) (P : Positions) where
  pub record State : Type 0 where
    pub access : Access.State R
    pub limits : L.Store
    pub positions : P.Store

  abbrev pub Method : Type 0 → Type 0
  Method A = Action State Error A

  abbrev pub answer_of : {E : Type 0} → Result E Bool → Bool
  answer_of (ok b) = b
  answer_of (err e) = false

  -- `chatService.checkRoomAccess(userId, 'trip', tripId)`
  abbrev pub check_membership : (now user_id trip_id : ℕ) → Method Bool
  check_membership now user_id trip_id s =
      let (answer, access) =
        check_room_access R now user_id (some RoomType.trip) trip_id s.access in
      (ok (answer_of answer), record s { access = access })

  abbrev pub within_limit : (user_id now : ℕ) → Method Bool
  within_limit user_id now s =
      let (allowed, limits) = check_rate_limit L user_id now s.limits in
      (ok allowed, record s { limits = limits })

  unfoldable pub update_position :
      Near
      → (now user_id : ℕ) (name : Option String) (trip_id : ℕ) → LocationPayload
      → Method (Option ParticipantPosition)
  update_position near now user_id name trip_id payload = do
    existing ← gets λ (s : State). live now (P.view s.positions trip_id user_id)
    if is_jitter near existing payload then pure none else do
      modify λ s. record s {
        positions =
            P.set_ex trip_id user_id (position_of user_id name payload) (now + pos_ttl) s.positions;
      }
      pure (some (position_of user_id name payload))

  unfoldable pub get_snapshot : (now trip_id : ℕ) → Method (List ParticipantPosition)
  get_snapshot now trip_id = gets λ (s : State). P.all now trip_id s.positions

  unfoldable pub remove_position : (user_id trip_id : ℕ) → Method (Unit {0})
  remove_position user_id trip_id =
      modify λ s. record s { positions = P.del trip_id user_id s.positions }

  unfoldable pub assert_membership : (now user_id trip_id : ℕ) → Method (Unit {0})
  assert_membership now user_id trip_id = do
    member ← check_membership now user_id trip_id
    throw_if (not member) not_a_trip_member
