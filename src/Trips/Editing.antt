-- ===== src/Trips/Editing.antt =====
-- Creating, reading, editing and cancelling a trip: src/modules/trips/trips.service.ts.
-- A request's ISO dates are taken as parsed, to milliseconds. The messages that go with an error's
-- code are left out.
pub mod Laws
pub mod Invariant
use myride_api.Common.{
  ℕ, ◌+◌, ◌*◌, String, Bool, true, false, not, ◌&&◌, ◌||◌, Option, some, none, List, [], ◌∷◌, ◌++◌,
  is_some, or_else, or_option, length, ltb, leb, ◌==◌, if◌then◌else◌, find_first, find_all,
  update_where, sort_by, pure, gets, modify, throw_if, or_throw, transaction, ◌>>=◌, ◌>>◌,
}
use myride_api.Entities.{
  TripType, one_way, round_trip, Visibility, TripStatus, Trip, StopType, Point, TripStop,
  ParticipantStatus, TripParticipant, PaymentStatus, admin, is_pending_trip, is_completed_trip,
  is_private, is_approved, is_pending,
}
use myride_api.Store.{
  Db, Method, trip_not_found, not_trip_admin, trip_private, invalid_departure_time, invalid_route,
  edit_window_closed, trip_not_editable, already_completed, trip_with_id, participant_of, save_trip,
  insert_participant,
}
use myride_api.Progress.Seed.{stops_in_order}
use myride_api.Trips.Membership.{get_trip, by_created_at}

pub record CreateTripStopDto : Type 0 where
  pub name : String
  pub description : Option String
  pub location : Point
  pub address : Option String
  pub stop_type : StopType
  pub duration_minutes : Option ℕ
  pub is_mandatory : Option Bool

pub record CreateTripDto : Type 0 where
  pub title : String
  pub description : Option String
  pub trip_type : TripType
  pub visibility : Visibility
  pub is_paid : Option Bool
  pub trip_price : Option ℕ
  pub max_participants : Option ℕ
  pub scheduled_start_time : Option ℕ
  pub stops : List CreateTripStopDto
  pub community_id : Option ℕ
  pub metadata : Option String

pub record UpdateTripDto : Type 0 where
  pub title : Option String
  pub description : Option String
  pub trip_type : Option TripType
  pub visibility : Option Visibility
  pub is_paid : Option Bool
  pub trip_price : Option ℕ
  pub max_participants : Option ℕ
  pub scheduled_start_time : Option ℕ
  pub metadata : Option String

-- A trip with its joined rows, as `loadFullTrip` returns it.
pub record FullTrip : Type 0 where
  pub trip : Trip
  pub stops : List TripStop
  pub participants : List TripParticipant

-- The uuids that the database generates while a trip is created.
pub record NewIds : Type 0 where
  pub trip : ℕ
  pub stop : ℕ → ℕ
  pub participant : ℕ

abbrev pub join_rows : ℕ → Db → Trip → FullTrip
join_rows trip_id db trip = record {
  trip = trip;
  stops = stops_in_order trip_id db;
  participants = sort_by by_created_at (find_all (λ p. p.trip_id == trip_id) db.participants);
}

unfoldable pub load_full_trip : ℕ → Method FullTrip
unfolding get_trip
load_full_trip trip_id = do trip ← get_trip trip_id; gets λ (db : Db). join_rows trip_id db trip

-- `dto.scheduled_start_time && start < Date.now()`
abbrev pub is_past : ℕ → Option ℕ → Bool
is_past now none = false
is_past now (some start) = ltb start now

abbrev pub is_round_trip : TripType → Bool
is_round_trip round_trip = true
is_round_trip one_way = false

-- `!!dto.is_paid && (dto.trip_price ?? 0) > 0`
abbrev pub is_paid_trip : CreateTripDto → Bool
is_paid_trip dto = or_else dto.is_paid false && ltb 0 (or_else dto.trip_price 0)

abbrev pub new_trip : (now id creator_id : ℕ) → CreateTripDto → Trip
new_trip now id creator_id dto = record {
  id = id;
  title = dto.title;
  description = dto.description;
  trip_type = dto.trip_type;
  visibility = dto.visibility;
  is_paid = is_paid_trip dto;
  trip_price = if is_paid_trip dto then dto.trip_price else none;
  status = TripStatus.pending;
  creator_id = creator_id;
  community_id = dto.community_id;
  max_participants = or_else dto.max_participants 20;
  current_participants = 1;
  scheduled_start_time = dto.scheduled_start_time;
  metadata = dto.metadata;
  created_at = now;
}

-- The loop of INSERTs; the stop at position i gets stop_order i + 1.
unfoldable pub new_stops :
    (trip_id : ℕ) (ids : ℕ → ℕ) (i : ℕ) → List CreateTripStopDto → List TripStop
new_stops trip_id ids i [] = []
new_stops trip_id ids i (s ∷ ss) =
    record {
      id = ids i;
      trip_id = trip_id;
      stop_order = i + 1;
      name = s.name;
      description = s.description;
      location = s.location;
      address = s.address;
      stop_type = s.stop_type;
      duration_minutes = s.duration_minutes;
      is_mandatory = or_else s.is_mandatory false;
    }
    ∷ new_stops trip_id ids (i + 1) ss

abbrev pub admin_participant : (now id trip_id creator_id : ℕ) → Bool → TripParticipant
admin_participant now id trip_id creator_id paid = record {
  id = id;
  trip_id = trip_id;
  user_id = creator_id;
  status = ParticipantStatus.approved;
  role = admin;
  joined_at = some now;
  left_at = none;
  payment_status = if paid then some PaymentStatus.paid else none;
  created_at = now;
}

-- `loadFullTrip` reads the trip with the transaction's repository, but stops and participants with
-- the service's own, which see what was committed before.
unfoldable pub create : (now : ℕ) → NewIds → ℕ → CreateTripDto → Method FullTrip
unfolding get_trip new_stops
create now ids creator_id dto = do
  throw_if (is_past now dto.scheduled_start_time) invalid_departure_time
  throw_if (is_round_trip dto.trip_type && ltb (length dto.stops) 2) invalid_route
  transaction do
    committed ← gets λ (db : Db). db
    modify λ db. record db { trips = db.trips ++ new_trip now ids.trip creator_id dto ∷ [] }
    modify λ db. record db { stops = db.stops ++ new_stops ids.trip ids.stop 0 dto.stops }
    insert_participant
        (admin_participant now ids.participant ids.trip creator_id (is_paid_trip dto))
    trip ← get_trip ids.trip
    pure (join_rows ids.trip committed trip)

-- `status: In(['approved', 'pending'])`
abbrev pub reader_row : (trip_id user_id : ℕ) → TripParticipant → Bool
reader_row trip_id user_id p =
    participant_of trip_id user_id p && (is_approved p.status || is_pending p.status)

unfoldable pub find_one : (trip_id user_id : ℕ) → Method FullTrip
unfolding load_full_trip
find_one trip_id user_id = do
  full ← load_full_trip trip_id
  row ← gets λ (db : Db). find_first (reader_row trip_id user_id) db.participants
  throw_if (is_private full.trip.visibility && not (full.trip.creator_id == user_id || is_some row))
      trip_private
  pure full

-- 6 hours.
abbrev pub edit_window_ms : ℕ
edit_window_ms = 6 * 60 * 60 * 1000

-- `start && start - Date.now() < EDIT_WINDOW_MS`
abbrev pub starts_within_window : ℕ → Option ℕ → Bool
starts_within_window now none = false
starts_within_window now (some start) = ltb start (now + edit_window_ms)

-- The columns that `Object.assign` overwrites.
abbrev pub apply_update : UpdateTripDto → Trip → Trip → Trip
apply_update dto trip row = record row {
  title = or_else dto.title trip.title;
  description = or_option dto.description trip.description;
  trip_type = or_else dto.trip_type trip.trip_type;
  visibility = or_else dto.visibility trip.visibility;
  is_paid = or_else dto.is_paid trip.is_paid;
  trip_price = or_option dto.trip_price trip.trip_price;
  max_participants = or_else dto.max_participants trip.max_participants;
  scheduled_start_time = or_option dto.scheduled_start_time trip.scheduled_start_time;
  metadata = or_option dto.metadata trip.metadata;
}

unfoldable pub update : (now trip_id user_id : ℕ) → UpdateTripDto → Method FullTrip
unfolding load_full_trip
update now trip_id user_id dto = do
  trip ← get_trip trip_id
  throw_if (not (trip.creator_id == user_id)) not_trip_admin
  throw_if (starts_within_window now trip.scheduled_start_time && is_pending_trip trip.status)
      edit_window_closed
  throw_if (not (is_pending_trip trip.status)) (trip_not_editable trip.status)
  save_trip trip.id (apply_update dto trip)
  load_full_trip trip_id

unfoldable pub cancel : (trip_id user_id : ℕ) → Method (Unit {0})
unfolding get_trip
cancel trip_id user_id = do
  trip ← get_trip trip_id
  throw_if (not (trip.creator_id == user_id)) not_trip_admin
  throw_if (is_completed_trip trip.status) already_completed
  save_trip trip.id λ t. record t { status = TripStatus.cancelled }
