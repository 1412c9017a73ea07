-- ===== src/Trips/Listing.antt =====
-- `list` and `discover` of src/modules/trips/trips.service.ts. PostGIS is an argument: whether a point lies
-- within a radius in metres of the request's, and how far it is. A trip's first stop is the first row
-- with stop_order 1; `create` gives each trip one. The joined creator is left out.
pub mod Joinable
pub mod Readable
use myride_api.Common.{
  ℕ, ◌+◌, ◌*◌, String, Bool, true, false, not, ◌&&◌, ◌||◌, Option, some, none, List, [], ◌∷◌, map,
  take, drop, length, min, ◌==◌, leb, ltb, or_else, is_some, if◌then◌else◌, find_first, find_all,
  sort_by, gets,
}
use myride_api.Entities.{
  Trip, TripType, one_way, round_trip, TripStatus, Visibility, public, private, TripStop, Point,
  TripParticipant, is_pending_trip, is_private, is_approved, is_pending,
}
use myride_api.Store.{Db, Method, participant_of, approved_row}
use myride_api.Progress.Seed.{stops_in_order}

pub data Scope : Type 0 where
  mine joined all : Scope

pub record ListTripsDto : Type 0 where
  pub scope : Option Scope
  pub status : Option TripStatus
  pub visibility : Option Visibility
  pub community_id : Option ℕ
  pub limit : Option ℕ
  pub offset : Option ℕ

pub record ListedTrip : Type 0 where
  pub trip : Trip
  pub stops : List TripStop

pub record Page : Type 0 where
  pub items : List ListedTrip
  pub total : ℕ

abbrev pub same_status : TripStatus → TripStatus → Bool
same_status TripStatus.pending TripStatus.pending = true
same_status TripStatus.in_progress TripStatus.in_progress = true
same_status TripStatus.completed TripStatus.completed = true
same_status TripStatus.cancelled TripStatus.cancelled = true
same_status _ _ = false

abbrev pub same_visibility : Visibility → Visibility → Bool
same_visibility a b = is_private a && is_private b || not (is_private a) && not (is_private b)

abbrev pub same_type : TripType → TripType → Bool
same_type one_way one_way = true
same_type round_trip round_trip = true
same_type _ _ = false

-- A filter of the query that is only added where the request has it.
abbrev pub matches : {A : Type 0} → (A → Bool) → Option A → Bool
matches test none = true
matches test (some a) = test a

abbrev pub in_community : ℕ → Option ℕ → Bool
in_community id none = false
in_community id (some c) = c == id

-- `EXISTS (SELECT 1 FROM trip_participants … status = 'approved')`
abbrev pub has_joined : ℕ → Db → Trip → Bool
has_joined user_id db t = is_some (find_first (approved_row t.id user_id) db.participants)

abbrev pub in_scope : Scope → ℕ → Db → Trip → Bool
in_scope mine user_id db t = t.creator_id == user_id
in_scope joined user_id db t = has_joined user_id db t
in_scope all user_id db t =
    not (is_private t.visibility) || t.creator_id == user_id || has_joined user_id db t

abbrev pub is_listed : ℕ → ListTripsDto → Db → Trip → Bool
is_listed user_id dto db t =
    in_scope (or_else dto.scope mine) user_id db t
    && matches (λ s. same_status t.status s) dto.status
    && matches (λ v. same_visibility t.visibility v) dto.visibility
    && matches (λ c. in_community c t.community_id) dto.community_id

-- `trip.created_at DESC`
abbrev pub newest_first : Trip → Trip → Bool
newest_first a b = leb b.created_at a.created_at

-- The stops of each trip, which the code reads in one query and groups.
abbrev pub with_stops : Db → Trip → ListedTrip
with_stops db t = record { trip = t; stops = stops_in_order t.id db }

-- LIMIT and OFFSET, and the count of all rows that match.
abbrev pub page_of : (limit offset : Option ℕ) → Db → List Trip → Page
page_of limit offset db trips = record {
  items = map (with_stops db) (take (min (or_else limit 20) 100) (drop (or_else offset 0) trips));
  total = length trips;
}

unfoldable pub list : (user_id : ℕ) → ListTripsDto → Method Page
list user_id dto = gets λ (db : Db).
    page_of dto.limit dto.offset db
      (sort_by newest_first (find_all (is_listed user_id dto db) db.trips))

pub data Pricing : Type 0 where
  free paid any : Pricing

pub record DiscoverTripsDto : Type 0 where
  pub latitude : Option String
  pub longitude : Option String
  pub radius_km : Option ℕ
  pub from : Option ℕ
  pub to : Option ℕ
  pub pricing : Option Pricing
  pub trip_type : Option TripType
  pub limit : Option ℕ
  pub offset : Option ℕ

-- What PostGIS answers, for a point and the request's latitude and longitude.
pub record Geography : Type 0 where
  pub is_within : (radius_m : ℕ) → Point → (latitude longitude : String) → Bool
  pub distance : Point → (latitude longitude : String) → ℕ

-- `dto.latitude !== undefined && dto.longitude !== undefined`
abbrev pub place_of : DiscoverTripsDto → Option (String × String)
place_of dto = elim dto.latitude [
  | none ↦ none
  | some lat ↦ elim dto.longitude [ none ↦ none | some lng ↦ some (lat, lng) ]
]

abbrev pub has_price : Pricing → Bool → Bool
has_price free is_paid = not is_paid
has_price paid is_paid = is_paid
has_price any is_paid = true

-- NULL compares with nothing.
abbrev pub starts_from : ℕ → Option ℕ → Bool
starts_from at none = false
starts_from at (some start) = leb at start

abbrev pub starts_until : ℕ → Option ℕ → Bool
starts_until at none = false
starts_until at (some start) = leb start at

abbrev pub has_open_row : ℕ → Db → Trip → Bool
has_open_row user_id db t = is_some (
    find_first (λ p. participant_of t.id user_id p && (is_pending p.status || is_approved p.status))
      db.participants)

abbrev pub start_stop : Db → Trip → Option TripStop
start_stop db t = find_first (λ (s : TripStop). s.trip_id == t.id && s.stop_order == 1) db.stops

abbrev pub starts_near : Geography → ℕ → Option TripStop → String × String → Bool
starts_near geo radius_m none place = false
starts_near geo radius_m (some s) place = geo.is_within radius_m s.location place.0 place.1

abbrev pub is_discovered : Geography → ℕ → DiscoverTripsDto → Db → Trip → Bool
is_discovered geo user_id dto db t =
    not (is_private t.visibility)
    && is_pending_trip t.status
    && ltb t.current_participants t.max_participants
    && not (t.creator_id == user_id)
    && not (has_open_row user_id db t)
    && matches (λ k. same_type t.trip_type k) dto.trip_type
    && matches (λ p. has_price p t.is_paid) dto.pricing
    && matches (λ f. starts_from f t.scheduled_start_time) dto.from
    && matches (λ u. starts_until u t.scheduled_start_time) dto.to
    && matches (λ place. starts_near geo (or_else dto.radius_km 100 * 1000) (start_stop db t) place)
        (place_of dto)

-- ASC, with NULL last.
abbrev pub time_leb : Option ℕ → Option ℕ → Bool
time_leb a none = true
time_leb none (some b) = false
time_leb (some a) (some b) = leb a b

abbrev pub by_departure : Trip → Trip → Bool
by_departure a b =
    if time_leb a.scheduled_start_time b.scheduled_start_time
    then not (time_leb b.scheduled_start_time a.scheduled_start_time)
      || leb b.created_at a.created_at
    else false

abbrev pub distance_to : Geography → Db → String × String → Trip → ℕ
distance_to geo db place t = elim (start_stop db t) [
  | none ↦ 0
  | some s ↦ geo.distance s.location place.0 place.1
]

abbrev pub by_distance : Geography → Db → String × String → Trip → Trip → Bool
by_distance geo db place a b =
    ltb (distance_to geo db place a) (distance_to geo db place b)
    || distance_to geo db place a == distance_to geo db place b
      && time_leb a.scheduled_start_time b.scheduled_start_time

abbrev pub discovery_order : Geography → DiscoverTripsDto → Db → Trip → Trip → Bool
discovery_order geo dto db = elim (place_of dto) [
  | none ↦ by_departure
  | some place ↦ by_distance geo db place
]

unfoldable pub discover : Geography → (user_id : ℕ) → DiscoverTripsDto → Method Page
discover geo user_id dto = gets λ (db : Db).
    page_of dto.limit dto.offset db
      (sort_by (discovery_order geo dto db) (find_all (is_discovered geo user_id dto db) db.trips))
