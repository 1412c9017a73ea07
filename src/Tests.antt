-- ===== src/Tests.antt =====
-- A small store, the concrete input of the examples: user 7's public trip 1 with two stops, user 8 in
-- it, user 9 waiting, and user 7's private trip 2 with a password link.
pub mod Membership
pub mod Editing
pub mod Stops
pub mod Links
pub mod SignIn
pub mod Alerts
pub mod Rooms
pub mod Communities
pub mod Histories
pub mod Workers
pub mod Messages
pub mod Sending
pub mod Versions
pub mod Positions
use myride_api.Common.{
  ℕ, ◌+◌, ◌≡◌, ◌≢◌, String, Bool, true, false, Option, some, none, List, [], ◌∷◌, arith, find_first,
  count_where, Distinct, All, map, not, ◌&&◌, ◌==◌, refl, ap,
}
use myride_api.Entities.{
  Trip, TripStatus, one_way, public, private, Visibility, TripStop, StopType, Point,
  TripParticipant, ParticipantStatus, Role, PaymentStatus, TripShareableLink, AccessMode,
}
use myride_api.Store.{Db, trip_with_id}
use myride_api.Store.Members.{IsConsistent, participant_id, pair}
use myride_api.Store.Capacity.{IsWithinCapacity}

abbrev pub trip_row : (id : ℕ) → Visibility → (count : ℕ) → Trip
trip_row id visibility count = record {
  id = id;
  title = "Hills";
  description = none;
  trip_type = one_way;
  visibility = visibility;
  is_paid = false;
  trip_price = none;
  status = TripStatus.pending;
  creator_id = 7;
  community_id = none;
  max_participants = 3;
  current_participants = count;
  scheduled_start_time = none;
  metadata = none;
  created_at = 0;
}

abbrev pub row : (id trip_id user_id : ℕ) → ParticipantStatus → TripParticipant
row id trip_id user_id status = record {
  id = id;
  trip_id = trip_id;
  user_id = user_id;
  status = status;
  role = Role.member;
  joined_at = none;
  left_at = none;
  payment_status = none;
  created_at = id;
}

abbrev pub stop_row : (id order : ℕ) → TripStop
stop_row id order = record {
  id = id;
  trip_id = 1;
  stop_order = order;
  name = "Stop";
  description = none;
  location = record { longitude = "77.1"; latitude = "28.6" };
  address = none;
  stop_type = StopType.waypoint;
  duration_minutes = none;
  is_mandatory = true;
}

abbrev pub link_row : (id trip_id : ℕ) → String → AccessMode → TripShareableLink
link_row id trip_id token mode = record {
  id = id;
  trip_id = trip_id;
  link_token = token;
  access_mode = mode;
  password_hash = none;
  expires_at = none;
  is_active = true;
  total_views = 0;
  join_requests = 0;
  successful_joins = 0;
  last_accessed_at = none;
}

abbrev pub db : Db
db = record {
  trips = trip_row 1 public 2 ∷ trip_row 2 private 1 ∷ [];
  stops = stop_row 12 2 ∷ stop_row 11 1 ∷ stop_row 13 3 ∷ [];
  participants =
      row 1 1 7 ParticipantStatus.approved
      ∷ row 2 1 8 ParticipantStatus.approved
      ∷ row 3 1 9 ParticipantStatus.pending
      ∷ row 4 2 7 ParticipantStatus.approved
      ∷ [];
  progress = [];
  links =
      link_row 1 1 "aa" AccessMode.auto_join ∷ link_row 2 2 "bb" AccessMode.password_protected ∷ [];
  outbox = [];
}

-- Whether a list of numbers, or of pairs, repeats none.
abbrev pub is_new : ℕ → List ℕ → Bool
is_new k [] = true
is_new k (j ∷ js) = not (k == j) && is_new k js

abbrev pub no_repeats : List ℕ → Bool
no_repeats [] = true
no_repeats (k ∷ ks) = is_new k ks && no_repeats ks

abbrev pub is_new_pair : ℕ × ℕ → List (ℕ × ℕ) → Bool
is_new_pair k [] = true
is_new_pair k (j ∷ js) = not (k.0 == j.0 && k.1 == j.1) && is_new_pair k js

abbrev pub no_repeated_pairs : List (ℕ × ℕ) → Bool
no_repeated_pairs [] = true
no_repeated_pairs (k ∷ ks) = is_new_pair k ks && no_repeated_pairs ks

is_new-All : (k : ℕ) (js : List ℕ) → is_new k js ≡ true → All (λ j. k ≢ j) js
is_new-All k [] h = tt
is_new-All k (j ∷ js) h = ((λ e. absurd (ground arith)), is_new-All k js (ground arith))

pub no_repeats-Distinct : (ks : List ℕ) → no_repeats ks ≡ true → Distinct ks
no_repeats-Distinct [] h = tt
no_repeats-Distinct (k ∷ ks) h =
    (is_new-All k ks (ground arith), no_repeats-Distinct ks (ground arith))

pair-ne : (a b : ℕ × ℕ) → not (a.0 == b.0 && a.1 == b.1) ≡ true → a ≢ b
pair-ne a b h e =
    let first : a.0 ≡ b.0 = ap (λ p. p.0) e in
    let second : a.1 ≡ b.1 = ap (λ p. p.1) e in absurd (ground arith)

is_new_pair-All : (k : ℕ × ℕ) (js : List (ℕ × ℕ)) → is_new_pair k js ≡ true → All (λ j. k ≢ j) js
is_new_pair-All k [] h = tt
is_new_pair-All k (j ∷ js) h = (pair-ne k j (ground arith), is_new_pair-All k js (ground arith))

pub no_repeated_pairs-Distinct : (ks : List (ℕ × ℕ)) → no_repeated_pairs ks ≡ true → Distinct ks
no_repeated_pairs-Distinct [] h = tt
no_repeated_pairs-Distinct (k ∷ ks) h =
    (is_new_pair-All k ks (ground arith), no_repeated_pairs-Distinct ks (ground arith))

pub db-IsConsistent : IsConsistent db
unfolding find_first count_where
db-IsConsistent = record {
  ids = no_repeats-Distinct (map participant_id db.participants) refl;
  pairs = no_repeated_pairs-Distinct (map pair db.participants) refl;
  counted = λ t trip at. ground arith;
}

pub db-IsWithinCapacity : IsWithinCapacity db.trips
unfolding find_first
db-IsWithinCapacity t trip at = ground arith
