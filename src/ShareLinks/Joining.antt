-- ===== src/ShareLinks/Joining.antt =====
-- Using a link: `resolveByToken`, `verifyPassword` and `joinViaLink` of
-- src/modules/share-links/share-links.service.ts.
pub mod Invariant
use myride_api.Common.{
  ℕ, ◌+◌, String, Bool, true, false, not, ◌&&◌, ◌||◌, Option, some, none, List, map, is_some, ltb,
  leb, ◌==◌, if◌then◌else◌, find_first, update_where, pure, gets, modify, throw_if, or_throw, ◌>>=◌,
  ◌>>◌,
}
use myride_api.Entities.{
  Trip, TripType, Visibility, TripStatus, TripStop, StopType, AccessMode, auto_join,
  TripShareableLink, TripParticipant, ParticipantStatus, PaymentStatus, member, is_pending_trip,
}
use myride_api.Store.{
  Db, Method, Error, trip_not_found, link_not_found, link_not_found_or_disabled, link_expired,
  wrong_password, creator_cannot_join, link_trip_not_joinable, trip_full, trip_with_id, save_trip,
  participant_of, save_participant, insert_participant,
}
use myride_api.Progress.Seed.{stops_in_order}
use myride_api.Trips.Membership.{get_trip, refuse_existing}
use myride_api.ShareLinks.{link_with_token, link_with_id, save_link, is_protected}

pub record SharedStop : Type 0 where
  pub id : ℕ
  pub stop_order : ℕ
  pub name : String
  pub stop_type : StopType

pub record SharedTrip : Type 0 where
  pub id : ℕ
  pub title : String
  pub description : Option String
  pub trip_type : TripType
  pub visibility : Visibility
  pub is_paid : Bool
  pub trip_price : Option ℕ
  pub status : TripStatus
  pub max_participants : ℕ
  pub current_participants : ℕ
  pub scheduled_start_time : Option ℕ
  pub creator : Option (ℕ × Option String)
  pub stops : List SharedStop

pub record Resolved : Type 0 where
  pub trip : SharedTrip
  pub access_mode : AccessMode
  pub requires_password : Bool
  pub can_join : Bool
  pub expires_at : Option ℕ

abbrev pub shared_stop : TripStop → SharedStop
shared_stop s = record {
  id = s.id;
  stop_order = s.stop_order;
  name = s.name;
  stop_type = s.stop_type;
}

abbrev pub shared_trip : Option (ℕ × Option String) → List TripStop → Trip → SharedTrip
shared_trip creator stops trip = record {
  id = trip.id;
  title = trip.title;
  description = trip.description;
  trip_type = trip.trip_type;
  visibility = trip.visibility;
  is_paid = trip.is_paid;
  trip_price = trip.trip_price;
  status = trip.status;
  max_participants = trip.max_participants;
  current_participants = trip.current_participants;
  scheduled_start_time = trip.scheduled_start_time;
  creator = creator;
  stops = map shared_stop stops;
}

-- `!link || !link.is_active`
abbrev pub active_link : Option TripShareableLink → Error → Method TripShareableLink
active_link none e = λ db. or_throw none e db
active_link (some l) e = do throw_if (not l.is_active) e; pure l

-- `link.expires_at && link.expires_at.getTime() < Date.now()`
abbrev pub is_expired : ℕ → Option ℕ → Bool
is_expired now none = false
is_expired now (some at) = ltb at now

abbrev pub can_join : Trip → Bool
can_join trip = is_pending_trip trip.status && ltb trip.current_participants trip.max_participants

-- `total_views` is incremented and `last_accessed_at` set, without waiting.
abbrev pub viewed : ℕ → TripShareableLink → TripShareableLink
viewed now l = record l { total_views = l.total_views + 1; last_accessed_at = some now }

unfoldable pub resolve_by_token :
    (now : ℕ) (creator : ℕ → Option (ℕ × Option String)) → String → Method Resolved
unfolding get_trip
resolve_by_token now creator token = do
  found ← gets λ (db : Db). find_first (link_with_token token) db.links
  link ← active_link found link_not_found_or_disabled
  throw_if (is_expired now link.expires_at) link_expired
  trip ← get_trip link.trip_id
  stops ← gets λ (db : Db). stops_in_order trip.id db
  save_link link.id (viewed now)
  pure (record {
    trip = shared_trip (creator trip.creator_id) stops trip;
    access_mode = link.access_mode;
    requires_password = is_protected link.access_mode;
    can_join = can_join trip;
    expires_at = link.expires_at;
  })

abbrev pub check_password : (String → String → Bool) → String → Option String → Method (Unit {0})
check_password compare password none = pure tt
check_password compare password (some h) = throw_if (not (compare password h)) wrong_password

unfoldable pub verify_password :
    (compare : String → String → Bool) → String → String → Method (Unit {0})
verify_password compare token password = do
  found ← gets λ (db : Db). find_first (link_with_token token) db.links
  link ← active_link found link_not_found
  check_password compare password link.password_hash

abbrev pub is_auto_join : AccessMode → Bool
is_auto_join auto_join = true
is_auto_join _ = false

-- `autoApprove ? 'approved' : 'pending'`
abbrev pub joined_status : Bool → ParticipantStatus
joined_status auto = if auto then ParticipantStatus.approved else ParticipantStatus.pending

-- `left_at` keeps its value here, unlike in `requestJoin`.
abbrev pub join_again : ℕ → Bool → TripParticipant → TripParticipant
join_again now auto p = record p {
  status = joined_status auto;
  joined_at = if auto then some now else none;
}

abbrev pub new_joiner : (now id trip_id user_id : ℕ) → Bool → Bool → TripParticipant
new_joiner now id trip_id user_id auto paid = record {
  id = id;
  trip_id = trip_id;
  user_id = user_id;
  status = joined_status auto;
  role = member;
  joined_at = if auto then some now else none;
  left_at = none;
  payment_status = if paid then some PaymentStatus.pending else none;
  created_at = now;
}

-- `bumpAnalytics`
abbrev pub bump_analytics : Bool → TripShareableLink → TripShareableLink
bump_analytics success l = record l {
  join_requests = l.join_requests + 1;
  successful_joins = if success then l.successful_joins + 1 else l.successful_joins;
}

-- `increment({ id }, 'current_participants', 1)`
abbrev pub count_in : Bool → ℕ → Method (Unit {0})
count_in auto trip_id =
    if auto
    then save_trip trip_id (λ t. record t { current_participants = t.current_participants + 1 })
    else pure tt

abbrev pub store_join :
    (now new_id user_id : ℕ) (auto : Bool)
    → TripShareableLink
    → Trip
    → Option TripParticipant
    → Method TripParticipant
store_join now new_id user_id auto link trip none = do
  insert_participant (new_joiner now new_id trip.id user_id auto trip.is_paid)
  count_in auto trip.id
  save_link link.id (bump_analytics auto)
  pure (new_joiner now new_id trip.id user_id auto trip.is_paid)
store_join now new_id user_id auto link trip (some p) = do
  save_participant p.id (join_again now auto)
  save_link link.id (bump_analytics auto)
  count_in auto trip.id
  pure (join_again now auto p)

unfoldable pub join_via_link : (now new_id : ℕ) → String → ℕ → Method TripParticipant
unfolding get_trip
join_via_link now new_id token user_id = do
  found ← gets λ (db : Db). find_first (link_with_token token) db.links
  link ← active_link found link_not_found
  throw_if (is_expired now link.expires_at) link_expired
  trip ← get_trip link.trip_id
  throw_if (trip.creator_id == user_id) creator_cannot_join
  throw_if (not (is_pending_trip trip.status)) link_trip_not_joinable
  throw_if (leb trip.max_participants trip.current_participants) trip_full
  existing ← gets λ (db : Db). find_first (participant_of trip.id user_id) db.participants
  refuse_existing existing
  store_join now new_id user_id (is_auto_join link.access_mode && not trip.is_paid) link trip
      existing
