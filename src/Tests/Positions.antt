-- ===== src/Tests/Positions.antt =====
-- Positions kept in a list, caches that hold a function of the key, and a socket of user 10, who is in no
-- trip.
use myride_api.Common.{
  ℕ, ◌≡◌, refl, true, false, some, none, List, [], ◌∷◌, ◌++◌, ok, arith, find_first,
}
use myride_api.Redis.{Redis, table}
use myride_api.Chat.Access
use myride_api.Chat.Limits
use myride_api.Chat.Limits.{check_rate_limit}
use myride_api.Chat.Gateway.{Claims}
use myride_api.Location.{
  Near, State, position_of, is_jitter, update_position, get_snapshot, remove_position,
}
use myride_api.Location.Storage.{LocationPayload, ParticipantPosition, Stored, IsIn, shows, live}
use myride_api.Location.Storage.Rows.{rows_of}
use myride_api.Location.Gateway.{
  Server, UpdateBody, claims_of, socket, handle_update, to_trip, location_changed,
}
use myride_api.Location.Sharing.{with_access, handle_update-anyone, update_position-get_snapshot}
use myride_api.Tests.{db}

abbrev cache : Redis Access.Key
cache = table Access.same_key Access.same_key_iff

abbrev counters : Redis Limits.Key
counters = table Limits.same_key Limits.same_key_iff

-- No two points are near.
abbrev near : Near
near lat1 lng1 lat2 lng2 = false

abbrev service : State cache counters rows_of
service = record {
  access = record {
    store = λ k. none;
    tables = record { participants = db.participants; members = [] };
  };
  limits = λ k. none;
  positions = [];
}

abbrev here : LocationPayload
here = record { lat = "28.6"; lng = "77.1"; heading = none; speed = none; ts = 4 }

accepted :
    (update_position cache counters rows_of near 5 8 (some "A") 1 here service).0
    ≡ ok (some (position_of 8 (some "A") here))
unfolding update_position find_first
accepted = refl

no_positions :
    (u : ℕ) (e : Stored) → rows_of.view service.positions 1 u ≡ some e → e.position.user_id ≡ u
unfolding find_first
no_positions u e h = cc

update_position-get_snapshot_example :
    let shared = (update_position cache counters rows_of near 5 8 (some "A") 1 here service).1 in
    let removed = (remove_position cache counters rows_of 8 1 shared).1 in
    ((ps : List ParticipantPosition) × ((get_snapshot cache counters rows_of 3604 1 shared).0
        ≡ ok ps)
      × IsIn
          (record {
            user_id = 8;
            name = some "A";
            lat = "28.6";
            lng = "77.1";
            heading = none;
            speed = none;
            ts = 4;
          })
          ps)
    × ((ps : List ParticipantPosition) × ((get_snapshot cache counters rows_of 3605 1 shared).0
          ≡ ok ps)
        × (shows 8 ps ≡ false))
    × ((when : ℕ)
        → (ps : List ParticipantPosition) × ((get_snapshot cache counters rows_of when 1 removed).0
            ≡ ok ps)
          × (shows 8 ps ≡ false))
update_position-get_snapshot_example =
    update_position-get_snapshot cache counters rows_of near 5 3604 3605 8 (some "A") 1 here service
      accepted (omega arith) (omega arith) no_positions

abbrev ten : Claims
ten = record { sub = 10; name = none; profile_photo_url = none }

abbrev server : Server cache counters rows_of
server = record {
  service = service;
  sockets = record { id = 3; user = some ten; trips = [] } ∷ [];
  emitted = [];
}

abbrev body : UpdateBody
body = record {
  trip_id = some 1;
  lat = some "28.6";
  lng = some "77.1";
  heading = none;
  speed = none;
  ts = 4;
}

signed_in : claims_of (socket cache counters rows_of 3 server) ≡ some ten
unfolding find_first
signed_in = refl

allowed : (check_rate_limit counters 10 5 service.limits).0 ≡ true
unfolding check_rate_limit
allowed = refl

far : is_jitter near (live 5 (rows_of.view service.positions 1 10)) here ≡ false
unfolding find_first
far = refl

handle_update-anyone_example :
    let s' =
      handle_update cache counters rows_of near 5 3 body
        (with_access cache counters rows_of service.access server) in
    (s'.emitted ≡ [] ++ to_trip 1 (location_changed (position_of 10 none here)) ∷ [])
    × (rows_of.view s'.service.positions 1 10
        ≡ some (record { position = position_of 10 none here; deadline = 3605 }))
handle_update-anyone_example =
    handle_update-anyone cache counters rows_of near 5 3 body server service.access ten 1 here
      signed_in refl allowed far
