-- ===== src/Tests/Links.antt =====
-- The links of the small store.

use myride_api.Common.{
  ◌<◌, ◌≡◌, ◌≢◌, refl, String, Bool, false, some, none, find_first, Result, ok, err, if◌then◌else◌,
  update_where, arith, ◌++◌, [], ◌∷◌,
}
use myride_api.Entities.{
  TripShareableLink, AccessMode, password_protected, public, private, TripParticipant,
  ParticipantStatus,
}
use myride_api.Store.{Error, trip_with_id, participant_of, wrong_password}
use myride_api.Trips.Membership.{assert_admin, get_trip}
use myride_api.ShareLinks.{ShareLinkDto, upsert, link_with_token}
use myride_api.ShareLinks.Joining.{verify_password, join_via_link}
use myride_api.ShareLinks.Laws.{upsert-verify_password, join_via_link-password_protected}
use myride_api.Tests.{db, link_row, trip_row}

abbrev salted : String → String
salted s = s

abbrev never : String → String → Bool
never a b = false

abbrev link_or : Result Error TripShareableLink → TripShareableLink
link_or (ok l) = l
link_or (err e) = link_row 1 1 "aa" AccessMode.auto_join

abbrev protect : ShareLinkDto
protect = record {
  access_mode = some password_protected;
  password = some "pw";
  expires_in_hours = none;
}

no_such_token : find_first (link_with_token "cc") db.links ≡ none
unfolding find_first
no_such_token = refl

upserted :
    (upsert 5 9 "cc" salted 1 7 protect db).0
    ≡ ok (link_or (upsert 5 9 "cc" salted 1 7 protect db).0)
unfolding upsert assert_admin get_trip find_first update_where
upserted = refl

upsert-verify_password_example :
    (verify_password never "cc" "pw" (upsert 5 9 "cc" salted 1 7 protect db).1).0
    ≡ (if never "pw" (salted "pw") then ok tt else err wrong_password)
upsert-verify_password_example =
    upsert-verify_password 5 9 "cc" salted never 1 7 protect "pw" "pw" db refl no_such_token
      upserted

trip_one : find_first (trip_with_id 1) db.trips ≡ some (trip_row 1 public 2)
unfolding find_first
trip_one = refl

trip_two : find_first (trip_with_id 2) db.trips ≡ some (trip_row 2 private 1)
unfolding find_first
trip_two = refl

link_bb :
    find_first (link_with_token "bb") db.links
    ≡ some (link_row 2 2 "bb" AccessMode.password_protected)
unfolding find_first
link_bb = refl

no_row_of_ten : find_first (participant_of 2 10) db.participants ≡ none
unfolding find_first
no_row_of_ten = refl

not_ten : (trip_row 2 private 1).creator_id ≢ 10
not_ten e = absurd (omega arith)

has_room : (trip_row 2 private 1).current_participants < (trip_row 2 private 1).max_participants
has_room = omega arith

join_via_link-password_protected_example :
    let db' = (join_via_link 5 9 "bb" 10 db).1 in
    (p : TripParticipant) × ((join_via_link 5 9 "bb" 10 db).0 ≡ ok p)
    × (p.trip_id ≡ 2)
    × (p.user_id ≡ 10)
    × (p.status ≡ ParticipantStatus.pending)
    × (db'.participants ≡ db.participants ++ p ∷ [])
    × (db'.trips ≡ db.trips)
join_via_link-password_protected_example =
    join_via_link-password_protected 5 9 "bb" 10 db link_bb refl refl refl trip_two not_ten refl
      has_room no_row_of_ten
