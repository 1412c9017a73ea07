-- ===== src/Tests/Histories.antt =====
-- A history of the small store: user 9 is let in, user 8 leaves, and user 8 comes back by a link. And what
-- the lists show of the store.
use myride_api.Common.{
  ℕ, ◌+◌, ◌≡◌, refl, true, none, some, map, All, length, ◌≤◌, is_ok, find_first, ok, update_where,
}
use myride_api.Entities.{Trip}
use myride_api.Store.{Db, participant_with_id}
use myride_api.Store.Members.{IsConsistent}
use myride_api.Progress.Seed.{ensure_rows_exist}
use myride_api.Trips.Membership.{approve_join, leave_trip, request_join}
use myride_api.Trips.Editing.{find_one}
use myride_api.ShareLinks.Joining.{join_via_link}
use myride_api.Trips.History.{
  ◌⟶*◌, here, more, approves, leaves, joins_by_link, history-IsConsistent,
}
use myride_api.Trips.Standing.{standing, ◌⇝◌}
use myride_api.Trips.Lifecycle.{step-refines}
use myride_api.Trips.Listing.{
  ListTripsDto, ListedTrip, Page, list, joined, DiscoverTripsDto, Geography, discover,
}
use myride_api.Trips.Listing.Readable.{list-find_one}
use myride_api.Trips.Listing.Joinable.{discover-request_join}
use myride_api.Tests.{db, db-IsConsistent, no_repeats-Distinct}

abbrev ids : ℕ → ℕ
ids n = n + 100

abbrev let_in : Db
let_in = (approve_join 5 ids true 1 7 9 db).1

abbrev gone : Db
gone = (leave_trip 6 1 8 let_in).1

abbrev back : Db
back = (join_via_link 7 5 "aa" 8 gone).1

no_row_five : find_first (λ p. participant_with_id 5 p) gone.participants ≡ none
unfolding find_first approve_join leave_trip ensure_rows_exist update_where
no_row_five = refl

abbrev past : db ⟶* back
past =
    more (more (more here (approves 5 ids true 1 7 9)) (leaves 6 1 8))
      (joins_by_link 7 5 "aa" 8 no_row_five)

history-IsConsistent_example : IsConsistent back
history-IsConsistent_example = history-IsConsistent past db-IsConsistent

step-refines_example : standing 1 9 db.participants ⇝ standing 1 9 let_in.participants
step-refines_example = step-refines (approves 5 ids true 1 7 9) db-IsConsistent 1 9

-- Everything is near.
abbrev near : Geography
near = record { is_within = λ r p lat lng. true; distance = λ p lat lng. 0 }

abbrev nearby : DiscoverTripsDto
nearby = record {
  latitude = some "28.6";
  longitude = some "77.1";
  radius_km = none;
  from = none;
  to = none;
  pricing = none;
  trip_type = none;
  limit = none;
  offset = none;
}

discover-request_join_example :
    (page : Page) × ((discover near 10 nearby db).0 ≡ ok page)
    × All (λ (i : ListedTrip). is_ok (request_join 5 6 i.trip.id 10 db).0 ≡ true) page.items
discover-request_join_example =
    discover-request_join 5 6 10 db near nearby
      (no_repeats-Distinct (map (λ (t : Trip). t.id) db.trips) refl)

abbrev of_eight : ListTripsDto
of_eight = record {
  scope = some joined;
  status = none;
  visibility = none;
  community_id = none;
  limit = none;
  offset = none;
}

list-find_one_example :
    (page : Page) × ((list 8 of_eight db).0 ≡ ok page)
    × All (λ (i : ListedTrip). is_ok (find_one i.trip.id 8 db).0 ≡ true) page.items
    × (length page.items ≤ 100)
list-find_one_example =
    list-find_one 8 db of_eight (no_repeats-Distinct (map (λ (t : Trip). t.id) db.trips) refl)
