-- ===== src/Tests/Editing.antt =====
-- Showing a private trip of the small store.
use myride_api.Common.{◌≡◌, ◌⊎◌, ◌↔◌, refl, some, find_first, ok, ◌&&◌, ◌||◌, ◌==◌}
use myride_api.Entities.{TripParticipant, private, is_approved, is_pending}
use myride_api.Store.{trip_with_id}
use myride_api.Trips.Editing.{FullTrip, find_one}
use myride_api.Trips.Editing.Laws.{find_one-private_iff}
use myride_api.Tests.{db, trip_row}

trip_two : find_first (trip_with_id 2) db.trips ≡ some (trip_row 2 private 1)
unfolding find_first
trip_two = refl

find_one-private_iff_example : ((full : FullTrip) × ((find_one 2 8 db).0 ≡ ok full)) ↔ (
    ((trip_row 2 private 1).creator_id ≡ 8)
    ⊎ ((p : TripParticipant) × (find_first
            (λ q. q.trip_id == 2 && q.user_id == 8 && (is_approved q.status || is_pending q.status))
            db.participants
          ≡ some p)))
find_one-private_iff_example = find_one-private_iff 2 8 db trip_two refl
