-- ===== src/Progress.antt =====
-- Per-user progress through the stops of a trip: src/modules/trips/stop-progress.service.ts.
-- `now` is the clock's reading, and `new_ids` gives the uuids that the database generates.
pub mod Seed
pub mod Seeding
pub mod Laws
pub mod Advancing
use text.Mathlib.Text.{◌==◌ as str_eq}
use myride_api.Common.{
  ℕ, ◌+◌, String, Bool, true, false, not, ◌&&◌, Option, some, none, List, [], ◌∷◌, map, ◌==◌,
  is_some, if◌then◌else◌, or_option, find_first, count_where, update_where, pure, gets, modify,
  throw_if, or_throw, transaction, ◌>>=◌, ◌>>◌,
}
use myride_api.Entities.{Point, TripStop, ProgressStatus, UserStopProgress, Trip}
use myride_api.Store.{
  Db, Method, trip_not_found, not_trip_admin, not_trip_member, stop_not_found, progress_row_missing,
  trip_with_id, approved_row,
}
use Seed.{progress_of, stops_in_order, ensure_rows_exist}

abbrev pub is_completed : ProgressStatus → Bool
is_completed ProgressStatus.completed = true
is_completed _ = false

abbrev pub is_current : ProgressStatus → Bool
is_current ProgressStatus.current = true
is_current _ = false

abbrev pub is_waiting : ProgressStatus → Bool
is_waiting ProgressStatus.pending = true
is_waiting _ = false

unfoldable pub assert_member : (trip_id user_id : ℕ) → Method (Unit {0})
assert_member trip_id user_id = do
  found ← gets λ (db : Db). find_first (trip_with_id trip_id) db.trips
  trip ← or_throw found trip_not_found
  row ← gets λ (db : Db). find_first (approved_row trip_id user_id) db.participants
  throw_if (not (trip.creator_id == user_id) && not (is_some row)) not_trip_member

pub record StopProgress : Type 0 where
  pub stop_id : ℕ
  pub stop_order : ℕ
  pub stop_name : String
  pub status : ProgressStatus
  pub completed_at : Option ℕ

-- The inner join of the user's rows with the trip's stops, by stop_order.
unfoldable pub progress_rows : ℕ → List UserStopProgress → List TripStop → List StopProgress
progress_rows user_id rows [] = []
progress_rows user_id rows (s ∷ ss) =
    let rest = progress_rows user_id rows ss in
    elim (find_first (progress_of s.id user_id) rows) [
      | none ↦ rest
      | some p ↦
          record {
            stop_id = p.stop_id;
            stop_order = s.stop_order;
            stop_name = s.name;
            status = p.status;
            completed_at = p.completed_at;
          }
          ∷ rest
    ]

unfoldable pub get_my_progress :
    (new_ids : ℕ → ℕ) (trip_id user_id : ℕ) → Method (List StopProgress)
unfolding assert_member ensure_rows_exist progress_rows
get_my_progress new_ids trip_id user_id = do
  assert_member trip_id user_id
  ensure_rows_exist new_ids trip_id user_id
  gets λ (db : Db). progress_rows user_id db.progress (stops_in_order trip_id db)

pub record StopCounts : Type 0 where
  pub stop_id : ℕ
  pub stop_order : ℕ
  pub stop_name : String
  pub completed_count : ℕ
  pub current_count : ℕ
  pub pending_count : ℕ

-- The aggregate of one stop: the sums of CASEs over its rows, NULL (for no row) read as 0.
abbrev pub stop_counts : List UserStopProgress → TripStop → StopCounts
stop_counts rows s = record {
  stop_id = s.id;
  stop_order = s.stop_order;
  stop_name = s.name;
  completed_count = count_where (λ p. p.stop_id == s.id && is_completed p.status) rows;
  current_count = count_where (λ p. p.stop_id == s.id && is_current p.status) rows;
  pending_count = count_where (λ p. p.stop_id == s.id && is_waiting p.status) rows;
}

unfoldable pub get_all_progress : (trip_id admin_id : ℕ) → Method (List StopCounts)
get_all_progress trip_id admin_id = do
  found ← gets λ (db : Db). find_first (trip_with_id trip_id) db.trips
  trip ← or_throw found trip_not_found
  throw_if (not (trip.creator_id == admin_id)) not_trip_admin
  gets λ (db : Db). map (stop_counts db.progress) (stops_in_order trip_id db)

pub record CompleteStopDto : Type 0 where
  pub notes : Option String
  pub location : Option Point

-- `if (dto.notes)`
abbrev pub given_notes : Option String → Option String
given_notes none = none
given_notes (some s) = if str_eq s "" then none else some s

-- The raw UPDATE of the location.
abbrev pub locate_row : Point → UserStopProgress → UserStopProgress
locate_row point row = record row { completion_location = some point }

-- `save` of the loaded object `p`, edited: it writes the columns in which the object differs from
-- the row, the location too, which in the object is the one from before the raw UPDATE.
abbrev pub complete_row :
    ℕ → CompleteStopDto → UserStopProgress → UserStopProgress → UserStopProgress
complete_row now dto p row = record row {
  status = ProgressStatus.completed;
  completed_at = some now;
  completion_location = p.completion_location;
  notes = or_option (given_notes dto.notes) p.notes;
}

abbrev pub waiting_row : (stop_id user_id : ℕ) → UserStopProgress → Bool
waiting_row stop_id user_id p = progress_of stop_id user_id p && is_waiting p.status

-- The sub-select of the advance: the user's pending row of the first stop, by stop_order.
unfoldable pub next_pending : ℕ → List UserStopProgress → List TripStop → Option UserStopProgress
next_pending user_id rows [] = none
next_pending user_id rows (s ∷ ss) =
    or_option (find_first (waiting_row s.id user_id) rows) (next_pending user_id rows ss)

abbrev pub make_current : UserStopProgress → UserStopProgress
make_current p = record p { status = ProgressStatus.current }

abbrev pub save_progress : ℕ → (UserStopProgress → UserStopProgress) → Method (Unit {0})
save_progress id f =
    modify λ db. record db { progress = update_where (λ p. p.id == id) f db.progress }

-- `if (dto.location) …`
abbrev pub store_location : ℕ → Option Point → Method (Unit {0})
store_location id none = pure tt
store_location id (some point) = save_progress id (locate_row point)

abbrev pub advance : Option UserStopProgress → Method (Unit {0})
advance none = pure tt
advance (some p) = save_progress p.id make_current

unfoldable pub mark_complete :
    (now : ℕ) (new_ids : ℕ → ℕ) (trip_id user_id stop_id : ℕ)
    → CompleteStopDto
    → Method UserStopProgress
unfolding assert_member
mark_complete now new_ids trip_id user_id stop_id dto = do
  assert_member trip_id user_id
  stop ← gets λ (db : Db). find_first (λ s. s.id == stop_id && s.trip_id == trip_id) db.stops
  throw_if (not (is_some stop)) stop_not_found
  transaction do
    ensure_rows_exist new_ids trip_id user_id
    found ← gets λ (db : Db). find_first (progress_of stop_id user_id) db.progress
    p ← or_throw found progress_row_missing
    if is_completed p.status then pure p else do
      store_location p.id dto.location
      save_progress p.id (complete_row now dto p)
      next ← gets λ (db : Db). next_pending user_id db.progress (stops_in_order trip_id db)
      advance next
      pure (complete_row now dto p p)
