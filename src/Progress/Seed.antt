-- ===== src/Progress/Seed.antt =====
-- `ensureRowsExist` of src/modules/trips/stop-progress.service.ts.
use myride_api.Common.{
  ℕ, ◌+◌, Bool, ◌&&◌, none, List, [], ◌∷◌, ◌++◌, leb, ◌==◌, is_some, if◌then◌else◌, find_first,
  find_all, modify, sort_by,
}
use myride_api.Entities.{TripStop, UserStopProgress, ProgressStatus}
use myride_api.Store.{Db, Method}

abbrev pub progress_of : (stop_id user_id : ℕ) → UserStopProgress → Bool
progress_of stop_id user_id p = p.stop_id == stop_id && p.user_id == user_id

abbrev pub stop_of_trip : ℕ → TripStop → Bool
stop_of_trip trip_id s = s.trip_id == trip_id

-- `ORDER BY stop_order ASC`
abbrev pub by_stop_order : TripStop → TripStop → Bool
by_stop_order a b = leb a.stop_order b.stop_order

unfoldable pub stops_in_order : ℕ → Db → List TripStop
stops_in_order trip_id db = sort_by by_stop_order (find_all (stop_of_trip trip_id) db.stops)

-- The row for the stop at position `idx`: the first stop is current, the others are pending.
abbrev pub seed_row : ℕ → ℕ → ℕ → TripStop → UserStopProgress
seed_row id user_id idx s = record {
  id = id;
  stop_id = s.id;
  user_id = user_id;
  status = if idx == 0 then ProgressStatus.current else ProgressStatus.pending;
  completed_at = none;
  completion_location = none;
  notes = none;
}

-- `INSERT … ON CONFLICT DO NOTHING` under the unique (stop_id, user_id).
unfoldable pub insert_or_ignore : UserStopProgress → List UserStopProgress → List UserStopProgress
insert_or_ignore r rows =
    if is_some (find_first (progress_of r.stop_id r.user_id) rows) then rows else rows ++ r ∷ []

unfoldable pub seed_rows :
    (new_ids : ℕ → ℕ) (user_id idx : ℕ)
    → List TripStop
    → List UserStopProgress
    → List UserStopProgress
seed_rows new_ids user_id idx [] rows = rows
seed_rows new_ids user_id idx (s ∷ ss) rows =
    seed_rows new_ids user_id (idx + 1) ss
      (insert_or_ignore (seed_row (new_ids idx) user_id idx s) rows)

unfoldable pub ensure_rows_exist : (new_ids : ℕ → ℕ) (trip_id user_id : ℕ) → Method (Unit {0})
ensure_rows_exist new_ids trip_id user_id = modify λ db. record db {
  progress = seed_rows new_ids user_id 0 (stops_in_order trip_id db) db.progress;
}
