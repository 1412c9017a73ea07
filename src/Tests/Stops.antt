-- ===== src/Tests/Stops.antt =====
-- Progress through the stops of the small store's trip.
use myride_api.Common.{
  ℕ, ◌+◌, ◌≡◌, refl, true, false, some, none, Option, map, find_first, Result, ok, err, or_option,
  is_some, All, ◌⊎◌, not, ◌||◌, ◌==◌, leb, Distinct, if◌then◌else◌, update_where, sort_by,
  insert_by, find_all,
}
use myride_api.Entities.{TripStop, UserStopProgress, ProgressStatus}
use myride_api.Store.{Error}
use myride_api.Progress.{
  mark_complete, CompleteStopDto, assert_member, is_current, is_completed, next_pending,
}
use myride_api.Progress.Seed.{
  ensure_rows_exist, stops_in_order, progress_of, seed_rows, insert_or_ignore,
}
use myride_api.Progress.Seeding.{progress_key, ensure_rows_exist-seeds}
use myride_api.Progress.Laws.{seeded, current_count}
use myride_api.Progress.Advancing.{
  is_waiting_at, is_open_stop, completed_rows, mark_complete-advances,
}
use myride_api.Tests.{db, no_repeats-Distinct}

abbrev ids : ℕ → ℕ
ids n = n + 100

abbrev note : CompleteStopDto
note = record { notes = some "done"; location = none }

ensure_rows_exist-seeds_example :
    let rows = (ensure_rows_exist ids 1 8 db).1.progress in
    (find_first (progress_of 11 8) rows
      ≡ or_option (find_first (progress_of 11 8) db.progress) (find_first (progress_of 11 8) rows))
    × All (λ s. is_some (find_first (progress_of s.id 8) rows) ≡ true) (stops_in_order 1 db)
    × Distinct (map progress_key rows)
ensure_rows_exist-seeds_example = ensure_rows_exist-seeds ids 1 8 db 11 8 tt

-- The row that the seeding gives user 8 for a stop of the trip.
abbrev seeded_row : (id stop_id : ℕ) → ProgressStatus → UserStopProgress
seeded_row id stop_id status = record {
  id = id;
  stop_id = stop_id;
  user_id = 8;
  status = status;
  completed_at = none;
  completion_location = none;
  notes = none;
}

abbrev row_of : Option UserStopProgress → UserStopProgress
row_of none = seeded_row 0 0 ProgressStatus.pending
row_of (some p) = p

-- The row at stop 12, which is pending while stop 11 is current.
abbrev second : UserStopProgress
second = row_of (find_first (progress_of 12 8) (seeded ids 1 8 db).progress)

second_found : find_first (progress_of 12 8) (seeded ids 1 8 db).progress ≡ some second
unfolding ensure_rows_exist seed_rows insert_or_ignore stops_in_order sort_by insert_by find_all
    find_first
second_found = refl

second_open : is_completed second.status ≡ false
unfolding ensure_rows_exist seed_rows insert_or_ignore stops_in_order sort_by insert_by find_all
    find_first
second_open = refl

abbrev row_or : Result Error UserStopProgress → UserStopProgress
row_or (ok p) = p
row_or (err e) = second

second_done :
    (mark_complete 5 ids 1 8 12 note db).0 ≡ ok (row_or (mark_complete 5 ids 1 8 12 note db).0)
unfolding mark_complete assert_member ensure_rows_exist seed_rows insert_or_ignore stops_in_order
    sort_by insert_by find_all find_first update_where next_pending
second_done = refl

seeded_ids : Distinct (map (λ x. x.id) (seeded ids 1 8 db).progress)
unfolding ensure_rows_exist seed_rows insert_or_ignore stops_in_order sort_by insert_by find_all
    find_first
seeded_ids = no_repeats-Distinct (map (λ x. x.id) (seeded ids 1 8 db).progress) refl

mark_complete-advances_example :
    let before = (seeded ids 1 8 db).progress in
    let completed = completed_rows 5 ids 1 8 12 note db second_found second_open second_done in
    let rows = (mark_complete 5 ids 1 8 12 note db).1.progress in
    (All (λ y. is_open_stop 1 8 completed y ≡ false) db.stops
      × (rows ≡ completed)
      × (current_count 8 rows + (if is_current second.status then 1 else 0)
          ≡ current_count 8 before))
    ⊎ ((s : TripStop) × (n : UserStopProgress) × ((s.trip_id == 1) ≡ true)
        × (find_first (is_waiting_at s.id 8) completed ≡ some n)
        × All
            (λ y. (not (is_open_stop 1 8 completed y) || leb s.stop_order y.stop_order) ≡ true)
            db.stops
        × (rows
            ≡ update_where
                (λ x. x.id == n.id)
                (λ x. record x { status = ProgressStatus.current })
                completed)
        × (current_count 8 rows + (if is_current second.status then 1 else 0)
            ≡ current_count 8 before + 1))
mark_complete-advances_example =
    mark_complete-advances 5 ids 1 8 12 note db second_found second_open second_done seeded_ids
