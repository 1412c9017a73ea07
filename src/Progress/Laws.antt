-- ===== src/Progress/Laws.antt =====
-- What completing a stop does, and what the two views of progress show.

use myride_api.Common.{
  ℕ, ◌+◌, ◌≤◌, ◌≡◌, ◌≢◌, refl, ap, Bool, true, false, ◌&&◌, some, List, [], ◌∷◌, map, arith, ◌==◌,
  is_some, if◌then◌else◌, inl, inr, ok, err, Option-cases, All, Distinct, find_first, find_all,
  sort_by, count_where, update_where, All-find_first, subst, find_first-holds,
  count_where-update_where, map-update_where, Bool-cases,
}
use myride_api.Entities.{TripStop, UserStopProgress, Point}
use myride_api.Store.{Db, progress_row_missing}
use myride_api.Progress.{
  CompleteStopDto, complete_row, is_completed, is_current, is_waiting, waiting_row, next_pending,
  make_current, advance, mark_complete, get_my_progress, progress_rows, StopProgress, locate_row,
}
use myride_api.Progress.Seed.{
  progress_of, stop_of_trip, by_stop_order, stops_in_order, ensure_rows_exist,
}
use myride_api.Progress.Seeding.{seed_rows-covers, seed_rows-keeps, All-stops_in_order}

-- The store after the seeding with which every completion begins.
abbrev pub seeded : (ℕ → ℕ) → ℕ → ℕ → Db → Db
seeded new_ids trip_id user_id db = (ensure_rows_exist new_ids trip_id user_id db).1

abbrev pub requested_stop : (stop_id trip_id : ℕ) → TripStop → Bool
requested_stop stop_id trip_id s = s.id == stop_id && s.trip_id == trip_id

seeded-finds :
    (new_ids : ℕ → ℕ) (trip_id user_id stop_id : ℕ) (db : Db) {s : TripStop}
    → find_first (requested_stop stop_id trip_id) db.stops ≡ some s
    → is_some
        (find_first (progress_of stop_id user_id) (seeded new_ids trip_id user_id db).progress)
      ≡ true
unfolding ensure_rows_exist
seeded-finds new_ids trip_id user_id stop_id db {s} e =
    let rows = (seeded new_ids trip_id user_id db).progress in
    let covered =
      All-stops_in_order (λ x. is_some (find_first (progress_of x.id user_id) rows) ≡ true) trip_id
        db (seed_rows-covers new_ids user_id 0 (stops_in_order trip_id db) db.progress) in
    let held : requested_stop stop_id trip_id s ≡ true =
      find_first-holds (requested_stop stop_id trip_id) db.stops e in
    let same : s.id ≡ stop_id = ground arith in
    subst (λ n. is_some (find_first (progress_of n user_id) rows) ≡ true) same
      (All-find_first _ (requested_stop stop_id trip_id) db.stops covered e (ground arith))

-- The defensive exception of markComplete is never thrown: after the seeding the row is there.
pub mark_complete-ne-progress_row_missing :
    (now : ℕ) (new_ids : ℕ → ℕ) (trip_id user_id stop_id : ℕ) (dto : CompleteStopDto) (db : Db)
    → (mark_complete now new_ids trip_id user_id stop_id dto db).0 ≢ err progress_row_missing
unfolding mark_complete ensure_rows_exist
mark_complete-ne-progress_row_missing now new_ids trip_id user_id stop_id dto db =
    elim (Option-cases (find_first (requested_stop stop_id trip_id) db.stops)) [
      | inl missing ↦ ground arith
      | inr (s, there) ↦ ground (arith, seeded-finds new_ids trip_id user_id stop_id db there)
    ]

module _ (user_id : ℕ) (rows : List UserStopProgress) where
  next_pending-finds :
      (stops : List TripStop) {n : UserStopProgress}
      → next_pending user_id rows stops ≡ some n
      → (s : TripStop) × (find_first (waiting_row s.id user_id) rows ≡ some n)
  unfolding next_pending
  next_pending-finds [] e = cc
  next_pending-finds (s ∷ ss) e = elim (Option-cases (find_first (waiting_row s.id user_id) rows)) [
    | inl later ↦ next_pending-finds ss (rw later at e)
    | inr (p, here) ↦ (s, ground arith)
  ]

-- How many stops a user's rows show as current.
abbrev pub is_current_of : ℕ → UserStopProgress → Bool
is_current_of user_id p = p.user_id == user_id && is_current p.status

abbrev pub current_count : ℕ → List UserStopProgress → ℕ
current_count user_id rows = count_where (is_current_of user_id) rows

advance-current_count :
    (user_id : ℕ) (db : Db) (stops : List TripStop)
    → Distinct (map (λ p. p.id) db.progress)
    → current_count user_id (advance (next_pending user_id db.progress stops) db).1.progress
      ≡ current_count user_id db.progress
        + (if is_some (next_pending user_id db.progress stops) then 1 else 0)
advance-current_count user_id db stops ids =
    elim (Option-cases (next_pending user_id db.progress stops)) [
      | inl last ↦ rw last (omega arith)
      | inr (n, more) ↦
          let (s, found) = next_pending-finds user_id db.progress stops more in
          let held : waiting_row s.id user_id n ≡ true =
            find_first-holds (waiting_row s.id user_id) db.progress found in
          rw more (
            ground (
              arith,
              count_where-update_where (λ p. p.id) (is_current_of user_id)
                  (waiting_row s.id user_id) make_current db.progress ids found,
            ))
    ]

-- The location that the raw UPDATE stored is gone after the save.
located-completed :
    (now : ℕ) (dto : CompleteStopDto) (p : UserStopProgress) (point : Point)
    (rows : List UserStopProgress)
    → update_where
        (λ x. x.id == p.id)
        (complete_row now dto p)
        (update_where (λ x. x.id == p.id) (locate_row point) rows)
      ≡ update_where (λ x. x.id == p.id) (complete_row now dto p) rows
unfolding update_where
located-completed now dto p point [] = refl
located-completed now dto p point (x ∷ xs) = elim (Bool-cases (x.id == p.id)) [
  | inl hit ↦ rw (hit, located-completed now dto p point xs) (rw hit refl)
  | inr miss ↦ rw (miss, located-completed now dto p point xs) (rw miss refl)
]

module _ (now : ℕ) (new_ids : ℕ → ℕ) (trip_id user_id stop_id : ℕ) (dto : CompleteStopDto) (db : Db)
    {p row : UserStopProgress}
    (found : find_first (progress_of stop_id user_id) (seeded new_ids trip_id user_id db).progress
      ≡ some p)
    (open_row : is_completed p.status ≡ false)
    (done : (mark_complete now new_ids trip_id user_id stop_id dto db).0 ≡ ok row) where
  -- The store once the row is completed, before the advance.
  abbrev pub completed_db : Db
  completed_db =
      let db1 = seeded new_ids trip_id user_id db in
      record db1 {
        progress = update_where (λ x. x.id == p.id) (complete_row now dto p) db1.progress;
      }

  pub mark_complete-advance :
      (row ≡ complete_row now dto p p)
      × ((mark_complete now new_ids trip_id user_id stop_id dto db).1
          ≡ (advance
              (next_pending user_id completed_db.progress (stops_in_order trip_id completed_db))
              completed_db).1)
  unfolding mark_complete
  mark_complete-advance = elim (Option-cases dto.location) [
    | inl nowhere ↦ ground arith
    | inr (point, here) ↦
        let over = located-completed now dto p point (seeded new_ids trip_id user_id db).progress in
        ground (arith, here, over)
  ]

  -- Completing an open stop takes that row off the user's current stops if it was one, and adds the
  -- next pending stop if there is one; the ids of the seeded rows must be distinct.
  pub mark_complete-current_count :
      Distinct (map (λ x. x.id) (seeded new_ids trip_id user_id db).progress)
      → current_count user_id (mark_complete now new_ids trip_id user_id stop_id dto db).1.progress
          + (if is_current p.status then 1 else 0)
        ≡ current_count user_id (seeded new_ids trip_id user_id db).progress
          + (if is_some
                (next_pending user_id completed_db.progress (stops_in_order trip_id completed_db))
              then 1
              else 0)
  mark_complete-current_count ids =
      let rows = (seeded new_ids trip_id user_id db).progress in
      let held : progress_of stop_id user_id p ≡ true =
        find_first-holds (progress_of stop_id user_id) rows found in
      let kept : Distinct (map (λ x. x.id) completed_db.progress) =
        rw
          (map-update_where (λ x. x.id) (λ x. x.id == p.id) (complete_row now dto p) rows
            (λ x. refl))
          ids in
      ground (
        arith,
        ap (λ (d : Db). current_count user_id d.progress) mark_complete-advance.1,
        count_where-update_where (λ x. x.id) (is_current_of user_id) (progress_of stop_id user_id)
            (complete_row now dto p) rows ids found,
        advance-current_count user_id completed_db (stops_in_order trip_id completed_db) kept,
      )

  -- Completing a pending stop while another one is current leaves at least two current stops, if a
  -- further stop is pending.
  pub mark_complete-two_current :
      Distinct (map (λ x. x.id) (seeded new_ids trip_id user_id db).progress)
      → is_waiting p.status ≡ true
      → 1 ≤ current_count user_id (seeded new_ids trip_id user_id db).progress
      → is_some (next_pending user_id completed_db.progress (stops_in_order trip_id completed_db))
        ≡ true
      → 2
        ≤ current_count user_id
            (mark_complete now new_ids trip_id user_id stop_id dto db).1.progress
  mark_complete-two_current ids waits some_current more =
      ground (arith, mark_complete-current_count ids)

-- Completing a stop that is already completed changes nothing but the seeding, and gives the row
-- back as it is.
pub mark_complete-completed :
    (now : ℕ) (new_ids : ℕ → ℕ) (trip_id user_id stop_id : ℕ) (dto : CompleteStopDto) (db : Db)
    {p row : UserStopProgress}
    → find_first (progress_of stop_id user_id) db.progress ≡ some p
    → is_completed p.status ≡ true
    → (mark_complete now new_ids trip_id user_id stop_id dto db).0 ≡ ok row
    → mark_complete now new_ids trip_id user_id stop_id dto db
      ≡ (ok p, seeded new_ids trip_id user_id db)
unfolding mark_complete ensure_rows_exist
mark_complete-completed now new_ids trip_id user_id stop_id dto db {p} found completed done =
    ground (
      arith,
      seed_rows-keeps new_ids user_id 0 (stops_in_order trip_id db) stop_id user_id db.progress p
          found,
    )

progress_rows-stop_id :
    (user_id : ℕ) (rows : List UserStopProgress) (stops : List TripStop)
    → All (λ s. is_some (find_first (progress_of s.id user_id) rows) ≡ true) stops
    → map (λ r. r.stop_id) (progress_rows user_id rows stops) ≡ map (λ s. s.id) stops
unfolding progress_rows
progress_rows-stop_id user_id rows [] h = refl
progress_rows-stop_id user_id rows (s ∷ ss) (p, h) =
    elim (Option-cases (find_first (progress_of s.id user_id) rows)) [
      | inl missing ↦ absurd (ground arith)
      | inr (r, found) ↦
          let held : progress_of s.id user_id r ≡ true =
            find_first-holds (progress_of s.id user_id) rows found in
          ground (arith, progress_rows-stop_id user_id rows ss h)
    ]

-- A member's own view shows every stop of the trip exactly once, in the order of the stops.
pub get_my_progress-stops_in_order :
    (new_ids : ℕ → ℕ) (trip_id user_id : ℕ) (db : Db) {shown : List StopProgress}
    → (get_my_progress new_ids trip_id user_id db).0 ≡ ok shown
    → map (λ r. r.stop_id) shown ≡ map (λ s. s.id) (stops_in_order trip_id db)
unfolding get_my_progress stops_in_order
get_my_progress-stops_in_order new_ids trip_id user_id db e =
    let stops = sort_by by_stop_order (find_all (stop_of_trip trip_id) db.stops) in
    ground (
      arith,
      progress_rows-stop_id user_id _ stops (seed_rows-covers new_ids user_id 0 stops db.progress),
    )
