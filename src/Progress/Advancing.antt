-- ===== src/Progress/Advancing.antt =====
-- Which stop becomes current when another is completed: the sub-select of `markComplete` in
-- src/modules/trips/stop-progress.service.ts.
use myride_api.Common.{
  ℕ, ◌+◌, ◌≡◌, refl, ap, ◌∙◌, ◌⊎◌, Bool, true, false, not, ◌&&◌, ◌||◌, some, none, List, [], ◌∷◌,
  map, arith, ◌==◌, leb, is_some, if◌then◌else◌, inl, inr, ok, or_option, Option-cases, Bool-cases,
  All, All-implies, Distinct, find_first, find_all, update_where, IsSorted, sort_by-IsSorted,
  All-sort_by, find_all-holds,
}
use myride_api.Entities.{TripStop, UserStopProgress, ProgressStatus}
use myride_api.Store.{Db}
use myride_api.Progress.{
  CompleteStopDto, given_notes, is_completed, is_current, is_waiting, next_pending, mark_complete,
}
use myride_api.Progress.Seed.{
  progress_of, stop_of_trip, by_stop_order, stops_in_order, ensure_rows_exist,
}
use myride_api.Progress.Seeding.{All-stops_in_order}
use myride_api.Progress.Laws.{
  seeded, current_count, completed_db, mark_complete-advance, mark_complete-current_count,
}

-- The user's first pending row at a stop.
abbrev pub is_waiting_at : (stop_id user_id : ℕ) → UserStopProgress → Bool
is_waiting_at stop_id user_id r =
    (r.stop_id == stop_id && r.user_id == user_id) && is_waiting r.status

-- Whether a stop is of the trip and the user has a pending row at it.
abbrev pub is_open_stop : (trip_id user_id : ℕ) → List UserStopProgress → TripStop → Bool
is_open_stop trip_id user_id rows s =
    s.trip_id == trip_id && is_some (find_first (is_waiting_at s.id user_id) rows)

module _ (user_id : ℕ) (rows : List UserStopProgress) where
  next_pending-none :
      (stops : List TripStop)
      → next_pending user_id rows stops ≡ none
      → All (λ y. is_some (find_first (is_waiting_at y.id user_id) rows) ≡ false) stops
  unfolding next_pending
  next_pending-none [] e = tt
  next_pending-none (s ∷ ss) e =
      elim (Option-cases (find_first (is_waiting_at s.id user_id) rows)) [
        | inl none_here ↦ (rw none_here refl, next_pending-none ss (rw none_here at e))
        | inr (p, here) ↦ absurd (ground arith)
      ]

  -- It is the row of the first stop that has one.
  next_pending-first :
      (trip_id : ℕ) (stops : List TripStop) {n : UserStopProgress}
      → IsSorted by_stop_order stops
      → All (λ y. stop_of_trip trip_id y ≡ true) stops
      → next_pending user_id rows stops ≡ some n
      → (s : TripStop) × (stop_of_trip trip_id s ≡ true)
        × (find_first (is_waiting_at s.id user_id) rows ≡ some n)
        × All
            (λ y.
              (not (is_some (find_first (is_waiting_at y.id user_id) rows))
                || leb s.stop_order y.stop_order)
              ≡ true)
            stops
  unfolding next_pending
  next_pending-first trip_id [] sorted h e = cc
  next_pending-first trip_id (s ∷ ss) (before, sorted) (own, h) e =
      elim (Option-cases (find_first (is_waiting_at s.id user_id) rows)) [
        | inl none_here ↦
            let (t, of_trip, found, least) =
              next_pending-first trip_id ss sorted h (rw none_here at e) in
            (t, of_trip, found, (rw none_here refl, least))
        | inr (p, here) ↦ (
          s,
          own,
          ground arith,
          (
            ground arith,
            All-implies (λ y. by_stop_order s y ≡ true) _ ss (λ y le. ground arith) before,
          ),
        )
      ]

module _ (now : ℕ) (new_ids : ℕ → ℕ) (trip_id user_id stop_id : ℕ) (dto : CompleteStopDto) (db : Db)
    {p row : UserStopProgress}
    (found : find_first (progress_of stop_id user_id) (seeded new_ids trip_id user_id db).progress
      ≡ some p)
    (open_row : is_completed p.status ≡ false)
    (done : (mark_complete now new_ids trip_id user_id stop_id dto db).0 ≡ ok row) where
  -- The seeded rows, with the one that was found completed.
  abbrev pub completed_rows : List UserStopProgress
  completed_rows =
      update_where (λ (x : UserStopProgress). x.id == p.id)
        (λ x. record x {
          status = ProgressStatus.completed;
          completed_at = some now;
          completion_location = p.completion_location;
          notes = or_option (given_notes dto.notes) p.notes;
        })
        (seeded new_ids trip_id user_id db).progress

  stops_then :
      stops_in_order trip_id
        (completed_db now new_ids trip_id user_id stop_id dto db found open_row done)
      ≡ stops_in_order trip_id db
  unfolding ensure_rows_exist stops_in_order
  stops_then = refl

  stops_in_order-IsSorted : IsSorted by_stop_order (stops_in_order trip_id db)
  unfolding stops_in_order
  stops_in_order-IsSorted =
      sort_by-IsSorted by_stop_order (λ x y z a b. ground arith) (λ x y a. ground arith)
        (find_all (stop_of_trip trip_id) db.stops)

  own_stops : All (λ y. stop_of_trip trip_id y ≡ true) (stops_in_order trip_id db)
  unfolding stops_in_order
  own_stops =
      (All-sort_by (λ y. stop_of_trip trip_id y ≡ true) by_stop_order
          (find_all (stop_of_trip trip_id) db.stops)).1
        (find_all-holds (stop_of_trip trip_id) db.stops)

  -- Completing an open stop completes the user's row, and either the user has no pending row at a
  -- stop of the trip, and no other row changes, or the pending row at the first such stop, by
  -- stop_order, becomes current, and no other row changes. The user's current stops lose the
  -- completed one, if it was one, and gain the one that became current. The ids of the seeded rows
  -- must be distinct.
  pub mark_complete-advances :
      Distinct (map (λ x. x.id) (seeded new_ids trip_id user_id db).progress)
      → let before = (seeded new_ids trip_id user_id db).progress in
        let rows = (mark_complete now new_ids trip_id user_id stop_id dto db).1.progress in
        (All (λ y. is_open_stop trip_id user_id completed_rows y ≡ false) db.stops
          × (rows ≡ completed_rows)
          × (current_count user_id rows + (if is_current p.status then 1 else 0)
              ≡ current_count user_id before))
        ⊎ ((s : TripStop) × (n : UserStopProgress) × ((s.trip_id == trip_id) ≡ true)
            × (find_first (is_waiting_at s.id user_id) completed_rows ≡ some n)
            × All
                (λ y.
                  (not (is_open_stop trip_id user_id completed_rows y)
                    || leb s.stop_order y.stop_order)
                  ≡ true)
                db.stops
            × (rows
                ≡ update_where
                    (λ x. x.id == n.id)
                    (λ x. record x { status = ProgressStatus.current })
                    completed_rows)
            × (current_count user_id rows + (if is_current p.status then 1 else 0)
                ≡ current_count user_id before + 1))
  mark_complete-advances ids =
      let counted =
        mark_complete-current_count now new_ids trip_id user_id stop_id dto db found open_row done
          ids in
      let after =
        ap (λ (d : Db). d.progress)
          (mark_complete-advance now new_ids trip_id user_id stop_id dto db found open_row
            done).1 in
      let stops = stops_in_order trip_id db in
      elim (Option-cases (next_pending user_id completed_rows stops)) [
        | inl last ↦
            let here = ap (next_pending user_id completed_rows) stops_then ∙ last in
            inl (
              All-implies
                  (λ y.
                    stop_of_trip trip_id y ≡ true
                    → is_some (find_first (is_waiting_at y.id user_id) completed_rows) ≡ false)
                  (λ y. is_open_stop trip_id user_id completed_rows y ≡ false) db.stops
                  (λ y h. closed_stop y h)
                  (All-stops_in_order _ trip_id db
                    (next_pending-none user_id completed_rows stops last)),
              after ∙ rw here refl,
              ground (arith, counted, here),
            )
        | inr (n, more) ↦
            let here = ap (next_pending user_id completed_rows) stops_then ∙ more in
            let (s, of_trip, at, least) =
              next_pending-first user_id completed_rows trip_id stops stops_in_order-IsSorted
                own_stops more in
            inr (
              s,
              n,
              of_trip,
              at,
              All-implies
                  (λ y.
                    stop_of_trip trip_id y ≡ true
                    → (not (is_some (find_first (is_waiting_at y.id user_id) completed_rows))
                        || leb s.stop_order y.stop_order)
                      ≡ true)
                  (λ y.
                    (not (is_open_stop trip_id user_id completed_rows y)
                      || leb s.stop_order y.stop_order)
                    ≡ true)
                  db.stops (λ y h. later_stop s y h) (All-stops_in_order _ trip_id db least),
              after ∙ rw here refl,
              ground (arith, counted, here),
            )
      ]
    where
      closed_stop :
          (y : TripStop)
          → (stop_of_trip trip_id y ≡ true
              → is_some (find_first (is_waiting_at y.id user_id) completed_rows) ≡ false)
          → is_open_stop trip_id user_id completed_rows y ≡ false
      closed_stop y h = elim (Bool-cases (y.trip_id == trip_id)) [
        | inl own ↦ rw own (h own)
        | inr other ↦ rw other refl
      ]

      later_stop :
          (s y : TripStop)
          → (stop_of_trip trip_id y ≡ true
              → (not (is_some (find_first (is_waiting_at y.id user_id) completed_rows))
                  || leb s.stop_order y.stop_order)
                ≡ true)
          → (not (is_open_stop trip_id user_id completed_rows y) || leb s.stop_order y.stop_order)
            ≡ true
      later_stop s y h = elim (Bool-cases (y.trip_id == trip_id)) [
        | inl own ↦ rw own (h own)
        | inr other ↦ rw other refl
      ]
