-- ===== src/Progress/Seeding.antt =====
-- The seeding of progress rows: `ensureRowsExist` of src/modules/trips/stop-progress.service.ts.

use myride_api.Common.{
  or_option, ℕ, ◌+◌, ◌≡◌, refl, ap, true, some, List, [], ◌∷◌, map, arith, is_some, inl, inr,
  Option-cases, All, Distinct, Distinct-insert, find_first, find_all, find_first-append, sort_by,
  All-sort_by, All-find_all,
}
use myride_api.Entities.{TripStop, UserStopProgress}
use myride_api.Store.{Db}
use myride_api.Progress.Seed.{
  progress_of, stop_of_trip, by_stop_order, stops_in_order, seed_row, insert_or_ignore, seed_rows,
  ensure_rows_exist,
}

-- The columns of the unique constraint on user_stop_progress.
abbrev pub progress_key : UserStopProgress → ℕ × ℕ
progress_key p = (p.stop_id, p.user_id)

insert_or_ignore-keeps :
    (r p : UserStopProgress) (stop_id user_id : ℕ) (rows : List UserStopProgress)
    → find_first (progress_of stop_id user_id) rows ≡ some p
    → find_first (progress_of stop_id user_id) (insert_or_ignore r rows) ≡ some p
unfolding insert_or_ignore
insert_or_ignore-keeps r p stop_id user_id rows e =
    ground (arith, find_first-append (progress_of stop_id user_id) rows r)

insert_or_ignore-finds :
    (r : UserStopProgress) (rows : List UserStopProgress)
    → is_some (find_first (progress_of r.stop_id r.user_id) (insert_or_ignore r rows)) ≡ true
unfolding insert_or_ignore
insert_or_ignore-finds r rows =
    ground (arith, find_first-append (progress_of r.stop_id r.user_id) rows r)

insert_or_ignore-Distinct :
    (r : UserStopProgress) (rows : List UserStopProgress)
    → Distinct (map progress_key rows)
    → Distinct (map progress_key (insert_or_ignore r rows))
unfolding insert_or_ignore
insert_or_ignore-Distinct r rows h =
    elim (Option-cases (find_first (progress_of r.stop_id r.user_id) rows)) [
      | inl single ↦ rw single (
          Distinct-insert progress_key (progress_of r.stop_id r.user_id) rows r
            (λ x e. ground arith) single h)
      | inr (old, found) ↦ rw found h
    ]

module _ (new_ids : ℕ → ℕ) (user_id : ℕ) where
  pub seed_rows-keeps :
      (idx : ℕ) (stops : List TripStop) (stop_id other : ℕ) (rows : List UserStopProgress)
      (p : UserStopProgress)
      → find_first (progress_of stop_id other) rows ≡ some p
      → find_first (progress_of stop_id other) (seed_rows new_ids user_id idx stops rows) ≡ some p
  unfolding seed_rows
  seed_rows-keeps idx [] stop_id other rows p e = e
  seed_rows-keeps idx (s ∷ ss) stop_id other rows p e =
      seed_rows-keeps (idx + 1) ss stop_id other _ p
        (insert_or_ignore-keeps (seed_row (new_ids idx) user_id idx s) p stop_id other rows e)

  pub seed_rows-Distinct :
      (idx : ℕ) (stops : List TripStop) (rows : List UserStopProgress)
      → Distinct (map progress_key rows)
      → Distinct (map progress_key (seed_rows new_ids user_id idx stops rows))
  unfolding seed_rows
  seed_rows-Distinct idx [] rows h = h
  seed_rows-Distinct idx (s ∷ ss) rows h =
      seed_rows-Distinct (idx + 1) ss _
        (insert_or_ignore-Distinct (seed_row (new_ids idx) user_id idx s) rows h)

  seed_rows-keeps_some :
      (idx : ℕ) (stops : List TripStop) (stop_id : ℕ) (rows : List UserStopProgress)
      → is_some (find_first (progress_of stop_id user_id) rows) ≡ true
      → is_some
          (find_first (progress_of stop_id user_id) (seed_rows new_ids user_id idx stops rows))
        ≡ true
  seed_rows-keeps_some idx stops stop_id rows e =
      elim (Option-cases (find_first (progress_of stop_id user_id) rows)) [
        | inl missing ↦ absurd (ground arith)
        | inr (p, found) ↦ rw (seed_rows-keeps idx stops stop_id user_id rows p found)
      ]

  -- After seeding every listed stop has a row.
  pub seed_rows-covers :
      (idx : ℕ) (stops : List TripStop) (rows : List UserStopProgress)
      → All
          (λ s.
            is_some
              (find_first (progress_of s.id user_id) (seed_rows new_ids user_id idx stops rows))
            ≡ true)
          stops
  unfolding seed_rows
  seed_rows-covers idx [] rows = tt
  seed_rows-covers idx (s ∷ ss) rows = (
    seed_rows-keeps_some (idx + 1) ss s.id _
        (insert_or_ignore-finds (seed_row (new_ids idx) user_id idx s) rows),
    seed_rows-covers (idx + 1) ss _,
  )

-- What holds of every row of an ordered query holds of every row of the table that passes it.
pub All-stops_in_order :
    (P : TripStop → Type 0) (trip_id : ℕ) (db : Db)
    → All P (stops_in_order trip_id db)
    → All (λ s. stop_of_trip trip_id s ≡ true → P s) db.stops
unfolding stops_in_order
All-stops_in_order P trip_id db h =
    All-find_all P (stop_of_trip trip_id) db.stops
      ((All-sort_by P by_stop_order (find_all (stop_of_trip trip_id) db.stops)).0 h)

-- Seeding a user's progress changes no row that is there (what is found for a stop and a user after
-- it is what was found before, if anything was), gives every stop of the trip that the query lists a
-- row of the user's, and keeps one row to a stop and user if there was one.
pub ensure_rows_exist-seeds :
    (new_ids : ℕ → ℕ) (trip_id user_id : ℕ) (db : Db) (stop_id other : ℕ)
    → Distinct (map progress_key db.progress)
    → let rows = (ensure_rows_exist new_ids trip_id user_id db).1.progress in
      (find_first (progress_of stop_id other) rows
        ≡ or_option
            (find_first (progress_of stop_id other) db.progress)
            (find_first (progress_of stop_id other) rows))
      × All
          (λ s. is_some (find_first (progress_of s.id user_id) rows) ≡ true)
          (stops_in_order trip_id db)
      × Distinct (map progress_key rows)
unfolding ensure_rows_exist
ensure_rows_exist-seeds new_ids trip_id user_id db stop_id other h =
    let stops = stops_in_order trip_id db in
    (
      elim (Option-cases (find_first (progress_of stop_id other) db.progress)) [
        | inl new ↦ rw new refl
        | inr (p, at) ↦
            rw (at, seed_rows-keeps new_ids user_id 0 stops stop_id other db.progress p at) refl
      ],
      seed_rows-covers new_ids user_id 0 stops db.progress,
      seed_rows-Distinct new_ids user_id 0 stops db.progress h,
    )

seed_rows-covered :
    (new_ids : ℕ → ℕ) (user_id idx : ℕ) (stops : List TripStop) (rows : List UserStopProgress)
    → All (λ s. is_some (find_first (progress_of s.id user_id) rows) ≡ true) stops
    → seed_rows new_ids user_id idx stops rows ≡ rows
unfolding seed_rows insert_or_ignore
seed_rows-covered new_ids user_id idx [] rows h = refl
seed_rows-covered new_ids user_id idx (s ∷ ss) rows (p, h) =
    rw p (seed_rows-covered new_ids user_id (idx + 1) ss rows h)

-- Seeding is idempotent: a second call, with any ids, changes nothing.
pub ensure_rows_exist_idempotent :
    (ids again : ℕ → ℕ) (trip_id user_id : ℕ) (db : Db)
    → let db' = (ensure_rows_exist ids trip_id user_id db).1 in
      (ensure_rows_exist again trip_id user_id db').1 ≡ db'
unfolding ensure_rows_exist stops_in_order
ensure_rows_exist_idempotent ids again trip_id user_id db =
    let stops = sort_by by_stop_order (find_all (stop_of_trip trip_id) db.stops) in
    ap (λ rows. record db { progress = rows })
      (seed_rows-covered again user_id 0 stops _ (seed_rows-covers ids user_id 0 stops db.progress))
