-- ===== src/Trips/Listing/Readable.antt =====
-- The trips that `list` of src/modules/trips/trips.service.ts shows, and `findOne`.
use myride_api.Common.{
  All-both, ℕ, suc, [], ◌∷◌, ◌≡◌, refl, ap, true, false, Option, some, map, length, arith, inl, inr,
  Bool-cases, ◌≤◌, take, drop, min, length-take, List, Option-cases, is_ok, ok, find_first,
  find_first-holds, find_all, sort_by, All, All-sort_by, All-of_find_all, Distinct, All-found,
  find_all-holds, find_first-some, is_some, or_else,
}
use myride_api.Entities.{Trip, TripParticipant}
use myride_api.Store.{Db, trip_with_id, approved_row}
use myride_api.Trips.Editing.{find_one, reader_row}
use myride_api.Trips.Listing.{
  Scope, mine, joined, all, ListTripsDto, ListedTrip, Page, in_scope, is_listed, has_joined,
  newest_first, page_of, list, with_stops,
}
use myride_api.Trips.Listing.Joinable.{All-page}

-- An approved row lets its user read the trip.
reads :
    (trip_id user_id : ℕ) (ps : List TripParticipant)
    → is_some (find_first (approved_row trip_id user_id) ps) ≡ true
    → is_some (find_first (reader_row trip_id user_id) ps) ≡ true
reads trip_id user_id ps h = elim (Option-cases (find_first (approved_row trip_id user_id) ps)) [
  | inl nothing ↦ absurd (ground (arith, nothing))
  | inr (p, found) ↦
      let held = find_first-holds (approved_row trip_id user_id) ps found in
      let (x, there) =
        find_first-some (approved_row trip_id user_id) (reader_row trip_id user_id) ps found
          (ground (arith, held)) in
      rw there refl
]

length-map : {A B : Type 0} (f : A → B) (xs : List A) → length (map f xs) ≡ length xs
length-map f [] = refl
length-map f (x ∷ xs) = ap (λ n. suc n) (length-map f xs)

length-page :
    (db : Db) (limit offset : Option ℕ) (ts : List Trip)
    → length (page_of limit offset db ts).items ≤ 100
length-page db limit offset ts = omega (
  arith,
  length-map (with_stops db) (take (min (or_else limit 20) 100) (drop (or_else offset 0) ts)),
  length-take (min (or_else limit 20) 100) (drop (or_else offset 0) ts),
)

module _ (user_id : ℕ) (db : Db) (dto : ListTripsDto) where
  find_one-shown :
      (scope : Scope) (t : Trip)
      → find_first (trip_with_id t.id) db.trips ≡ some t
      → in_scope scope user_id db t ≡ true
      → is_ok (find_one t.id user_id db).0 ≡ true
  unfolding find_one
  find_one-shown mine t there shown = ground arith
  find_one-shown joined t there shown =
      let reader = reads t.id user_id db.participants shown in ground (arith, reader)
  find_one-shown all t there shown = elim (Bool-cases (has_joined user_id db t)) [
    | inl row ↦ let reader = reads t.id user_id db.participants row in ground (arith, reader)
    | inr no_row ↦ ground (arith, no_row)
  ]

  is_listed-in_scope :
      (t : Trip)
      → is_listed user_id dto db t ≡ true
      → in_scope (or_else dto.scope mine) user_id db t ≡ true
  is_listed-in_scope t shown = elim (Bool-cases (in_scope (or_else dto.scope mine) user_id db t)) [
    | inl shows ↦ shows
    | inr out ↦ absurd (hidden out)
  ]
    where
      hidden : in_scope (or_else dto.scope mine) user_id db t ≡ false → ⊥
      hidden out =
          let off : is_listed user_id dto db t ≡ false = rw out refl in ground (arith, off, shown)

  -- Whatever the scope and the filters, each trip that is listed is one that the user may read:
  -- findOne answers it. A page has at most 100 of them. The trips' ids must be distinct.
  pub list-find_one :
      Distinct (map (λ (t : Trip). t.id) db.trips)
      → (page : Page) × ((list user_id dto db).0 ≡ ok page)
        × All (λ (i : ListedTrip). is_ok (find_one i.trip.id user_id db).0 ≡ true) page.items
        × (length page.items ≤ 100)
  unfolding list
  list-find_one distinct =
      let shown = find_all (is_listed user_id dto db) db.trips in
      let good = λ (t : Trip). is_ok (find_one t.id user_id db).0 ≡ true in
      let each : All good shown =
        All-both (λ (t : Trip). find_first (trip_with_id t.id) db.trips ≡ some t)
          (λ t. is_listed user_id dto db t ≡ true) good shown
          (λ t a b. find_one-shown (or_else dto.scope mine) t a (is_listed-in_scope t b))
          (All-of_find_all _ (is_listed user_id dto db) db.trips
            (All-found (λ (t : Trip). t.id) db.trips distinct))
          (find_all-holds (is_listed user_id dto db) db.trips) in
      (
        page_of dto.limit dto.offset db (sort_by newest_first shown),
        refl,
        All-page db good dto.limit dto.offset (sort_by newest_first shown)
            ((All-sort_by good newest_first shown).1 each),
        length-page db dto.limit dto.offset (sort_by newest_first shown),
      )
