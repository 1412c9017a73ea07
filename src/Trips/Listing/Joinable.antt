-- ===== src/Trips/Listing/Joinable.antt =====
-- The trips that `discover` of src/modules/trips/trips.service.ts shows, and `requestJoin`.
use myride_api.Common.{
  All-both, ℕ, ◌≡◌, refl, Bool, true, false, ◌&&◌, ◌||◌, Option, some, List, [], ◌∷◌, map, take,
  drop, min, arith, inl, inr, Bool-cases, Option-cases, is_ok, ok, find_first, find_first-holds,
  find_all, sort_by, All, All-take, All-drop, All-sort_by, All-of_find_all, Distinct, All-found,
  find_all-holds, find_first-some, is_some, or_else,
}
use myride_api.Entities.{Trip, TripParticipant, is_approved, is_pending, is_rejected, has_left}
use myride_api.Store.{Db, trip_with_id, participant_of}
use myride_api.Trips.Membership.{request_join}
use myride_api.Trips.Listing.{
  Geography, DiscoverTripsDto, ListedTrip, Page, is_discovered, has_open_row, discovery_order,
  with_stops, page_of, discover,
}

abbrev open_row : (trip_id user_id : ℕ) → TripParticipant → Bool
open_row trip_id user_id p =
    participant_of trip_id user_id p && (is_pending p.status || is_approved p.status)

-- The row that is found is closed, where no open one is.
closed :
    (trip_id user_id : ℕ) (ps : List TripParticipant) (p : TripParticipant)
    → find_first (participant_of trip_id user_id) ps ≡ some p
    → is_some (find_first (open_row trip_id user_id) ps) ≡ false
    → (is_rejected p.status || has_left p.status) ≡ true
closed trip_id user_id ps p found none_open =
    elim (Bool-cases (is_pending p.status || is_approved p.status)) [
      | inl waits ↦
          let own = find_first-holds (participant_of trip_id user_id) ps found in
          let (x, there) =
            find_first-some (participant_of trip_id user_id) (open_row trip_id user_id) ps found
              (rw (own, waits) refl) in
          absurd (ground (arith, there))
      | inr shut ↦ ground arith
    ]

All-listed :
    (db : Db) (P : Trip → Type 0) (ts : List Trip)
    → All P ts
    → All (λ (i : ListedTrip). P i.trip) (map (with_stops db) ts)
All-listed db P [] h = tt
All-listed db P (t ∷ ts) (p, h) = (p, All-listed db P ts h)

-- A page, and what is known of all rows that it is cut from.
pub All-page :
    (db : Db) (P : Trip → Type 0) (limit offset : Option ℕ) (ts : List Trip)
    → All P ts
    → All (λ (i : ListedTrip). P i.trip) (page_of limit offset db ts).items
All-page db P limit offset ts h =
    All-listed db P (take (min (or_else limit 20) 100) (drop (or_else offset 0) ts))
      (All-take P _ _ (All-drop P _ _ h))

module _ (now new_id user_id : ℕ) (db : Db) (geo : Geography) (dto : DiscoverTripsDto) where
  no_open_row :
      (t : Trip) → is_discovered geo user_id dto db t ≡ true → has_open_row user_id db t ≡ false
  no_open_row t shown = elim (Bool-cases (has_open_row user_id db t)) [
    | inl waits ↦ absurd (ground (arith, waits))
    | inr none_open ↦ none_open
  ]

  request_join-accepted :
      (t : Trip)
      → find_first (trip_with_id t.id) db.trips ≡ some t
      → is_discovered geo user_id dto db t ≡ true
      → is_ok (request_join now new_id t.id user_id db).0 ≡ true
  unfolding request_join
  request_join-accepted t there shown =
      elim (Option-cases (find_first (participant_of t.id user_id) db.participants)) [
        | inl single ↦ ground arith
        | inr (p, found) ↦
            let shut = closed t.id user_id db.participants p found (no_open_row t shown) in
            ground (arith, shut)
      ]

  -- Every trip on a page of the discovery is one that the user can ask to join: at that moment a
  -- request for it succeeds. The trips' ids must be distinct.
  pub discover-request_join :
      Distinct (map (λ (t : Trip). t.id) db.trips)
      → (page : Page) × ((discover geo user_id dto db).0 ≡ ok page)
        × All
            (λ (i : ListedTrip). is_ok (request_join now new_id i.trip.id user_id db).0 ≡ true)
            page.items
  unfolding discover
  discover-request_join distinct =
      let shown = find_all (is_discovered geo user_id dto db) db.trips in
      let good = λ (t : Trip). is_ok (request_join now new_id t.id user_id db).0 ≡ true in
      let each : All good shown =
        All-both (λ (t : Trip). find_first (trip_with_id t.id) db.trips ≡ some t)
          (λ t. is_discovered geo user_id dto db t ≡ true) good shown
          (λ t a b. request_join-accepted t a b)
          (All-of_find_all _ (is_discovered geo user_id dto db) db.trips
            (All-found (λ (t : Trip). t.id) db.trips distinct))
          (find_all-holds (is_discovered geo user_id dto db) db.trips) in
      (
        page_of dto.limit dto.offset db (sort_by (discovery_order geo dto db) shown),
        refl,
        All-page db good dto.limit dto.offset (sort_by (discovery_order geo dto db) shown)
            ((All-sort_by good (discovery_order geo dto db) shown).1 each),
      )
