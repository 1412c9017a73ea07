-- ===== src/Store/Members.antt =====
-- The invariant of trips and participants (src/modules/trips/entities/): unique participant rows, and
-- a count of participants in each trip.

use myride_api.Common.{
  ℕ, ◌+◌, ◌≡◌, ◌≢◌, ap, subst, sym, true, false, none, some, List, [], ◌∷◌, ◌++◌, map, arith, ◌==◌,
  ==_iff, if◌then◌else◌, inl, inr, Option-cases, Bool-cases, Distinct, find_first, count_where,
  update_where, find_first-holds, find_first-update_where, count_where-append, count_where-none,
  find_first-append, ◌≢◌, count_where-update_where, map-update_where, Distinct-insert,
}
use myride_api.Entities.{Trip, TripParticipant, is_approved}
use myride_api.Store.{Db, trip_with_id, participant_of, participant_with_id, is_member_of}

-- The columns of the unique constraint on trip_participants.
abbrev pub pair : TripParticipant → ℕ × ℕ
pair p = (p.trip_id, p.user_id)

abbrev pub participant_id : TripParticipant → ℕ
participant_id p = p.id

-- Each trip counts its approved rows.
abbrev pub CountsMembers : List Trip → List TripParticipant → Type 0
CountsMembers trips ps =
    (t : ℕ) (row : Trip)
    → find_first (trip_with_id t) trips ≡ some row
    → row.current_participants ≡ count_where (is_member_of t) ps

-- The invariant of the two tables.
pub record AreConsistent (trips : List Trip) (ps : List TripParticipant) : Type 0 where
  pub ids : Distinct (map participant_id ps)
  pub pairs : Distinct (map pair ps)
  pub counted : CountsMembers trips ps

abbrev pub IsConsistent : Db → Type 0
IsConsistent db = AreConsistent db.trips db.participants

pub id_of_find :
    (trip_id : ℕ) (trips : List Trip) {trip : Trip}
    → find_first (trip_with_id trip_id) trips ≡ some trip
    → trip.id ≡ trip_id
id_of_find trip_id trips {trip} e =
    let held : trip_with_id trip_id trip ≡ true = find_first-holds (trip_with_id trip_id) trips e in
    ground arith

pub find_own :
    (trip_id : ℕ) (trips : List Trip) {trip : Trip}
    → find_first (trip_with_id trip_id) trips ≡ some trip
    → find_first (trip_with_id trip.id) trips ≡ some trip
find_own trip_id trips {trip} e =
    subst (λ n. find_first (trip_with_id n) trips ≡ some trip) (sym (id_of_find trip_id trips e)) e

pub trip_id_of_find :
    (trip_id user_id : ℕ) (ps : List TripParticipant) {p : TripParticipant}
    → find_first (participant_of trip_id user_id) ps ≡ some p
    → (p.trip_id ≡ trip_id) × (p.user_id ≡ user_id)
trip_id_of_find trip_id user_id ps {p} e =
    let held : participant_of trip_id user_id p ≡ true =
      find_first-holds (participant_of trip_id user_id) ps e in
    ground arith

module _ (ps : List TripParticipant) (p : TripParticipant) (trip_id user_id : ℕ)
    (ids : Distinct (map participant_id ps))
    (found : find_first (participant_of trip_id user_id) ps ≡ some p)
    (f : TripParticipant → TripParticipant) (stays : (f p).trip_id ≡ p.trip_id) where
  -- How saving one row changes the number of members of each trip.
  pub count-save :
      (t : ℕ)
      → count_where (is_member_of t) (update_where (λ x. x.id == p.id) f ps)
          + (if t == trip_id then if is_approved p.status then 1 else 0 else 0)
        ≡ count_where (is_member_of t) ps
          + (if t == trip_id then if is_approved (f p).status then 1 else 0 else 0)
  count-save t = ground (
    arith,
    trip_id_of_find trip_id user_id ps found,
    count_where-update_where participant_id (is_member_of t) (participant_of trip_id user_id) f ps
        ids found,
  )

-- A trip whose count moves with its members stays right, and so do the trips that are left alone.
pub set_count-CountsMembers :
    (trips : List Trip) (ps ps' : List TripParticipant) (trip_id was is : ℕ) (f : Trip → Trip)
    (trip : Trip)
    → CountsMembers trips ps
    → find_first (trip_with_id trip_id) trips ≡ some trip
    → ((x : Trip) → (f x).id ≡ x.id)
    → ((t : ℕ)
        → count_where (is_member_of t) ps' + (if t == trip_id then was else 0)
          ≡ count_where (is_member_of t) ps + (if t == trip_id then is else 0))
    → (f trip).current_participants + was ≡ trip.current_participants + is
    → CountsMembers (update_where (trip_with_id trip_id) f trips) ps'
set_count-CountsMembers trips ps ps' trip_id was is f trip h found same_id moved exact t row e =
    let spec =
      find_first-update_where (trip_with_id t) (trip_with_id trip_id) f trips
        (λ x. ap (λ n. n == t) (same_id x)) in
    elim (Option-cases (find_first (trip_with_id t) trips)) [
      | inl none_there ↦ absurd (ground (arith, spec))
      | inr (old, there) ↦
          let held : old.id ≡ t = id_of_find t trips there in
          elim (Bool-cases (t == trip_id)) [
            | inl same ↦
                let at : find_first (trip_with_id trip_id) trips ≡ some old =
                  rw (← (==_iff t trip_id).0 same) there in
                let is_old : trip ≡ old = ground arith in
                let is_row : f old ≡ row = ground (arith, spec) in
                let count : row.current_participants ≡ (f trip).current_participants =
                  rw (is_old, ← is_row) in
                ground (arith, count, moved t, h t trip (rw is_old there), exact)
            | inr other ↦
                let is_row : old ≡ row = ground (arith, spec) in
                ground (arith, moved t, h t row (rw (← is_row) there))
          ]
    ]

-- Where no row changes sides, the counts stay.
pub keep_count-CountsMembers :
    (trips : List Trip) (ps ps' : List TripParticipant)
    → CountsMembers trips ps
    → ((t : ℕ) → count_where (is_member_of t) ps' ≡ count_where (is_member_of t) ps)
    → CountsMembers trips ps'
keep_count-CountsMembers trips ps ps' h same t row e = omega (arith, h t row e, same t)

module _ {trips : List Trip} {ps : List TripParticipant} (h : AreConsistent trips ps) where
  -- A new row that is not approved, under a fresh id, for a user with no row in the trip.
  pub insert-AreConsistent :
      (p : TripParticipant)
      → find_first (participant_with_id p.id) ps ≡ none
      → find_first (participant_of p.trip_id p.user_id) ps ≡ none
      → is_approved p.status ≡ false
      → AreConsistent trips (ps ++ p ∷ [])
  insert-AreConsistent p fresh single waits = record {
    ids =
        Distinct-insert participant_id (participant_with_id p.id) ps p (λ x e. ground arith) fresh
          h.ids;
    pairs =
        Distinct-insert pair (participant_of p.trip_id p.user_id) ps p (λ x e. ground arith) single
          h.pairs;
    counted =
        keep_count-CountsMembers trips ps (ps ++ p ∷ []) h.counted
          (λ t. ground (arith, count_where-append (is_member_of t) ps p));
  }

  -- A new approved row, together with the trip's new count.
  pub insert_counting-AreConsistent :
      (p : TripParticipant) (trip : Trip) (g : Trip → Trip)
      → find_first (participant_with_id p.id) ps ≡ none
      → find_first (participant_of p.trip_id p.user_id) ps ≡ none
      → is_approved p.status ≡ true
      → find_first (trip_with_id p.trip_id) trips ≡ some trip
      → ((x : Trip) → (g x).id ≡ x.id)
      → (g trip).current_participants ≡ trip.current_participants + 1
      → AreConsistent (update_where (trip_with_id p.trip_id) g trips) (ps ++ p ∷ [])
  insert_counting-AreConsistent p trip g fresh single joins there same_trip exact = record {
    ids =
        Distinct-insert participant_id (participant_with_id p.id) ps p (λ x e. ground arith) fresh
          h.ids;
    pairs =
        Distinct-insert pair (participant_of p.trip_id p.user_id) ps p (λ x e. ground arith) single
          h.pairs;
    counted =
        set_count-CountsMembers trips ps (ps ++ p ∷ []) p.trip_id 0 1 g trip h.counted there
          same_trip (λ t. ground (arith, count_where-append (is_member_of t) ps p)) (omega arith);
  }

  -- A new trip, whose only participant is its creator.
  pub open-AreConsistent :
      (trip : Trip) (p : TripParticipant)
      → find_first (participant_with_id p.id) ps ≡ none
      → find_first (λ x. x.trip_id == trip.id) ps ≡ none
      → find_first (trip_with_id trip.id) trips ≡ none
      → p.trip_id ≡ trip.id
      → is_approved p.status ≡ true
      → trip.current_participants ≡ 1
      → AreConsistent (trips ++ trip ∷ []) (ps ++ p ∷ [])
  open-AreConsistent trip p fresh unseen new own approved one = record {
    ids =
        Distinct-insert participant_id (participant_with_id p.id) ps p (λ x e. ground arith) fresh
          h.ids;
    pairs =
        Distinct-insert pair (λ x. x.trip_id == trip.id) ps p (λ x e. ground arith) unseen h.pairs;
    counted = λ t row e.
        let spec = find_first-append (trip_with_id t) trips trip in
        let added = count_where-append (is_member_of t) ps p in
        elim (Option-cases (find_first (trip_with_id t) trips)) [
          | inl none_there ↦
              let same : trip ≡ row = ground (arith, spec) in
              let here : trip.id ≡ t = ground (arith, spec) in
              ground (
                arith,
                added,
                ap (λ (r : Trip). r.current_participants) same,
                count_where-none (is_member_of t) (λ x. x.trip_id == trip.id) ps
                    (λ x miss. ground arith) unseen,
              )
          | inr (old, there) ↦
              let same : old ≡ row = ground (arith, spec) in
              let other : t ≢ trip.id =
                ground (arith, ap (λ n. find_first (trip_with_id n) trips)) in
              ground (
                arith,
                added,
                h.counted t old there,
                ap (λ (r : Trip). r.current_participants) same,
              )
        ];
  }

  module _ (trip_id user_id : ℕ) (p : TripParticipant)
      (found : find_first (participant_of trip_id user_id) ps ≡ some p)
      (f : TripParticipant → TripParticipant) (same_id : (x : TripParticipant) → (f x).id ≡ x.id)
      (same_pair : (x : TripParticipant) → pair (f x) ≡ pair x) where
    -- Saving a row that was found, where neither or both of the old and the new are approved.
    pub save-AreConsistent :
        is_approved (f p).status ≡ is_approved p.status
        → AreConsistent trips (update_where (λ x. x.id == p.id) f ps)
    save-AreConsistent same = record {
      ids = rw (map-update_where participant_id (λ x. x.id == p.id) f ps same_id) h.ids;
      pairs = rw (map-update_where pair (λ x. x.id == p.id) f ps same_pair) h.pairs;
      counted = keep_count-CountsMembers trips ps _ h.counted (λ t. ground (
        arith,
        count-save ps p trip_id user_id h.ids found f (ap (λ q. q.0) (same_pair p)) t,
        same,
      ));
    }

    -- Saving a row that was found together with the trip's new count.
    pub save_counting-AreConsistent :
        (trip : Trip) (g : Trip → Trip)
        → find_first (trip_with_id trip_id) trips ≡ some trip
        → ((x : Trip) → (g x).id ≡ x.id)
        → (g trip).current_participants + (if is_approved p.status then 1 else 0)
          ≡ trip.current_participants + (if is_approved (f p).status then 1 else 0)
        → AreConsistent
            (update_where (trip_with_id trip.id) g trips)
            (update_where (λ x. x.id == p.id) f ps)
    save_counting-AreConsistent trip g there same_trip exact =
        rw (id_of_find trip_id trips there) record {
          ids = rw (map-update_where participant_id (λ x. x.id == p.id) f ps same_id) h.ids;
          pairs = rw (map-update_where pair (λ x. x.id == p.id) f ps same_pair) h.pairs;
          counted =
              set_count-CountsMembers trips ps _ trip_id (if is_approved p.status then 1 else 0)
                (if is_approved (f p).status then 1 else 0) g trip h.counted there same_trip
                (count-save ps p trip_id user_id h.ids found f (ap (λ q. q.0) (same_pair p))) exact;
        }
