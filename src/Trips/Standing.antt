-- ===== src/Trips/Standing.antt =====
-- The contract of membership in src/modules/trips/: how a user stands with a trip, which forgets the
-- tables and keeps the status of the user's row, and the moves between standings.
pub mod Membership
pub mod Joining
use myride_api.Common.{
  ℕ, ◌≡◌, ◌≢◌, refl, ap, sym, subst, ◌∙◌, Bool, true, false, Option, some, none, List, [], ◌∷◌,
  ◌++◌, map, arith, ◌⊎◌, inl, inr, ◌==◌, if◌then◌else◌, Option-cases, Bool-cases, Distinct, All,
  find_first, find_first-All, update_where, find_first-update_where, find_first-append,
}
use mathlib.Core.Option
use myride_api.Entities.{TripParticipant, ParticipantStatus, pending, approved, rejected, left}
use myride_api.Store.{participant_of}
use myride_api.Store.Members.{participant_id, trip_id_of_find}

-- The status of the user's row, if there is one.
abbrev pub standing : (trip_id user_id : ℕ) → List TripParticipant → Option ParticipantStatus
standing trip_id user_id ps =
    Option.map (λ (p : TripParticipant). p.status) (find_first (participant_of trip_id user_id) ps)

-- What a call may do to how a user stands with a trip.
infix 40 ◌⇝◌
pub data ◌⇝◌ : Option ParticipantStatus → Option ParticipantStatus → Type 0 where
  stays : {s : Option ParticipantStatus} → s ⇝ s
  -- A first request, or one after a rejection or a leave.
  asks : none ⇝ some pending
  asks_after_rejection : some rejected ⇝ some pending
  asks_after_leave : some left ⇝ some pending
  -- The trip's creator, an auto-join link and an approval.
  creates : none ⇝ some approved
  returns_after_rejection : some rejected ⇝ some approved
  returns_after_leave : some left ⇝ some approved
  is_let_in : some pending ⇝ some approved
  is_turned_down : some pending ⇝ some rejected
  withdraws : some pending ⇝ some left
  leaves : some approved ⇝ some left
  leaves_after_rejection : some rejected ⇝ some left

-- What a call may do to the rows.
pub data Change (ps ps' : List TripParticipant) : Type 0 where
  same : ps' ≡ ps → Change ps ps'
  saves :
      (trip_id user_id : ℕ) (p : TripParticipant) (f : TripParticipant → TripParticipant)
      → find_first (participant_of trip_id user_id) ps ≡ some p
      → ((x : TripParticipant) → (f x).trip_id ≡ x.trip_id)
      → ((x : TripParticipant) → (f x).user_id ≡ x.user_id)
      → some p.status ⇝ some (f p).status
      → ps' ≡ update_where (λ x. x.id == p.id) f ps
      → Change ps ps'
  adds :
      (y : TripParticipant)
      → find_first (participant_of y.trip_id y.user_id) ps ≡ none
      → none ⇝ some y.status
      → ps' ≡ ps ++ y ∷ []
      → Change ps ps'

-- Two queries whose rows have the same id have found the same row.
find_first-same_id :
    (q k : TripParticipant → Bool) (ps : List TripParticipant) {x p : TripParticipant}
    → Distinct (map participant_id ps)
    → find_first q ps ≡ some x
    → find_first k ps ≡ some p
    → x.id ≡ p.id
    → x ≡ p
unfolding find_first
find_first-same_id q k [] d e e' s = cc
find_first-same_id q k (y ∷ ys) {x} {p} (a, d) e e' s = elim (Bool-cases (q y)) [
  | inl hit ↦ elim (Bool-cases (k y)) [
    | inl hit' ↦ ground arith
    | inr miss' ↦
        let apart : y.id ≢ p.id =
          find_first-All (λ j. y.id ≢ j) participant_id k ys a (rw miss' at e') in
        let same : y ≡ x = ground arith in absurd (apart (ap participant_id same ∙ s))
  ]
  | inr miss ↦ elim (Bool-cases (k y)) [
    | inl hit' ↦
        let apart : y.id ≢ x.id =
          find_first-All (λ j. y.id ≢ j) participant_id q ys a (rw miss at e) in
        let same : y ≡ p = ground arith in absurd (apart (ap participant_id same ∙ sym s))
    | inr miss' ↦ find_first-same_id q k ys d (rw miss at e) (rw miss' at e') s
  ]
]

module _ (ps ps' : List TripParticipant) (ids : Distinct (map participant_id ps)) where
  saved-moves :
      (trip_id user_id : ℕ) (p : TripParticipant) (f : TripParticipant → TripParticipant)
      → find_first (participant_of trip_id user_id) ps ≡ some p
      → ((x : TripParticipant) → (f x).trip_id ≡ x.trip_id)
      → ((x : TripParticipant) → (f x).user_id ≡ x.user_id)
      → some p.status ⇝ some (f p).status
      → ps' ≡ update_where (λ x. x.id == p.id) f ps
      → (t u : ℕ) → standing t u ps ⇝ standing t u ps'
  saved-moves trip_id user_id p f found keeps_trip keeps_user move saved t u =
      let spec =
        find_first-update_where (participant_of t u) (λ x. x.id == p.id) f ps
          (λ x. ground (arith, keeps_trip x, keeps_user x)) in
      rw (saved, spec)
        elim (Option-cases (find_first (participant_of t u) ps)) [
          | inl nothing ↦ rw nothing stays
          | inr (x, there) ↦ elim (Bool-cases (x.id == p.id)) [
            | inl hit ↦
                let eq : x ≡ p =
                  find_first-same_id (participant_of t u) (participant_of trip_id user_id) ps ids
                    there found (ground (arith, hit)) in
                rw (there, hit, eq) move
            | inr miss ↦ rw (there, miss) stays
          ]
        ]

  added-moves :
      (y : TripParticipant)
      → find_first (participant_of y.trip_id y.user_id) ps ≡ none
      → none ⇝ some y.status
      → ps' ≡ ps ++ y ∷ []
      → (t u : ℕ) → standing t u ps ⇝ standing t u ps'
  added-moves y single move added t u =
      let spec = find_first-append (participant_of t u) ps y in
      rw (added, spec)
        elim (Option-cases (find_first (participant_of t u) ps)) [
          | inl nothing ↦ elim (Bool-cases (participant_of t u y)) [
            | inl own ↦ rw (nothing, own) move
            | inr other ↦ rw (nothing, other) stays
          ]
          | inr (x, there) ↦ rw there stays
        ]

  -- With distinct ids, a change of the rows moves every user by one of the moves.
  pub Change-moves : Change ps ps' → (t u : ℕ) → standing t u ps ⇝ standing t u ps'
  Change-moves (same e) t u = rw e stays
  Change-moves (saves trip_id user_id p f found keeps_trip keeps_user move saved) t u =
      saved-moves trip_id user_id p f found keeps_trip keeps_user move saved t u
  Change-moves (adds y single move added) t u = added-moves y single move added t u
