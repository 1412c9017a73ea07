-- ===== src/ShareLinks/Laws.antt =====
-- What a link gives access to, and what takes it away.
use text.Mathlib.TextEquality.{eq_iff}
use text.Mathlib.TextPositions.{eq_refl}
use myride_api.Common.{
  ℕ, ◌≤◌, ◌<◌, ◌≡◌, ◌≢◌, String, Bool, true, false, not, ◌&&◌, Option, ok, err, is_ok, none, some,
  List, [], ◌∷◌, map, arith, ◌⊎◌, inl, inr, ◌==◌, if◌then◌else◌, Option-cases, Bool-cases, All,
  All-implies, Distinct, find_first, update_where, All-same_key, find_first-append,
  find_first-update_where-none, find_first-update_where-new, find_first-some, refl, ◌++◌,
}
use myride_api.Entities.{
  Trip, TripStatus, TripParticipant, password_protected, TripShareableLink, is_approved,
  ParticipantStatus,
}
use myride_api.Store.{
  Db, link_not_found_or_disabled, wrong_password, password_required, trip_with_id, participant_of,
}
use myride_api.Store.Members.{trip_id_of_find}
use myride_api.ShareLinks.{
  ShareLinkDto, link_of_trip, link_with_id, link_with_token, truthy, upsert, update, regenerate,
  renew, new_link, replace_link,
}
use myride_api.ShareLinks.Joining.{
  resolve_by_token, verify_password, join_via_link, is_auto_join, new_joiner, bump_analytics,
}

-- Regenerating a trip's link takes the old address away: nothing is found under the old token, if
-- the links have distinct tokens and the new token is another one.
pub regenerate-resolve_by_token :
    (token : String) (trip_id admin_id now : ℕ) (creator : ℕ → Option (ℕ × Option String)) (db : Db)
    {old new : TripShareableLink}
    → find_first (link_of_trip trip_id) db.links ≡ some old
    → Distinct (map (λ l. l.link_token) db.links)
    → token ≢ old.link_token
    → (regenerate token trip_id admin_id db).0 ≡ ok new
    → (resolve_by_token now creator old.link_token (regenerate token trip_id admin_id db).1).0
      ≡ err link_not_found_or_disabled
unfolding regenerate resolve_by_token
regenerate-resolve_by_token token trip_id admin_id now creator db {old} at tokens other done =
    let gone : find_first (link_with_token old.link_token)
          (update_where (link_with_id old.id) (renew token) db.links)
        ≡ none =
      find_first-update_where-none (link_with_token old.link_token) (link_with_id old.id)
        (renew token) db.links
        (All-implies _ _ db.links
          (λ l. elim [
            | inl same ↦ elim (Bool-cases (l.id == old.id)) [
              | inl hit ↦ inl (hit, ground (arith, eq_iff token old.link_token))
              | inr miss ↦ absurd (ground arith)
            ]
            | inr differs ↦ elim (Bool-cases (l.id == old.id)) [
              | inl hit ↦ inl (hit, ground (arith, eq_iff token old.link_token))
              | inr miss ↦ inr (miss, ground (arith, eq_iff l.link_token old.link_token))
            ]
          ])
          (All-same_key (λ (l : TripShareableLink). l.link_token) (λ l. l.id) (link_of_trip trip_id)
            db.links tokens at)) in
    ground (arith, gone)

-- The password that an accepted request sets is the one that is asked for afterwards: under the
-- new token the check passes exactly where bcrypt accepts the given password against the stored
-- hash. The token must be fresh.
pub upsert-verify_password :
    (now new_id : ℕ) (token : String) (hash : String → String) (compare : String → String → Bool)
    (trip_id admin_id : ℕ) (dto : ShareLinkDto) (password guess : String) (db : Db)
    {link : TripShareableLink}
    → truthy dto.password ≡ some password
    → find_first (link_with_token token) db.links ≡ none
    → (upsert now new_id token hash trip_id admin_id dto db).0 ≡ ok link
    → (verify_password compare token guess
        (upsert now new_id token hash trip_id admin_id dto db).1).0
      ≡ (if compare guess (hash password) then ok tt else err wrong_password)
unfolding upsert verify_password
upsert-verify_password now new_id token hash compare trip_id admin_id dto password guess db given
      fresh done =
    elim (Option-cases (find_first (link_of_trip trip_id) db.links)) [
      | inl single ↦ ground (
        arith,
        eq_refl token,
        find_first-append (link_with_token token) db.links
            (new_link now new_id trip_id token hash dto),
      )
      | inr (old, at) ↦
          let (first, hit) =
            find_first-some (link_of_trip trip_id) (link_with_id old.id) db.links at
              (ground arith) in
          ground (
            arith,
            hit,
            find_first-update_where-new (link_with_token token) (link_with_id old.id)
                (replace_link now token hash dto) db.links fresh (λ x. eq_refl token),
          )
    ]

-- Turning protection on by an update is refused unless the request gives a password, also where
-- the link already has one.
pub update-password_required :
    (now : ℕ) (hash : String → String) (trip_id admin_id : ℕ) (dto : ShareLinkDto) (db : Db)
    {trip : Trip} {link : TripShareableLink}
    → find_first (trip_with_id trip_id) db.trips ≡ some trip
    → trip.creator_id ≡ admin_id
    → find_first (link_of_trip trip_id) db.links ≡ some link
    → dto.access_mode ≡ some password_protected
    → truthy dto.password ≡ none
    → update now hash trip_id admin_id dto db ≡ (err password_required, db)
unfolding update
update-password_required now hash trip_id admin_id dto db there own at mode none_given =
    ground arith

-- A protected link, active and with no expiry, is joined without its password: a user other than
-- the creator, with no row in the trip, which must be pending and have room, gets a pending row,
-- which is answered and stored, whatever password the link has; no trip changes.
pub join_via_link-password_protected :
    (now new_id : ℕ) (token : String) (user_id : ℕ) (db : Db) {trip : Trip}
    {link : TripShareableLink}
    → find_first (link_with_token token) db.links ≡ some link
    → link.access_mode ≡ password_protected
    → link.is_active ≡ true
    → link.expires_at ≡ none
    → find_first (trip_with_id link.trip_id) db.trips ≡ some trip
    → trip.creator_id ≢ user_id
    → trip.status ≡ TripStatus.pending
    → trip.current_participants < trip.max_participants
    → find_first (participant_of trip.id user_id) db.participants ≡ none
    → let db' = (join_via_link now new_id token user_id db).1 in
      (p : TripParticipant) × ((join_via_link now new_id token user_id db).0 ≡ ok p)
      × (p.trip_id ≡ trip.id)
      × (p.user_id ≡ user_id)
      × (p.status ≡ ParticipantStatus.pending)
      × (db'.participants ≡ db.participants ++ p ∷ [])
      × (db'.trips ≡ db.trips)
unfolding join_via_link
join_via_link-password_protected now new_id token user_id db {trip} at mode active forever there
      other waiting room single =
    (
      new_joiner now new_id trip.id user_id false trip.is_paid,
      ground arith,
      refl,
      refl,
      refl,
      ground arith,
      ground arith,
    )

-- A join is approved at once exactly when the link says auto-join and the trip is free.
pub join_via_link-is_approved :
    (now new_id : ℕ) (token : String) (user_id : ℕ) (db : Db) {trip : Trip}
    {link : TripShareableLink} {p : TripParticipant}
    → find_first (link_with_token token) db.links ≡ some link
    → find_first (trip_with_id link.trip_id) db.trips ≡ some trip
    → (join_via_link now new_id token user_id db).0 ≡ ok p
    → (is_approved p.status ≡ (is_auto_join link.access_mode && not trip.is_paid))
      × (p.trip_id ≡ trip.id)
      × (p.user_id ≡ user_id)
unfolding join_via_link
join_via_link-is_approved now new_id token user_id db {trip} at there done =
    elim (Option-cases (find_first (participant_of trip.id user_id) db.participants)) [
      | inl single ↦ ground arith
      | inr (old, found) ↦ ground (arith, trip_id_of_find trip.id user_id db.participants found)
    ]

-- No link counts more successful joins than requests.
abbrev pub CountsJoins : List TripShareableLink → Type 0
CountsJoins = All (λ l. l.successful_joins ≤ l.join_requests)

save_link-CountsJoins :
    (links : List TripShareableLink) (id : ℕ) (auto : Bool)
    → CountsJoins links
    → CountsJoins (update_where (link_with_id id) (bump_analytics auto) links)
unfolding update_where
save_link-CountsJoins [] id auto h = tt
save_link-CountsJoins (l ∷ links) id auto (p, h) =
    (ground arith, save_link-CountsJoins links id auto h)

join_via_link-links :
    (now new_id : ℕ) (token : String) (user_id : ℕ) (db : Db)
    → let db' = (join_via_link now new_id token user_id db).1 in
      (db'.links ≡ db.links)
      ⊎ ((id : ℕ) × (auto : Bool) × (db'.links
            ≡ update_where (link_with_id id) (bump_analytics auto) db.links))
unfolding join_via_link
join_via_link-links now new_id token user_id db =
    elim (Option-cases (find_first (link_with_token token) db.links)) [
      | inl missing ↦ inl (ground arith)
      | inr (link, at) ↦ elim (Option-cases (find_first (trip_with_id link.trip_id) db.trips)) [
        | inl no_trip ↦ inl (ground arith)
        | inr (trip, there) ↦
            elim (Bool-cases (is_ok (join_via_link now new_id token user_id db).0)) [
              | inl done ↦
                  inr (link.id, is_auto_join link.access_mode && not trip.is_paid, ground arith)
              | inr failed ↦ inl (ground arith)
            ]
      ]
    ]

-- Joining by a link keeps the analytics in order: successful joins never exceed requests.
pub join_via_link-CountsJoins :
    (now new_id : ℕ) (token : String) (user_id : ℕ) (db : Db)
    → CountsJoins db.links
    → CountsJoins (join_via_link now new_id token user_id db).1.links
join_via_link-CountsJoins now new_id token user_id db h =
    elim (join_via_link-links now new_id token user_id db) [
      | inl same ↦ rw same h
      | inr (id, auto, saved) ↦ rw saved (save_link-CountsJoins db.links id auto h)
    ]
