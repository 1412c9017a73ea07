-- ===== src/Location/Sharing.antt =====
-- Who is shown a position: `handleUpdate` of src/modules/location/location.gateway.ts, with
-- `updatePosition`, `getSnapshot` and `removePosition` of src/modules/location/location.service.ts.

use myride_api.Common.{
  ℕ, ◌+◌, ◌<◌, ◌≡◌, refl, ap, ◌∙◌, String, true, false, Option, some, none, List, [], ◌∷◌, ◌++◌,
  arith, inl, inr, Bool-cases, ok, ◌≤◌, ◌≢◌, All, All-implies, ==_iff, ◌==◌, subst, sym,
}
use myride_api.Redis.{Redis}
use myride_api.Chat.Access
use myride_api.Chat.Limits
use myride_api.Chat.Limits.{check_rate_limit}
use myride_api.Chat.Gateway.{Claims}
use myride_api.Location.Storage.{
  LocationPayload, ParticipantPosition, Positions, live, shows, IsIn, Stored,
}
use myride_api.Location.{
  Near, State, position_of, is_jitter, update_position, get_snapshot, remove_position, pos_ttl,
}
use myride_api.Location.Gateway.{
  Server, UpdateBody, complete_body, claims_of, socket, handle_update, update_as, to_trip,
  location_changed, error, invalid_input,
}

module _ (R : Redis Access.Key) (L : Redis Limits.Key) (P : Positions) where
  -- The server where the chat's tables and its cache of answers are others.
  abbrev pub with_access : Access.State R → Server R L P → Server R L P
  with_access a s = record s { service = record s.service { access = a } }

  -- A position that passes the rate limit and is not too near the last one is stored for an hour and
  -- shown to everyone in the trip's room, whoever sends it: whatever the participants of the trips and
  -- the cached answers are, membership is not asked for.
  pub handle_update-anyone :
      (near : Near) (now id : ℕ) (body : UpdateBody) (s : Server R L P) (a : Access.State R)
      (c : Claims) (trip_id : ℕ) (payload : LocationPayload)
      → claims_of (socket R L P id s) ≡ some c
      → complete_body body ≡ some (trip_id, payload)
      → (check_rate_limit L c.sub now s.service.limits).0 ≡ true
      → is_jitter near (live now (P.view s.service.positions trip_id c.sub)) payload ≡ false
      → let s' = handle_update R L P near now id body (with_access a s) in
        (s'.emitted
          ≡ s.emitted ++ to_trip trip_id (location_changed (position_of c.sub c.name payload)) ∷ [])
        × (P.view s'.service.positions trip_id c.sub
            ≡ some (record { position = position_of c.sub c.name payload; deadline = now + 3600 }))
  unfolding handle_update update_position
  handle_update-anyone near now id body s a c trip_id payload known whole allowed far =
      let update_by : Option Claims → Option (ℕ × LocationPayload) → Server R L P = λ k b.
        elim k as (λ _. Server R L P) [
          | none ↦ error R L P id invalid_input (with_access a s)
          | some c ↦ elim b as (λ _. Server R L P) [
            | none ↦ error R L P id invalid_input (with_access a s)
            | some b ↦ update_as R L P near now c b.0 b.1 (with_access a s)
          ]
        ] in
      let same : handle_update R L P near now id body (with_access a s)
          ≡ update_as R L P near now c trip_id payload (with_access a s) =
        ap (λ k. update_by k (complete_body body)) known ∙ ap (update_by (some c)) whole in
      (
        ap (λ x. x.emitted) same ∙ rw (allowed, far) refl,
        ap (λ x. P.view x.service.positions trip_id c.sub) same
            ∙ rw (allowed, far) (P.view-set_ex_self trip_id c.sub _ _ s.service.positions),
      )

  not_shown :
      (user_id : ℕ) (ps : List ParticipantPosition)
      → All (λ (p : ParticipantPosition). p.user_id ≢ user_id) ps
      → shows user_id ps ≡ false
  unfolding shows
  not_shown user_id [] h = refl
  not_shown user_id (p ∷ ps) (differs, h) =
      ground (arith, ==_iff p.user_id user_id, not_shown user_id ps h)

  -- Where nothing is alive under the user's key and every other key has its user's position, the
  -- user is not shown.
  all-not_shown :
      (when trip_id user_id : ℕ) (st : P.Store)
      → live when (P.view st trip_id user_id) ≡ none
      → ((u : ℕ) (p : ParticipantPosition)
          → u ≢ user_id
          → live when (P.view st trip_id u) ≡ some p
          → p.user_id ≡ u)
      → shows user_id (P.all when trip_id st) ≡ false
  all-not_shown when trip_id user_id st gone keyed = not_shown user_id (P.all when trip_id st) (
      All-implies (λ p. (u : ℕ) × (live when (P.view st trip_id u) ≡ some p))
        (λ p. p.user_id ≢ user_id) (P.all when trip_id st) (λ p (u, alive). other p u alive)
        (P.shows-all when trip_id st))
    where
      other :
          (p : ParticipantPosition) (u : ℕ)
          → live when (P.view st trip_id u) ≡ some p
          → p.user_id ≢ user_id
      other p u alive same = elim (Bool-cases (u == user_id)) [
        | inl own ↦
            let eq : u ≡ user_id = (==_iff u user_id).0 own in
            absurd (ground (arith, subst (λ k. live when (P.view st trip_id k) ≡ some p) eq alive))
        | inr differs ↦
            let apart : u ≢ user_id = λ e. ground (arith, e) in
            absurd (apart (sym (keyed u p apart alive) ∙ same))
      ]

  live_position :
      (when : ℕ) (o : Option Stored) {p : ParticipantPosition}
      → live when o ≡ some p
      → (e : Stored) × (o ≡ some e) × (e.position ≡ p)
  live_position when none h = cc
  live_position when (some e) h = (e, refl, ground arith)

  module _ (trip_id user_id : ℕ) (st : P.Store)
      (keyed : (u : ℕ) (e : Stored) → P.view st trip_id u ≡ some e → e.position.user_id ≡ u) where
    -- A write or a deletion under the user's key leaves the other keys.
    keyed_after :
        (when : ℕ) (st' : P.Store)
        → ((u : ℕ) → (user_id == u) ≡ false → P.view st' trip_id u ≡ P.view st trip_id u)
        → (u : ℕ) (p : ParticipantPosition) → u ≢ user_id
        → live when (P.view st' trip_id u) ≡ some p
        → p.user_id ≡ u
    keyed_after when st' kept u p apart alive =
        let differs : (user_id == u) ≡ false = ground (arith, apart) in
        let (e, at, eq) = live_position when (P.view st' trip_id u) alive in
        sym (ap (λ (q : ParticipantPosition). q.user_id) eq) ∙ keyed u e (sym (kept u differs) ∙ at)

  -- A position that is accepted is in the trip's snapshots for an hour, with the coordinates that
  -- were sent; once the hour is over, and at once when it is removed, no snapshot has a position
  -- of the user. Under each key of the trip there must be a position of the key's user before.
  pub update_position-get_snapshot :
      (near : Near) (now early late user_id : ℕ) (name : Option String) (trip_id : ℕ)
      (payload : LocationPayload) (s : State R L P) {p : ParticipantPosition}
      → (update_position R L P near now user_id name trip_id payload s).0 ≡ ok (some p)
      → early < now + 3600
      → now + 3600 ≤ late
      → ((u : ℕ) (e : Stored) → P.view s.positions trip_id u ≡ some e → e.position.user_id ≡ u)
      → let shared = (update_position R L P near now user_id name trip_id payload s).1 in
        let removed = (remove_position R L P user_id trip_id shared).1 in
        ((ps : List ParticipantPosition) × ((get_snapshot R L P early trip_id shared).0 ≡ ok ps)
          × IsIn
              (record {
                user_id = user_id;
                name = name;
                lat = payload.lat;
                lng = payload.lng;
                heading = payload.heading;
                speed = payload.speed;
                ts = payload.ts;
              })
              ps)
        × ((ps : List ParticipantPosition) × ((get_snapshot R L P late trip_id shared).0 ≡ ok ps)
            × (shows user_id ps ≡ false))
        × ((when : ℕ)
            → (ps : List ParticipantPosition) × ((get_snapshot R L P when trip_id removed).0
                ≡ ok ps)
              × (shows user_id ps ≡ false))
  unfolding update_position get_snapshot remove_position
  update_position-get_snapshot near now early late user_id name trip_id payload s {p} done before
        after keyed =
      elim (Bool-cases (is_jitter near (live now (P.view s.positions trip_id user_id)) payload)) [
        | inl still ↦ absurd (ground arith)
        | inr moved ↦
            let position = position_of user_id name payload in
            let kept = P.view-set_ex_self trip_id user_id position (now + pos_ttl) s.positions in
            let others : (u : ℕ)
                → (user_id == u) ≡ false
                → P.view (P.set_ex trip_id user_id position (now + pos_ttl) s.positions) trip_id u
                  ≡ P.view s.positions trip_id u =
              λ u h.
                P.view-set_ex_ne trip_id user_id trip_id u position (now + pos_ttl) s.positions
                  (ground (arith, h)) in
            let stored = P.set_ex trip_id user_id position (now + pos_ttl) s.positions in
            rw moved (
              (
                P.all early trip_id stored,
                refl,
                P.all-IsIn early trip_id user_id stored position
                    (ap (live early) kept ∙ ground arith),
              ),
              (
                P.all late trip_id stored,
                refl,
                all-not_shown late trip_id user_id stored (ap (live late) kept ∙ ground arith)
                    (keyed_after trip_id user_id s.positions keyed late stored others),
              ),
              λ when. (
                P.all when trip_id (P.del trip_id user_id stored),
                refl,
                all-not_shown when trip_id user_id _
                    (ap (live when) (P.view-del_self trip_id user_id stored))
                    (keyed_after trip_id user_id s.positions keyed when _ (λ u h.
                      P.view-del_ne trip_id user_id trip_id u stored (ground (arith, h))
                      ∙ others u h)),
              ),
            )
      ]
