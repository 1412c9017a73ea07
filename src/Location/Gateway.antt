-- ===== src/Location/Gateway.antt =====
-- src/modules/location/location.gateway.ts: sockets and rooms as in the chat's gateway, a room being a
-- trip. Socket.IO's rooms are the lists of the sockets.

use myride_api.Common.{
  ℕ, String, Bool, false, not, ◌||◌, Option, some, none, List, [], ◌∷◌, ◌++◌, ◌==◌, find_first,
  update_where, delete_where, if◌then◌else◌, Result, ok, err,
}
use myride_api.Redis.{Redis}
use myride_api.Chat.Access
use myride_api.Chat.Limits
use myride_api.Chat.Gateway.{Claims, extract_token}
use myride_api.Location.Storage.{LocationPayload, ParticipantPosition, Positions}
use myride_api.Location
use myride_api.Location.{
  Near, State, check_membership, within_limit, update_position, get_snapshot, remove_position,
}

pub data Code : Type 0 where
  unauthenticated token_invalid invalid_input access_denied : Code

pub data Event : Type 0 where
  location_error : Code → Event
  location_joined : (trip_id : ℕ) → Event
  location_snapshot : List ParticipantPosition → Event
  location_left : (trip_id user_id : ℕ) → Event
  location_changed : ParticipantPosition → Event

-- `socket.emit` and `server.to('trip:…').emit`.
pub data Emit : Type 0 where
  to_socket : (socket_id : ℕ) → Event → Emit
  to_trip : (trip_id : ℕ) → Event → Emit

pub record Socket : Type 0 where
  pub id : ℕ
  pub user : Option Claims
  -- The trips whose room the socket is in.
  pub trips : List ℕ

abbrev pub socket_with_id : ℕ → Socket → Bool
socket_with_id id k = k.id == id

abbrev pub has_trip : ℕ → List ℕ → Bool
has_trip t [] = false
has_trip t (x ∷ xs) = x == t || has_trip t xs

abbrev pub enter : ℕ → Socket → Socket
enter t k = if has_trip t k.trips then k else record k { trips = k.trips ++ t ∷ [] }

abbrev pub exit : ℕ → Socket → Socket
exit t k = record k { trips = delete_where (λ x. x == t) k.trips }

abbrev pub claims_of : Option Socket → Option Claims
claims_of none = none
claims_of (some k) = k.user

-- The body of a `location:update`, whose fields may be missing.
pub record UpdateBody : Type 0 where
  pub trip_id : Option ℕ
  pub lat : Option String
  pub lng : Option String
  pub heading : Option String
  pub speed : Option String
  pub ts : ℕ

-- `!trip_id || lat == null || lng == null` refuses all but this.
abbrev pub complete_body : UpdateBody → Option (ℕ × LocationPayload)
complete_body b = elim b.trip_id [
  | none ↦ none
  | some t ↦ elim b.lat [
    | none ↦ none
    | some lat ↦ elim b.lng [
      | none ↦ none
      | some lng ↦
          some (t, record { lat = lat; lng = lng; heading = b.heading; speed = b.speed; ts = b.ts })
    ]
  ]
]

module _ (R : Redis Access.Key) (L : Redis Limits.Key) (P : Positions) where
  pub record Server : Type 0 where
    pub service : State R L P
    pub sockets : List Socket
    pub emitted : List Emit

  abbrev pub emit : Emit → Server → Server
  emit e s = record s { emitted = s.emitted ++ e ∷ [] }

  abbrev pub error : ℕ → Code → Server → Server
  error id code s = emit (to_socket id (location_error code)) s

  abbrev pub socket : ℕ → Server → Option Socket
  socket id s = find_first (socket_with_id id) s.sockets

  abbrev pub update_socket : ℕ → (Socket → Socket) → Server → Server
  update_socket id f s = record s { sockets = update_where (socket_with_id id) f s.sockets }

  abbrev pub refuse_connection : ℕ → Code → Server → Server
  refuse_connection id code s =
      let told = error id code s in
      record told { sockets = delete_where (socket_with_id id) told.sockets }

  abbrev pub accept_claims : ℕ → Option Claims → Server → Server
  accept_claims id none s = refuse_connection id token_invalid s
  accept_claims id (some c) s = update_socket id (λ k. record k { user = some c }) s

  unfoldable pub handle_connection :
      (verify : String → Option Claims) (id : ℕ) (raw : Option String) → Server → Server
  handle_connection verify id raw s = elim (extract_token raw) [
    | none ↦ refuse_connection id unauthenticated s
    | some token ↦ accept_claims id (verify token) s
  ]

  -- `removePosition` and the broadcast that the user is gone.
  abbrev pub drop_out : (user_id trip_id : ℕ) → Server → Server
  drop_out user_id trip_id s =
      emit (to_trip trip_id (location_left trip_id user_id))
        (record s { service = (remove_position R L P user_id trip_id s.service).1 })

  unfoldable pub drop_out_of : (user_id : ℕ) → List ℕ → Server → Server
  drop_out_of user_id [] s = s
  drop_out_of user_id (t ∷ ts) s = drop_out_of user_id ts (drop_out user_id t s)

  -- `handleDisconnect`. `rooms` is what `socket.rooms` holds when the handler runs.
  unfoldable pub handle_disconnect : (id : ℕ) (rooms : List ℕ) → Server → Server
  unfolding drop_out_of
  handle_disconnect id rooms s = elim (claims_of (socket id s)) [
    | none ↦ s
    | some c ↦ drop_out_of c.sub rooms s
  ]

  abbrev pub snapshot_of :
      Result Location.Error (List ParticipantPosition) → List ParticipantPosition
  snapshot_of (ok ps) = ps
  snapshot_of (err e) = []

  abbrev pub let_in : (now id trip_id : ℕ) → Server → Server
  let_in now id trip_id s =
      let joined =
        emit (to_socket id (location_joined trip_id)) (update_socket id (enter trip_id) s) in
      let (positions, service) = get_snapshot R L P now trip_id joined.service in
      emit (to_socket id (location_snapshot (snapshot_of positions)))
        (record joined { service = service })

  abbrev pub is_true : Result Location.Error Bool → Bool
  is_true (ok b) = b
  is_true (err e) = false

  abbrev pub join_trip : (now id user_id trip_id : ℕ) → Server → Server
  join_trip now id user_id trip_id s =
      let (member, service) = check_membership R L P now user_id trip_id s.service in
      let checked : Server = record s { service = service } in
      if is_true member then let_in now id trip_id checked else error id access_denied checked

  unfoldable pub handle_join : (now id : ℕ) → Option ℕ → Server → Server
  handle_join now id trip_id s = elim (claims_of (socket id s)) [
    | none ↦ error id invalid_input s
    | some c ↦ elim trip_id [
      | none ↦ error id invalid_input s
      | some t ↦ join_trip now id c.sub t s
    ]
  ]

  unfoldable pub handle_leave : (id : ℕ) → Option ℕ → Server → Server
  handle_leave id trip_id s = elim (claims_of (socket id s)) [
    | none ↦ s
    | some c ↦ elim trip_id [ none ↦ s | some t ↦ drop_out c.sub t (update_socket id (exit t) s) ]
  ]

  abbrev pub announce : ℕ → Result Location.Error (Option ParticipantPosition) → Server → Server
  announce trip_id (ok (some p)) s = emit (to_trip trip_id (location_changed p)) s
  announce trip_id (ok none) s = s
  announce trip_id (err e) s = s

  abbrev pub update_as :
      Near → (now : ℕ) → Claims → (trip_id : ℕ) → LocationPayload → Server → Server
  update_as near now c trip_id payload s =
      let (allowed, limited) = within_limit R L P c.sub now s.service in
      if not (is_true allowed)
      then record s { service = limited }
      else (let (position, service) =
            update_position R L P near now c.sub c.name trip_id payload limited in
          announce trip_id position (record s { service = service }))

  unfoldable pub handle_update : Near → (now id : ℕ) → UpdateBody → Server → Server
  handle_update near now id body s = elim (claims_of (socket id s)) [
    | none ↦ error id invalid_input s
    | some c ↦ elim (complete_body body) [
      | none ↦ error id invalid_input s
      | some b ↦ update_as near now c b.0 b.1 s
    ]
  ]
