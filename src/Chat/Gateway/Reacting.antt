-- ===== src/Chat/Gateway/Reacting.antt =====
-- Reactions over a socket: `handleReact` of src/modules/chat/chat.gateway.ts, with `getMessageRoom` and
-- `toggleReaction` of src/modules/chat/chat.service.ts.
use mathlib.Core.Option
use myride_api.Common.{
  ℕ, ◌+◌, ◌≡◌, String, true, not, Option, some, none, List, [], ◌∷◌, ◌++◌, refl, ap, ◌∙◌, ◌⊎◌, inl,
  inr, arith, find_first, find_all, if◌then◌else◌, Bool-cases, Option-cases,
}
use myride_api.Redis.{Redis, Value, string, number, value_at}
use myride_api.Chat.{ChatMessage, MessageReaction}
use myride_api.Chat.Access
use myride_api.Chat.Limits
use myride_api.Chat.Window.{SortedSets, check_rate_limit}
use myride_api.Chat.Stream.{Group, message_with_id}
use myride_api.Chat.Reactions.{toggled, group_reactions, on_message}
use myride_api.Chat.Gateway.{
  Room, Claims, unauthenticated, access_denied, rate_limited, message_not_found,
  chat_reaction_update, to_room, Server, emit, Code, to_socket, chat_error,
}
use myride_api.Chat.Gateway.Handlers.{claims_of, socket, error, has_access, access_checked}

-- JSON.stringify and JSON.parse of a room.
pub record RoomJson : Type 0 where
  pub print : Room → String
  pub parse : String → Option Room
  pub parse-print : (room : Room) → parse (print room) ≡ some room

abbrev pub cached_room : RoomJson → Option Value → Option Room
cached_room json none = none
cached_room json (some (string s)) = json.parse s
cached_room json (some (number n)) = none

abbrev pub room_of : ChatMessage → Room
room_of m = record { room_type = m.room_type; room_id = m.room_id }

module _ (R : Redis Access.Key) (C : Redis ℕ) (L : Redis Limits.Key) (Z : SortedSets ℕ)
    (G : Group) where
  -- What is cached, or else what the table has.
  abbrev pub or_stored : Option Room → Option Room → Option Room
  or_stored (some room) stored = some room
  or_stored none stored = stored

  abbrev pub cached_of : RoomJson → (second message_id : ℕ) → C.Store → Option Room
  cached_of json second message_id store =
      cached_room json (value_at second (C.view store message_id))

  abbrev pub stored_of : (message_id : ℕ) → List ChatMessage → Option Room
  stored_of message_id messages =
      Option.map room_of (find_first (message_with_id message_id) messages)

  -- `getMessageRoom`: the room of a message, from the cache or from the table, and the cache after it.
  abbrev pub message_room : RoomJson → (second message_id : ℕ) → Server R C L Z G → Option Room
  message_room json second message_id s =
      or_stored (cached_of json second message_id s.message_rooms) (stored_of message_id s.messages)

  -- The room is stored where it was not cached and the message is there.
  abbrev pub remember_room :
      RoomJson → (second message_id : ℕ) → (cached stored : Option Room) → C.Store → C.Store
  remember_room json second message_id (some room) stored store = store
  remember_room json second message_id none none store = store
  remember_room json second message_id none (some room) store =
      C.set_ex message_id (string (json.print room)) (second + 3600) store

  abbrev pub message_room_cached :
      RoomJson → (second message_id : ℕ) → Server R C L Z G → Server R C L Z G
  message_room_cached json second message_id s = record s {
    message_rooms =
        remember_room json second message_id (cached_of json second message_id s.message_rooms)
          (stored_of message_id s.messages) s.message_rooms;
  }

  -- The rest of `toggleReaction`, and the broadcast to the room that it answers.
  abbrev pub toggle_in :
      (new_id user_id message_id : ℕ) (emoji : String) → Room → Server R C L Z G → Server R C L Z G
  toggle_in new_id user_id message_id emoji room s =
      let rows = toggled new_id message_id user_id emoji s.reactions in
      emit R C L Z G
        (to_room room (
          chat_reaction_update message_id
            (group_reactions (find_all (on_message message_id) rows))))
        (record s { reactions = rows })

  -- `toggleReaction` looks the room up once more; without one it throws.
  abbrev pub toggle_found :
      RoomJson
      → (second new_id user_id message_id : ℕ) (emoji : String) → Server R C L Z G
      → Option Room
      → Server R C L Z G
  toggle_found json second new_id user_id message_id emoji s none = s
  toggle_found json second new_id user_id message_id emoji s (some room) =
      toggle_in new_id user_id message_id emoji room (message_room_cached json second message_id s)

  abbrev pub toggle :
      RoomJson
      → (second new_id user_id message_id : ℕ) (emoji : String) → Server R C L Z G
      → Server R C L Z G
  toggle json second new_id user_id message_id emoji s =
      toggle_found json second new_id user_id message_id emoji s
        (message_room json second message_id s)

  abbrev pub react_in :
      RoomJson
      → (second new_id id user_id message_id : ℕ) (emoji : String) → Option Room
      → Server R C L Z G
      → Server R C L Z G
  react_in json second new_id id user_id message_id emoji none s =
      error R C L Z G id message_not_found s
  react_in json second new_id id user_id message_id emoji (some room) s =
      let checked = access_checked R C L Z G second user_id room s in
      if has_access R C L Z G second user_id room s
      then toggle json second new_id user_id message_id emoji checked
      else error R C L Z G id access_denied checked

  abbrev pub react_as :
      RoomJson
      → (now second new_id id user_id message_id : ℕ) (emoji : String) → Server R C L Z G
      → Server R C L Z G
  react_as json now second new_id id user_id message_id emoji s =
      let (allowed, reacts) = check_rate_limit Z user_id now s.reacts in
      let counted : Server R C L Z G = record s { reacts = reacts } in
      if not allowed
      then error R C L Z G id rate_limited counted
      else react_in json second new_id id user_id message_id emoji
          (message_room json second message_id counted)
          (message_room_cached json second message_id counted)

  unfoldable pub handle_react :
      RoomJson
      → (now second new_id id message_id : ℕ) (emoji : String) → Server R C L Z G
      → Server R C L Z G
  handle_react json now second new_id id message_id emoji s =
      elim (claims_of (socket R C L Z G id s)) [
        | none ↦ error R C L Z G id unauthenticated s
        | some c ↦ react_as json now second new_id id c.sub message_id emoji s
      ]

  module _ (json : RoomJson) (second message_id : ℕ) where
    -- A second look-up finds the room of the first.
    remembered :
        (stored : Option Room) (store : C.Store) {room : Room} {cached : Option Room}
        → cached_of json second message_id store ≡ cached
        → or_stored cached stored ≡ some room
        → or_stored
            (cached_of json second message_id
              (remember_room json second message_id cached stored store))
            stored
          ≡ some room
    remembered stored store {cached = some r} warm h = rw warm h
    remembered (some r) store {cached = none} cold h =
        ap (λ e. or_stored (cached_room json (value_at second e)) (some r))
          (C.view-set_ex_self message_id (string (json.print r)) (second + 3600) store)
        ∙ ground (arith, json.parse-print r, h)
    remembered none store {cached = none} cold h = rw cold h

    module _ (now new_id id : ℕ) (emoji : String) (s : Server R C L Z G) where
      -- The rows after the toggle.
      abbrev pub toggled_by : Claims → List MessageReaction
      toggled_by c = toggled new_id message_id c.sub emoji s.reactions

      react_in-emitted :
          (c : Claims) (k : Server R C L Z G) {o : Option Room}
          → message_room json second message_id k ≡ o
          → let s' =
              react_in json second new_id id c.sub message_id emoji o
                (message_room_cached json second message_id k) in
            ((code : Code) × (s'.reactions ≡ k.reactions)
              × (s'.emitted ≡ k.emitted ++ to_socket id (chat_error code) ∷ []))
            ⊎ ((room : Room) × (o ≡ some room)
                × (has_access R C L Z G second c.sub room k ≡ true)
                × (s'.reactions ≡ toggled new_id message_id c.sub emoji k.reactions)
                × (s'.emitted
                    ≡ k.emitted
                      ++ to_room room (
                          chat_reaction_update message_id (
                            group_reactions (
                              find_all
                                (on_message message_id)
                                (toggled new_id message_id c.sub emoji k.reactions))))
                        ∷ []))
      react_in-emitted c k {o = none} there = inl (message_not_found, refl, refl)
      react_in-emitted c k {o = some room} there =
          elim (Bool-cases (has_access R C L Z G second c.sub room k)) [
            | inl in_room ↦
                let again =
                  remembered (stored_of message_id k.messages) k.message_rooms refl there in
                rw (in_room, again) (inr (room, refl, in_room, refl, refl))
            | inr out ↦ rw out (inl (access_denied, refl, refl))
          ]

      abbrev react_by : Option Claims → Server R C L Z G
      react_by o = elim o [
        | none ↦ error R C L Z G id unauthenticated s
        | some c ↦ react_as json now second new_id id c.sub message_id emoji s
      ]

      react_as-emitted :
          (c : Claims)
          → let s' = react_as json now second new_id id c.sub message_id emoji s in
            ((code : Code) × (s'.reactions ≡ s.reactions)
              × (s'.emitted ≡ s.emitted ++ to_socket id (chat_error code) ∷ []))
            ⊎ ((room : Room) × (message_room json second message_id s ≡ some room)
                × (has_access R C L Z G second c.sub room s ≡ true)
                × (s'.reactions ≡ toggled_by c)
                × (s'.emitted
                    ≡ s.emitted
                      ++ to_room room (
                          chat_reaction_update message_id
                            (group_reactions (find_all (on_message message_id) (toggled_by c))))
                        ∷ []))
      react_as-emitted c = elim (Bool-cases (check_rate_limit Z c.sub now s.reacts).0) [
        | inl fine ↦ rw fine (
            react_in-emitted c (record s { reacts = (check_rate_limit Z c.sub now s.reacts).1 })
              refl)
        | inr over ↦ rw over (inl (rate_limited, refl, refl))
      ]

      handle_react-claims :
          {o : Option Claims}
          → claims_of (socket R C L Z G id s) ≡ o
          → handle_react json now second new_id id message_id emoji s ≡ react_by o
      unfolding handle_react
      handle_react-claims known = ap react_by known

      -- A call of `handleReact` emits one thing: an error to the socket, and then no reaction has
      -- changed, or the new reactions of the message to the message's own room and to no other, and
      -- this only for a user who has access to that room, whose reaction is the one that is turned over.
      pub handle_react-emitted :
          let s' = handle_react json now second new_id id message_id emoji s in
          ((code : Code) × (s'.reactions ≡ s.reactions)
            × (s'.emitted ≡ s.emitted ++ to_socket id (chat_error code) ∷ []))
          ⊎ ((c : Claims) × (room : Room) × (claims_of (socket R C L Z G id s) ≡ some c)
              × (message_room json second message_id s ≡ some room)
              × (has_access R C L Z G second c.sub room s ≡ true)
              × (s'.reactions ≡ toggled_by c)
              × (s'.emitted
                  ≡ s.emitted
                    ++ to_room room (
                        chat_reaction_update message_id
                          (group_reactions (find_all (on_message message_id) (toggled_by c))))
                      ∷ []))
      handle_react-emitted = elim (Option-cases (claims_of (socket R C L Z G id s))) [
        | inl nobody ↦
            let done = handle_react-claims nobody in
            inl (unauthenticated, ap (λ x. x.reactions) done, ap (λ x. x.emitted) done)
        | inr (c, known) ↦
            let done = handle_react-claims known in
            let rows_done = ap (λ x. x.reactions) done in
            let sent = ap (λ x. x.emitted) done in
            elim (react_as-emitted c) [
              | inl (code, kept, told) ↦ inl (code, rows_done ∙ kept, sent ∙ told)
              | inr (room, at, in_room, rows, told) ↦
                  inr (c, room, known, at, in_room, rows_done ∙ rows, sent ∙ told)
            ]
      ]
