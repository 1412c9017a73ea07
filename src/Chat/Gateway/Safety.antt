-- ===== src/Chat/Gateway/Safety.antt =====
-- Who may send, and what the room is shown: `handleSend` of src/modules/chat/chat.gateway.ts.

use myride_api.Common.{
  ℕ, ◌≡◌, refl, ap, ◌∙◌, ◌⊎◌, inl, inr, String, true, false, Option, some, none, [], ◌∷◌, ◌++◌,
  Bool-cases, Option-cases, find_first, slice_units,
}
use myride_api.Redis.{Redis}
use myride_api.Auth.{User}
use myride_api.Chat.{ChatMessage, FormattedMessage}
use myride_api.Chat.Access
use myride_api.Chat.Limits
use myride_api.Chat.Limits.{check_flood_control}
use myride_api.Chat.Window.{SortedSets}
use myride_api.Chat.Stream
use myride_api.Chat.Stream.{Group, message_with_id, enqueue}
use myride_api.Chat.History.{user_of}
use myride_api.Chat.Posting.{
  SendMessageDto, queue_message, formatted, queued_message, reply_snapshot, resolve_reply_snapshot,
  queued_with_id, newest_entries, name_of, snapshot_of, stored_snapshot,
}
use myride_api.Chat.Gateway.{
  Claims, Code, signed_claims, chat_error, chat_message, to_socket, to_room, Server,
  unauthenticated,
}
use myride_api.Chat.Gateway.Handlers.{
  claims_of, socket, author_of, has_access, flood_checked, room_of_dto, handle_send, send_as, error,
}

module _ (R : Redis Access.Key) (C : Redis ℕ) (L : Redis Limits.Key) (Z : SortedSets ℕ)
    (G : Group) where
  -- A sender whose flood control and room access are in order.
  abbrev pub MaySend : (second : ℕ) → Claims → SendMessageDto → Server R C L Z G → Type 0
  MaySend second c dto s =
      ((check_flood_control L c.sub second s.flood).0 ≡ true)
      × (has_access R C L Z G second c.sub (room_of_dto dto)
            (flood_checked R C L Z G c.sub second s)
          ≡ true)

  -- The stream of the message's room, as `queueMessage` sees it.
  abbrev pub room_stream : SendMessageDto → Server R C L Z G → Stream.State G
  room_stream dto s = record {
    store = s.streams dto.room_type dto.room_id;
    messages = s.messages;
    depth_errors = s.depth_errors;
  }

  -- What is broadcast.
  abbrev pub broadcast :
      (escape : String → String) (now new_id : ℕ)
      → Claims
      → SendMessageDto
      → Server R C L Z G
      → FormattedMessage
  broadcast escape now new_id c dto s = formatted (author_of c) (
      queued_message escape now new_id (author_of c) dto
        (reply_snapshot G s.users dto.reply_to_id (room_stream dto s)))

  module _ (escape : String → String) (now second new_id entry_id id : ℕ) (dto : SendMessageDto)
      (s : Server R C L Z G) where
    abbrev after : Server R C L Z G
    after = handle_send R C L Z G escape now second new_id entry_id id dto s

    send_as-emitted :
        (c : Claims)
        → let s' = send_as R C L Z G escape now second new_id entry_id id c dto s in
          ((code : Code) × (s'.emitted ≡ s.emitted ++ to_socket id (chat_error code) ∷ []))
          ⊎ (MaySend second c dto s
              × (s'.emitted
                  ≡ s.emitted
                    ++ to_room
                        (room_of_dto dto)
                        (chat_message (broadcast escape now new_id c dto s))
                      ∷ []))
    unfolding queue_message enqueue
    send_as-emitted c = elim (Bool-cases (check_flood_control L c.sub second s.flood).0) [
      | inr over ↦ rw over (inl (Code.flood_control, refl))
      | inl fine ↦
          elim (Bool-cases (
            has_access R C L Z G second c.sub (room_of_dto dto)
              (flood_checked R C L Z G c.sub second s))) [
                | inr out ↦ rw (fine, out) (inl (Code.access_denied, refl))
                | inl in_room ↦ rw (fine, in_room) (inr ((refl, refl), refl))
              ]
    ]

    abbrev send_by : Option Claims → Server R C L Z G
    send_by o = elim o [
      | none ↦ error R C L Z G id unauthenticated s
      | some c ↦ send_as R C L Z G escape now second new_id entry_id id c dto s
    ]

    handle_send-claims :
        {o : Option Claims} → claims_of (socket R C L Z G id s) ≡ o → after ≡ send_by o
    unfolding handle_send
    handle_send-claims known = ap send_by known

    -- A call of `handleSend` emits one thing: an error to the socket, or the message to the room that
    -- the request names and to no other, and this only for a user who is not over the flood limit and
    -- has access to that room.
    pub handle_send-emitted :
        ((code : Code) × ((handle_send R C L Z G escape now second new_id entry_id id dto s).emitted
            ≡ s.emitted ++ to_socket id (chat_error code) ∷ []))
        ⊎ ((c : Claims) × (claims_of (socket R C L Z G id s) ≡ some c)
            × MaySend second c dto s
            × ((handle_send R C L Z G escape now second new_id entry_id id dto s).emitted
                ≡ s.emitted
                  ++ to_room (room_of_dto dto) (chat_message (broadcast escape now new_id c dto s))
                    ∷ []))
    handle_send-emitted = elim (Option-cases (claims_of (socket R C L Z G id s))) [
      | inl nobody ↦ inl (unauthenticated, ap (λ x. x.emitted) (handle_send-claims nobody))
      | inr (c, known) ↦
          let sent = ap (λ x. x.emitted) (handle_send-claims known) in
          elim (send_as-emitted c) [
            | inl (code, e) ↦ inl (code, sent ∙ e)
            | inr (may, e) ↦ inr (c, known, may, sent ∙ e)
          ]
    ]

    -- Whoever signed in with a token of `generateTokens`, whatever name the account has, is shown to
    -- the room without it: what a call emits is an error, or a message whose sender is called Unknown
    -- and has no picture.
    pub handle_send-signed_claims :
        (u : User)
        → claims_of (socket R C L Z G id s) ≡ some (signed_claims u)
        → ((code : Code) × ((handle_send R C L Z G escape now second new_id entry_id id dto
                s).emitted
              ≡ s.emitted ++ to_socket id (chat_error code) ∷ []))
          ⊎ ((m : FormattedMessage) × (m.sender
                ≡ some (record { id = u.id; name = "Unknown"; avatar_url = none }))
              × ((handle_send R C L Z G escape now second new_id entry_id id dto s).emitted
                  ≡ s.emitted ++ to_room (room_of_dto dto) (chat_message m) ∷ []))
    handle_send-signed_claims u known =
        let sent = ap (λ x. x.emitted) (handle_send-claims known) in
        elim (send_as-emitted (signed_claims u)) [
          | inl (code, e) ↦ inl (code, sent ∙ e)
          | inr (may, e) ↦ inr (broadcast escape now new_id (signed_claims u) dto s, refl, sent ∙ e)
        ]

    -- A reply shows its room the beginning of any stored message that its sender names, of whatever
    -- room: the sender must only be allowed to send to the room of the reply, the message must not be
    -- deleted, and its id must not be among the newest 200 entries of the reply's room.
    pub handle_send-quotes :
        (c : Claims) (m : ChatMessage)
        → claims_of (socket R C L Z G id s) ≡ some c
        → MaySend second c dto s
        → dto.reply_to_id ≡ some m.id
        → find_first (message_with_id m.id) s.messages ≡ some m
        → m.is_deleted ≡ false
        → find_first
            (queued_with_id m.id)
            (newest_entries (G.entries (s.streams dto.room_type dto.room_id)))
          ≡ none
        → (f : FormattedMessage) × (f.reply_to
            ≡ some (record {
              id = m.id;
              content = slice_units 200 m.content;
              sender_name = name_of (user_of s.users m.sender_id);
            }))
          × ((handle_send R C L Z G escape now second new_id entry_id id dto s).emitted
              ≡ s.emitted ++ to_room (room_of_dto dto) (chat_message f) ∷ [])
    unfolding queue_message enqueue resolve_reply_snapshot
    handle_send-quotes c m known (fine, in_room) reply stored kept elsewhere =
        let quoted : (broadcast escape now new_id c dto s).reply_to
            ≡ some (record {
              id = m.id;
              content = slice_units 200 m.content;
              sender_name = name_of (user_of s.users m.sender_id);
            }) =
          ap (λ r. reply_snapshot G s.users r (room_stream dto s)) reply
          ∙ ap (λ o. snapshot_of s.users o (find_first (message_with_id m.id) s.messages)) elsewhere
          ∙ ap (stored_snapshot s.users) stored
          ∙ rw kept refl in
        (
          broadcast escape now new_id c dto s,
          quoted,
          ap (λ x. x.emitted) (handle_send-claims known) ∙ rw (fine, in_room) refl,
        )
