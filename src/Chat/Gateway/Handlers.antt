-- ===== src/Chat/Gateway/Handlers.antt =====
-- The events that clients send: `handleJoin`, `handleLeave`, `handleSend` and `handleTyping` of
-- src/modules/chat/chat.gateway.ts. WsJwtGuard lets pass a socket whose user is set, and the handlers
-- find it there. A room type that is neither 'trip' nor 'community' is none.

use myride_api.Common.{
  ℕ, String, Bool, false, not, ◌&&◌, Option, some, none, List, [], ◌==◌, or_else, find_first,
  if◌then◌else◌, Result, ok, err,
}
use myride_api.Redis.{Redis}
use myride_api.Chat.{FormattedMessage}
use myride_api.Chat.Access
use myride_api.Chat.Access.{check_room_access, same_room_type}
use myride_api.Chat.Limits
use myride_api.Chat.Limits.{check_flood_control}
use myride_api.Chat.Window.{SortedSets}
use myride_api.Chat.Stream
use myride_api.Chat.Stream.{Group, message_with_id}
use myride_api.Chat.Posting.{SendMessageDto, Author, queue_message}
use myride_api.Chat.Gateway.{
  Room, Claims, Socket, Code, unauthenticated, invalid_input, access_denied, flood_control,
  chat_error, chat_joined, chat_left, chat_message, chat_typing, to_socket, to_room, to_others,
  socket_with_id, has_room, enter, exit, Server, emit, update_socket, register_stream,
}

-- `socket.data.user`
abbrev pub claims_of : Option Socket → Option Claims
claims_of none = none
claims_of (some k) = k.user

abbrev pub rooms_of : Option Socket → List Room
rooms_of none = []
rooms_of (some k) = k.rooms

-- The access check raises no exception.
abbrev pub granted : {E : Type 0} → Result E Bool → Bool
granted (ok b) = b
granted (err e) = false

abbrev pub answer_of : Result Stream.Error FormattedMessage → Option FormattedMessage
answer_of (ok m) = some m
answer_of (err e) = none

abbrev pub author_of : Claims → Author
author_of c = record { id = c.sub; name = c.name; profile_photo_url = c.profile_photo_url }

abbrev pub room_of_dto : SendMessageDto → Room
room_of_dto dto = record { room_type = dto.room_type; room_id = dto.room_id }

module _ (R : Redis Access.Key) (C : Redis ℕ) (L : Redis Limits.Key) (Z : SortedSets ℕ)
    (G : Group) where
  abbrev State : Type 0
  State = Server R C L Z G

  abbrev pub socket : ℕ → State → Option Socket
  socket id s = find_first (socket_with_id id) s.sockets

  abbrev pub error : ℕ → Code → State → State
  error id code s = emit R C L Z G (to_socket id (chat_error code)) s

  -- `chatService.checkRoomAccess`: the answer, and the cache after it.
  abbrev pub has_access : (now user_id : ℕ) → Room → State → Bool
  has_access now user_id room s =
      granted (check_room_access R now user_id (some room.room_type) room.room_id s.access).0

  abbrev pub access_checked : (now user_id : ℕ) → Room → State → State
  access_checked now user_id room s = record s {
    access = (check_room_access R now user_id (some room.room_type) room.room_id s.access).1;
  }

  abbrev pub let_in : ℕ → Room → State → State
  let_in id room s =
      register_stream R C L Z G room (
        emit R C L Z G (to_socket id (chat_joined room))
          (update_socket R C L Z G id (enter room) s))

  abbrev pub join_room : (now id user_id : ℕ) → Room → State → State
  join_room now id user_id room s =
      let checked = access_checked now user_id room s in
      if has_access now user_id room s
      then let_in id room checked
      else error id access_denied checked

  unfoldable pub handle_join : (now id : ℕ) → Option Room → State → State
  handle_join now id room s = elim (claims_of (socket id s)) [
    | none ↦ error id invalid_input s
    | some c ↦ elim room [ none ↦ error id invalid_input s | some r ↦ join_room now id c.sub r s ]
  ]

  unfoldable pub handle_leave : (id : ℕ) → Room → State → State
  handle_leave id room s =
      emit R C L Z G (to_socket id (chat_left room)) (update_socket R C L Z G id (exit room) s)

  -- `queueMessage` on the stream of the message's room, and the broadcast.
  abbrev pub post :
      (escape : String → String) (now new_id entry_id : ℕ) → Claims → SendMessageDto → State → State
  post escape now new_id entry_id c dto s =
      let on_room : Stream.State G = record {
        store = s.streams dto.room_type dto.room_id;
        messages = s.messages;
        depth_errors = s.depth_errors;
      } in
      let (answer, queued) =
        queue_message G escape now new_id entry_id s.users (author_of c) dto on_room in
      let next : State = record s {
        streams = λ t id.
            if same_room_type t dto.room_type && id == dto.room_id
            then queued.store
            else s.streams t id;
      } in
      elim (answer_of answer) [
        | none ↦ next
        | some m ↦ emit R C L Z G (to_room (room_of_dto dto) (chat_message m)) next
      ]

  abbrev pub flood_checked : (user_id second : ℕ) → State → State
  flood_checked user_id second s = record s {
    flood = (check_flood_control L user_id second s.flood).1;
  }

  -- `now` is in milliseconds, and `second` the same in seconds, as Redis has it.
  abbrev pub send_as :
      (escape : String → String) (now second new_id entry_id id : ℕ)
      → Claims
      → SendMessageDto
      → State
      → State
  send_as escape now second new_id entry_id id c dto s =
      let room : Room = room_of_dto dto in
      let counted = flood_checked c.sub second s in
      if not (check_flood_control L c.sub second s.flood).0
      then error id flood_control counted
      else (let checked = access_checked second c.sub room counted in
          if not (has_access second c.sub room counted)
          then error id access_denied checked
          else post escape now new_id entry_id c dto checked)

  unfoldable pub handle_send :
      (escape : String → String) (now second new_id entry_id id : ℕ)
      → SendMessageDto
      → State
      → State
  handle_send escape now second new_id entry_id id dto s = elim (claims_of (socket id s)) [
    | none ↦ error id unauthenticated s
    | some c ↦ send_as escape now second new_id entry_id id c dto s
  ]

  abbrev pub type_in : (id : ℕ) → Claims → Room → State → State
  type_in id c room s =
      if not (has_room room (rooms_of (socket id s)))
      then s
      else emit R C L Z G (to_others id room (chat_typing room c.sub (or_else c.name "Someone"))) s

  unfoldable pub handle_typing : (id : ℕ) → Option Room → State → State
  handle_typing id room s = elim (claims_of (socket id s)) [
    | none ↦ s
    | some c ↦ elim room [ none ↦ s | some r ↦ type_in id c r s ]
  ]
