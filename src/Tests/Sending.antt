-- ===== src/Tests/Sending.antt =====
-- Users 8 and 9 send to the room of trip 1; user 8 quotes a message of trip 2, and reacts.
use Prim.Native.Char.{Char, code}
use myride_api.Common.{
  ℕ, zero, suc, String, ap, true, ◌≡◌, ◌⊎◌, refl, some, none, Option, [], ◌∷◌, ◌++◌, find_first,
  slice_units, ◌==◌, if◌then◌else◌, find_all,
}
use myride_api.Chat.{RoomType, ChatMessage, FormattedMessage}
use myride_api.Chat.Access.{check_room_access}
use myride_api.Chat.Limits.{check_flood_control}
use myride_api.Chat.Window.{by_user}
use myride_api.Chat.Stream.{lists, message_with_id, to_message}
use myride_api.Chat.History.{user_of}
use myride_api.Chat.Posting.{SendMessageDto, name_of, newest_entries, queued_with_id}
use myride_api.Chat.Gateway.{
  Room, chat_reaction_update, Claims, Code, signed_claims, chat_error, chat_message, to_socket,
  to_room,
}
use myride_api.Chat.Gateway.Handlers.{claims_of, socket, room_of_dto, handle_send, has_access}
use myride_api.Chat.Gateway.Safety.{
  MaySend, broadcast, handle_send-emitted, handle_send-signed_claims, handle_send-quotes,
}
use myride_api.Chat.Reactions.{group_reactions, on_message}
use myride_api.Chat.Gateway.Reacting.{
  RoomJson, handle_react, message_room, toggled_by, handle_react-emitted,
}
use myride_api.Tests.Rooms.{message}
use myride_api.Tests.Messages.{cache, counters, rooms_of, Chats, eight, dto, server}

handle_send-emitted_example :
    ((code : Code) × ((handle_send cache rooms_of counters by_user lists
          (λ s. s)
          5
          6
          14
          1
          1
          dto
          server).emitted
        ≡ [] ++ to_socket 1 (chat_error code) ∷ []))
    ⊎ ((c : Claims) × (claims_of (socket cache rooms_of counters by_user lists 1 server) ≡ some c)
        × MaySend cache rooms_of counters by_user lists 6 c dto server
        × ((handle_send cache rooms_of counters by_user lists
              (λ s. s)
              5
              6
              14
              1
              1
              dto
              server).emitted
            ≡ []
              ++ to_room (room_of_dto dto) (
                  chat_message
                    (broadcast cache rooms_of counters by_user lists (λ s. s) 5 14 c dto server))
                ∷ []))
handle_send-emitted_example =
    handle_send-emitted cache rooms_of counters by_user lists (λ s. s) 5 6 14 1 1 dto server

signed_in :
    claims_of (socket cache rooms_of counters by_user lists 1 server) ≡ some (signed_claims eight)
unfolding find_first
signed_in = refl

handle_send-signed_claims_example :
    ((code : Code) × ((handle_send cache rooms_of counters by_user lists
          (λ s. s)
          5
          6
          14
          1
          1
          dto
          server).emitted
        ≡ [] ++ to_socket 1 (chat_error code) ∷ []))
    ⊎ ((m : FormattedMessage) × (m.sender
          ≡ some (record { id = 8; name = "Unknown"; avatar_url = none }))
        × ((handle_send cache rooms_of counters by_user lists
              (λ s. s)
              5
              6
              14
              1
              1
              dto
              server).emitted
            ≡ [] ++ to_room (room_of_dto dto) (chat_message m) ∷ []))
handle_send-signed_claims_example =
    handle_send-signed_claims cache rooms_of counters by_user lists (λ s. s) 5 6 14 1 1 dto server
      eight signed_in

-- A message of the private trip 2.
abbrev secret : ChatMessage
secret = to_message (record (message 21) { room_id = 2 })

abbrev with_secret : Chats
with_secret = record server { messages = secret ∷ [] }

abbrev quoting : SendMessageDto
quoting = record { room_type = RoomType.trip; room_id = 1; content = "see"; reply_to_id = some 21 }

may_send : MaySend cache rooms_of counters by_user lists 6 (signed_claims eight) quoting with_secret
unfolding check_flood_control check_room_access find_first
may_send = (refl, refl)

stored : find_first (message_with_id 21) with_secret.messages ≡ some secret
unfolding find_first
stored = refl

not_queued :
    find_first
      (queued_with_id 21)
      (newest_entries (lists.entries (with_secret.streams RoomType.trip 1)))
    ≡ none
unfolding find_first
not_queued = refl

handle_send-quotes_example :
    (f : FormattedMessage) × (f.reply_to
      ≡ some (record {
        id = 21;
        content = slice_units 200 secret.content;
        sender_name = name_of (user_of with_secret.users secret.sender_id);
      }))
    × ((handle_send cache rooms_of counters by_user lists
          (λ s. s)
          5
          6
          14
          1
          1
          quoting
          with_secret).emitted
        ≡ [] ++ to_room (room_of_dto quoting) (chat_message f) ∷ [])
handle_send-quotes_example =
    handle_send-quotes cache rooms_of counters by_user lists (λ s. s) 5 6 14 1 1 quoting with_secret
      (signed_claims eight) secret signed_in may_send refl stored refl not_queued

-- A room as a letter and as many strokes as its id says.
abbrev strokes : ℕ → String
strokes zero = String.[]
strokes (suc n) = String.◌∷◌ "i" (strokes n)

abbrev count_strokes : String → ℕ
count_strokes String.[] = 0
count_strokes (String.◌∷◌ c s) = suc (count_strokes s)

abbrev letter : RoomType → Char
letter RoomType.trip = "t"
letter RoomType.community = "c"

abbrev print_room : Room → String
print_room room = String.◌∷◌ (letter room.room_type) (strokes room.room_id)

abbrev parse_room : String → Option Room
parse_room String.[] = none
parse_room (String.◌∷◌ c s) = some (record {
  room_type = if code c == 116 then RoomType.trip else RoomType.community;
  room_id = count_strokes s;
})

count_strokes-strokes : (n : ℕ) → count_strokes (strokes n) ≡ n
count_strokes-strokes zero = refl
count_strokes-strokes (suc n) = ap (λ k. suc k) (count_strokes-strokes n)

of_letter :
    (t : RoomType) (n : ℕ)
    → parse_room (String.◌∷◌ (letter t) (strokes n)) ≡ some (record { room_type = t; room_id = n })
of_letter RoomType.trip n =
    ap (λ k. some (record { room_type = RoomType.trip; room_id = k })) (count_strokes-strokes n)
of_letter RoomType.community n =
    ap (λ k. some (record { room_type = RoomType.community; room_id = k }))
      (count_strokes-strokes n)

parse_room-print_room : (room : Room) → parse_room (print_room room) ≡ some room
parse_room-print_room room = of_letter room.room_type room.room_id

abbrev json : RoomJson
json = record { print = print_room; parse = parse_room; parse-print = parse_room-print_room }

handle_react-emitted_example :
    let s' = handle_react cache rooms_of counters by_user lists json 5 6 1 1 11 "+" server in
    ((code : Code) × (s'.reactions ≡ []) × (s'.emitted ≡ [] ++ to_socket 1 (chat_error code) ∷ []))
    ⊎ ((c : Claims) × (room : Room) × (claims_of
            (socket cache rooms_of counters by_user lists 1 server)
          ≡ some c)
        × (message_room cache rooms_of counters by_user lists json 6 11 server ≡ some room)
        × (has_access cache rooms_of counters by_user lists 6 c.sub room server ≡ true)
        × (s'.reactions
            ≡ toggled_by cache rooms_of counters by_user lists json 6 11 5 1 1 "+" server c)
        × (s'.emitted
            ≡ []
              ++ to_room room (
                  chat_reaction_update 11 (
                    group_reactions (
                      find_all (on_message 11) (
                        toggled_by cache rooms_of counters by_user lists json 6 11 5 1 1 "+" server
                          c))))
                ∷ []))
handle_react-emitted_example =
    handle_react-emitted cache rooms_of counters by_user lists json 6 11 5 1 1 "+" server
