-- ===== src/Tests/Messages.antt =====
-- A chat server with user 8 and user 9 in the room of trip 1, and its messages.
use myride_api.Common.{
  ℕ, ◌≡◌, ◌≢◌, ◌≤◌, ◌<◌, refl, true, false, not, some, none, Option, List, [], ◌∷◌, ◌++◌, map, ok,
  find_first, find_all, count_where, length, sort_by, insert_by, ◌==◌, ==_iff, arith,
}
use myride_api.Store.{Db, Effect}
use myride_api.Trips.Membership.{leave_trip}
use myride_api.Redis.{Redis, table}
use myride_api.Auth.{User}
use myride_api.Chat.{RoomType, ChatMessage}
use myride_api.Chat.Access
use myride_api.Chat.Access.{check_room_access}
use myride_api.Chat.Limits
use myride_api.Chat.Limits.{check_flood_control}
use myride_api.Chat.Window.{by_user, granted}
use myride_api.Chat.Window.Laws.{granted-check_rate_limit}
use myride_api.Chat.Window.Scores.{in_window}
use myride_api.Chat.Stream.{lists, State, flush_stream, message_with_id, to_message}
use myride_api.Chat.History.{format_message}
use myride_api.Chat.History.Pages.{whole_history}
use myride_api.Chat.History.Walk.{load_more, load_more-whole_history}
use myride_api.Chat.Posting.{SendMessageDto, Author, queue_message}
use myride_api.Chat.Posting.Laws.{queue_message-flush_stream}
use myride_api.Chat.Gateway.{
  Room, Claims, Socket, signed_claims, chat_kicked, to_socket, is_of, receivers, same_room,
  evict_user_from_room, Server,
}
use myride_api.Chat.Gateway.Handlers.{has_access}
use myride_api.Chat.Gateway.Eviction.{evict_user_from_room-receivers}
use myride_api.Departure.{trip_room, deliver_all, leave_trip-deliver_all}
use myride_api.Tests.{db, db-IsConsistent, no_repeats-Distinct}
use myride_api.Tests.Rooms.{message}

abbrev pub cache : Redis Access.Key
cache = table Access.same_key Access.same_key_iff

abbrev pub counters : Redis Limits.Key
counters = table Limits.same_key Limits.same_key_iff

abbrev pub rooms_of : Redis ℕ
rooms_of = table ◌==◌ ==_iff

abbrev pub eight : User
eight = record {
  id = 8;
  phone = "9";
  name = some "A";
  profile_photo_url = none;
  is_verified = true;
  is_active = true;
  is_onboarding_complete = true;
  refresh_token = none;
  created_at = 0;
}

abbrev pub nine : Claims
nine = record { sub = 9; name = none; profile_photo_url = none }

abbrev pub messages : List ChatMessage
messages = to_message (message 11) ∷ to_message (message 12) ∷ to_message (message 13) ∷ []

abbrev pub Chats : Type 0
Chats = Server cache rooms_of counters by_user lists

abbrev after_leave : Db
after_leave = (leave_trip 6 1 8 db).1

abbrev server_of : Db → Chats
server_of d = record {
  access = record {
    store = λ k. none;
    tables = record { participants = d.participants; members = [] };
  };
  message_rooms = λ k. none;
  flood = λ k. none;
  reacts = λ k. none;
  streams = λ t id. ([], ([], []));
  depth_errors = [];
  active_streams = [];
  messages = messages;
  reactions = [];
  users = eight ∷ [];
  sockets =
      record { id = 1; user = some (signed_claims eight); rooms = trip_room 1 ∷ [] }
      ∷ record { id = 2; user = some nine; rooms = trip_room 1 ∷ [] }
      ∷ [];
  emitted = [];
}

abbrev pub server : Chats
server = server_of db

left : (leave_trip 6 1 8 db).0 ≡ ok tt
unfolding leave_trip find_first
left = refl

leave_trip-deliver_all_example :
    (sent : List Effect) × (after_leave.outbox ≡ [] ++ sent)
    × ((later : ℕ)
        → has_access cache rooms_of counters by_user lists later 8
            (trip_room 1)
            (deliver_all cache rooms_of counters by_user lists sent (server_of after_leave))
          ≡ false)
    × (receivers
          (trip_room 1)
          (deliver_all cache rooms_of counters by_user lists sent (server_of after_leave)).sockets
        ≡ find_all (λ k. not (is_of 8 k)) (receivers (trip_room 1) (server_of after_leave).sockets))
leave_trip-deliver_all_example =
    leave_trip-deliver_all cache rooms_of counters by_user lists 6 1 8 db (server_of after_leave)
      db-IsConsistent left refl

evict_user_from_room-receivers_example :
    let s' = evict_user_from_room cache rooms_of counters by_user lists (trip_room 1) 8 server in
    (receivers (trip_room 1) s'.sockets
      ≡ find_all (λ k. not (is_of 8 k)) (receivers (trip_room 1) server.sockets))
    × ((other : Room)
        → same_room other (trip_room 1) ≡ false
        → map (λ (k : Socket). k.id) (receivers other s'.sockets)
          ≡ map (λ (k : Socket). k.id) (receivers other server.sockets))
    × (s'.emitted
        ≡ []
          ++ map
              (λ (k : Socket). to_socket k.id (chat_kicked (trip_room 1)))
              (find_all (is_of 8) (receivers (trip_room 1) server.sockets)))
evict_user_from_room-receivers_example =
    evict_user_from_room-receivers cache rooms_of counters by_user lists (trip_room 1) 8 server

three : length (whole_history RoomType.trip 1 messages) < 4
unfolding find_all sort_by insert_by
three = omega arith

abbrev two : Option ℕ
two = some 2

two_asked : two ≢ some 0
two_asked e = absurd (ground arith)

load_more-whole_history_example :
    load_more RoomType.trip 1 (some 2) messages 4 none ≡ whole_history RoomType.trip 1 messages
load_more-whole_history_example =
    load_more-whole_history RoomType.trip 1 (some 2) messages
      (no_repeats-Distinct (map (λ (m : ChatMessage). m.id) messages) refl) two_asked 4 three

abbrev calls : List ℕ
calls = 100000 ∷ 100500 ∷ 170000 ∷ []

granted-check_rate_limit_example :
    count_where (in_window 100600) (granted by_user 8 calls (λ k. none)) ≤ 60
granted-check_rate_limit_example =
    granted-check_rate_limit by_user 8 90000 calls (λ k. none) (omega arith)
      (omega arith, (omega arith, (omega arith, tt))) 100600

abbrev author : Author
author = record { id = 8; name = some "A"; profile_photo_url = none }

abbrev pub dto : SendMessageDto
dto = record { room_type = RoomType.trip; room_id = 1; content = " hi "; reply_to_id = some 11 }

abbrev empty_stream : State lists
empty_stream = record { store = ([], ([], [])); messages = messages; depth_errors = [] }

not_stored : find_first (message_with_id 14) messages ≡ none
unfolding find_first
not_stored = refl

queue_message-flush_stream_example :
    let (answer, queued) =
      queue_message lists (λ s. s) 5 14 1 (eight ∷ []) author dto empty_stream in
    let flushed = (flush_stream lists true 7 1 50 queued).1 in
    (m : ChatMessage) × (find_first (message_with_id 14) flushed.messages ≡ some m)
    × (m.sender_id ≡ some 8)
    × (answer ≡ ok (format_message m (some eight) []))
queue_message-flush_stream_example =
    queue_message-flush_stream lists (λ s. s) 5 14 1 (eight ∷ []) author dto 7 1 49 empty_stream
      eight refl not_stored (refl, refl, refl)
