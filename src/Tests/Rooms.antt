-- ===== src/Tests/Rooms.antt =====
-- Chat rooms, with a stream that is two lists and a store that holds a function.
use myride_api.Common.{
  ℕ, ◌+◌, ◌≡◌, ◌≢◌, refl, true, false, some, none, List, [], ◌∷◌, ◌++◌, map, find_first, Result, ok,
  err, is_some, All, Distinct, min, length, take, drop, ltb, if◌then◌else◌, count_where, arith,
  or_else,
}
use myride_api.Redis.{Redis, table}
use myride_api.Chat.{RoomType, QueuedMessage, ChatMessage, MessageReaction}
use myride_api.Chat.Stream.{Entry, lists, State, flush_stream, message_with_id, to_message}
use myride_api.Chat.Stream.Laws.{pending_entry}
use myride_api.Chat.Stream.Flush.{flush_stream-saves}
use myride_api.Chat.Stream.Loss.{Event, flush, run, flush_stream-loses}
use myride_api.Chat.Access
use myride_api.Chat.Reactions
use myride_api.Chat.Access.{
  Key, same_key, same_key_iff, Tables, check_room_access, invalidate_room_access_cache,
  is_room_member, ttl,
}
use myride_api.Chat.Access.Laws.{check_room_access-stale}
use myride_api.Chat.Reactions.{Db, Reacted, reaction_of, toggled, toggle_reaction, group_reactions}
use myride_api.Chat.Reactions.Laws.{listed, toggle_reaction-listed}
use myride_api.Tests.{db}

abbrev pub message : ℕ → QueuedMessage
message id = record {
  id = id;
  room_type = RoomType.trip;
  room_id = 1;
  sender_id = 8;
  sender_name = "A";
  sender_avatar = none;
  content = "hi";
  reply_to = none;
  created_at = id;
}

abbrev pub entry : ℕ → Entry
entry id = record { entry_id = id; message = message (id + 10) }

abbrev pub stream : State lists
stream = record {
  store = (entry 1 ∷ entry 2 ∷ [], ([], entry 1 ∷ entry 2 ∷ []));
  messages = [];
  depth_errors = [];
}

flush_stream-saves_example :
    let s' = (flush_stream lists true 0 1 1 stream).1 in
    ((flush_stream lists true 0 1 1 stream).0 ≡ ok (min 1 (length (entry 1 ∷ entry 2 ∷ []))))
    × (s'.store.0 ≡ drop 1 (entry 1 ∷ entry 2 ∷ []))
    × All
        (λ e. find_first (pending_entry e.entry_id) (lists.pending s'.store) ≡ none)
        (take 1 (entry 1 ∷ entry 2 ∷ []))
    × All
        (λ e.
          find_first (message_with_id e.message.id) s'.messages
          ≡ some (or_else (find_first (message_with_id e.message.id) []) (to_message e.message)))
        (take 1 (entry 1 ∷ entry 2 ∷ []))
    × ((new : List ChatMessage) × (s'.messages ≡ [] ++ new))
    × Distinct (map (λ m. m.id) s'.messages)
flush_stream-saves_example = flush_stream-saves lists 0 1 1 stream tt (tt, tt)

differs : All (λ x. (x.entry_id ≢ 1) × (x.message.id ≢ 11)) (entry 2 ∷ [])
differs = (((λ e. absurd (omega arith)), (λ e. absurd (omega arith))), tt)

not_saved : find_first (message_with_id 11) stream.messages ≡ none
unfolding find_first
not_saved = refl

abbrev events : List (Event lists)
events = flush true 9000 1 50 ∷ flush true 20000 2 50 ∷ []

flush_stream-loses_example :
    let s' = run lists events (flush_stream lists false 0 1 50 stream).1 in
    (find_first (message_with_id 11) s'.messages ≡ none)
    × (is_some (find_first (pending_entry 1) s'.store.1.0) ≡ true)
flush_stream-loses_example =
    flush_stream-loses lists 0 1 49 stream (entry 1) (entry 2 ∷ []) events refl differs not_saved
      (tt, (tt, tt))

abbrev pub cache : Redis Key
cache = table same_key same_key_iff

abbrev pub room : Access.State cache
room = record {
  store = λ k. none;
  tables = record { participants = db.participants; members = [] };
}

abbrev emptied : Tables
emptied = record { participants = []; members = [] }

check_room_access-stale_example :
    let first = check_room_access cache 0 8 (some RoomType.trip) 1 room in
    let answer = is_room_member RoomType.trip 1 8 room.tables in
    (first.0 ≡ ok answer)
    × ((check_room_access cache 299 8
          (some RoomType.trip)
          1
          (record first.1 { tables = emptied })).0
        ≡ ok (
            if ltb 299 (0 + (if answer then 300 else 30))
            then answer
            else is_room_member RoomType.trip 1 8 emptied))
check_room_access-stale_example =
    check_room_access-stale cache 0 299 8 1 RoomType.trip room emptied refl

abbrev smile : MessageReaction
smile = record { id = 1; message_id = 11; user_id = 8; emoji = "s" }

abbrev reactions : Db
reactions = record { messages = to_message (message 11) ∷ []; reactions = smile ∷ [] }

abbrev reacted_or : Result Reactions.Error Reacted → Reacted
reacted_or (ok r) = r
reacted_or (err e) = record { room_type = RoomType.trip; room_id = 0; reactions = [] }

toggled_off :
    (toggle_reaction none 2 9 11 "s" reactions).0
    ≡ ok (reacted_or (toggle_reaction none 2 9 11 "s" reactions).0)
unfolding toggle_reaction find_first
toggled_off = refl

toggle_reaction-listed_example :
    (listed "s" 8 (reacted_or (toggle_reaction none 2 9 11 "s" reactions).0).reactions
      ≡ count_where (reaction_of 11 8 "s") (toggle_reaction none 2 9 11 "s" reactions).1.reactions)
    × ((toggle_reaction none 2 9 11 "s" reactions).1.reactions
        ≡ toggled 2 11 9 "s" reactions.reactions)
toggle_reaction-listed_example = toggle_reaction-listed none 2 9 11 "s" "s" 8 reactions toggled_off
