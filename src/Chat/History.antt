-- ===== src/Chat/History.antt =====
-- `getHistory` and `formatMessage` of src/modules/chat/chat.service.ts: the messages of a room in pages,
-- from the newest to the oldest. The ids are uuids, of which the database orders by their value.
pub mod Laws
pub mod Pages
pub mod Walk
use myride_api.Common.{
  ℕ, String, Bool, true, false, not, ◌&&◌, ◌||◌, Option, some, none, List, [], ◌∷◌, map, take, min,
  reverse, or_else, ◌==◌, leb, ltb, if◌then◌else◌, find_first, find_all, sort_by,
}
use myride_api.Auth.{User}
use myride_api.Chat.{RoomType, ChatMessage, MessageReaction, Sender, FormattedMessage}
use myride_api.Chat.Access.{same_room_type}
use myride_api.Chat.Stream.{message_with_id}
use myride_api.Chat.Reactions.{group_reactions}

-- ORDER BY "createdAt" DESC, id DESC
abbrev pub newest_first : ChatMessage → ChatMessage → Bool
newest_first a b = ltb b.created_at a.created_at || (a.created_at == b.created_at && leb b.id a.id)

-- Of the room, and not deleted.
abbrev pub in_room : RoomType → (room_id : ℕ) → ChatMessage → Bool
in_room room_type room_id m =
    same_room_type m.room_type room_type && m.room_id == room_id && not m.is_deleted

-- `m.createdAt < cursorTime OR (m.createdAt = cursorTime AND m.id < cursorId)`
abbrev pub precedes : ChatMessage → ChatMessage → Bool
precedes cursor m =
    ltb m.created_at cursor.created_at || (m.created_at == cursor.created_at && ltb m.id cursor.id)

-- `if (cursor) qb.andWhere(…)`
abbrev pub after_cursor : Option ChatMessage → ChatMessage → Bool
after_cursor none m = true
after_cursor (some cursor) m = precedes cursor m

-- `before` may be missing, or be the id of no message.
abbrev pub cursor_of : Option ℕ → List ChatMessage → Option ChatMessage
cursor_of none messages = none
cursor_of (some before) messages = find_first (message_with_id before) messages

abbrev pub max_page : ℕ
max_page = 100

unfoldable pub page :
    RoomType
    → (room_id : ℕ) (before : Option ℕ) (limit : Option ℕ) → List ChatMessage
    → List ChatMessage
page room_type room_id before limit messages = take (min (or_else limit 50) max_page) (
    sort_by newest_first (
      find_all (λ m. in_room room_type room_id m && after_cursor (cursor_of before messages) m)
        messages))

-- The joined row of `m.sender`.
abbrev pub user_of : List User → Option ℕ → Option User
user_of users none = none
user_of users (some id) = find_first (λ u. u.id == id) users

abbrev pub format_sender : Option User → Option Sender
format_sender none = none
format_sender (some u) =
    some (record { id = u.id; name = or_else u.name "Unknown"; avatar_url = u.profile_photo_url })

abbrev pub format_message : ChatMessage → Option User → List MessageReaction → FormattedMessage
format_message m sender reactions = record {
  id = m.id;
  room_type = m.room_type;
  room_id = m.room_id;
  sender = format_sender sender;
  content = if m.is_deleted then "This message was deleted." else m.content;
  message_type = m.message_type;
  reply_to = m.reply_to;
  reactions = group_reactions reactions;
  created_at = m.created_at;
  is_deleted = m.is_deleted;
}

-- What `getHistory` answers, once it has checked that the user is in the room.
unfoldable pub history :
    RoomType
    → (room_id : ℕ) (before : Option ℕ) (limit : Option ℕ) → List User
    → List MessageReaction
    → List ChatMessage
    → List FormattedMessage
unfolding page
history room_type room_id before limit users reactions messages =
    map
      (λ (m : ChatMessage).
        format_message m (user_of users m.sender_id)
          (find_all (λ (r : MessageReaction). r.message_id == m.id) reactions))
      (reverse (page room_type room_id before limit messages))
