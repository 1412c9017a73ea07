-- ===== src/Chat/Posting.antt =====
-- `queueMessage` and `resolveReplySnapshot` of src/modules/chat/chat.service.ts: a message is put on the
-- room's stream and answered at once. `escape` is `encode` of html-entities, the uuid and the stream's
-- entry id are arguments, and Redis answers.
pub mod Laws
use mathlib.Core.Option
use myride_api.Common.{
  ℕ, String, Bool, true, false, Option, some, none, List, [], ◌∷◌, take, reverse, or_else, ◌==◌,
  find_first, trim, slice_units, pure, gets, ◌>>=◌, ◌>>◌, not, if◌then◌else◌,
}
use myride_api.Auth.{User}
use myride_api.Chat.{
  RoomType, ReplyToSnapshot, QueuedMessage, ChatMessage, FormattedMessage, Sender, text,
}
use myride_api.Chat.Stream.{Entry, Group, State, Method, message_with_id, enqueue}
use myride_api.Chat.History.{user_of}

pub record SendMessageDto : Type 0 where
  pub room_type : RoomType
  pub room_id : ℕ
  pub content : String
  pub reply_to_id : Option ℕ

-- `Pick<User, 'id' | 'name' | 'profile_photo_url'>`
pub record Author : Type 0 where
  pub id : ℕ
  pub name : Option String
  pub profile_photo_url : Option String

abbrev pub snapshot_length : ℕ
snapshot_length = 200

abbrev pub queued_with_id : ℕ → Entry → Bool
queued_with_id id e = e.message.id == id

abbrev pub queued_snapshot : QueuedMessage → ReplyToSnapshot
queued_snapshot q = record {
  id = q.id;
  content = slice_units snapshot_length q.content;
  sender_name = q.sender_name;
}

-- `parent.sender?.name ?? 'Unknown'`
abbrev pub name_of : Option User → String
name_of none = "Unknown"
name_of (some u) = or_else u.name "Unknown"

-- `if (parent && !parent.isDeleted) { … } return null`
abbrev pub stored_snapshot : List User → Option ChatMessage → Option ReplyToSnapshot
stored_snapshot users none = none
stored_snapshot users (some m) =
    if m.is_deleted
    then none
    else some (record {
      id = m.id;
      content = slice_units snapshot_length m.content;
      sender_name = name_of (user_of users m.sender_id);
    })

abbrev pub snapshot_of : List User → Option Entry → Option ChatMessage → Option ReplyToSnapshot
snapshot_of users (some e) stored = some (queued_snapshot e.message)
snapshot_of users none stored = stored_snapshot users stored

-- XREVRANGE key + - COUNT 200: the newest entries, newest first.
abbrev pub newest_entries : List Entry → List Entry
newest_entries entries = take 200 (reverse entries)

abbrev pub queued_message :
    (escape : String → String) (now new_id : ℕ)
    → Author
    → SendMessageDto
    → Option ReplyToSnapshot
    → QueuedMessage
queued_message escape now new_id author dto reply_to = record {
  id = new_id;
  room_type = dto.room_type;
  room_id = dto.room_id;
  sender_id = author.id;
  sender_name = or_else author.name "Unknown";
  sender_avatar = author.profile_photo_url;
  content = escape (trim dto.content);
  reply_to = reply_to;
  created_at = now;
}

-- What the sender and the room get at once.
abbrev pub formatted : Author → QueuedMessage → FormattedMessage
formatted author q = record {
  id = q.id;
  room_type = q.room_type;
  room_id = q.room_id;
  sender = some (record {
    id = author.id;
    name = or_else author.name "Unknown";
    avatar_url = author.profile_photo_url;
  });
  content = q.content;
  message_type = text;
  reply_to = q.reply_to;
  reactions = [];
  created_at = q.created_at;
  is_deleted = false;
}

module _ (G : Group) where
  unfoldable pub resolve_reply_snapshot : List User → ℕ → State G → Option ReplyToSnapshot
  resolve_reply_snapshot users reply_to_id s =
      snapshot_of users
        (find_first (queued_with_id reply_to_id) (newest_entries (G.entries s.store)))
        (find_first (message_with_id reply_to_id) s.messages)

  -- `if (dto.reply_to_id) …`
  abbrev pub reply_snapshot : List User → Option ℕ → State G → Option ReplyToSnapshot
  reply_snapshot users none s = none
  reply_snapshot users (some id) s = resolve_reply_snapshot users id s

  unfoldable pub queue_message :
      (escape : String → String) (now new_id entry_id : ℕ)
      → List User
      → Author
      → SendMessageDto
      → Method G FormattedMessage
  unfolding resolve_reply_snapshot
  queue_message escape now new_id entry_id users author dto = do
    reply_to ← gets λ (s : State G). reply_snapshot users dto.reply_to_id s
    enqueue G (record {
      entry_id = entry_id;
      message = queued_message escape now new_id author dto reply_to;
    })
    pure (formatted author (queued_message escape now new_id author dto reply_to))
