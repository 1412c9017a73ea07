-- ===== src/Chat.antt =====
-- Chat rooms: src/modules/chat/chat.service.ts and the entities beside it.
pub mod Stream
pub mod Access
pub mod Limits
pub mod Window
pub mod History
pub mod Posting
pub mod Gateway
pub mod Worker
pub mod Rest
pub mod Reactions
use myride_api.Common.{ℕ, String, Bool, true, false, Option, none, List}

pub data RoomType : Type 0 where
  trip community : RoomType

pub record ReplyToSnapshot : Type 0 where
  pub id : ℕ
  pub content : String
  pub sender_name : String

-- What a room's stream carries.
pub data MessageType : Type 0 where
  text system : MessageType

pub record QueuedMessage : Type 0 where
  pub id : ℕ
  pub room_type : RoomType
  pub room_id : ℕ
  pub sender_id : ℕ
  pub sender_name : String
  pub sender_avatar : Option String
  pub content : String
  pub reply_to : Option ReplyToSnapshot
  pub created_at : ℕ

pub record ChatMessage : Type 0 where
  pub id : ℕ
  pub room_type : RoomType
  pub room_id : ℕ
  pub sender_id : Option ℕ
  pub message_type : MessageType
  pub content : String
  pub reply_to : Option ReplyToSnapshot
  pub is_pinned : Bool
  pub is_deleted : Bool
  pub created_at : ℕ
  pub deleted_at : Option ℕ

pub record MessageReaction : Type 0 where
  pub id : ℕ
  pub message_id : ℕ
  pub user_id : ℕ
  pub emoji : String

pub record Sender : Type 0 where
  pub id : ℕ
  pub name : String
  pub avatar_url : Option String

-- What a client gets of a message; the reactions are the users of each emoji.
pub record FormattedMessage : Type 0 where
  pub id : ℕ
  pub room_type : RoomType
  pub room_id : ℕ
  pub sender : Option Sender
  pub content : String
  pub message_type : MessageType
  pub reply_to : Option ReplyToSnapshot
  pub reactions : List (String × List ℕ)
  pub created_at : ℕ
  pub is_deleted : Bool
