-- ===== src/Chat/Reactions.antt =====
-- `toggleReaction`, `getReactionsForMessage` and `groupReactions` of src/modules/chat/chat.service.ts,
-- with entities/message-reaction.entity.ts. What the cache holds for the message's room is an argument;
-- Chat.Gateway.Reacting reads and writes that cache.
pub mod Laws
use text.Mathlib.Text.{◌==◌ as str_eq}
use myride_api.Common.{
  ℕ, String, Bool, true, false, ◌&&◌, Option, some, none, List, [], ◌∷◌, ◌++◌, ◌==◌, is_some,
  if◌then◌else◌, Action, find_first, find_all, delete_where, pure, gets, modify, or_throw, throw_if,
  ◌>>=◌, ◌>>◌, not,
}
use myride_api.Chat.{RoomType, ChatMessage, MessageReaction}

pub record Db : Type 0 where
  pub messages : List ChatMessage
  pub reactions : List MessageReaction

pub data Error : Type 0 where
  message_not_found : Error

abbrev pub Method : Type 0 → Type 0
Method A = Action Db Error A

-- The unique key (message_id, user_id, emoji).
abbrev pub reaction_of : (message_id user_id : ℕ) (emoji : String) → MessageReaction → Bool
reaction_of message_id user_id emoji r =
    r.message_id == message_id && r.user_id == user_id && str_eq r.emoji emoji

abbrev pub on_message : ℕ → MessageReaction → Bool
on_message message_id r = r.message_id == message_id

-- `acc[emoji].push(user)`, with the emoji's key made where it is missing.
unfoldable pub add_to : String → ℕ → List (String × List ℕ) → List (String × List ℕ)
add_to emoji user_id [] = (emoji, user_id ∷ []) ∷ []
add_to emoji user_id ((e, users) ∷ groups) =
    if str_eq e emoji
    then (e, users ++ user_id ∷ []) ∷ groups
    else (e, users) ∷ add_to emoji user_id groups

unfoldable pub group_onto : List (String × List ℕ) → List MessageReaction → List (String × List ℕ)
group_onto acc [] = acc
group_onto acc (r ∷ rs) = group_onto (add_to r.emoji r.user_id acc) rs

abbrev pub group_reactions : List MessageReaction → List (String × List ℕ)
group_reactions rs = group_onto [] rs

abbrev pub new_reaction : (new_id message_id user_id : ℕ) (emoji : String) → MessageReaction
new_reaction new_id message_id user_id emoji = record {
  id = new_id;
  message_id = message_id;
  user_id = user_id;
  emoji = emoji;
}

-- INSERT … ON CONFLICT DO NOTHING, and DELETE where nothing was inserted.
unfoldable pub toggled :
    (new_id message_id user_id : ℕ) (emoji : String) → List MessageReaction → List MessageReaction
toggled new_id message_id user_id emoji rows =
    if is_some (find_first (reaction_of message_id user_id emoji) rows)
    then delete_where (reaction_of message_id user_id emoji) rows
    else rows ++ new_reaction new_id message_id user_id emoji ∷ []

-- What `toggleReaction` answers.
pub record Reacted : Type 0 where
  pub room_type : RoomType
  pub room_id : ℕ
  pub reactions : List (String × List ℕ)

-- `getMessageRoom`: what is cached, or else the room in the message's row.
abbrev pub message_room_of :
    (cached : Option (RoomType × ℕ)) (stored : Option ChatMessage) → Option (RoomType × ℕ)
message_room_of (some room) stored = some room
message_room_of none none = none
message_room_of none (some m) = some (m.room_type, m.room_id)

unfoldable pub toggle_reaction :
    (cached : Option (RoomType × ℕ)) (new_id user_id message_id : ℕ) (emoji : String)
    → Method Reacted
toggle_reaction cached new_id user_id message_id emoji = do
  stored ← gets λ (db : Db). find_first (λ m. m.id == message_id) db.messages
  room ← or_throw (message_room_of cached stored) message_not_found
  modify λ db. record db { reactions = toggled new_id message_id user_id emoji db.reactions }
  groups ← gets λ (db : Db). group_reactions (find_all (on_message message_id) db.reactions)
  pure (record { room_type = room.0; room_id = room.1; reactions = groups })

abbrev pub get_reactions_for_message : ℕ → Method (List (String × List ℕ))
get_reactions_for_message message_id =
    gets λ (db : Db). group_reactions (find_all (on_message message_id) db.reactions)
