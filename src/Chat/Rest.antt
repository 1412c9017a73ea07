-- ===== src/Chat/Rest.antt =====
-- src/modules/chat/chat.controller.ts: the history and the reactions of a room over HTTP.
use myride_api.Common.{
  ℕ, ◌≡◌, refl, String, Bool, true, not, Option, some, none, List, find_all, ok, Action, gets,
  throw, throw_if, ◌>>=◌, ◌>>◌,
}
use myride_api.Auth.{User}
use myride_api.Redis.{Redis}
use myride_api.Chat.{RoomType, ChatMessage, MessageReaction, FormattedMessage}
use myride_api.Chat.Access
use myride_api.Chat.Access.{check_room_access}
use myride_api.Chat.History.{history}
use myride_api.Chat.Reactions.{on_message, group_reactions}
use myride_api.Chat.Gateway.Handlers.{granted}

pub data Error : Type 0 where
  bad_room_type not_a_member : Error

module _ (R : Redis Access.Key) where
  pub record State : Type 0 where
    pub access : Access.State R
    pub messages : List ChatMessage
    pub reactions : List MessageReaction
    pub users : List User

  abbrev pub Method : Type 0 → Type 0
  Method A = Action State Error A

  abbrev pub access_of : (now user_id : ℕ) → RoomType → (room_id : ℕ) → Method Bool
  access_of now user_id room_type room_id s =
      let (answer, access) = check_room_access R now user_id (some room_type) room_id s.access in
      (ok (granted answer), record s { access = access })

  -- `getHistory` of the service: the access check, then the page.
  abbrev pub room_history :
      (now user_id : ℕ)
      → RoomType
      → (room_id : ℕ) (before limit : Option ℕ) → Method (List FormattedMessage)
  room_history now user_id room_type room_id before limit = do
    has_access ← access_of now user_id room_type room_id
    throw_if (not has_access) not_a_member
    gets λ (s : State). history room_type room_id before limit s.users s.reactions s.messages

  -- A room type that is neither 'trip' nor 'community' is none.
  unfoldable pub get_history :
      (now user_id : ℕ)
      → Option RoomType
      → (room_id : ℕ) (before limit : Option ℕ) → Method (List FormattedMessage)
  get_history now user_id none room_id before limit = throw bad_room_type
  get_history now user_id (some room_type) room_id before limit =
      room_history now user_id room_type room_id before limit

  abbrev pub room_reactions :
      (now user_id : ℕ) → RoomType → (room_id message_id : ℕ) → Method (List (String × List ℕ))
  room_reactions now user_id room_type room_id message_id = do
    has_access ← access_of now user_id room_type room_id
    throw_if (not has_access) not_a_member
    gets λ (s : State). group_reactions (find_all (on_message message_id) s.reactions)

  unfoldable pub get_reactions :
      (now user_id : ℕ)
      → Option RoomType
      → (room_id message_id : ℕ) → Method (List (String × List ℕ))
  get_reactions now user_id none room_id message_id = throw bad_room_type
  get_reactions now user_id (some room_type) room_id message_id =
      room_reactions now user_id room_type room_id message_id

  -- A user who has access to some room is shown the reactions to any message, of whatever room: the
  -- message is not looked up in the room that the request names.
  pub get_reactions-any_message :
      (now user_id : ℕ) (room_type : RoomType) (room_id message_id : ℕ) (s : State)
      → granted (check_room_access R now user_id (some room_type) room_id s.access).0 ≡ true
      → (get_reactions now user_id (some room_type) room_id message_id s).0
        ≡ ok (group_reactions (find_all (on_message message_id) s.reactions))
  unfolding get_reactions
  get_reactions-any_message now user_id room_type room_id message_id s in_room = rw in_room refl
