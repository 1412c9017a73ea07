-- ===== src/Chat/Gateway.antt =====
-- The state behind src/modules/chat/chat.gateway.ts: the sockets and the rooms they are in, what was
-- emitted, and the parts of the chat service that the handlers call; and who is let in and thrown out.
-- Socket.IO's rooms are the lists of the sockets; the token library's `verify` is an argument.
pub mod Handlers
pub mod Eviction
pub mod Safety
pub mod Reacting
use Prim.Native.String.{slice, len}
use text.Mathlib.Text.{starts_with}
use myride_api.Common.{
  ℕ, String, Bool, true, false, not, ◌&&◌, ◌||◌, Option, some, none, List, [], ◌∷◌, ◌++◌, map, ◌==◌,
  is_some, find_first, find_all, update_where, delete_where, if◌then◌else◌, pure, gets, modify,
  ◌>>=◌, ◌>>◌, Action,
}
use myride_api.Redis.{Redis, Value, string, value_at}
use myride_api.Auth.{User}
use myride_api.Chat.{RoomType, ChatMessage, MessageReaction, FormattedMessage}
use myride_api.Chat.Access
use myride_api.Chat.Access.{same_room_type}
use myride_api.Chat.Limits
use myride_api.Chat.Window.{SortedSets}
use myride_api.Chat.Stream.{Group, message_with_id}
use myride_api.Chat.Stream

pub record Room : Type 0 where
  pub room_type : RoomType
  pub room_id : ℕ

abbrev pub same_room : Room → Room → Bool
same_room a b = same_room_type a.room_type b.room_type && a.room_id == b.room_id

-- A verified token's payload: `sub`, and the columns that the handlers look for.
pub record Claims : Type 0 where
  pub sub : ℕ
  pub name : Option String
  pub profile_photo_url : Option String

-- The payload that `generateTokens` of src/modules/auth/auth.service.ts signs is `{ sub, phone }`.
abbrev pub signed_claims : User → Claims
signed_claims u = record { sub = u.id; name = none; profile_photo_url = none }

-- `user` is `socket.data.user`, and `handshake` the token that the client sent.
pub record Socket : Type 0 where
  pub id : ℕ
  pub user : Option Claims
  pub rooms : List Room

pub data Code : Type 0 where
  unauthenticated token_invalid invalid_input access_denied flood_control : Code
  rate_limited message_not_found : Code

pub data Event : Type 0 where
  chat_error : Code → Event
  chat_joined chat_left chat_kicked : Room → Event
  chat_message : FormattedMessage → Event
  chat_reaction_update : (message_id : ℕ) → List (String × List ℕ) → Event
  chat_typing : Room → (user_id : ℕ) → (name : String) → Event

-- `socket.emit`, `server.to(room).emit` and `socket.to(room).emit`.
pub data Emit : Type 0 where
  to_socket : (socket_id : ℕ) → Event → Emit
  to_room : Room → Event → Emit
  to_others : (socket_id : ℕ) → Room → Event → Emit

abbrev pub socket_with_id : ℕ → Socket → Bool
socket_with_id id s = s.id == id

abbrev pub has_room : Room → List Room → Bool
has_room room [] = false
has_room room (r ∷ rs) = same_room r room || has_room room rs

abbrev pub enter : Room → Socket → Socket
enter room s = if has_room room s.rooms then s else record s { rooms = s.rooms ++ room ∷ [] }

abbrev pub exit : Room → Socket → Socket
exit room s = record s { rooms = delete_where (λ r. same_room r room) s.rooms }

-- `sock.data.user?.sub === userId`
abbrev pub is_of : ℕ → Socket → Bool
is_of user_id s = elim s.user [ none ↦ false | some c ↦ c.sub == user_id ]

-- The sockets that get what is emitted to a room.
abbrev pub receivers : Room → List Socket → List Socket
receivers room sockets = find_all (λ s. has_room room s.rooms) sockets

-- `raw.startsWith('Bearer ') ? raw.slice(7) : raw`; an absent or an empty token is none.
abbrev pub extract_token : Option String → Option String
extract_token none = none
extract_token (some String.[]) = none
extract_token (some raw) = some (if starts_with raw "Bearer " then slice raw 7 (len raw) else raw)

-- `evictUserFromRoom`: the loop over the sockets of the room.
unfoldable pub evicted : Room → ℕ → List Socket → List Socket × List Emit
evicted room user_id [] = ([], [])
evicted room user_id (k ∷ ks) =
    let (rest, sent) = evicted room user_id ks in
    if has_room room k.rooms && is_of user_id k
    then (exit room k ∷ rest, to_socket k.id (chat_kicked room) ∷ sent)
    else (k ∷ rest, sent)

-- What the handlers share: the two caches, the counters, the streams of the rooms, the tables.
module _ (R : Redis Access.Key) (C : Redis ℕ) (L : Redis Limits.Key) (Z : SortedSets ℕ)
    (G : Group) where
  pub record Server : Type 0 where
    pub access : Access.State R
    -- chat:msg:room:{id}
    pub message_rooms : C.Store
    pub flood : L.Store
    pub reacts : Z.Store
    pub streams : RoomType → ℕ → G.Store
    pub depth_errors : List ℕ
    -- chat:active_streams, a set
    pub active_streams : List Room
    pub messages : List ChatMessage
    pub reactions : List MessageReaction
    pub users : List User
    pub sockets : List Socket
    pub emitted : List Emit

  abbrev pub Handler : Type 0
  Handler = Server → Server

  abbrev pub emit : Emit → Handler
  emit e s = record s { emitted = s.emitted ++ e ∷ [] }

  abbrev pub update_socket : ℕ → (Socket → Socket) → Handler
  update_socket id f s = record s { sockets = update_where (socket_with_id id) f s.sockets }

  -- The socket is gone, from every room too.
  abbrev pub disconnect : ℕ → Handler
  disconnect id s = record s { sockets = delete_where (socket_with_id id) s.sockets }

  abbrev pub refuse_connection : ℕ → Code → Handler
  refuse_connection id code s = disconnect id (emit (to_socket id (chat_error code)) s)

  abbrev pub accept_claims : ℕ → Option Claims → Handler
  accept_claims id none s = refuse_connection id token_invalid s
  accept_claims id (some c) s = update_socket id (λ k. record k { user = some c }) s

  abbrev pub check_token : (verify : String → Option Claims) → ℕ → Option String → Handler
  check_token verify id none s = refuse_connection id unauthenticated s
  check_token verify id (some token) s = accept_claims id (verify token) s

  -- `handleConnection`, of a socket that has just been opened with the token of its handshake.
  unfoldable pub handle_connection :
      (verify : String → Option Claims) (id : ℕ) (raw : Option String) → Handler
  handle_connection verify id raw s = check_token verify id (extract_token raw) s

  unfoldable pub evict_user_from_room : Room → ℕ → Handler
  unfolding evicted
  evict_user_from_room room user_id s =
      let (sockets, sent) = evicted room user_id s.sockets in
      record s { sockets = sockets; emitted = s.emitted ++ sent }

  -- `registerStream` of src/modules/chat/chat-flush.worker.ts: SADD to the set of active streams.
  abbrev pub register_stream : Room → Handler
  register_stream room s = record s {
    active_streams =
        if has_room room s.active_streams then s.active_streams else s.active_streams ++ room ∷ [];
  }
