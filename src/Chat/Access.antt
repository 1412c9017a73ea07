-- ===== src/Chat/Access.antt =====
-- `checkRoomAccess` and `invalidateRoomAccessCache` of src/modules/chat/chat.service.ts: who may enter
-- a room, and the cache of the answers. Times are in seconds.
pub mod Laws
use text.Mathlib.Text.{◌==◌ as str_eq}
use myride_api.Common.{
  ℕ, ◌+◌, ◌≡◌, ◌↔◌, refl, subst, Bool, true, false, ◌&&◌, Option, some, none, List, ◌==◌, arith,
  is_some, if◌then◌else◌, Action, find_first, pure, gets, modify, ◌>>=◌, ◌>>◌,
}
use myride_api.Entities.{TripParticipant}
use myride_api.Store.{approved_row}
use myride_api.Community.{CommunityMember}
use myride_api.Redis.{Redis, Value, number, string, value_at}
use myride_api.Chat.{RoomType}

-- chat:access:{type}:{room}:{user}
pub data Key : Type 0 where
  access_key : RoomType → (room_id user_id : ℕ) → Key

abbrev pub same_room_type : RoomType → RoomType → Bool
same_room_type RoomType.trip RoomType.trip = true
same_room_type RoomType.community RoomType.community = true
same_room_type _ _ = false

abbrev pub same_key : Key → Key → Bool
same_key (access_key t r u) (access_key t' r' u') = same_room_type t t' && r == r' && u == u'

same_room_type_to : (a b : RoomType) → same_room_type a b ≡ true → a ≡ b
same_room_type_to RoomType.trip RoomType.trip h = refl
same_room_type_to RoomType.community RoomType.community h = refl
same_room_type_to RoomType.trip RoomType.community h = cc
same_room_type_to RoomType.community RoomType.trip h = cc

same_room_type_refl : (a : RoomType) → same_room_type a a ≡ true
same_room_type_refl RoomType.trip = refl
same_room_type_refl RoomType.community = refl

pub same_room_type_iff : (a b : RoomType) → (same_room_type a b ≡ true) ↔ (a ≡ b)
same_room_type_iff a b =
    (same_room_type_to a b, (λ e. subst (λ t. same_room_type a t ≡ true) e (same_room_type_refl a)))

same_key_to : (a b : Key) → same_key a b ≡ true → a ≡ b
same_key_to (access_key t r u) (access_key t' r' u') h = ground (arith, same_room_type_to t t')

same_key_refl : (a : Key) → same_key a a ≡ true
same_key_refl (access_key RoomType.trip r u) = ground arith
same_key_refl (access_key RoomType.community r u) = ground arith

pub same_key_iff : (a b : Key) → (same_key a b ≡ true) ↔ (a ≡ b)
same_key_iff a b = (same_key_to a b, λ e. subst (λ k. same_key a k ≡ true) e (same_key_refl a))

-- `{ community_id, user_id, is_active: true }`
abbrev pub active_member : (community_id user_id : ℕ) → CommunityMember → Bool
active_member community_id user_id m =
    m.community_id == community_id && m.user_id == user_id && m.is_active

pub record Tables : Type 0 where
  pub participants : List TripParticipant
  pub members : List CommunityMember

-- The query behind the cache.
abbrev pub is_room_member : RoomType → (room_id user_id : ℕ) → Tables → Bool
is_room_member RoomType.trip room_id user_id tables =
    is_some (find_first (approved_row room_id user_id) tables.participants)
is_room_member RoomType.community room_id user_id tables =
    is_some (find_first (active_member room_id user_id) tables.members)

abbrev pub ttl : Bool → ℕ
ttl has_access = if has_access then 300 else 30

-- '1' and '0'
abbrev pub cached_value : Bool → Value
cached_value has_access = string (if has_access then "1" else "0")

-- `cached === '1'`, on a key that is not absent.
abbrev pub is_granted : Value → Bool
is_granted (string s) = str_eq s "1"
is_granted (number n) = false

module _ (R : Redis Key) where
  pub record State : Type 0 where
    pub store : R.Store
    pub tables : Tables

  pub data Error : Type 0 where

  abbrev pub Method : Type 0 → Type 0
  Method A = Action State Error A

  -- The part behind a cache miss.
  abbrev pub look_up : ℕ → RoomType → (room_id user_id : ℕ) → Method Bool
  look_up now room_type room_id user_id = do
    has_access ← gets λ (s : State). is_room_member room_type room_id user_id s.tables
    modify λ s. record s {
      store =
          R.set_ex (access_key room_type room_id user_id) (cached_value has_access)
            (now + ttl has_access) s.store;
    }
    pure has_access

  abbrev pub answer : ℕ → RoomType → (room_id user_id : ℕ) → Option Value → Method Bool
  answer now room_type room_id user_id (some v) = pure (is_granted v)
  answer now room_type room_id user_id none = look_up now room_type room_id user_id

  -- A room type that is neither of the two is `none`.
  unfoldable pub check_room_access :
      (now user_id : ℕ) → Option RoomType → (room_id : ℕ) → Method Bool
  check_room_access now user_id none room_id = pure false
  check_room_access now user_id (some room_type) room_id = do
    cached ←
        gets λ (s : State). value_at now (R.view s.store (access_key room_type room_id user_id))
    answer now room_type room_id user_id cached

  unfoldable pub invalidate_room_access_cache :
      (user_id : ℕ) → RoomType → (room_id : ℕ) → Method (Unit {0})
  invalidate_room_access_cache user_id room_type room_id =
      modify λ s. record s { store = R.del (access_key room_type room_id user_id) s.store }
