-- ===== src/Chat/Gateway/Eviction.antt =====
-- `evictUserFromRoom` of src/modules/chat/chat.gateway.ts.
use myride_api.Common.{
  ℕ, ◌≡◌, refl, ap, true, false, not, List, [], ◌∷◌, ◌++◌, map, arith, inl, inr, Bool-cases,
  find_all, delete_where,
}
use myride_api.Redis.{Redis}
use myride_api.Chat.Access
use myride_api.Chat.Access.{same_room_type, same_room_type_iff}
use myride_api.Chat.Limits
use myride_api.Chat.Window.{SortedSets}
use myride_api.Chat.Stream.{Group}
use myride_api.Chat.Gateway.{
  Room, same_room, has_room, Socket, is_of, receivers, evicted, evict_user_from_room, Server,
  to_socket, chat_kicked,
}

same_room_trans :
    (a b c : Room) → same_room a b ≡ true → same_room c b ≡ false → same_room a c ≡ false
same_room_trans a b c h k = ground (
  arith,
  same_room_type_iff a.room_type b.room_type,
  same_room_type_iff c.room_type b.room_type,
  same_room_type_iff a.room_type c.room_type,
)

exited :
    (room : Room) (rs : List Room) → has_room room (delete_where (λ r. same_room r room) rs) ≡ false
unfolding delete_where
exited room [] = refl
exited room (r ∷ rs) = elim (Bool-cases (same_room r room)) [
  | inl hit ↦ rw hit (exited room rs)
  | inr miss ↦ rw miss (rw miss (exited room rs))
]

stayed :
    (room other : Room) (rs : List Room)
    → same_room other room ≡ false
    → has_room other (delete_where (λ r. same_room r room) rs) ≡ has_room other rs
unfolding delete_where
stayed room other [] h = refl
stayed room other (r ∷ rs) h = elim (Bool-cases (same_room r room)) [
  | inl hit ↦ rw (hit, same_room_trans r room other hit h) (stayed room other rs h)
  | inr miss ↦ rw (miss, stayed room other rs h) refl
]

evicted-receivers :
    (room : Room) (user_id : ℕ) (ks : List Socket)
    → receivers room (evicted room user_id ks).0
      ≡ find_all (λ k. not (is_of user_id k)) (receivers room ks)
unfolding evicted find_all
evicted-receivers room user_id [] = refl
evicted-receivers room user_id (k ∷ ks) = elim (Bool-cases (has_room room k.rooms)) [
  | inl there ↦ elim (Bool-cases (is_of user_id k)) [
    | inl own ↦ rw (there, own) (rw (exited room k.rooms) (evicted-receivers room user_id ks))
    | inr other ↦
        rw (there, other) (rw there (ap (λ xs. k ∷ xs) (evicted-receivers room user_id ks)))
  ]
  | inr away ↦ rw away (rw away (evicted-receivers room user_id ks))
]

evicted-elsewhere :
    (room other : Room) (user_id : ℕ) (ks : List Socket)
    → same_room other room ≡ false
    → map (λ (k : Socket). k.id) (receivers other (evicted room user_id ks).0)
      ≡ map (λ (k : Socket). k.id) (receivers other ks)
unfolding evicted find_all
evicted-elsewhere room other user_id [] h = refl
evicted-elsewhere room other user_id (k ∷ ks) h =
    ground (arith, stayed room other k.rooms h, evicted-elsewhere room other user_id ks h)

evicted-told :
    (room : Room) (user_id : ℕ) (ks : List Socket)
    → (evicted room user_id ks).1
      ≡ map
          (λ (k : Socket). to_socket k.id (chat_kicked room))
          (find_all (is_of user_id) (receivers room ks))
unfolding evicted find_all
evicted-told room user_id [] = refl
evicted-told room user_id (k ∷ ks) = ground (arith, evicted-told room user_id ks)

module _ (R : Redis Access.Key) (C : Redis ℕ) (L : Redis Limits.Key) (Z : SortedSets ℕ)
    (G : Group) where
  -- After an eviction a room reaches the sockets that it reached before, less those of the user,
  -- every other room reaches the same sockets, and each socket that was thrown out is told once.
  pub evict_user_from_room-receivers :
      (room : Room) (user_id : ℕ) (s : Server R C L Z G)
      → let s' = evict_user_from_room R C L Z G room user_id s in
        (receivers room s'.sockets
          ≡ find_all (λ k. not (is_of user_id k)) (receivers room s.sockets))
        × ((other : Room)
            → same_room other room ≡ false
            → map (λ (k : Socket). k.id) (receivers other s'.sockets)
              ≡ map (λ (k : Socket). k.id) (receivers other s.sockets))
        × (s'.emitted
            ≡ s.emitted
              ++ map
                  (λ (k : Socket). to_socket k.id (chat_kicked room))
                  (find_all (is_of user_id) (receivers room s.sockets)))
  unfolding evict_user_from_room
  evict_user_from_room-receivers room user_id s = (
    evicted-receivers room user_id s.sockets,
    (λ other differs. evicted-elsewhere room other user_id s.sockets differs),
    ap (λ xs. s.emitted ++ xs) (evicted-told room user_id s.sockets),
  )
