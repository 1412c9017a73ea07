-- ===== src/Chat/Worker/Draining.antt =====
-- What one drain of src/modules/chat/chat-flush.worker.ts reads of the rooms' streams.
use myride_api.Common.{
  ℕ, ◌≡◌, refl, ap, sym, subst, ◌∙◌, Bool, true, false, List, [], ◌∷◌, arith, inl, inr, Bool-cases,
  drop,
}
use myride_api.Chat.Access.{same_room_type_iff}
use myride_api.Chat.Stream.{Group, State, flush_stream}
use myride_api.Chat.Stream.Flush.{
  recovered, recovered-unread, flush_stream-eq, flush_new-available, flush_new-unavailable,
  acked-unread,
}
use myride_api.Chat.Gateway.{Room, same_room, has_room}
use myride_api.Chat.Worker.{batch_size, Rooms, room_state, flush_room, drain_all_streams}

same_room_refl : (a : Room) → same_room a a ≡ true
same_room_refl a = ground (arith, (same_room_type_iff a.room_type a.room_type).1 refl)

same_room_to : (a b : Room) → same_room a b ≡ true → a ≡ b
same_room_to a b h =
    let types : a.room_type ≡ b.room_type =
      (same_room_type_iff a.room_type b.room_type).0 (ground arith) in
    let ids : a.room_id ≡ b.room_id = ground arith in ground (arith, types, ids)

not_both : (b : Bool) → b ≡ true → b ≡ false → ⊥
not_both b h k = ground arith

same_room_sym : (a b : Room) → same_room a b ≡ false → same_room b a ≡ false
same_room_sym a b h = elim (Bool-cases (same_room b a)) [
  | inl same ↦
      let eq : b ≡ a = same_room_to b a same in
      absurd
        (not_both (same_room a b) (subst (λ k. same_room a k ≡ true) (sym eq) (same_room_refl a)) h)
  | inr differs ↦ differs
]

-- No room is listed twice, as in a Redis set.
abbrev pub AreDistinct : List Room → Type 0
AreDistinct [] = Unit
AreDistinct (r ∷ rs) = (has_room r rs ≡ false) × AreDistinct rs

module _ (G : Group) where
  -- A flush, whether its INSERT succeeds or not, hands out the oldest new entries, at most a batch.
  flush_stream-unread :
      (available : Bool) (now worker n : ℕ) (s : State G)
      → G.unread (flush_stream G available now worker n s).1.store ≡ drop n (G.unread s.store)
  flush_stream-unread true now worker n s =
      let s1 : State G = record s { store = recovered G now worker n s } in
      rw (flush_stream-eq G true now worker n s, flush_new-available G now worker n s1)
        (acked-unread G _ _ (G.read now worker n s1.store)
          ∙ G.unread-read now worker n s1.store
          ∙ ap (drop n) (recovered-unread G now worker n s))
  flush_stream-unread false now worker n s =
      let s1 : State G = record s { store = recovered G now worker n s } in
      rw (flush_stream-eq G false now worker n s, flush_new-unavailable G now worker n s1)
        (G.unread-read now worker n s1.store ∙ ap (drop n) (recovered-unread G now worker n s))

  flush_room-own :
      (available : Bool) (now worker : ℕ) (room : Room) (r : Rooms G)
      → G.unread ((flush_room G available now worker room r).streams room.room_type room.room_id)
        ≡ drop batch_size (G.unread (r.streams room.room_type room.room_id))
  unfolding flush_room
  flush_room-own available now worker room r =
      rw (same_room_refl room)
        (flush_stream-unread available now worker batch_size (room_state G room r))

  flush_room-other :
      (available : Bool) (now worker : ℕ) (room other : Room) (r : Rooms G)
      → same_room other room ≡ false
      → (flush_room G available now worker room r).streams other.room_type other.room_id
        ≡ r.streams other.room_type other.room_id
  unfolding flush_room
  flush_room-other available now worker room other r differs = rw differs refl

  drain-skips :
      (available : Room → Bool) (now worker : ℕ) (active : List Room) (r : Rooms G) (other : Room)
      → has_room other active ≡ false
      → (drain_all_streams G available now worker active r).streams other.room_type other.room_id
        ≡ r.streams other.room_type other.room_id
  unfolding drain_all_streams
  drain-skips available now worker [] r other h = refl
  drain-skips available now worker (room ∷ rooms) r other h =
      drain-skips available now worker rooms _ other (ground arith)
      ∙ flush_room-other (available room) now worker room other r
          (same_room_sym room other (ground arith))

  drain-takes :
      (available : Room → Bool) (now worker : ℕ) (active : List Room) (r : Rooms G) (room : Room)
      → AreDistinct active
      → has_room room active ≡ true
      → G.unread
          ((drain_all_streams G available now worker active r).streams room.room_type room.room_id)
        ≡ drop 50 (G.unread (r.streams room.room_type room.room_id))
  unfolding drain_all_streams
  drain-takes available now worker [] r room d h = absurd (ground arith)
  drain-takes available now worker (first ∷ rooms) r room (new, d) h =
      elim (Bool-cases (same_room first room)) [
        | inl own ↦
            let eq : first ≡ room = same_room_to first room own in
            ap (λ st. G.unread st)
              (drain-skips available now worker rooms _ room
                (subst (λ k. has_room k rooms ≡ false) eq new))
            ∙ subst
                (λ k.
                  G.unread (
                    (flush_room G (available first) now worker first r).streams k.room_type
                      k.room_id)
                  ≡ drop 50 (G.unread (r.streams k.room_type k.room_id)))
                eq (flush_room-own (available first) now worker first r)
        | inr other ↦
            drain-takes available now worker rooms _ room d (ground arith)
            ∙ ap (λ st. drop 50 (G.unread st))
                (flush_room-other (available first) now worker first room r
                  (same_room_sym first room other))
      ]

  -- A drain takes at most 50 new messages, the oldest ones, off the stream of each room in the set of
  -- active streams, whether they can be stored or not and whatever becomes of the other rooms, and
  -- leaves the stream of every room that is not in the set as it is.
  pub drain_all_streams-active :
      (available : Room → Bool) (now worker : ℕ) (active : List Room) (r : Rooms G) (room : Room)
      → AreDistinct active
      → let r' = drain_all_streams G available now worker active r in
        (has_room room active ≡ true
          → G.unread (r'.streams room.room_type room.room_id)
            ≡ drop 50 (G.unread (r.streams room.room_type room.room_id)))
        × (has_room room active ≡ false
            → r'.streams room.room_type room.room_id ≡ r.streams room.room_type room.room_id)
  drain_all_streams-active available now worker active r room d = (
    drain-takes available now worker active r room d,
    drain-skips available now worker active r room,
  )
