-- ===== src/Chat/Access/Laws.antt =====
-- How long an answer about a room is kept.
use myride_api.Common.{
  ℕ, ◌+◌, ◌<◌, ◌≡◌, refl, ◌∙◌, ap, Bool, true, false, some, none, arith, if◌then◌else◌, ok, inl,
  inr, Bool-cases, ltb,
}
use myride_api.Redis.{Redis, Value, value_at}
use myride_api.Chat.{RoomType}
use myride_api.Chat.Access.{
  Key, access_key, Tables, is_room_member, ttl, cached_value, is_granted, State, check_room_access,
  invalidate_room_access_cache,
}

module _ (R : Redis Key) where
  check_room_access-miss :
      (now user_id room_id : ℕ) (room_type : RoomType) (s : State R)
      → value_at now (R.view s.store (access_key room_type room_id user_id)) ≡ none
      → check_room_access R now user_id (some room_type) room_id s ≡ (
        ok (is_room_member room_type room_id user_id s.tables),
        record s {
          store =
              R.set_ex
                (access_key room_type room_id user_id)
                (cached_value (is_room_member room_type room_id user_id s.tables))
                (now + ttl (is_room_member room_type room_id user_id s.tables))
                s.store;
        },
      )
  unfolding check_room_access
  check_room_access-miss now user_id room_id room_type s miss = rw miss refl

  check_room_access-hit :
      (now user_id room_id : ℕ) (room_type : RoomType) (s : State R) {v : Value}
      → value_at now (R.view s.store (access_key room_type room_id user_id)) ≡ some v
      → check_room_access R now user_id (some room_type) room_id s ≡ (ok (is_granted v), s)
  unfolding check_room_access
  check_room_access-hit now user_id room_id room_type s hit = rw hit refl

  is_granted-cached : (b : Bool) → is_granted (cached_value b) ≡ b
  is_granted-cached true = refl
  is_granted-cached false = refl

  cached_at :
      (now later : ℕ) (b : Bool)
      → later < now + ttl b
      → value_at later (some (record { value = cached_value b; deadline = some (now + ttl b) }))
        ≡ some (cached_value b)
  cached_at now later b early = ground arith

  -- An answer that is looked up is kept for 300 seconds if access is granted and for 30 if it is
  -- denied: until then the same question is answered the same, whatever has become of the tables;
  -- from then on the tables are asked again.
  pub check_room_access-stale :
      (now later user_id room_id : ℕ) (room_type : RoomType) (s : State R) (tables : Tables)
      → value_at now (R.view s.store (access_key room_type room_id user_id)) ≡ none
      → let first = check_room_access R now user_id (some room_type) room_id s in
        let answer = is_room_member room_type room_id user_id s.tables in
        (first.0 ≡ ok answer)
        × ((check_room_access R later user_id
              (some room_type)
              room_id
              (record first.1 { tables = tables })).0
            ≡ ok (
                if ltb later (now + (if answer then 300 else 30))
                then answer
                else is_room_member room_type room_id user_id tables))
  check_room_access-stale now later user_id room_id room_type s tables miss =
      let answer = is_room_member room_type room_id user_id s.tables in
      let key = access_key room_type room_id user_id in
      let entry = R.view-set_ex_self key (cached_value answer) (now + ttl answer) s.store in
      rw (check_room_access-miss now user_id room_id room_type s miss) (
        refl,
        elim (Bool-cases (ltb later (now + ttl answer))) [
          | inl early ↦
              ap (λ r. r.0)
                (check_room_access-hit later user_id room_id room_type _
                  (ap (value_at later) entry ∙ cached_at now later answer (ground arith)))
              ∙ ap (λ b. ok b) (is_granted-cached answer)
              ∙ rw early refl
          | inr late ↦
              ap (λ r. r.0)
                (check_room_access-miss later user_id room_id room_type _
                  (ap (value_at later) entry ∙ ground arith))
              ∙ rw late refl
        ],
      )

  -- After an invalidation the next question is answered from the tables, whatever was cached.
  pub check_room_access-invalidate :
      (now user_id room_id : ℕ) (room_type : RoomType) (s : State R)
      → (check_room_access R now user_id
          (some room_type)
          room_id
          (invalidate_room_access_cache R user_id room_type room_id s).1).0
        ≡ ok (is_room_member room_type room_id user_id s.tables)
  unfolding invalidate_room_access_cache
  check_room_access-invalidate now user_id room_id room_type s =
      ap (λ r. r.0)
        (check_room_access-miss now user_id room_id room_type _
          (ap (value_at now) (R.view-del_self (access_key room_type room_id user_id) s.store)))
