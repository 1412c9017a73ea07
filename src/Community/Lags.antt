-- ===== src/Community/Lags.antt =====
-- What each method of CommunityService does to the distance between member_count and the members.
use myride_api.Common.{
  ℕ, ◌+◌, ◌≡◌, refl, Bool, true, false, ◌&&◌, none, some, [], ◌∷◌, ◌++◌, map, arith, ◌==◌, is_some,
  is_ok, if◌then◌else◌, inl, inr, ◌⊎◌, Option-cases, Bool-cases, Distinct, find_first, update_where,
}
use myride_api.Entities.{member}
use myride_api.Community.{
  CommunityMember, Db, community_with_id, member_row, active_row, new_member, reactivate,
  deactivate, join, leave, kick_member,
}
use myride_api.Community.Counts.{
  Lags, count_up, count_down, insert-Lags, drop-Lags, reactivate-Lags,
}

-- Whether a join was accepted for a user who had a row already.
abbrev pub rejoins : (now new_id community_id user_id : ℕ) → Db → Bool
rejoins now new_id community_id user_id db =
    is_ok (join now new_id community_id user_id db).0
    && is_some (find_first (member_row community_id user_id) db.members)

module _ (now new_id community_id user_id : ℕ) (db : Db) where
  join_first :
      find_first (member_row community_id user_id) db.members ≡ none
      → let db' = (join now new_id community_id user_id db).1 in
        (db' ≡ db)
        ⊎ ((db'.members ≡ db.members ++ new_member now new_id community_id user_id member ∷ [])
            × (db'.communities
                ≡ update_where (community_with_id community_id) count_up db.communities))
  unfolding join
  join_first e = ground arith

  join_again :
      {m : CommunityMember}
      → find_first (member_row community_id user_id) db.members ≡ some m
      → let (r, db') = join now new_id community_id user_id db in
        ((is_ok r ≡ false) × (db' ≡ db))
        ⊎ ((is_ok r ≡ true)
            × (m.is_active ≡ false)
            × (db'.members ≡ update_where (λ y. y.id == m.id) reactivate db.members)
            × (db'.communities ≡ db.communities))
  unfolding join
  join_again e = ground arith

-- A join moves the count of the joined community with its members, except that a user who comes
-- back is not counted: then the count lags one further behind. Other communities stay as they are.
pub join-Lags :
    (x k now new_id community_id user_id : ℕ) (db : Db)
    → Distinct (map (λ m. m.id) db.members)
    → Lags x k db.communities db.members
    → let db' = (join now new_id community_id user_id db).1 in
      Lags x
        (k + (if x == community_id && rejoins now new_id community_id user_id db then 1 else 0))
        db'.communities
        db'.members
join-Lags x k now new_id community_id user_id db ids h =
    elim (Option-cases (find_first (member_row community_id user_id) db.members)) [
      | inl single ↦
          let none_added : k
                + (if x == community_id && rejoins now new_id community_id user_id db then 1 else 0)
              ≡ k =
            ground (arith, single) in
          elim (join_first now new_id community_id user_id db single) [
            | inl same ↦ rw (none_added, same) h
            | inr (added, counted) ↦
                rw (none_added, added, counted) (insert-Lags x k db.communities db.members h _ refl)
          ]
      | inr (m, found) ↦ elim (join_again now new_id community_id user_id db found) [
        | inl (failed, same) ↦
            let none_added : k
                  + (if x == community_id && rejoins now new_id community_id user_id db
                      then 1
                      else 0)
                ≡ k =
              ground (arith, failed) in
            rw (none_added, same) h
        | inr (done, idle, saved, kept) ↦
            let added : k
                  + (if x == community_id && rejoins now new_id community_id user_id db
                      then 1
                      else 0)
                ≡ k + (if x == community_id then 1 else 0) =
              ground (arith, done, found) in
            rw (added, saved, kept)
              (reactivate-Lags x k db.communities db.members h ids community_id user_id m found
                idle)
      ]
    ]

-- What `leave` and `kickMember` write.
abbrev pub Drops : (community_id user_id : ℕ) → Db → Db → Type 0
Drops community_id user_id db db' =
    (db' ≡ db)
    ⊎ ((m : CommunityMember) × (find_first (active_row community_id user_id) db.members ≡ some m)
        × (db'.members ≡ update_where (λ y. y.id == m.id) deactivate db.members)
        × (db'.communities
            ≡ update_where (community_with_id community_id) count_down db.communities))

Drops-Lags :
    (x k community_id user_id : ℕ) (db db' : Db)
    → Distinct (map (λ m. m.id) db.members)
    → Lags x k db.communities db.members
    → Drops community_id user_id db db'
    → Lags x k db'.communities db'.members
Drops-Lags x k community_id user_id db db' ids h (inl same) = rw same h
Drops-Lags x k community_id user_id db db' ids h (inr (m, found, saved, counted)) =
    rw (saved, counted) (drop-Lags x k db.communities db.members h ids community_id user_id m found)

leave-Drops :
    (community_id user_id : ℕ) (db : Db)
    → Drops community_id user_id db (leave community_id user_id db).1
unfolding leave
leave-Drops community_id user_id db =
    elim (Option-cases (find_first (active_row community_id user_id) db.members)) [
      | inl missing ↦ inl (ground arith)
      | inr (m, found) ↦ elim (Bool-cases (is_ok (leave community_id user_id db).0)) [
        | inl done ↦ inr (m, found, ground arith, ground arith)
        | inr failed ↦ inl (ground arith)
      ]
    ]

kick_member-Drops :
    (community_id user_id admin_id : ℕ) (db : Db)
    → Drops community_id user_id db (kick_member community_id user_id admin_id db).1
unfolding kick_member
kick_member-Drops community_id user_id admin_id db =
    elim (Option-cases (find_first (active_row community_id user_id) db.members)) [
      | inl missing ↦ inl (ground arith)
      | inr (m, found) ↦
          elim (Bool-cases (is_ok (kick_member community_id user_id admin_id db).0)) [
            | inl done ↦ inr (m, found, ground arith, ground arith)
            | inr failed ↦ inl (ground arith)
          ]
    ]

-- Leaving moves the count with the members, in every community.
pub leave-Lags :
    (x k community_id user_id : ℕ) (db : Db)
    → Distinct (map (λ m. m.id) db.members)
    → Lags x k db.communities db.members
    → let db' = (leave community_id user_id db).1 in Lags x k db'.communities db'.members
leave-Lags x k community_id user_id db ids h =
    Drops-Lags x k community_id user_id db _ ids h (leave-Drops community_id user_id db)

-- Kicking a member moves the count with the members, in every community.
pub kick_member-Lags :
    (x k community_id user_id admin_id : ℕ) (db : Db)
    → Distinct (map (λ m. m.id) db.members)
    → Lags x k db.communities db.members
    → let db' = (kick_member community_id user_id admin_id db).1 in
      Lags x k db'.communities db'.members
kick_member-Lags x k community_id user_id admin_id db ids h =
    Drops-Lags x k community_id user_id db _ ids h
      (kick_member-Drops community_id user_id admin_id db)
