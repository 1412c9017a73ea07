-- ===== src/Community/Laws.antt =====
-- Who may do what in a community, and what membership is afterwards.
use myride_api.Common.{
  ℕ, ◌≡◌, ◌≢◌, true, false, some, none, List, map, arith, ◌==◌, inl, inr, ok, err, Option-cases,
  Bool-cases, All-intro, All-implies, Distinct, find_first, update_where, All-same_key,
  find_first-holds, find_first-update_where-none,
}
use myride_api.Community.{
  Community, CommunityMember, Db, community_not_found, community_with_id, active_community,
  active_row, deactivate, find_one, remove, leave, kick_member, is_member,
}

-- The columns of the unique constraint on community_member.
abbrev pub member_key : CommunityMember → ℕ × ℕ
member_key m = (m.community_id, m.user_id)

key_of_active :
    (community_id user_id : ℕ) (a b : CommunityMember)
    → active_row community_id user_id a ≡ true
    → active_row community_id user_id b ≡ true
    → member_key a ≡ member_key b
key_of_active community_id user_id a b p q = ground arith

deactivated-none :
    (community_id user_id : ℕ) (m : CommunityMember) (ms : List CommunityMember)
    → Distinct (map member_key ms)
    → find_first (active_row community_id user_id) ms ≡ some m
    → find_first (active_row community_id user_id) (update_where (λ y. y.id == m.id) deactivate ms)
      ≡ none
deactivated-none community_id user_id m ms keys found =
    let held : active_row community_id user_id m ≡ true =
      find_first-holds (active_row community_id user_id) ms found in
    find_first-update_where-none (active_row community_id user_id) (λ y. y.id == m.id) deactivate ms
      (All-implies _ _ ms
        (λ y. elim [
          | inl same ↦ inl (ground (arith, same), ground arith)
          | inr other ↦ elim (Bool-cases (y.id == m.id)) [
            | inl hit ↦ inl (hit, ground arith)
            | inr miss ↦ elim (Bool-cases (active_row community_id user_id y)) [
              | inl also ↦ absurd (other (key_of_active community_id user_id y m also held))
              | inr idle ↦ inr (miss, idle)
            ]
          ]
        ])
        (All-same_key member_key (λ y. y.id) (active_row community_id user_id) ms keys found))

-- A kick that is accepted came from the creator, was not aimed at the creator, and leaves the user
-- outside the community, if the table holds one row to a community and user.
pub kick_member-is_member :
    (community_id target_user_id admin_user_id : ℕ) (db : Db) {c : Community}
    → find_first (active_community community_id) db.communities ≡ some c
    → Distinct (map member_key db.members)
    → (kick_member community_id target_user_id admin_user_id db).0 ≡ ok tt
    → let db' = (kick_member community_id target_user_id admin_user_id db).1 in
      (c.created_by_user_id ≡ admin_user_id)
      × (target_user_id ≢ c.created_by_user_id)
      × ((is_member community_id target_user_id db).0 ≡ ok true)
      × ((is_member community_id target_user_id db').0 ≡ ok false)
unfolding kick_member is_member
kick_member-is_member community_id target_user_id admin_user_id db there keys done =
    elim (Option-cases (find_first (active_row community_id target_user_id) db.members)) [
      | inl missing ↦ absurd (ground arith)
      | inr (m, found) ↦ (
        ground arith,
        ground arith,
        ground arith,
        ground (arith, deactivated-none community_id target_user_id m db.members keys found),
      )
    ]

-- A user who leaves is no member afterwards, and the creator cannot leave.
pub leave-is_member :
    (community_id user_id : ℕ) (db : Db) {c : Community}
    → find_first (active_community community_id) db.communities ≡ some c
    → Distinct (map member_key db.members)
    → (leave community_id user_id db).0 ≡ ok tt
    → (c.created_by_user_id ≢ user_id)
      × ((is_member community_id user_id db).0 ≡ ok true)
      × ((is_member community_id user_id (leave community_id user_id db).1).0 ≡ ok false)
unfolding leave is_member
leave-is_member community_id user_id db there keys done =
    elim (Option-cases (find_first (active_row community_id user_id) db.members)) [
      | inl missing ↦ absurd (ground arith)
      | inr (m, found) ↦ (
        ground arith,
        ground arith,
        ground (arith, deactivated-none community_id user_id m db.members keys found),
      )
    ]

-- A removed community is found by nobody.
pub remove-find_one :
    (id user_id : ℕ) (db : Db)
    → (remove id user_id db).0 ≡ ok tt
    → (find_one id (remove id user_id db).1).0 ≡ err community_not_found
unfolding remove find_one
remove-find_one id user_id db done =
    elim (Option-cases (find_first (active_community id) db.communities)) [
      | inl missing ↦ absurd (ground arith)
      | inr (c, found) ↦
          let held : active_community id c ≡ true =
            find_first-holds (active_community id) db.communities found in
          let gone : find_first (active_community id) (
                update_where (community_with_id c.id)
                  (λ (x : Community). record x { is_active = false }) db.communities)
              ≡ none =
            find_first-update_where-none (active_community id) (community_with_id c.id) _
              db.communities
              (All-intro _ db.communities (λ x. elim (Bool-cases (x.id == c.id)) [
                | inl hit ↦ inl (hit, ground arith)
                | inr miss ↦ inr (miss, ground arith)
              ])) in
          ground (arith, gone)
    ]
