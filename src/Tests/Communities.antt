-- ===== src/Tests/Communities.antt =====
-- A community of user 7, where user 8 is a member and user 9 was one, and a closed one.
use mathlib.Core.Option
use myride_api.Common.{
  ℕ, ◌+◌, ◌≡◌, refl, subst, Bool, true, false, ◌&&◌, ◌==◌, if◌then◌else◌, none, [], ◌∷◌, map,
  find_first, Distinct, count_where, arith,
}
use myride_api.Common.Int.{pos, ◌+ℤ◌}
use myride_api.Entities.{Role}
use myride_api.Community.{
  Community, CommunityMember, CommunityInvite, InviteStatus, User, Db, invite_only, open_join,
  JoinType, join,
}
use myride_api.Community.Counts.{Lags, active_in}
use myride_api.Community.Lags.{join-Lags, rejoins}
use myride_api.Community.Invites.{invite}
use myride_api.Community.Invites.Laws.{HasSingleInvites, invite-HasSingleInvites}
use myride_api.Tests.{no_repeats-Distinct}

abbrev community : (id : ℕ) → JoinType → (count : ℕ) → Community
community id join_type count = record {
  id = id;
  created_by_user_id = 7;
  name = "Riders";
  slug = "riders";
  description = none;
  avatar_url = none;
  join_type = join_type;
  member_count = pos count;
  is_active = true;
}

abbrev member_of_one : (id user_id : ℕ) → Bool → CommunityMember
member_of_one id user_id active = record {
  id = id;
  community_id = 1;
  user_id = user_id;
  role = Role.member;
  is_active = active;
  joined_at = 0;
}

abbrev asked : CommunityInvite
asked = record {
  id = 1;
  community_id = 2;
  invited_by_user_id = 7;
  phone = 910;
  user_id = none;
  status = InviteStatus.pending;
  responded_at = none;
}

abbrev ten : User
ten = record { id = 10; phone = 910 }

abbrev db : Db
db = record {
  communities = community 1 open_join 2 ∷ community 2 invite_only 0 ∷ [];
  members = member_of_one 1 7 true ∷ member_of_one 2 8 true ∷ member_of_one 3 9 false ∷ [];
  invites = asked ∷ [];
  users = ten ∷ [];
}

db-Lags : Lags 1 0 db.communities db.members
unfolding find_first count_where ◌+ℤ◌
db-Lags c at =
    subst (λ y. y.member_count +ℤ pos 0 ≡ pos (count_where (active_in 1) db.members))
      (Option.some-injective (community 1 open_join 2) c at) refl

member_ids : Distinct (map (λ m. m.id) db.members)
member_ids = no_repeats-Distinct (map (λ m. m.id) db.members) refl

-- User 9 comes back and is not counted: the count lags by one.
join-Lags_example :
    let db' = (join 5 20 1 9 db).1 in
    Lags 1 (0 + (if 1 == 1 && rejoins 5 20 1 9 db then 1 else 0)) db'.communities db'.members
join-Lags_example = join-Lags 1 0 5 20 1 9 db member_ids db-Lags

abbrev ids : ℕ → ℕ
ids n = n + 100

single_invites : HasSingleInvites db
unfolding count_where
single_invites community_id phone = ground arith

invite-HasSingleInvites_example : HasSingleInvites (invite 5 ids 1 (910 ∷ 911 ∷ 911 ∷ []) 7 db).1
invite-HasSingleInvites_example =
    invite-HasSingleInvites 5 ids 1 (910 ∷ 911 ∷ 911 ∷ []) 7 db single_invites
