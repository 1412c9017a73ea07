-- ===== src/Community.antt =====
-- Communities: src/modules/community/community.service.ts and its entities.
-- Ids and phone numbers are only compared: natural numbers. A `Maybe` column of a request is none
-- where the request leaves it out.
pub mod Invites
pub mod Counts
pub mod Lags
pub mod Laws
pub mod Browsing
use myride_api.Common.{
  ℕ, ◌+◌, ◌-◌, String, Bool, true, false, not, ◌&&◌, ◌||◌, Option, some, none, List, [], ◌∷◌, ◌++◌,
  is_some, or_else, or_option, ◌==◌, if◌then◌else◌, Result, Action, ok, err, find_first, find_all,
  update_where, sort_by, pure, gets, modify, throw_if, or_throw, transaction, ◌>>=◌, ◌>>◌, leb,
}
use myride_api.Common.Int.{ℤ, pos, ◌+ℤ◌, ◌-ℤ◌}
use myride_api.Entities.{Role, admin, member}

pub data JoinType : Type 0 where
  invite_only open_join : JoinType

pub record Community : Type 0 where
  pub id : ℕ
  pub created_by_user_id : ℕ
  pub name : String
  pub slug : String
  pub description : Option String
  pub avatar_url : Option String
  pub join_type : JoinType
  pub member_count : ℤ
  pub is_active : Bool

pub record CommunityMember : Type 0 where
  pub id : ℕ
  pub community_id : ℕ
  pub user_id : ℕ
  pub role : Role
  pub is_active : Bool
  pub joined_at : ℕ

pub data InviteStatus : Type 0 where
  pending accepted rejected : InviteStatus

pub record CommunityInvite : Type 0 where
  pub id : ℕ
  pub community_id : ℕ
  pub invited_by_user_id : ℕ
  pub phone : ℕ
  pub user_id : Option ℕ
  pub status : InviteStatus
  pub responded_at : Option ℕ

pub record User : Type 0 where
  pub id : ℕ
  pub phone : ℕ

pub record Db : Type 0 where
  pub communities : List Community
  pub members : List CommunityMember
  pub invites : List CommunityInvite
  pub users : List User

-- The exceptions, by their messages.
pub data Error : Type 0 where
  community_not_found requires_invite already_member creator_cannot_leave not_member_here : Error
  user_not_found invite_not_found cannot_kick_creator member_not_found : Error
  admin_only not_a_member : Error

abbrev pub Method : Type 0 → Type 0
Method A = Action Db Error A

abbrev pub community_with_id : ℕ → Community → Bool
community_with_id id c = c.id == id

abbrev pub active_community : ℕ → Community → Bool
active_community id c = c.id == id && c.is_active

abbrev pub member_row : (community_id user_id : ℕ) → CommunityMember → Bool
member_row community_id user_id m = m.community_id == community_id && m.user_id == user_id

abbrev pub active_row : (community_id user_id : ℕ) → CommunityMember → Bool
active_row community_id user_id m = member_row community_id user_id m && m.is_active

abbrev pub save_community : ℕ → (Community → Community) → Method (Unit {0})
save_community id f =
    modify λ db. record db { communities = update_where (community_with_id id) f db.communities }

abbrev pub save_member : ℕ → (CommunityMember → CommunityMember) → Method (Unit {0})
save_member id f = modify λ db. record db { members = update_where (λ m. m.id == id) f db.members }

abbrev pub insert_member : CommunityMember → Method (Unit {0})
insert_member m = modify λ db. record db { members = db.members ++ m ∷ [] }

unfoldable pub find_one : ℕ → Method Community
find_one id = do
  found ← gets λ (db : Db). find_first (active_community id) db.communities
  or_throw found community_not_found

abbrev pub assert_admin : Community → ℕ → Method (Unit {0})
assert_admin c user_id = throw_if (not (c.created_by_user_id == user_id)) admin_only

pub record CreateCommunityDto : Type 0 where
  pub name : String
  pub description : Option String
  pub avatar_url : Option String
  pub join_type : Option JoinType

abbrev pub new_community : (id creator_id : ℕ) → String → CreateCommunityDto → Community
new_community id creator_id slug dto = record {
  id = id;
  created_by_user_id = creator_id;
  name = dto.name;
  slug = slug;
  description = dto.description;
  avatar_url = dto.avatar_url;
  join_type = or_else dto.join_type invite_only;
  member_count = pos 1;
  is_active = true;
}

abbrev pub new_member : (now id community_id user_id : ℕ) → Role → CommunityMember
new_member now id community_id user_id role = record {
  id = id;
  community_id = community_id;
  user_id = user_id;
  role = role;
  is_active = true;
  joined_at = now;
}

-- `slug_of` is `slugify`, and `suffixed` appends the clock's reading in base 36.
unfoldable pub create :
    (slug_of suffixed : String → String) (same_slug : String → String → Bool)
    (now id member_id creator_id : ℕ)
    → CreateCommunityDto
    → Method Community
create slug_of suffixed same_slug now id member_id creator_id dto = do
  taken ← gets λ (db : Db). find_first (λ c. same_slug c.slug (slug_of dto.name)) db.communities
  let slug = if is_some taken then suffixed (slug_of dto.name) else slug_of dto.name
  transaction do
    modify λ db. record db {
      communities = db.communities ++ new_community id creator_id slug dto ∷ [];
    }
    insert_member (new_member now member_id id creator_id admin)
    pure (new_community id creator_id slug dto)

pub record UpdateCommunityDto : Type 0 where
  pub name : Option String
  pub description : Option String
  pub avatar_url : Option String
  pub join_type : Option JoinType

abbrev pub update_community : UpdateCommunityDto → Community → Community
update_community dto c = record c {
  name = or_else dto.name c.name;
  description = or_option dto.description c.description;
  avatar_url = or_option dto.avatar_url c.avatar_url;
  join_type = or_else dto.join_type c.join_type;
}

unfoldable pub update : (id user_id : ℕ) → UpdateCommunityDto → Method Community
unfolding find_one
update id user_id dto = do
  c ← find_one id
  assert_admin c user_id
  save_community c.id (update_community dto)
  pure (update_community dto c)

unfoldable pub remove : (id user_id : ℕ) → Method (Unit {0})
unfolding find_one
remove id user_id = do
  c ← find_one id
  assert_admin c user_id
  save_community c.id λ x. record x { is_active = false }

abbrev pub is_open : JoinType → Bool
is_open open_join = true
is_open invite_only = false

abbrev pub reactivate : CommunityMember → CommunityMember
reactivate m = record m { is_active = true }

-- The end of `join`: a row that is there is made active again; the count grows for a new row only.
abbrev pub store_member :
    (now new_id community_id user_id : ℕ) → Option CommunityMember → Method CommunityMember
store_member now new_id community_id user_id none = transaction do
  insert_member (new_member now new_id community_id user_id member)
  save_community community_id λ c. record c { member_count = c.member_count +ℤ pos 1 }
  pure (new_member now new_id community_id user_id member)
store_member now new_id community_id user_id (some m) = do
  throw_if m.is_active already_member
  save_member m.id reactivate
  pure (reactivate m)

unfoldable pub join : (now new_id community_id user_id : ℕ) → Method CommunityMember
unfolding find_one
join now new_id community_id user_id = do
  c ← find_one community_id
  throw_if (not (is_open c.join_type)) requires_invite
  existing ← gets λ (db : Db). find_first (member_row community_id user_id) db.members
  store_member now new_id community_id user_id existing

abbrev pub deactivate : CommunityMember → CommunityMember
deactivate m = record m { is_active = false }

-- The transaction that ends both `leave` and `kickMember`.
abbrev pub drop_member : ℕ → CommunityMember → Method (Unit {0})
drop_member community_id m = transaction do
  save_member m.id deactivate
  save_community community_id λ c. record c { member_count = c.member_count -ℤ pos 1 }

unfoldable pub leave : (community_id user_id : ℕ) → Method (Unit {0})
unfolding find_one
leave community_id user_id = do
  c ← find_one community_id
  throw_if (c.created_by_user_id == user_id) creator_cannot_leave
  found ← gets λ (db : Db). find_first (active_row community_id user_id) db.members
  m ← or_throw found not_member_here
  drop_member community_id m

unfoldable pub kick_member : (community_id target_user_id admin_user_id : ℕ) → Method (Unit {0})
unfolding find_one
kick_member community_id target_user_id admin_user_id = do
  c ← find_one community_id
  assert_admin c admin_user_id
  throw_if (target_user_id == c.created_by_user_id) cannot_kick_creator
  found ← gets λ (db : Db). find_first (active_row community_id target_user_id) db.members
  m ← or_throw found member_not_found
  drop_member community_id m

unfoldable pub is_member : (community_id user_id : ℕ) → Method Bool
is_member community_id user_id =
    gets λ (db : Db). is_some (find_first (active_row community_id user_id) db.members)

-- `order: { role: 'ASC', joined_at: 'ASC' }`, where 'admin' comes before 'member'.
abbrev pub member_before : CommunityMember → CommunityMember → Bool
member_before a b = elim a.role [
  | admin ↦ elim b.role [ admin ↦ leb a.joined_at b.joined_at | member ↦ true ]
  | member ↦ elim b.role [ admin ↦ false | member ↦ leb a.joined_at b.joined_at ]
]

unfoldable pub list_members : (community_id user_id : ℕ) → Method (List CommunityMember)
unfolding is_member
list_members community_id user_id = do
  yes_member ← is_member community_id user_id
  throw_if (not yes_member) not_a_member
  gets λ (db : Db).
      sort_by member_before
        (find_all (λ m. m.community_id == community_id && m.is_active) db.members)
