-- ===== src/Community/Invites.antt =====
-- Invitations: `invite` and `respondToInvite` of src/modules/community/community.service.ts.
-- Neither runs in a transaction, so what is written before an exception stays.
pub mod Laws
use myride_api.Common.{
  ℕ, ◌+◌, Bool, true, false, not, ◌&&◌, ◌||◌, Option, some, none, List, [], ◌∷◌, ◌++◌, is_some,
  ◌==◌, if◌then◌else◌, find_first, update_where, pure, gets, modify, throw_if, or_throw, ◌>>=◌,
  ◌>>◌,
}
use myride_api.Community.{
  Community, CommunityInvite, CommunityMember, InviteStatus, User, Db, Method, user_not_found,
  invite_not_found, not_a_member, active_row, find_one, is_open, join,
}

pub record InviteResult : Type 0 where
  pub invited : ℕ
  pub already_members : ℕ
  pub already_invited : ℕ

abbrev pub is_pending_invite : InviteStatus → Bool
is_pending_invite InviteStatus.pending = true
is_pending_invite _ = false

abbrev pub user_with_phone : ℕ → User → Bool
user_with_phone phone u = u.phone == phone

abbrev pub pending_invite : (community_id phone : ℕ) → CommunityInvite → Bool
pending_invite community_id phone i =
    i.community_id == community_id && i.phone == phone && is_pending_invite i.status

abbrev pub user_id_of : Option User → Option ℕ
user_id_of none = none
user_id_of (some u) = some u.id

-- `if (existingUserId) { isMember = … }`
abbrev pub member_found : ℕ → Option ℕ → Db → Bool
member_found community_id none db = false
member_found community_id (some id) db =
    is_some (find_first (active_row community_id id) db.members)

abbrev pub new_invite : (id community_id invited_by phone : ℕ) → Option ℕ → CommunityInvite
new_invite id community_id invited_by phone user_id = record {
  id = id;
  community_id = community_id;
  invited_by_user_id = invited_by;
  phone = phone;
  user_id = user_id;
  status = InviteStatus.pending;
  responded_at = none;
}

pub data PhoneResult : Type 0 where
  invited already_member already_invited : PhoneResult

-- The end of the loop's body: a registered user of an open community joins at once, and any other
-- number gets an invite.
abbrev pub add_or_invite :
    (now new_id invited_by phone : ℕ) → Community → Option ℕ → Method PhoneResult
add_or_invite now new_id invited_by phone c none = do
  modify
      λ db. record db { invites = db.invites ++ new_invite new_id c.id invited_by phone none ∷ [] }
  pure invited
add_or_invite now new_id invited_by phone c (some user_id) =
    if is_open c.join_type then (do joined ← join now new_id c.id user_id; pure invited) else (do
      modify λ db. record db {
        invites = db.invites ++ new_invite new_id c.id invited_by phone (some user_id) ∷ [];
      }
      pure invited)

-- One round of the loop over the phone numbers.
unfoldable pub invite_phone : (now new_id invited_by : ℕ) → Community → ℕ → Method PhoneResult
invite_phone now new_id invited_by c phone = do
  user ← gets λ (db : Db). user_id_of (find_first (user_with_phone phone) db.users)
  in_already ← gets λ (db : Db). member_found c.id user db
  waiting ← gets λ (db : Db). is_some (find_first (pending_invite c.id phone) db.invites)
  if in_already
      then pure already_member
      else if waiting
      then pure already_invited
      else add_or_invite now new_id invited_by phone c user

abbrev pub tally : PhoneResult → InviteResult → InviteResult
tally invited r = record r { invited = r.invited + 1 }
tally already_member r = record r { already_members = r.already_members + 1 }
tally already_invited r = record r { already_invited = r.already_invited + 1 }

-- The loop; the round at position i uses the i-th generated id.
unfoldable pub invite_phones :
    (now : ℕ) (new_ids : ℕ → ℕ) (invited_by i : ℕ)
    → Community
    → List ℕ
    → InviteResult
    → Method InviteResult
invite_phones now new_ids invited_by i c [] r = pure r
invite_phones now new_ids invited_by i c (phone ∷ phones) r =
    invite_phone now (new_ids i) invited_by c phone >>= λ one.
    invite_phones now new_ids invited_by (i + 1) c phones (tally one r)

abbrev pub no_invites : InviteResult
no_invites = record { invited = 0; already_members = 0; already_invited = 0 }

unfoldable pub invite :
    (now : ℕ) (new_ids : ℕ → ℕ) (community_id : ℕ) → List ℕ → ℕ → Method InviteResult
unfolding find_one
invite now new_ids community_id phones invited_by = do
  c ← find_one community_id
  row ← gets λ (db : Db). find_first (active_row c.id invited_by) db.members
  throw_if (not (c.created_by_user_id == invited_by) && not (is_some row)) not_a_member
  invite_phones now new_ids invited_by 0 c phones no_invites

-- `[{ id, user_id, status: 'pending' }, { id, phone, status: 'pending' }]`
abbrev pub same_user : ℕ → Option ℕ → Bool
same_user user_id none = false
same_user user_id (some id) = id == user_id

abbrev pub invite_for : (invite_id : ℕ) → User → CommunityInvite → Bool
invite_for invite_id user i =
    i.id == invite_id
    && is_pending_invite i.status
    && (same_user user.id i.user_id || i.phone == user.phone)

pub data Answer : Type 0 where
  accept reject : Answer

abbrev pub answered : Answer → InviteStatus
answered accept = InviteStatus.accepted
answered reject = InviteStatus.rejected

abbrev pub answer_row : (now user_id : ℕ) → Answer → CommunityInvite → CommunityInvite
answer_row now user_id a i = record i {
  user_id = some user_id;
  status = answered a;
  responded_at = some now;
}

-- `if (action === 'accept') await this.join(…)`
abbrev pub follow_up : (now new_id user_id : ℕ) → Answer → ℕ → Method (Unit {0})
follow_up now new_id user_id reject community_id = pure tt
follow_up now new_id user_id accept community_id = do
  joined ← join now new_id community_id user_id
  pure tt

unfoldable pub respond_to_invite : (now new_id invite_id user_id : ℕ) → Answer → Method (Unit {0})
respond_to_invite now new_id invite_id user_id a = do
  found ← gets λ (db : Db). find_first (λ u. u.id == user_id) db.users
  user ← or_throw found user_not_found
  row ← gets λ (db : Db). find_first (invite_for invite_id user) db.invites
  i ← or_throw row invite_not_found
  modify λ db. record db {
    invites = update_where (λ x. x.id == i.id) (answer_row now user_id a) db.invites;
  }
  follow_up now new_id user_id a i.community_id
