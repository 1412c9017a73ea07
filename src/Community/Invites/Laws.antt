-- ===== src/Community/Invites/Laws.antt =====
-- Inviting and answering: `invite` and `respondToInvite` of src/modules/community/community.service.ts.
use myride_api.Common.{
  ℕ, ◌+◌, ◌≤◌, ◌≡◌, false, ◌&&◌, some, none, List, [], ◌∷◌, ◌++◌, length, arith, ◌==◌, is_some, inl,
  inr, ◌⊎◌, ok, Result-cases, ◌>>=◌, Option-cases, Bool-cases, find_first, count_where,
  update_where, count_where-append, count_where-none, count_where-update_where_le,
}
use myride_api.Community.{Community, CommunityInvite, Db, User, active_community, join}
use myride_api.Community.Invites.{
  InviteResult, pending_invite, user_with_phone, user_id_of, invite_phone, invite_phones, invite,
  tally, no_invites, invite_for, answer_row, accept, reject, Answer, respond_to_invite, new_invite,
}

invite_phones-total :
    (now : ℕ) (new_ids : ℕ → ℕ) (invited_by i : ℕ) (c : Community) (phones : List ℕ)
    (r total : InviteResult) (db : Db)
    → (invite_phones now new_ids invited_by i c phones r db).0 ≡ ok total
    → total.invited + total.already_members + total.already_invited
      ≡ r.invited + r.already_members + r.already_invited + length phones
unfolding invite_phones
invite_phones-total now new_ids invited_by i c [] r total db e = ground arith
invite_phones-total now new_ids invited_by i c (phone ∷ phones) r total db e =
    let rest = (invite_phone now (new_ids i) invited_by c phone db).1 in
    elim (Result-cases (invite_phone now (new_ids i) invited_by c phone db).0) [
      | inl (one, went) ↦ ground (
        arith,
        went,
        invite_phones-total now new_ids invited_by (i + 1) c phones (tally one r) total rest,
      )
      | inr (failed, stopped) ↦ ground (arith, stopped)
    ]

-- Every number of an accepted request is counted once: as invited, as a member or as invited before.
pub invite-total :
    (now : ℕ) (new_ids : ℕ → ℕ) (community_id : ℕ) (phones : List ℕ) (invited_by : ℕ) (db : Db)
    {total : InviteResult}
    → (invite now new_ids community_id phones invited_by db).0 ≡ ok total
    → total.invited + total.already_members + total.already_invited ≡ length phones
unfolding invite
invite-total now new_ids community_id phones invited_by db {total} e =
    elim (Option-cases (find_first (active_community community_id) db.communities)) [
      | inl missing ↦ ground arith
      | inr (c, there) ↦
          ground (arith, invite_phones-total now new_ids invited_by 0 c phones no_invites total db)
    ]

-- No phone number has two pending invites to one community.
abbrev pub HasSingleInvites : Db → Type 0
HasSingleInvites db =
    (community_id phone : ℕ) → count_where (pending_invite community_id phone) db.invites ≤ 1

pending_invite-le :
    (community_id phone : ℕ) (i : CommunityInvite) (rows : List CommunityInvite)
    → count_where (pending_invite community_id phone) rows ≤ 1
    → is_some (find_first (pending_invite i.community_id i.phone) rows) ≡ false
    → count_where (pending_invite community_id phone) (rows ++ i ∷ []) ≤ 1
pending_invite-le community_id phone i rows h single =
    elim (Option-cases (find_first (pending_invite i.community_id i.phone) rows)) [
      | inl free ↦ elim (Bool-cases (community_id == i.community_id && phone == i.phone)) [
        | inl same ↦ ground (
          arith,
          count_where-append (pending_invite community_id phone) rows i,
          count_where-none (pending_invite community_id phone)
              (pending_invite i.community_id i.phone) rows (λ x miss. ground arith) free,
        )
        | inr other ↦ ground (arith, count_where-append (pending_invite community_id phone) rows i)
      ]
      | inr (old, found) ↦ absurd (ground arith)
    ]

join-invites :
    (now new_id community_id user_id : ℕ) (db : Db)
    → (join now new_id community_id user_id db).1.invites ≡ db.invites
unfolding join
join-invites now new_id community_id user_id db = ground arith

invite_phone-invites :
    (now new_id invited_by : ℕ) (c : Community) (phone : ℕ) (db : Db)
    → let db' = (invite_phone now new_id invited_by c phone db).1 in
      (db'.invites ≡ db.invites)
      ⊎ ((is_some (find_first (pending_invite c.id phone) db.invites) ≡ false)
          × (db'.invites
              ≡ db.invites
                ++ new_invite new_id c.id invited_by phone
                    (user_id_of (find_first (user_with_phone phone) db.users))
                  ∷ []))
unfolding invite_phone
invite_phone-invites now new_id invited_by c phone db =
    elim (Option-cases (find_first (user_with_phone phone) db.users)) [
      | inl stranger ↦ ground arith
      | inr (u, known) ↦ ground (arith, join-invites now new_id c.id u.id db)
    ]

invite_phones-HasSingleInvites :
    (now : ℕ) (new_ids : ℕ → ℕ) (invited_by i : ℕ) (c : Community) (phones : List ℕ)
    (r : InviteResult) (db : Db)
    → HasSingleInvites db
    → HasSingleInvites (invite_phones now new_ids invited_by i c phones r db).1
unfolding invite_phones
invite_phones-HasSingleInvites now new_ids invited_by i c [] r db h = h
invite_phones-HasSingleInvites now new_ids invited_by i c (phone ∷ phones) r db h =
    let db' = (invite_phone now (new_ids i) invited_by c phone db).1 in
    let kept : HasSingleInvites db' = λ community_id number.
      elim (invite_phone-invites now (new_ids i) invited_by c phone db) [
        | inl same ↦ rw same (h community_id number)
        | inr (free, added) ↦
            rw added
              (pending_invite-le community_id number _ db.invites (h community_id number) free)
      ] in
    elim (Result-cases (invite_phone now (new_ids i) invited_by c phone db).0) [
      | inl (one, went) ↦
          rw (went, ◌>>=◌)
            (invite_phones-HasSingleInvites now new_ids invited_by (i + 1) c phones (tally one r)
              db' kept)
      | inr (failed, stopped) ↦ rw (stopped, ◌>>=◌) kept
    ]

module _ (now : ℕ) (new_ids : ℕ → ℕ) (community_id : ℕ) (phones : List ℕ) (invited_by : ℕ)
    (db : Db) where
  invite_missing :
      find_first (active_community community_id) db.communities ≡ none
      → (invite now new_ids community_id phones invited_by db).1 ≡ db
  unfolding invite
  invite_missing e = ground arith

  invite_found :
      {c : Community}
      → find_first (active_community community_id) db.communities ≡ some c
      → let db' = (invite now new_ids community_id phones invited_by db).1 in
        (db' ≡ db) ⊎ (db' ≡ (invite_phones now new_ids invited_by 0 c phones no_invites db).1)
  unfolding invite
  invite_found e = ground arith

-- Inviting never leaves a phone number with two pending invites to one community, also where the
-- request holds a number twice or fails part of the way.
pub invite-HasSingleInvites :
    (now : ℕ) (new_ids : ℕ → ℕ) (community_id : ℕ) (phones : List ℕ) (invited_by : ℕ) (db : Db)
    → HasSingleInvites db
    → HasSingleInvites (invite now new_ids community_id phones invited_by db).1
unfolding invite
invite-HasSingleInvites now new_ids community_id phones invited_by db h =
    elim (Option-cases (find_first (active_community community_id) db.communities)) [
      | inl missing ↦ rw (invite_missing now new_ids community_id phones invited_by db missing) h
      | inr (c, there) ↦ elim (invite_found now new_ids community_id phones invited_by db there) [
        | inl same ↦ rw same h
        | inr went ↦
            rw went
              (invite_phones-HasSingleInvites now new_ids invited_by 0 c phones no_invites db h)
      ]
    ]

not_pending :
    (now user_id : ℕ) (a : Answer) (community_id phone : ℕ) (i : CommunityInvite)
    → pending_invite community_id phone (answer_row now user_id a i) ≡ false
not_pending now user_id accept community_id phone i = ground arith
not_pending now user_id reject community_id phone i = ground arith

respond_to_invite_asked :
    (now new_id invite_id user_id : ℕ) (a : Answer) (db : Db) {u : User} {i : CommunityInvite}
    → find_first (λ (x : User). x.id == user_id) db.users ≡ some u
    → find_first (invite_for invite_id u) db.invites ≡ some i
    → (respond_to_invite now new_id invite_id user_id a db).1.invites
      ≡ update_where (λ x. x.id == i.id) (answer_row now user_id a) db.invites
unfolding respond_to_invite
respond_to_invite_asked now new_id invite_id user_id accept db {u} {i} known asked =
    let saved : Db = record db {
      invites = update_where (λ x. x.id == i.id) (answer_row now user_id accept) db.invites;
    } in
    ground (arith, join-invites now new_id i.community_id user_id saved)
respond_to_invite_asked now new_id invite_id user_id reject db known asked = ground arith

respond_to_invite-invites :
    (now new_id invite_id user_id : ℕ) (a : Answer) (db : Db)
    → let db' = (respond_to_invite now new_id invite_id user_id a db).1 in
      (db'.invites ≡ db.invites)
      ⊎ ((id : ℕ) × (db'.invites
            ≡ update_where (λ x. x.id == id) (answer_row now user_id a) db.invites))
unfolding respond_to_invite
respond_to_invite-invites now new_id invite_id user_id a db =
    elim (Option-cases (find_first (λ (u : User). u.id == user_id) db.users)) [
      | inl stranger ↦ inl (ground arith)
      | inr (u, known) ↦ elim (Option-cases (find_first (invite_for invite_id u) db.invites)) [
        | inl not_asked ↦ inl (ground arith)
        | inr (i, asked) ↦
            inr (i.id, respond_to_invite_asked now new_id invite_id user_id a db known asked)
      ]
    ]

-- Answering an invite never leaves a phone number with two pending invites to one community.
pub respond_to_invite-HasSingleInvites :
    (now new_id invite_id user_id : ℕ) (a : Answer) (db : Db)
    → HasSingleInvites db
    → HasSingleInvites (respond_to_invite now new_id invite_id user_id a db).1
respond_to_invite-HasSingleInvites now new_id invite_id user_id a db h community_id phone =
    elim (respond_to_invite-invites now new_id invite_id user_id a db) [
      | inl same ↦ rw same (h community_id phone)
      | inr (id, saved) ↦ rw saved (
          omega (
            arith,
            h community_id phone,
            count_where-update_where_le (pending_invite community_id phone) (λ x. x.id == id)
                (answer_row now user_id a) db.invites
                (not_pending now user_id a community_id phone),
          ))
    ]
