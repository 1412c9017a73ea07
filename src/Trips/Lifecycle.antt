-- ===== src/Trips/Lifecycle.antt =====
-- The calls of src/modules/trips/trips.service.ts and of joinViaLink in
-- src/modules/share-links/share-links.service.ts, and the moves between standings.
use myride_api.Common.{ℕ}
use myride_api.Store.{Db}
use myride_api.Store.Members.{IsConsistent}
use myride_api.Trips.Standing.{standing, ◌⇝◌, Change, same, Change-moves}
use myride_api.Trips.History.{
  ◌⟶◌, creates as trip_creates, updates, cancels, requests, approves, rejects,
  leaves as trip_leaves, joins_by_link,
}
use myride_api.Trips.Standing.Membership.{
  request_join-Change, approve_join-Change, reject_join-Change, leave_trip-Change,
}
use myride_api.Trips.Standing.Joining.{
  create-Change, update-participants, cancel-participants, join_via_link-Change,
}

step-Change : {db next : Db} → db ⟶ next → Change db.participants next.participants
step-Change (trip_creates now ids creator_id dto _ unseen _) =
    create-Change now ids creator_id dto _ unseen
step-Change (updates now trip_id user_id dto) = same (update-participants now trip_id user_id dto _)
step-Change (cancels trip_id user_id) = same (cancel-participants trip_id user_id _)
step-Change (requests now new_id trip_id user_id _) =
    request_join-Change now new_id trip_id user_id _
step-Change (approves now new_ids has_token trip_id admin_id user_id) =
    approve_join-Change now new_ids has_token trip_id admin_id user_id _
step-Change (rejects trip_id admin_id user_id) = reject_join-Change trip_id admin_id user_id _
step-Change (trip_leaves now trip_id user_id) = leave_trip-Change now trip_id user_id _
step-Change (joins_by_link now new_id token user_id _) =
    join_via_link-Change now new_id token user_id _

-- Every call, from tables that meet the invariant, leaves how each user stands with each trip or
-- moves it by one of the moves of the contract: none to pending or approved, pending to approved,
-- rejected or left, approved to left, rejected to pending, approved or left, and left to pending or
-- approved.
pub step-refines :
    {db next : Db}
    → db ⟶ next
    → IsConsistent db
    → (trip_id user_id : ℕ)
    → standing trip_id user_id db.participants ⇝ standing trip_id user_id next.participants
step-refines {db} {next} step h trip_id user_id =
    Change-moves db.participants next.participants h.ids (step-Change step) trip_id user_id
