-- ===== src/Trips/History.antt =====
-- What a trip service does over time: each call of a method of src/modules/trips/trips.service.ts or of
-- joinViaLink in src/modules/share-links/share-links.service.ts is a step, and a history is a sequence
-- of calls. The ids that the database generates are new; every other argument is free, and a call may
-- fail.
use myride_api.Common.{ℕ, ◌≡◌, String, Bool, none, find_first, ◌==◌}
use myride_api.Store.{Db, trip_with_id, participant_with_id}
use myride_api.Store.Members.{IsConsistent}
use myride_api.Trips.Membership.{request_join, approve_join, reject_join, leave_trip}
use myride_api.Trips.Membership.Invariant.{
  request_join-IsConsistent, approve_join-IsConsistent, reject_join-IsConsistent,
  leave_trip-IsConsistent,
}
use myride_api.Trips.Editing.{NewIds, CreateTripDto, UpdateTripDto, create, update, cancel}
use myride_api.Trips.Editing.Laws.{create-IsConsistent}
use myride_api.Trips.Editing.Invariant.{update-IsConsistent, cancel-IsConsistent}
use myride_api.ShareLinks.Joining.{join_via_link}
use myride_api.ShareLinks.Joining.Invariant.{join_via_link-IsConsistent}

infix 40 ◌⟶◌ ◌⟶*◌
pub data ◌⟶◌ : Db → Db → Type 0 where
  creates :
      (now : ℕ) (ids : NewIds) (creator_id : ℕ) (dto : CreateTripDto) {db : Db}
      → find_first (participant_with_id ids.participant) db.participants ≡ none
      → find_first (λ p. p.trip_id == ids.trip) db.participants ≡ none
      → find_first (trip_with_id ids.trip) db.trips ≡ none
      → db ⟶ (create now ids creator_id dto db).1
  updates :
      (now trip_id user_id : ℕ) (dto : UpdateTripDto) {db : Db}
      → db ⟶ (update now trip_id user_id dto db).1
  cancels : (trip_id user_id : ℕ) {db : Db} → db ⟶ (cancel trip_id user_id db).1
  requests :
      (now new_id trip_id user_id : ℕ) {db : Db}
      → find_first (participant_with_id new_id) db.participants ≡ none
      → db ⟶ (request_join now new_id trip_id user_id db).1
  approves :
      (now : ℕ) (new_ids : ℕ → ℕ) (has_token : Bool) (trip_id admin_id user_id : ℕ) {db : Db}
      → db ⟶ (approve_join now new_ids has_token trip_id admin_id user_id db).1
  rejects :
      (trip_id admin_id user_id : ℕ) {db : Db} → db ⟶ (reject_join trip_id admin_id user_id db).1
  leaves : (now trip_id user_id : ℕ) {db : Db} → db ⟶ (leave_trip now trip_id user_id db).1
  joins_by_link :
      (now new_id : ℕ) (token : String) (user_id : ℕ) {db : Db}
      → find_first (participant_with_id new_id) db.participants ≡ none
      → db ⟶ (join_via_link now new_id token user_id db).1

pub data ◌⟶*◌ (start : Db) : Db → Type 0 where
  here : start ⟶* start
  more : {db next : Db} → start ⟶* db → db ⟶ next → start ⟶* next

step-IsConsistent : {db next : Db} → db ⟶ next → IsConsistent db → IsConsistent next
step-IsConsistent (creates now ids creator_id dto fresh unseen new) h =
    create-IsConsistent now ids creator_id dto _ h fresh unseen new
step-IsConsistent (updates now trip_id user_id dto) h =
    update-IsConsistent now trip_id user_id dto _ h
step-IsConsistent (cancels trip_id user_id) h = cancel-IsConsistent trip_id user_id _ h
step-IsConsistent (requests now new_id trip_id user_id fresh) h =
    request_join-IsConsistent now new_id trip_id user_id _ h fresh
step-IsConsistent (approves now new_ids has_token trip_id admin_id user_id) h =
    approve_join-IsConsistent now new_ids has_token trip_id admin_id user_id _ h
step-IsConsistent (rejects trip_id admin_id user_id) h =
    reject_join-IsConsistent trip_id admin_id user_id _ h
step-IsConsistent (leaves now trip_id user_id) h = leave_trip-IsConsistent now trip_id user_id _ h
step-IsConsistent (joins_by_link now new_id token user_id fresh) h =
    join_via_link-IsConsistent now new_id token user_id _ h fresh

-- Whatever sequence of calls is made, with ids that are new when they are generated, participant
-- rows stay unique and every trip's count stays the number of its approved rows.
pub history-IsConsistent : {start db : Db} → start ⟶* db → IsConsistent start → IsConsistent db
history-IsConsistent here h = h
history-IsConsistent (more past step) h = step-IsConsistent step (history-IsConsistent past h)
