-- ===== src/Tests/Membership.antt =====
-- Requests, approvals, departures and joins on the small store.
use myride_api.Common.{ℕ, ◌+◌, true}
use myride_api.Store.Capacity.{IsWithinCapacity}
use myride_api.Trips.Membership.{approve_join}
use myride_api.Trips.Membership.Capacity.{approve_join-IsWithinCapacity}
use myride_api.ShareLinks.Joining.{join_via_link}
use myride_api.ShareLinks.Joining.Invariant.{join_via_link-IsWithinCapacity}
use myride_api.Tests.{db, db-IsWithinCapacity}

abbrev ids : ℕ → ℕ
ids n = n + 100

join_via_link-IsWithinCapacity_example : IsWithinCapacity (join_via_link 6 5 "aa" 10 db).1.trips
join_via_link-IsWithinCapacity_example =
    join_via_link-IsWithinCapacity 6 5 "aa" 10 db db-IsWithinCapacity

approve_join-IsWithinCapacity_example : IsWithinCapacity (approve_join 5 ids true 1 7 9 db).1.trips
approve_join-IsWithinCapacity_example =
    approve_join-IsWithinCapacity 5 ids true 1 7 9 db db-IsWithinCapacity
