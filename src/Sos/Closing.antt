-- ===== src/Sos/Closing.antt =====
-- The cancellation of an alert: `cancel` of src/modules/sos/sos.service.ts.

use myride_api.Common.{
  ℕ, ◌-◌, ◌≡◌, refl, ◌∙◌, ap, Bool, true, false, some, List, ◌==◌, ==_iff, leb, ok, is_ok,
  find_first, update_where, ◌⊎◌, inl, inr, if◌then◌else◌, ◌&&◌, arith, Bool-cases, Option-cases,
  find_first-update_where,
}
use myride_api.Entities.{Trip}
use myride_api.Store.{trip_with_id}
use myride_api.Sos.{
  SosAlert, Db, alert_with_id, is_active, closed, cancelled_status, cancel, SosStatus,
}

cancel-cases :
    (now sos_id user_id : ℕ) (db : Db) {alert : SosAlert}
    → find_first (alert_with_id sos_id) db.alerts ≡ some alert
    → is_active alert.status ≡ true
    → is_ok (cancel now sos_id user_id db).0 ≡ true
    → (trip : Trip) × (find_first (trip_with_id alert.trip_id) db.trips ≡ some trip)
      × ((alert.sender_id ≡ user_id) ⊎ (trip.creator_id ≡ user_id))
      × ((cancel now sos_id user_id db).0 ≡ ok (closed now user_id alert))
      × ((cancel now sos_id user_id db).1.alerts
          ≡ update_where (alert_with_id alert.id) (closed now user_id) db.alerts)
unfolding cancel
cancel-cases now sos_id user_id db {alert} at active accepted =
    elim (Option-cases (find_first (trip_with_id alert.trip_id) db.trips)) [
      | inl gone ↦ absurd (ground arith)
      | inr (trip, trip_at) ↦ elim (Bool-cases (alert.sender_id == user_id)) [
        | inl sender ↦ (trip, trip_at, inl ((==_iff _ _).0 sender), ground arith, ground arith)
        | inr stranger ↦ elim (Bool-cases (trip.creator_id == user_id)) [
          | inl admin ↦ (trip, trip_at, inr ((==_iff _ _).0 admin), ground arith, ground arith)
          | inr no_admin ↦ absurd (ground arith)
        ]
      ]
    ]

cancelled_status-is_closed : (a b : Bool) → is_active (cancelled_status a b) ≡ false
cancelled_status-is_closed true true = refl
cancelled_status-is_closed true false = refl
cancelled_status-is_closed false b = refl

status_of :
    (a b : Bool)
    → cancelled_status a b ≡ (if a && b then SosStatus.false_alarm else SosStatus.resolved)
status_of true true = refl
status_of true false = refl
status_of false b = refl

cancel-closed :
    (now sos_id user_id : ℕ) (db : Db) {alert : SosAlert}
    → find_first (alert_with_id sos_id) db.alerts ≡ some alert
    → is_active alert.status ≡ false
    → cancel now sos_id user_id db ≡ (ok alert, db)
unfolding cancel
cancel-closed now sos_id user_id db at over = rw at (ground arith)

-- What an update of a found alert leaves under its id.
pub found_updated :
    (sos_id : ℕ) (f : SosAlert → SosAlert) (alerts : List SosAlert) {alert : SosAlert}
    → ((a : SosAlert) → (f a).id ≡ a.id)
    → find_first (alert_with_id sos_id) alerts ≡ some alert
    → find_first (alert_with_id sos_id) (update_where (alert_with_id alert.id) f alerts)
      ≡ some (f alert)
found_updated sos_id f alerts {alert} keeps at =
    find_first-update_where (alert_with_id sos_id) (alert_with_id alert.id) f alerts
      (λ a. ap (λ i. i == sos_id) (keeps a))
    ∙ rw at (ground arith)

-- An accepted cancellation of an active alert comes from its sender or the trip's creator, and
-- closes it for good: the alert that is found afterwards is not active and is the one that is
-- answered, its status is false-alarm exactly for its sender within 30 seconds of the alert, and
-- whoever cancels it again at any time gets it back with nothing changed.
pub cancel-closes :
    (now sos_id user_id : ℕ) (db : Db) {alert : SosAlert}
    → find_first (alert_with_id sos_id) db.alerts ≡ some alert
    → is_active alert.status ≡ true
    → is_ok (cancel now sos_id user_id db).0 ≡ true
    → (after : SosAlert) × ((cancel now sos_id user_id db).0 ≡ ok after)
      × (find_first (alert_with_id sos_id) (cancel now sos_id user_id db).1.alerts ≡ some after)
      × (is_active after.status ≡ false)
      × ((alert.sender_id ≡ user_id)
          ⊎ ((trip : Trip) × (find_first (trip_with_id alert.trip_id) db.trips ≡ some trip)
              × (trip.creator_id ≡ user_id)))
      × (after.status ≡ (
          if alert.sender_id == user_id && leb (now - alert.created_at) 30000
          then SosStatus.false_alarm
          else SosStatus.resolved))
      × ((later other : ℕ)
          → cancel later sos_id other (cancel now sos_id user_id db).1
            ≡ (ok after, (cancel now sos_id user_id db).1))
cancel-closes now sos_id user_id db {alert} at active accepted =
    let (trip, trip_at, who, answer, alerts) =
      cancel-cases now sos_id user_id db at active accepted in
    let found : find_first (alert_with_id sos_id) (cancel now sos_id user_id db).1.alerts
        ≡ some (closed now user_id alert) =
      ap (find_first (alert_with_id sos_id)) alerts
      ∙ found_updated sos_id (closed now user_id) db.alerts (λ a. refl) at in
    let over : is_active (closed now user_id alert).status ≡ false =
      cancelled_status-is_closed (alert.sender_id == user_id) _ in
    (
      closed now user_id alert,
      answer,
      found,
      over,
      elim who [ inl sender ↦ inl sender | inr admin ↦ inr (trip, trip_at, admin) ],
      status_of (alert.sender_id == user_id) (leb (now - alert.created_at) 30000),
      λ later other. cancel-closed later sos_id other _ found over,
    )
