-- ===== src/Tests/Alerts.antt =====
-- An alert of user 8 on the small store's trip.
use myride_api.Store.{trip_with_id}
use myride_api.Entities.{Trip}
use myride_api.Common.{
  ℕ, ◌-◌, ◌≡◌, refl, ◌==◌, leb, true, false, some, none, [], ◌∷◌, find_first, find_all, ok, is_ok,
  sort_by, insert_by, ◌⊎◌, ◌&&◌, if◌then◌else◌,
}
use myride_api.Sos.{
  SosAlert, SosStatus, Db, cancel, list_active, alert_with_id, is_active, assert_member,
}
use myride_api.Sos.Closing.{cancel-closes}
use myride_api.Tests.{db}

abbrev alert : SosAlert
alert = record {
  id = 1;
  trip_id = 1;
  sender_id = 8;
  status = SosStatus.active;
  location = record { longitude = "77.1"; latitude = "28.6" };
  address = none;
  message = none;
  alert_type = none;
  acknowledged_by = [];
  created_at = 1000;
  resolved_at = none;
}

abbrev alerts : Db
alerts = record {
  alerts = alert ∷ [];
  trips = db.trips;
  participants = db.participants;
  outbox = [];
}

first_alert : find_first (alert_with_id 1) alerts.alerts ≡ some alert
unfolding find_first
first_alert = refl

cancelled : is_ok (cancel 20000 1 8 alerts).0 ≡ true
unfolding cancel find_first
cancelled = refl

cancel-closes_example :
    (after : SosAlert) × ((cancel 20000 1 8 alerts).0 ≡ ok after)
    × (find_first (alert_with_id 1) (cancel 20000 1 8 alerts).1.alerts ≡ some after)
    × (is_active after.status ≡ false)
    × ((alert.sender_id ≡ 8)
        ⊎ ((trip : Trip) × (find_first (trip_with_id 1) alerts.trips ≡ some trip)
            × (trip.creator_id ≡ 8)))
    × (after.status ≡ (
        if 8 == 8 && leb (20000 - 1000) 30000 then SosStatus.false_alarm else SosStatus.resolved))
    × ((later other : ℕ)
        → cancel later 1 other (cancel 20000 1 8 alerts).1
          ≡ (ok after, (cancel 20000 1 8 alerts).1))
cancel-closes_example = cancel-closes 20000 1 8 alerts first_alert refl cancelled

listed : (list_active 1 8 alerts).0 ≡ ok (alert ∷ [])
unfolding list_active assert_member find_first find_all sort_by insert_by
listed = refl
