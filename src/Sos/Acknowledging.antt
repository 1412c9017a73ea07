-- ===== src/Sos/Acknowledging.antt =====
-- Acknowledging an alert: `acknowledge` of src/modules/sos/sos.service.ts.
use mathlib.Core.Option
use myride_api.Common.{
  ℕ, ◌≡◌, refl, sym, ◌∙◌, subst, true, false, some, none, List, [], ◌∷◌, ◌++◌, map, ==_iff, is_some,
  ok, is_ok, find_first, update_where, ◌⊎◌, inl, inr, arith, Bool-cases, Option-cases, All-implies,
  Distinct, Distinct-snoc, find_first-append, find_first-eq-none, All-map, map-append_row,
}
use myride_api.Sos.{
  SosAlert, Ack, Db, alert_with_id, acknowledge, acknowledged, ack_of, assert_member,
}
use myride_api.Sos.Closing.{found_updated}

acknowledge-cases :
    (now sos_id user_id : ℕ) (db : Db)
    → is_ok (acknowledge now sos_id user_id db).0 ≡ true
    → (alert : SosAlert) × (find_first (alert_with_id sos_id) db.alerts ≡ some alert)
      × ((assert_member alert.trip_id user_id db).0 ≡ ok tt)
      × (((is_some (find_first (ack_of user_id) alert.acknowledged_by) ≡ true)
            × (acknowledge now sos_id user_id db ≡ (ok alert, db)))
          ⊎ ((is_some (find_first (ack_of user_id) alert.acknowledged_by) ≡ false)
              × (acknowledge now sos_id user_id db ≡ (
                ok (acknowledged now user_id alert),
                record db {
                  alerts =
                      update_where (alert_with_id alert.id) (acknowledged now user_id) db.alerts;
                },
              ))))
unfolding acknowledge assert_member
acknowledge-cases now sos_id user_id db accepted =
    elim (Option-cases (find_first (alert_with_id sos_id) db.alerts)) [
      | inl gone ↦ absurd (ground arith)
      | inr (alert, at) ↦
          elim (Bool-cases (is_some (find_first (ack_of user_id) alert.acknowledged_by))) [
            | inl already ↦ (alert, at, ground arith, inl (already, ground arith))
            | inr first ↦ (alert, at, ground arith, inr (first, ground arith))
          ]
    ]

acknowledge-already :
    (now sos_id user_id : ℕ) (db : Db) {alert : SosAlert}
    → find_first (alert_with_id sos_id) db.alerts ≡ some alert
    → (assert_member alert.trip_id user_id db).0 ≡ ok tt
    → is_some (find_first (ack_of user_id) alert.acknowledged_by) ≡ true
    → acknowledge now sos_id user_id db ≡ (ok alert, db)
unfolding acknowledge assert_member
acknowledge-already now sos_id user_id db at member already = rw at (ground arith)

assert_member-same :
    (trip_id user_id : ℕ) (db : Db) (alerts : List SosAlert)
    → (assert_member trip_id user_id (record db { alerts = alerts })).0
      ≡ (assert_member trip_id user_id db).0
unfolding assert_member
assert_member-same trip_id user_id db alerts = ground arith

ack_after :
    (now user_id : ℕ) (acks : List Ack)
    → is_some (
        find_first
          (ack_of user_id)
          (acks ++ record { user_id = user_id; acknowledged_at = now } ∷ []))
      ≡ true
ack_after now user_id acks =
    rw
      (find_first-append (ack_of user_id) acks
        (record { user_id = user_id; acknowledged_at = now }))
      (elim (Option-cases (find_first (ack_of user_id) acks)) [
        | inl gone ↦ rw gone (ground arith)
        | inr (a, at) ↦ rw at refl
      ])

acks_distinct :
    (now user_id : ℕ) (acks : List Ack)
    → is_some (find_first (ack_of user_id) acks) ≡ false
    → Distinct (map (λ a. a.user_id) acks)
    → Distinct
        (map (λ a. a.user_id) (acks ++ record { user_id = user_id; acknowledged_at = now } ∷ []))
acks_distinct now user_id acks first distinct =
    let gone : find_first (ack_of user_id) acks ≡ none =
      elim (Option-cases (find_first (ack_of user_id) acks)) [
        | inl none_at ↦ none_at
        | inr (a, at) ↦ absurd (ground arith)
      ] in
    rw (map-append_row (λ a. a.user_id) acks (record { user_id = user_id; acknowledged_at = now }))
      (Distinct-snoc _ user_id distinct (
        All-map _ _ acks (
          All-implies _ _ acks (λ a differs. ground (arith, ==_iff a.user_id user_id))
            (find_first-eq-none (ack_of user_id) acks gone))))

-- An accepted acknowledgement is listed once: the alert that is found afterwards, which is the one
-- that is answered, names the user, and names nobody twice if it did not before. Acknowledging again
-- at any time answers the same alert and changes nothing.
pub acknowledge-once :
    (now sos_id user_id : ℕ) (db : Db) {alert : SosAlert}
    → find_first (alert_with_id sos_id) db.alerts ≡ some alert
    → Distinct (map (λ a. a.user_id) alert.acknowledged_by)
    → is_ok (acknowledge now sos_id user_id db).0 ≡ true
    → (after : SosAlert) × ((acknowledge now sos_id user_id db).0 ≡ ok after)
      × (find_first (alert_with_id sos_id) (acknowledge now sos_id user_id db).1.alerts
          ≡ some after)
      × (is_some (find_first (ack_of user_id) after.acknowledged_by) ≡ true)
      × Distinct (map (λ a. a.user_id) after.acknowledged_by)
      × ((later : ℕ)
          → acknowledge later sos_id user_id (acknowledge now sos_id user_id db).1
            ≡ (ok after, (acknowledge now sos_id user_id db).1))
acknowledge-once now sos_id user_id db {alert} at distinct accepted =
    let (found, at', member, done) = acknowledge-cases now sos_id user_id db accepted in
    let same : found ≡ alert = Option.some-injective found alert (sym at' ∙ at) in
    elim done [
      | inl (already, eq) ↦ rw eq (
        found,
        refl,
        at',
        already,
        subst (λ a. Distinct (map (λ k. k.user_id) a.acknowledged_by)) (sym same) distinct,
        λ later. acknowledge-already later sos_id user_id db at' member already,
      )
      | inr (first, eq) ↦
          let listed = ack_after now user_id found.acknowledged_by in
          let at2 = found_updated sos_id (acknowledged now user_id) db.alerts (λ a. refl) at' in
          rw eq (
            acknowledged now user_id found,
            refl,
            at2,
            listed,
            acks_distinct now user_id found.acknowledged_by first (
                subst (λ a. Distinct (map (λ k. k.user_id) a.acknowledged_by)) (sym same) distinct),
            λ later.
                acknowledge-already later sos_id user_id _ at2
                  (assert_member-same found.trip_id user_id db _ ∙ member) listed,
          )
    ]
