-- ===== src/Sos/Listing.antt =====
-- The list of a trip's active alerts: `listActive` of src/modules/sos/sos.service.ts.

use myride_api.Common.{
  ℕ, ◌+◌, ◌≡◌, refl, sym, ◌∙◌, ap, subst, Bool, true, ◌&&◌, List, [], ◌∷◌, if◌then◌else◌, ok,
  find_all, count_where, sort_by, insert_by, inl, inr, arith, Bool-cases, All, All-sort_by,
  IsSorted, sort_by-IsSorted,
}
use myride_api.Sos.{SosAlert, Db, list_active, newest_first, active_of, assert_member}

passing_rows : (k : SosAlert → Bool) (xs : List SosAlert) → All (λ a. k a ≡ true) (find_all k xs)
unfolding find_all
passing_rows k [] = tt
passing_rows k (a ∷ xs) = elim (Bool-cases (k a)) [
  | inl hit ↦ rw hit (hit, passing_rows k xs)
  | inr miss ↦ rw miss (passing_rows k xs)
]

list_active-eq :
    (trip_id user_id : ℕ) (db : Db) {alerts : List SosAlert}
    → (list_active trip_id user_id db).0 ≡ ok alerts
    → sort_by newest_first (find_all (active_of trip_id) db.alerts) ≡ alerts
unfolding list_active assert_member
list_active-eq trip_id user_id db listed = ground arith

count_where-insert_by :
    (k : SosAlert → Bool) (a : SosAlert) (xs : List SosAlert)
    → count_where k (insert_by newest_first a xs) ≡ count_where k (a ∷ xs)
unfolding insert_by count_where
count_where-insert_by k a [] = refl
count_where-insert_by k a (x ∷ xs) = ground (arith, count_where-insert_by k a xs)

count_where-sort_by :
    (k : SosAlert → Bool) (xs : List SosAlert)
    → count_where k (sort_by newest_first xs) ≡ count_where k xs
unfolding sort_by count_where
count_where-sort_by k [] = refl
count_where-sort_by k (x ∷ xs) =
    count_where-insert_by k x (sort_by newest_first xs)
    ∙ ap (λ n. (if k x then 1 else 0) + n) (count_where-sort_by k xs)

count_where-find_all :
    (k p : SosAlert → Bool) (xs : List SosAlert)
    → count_where k (find_all p xs) ≡ count_where (λ a. p a && k a) xs
unfolding find_all count_where
count_where-find_all k p [] = refl
count_where-find_all k p (x ∷ xs) = ground (arith, count_where-find_all k p xs)

-- The list of a trip's active alerts is in order, newest first, holds only alerts of the trip that
-- are active, and misses and repeats none: of the alerts that pass any test it has as many as the
-- table has active ones of the trip that pass.
pub list_active-exact :
    (trip_id user_id : ℕ) (db : Db) (k : SosAlert → Bool) {alerts : List SosAlert}
    → (list_active trip_id user_id db).0 ≡ ok alerts
    → IsSorted newest_first alerts
      × All (λ a. active_of trip_id a ≡ true) alerts
      × (count_where k alerts ≡ count_where (λ a. active_of trip_id a && k a) db.alerts)
list_active-exact trip_id user_id db k {alerts} listed =
    let rows = find_all (active_of trip_id) db.alerts in
    let eq = list_active-eq trip_id user_id db listed in
    (
      subst (IsSorted newest_first) eq
          (sort_by-IsSorted newest_first (λ x y z a b. ground arith) (λ x y a. ground arith) rows),
      subst (All (λ a. active_of trip_id a ≡ true)) eq
          ((All-sort_by _ newest_first rows).1 (passing_rows (active_of trip_id) db.alerts)),
      ap (count_where k) (sym eq)
          ∙ count_where-sort_by k rows
          ∙ count_where-find_all k (active_of trip_id) db.alerts,
    )
