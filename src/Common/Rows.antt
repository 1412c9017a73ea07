-- ===== src/Common/Rows.antt =====
-- What queries and updates leave of a property of the rows, and of their number.
use Prim.Native.Nat.{ℕ, ◌+◌, ◌≤◌}
use mathlib.Core.Path.{◌≡◌, refl, ap, subst, sym}
use mathlib.Core.Logic.{◌≢◌, ◌⊎◌, inl, inr}
use mathlib.Core.Bool.{Bool, true, false}
use mathlib.Core.Option
use mathlib.Core.Option.{Option, none, some}
use mathlib.Core.List.{List, [], ◌∷◌, map}
use native.Mathlib.Omega.{arith}
use myride_api.Common.Tests.{if◌then◌else◌, ◌==◌, ==_iff, Bool-cases}
use myride_api.Common.Lists.{All, All-implies, Distinct}
use myride_api.Common.Table.{
  find_first, find_all, count_where, update_where, update_where-none, All-of-map,
}

module _ {A : Type 0} where
  -- A property of all keys holds of the row that a query finds.
  pub find_first-All :
      {K : Type 0} (P : K → Type 0) (key : A → K) (q : A → Bool) (xs : List A) {r : A}
      → All P (map key xs)
      → find_first q xs ≡ some r
      → P (key r)
  unfolding find_first
  find_first-All P key q [] h e = cc
  find_first-All P key q (x ∷ xs) {r} (p, h) e = elim (Bool-cases (q x)) [
    | inl hit ↦ let same : x ≡ r = ground arith in subst (λ z. P (key z)) same p
    | inr miss ↦ find_first-All P key q xs h (rw miss at e)
  ]

  All-other_keys :
      (id : A → ℕ) (n : ℕ) (xs : List A)
      → All (λ j. n ≢ j) (map id xs)
      → All (λ x. (id x == n) ≡ false) xs
  All-other_keys id n [] h = tt
  All-other_keys id n (x ∷ xs) (p, h) = (ground arith, All-other_keys id n xs h)

  -- An update of the one row with a given key changes a count by that row alone.
  pub count_where-update_where :
      (id : A → ℕ) (p q : A → Bool) (f : A → A) (xs : List A) {r : A}
      → Distinct (map id xs)
      → find_first q xs ≡ some r
      → count_where p (update_where (λ x. id x == id r) f xs) + (if p r then 1 else 0)
        ≡ count_where p xs + (if p (f r) then 1 else 0)
  unfolding find_first count_where update_where
  count_where-update_where id p q f [] d e = cc
  count_where-update_where id p q f (x ∷ xs) {r} (a, d) e = elim (Bool-cases (q x)) [
    | inl hit ↦
        let same : x ≡ r = ground arith in
        let others : All (λ j. id r ≢ j) (map id xs) =
          subst (λ z. All (λ j. id z ≢ j) (map id xs)) same a in
        let kept : update_where (λ y. id y == id r) f xs ≡ xs =
          update_where-none (λ y. id y == id r) f xs (All-other_keys id (id r) xs others) in
        ground (arith, kept, ap id same, ap p same, ap (λ z. p (f z)) same)
    | inr miss ↦
        let found : find_first q xs ≡ some r = rw miss at e in
        ground (
          arith,
          find_first-All (λ j. id x ≢ j) id q xs a found,
          count_where-update_where id p q f xs d found,
        )
  ]

  -- A row that a query finds is counted.
  pub count_where-pos :
      (p q : A → Bool) (xs : List A) {r : A}
      → find_first q xs ≡ some r
      → p r ≡ true
      → 1 ≤ count_where p xs
  unfolding find_first count_where
  count_where-pos p q [] e h = cc
  count_where-pos p q (x ∷ xs) e h = elim (Bool-cases (q x)) [
    | inl hit ↦ ground (arith, hit)
    | inr miss ↦ ground (arith, count_where-pos p q xs (rw miss at e) h)
  ]

  -- Nothing is counted where a weaker query finds nothing.
  pub count_where-none :
      (p q : A → Bool) (xs : List A)
      → ((x : A) → q x ≡ false → p x ≡ false)
      → find_first q xs ≡ none
      → count_where p xs ≡ 0
  unfolding find_first count_where
  count_where-none p q [] sep e = refl
  count_where-none p q (x ∷ xs) sep e = elim (Bool-cases (q x)) [
    | inl hit ↦ absurd (ground arith)
    | inr miss ↦ ground (arith, sep x miss, count_where-none p q xs sep (rw miss at e))
  ]

  -- A row that shares a distinct key with a found row is that row, so it shares its id too.
  pub All-same_key :
      {K : Type 0} (key : A → K) (id : A → ℕ) (q : A → Bool) (xs : List A) {r : A}
      → Distinct (map key xs)
      → find_first q xs ≡ some r
      → All (λ x. (id x ≡ id r) ⊎ (key x ≢ key r)) xs
  unfolding find_first
  All-same_key key id q [] d e = cc
  All-same_key key id q (x ∷ xs) {r} (a, d) e = elim (Bool-cases (q x)) [
    | inl hit ↦
        let same : x ≡ r = ground arith in
        let others : All (λ j. key r ≢ j) (map key xs) =
          subst (λ z. All (λ j. key z ≢ j) (map key xs)) same a in
        (
          inl (ap id same),
          All-implies (λ y. key r ≢ key y) (λ y. (id y ≡ id r) ⊎ (key y ≢ key r)) xs
              (λ y n. inr (λ p. n (sym p))) (All-of-map (λ j. key r ≢ j) key xs others),
        )
    | inr miss ↦
        let found : find_first q xs ≡ some r = rw miss at e in
        (inr (find_first-All (λ j. key x ≢ j) key q xs a found), All-same_key key id q xs d found)
  ]

  -- Where every row fails a test after an update, the test finds nothing.
  pub find_first-update_where-none :
      (q k : A → Bool) (f : A → A) (xs : List A)
      → All (λ x. ((k x ≡ true) × (q (f x) ≡ false)) ⊎ ((k x ≡ false) × (q x ≡ false))) xs
      → find_first q (update_where k f xs) ≡ none
  unfolding find_first update_where
  find_first-update_where-none q k f [] h = refl
  find_first-update_where-none q k f (x ∷ xs) (p, h) =
      ground (arith, find_first-update_where-none q k f xs h)

  -- Where no row passed a test, an update that makes rows pass it is found at its first row.
  pub find_first-update_where-new :
      (q k : A → Bool) (f : A → A) (xs : List A)
      → find_first q xs ≡ none
      → ((x : A) → q (f x) ≡ true)
      → find_first q (update_where k f xs) ≡ Option.map f (find_first k xs)
  unfolding find_first update_where
  find_first-update_where-new q k f [] e h = refl
  find_first-update_where-new q k f (x ∷ xs) e h = elim (Bool-cases (q x)) [
    | inl hit ↦ absurd (ground arith)
    | inr miss ↦ ground (arith, h x, find_first-update_where-new q k f xs (rw miss at e) h)
  ]

  -- What one query finds, a query that the row passes finds something for.
  pub find_first-some :
      (q k : A → Bool) (xs : List A) {r : A}
      → find_first q xs ≡ some r
      → k r ≡ true
      → (x : A) × (find_first k xs ≡ some x)
  unfolding find_first
  find_first-some q k [] e h = cc
  find_first-some q k (x ∷ xs) {r} e h = elim (Bool-cases (q x)) [
    | inl hit ↦ let same : x ≡ r = ground arith in (x, ground (arith, ap k same))
    | inr miss ↦ elim (Bool-cases (k x)) [
      | inl here ↦ (x, rw here)
      | inr later ↦ let (y, found) = find_first-some q k xs (rw miss at e) h in (y, rw later found)
    ]
  ]

  -- What holds of the rows that a query returns holds of the table's rows that pass it.
  pub All-find_all :
      (P : A → Type 0) (k : A → Bool) (xs : List A)
      → All P (find_all k xs)
      → All (λ x. k x ≡ true → P x) xs
  unfolding find_all
  All-find_all P k [] h = tt
  All-find_all P k (x ∷ xs) h = elim (Bool-cases (k x)) [
    | inl hit ↦ let (p, r) = rw hit at h in ((λ _. p), All-find_all P k xs r)
    | inr miss ↦ ((λ e. absurd (ground arith)), All-find_all P k xs (rw miss at h))
  ]

  pub All-find_first :
      (P : A → Type 0) (q : A → Bool) (xs : List A) {r : A}
      → All P xs
      → find_first q xs ≡ some r
      → P r
  unfolding find_first
  All-find_first P q [] h e = cc
  All-find_first P q (x ∷ xs) {r} (p, h) e = elim (Bool-cases (q x)) [
    | inl hit ↦ let same : x ≡ r = ground arith in subst P same p
    | inr miss ↦ All-find_first P q xs h (rw miss at e)
  ]

  -- An update that makes no row pass a test does not raise its count.
  pub count_where-update_where_le :
      (p k : A → Bool) (f : A → A) (xs : List A)
      → ((x : A) → p (f x) ≡ false)
      → count_where p (update_where k f xs) ≤ count_where p xs
  unfolding count_where update_where
  count_where-update_where_le p k f [] h = omega arith
  count_where-update_where_le p k f (x ∷ xs) h =
      ground (arith, h x, count_where-update_where_le p k f xs h)

  -- A query keeps what holds of every row, and its test holds of what it returns.
  pub All-of_find_all :
      (P : A → Type 0) (k : A → Bool) (xs : List A) → All P xs → All P (find_all k xs)
  unfolding find_all
  All-of_find_all P k [] h = tt
  All-of_find_all P k (x ∷ xs) (p, h) = elim (Bool-cases (k x)) [
    | inl hit ↦ rw hit (p, All-of_find_all P k xs h)
    | inr miss ↦ rw miss (All-of_find_all P k xs h)
  ]

  pub find_all-holds : (k : A → Bool) (xs : List A) → All (λ x. k x ≡ true) (find_all k xs)
  unfolding find_all
  find_all-holds k [] = tt
  find_all-holds k (x ∷ xs) = elim (Bool-cases (k x)) [
    | inl hit ↦ rw hit (hit, find_all-holds k xs)
    | inr miss ↦ rw miss (find_all-holds k xs)
  ]

  -- With distinct ids, each row is what its id finds.
  pub All-found :
      (id : A → ℕ) (xs : List A)
      → Distinct (map id xs)
      → All (λ x. find_first (λ y. id y == id x) xs ≡ some x) xs
  unfolding find_first
  All-found id [] h = tt
  All-found id (x ∷ xs) (n, h) = (
    rw ((==_iff (id x) (id x)).1 refl) refl,
    skips xs (All-of-map (λ j. id x ≢ j) id xs n) (All-found id xs h),
  )
    where
      skips :
          (ys : List A)
          → All (λ y. id x ≢ id y) ys
          → All (λ y. find_first (λ z. id z == id y) xs ≡ some y) ys
          → All (λ y. find_first (λ z. id z == id y) (x ∷ xs) ≡ some y) ys
      skips [] a f = tt
      skips (y ∷ ys) (p, a) (q, f) = elim (Bool-cases (id x == id y)) [
        | inl eq ↦ absurd (p ((==_iff (id x) (id y)).0 eq))
        | inr ne ↦ (rw ne q, skips ys a f)
      ]
