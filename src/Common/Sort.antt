-- ===== src/Common/Sort.antt =====
-- ORDER BY as a stable insertion sort.
use mathlib.Core.Bool.{Bool, true, false}
use mathlib.Core.List.{List, [], ◌∷◌}
use mathlib.Core.Path.{◌≡◌}
use mathlib.Core.Logic.{◌↔◌, inl, inr}
use myride_api.Common.Lists.{All, All-implies}
use myride_api.Common.Tests.{if◌then◌else◌, Bool-cases}

module _ {A : Type 0} where
  unfoldable pub insert_by : (A → A → Bool) → A → List A → List A
  insert_by le x [] = x ∷ []
  insert_by le x (y ∷ ys) = if le x y then x ∷ y ∷ ys else y ∷ insert_by le x ys

  unfoldable pub sort_by : (A → A → Bool) → List A → List A
  unfolding insert_by
  sort_by le [] = []
  sort_by le (x ∷ xs) = insert_by le x (sort_by le xs)

  pub All-insert_by :
      (P : A → Type 0) (le : A → A → Bool) (x : A) (ys : List A)
      → All P (insert_by le x ys) ↔ (P x × All P ys)
  unfolding insert_by
  All-insert_by P le x [] = (λ h. h, λ h. h)
  All-insert_by P le x (y ∷ ys) = elim (Bool-cases (le x y)) [
    | inl before ↦ rw before (λ h. h, λ h. h)
    | inr after ↦ rw after (
      (λ (p, h). let (q, r) = (All-insert_by P le x ys).0 h in (q, (p, r))),
      (λ (q, (p, r)). (p, (All-insert_by P le x ys).1 (q, r))),
    )
  ]

  -- Sorting keeps what holds of every element.
  pub All-sort_by :
      (P : A → Type 0) (le : A → A → Bool) (xs : List A) → All P (sort_by le xs) ↔ All P xs
  unfolding sort_by
  All-sort_by P le [] = (λ h. h, λ h. h)
  All-sort_by P le (x ∷ xs) = (
    (λ h.
        let (p, r) = (All-insert_by P le x (sort_by le xs)).0 h in (p, (All-sort_by P le xs).0 r)),
    (λ (p, h). (All-insert_by P le x (sort_by le xs)).1 (p, (All-sort_by P le xs).1 h)),
  )

  -- Each element comes before all that follow it.
  abbrev pub IsSorted : (A → A → Bool) → List A → Type 0
  IsSorted le [] = Unit
  IsSorted le (x ∷ xs) = All (λ y. le x y ≡ true) xs × IsSorted le xs

  module _ (le : A → A → Bool) (trans : (x y z : A) → le x y ≡ true → le y z ≡ true → le x z ≡ true)
      (total : (x y : A) → le x y ≡ false → le y x ≡ true) where
    insert_by-IsSorted : (x : A) (ys : List A) → IsSorted le ys → IsSorted le (insert_by le x ys)
    unfolding insert_by
    insert_by-IsSorted x [] h = (tt, tt)
    insert_by-IsSorted x (y ∷ ys) (a, h) = elim (Bool-cases (le x y)) [
      | inl before ↦ rw before (
        (
          before,
          All-implies (λ z. le y z ≡ true) (λ z. le x z ≡ true) ys (λ z p. trans x y z before p) a,
        ),
        (a, h),
      )
      | inr after ↦ rw after (
        (All-insert_by (λ z. le y z ≡ true) le x ys).1 (total x y after, a),
        insert_by-IsSorted x ys h,
      )
    ]

    -- The sort puts the elements in order.
    pub sort_by-IsSorted : (xs : List A) → IsSorted le (sort_by le xs)
    unfolding sort_by
    sort_by-IsSorted [] = tt
    sort_by-IsSorted (x ∷ xs) = insert_by-IsSorted x (sort_by le xs) (sort_by-IsSorted xs)
