-- ===== src/Common/Table.antt =====
-- A table is the list of its rows. The WHERE clause of a query is a Boolean test of a row.
use Prim.Native.Nat.{ℕ, ◌+◌}
use mathlib.Core.Path.{◌≡◌, refl, ap}
use mathlib.Core.Logic.{◌≢◌, inl, inr}
use mathlib.Core.Bool.{Bool, true, false}
use mathlib.Core.Option
use mathlib.Core.Option.{Option, none, some}
use mathlib.Core.List.{List, [], ◌∷◌, ◌++◌, map}
use native.Mathlib.Omega.{arith}
use myride_api.Common.Tests.{if◌then◌else◌, Bool-cases}
use myride_api.Common.Lists.{All, All-implies, Distinct, Distinct-snoc}

module _ {A : Type 0} where
  -- `findOne`: the first row that passes, if any.
  unfoldable pub find_first : (A → Bool) → List A → Option A
  find_first p [] = none
  find_first p (x ∷ xs) = if p x then some x else find_first p xs

  -- `find`: the rows that pass, in the table's order.
  unfoldable pub find_all : (A → Bool) → List A → List A
  find_all p [] = []
  find_all p (x ∷ xs) = let rest = find_all p xs in if p x then x ∷ rest else rest

  unfoldable pub count_where : (A → Bool) → List A → ℕ
  count_where p [] = 0
  count_where p (x ∷ xs) = (if p x then 1 else 0) + count_where p xs

  -- `UPDATE … SET … WHERE …`
  unfoldable pub update_where : (A → Bool) → (A → A) → List A → List A
  update_where p f [] = []
  update_where p f (x ∷ xs) = (if p x then f x else x) ∷ update_where p f xs

  -- `DELETE … WHERE …`
  unfoldable pub delete_where : (A → Bool) → List A → List A
  delete_where p [] = []
  delete_where p (x ∷ xs) = let rest = delete_where p xs in if p x then rest else x ∷ rest

  pub find_first-holds :
      (p : A → Bool) (xs : List A) {x : A} → find_first p xs ≡ some x → p x ≡ true
  unfolding find_first
  find_first-holds p [] e = cc
  find_first-holds p (y ∷ xs) e = elim (Bool-cases (p y)) [
    | inl h ↦ ground arith
    | inr h ↦ find_first-holds p xs (rw h at e)
  ]

  pub find_first-eq-none :
      (p : A → Bool) (xs : List A) → find_first p xs ≡ none → All (λ x. p x ≡ false) xs
  unfolding find_first
  find_first-eq-none p [] e = tt
  find_first-eq-none p (y ∷ xs) e = elim (Bool-cases (p y)) [
    | inl h ↦ absurd (ground arith)
    | inr h ↦ (h, find_first-eq-none p xs (rw h at e))
  ]

  -- Updating rows keeps the answer of a query that the update does not touch, up to the update.
  pub find_first-update_where :
      (q k : A → Bool) (f : A → A) (xs : List A)
      → ((x : A) → q (f x) ≡ q x)
      → find_first q (update_where k f xs)
        ≡ Option.map (λ x. if k x then f x else x) (find_first q xs)
  unfolding find_first update_where
  find_first-update_where q k f [] h = refl
  find_first-update_where q k f (x ∷ xs) h = ground (arith, h x, find_first-update_where q k f xs h)

  pub find_first-append :
      (q : A → Bool) (xs : List A) (y : A)
      → find_first q (xs ++ y ∷ [])
        ≡ elim (find_first q xs) [ none ↦ if q y then some y else none | some x ↦ some x ]
  unfolding find_first
  find_first-append q [] y = refl
  find_first-append q (x ∷ xs) y = ground (arith, find_first-append q xs y)

  pub count_where-append :
      (p : A → Bool) (xs : List A) (y : A)
      → count_where p (xs ++ y ∷ []) ≡ count_where p xs + (if p y then 1 else 0)
  unfolding count_where
  count_where-append p [] y = omega arith
  count_where-append p (x ∷ xs) y = omega (arith, count_where-append p xs y)

  pub update_where-none :
      (k : A → Bool) (f : A → A) (xs : List A)
      → All (λ x. k x ≡ false) xs
      → update_where k f xs ≡ xs
  unfolding update_where
  update_where-none k f [] h = refl
  update_where-none k f (x ∷ xs) (e, h) = rw (e, update_where-none k f xs h)

  pub map-update_where :
      {K : Type 0} (key : A → K) (k : A → Bool) (f : A → A) (xs : List A)
      → ((x : A) → key (f x) ≡ key x)
      → map key (update_where k f xs) ≡ map key xs
  unfolding update_where
  map-update_where key k f [] h = refl
  map-update_where key k f (x ∷ xs) h = ground (arith, h x, map-update_where key k f xs h)

  pub map-append_row :
      {K : Type 0} (key : A → K) (xs : List A) (y : A)
      → map key (xs ++ y ∷ []) ≡ map key xs ++ key y ∷ []
  map-append_row key [] y = refl
  map-append_row key (x ∷ xs) y = ap (λ r. key x ∷ r) (map-append_row key xs y)

  pub All-map :
      {K : Type 0} (P : K → Type 0) (key : A → K) (xs : List A)
      → All (λ x. P (key x)) xs
      → All P (map key xs)
  All-map P key [] h = tt
  All-map P key (x ∷ xs) (p, h) = (p, All-map P key xs h)

  pub All-of-map :
      {K : Type 0} (P : K → Type 0) (key : A → K) (xs : List A)
      → All P (map key xs)
      → All (λ x. P (key x)) xs
  All-of-map P key [] h = tt
  All-of-map P key (x ∷ xs) (p, h) = (p, All-of-map P key xs h)

  -- A row added under a key that no query finds leaves the keys distinct.
  pub Distinct-insert :
      {K : Type 0} (key : A → K) (q : A → Bool) (xs : List A) (y : A)
      → ((x : A) → q x ≡ false → key x ≢ key y)
      → find_first q xs ≡ none
      → Distinct (map key xs)
      → Distinct (map key (xs ++ y ∷ []))
  Distinct-insert key q xs y sep e h = rw (map-append_row key xs y) (
      Distinct-snoc (map key xs) (key y) h (
        All-map (λ j. j ≢ key y) key xs
          (All-implies (λ x. q x ≡ false) (λ x. key x ≢ key y) xs sep (find_first-eq-none q xs e))))
