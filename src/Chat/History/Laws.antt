-- ===== src/Chat/History/Laws.antt =====
-- The order of a room's messages, and what a cursor leaves of it: src/modules/chat/chat.service.ts.
use myride_api.Common.{
  All-of_find_all, ◌≡◌, ◌≢◌, refl, ap, ◌∙◌, Bool, true, false, ◌&&◌, List, [], ◌∷◌, ◌++◌, map,
  arith, inl, inr, Bool-cases, find_all, insert_by, sort_by, All, All-implies, All-of-map, Distinct,
  IsSorted, sort_by-IsSorted, ◌==◌, ==_iff, if◌then◌else◌,
}
use myride_api.Chat.{ChatMessage}
use myride_api.Chat.History.{newest_first, precedes}

module _ {A : Type 0} where
  pub find_all-and :
      (p q : A → Bool) (xs : List A) → find_all (λ x. p x && q x) xs ≡ find_all q (find_all p xs)
  unfolding find_all
  find_all-and p q [] = refl
  find_all-and p q (x ∷ xs) = ground (arith, find_all-and p q xs)

  -- What comes before every element is put in front.
  insert_by-front :
      (le : A → A → Bool) (x : A) (ys : List A)
      → All (λ y. le x y ≡ true) ys
      → insert_by le x ys ≡ x ∷ ys
  unfolding insert_by
  insert_by-front le x [] h = refl
  insert_by-front le x (y ∷ ys) (p, h) = rw p refl

  module _ (le : A → A → Bool) (trans : (x y z : A) → le x y ≡ true → le y z ≡ true → le x z ≡ true)
      (p : A → Bool) where
    find_all-insert_by :
        (x : A) (ys : List A)
        → IsSorted le ys
        → find_all p (insert_by le x ys)
          ≡ (if p x then insert_by le x (find_all p ys) else find_all p ys)
    unfolding find_all insert_by
    find_all-insert_by x [] h = elim (Bool-cases (p x)) [
      | inl hit ↦ rw hit refl
      | inr miss ↦ rw miss refl
    ]
    find_all-insert_by x (y ∷ ys) (a, h) = elim (Bool-cases (le x y)) [
      | inl before ↦
          let later : All (λ z. le x z ≡ true) (find_all p ys) =
            All-of_find_all (λ z. le x z ≡ true) p ys
              (All-implies (λ z. le y z ≡ true) (λ z. le x z ≡ true) ys
                (λ z q. trans x y z before q) a) in
          ground (arith, before, insert_by-front le x (find_all p ys) later)
      | inr after ↦ ground (arith, after, find_all-insert_by x ys h)
    ]

    module _ (total : (x y : A) → le x y ≡ false → le y x ≡ true) where
      -- Filtering and sorting can be done in either order.
      pub find_all-sort_by : (xs : List A) → find_all p (sort_by le xs) ≡ sort_by le (find_all p xs)
      unfolding find_all sort_by
      find_all-sort_by [] = refl
      find_all-sort_by (x ∷ xs) =
          let sorted = sort_by-IsSorted le trans total xs in
          let spec =
            find_all-insert_by x (sort_by le xs) sorted
            ∙ ap (λ ys. if p x then insert_by le x ys else ys) (find_all-sort_by xs) in
          elim (Bool-cases (p x)) [
            | inl hit ↦ rw hit (rw hit at spec)
            | inr miss ↦ rw miss (rw miss at spec)
          ]

pub newest_first_trans :
    (a b c : ChatMessage)
    → newest_first a b ≡ true
    → newest_first b c ≡ true
    → newest_first a c ≡ true
newest_first_trans a b c h k = ground arith

pub newest_first-total : (a b : ChatMessage) → newest_first a b ≡ false → newest_first b a ≡ true
newest_first-total a b h = ground arith

-- A message that is sorted after another one precedes it in time, if the ids differ.
newest_first-precedes :
    (a b : ChatMessage) → newest_first a b ≡ true → a.id ≢ b.id → precedes a b ≡ true
newest_first-precedes a b h n = elim (Bool-cases (a.id == b.id)) [
  | inl eq ↦ absurd (n ((==_iff a.id b.id).0 eq))
  | inr ne ↦ ground arith
]

precedes-not_self : (a : ChatMessage) → precedes a a ≡ false
precedes-not_self a = ground arith

newest_first-not_precedes : (a b : ChatMessage) → newest_first a b ≡ true → precedes b a ≡ false
newest_first-not_precedes a b h = ground arith

All-precede :
    (c : ChatMessage) (rest : List ChatMessage)
    → All (λ m. newest_first c m ≡ true) rest
    → All (λ (m : ChatMessage). c.id ≢ m.id) rest
    → find_all (precedes c) rest ≡ rest
unfolding find_all
All-precede c [] a n = refl
All-precede c (m ∷ rest) (p, a) (q, n) =
    rw (newest_first-precedes c m p q, All-precede c rest a n) refl

pub All-middle :
    (P : ChatMessage → Type 0) (front : List ChatMessage) (c : ChatMessage)
    (rest : List ChatMessage)
    → All P (front ++ c ∷ rest)
    → P c
All-middle P [] c rest (p, h) = p
All-middle P (x ∷ front) c rest (_, h) = All-middle P front c rest h

-- In the order, what precedes one of the messages is what comes after it.
pub find_all-precedes :
    (front : List ChatMessage) (c : ChatMessage) (rest : List ChatMessage)
    → IsSorted newest_first (front ++ c ∷ rest)
    → Distinct (map (λ m. m.id) (front ++ c ∷ rest))
    → find_all (precedes c) (front ++ c ∷ rest) ≡ rest
unfolding find_all
find_all-precedes [] c rest (a, h) (n, d) =
    rw (precedes-not_self c) (All-precede c rest a (All-of-map (λ j. c.id ≢ j) (λ m. m.id) rest n))
find_all-precedes (x ∷ front) c rest (a, h) (n, d) =
    rw (newest_first-not_precedes x c (All-middle (λ y. newest_first x y ≡ true) front c rest a))
      (find_all-precedes front c rest h d)
