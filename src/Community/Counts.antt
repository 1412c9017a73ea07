-- ===== src/Community/Counts.antt =====
-- How far a community's member_count is from the number of its active members.
use native.Mathlib.Nat.{add-zero}
use myride_api.Common.{
  ℕ, ◌+◌, ◌≡◌, refl, ap, Bool, true, false, ◌&&◌, some, List, [], ◌∷◌, ◌++◌, map, arith, ◌==◌,
  if◌then◌else◌, inl, inr, Option-cases, Bool-cases, Distinct, find_first, count_where,
  update_where, find_first-holds, find_first-update_where, count_where-append,
  count_where-update_where,
}
use myride_api.Common.Int.{pos, ◌+ℤ◌, ◌-ℤ◌, int_laws, +ℤ-one_less, +ℤ-one_more}
use myride_api.Community.{
  Community, CommunityMember, community_with_id, member_row, active_row, reactivate, deactivate,
}

abbrev pub active_in : ℕ → CommunityMember → Bool
active_in community_id m = m.community_id == community_id && m.is_active

-- The count of community x lags k behind the number of its active rows.
abbrev pub Lags : (x k : ℕ) → List Community → List CommunityMember → Type 0
Lags x k cs ms =
    (c : Community)
    → find_first (community_with_id x) cs ≡ some c
    → c.member_count +ℤ pos k ≡ pos (count_where (active_in x) ms)

abbrev pub count_up : Community → Community
count_up c = record c { member_count = c.member_count +ℤ pos 1 }

abbrev pub count_down : Community → Community
count_down c = record c { member_count = c.member_count -ℤ pos 1 }

module _ (x k : ℕ) (cs : List Community) (ms : List CommunityMember) (h : Lags x k cs ms) where
  -- What an update of one community's row leaves at community x.
  row-cases :
      (community_id : ℕ) (f : Community → Community) {c : Community}
      → ((y : Community) → (f y).id ≡ y.id)
      → find_first (community_with_id x) (update_where (community_with_id community_id) f cs)
        ≡ some c
      → (old : Community) × (find_first (community_with_id x) cs ≡ some old)
        × (c ≡ (if x == community_id then f old else old))
  row-cases community_id f same_id e =
      let spec =
        find_first-update_where (community_with_id x) (community_with_id community_id) f cs
          (λ y. ap (λ n. n == x) (same_id y)) in
      elim (Option-cases (find_first (community_with_id x) cs)) [
        | inl missing ↦ absurd (ground (arith, spec))
        | inr (old, there) ↦
            let held : community_with_id x old ≡ true =
              find_first-holds (community_with_id x) cs there in
            (old, there, ground (arith, spec))
      ]

  -- A new active row with the count moved up.
  pub insert-Lags :
      (m : CommunityMember)
      → m.is_active ≡ true
      → Lags x k (update_where (community_with_id m.community_id) count_up cs) (ms ++ m ∷ [])
  insert-Lags m active c e =
      let (old, there, same) = row-cases m.community_id count_up (λ y. refl) e in
      let eq : c.member_count
          ≡ (if x == m.community_id then old.member_count +ℤ pos 1 else old.member_count) =
        ground (arith, same) in
      elim (Bool-cases (x == m.community_id)) [
        | inl here ↦ grind (int_laws, eq, h old there, count_where-append (active_in x) ms m)
        | inr away ↦ grind (int_laws, eq, h old there, count_where-append (active_in x) ms m)
      ]

  module _ (ids : Distinct (map (λ m. m.id) ms)) (community_id user_id : ℕ)
      (m : CommunityMember) where
    -- An active row made inactive with the count moved down.
    pub drop-Lags :
        find_first (active_row community_id user_id) ms ≡ some m
        → Lags x k
            (update_where (community_with_id community_id) count_down cs)
            (update_where (λ y. y.id == m.id) deactivate ms)
    drop-Lags found c e =
        let (old, there, same) = row-cases community_id count_down (λ y. refl) e in
        let held : active_row community_id user_id m ≡ true =
          find_first-holds (active_row community_id user_id) ms found in
        let moved =
          count_where-update_where (λ y. y.id) (active_in x) (active_row community_id user_id)
            deactivate ms ids found in
        elim (Bool-cases (x == community_id)) [
          | inl here ↦
              let eq : c.member_count ≡ old.member_count -ℤ pos 1 = ground (arith, same) in
              let less : count_where (active_in x) (update_where (λ y. y.id == m.id) deactivate ms)
                    + 1
                  ≡ count_where (active_in x) ms =
                ground (arith, moved) in
              rw eq (+ℤ-one_less _ k _ _ (h old there) less)
          | inr away ↦
              let eq : c.member_count ≡ old.member_count = ground (arith, same) in
              let kept : count_where (active_in x) (update_where (λ y. y.id == m.id) deactivate ms)
                  ≡ count_where (active_in x) ms =
                ground (arith, moved) in
              rw (eq, kept) (h old there)
        ]

    -- An inactive row made active with the count left alone.
    pub reactivate-Lags :
        find_first (member_row community_id user_id) ms ≡ some m
        → m.is_active ≡ false
        → Lags x
            (k + (if x == community_id then 1 else 0))
            cs
            (update_where (λ y. y.id == m.id) reactivate ms)
    reactivate-Lags found idle c there =
        let held : member_row community_id user_id m ≡ true =
          find_first-holds (member_row community_id user_id) ms found in
        let moved =
          count_where-update_where (λ y. y.id) (active_in x) (member_row community_id user_id)
            reactivate ms ids found in
        elim (Bool-cases (x == community_id)) [
          | inl here ↦
              let more : count_where (active_in x) (update_where (λ y. y.id == m.id) reactivate ms)
                  ≡ count_where (active_in x) ms + 1 =
                ground (arith, moved) in
              rw (here, more) (+ℤ-one_more _ k _ (h c there))
          | inr away ↦
              let kept : count_where (active_in x) (update_where (λ y. y.id == m.id) reactivate ms)
                  ≡ count_where (active_in x) ms =
                ground (arith, moved) in
              rw (away, kept, add-zero k) (h c there)
        ]
