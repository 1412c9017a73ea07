-- ===== src/Version/Order.antt =====
-- `compare` of src/modules/version/version.service.ts is the lexicographic order.
use myride_api.Common.{
  ◌+◌, ◌<◌, ◌≡◌, refl, ap, ◌↔◌, ◌⊎◌, inl, inr, true, false, List, arith, Bool-cases,
}
use myride_api.Common.Int.{ℤ, pos, negsuc, ◌-ℤ◌, pos_part, neg_part}
use myride_api.Version.{part, same_ℤ, compare, is_negative}

abbrev pub IsLess : ℤ → ℤ → Type 0
IsLess a b = pos_part a + neg_part b < pos_part b + neg_part a

-- The first part that differs decides.
abbrev pub IsBefore : List ℤ → List ℤ → Type 0
IsBefore a b =
    IsLess (part 0 a) (part 0 b)
    ⊎ ((part 0 a ≡ part 0 b)
        × (IsLess (part 1 a) (part 1 b) ⊎ ((part 1 a ≡ part 1 b) × IsLess (part 2 a) (part 2 b))))

same_ℤ_to : (a b : ℤ) → same_ℤ a b ≡ true → a ≡ b
same_ℤ_to (pos m) (pos n) h = ground arith
same_ℤ_to (negsuc m) (negsuc n) h = ground arith
same_ℤ_to (pos m) (negsuc n) h = cc
same_ℤ_to (negsuc m) (pos n) h = cc

same_ℤ_refl : (a : ℤ) → same_ℤ a a ≡ true
same_ℤ_refl (pos m) = ground arith
same_ℤ_refl (negsuc m) = ground arith

pub ℤ-cases : (a b : ℤ) → IsLess a b ⊎ ((a ≡ b) ⊎ IsLess b a)
ℤ-cases (pos m) (pos n) = ground arith
ℤ-cases (pos m) (negsuc n) = ground arith
ℤ-cases (negsuc m) (pos n) = ground arith
ℤ-cases (negsuc m) (negsuc n) = ground arith

IsLess-ne : (a b : ℤ) → IsLess a b → same_ℤ a b ≡ false
IsLess-ne a b h = elim (Bool-cases (same_ℤ a b)) [
  | inl same ↦
      let eq = same_ℤ_to a b same in absurd (ground (arith, ap pos_part eq, ap neg_part eq))
  | inr differs ↦ differs
]

is_negative-sub : (a b : ℤ) → (is_negative (a -ℤ b) ≡ true) ↔ IsLess a b
unfolding ◌-ℤ◌
is_negative-sub a b = ground arith

same_ℤ_sym : (a b : ℤ) → same_ℤ a b ≡ same_ℤ b a
same_ℤ_sym (pos m) (pos n) = ground arith
same_ℤ_sym (negsuc m) (negsuc n) = ground arith
same_ℤ_sym (pos m) (negsuc n) = refl
same_ℤ_sym (negsuc m) (pos n) = refl

-- A version counts as older than another exactly if the first of the three parts in which they differ
-- is less, a missing part being 0.
pub compare-IsBefore : (a b : List ℤ) → (is_negative (compare a b) ≡ true) ↔ IsBefore a b
unfolding compare
compare-IsBefore a b = ground (
  arith,
  same_ℤ_to (part 0 a) (part 0 b),
  same_ℤ_to (part 1 a) (part 1 b),
  same_ℤ_to (part 2 a) (part 2 b),
  IsLess-ne (part 0 a) (part 0 b),
  IsLess-ne (part 1 a) (part 1 b),
  IsLess-ne (part 2 a) (part 2 b),
  is_negative-sub (part 0 a) (part 0 b),
  is_negative-sub (part 1 a) (part 1 b),
  is_negative-sub (part 2 a) (part 2 b),
)
