-- ===== src/Common/Text.antt =====
-- What the services use of JavaScript's strings: `trim`, `length` and `slice(0, n)`. Positions count
-- UTF-16 units, of which a character outside the basic plane has two; where such a character does not
-- fit whole, `slice_units` leaves it out.
use Prim.Native.Nat.{ℕ, ◌+◌, ◌-◌, ◌≤◌}
use Prim.Native.Char.{Char, code}
use Prim.Native.String.{String}
use mathlib.Core.Path.{◌≡◌, refl}
use mathlib.Core.Logic.{inl, inr}
use mathlib.Core.Bool.{Bool, true, false, ◌&&◌, ◌||◌}
use native.Mathlib.Omega.{arith}
use myride_api.Common.Tests.{if◌then◌else◌, ◌==◌, leb, Bool-cases}

-- White space and line terminators.
abbrev pub is_space : Char → Bool
is_space c =
    let n = code c in
    leb 9 n && leb n 13
    || n == 32
    || n == 160
    || n == 5760
    || leb 8192 n && leb n 8202
    || n == 8232
    || n == 8233
    || n == 8239
    || n == 8287
    || n == 12288
    || n == 65279

unfoldable pub trim_start : String → String
trim_start String.[] = String.[]
trim_start (String.◌∷◌ c s) = let rest = trim_start s in if is_space c then rest else String.◌∷◌ c s

abbrev pub is_empty : String → Bool
is_empty String.[] = true
is_empty (String.◌∷◌ _ _) = false

unfoldable pub trim_end : String → String
trim_end String.[] = String.[]
trim_end (String.◌∷◌ c s) =
    let rest = trim_end s in if is_space c && is_empty rest then String.[] else String.◌∷◌ c rest

abbrev pub trim : String → String
trim s = trim_end (trim_start s)

abbrev pub units : Char → ℕ
units c = if leb 65536 (code c) then 2 else 1

unfoldable pub length_units : String → ℕ
length_units String.[] = 0
length_units (String.◌∷◌ c s) = units c + length_units s

unfoldable pub slice_units : ℕ → String → String
slice_units n String.[] = String.[]
slice_units n (String.◌∷◌ c s) =
    let rest = slice_units (n - units c) s in
    if leb (units c) n then String.◌∷◌ c rest else String.[]

pub length_units-slice_units : (n : ℕ) (s : String) → length_units (slice_units n s) ≤ n
unfolding length_units slice_units
length_units-slice_units n String.[] = omega arith
length_units-slice_units n (String.◌∷◌ c s) = elim (Bool-cases (leb (units c) n)) [
  | inl fits ↦ rw fits (ground (arith, length_units-slice_units (n - units c) s))
  | inr over ↦ rw over (omega arith)
]

trim_end_idem : (s : String) → trim_end (trim_end s) ≡ trim_end s
unfolding trim_end
trim_end_idem String.[] = refl
trim_end_idem (String.◌∷◌ c s) = elim (Bool-cases (is_space c && is_empty (trim_end s))) [
  | inl blank ↦ rw blank refl
  | inr kept ↦ rw kept (rw (trim_end_idem s, kept) refl)
]
