-- ===== src/Version.antt =====
-- The version check: src/modules/version/version.service.ts. Numbers of a version are taken below 2^53,
-- where JavaScript's are exact.
pub mod Order
pub mod Updates
use Prim.Native.Char.{code}
use Prim.Native.String.{String as Text}
use text.Mathlib.Text.{◌==◌ as str_eq}
use myride_api.Common.{
  ℕ, ◌+◌, ◌-◌, ◌*◌, String, Bool, true, false, not, ◌&&◌, ◌||◌, Option, some, none, List, [], ◌∷◌,
  map, take, ◌==◌, leb, ltb, if◌then◌else◌, or_else,
}
use myride_api.Common.Int.{ℤ, pos, negsuc, ◌-ℤ◌, sub_ℕ}

abbrev pub codes : String → List ℕ
codes String.[] = []
codes (String.◌∷◌ c s) = code c ∷ codes s

abbrev pub is_digit : ℕ → Bool
is_digit c = leb b'0' c && leb c b'9'

-- The white space that parseInt skips; a version has only ASCII.
abbrev pub is_blank : ℕ → Bool
is_blank c = c == 32 || leb 9 c && leb c 13

abbrev pub skip_blanks : List ℕ → List ℕ
skip_blanks [] = []
skip_blanks (c ∷ cs) = let rest = skip_blanks cs in if is_blank c then rest else c ∷ cs

-- The digits at the front, after a value that is read already.
abbrev pub read_digits : ℕ → List ℕ → ℕ
read_digits n [] = n
read_digits n (c ∷ cs) =
    let rest = read_digits (10 * n + (c - b'0')) cs in if is_digit c then rest else n

-- No digit at the front is NaN.
abbrev pub unsigned : List ℕ → Option ℕ
unsigned [] = none
unsigned (c ∷ cs) = if is_digit c then some (read_digits 0 (c ∷ cs)) else none

abbrev pub negated : Option ℕ → Option ℤ
negated none = none
negated (some n) = some (sub_ℕ 0 n)

abbrev pub positive : Option ℕ → Option ℤ
positive none = none
positive (some n) = some (pos n)

abbrev pub signed : List ℕ → Option ℤ
signed [] = none
signed (c ∷ cs) =
    if c == b'-'
    then negated (unsigned cs)
    else if c == b'+'
    then positive (unsigned cs)
    else positive (unsigned (c ∷ cs))

-- `parseInt(p, 10)`
abbrev pub parse_int : List ℕ → Option ℤ
parse_int cs = signed (skip_blanks cs)

-- `split('.')`: what stands before the first dot, and the rest.
abbrev pub prepend : ℕ → List (List ℕ) → List (List ℕ)
prepend c [] = (c ∷ []) ∷ []
prepend c (p ∷ ps) = (c ∷ p) ∷ ps

abbrev pub split_dots : List ℕ → List (List ℕ)
split_dots [] = [] ∷ []
split_dots (c ∷ cs) = let rest = split_dots cs in if c == b'.' then [] ∷ rest else prepend c rest

-- An absent or empty version is 0.0.0.
unfoldable pub parse_version : Option String → List ℤ
parse_version none = pos 0 ∷ pos 0 ∷ pos 0 ∷ []
parse_version (some String.[]) = pos 0 ∷ pos 0 ∷ pos 0 ∷ []
parse_version (some (String.◌∷◌ c s)) =
    map (λ p. or_else (parse_int p) (pos 0)) (take 3 (split_dots (codes (String.◌∷◌ c s))))

-- `a[i] ?? 0`
abbrev pub part : ℕ → List ℤ → ℤ
part n [] = pos 0
part ℕ.zero (x ∷ xs) = x
part (ℕ.suc n) (x ∷ xs) = part n xs

abbrev pub same_ℤ : ℤ → ℤ → Bool
same_ℤ (pos m) (pos n) = m == n
same_ℤ (negsuc m) (negsuc n) = m == n
same_ℤ _ _ = false

-- The loop over the three parts.
unfoldable pub compare : List ℤ → List ℤ → ℤ
compare a b =
    if not (same_ℤ (part 0 a) (part 0 b))
    then part 0 a -ℤ part 0 b
    else if not (same_ℤ (part 1 a) (part 1 b))
    then part 1 a -ℤ part 1 b
    else if not (same_ℤ (part 2 a) (part 2 b))
    then part 2 a -ℤ part 2 b
    else pos 0

abbrev pub is_negative : ℤ → Bool
is_negative (pos _) = false
is_negative (negsuc _) = true

pub data Platform : Type 0 where
  ios android : Platform

pub record RegistryEntry : Type 0 where
  pub latest_version : String
  pub min_supported_version : String
  pub update_url : String

abbrev pub registry : Platform → RegistryEntry
registry ios = record {
  latest_version = "1.0.0";
  min_supported_version = "1.0.0";
  update_url = "https://apps.apple.com/app/id0000000000";
}
registry android = record {
  latest_version = "1.0.0";
  min_supported_version = "1.0.0";
  update_url = "https://play.google.com/store/apps/details?id=com.myride.app";
}

pub record VersionCheckResponse : Type 0 where
  pub latest_version : String
  pub min_supported_version : String
  pub force_update : Bool
  pub update_available : Bool
  pub update_url : String
  pub message : String

abbrev pub force_message : String
force_message =
    "A critical update is required to continue using Roamly. Please update from the store to keep riding."

abbrev pub update_message : String
update_message = "A new version of Roamly is available with improvements and fixes."

abbrev pub latest_message : String
latest_message = "You are on the latest version."

-- `rawPlatform?.toLowerCase() === 'ios'`
abbrev pub lower : ℕ → ℕ
lower c = if leb b'A' c && leb c b'Z' then c + 32 else c

abbrev pub is_ios : List ℕ → Bool
is_ios (a ∷ b ∷ c ∷ []) = lower a == b'i' && lower b == b'o' && lower c == b's'
is_ios _ = false

abbrev pub platform_of : Option String → Platform
platform_of none = android
platform_of (some s) = if is_ios (codes s) then ios else android

-- `check`, from the registry's entry on.
unfoldable pub check_entry : RegistryEntry → Option String → VersionCheckResponse
check_entry entry current_version =
    let current = parse_version current_version in
    let force = is_negative (compare current (parse_version (some entry.min_supported_version))) in
    let available = is_negative (compare current (parse_version (some entry.latest_version))) in
    record {
      latest_version = entry.latest_version;
      min_supported_version = entry.min_supported_version;
      force_update = force;
      update_available = available;
      update_url = entry.update_url;
      message =
          if force then force_message else if available then update_message else latest_message;
    }

unfoldable pub check : Option String → Option String → VersionCheckResponse
check raw_platform current_version =
    check_entry (registry (platform_of raw_platform)) current_version
