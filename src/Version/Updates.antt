-- ===== src/Version/Updates.antt =====
-- What `check` of src/modules/version/version.service.ts answers.
use myride_api.Common.{
  ◌≡◌, refl, ap, ◌⊎◌, inl, inr, String, Bool, true, false, Option, some, List, arith, Bool-cases,
}
use myride_api.Common.Int.{ℤ}
use myride_api.Version.{
  part, compare, is_negative, parse_version, RegistryEntry, check_entry, check, registry,
  platform_of, Platform, ios, android, force_message, update_message, latest_message,
}
use myride_api.Version.Order.{IsBefore, ℤ-cases, compare-IsBefore}

-- A version that is older than another is older than any third one, or that one is older still.
IsBefore-split : (a b c : List ℤ) → IsBefore a c → IsBefore a b ⊎ IsBefore b c
IsBefore-split a b c h = ground (
  arith,
  ℤ-cases (part 0 a) (part 0 b),
  ℤ-cases (part 0 b) (part 0 c),
  ℤ-cases (part 1 a) (part 1 b),
  ℤ-cases (part 1 b) (part 1 c),
  ℤ-cases (part 2 a) (part 2 b),
  ℤ-cases (part 2 b) (part 2 c),
)

not_both : (b : Bool) → b ≡ true → b ≡ false → ⊥
not_both b h k = ground arith

-- Where the latest version of the registry's entry is not older than the least one supported, a client
-- that must update is told that an update is there, a client that has the latest version need not
-- update, and the message says which of the three cases it is.
pub check_entry-forces :
    (entry : RegistryEntry) (current : Option String)
    → is_negative (
        compare
          (parse_version (some entry.latest_version))
          (parse_version (some entry.min_supported_version)))
      ≡ false
    → let r = check_entry entry current in
      (r.force_update ≡ true → (r.update_available ≡ true) × (r.message ≡ force_message))
      × (r.update_available ≡ false → (r.force_update ≡ false) × (r.message ≡ latest_message))
      × (r.force_update ≡ false → r.update_available ≡ true → r.message ≡ update_message)
unfolding check_entry
check_entry-forces entry current ordered =
    let v = parse_version current in
    let least = parse_version (some entry.min_supported_version) in
    let latest = parse_version (some entry.latest_version) in
    let available : is_negative (compare v least) ≡ true → is_negative (compare v latest) ≡ true =
      λ old. elim (IsBefore-split v latest least ((compare-IsBefore v least).0 old)) [
        | inl older ↦ (compare-IsBefore v latest).1 older
        | inr wrong ↦ absurd (not_both _ ((compare-IsBefore latest least).1 wrong) ordered)
      ] in
    (
      (λ force. (available force, rw force refl)),
      (λ nothing. elim (Bool-cases (is_negative (compare v least))) [
        | inl force ↦ absurd (not_both _ (available force) nothing)
        | inr fine ↦ (fine, rw (fine, nothing) refl)
      ]),
      (λ fine newer. rw (fine, newer) refl),
    )

same_versions : (p : Platform) → (registry p).min_supported_version ≡ (registry p).latest_version
same_versions ios = refl
same_versions android = refl

-- With the registry of the code, whose entries name one version twice, an update is never only
-- available: whoever has an older version than that must update, on both platforms.
pub check-registry :
    (raw_platform current : Option String)
    → (check raw_platform current).force_update ≡ (check raw_platform current).update_available
unfolding check check_entry
check-registry raw_platform current =
    ap (λ v. is_negative (compare (parse_version current) (parse_version (some v))))
      (same_versions (platform_of raw_platform))
