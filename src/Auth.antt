-- ===== src/Auth.antt =====
-- Accounts, their keys in Redis and the exceptions of sign-in: src/modules/auth/auth.service.ts and
-- src/modules/users/entities/user.entity.ts.
pub mod Otp
pub mod Tokens
use Prim.Native.Char.{code}
use text.Mathlib.Text.{◌==◌ as str_eq}
use text.Mathlib.TextEquality.{eq_iff}
use myride_api.Common.{
  ℕ, ◌≡◌, ◌↔◌, refl, subst, ◌*◌, String, Bool, true, false, ◌&&◌, Option, List, [], ◌∷◌, length,
  leb, ltb, arith, if◌then◌else◌, ◌==◌,
}

pub record User : Type 0 where
  pub id : ℕ
  pub phone : String
  pub name : Option String
  pub profile_photo_url : Option String
  pub is_verified : Bool
  pub is_active : Bool
  pub is_onboarding_complete : Bool
  pub refresh_token : Option String
  pub created_at : ℕ

-- otp:code:…, otp:cooldown:…, otp:attempts:… and otp:lock:…
pub data Key : Type 0 where
  otp_key cooldown_key attempts_key lock_key : String → Key

abbrev pub same_key : Key → Key → Bool
same_key (otp_key a) (otp_key b) = str_eq a b
same_key (cooldown_key a) (cooldown_key b) = str_eq a b
same_key (attempts_key a) (attempts_key b) = str_eq a b
same_key (lock_key a) (lock_key b) = str_eq a b
same_key _ _ = false

pub data Error : Type 0 where
  invalid_phone otp_expired account_suspended invalid_refresh_token user_not_found : Error
  user_not_found_or_inactive invalid_name firebase_disabled firebase_rejected phone_missing : Error
  resend_too_soon : (retry_after : ℕ) → Error
  account_locked : (unlock_at : ℕ) → Error
  invalid_otp : (attempts_remaining : ℕ) → Error

abbrev pub otp_ttl_seconds : ℕ
otp_ttl_seconds = 300

abbrev pub resend_cooldown_seconds : ℕ
resend_cooldown_seconds = 60

abbrev pub max_otp_attempts : ℕ
max_otp_attempts = 3

-- 15 minutes.
abbrev pub lockout_seconds : ℕ
lockout_seconds = 15 * 60

abbrev pub codes : String → List ℕ
codes String.[] = []
codes (String.◌∷◌ c s) = code c ∷ codes s

abbrev pub all_digits : List ℕ → Bool
all_digits [] = true
all_digits (c ∷ cs) = leb b'0' c && leb c b'9' && all_digits cs

-- `[1-9]\d{1,14}`
abbrev pub is_national : List ℕ → Bool
is_national [] = false
is_national (c ∷ cs) =
    leb b'1' c && leb c b'9' && all_digits cs && leb 1 (length cs) && leb (length cs) 14

-- `/^\+?[1-9]\d{1,14}$/`
abbrev pub is_e164 : List ℕ → Bool
is_e164 [] = false
is_e164 (c ∷ cs) = if c == b'+' then is_national cs else is_national (c ∷ cs)

same_key_to : (a b : Key) → same_key a b ≡ true → a ≡ b
same_key_to (otp_key a) (otp_key b) h = ground (arith, eq_iff a b)
same_key_to (cooldown_key a) (cooldown_key b) h = ground (arith, eq_iff a b)
same_key_to (attempts_key a) (attempts_key b) h = ground (arith, eq_iff a b)
same_key_to (lock_key a) (lock_key b) h = ground (arith, eq_iff a b)
same_key_to _ _ h = cc

same_key_refl : (a : Key) → same_key a a ≡ true
same_key_refl (otp_key a) = ground (arith, eq_iff a a)
same_key_refl (cooldown_key a) = ground (arith, eq_iff a a)
same_key_refl (attempts_key a) = ground (arith, eq_iff a a)
same_key_refl (lock_key a) = ground (arith, eq_iff a a)

pub same_key_iff : (a b : Key) → (same_key a b ≡ true) ↔ (a ≡ b)
same_key_iff a b = (same_key_to a b, λ e. subst (λ k. same_key a k ≡ true) e (same_key_refl a))
