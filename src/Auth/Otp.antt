-- ===== src/Auth/Otp.antt =====
-- `requestOtp` and `login` of src/modules/auth/auth.service.ts.
pub mod Waiting
pub mod Lock
pub mod Once
use text.Mathlib.Text.{◌==◌ as str_eq}
use myride_api.Common.{
  ℕ, ◌+◌, ◌-◌, String, Bool, true, false, not, ◌&&◌, Option, some, none, List, [], ◌∷◌, ◌++◌,
  is_some, ltb, leb, ◌==◌, if◌then◌else◌, Result, Action, ok, err, find_first, update_where, pure,
  gets, modify, throw, throw_if, or_throw, ◌>>=◌, ◌>>◌,
}
use myride_api.Redis.{
  Redis, Value, string, number, Entry, live, value_at, seconds_left, count_of, bumped,
}
use myride_api.Auth.{
  User, Key, otp_key, cooldown_key, attempts_key, lock_key, Error, invalid_phone, otp_expired,
  account_suspended, resend_too_soon, account_locked, invalid_otp, otp_ttl_seconds,
  resend_cooldown_seconds, max_otp_attempts, lockout_seconds, codes, is_e164,
}

-- What signing in needs besides Redis: the id of a new account, the tokens that are signed for a
-- user, and bcrypt's hash.
pub record SignIn : Type 0 where
  pub new_id : ℕ
  pub tokens : User → String × String
  pub hash : String → String

abbrev pub user_with_phone : String → User → Bool
user_with_phone phone u = str_eq u.phone phone

-- `create` and `save` of an unknown phone's account.
abbrev pub new_user : (now id : ℕ) → String → User
new_user now id phone = record {
  id = id;
  phone = phone;
  name = none;
  profile_photo_url = none;
  is_verified = true;
  is_active = true;
  is_onboarding_complete = false;
  refresh_token = none;
  created_at = now;
}

module _ (R : Redis Key) where
  open R use {Store, view, set_ex, del, incr, expire}

  pub record State : Type 0 where
    pub store : Store
    pub users : List User

  abbrev pub Method : Type 0 → Type 0
  Method A = Action State Error A

  abbrev pub redis : (Store → Store) → Method (Unit {0})
  redis f = modify λ s. record s { store = f s.store }

  abbrev pub key_of : Key → State → Option Entry
  key_of k s = view s.store k

  -- The code is generated, stored and returned outside production; `delegated` says that Firebase
  -- is enabled in production and sends the code itself.
  unfoldable pub request_otp :
      (now : ℕ) (delegated : Bool) (otp : String) → String → Method (Unit {0})
  request_otp now delegated otp phone = do
    throw_if (not (is_e164 (codes phone))) invalid_phone
    cooldown ← gets (key_of (cooldown_key phone))
    throw_if (ltb 0 (seconds_left now cooldown)) (resend_too_soon (seconds_left now cooldown))
    if delegated
        then redis (set_ex (cooldown_key phone) (string "1") (now + resend_cooldown_seconds))
        else do
          redis (set_ex (otp_key phone) (string otp) (now + otp_ttl_seconds))
          redis (del (attempts_key phone))
          redis (set_ex (cooldown_key phone) (string "1") (now + resend_cooldown_seconds))

  -- `!stored`: absent, or the empty string.
  abbrev pub stored_code : Option Value → Option String
  stored_code none = none
  stored_code (some (number n)) = none
  stored_code (some (string s)) = if str_eq s "" then none else some s

  -- The count that INCR answers.
  abbrev pub attempts_after : ℕ → String → State → ℕ
  attempts_after now phone s = count_of (bumped (live now (key_of (attempts_key phone) s))).value

  -- `attempts === 1`: the counter expires with the code.
  abbrev pub align_expiry : ℕ → String → State → Store → Store
  align_expiry now phone s st =
      if ltb 0 (seconds_left now (key_of (otp_key phone) s))
      then expire now (attempts_key phone) (now + seconds_left now (key_of (otp_key phone) s)) st
      else st

  -- The branch for a wrong code.
  unfoldable pub wrong_code : ℕ → String → Method (String × String)
  wrong_code now phone = do
    attempts ← gets (attempts_after now phone)
    redis (incr now (attempts_key phone))
    align ← gets (align_expiry now phone)
    redis λ st. if attempts == 1 then align st else st
    if leb max_otp_attempts attempts
        then (do
          redis (set_ex (lock_key phone) (string "1") (now + lockout_seconds))
          redis (del (otp_key phone))
          redis (del (attempts_key phone))
          throw (account_locked (now + lockout_seconds)))
        else throw (invalid_otp (max_otp_attempts - attempts))

  abbrev pub find_or_create : (now id : ℕ) → String → Option User → Method User
  find_or_create now id phone (some u) = pure u
  find_or_create now id phone none = do
    modify λ s. record s { users = s.users ++ new_user now id phone ∷ [] }
    pure (new_user now id phone)

  -- The end of every sign-in: tokens, and the hash of the refresh token.
  unfoldable pub sign_in : ℕ → SignIn → String → Method (String × String)
  sign_in now with phone = do
    found ← gets λ (s : State). find_first (user_with_phone phone) s.users
    user ← find_or_create now with.new_id phone found
    throw_if (not user.is_active) account_suspended
    modify λ s. record s {
      users =
          update_where (λ u. u.id == user.id)
            (λ u. record u { refresh_token = some (with.hash (with.tokens user).1) }) s.users;
    }
    pure (with.tokens user)

  unfoldable pub login : ℕ → SignIn → (phone otp : String) → Method (String × String)
  login now with phone otp = do
    lock ← gets (key_of (lock_key phone))
    throw_if (ltb 0 (seconds_left now lock)) (account_locked (now + seconds_left now lock))
    found ← gets (key_of (otp_key phone))
    stored ← or_throw (stored_code (value_at now found)) otp_expired
    if str_eq stored otp
        then (do
          redis (del (otp_key phone))
          redis (del (attempts_key phone))
          sign_in now with phone)
        else wrong_code now phone
