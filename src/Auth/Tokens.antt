-- ===== src/Auth/Tokens.antt =====
-- `loginWithFirebase`, `refreshToken`, `getCurrentUser`, `logout` and `validateUser` of
-- src/modules/auth/auth.service.ts. The token library, bcrypt and Firebase are parameters.
pub mod Laws
use text.Mathlib.Text.{◌==◌ as str_eq}
use myride_api.Common.{
  ℕ, String, Bool, true, false, not, ◌&&◌, Option, some, none, List, is_some, ◌==◌, if◌then◌else◌,
  Result, Action, ok, err, find_first, update_where, pure, gets, modify, throw, throw_if, or_throw,
  ◌>>=◌, ◌>>◌,
}
use myride_api.Redis.{Redis}
use myride_api.Auth.{
  User, Key, Error, invalid_refresh_token, user_not_found, user_not_found_or_inactive,
  firebase_disabled, firebase_rejected, phone_missing, account_suspended,
}
use myride_api.Auth.Otp.{State, SignIn, Method, sign_in}

-- `!phone`: absent, or the empty string.
abbrev pub phone_claim : Option String → Option String
phone_claim none = none
phone_claim (some p) = if str_eq p "" then none else some p

abbrev pub user_with_id : ℕ → User → Bool
user_with_id id u = u.id == id

-- The hash of a user with a refresh token.
abbrev pub hash_of : Option User → Option String
hash_of none = none
hash_of (some u) = u.refresh_token

-- A column of a partial update: TypeORM leaves out one whose value is undefined.
abbrev pub assigned : {A : Type 0} → Option A → Option A → Option A
assigned none old = old
assigned (some v) old = some v

module _ (R : Redis Key) where
  -- `decode` is Firebase's check of an id token: none where it throws, else the phone claim.
  unfoldable pub login_with_firebase :
      (enabled : Bool) (decode : String → Option (Option String))
      → ℕ
      → SignIn
      → String
      → Method R (String × String)
  login_with_firebase enabled decode now with token = do
    throw_if (not enabled) firebase_disabled
    claims ← or_throw (decode token) firebase_rejected
    phone ← or_throw (phone_claim claims) phone_missing
    sign_in R now with phone

  -- `verify` is the token library's check at the time: the subject of a genuine token.
  -- Every exception inside becomes INVALID_REFRESH_TOKEN.
  unfoldable pub refresh_token :
      (verify : String → Option ℕ) (compare : String → String → Bool)
      → SignIn
      → String
      → Method R (String × String)
  refresh_token verify compare with token = do
    sub ← or_throw (verify token) invalid_refresh_token
    found ← gets λ (s : State R). find_first (user_with_id sub) s.users
    user ← or_throw found invalid_refresh_token
    hash ← or_throw (hash_of (some user)) invalid_refresh_token
    throw_if (not (compare token hash)) invalid_refresh_token
    modify λ s. record s {
      users =
          update_where (user_with_id user.id)
            (λ u. record u { refresh_token = some (with.hash (with.tokens user).1) }) s.users;
    }
    pure (with.tokens user)

  abbrev pub get_current_user : ℕ → Method R User
  get_current_user id = do
    found ← gets λ (s : State R). find_first (user_with_id id) s.users
    or_throw found user_not_found

  abbrev pub active : Option User → Option User
  active none = none
  active (some u) = if u.is_active then some u else none

  unfoldable pub validate_user : ℕ → Method R User
  validate_user id = do
    found ← gets λ (s : State R). find_first (user_with_id id) s.users
    or_throw (active found) user_not_found_or_inactive

  -- `{ refresh_token: undefined }`
  unfoldable pub logout : ℕ → Method R (Unit {0})
  logout id = modify λ s. record s {
    users =
        update_where (user_with_id id)
          (λ u. record u { refresh_token = assigned none u.refresh_token }) s.users;
  }
