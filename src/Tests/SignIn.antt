-- ===== src/Tests/SignIn.antt =====
-- Signing in with a store that holds a function.
use text.Mathlib.TextPositions.{eq_refl}
use Prim.Native.String.{slice}
use text.Mathlib.Text.{◌==◌ as str_eq}
use myride_api.Common.{
  ℕ, ◌+◌, ◌≡◌, refl, String, true, false, some, none, Option, [], ◌∷◌, find_first, ok, err, is_ok,
  arith, if◌then◌else◌, Bool, ap,
}
use myride_api.Redis.{Redis, table, string}
use myride_api.Auth.{
  User, Key, same_key, same_key_iff, otp_key, account_locked, otp_expired, lockout_seconds,
}
use myride_api.Auth.Otp.{State, SignIn, request_otp, login}
use myride_api.Auth.Otp.Waiting.{IsAwaiting}
use myride_api.Auth.Otp.Lock.{login-locks}
use myride_api.Auth.Otp.Once.{account, login-request_otp}
use myride_api.Auth.Tokens.{refresh_token, user_with_id}
use myride_api.Auth.Tokens.Laws.{refresh_token-rotates, refresh_token-reused}

abbrev redis : Redis Key
redis = table same_key same_key_iff

abbrev phone : String
phone = "+911234567890"

abbrev with : SignIn
with = record { new_id = 4; tokens = λ u. ("access", "refresh"); hash = λ s. s }

abbrev empty : State redis
empty = record { store = λ k. none; users = [] }

accepted : (request_otp redis 10 false "111111" phone empty).0 ≡ ok tt
unfolding request_otp
accepted = refl

login-request_otp_example :
    let after =
      login redis 20 with phone "111111" (request_otp redis 10 false "111111" phone empty).1 in
    (after.0 ≡ ok (with.tokens (account 20 with.new_id phone empty.users)))
    × (login redis 30 with phone "111111" after.1 ≡ (err otp_expired, after.1))
unfolding find_first
login-request_otp_example =
    login-request_otp redis 10 20 30 with phone "111111" "111111" empty accepted refl refl
      (omega arith) (omega arith) refl (omega arith)

abbrev waiting_store : State redis
waiting_store = record {
  store = λ k.
      if same_key (otp_key phone) k
      then some (record { value = string "111111"; deadline = some 300 })
      else none;
  users = [];
}

waiting : IsAwaiting redis phone "111111" 300 0 10 waiting_store.store
waiting = record { code = refl; tried = refl; quiet = refl }

login-locks_example :
    let s1 = (login redis 10 with phone "a" waiting_store).1 in
    let s2 = (login redis 11 with phone "b" s1).1 in
    let s3 = (login redis 12 with phone "c" s2).1 in
    ((login redis 12 with phone "c" s2).0 ≡ err (account_locked (12 + lockout_seconds)))
    × (login redis 100 with phone "111111" s3 ≡ (err (account_locked (12 + lockout_seconds)), s3))
login-locks_example =
    login-locks redis with phone "111111" "a" "b" "c" 300 10 11 12 100 "111111" waiting_store
      (omega arith) (omega arith) (omega arith) refl refl refl refl waiting (omega arith)

abbrev user : User
user = record {
  id = 4;
  phone = phone;
  name = none;
  profile_photo_url = none;
  is_verified = true;
  is_active = true;
  is_onboarding_complete = false;
  refresh_token = some "old";
  created_at = 0;
}

abbrev signed_in : State redis
signed_in = record { store = λ k. none; users = user ∷ [] }

abbrev verify : String → Option ℕ
verify token = some 4

refreshed : (refresh_token redis verify str_eq with "old" signed_in).0 ≡ ok ("access", "refresh")
unfolding refresh_token find_first
refreshed = refl

refresh_token-rotates_example :
    (u : User) × (old : String) × (verify "old" ≡ some u.id)
    × (find_first (user_with_id u.id) signed_in.users ≡ some u)
    × (u.refresh_token ≡ some old)
    × (str_eq "old" old ≡ true)
    × (("access", "refresh") ≡ with.tokens u)
    × (is_ok
          (refresh_token redis verify str_eq with "old"
            (refresh_token redis verify str_eq with "old" signed_in).1).0
        ≡ str_eq "old" (with.hash "refresh"))
refresh_token-rotates_example =
    refresh_token-rotates redis verify str_eq with with "old" "old" signed_in refreshed refl

-- A hash that is the first 72 bytes, and the test that looks at those.
abbrev first_bytes : String → String → Bool
first_bytes text hash = str_eq (slice text 0 72) hash

abbrev cutting : SignIn
cutting = record { new_id = 4; tokens = λ u. ("old", "old"); hash = λ s. slice s 0 72 }

refreshed_same :
    (refresh_token redis verify first_bytes cutting "old" signed_in).0 ≡ ok ("old", "old")
unfolding refresh_token find_first
refreshed_same = refl

refresh_token-reused_example :
    is_ok
      (refresh_token redis verify first_bytes cutting "old"
        (refresh_token redis verify first_bytes cutting "old" signed_in).1).0
    ≡ true
refresh_token-reused_example =
    refresh_token-reused redis verify first_bytes cutting cutting "old" signed_in
      (λ a b hash same. ap (λ t. str_eq t hash) same) (λ text. eq_refl (slice text 0 72))
      refreshed_same refl
