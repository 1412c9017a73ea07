-- ===== src/Auth/Otp/Once.antt =====
-- The right code: from its request to the tokens, once.
use text.Mathlib.Text.{◌==◌ as str_eq}
use text.Mathlib.TextPositions.{eq_refl}
use myride_api.Common.{
  ℕ, ◌+◌, ◌-◌, ◌≤◌, ◌<◌, ◌≡◌, ◌≢◌, ◌∙◌, ap, String, Bool, true, false, some, none, List, ok, err,
  find_first, inl, inr, arith, Option-cases,
}
use myride_api.Redis.{Redis, string, live, seconds_left}
use myride_api.Auth.{
  User, Key, otp_key, cooldown_key, attempts_key, lock_key, otp_expired, resend_too_soon,
  otp_ttl_seconds, resend_cooldown_seconds, codes, is_e164,
}
use myride_api.Auth.Otp.{State, SignIn, request_otp, login, sign_in, user_with_phone, new_user}
use myride_api.Auth.Otp.Waiting.{
  IsAwaiting, IsAwaiting-later, quiet_later, attempts-otp, attempts-lock, otp-lock,
}

cooldown-otp : {p : String} → cooldown_key p ≢ otp_key p
cooldown-otp = cc

cooldown-attempts : {p : String} → cooldown_key p ≢ attempts_key p
cooldown-attempts = cc

cooldown-lock : {p : String} → cooldown_key p ≢ lock_key p
cooldown-lock = cc

-- The account that a phone signs in to.
abbrev pub account : (now id : ℕ) (phone : String) → List User → User
account now id phone users = elim (find_first (user_with_phone phone) users) [
  | none ↦ new_user now id phone
  | some u ↦ u
]

module _ (R : Redis Key) where
  open R use {Store, view, set_ex, del, incr, expire}

  abbrev requested : (now : ℕ) (phone otp : String) → Store → Store
  requested now phone otp st =
      set_ex (cooldown_key phone) (string "1") (now + resend_cooldown_seconds)
        (del (attempts_key phone) (set_ex (otp_key phone) (string otp) (now + otp_ttl_seconds) st))

  request_otp-accepted :
      (now : ℕ) (phone otp : String) (s : State R)
      → (request_otp R now false otp phone s).0 ≡ ok tt
      → (request_otp R now false otp phone s).1
        ≡ record s { store = requested now phone otp s.store }
  unfolding request_otp
  request_otp-accepted now phone otp s accepted = ground arith

  requested-IsAwaiting :
      (now : ℕ) (phone otp : String) (st : Store)
      → seconds_left now (view st (lock_key phone)) ≡ 0
      → IsAwaiting R phone otp (now + otp_ttl_seconds) 0 now (requested now phone otp st)
  requested-IsAwaiting now phone otp st quiet = record {
    code =
        R.view-set_ex_ne _ _ _ _ _ cooldown-otp
        ∙ R.view-del_ne _ _ _ attempts-otp
        ∙ R.view-set_ex_self _ _ _ _;
    tried = ap (live now) (R.view-set_ex_ne _ _ _ _ _ cooldown-attempts ∙ R.view-del_self _ _);
    quiet =
        ap (seconds_left now) (
          R.view-set_ex_ne _ _ _ _ _ cooldown-lock
          ∙ R.view-del_ne _ _ _ attempts-lock
          ∙ R.view-set_ex_ne _ _ _ _ _ otp-lock)
        ∙ quiet;
  }

  sign_in-account :
      (now : ℕ) (with : SignIn) (phone : String) (s : State R)
      → (account now with.new_id phone s.users).is_active ≡ true
      → ((sign_in R now with phone s).0 ≡ ok (with.tokens (account now with.new_id phone s.users)))
        × ((sign_in R now with phone s).1.store ≡ s.store)
  unfolding sign_in
  sign_in-account now with phone s active =
      elim (Option-cases (find_first (user_with_phone phone) s.users)) [
        | inl new ↦ rw new (ground arith)
        | inr (u, at) ↦ rw at (ground arith)
      ]

  login-right :
      (now : ℕ) (with : SignIn) (phone otp : String) (d n : ℕ) (s : State R)
      → now < d
      → str_eq otp "" ≡ false
      → IsAwaiting R phone otp d n now s.store
      → login R now with phone otp s
        ≡ sign_in R now with phone
            (record s { store = del (attempts_key phone) (del (otp_key phone) s.store) })
  unfolding login
  login-right now with phone otp d n s early given waiting =
      rw (waiting.quiet, waiting.code) (ground (arith, eq_refl otp))

  login-expired :
      (now : ℕ) (with : SignIn) (phone guess : String) (s : State R)
      → seconds_left now (view s.store (lock_key phone)) ≡ 0
      → view s.store (otp_key phone) ≡ none
      → login R now with phone guess s ≡ (err otp_expired, s)
  unfolding login
  login-expired now with phone guess s quiet gone = rw (quiet, gone) (ground arith)

  -- A code, not the empty one, that was requested where the API makes the codes itself signs in
  -- within 300 seconds, while the phone is not locked and its
  -- account, if there is one, is active: the tokens are signed for the account of that phone, and
  -- the code works once, so every later login without another request answers OTP_EXPIRED.
  pub login-request_otp :
      (requested_at now later : ℕ) (with : SignIn) (phone otp again : String) (s : State R)
      → (request_otp R requested_at false otp phone s).0 ≡ ok tt
      → str_eq otp "" ≡ false
      → seconds_left requested_at (view s.store (lock_key phone)) ≡ 0
      → requested_at ≤ now
      → now < requested_at + otp_ttl_seconds
      → (account now with.new_id phone s.users).is_active ≡ true
      → now ≤ later
      → let after = login R now with phone otp (request_otp R requested_at false otp phone s).1 in
        (after.0 ≡ ok (with.tokens (account now with.new_id phone s.users)))
        × (login R later with phone again after.1 ≡ (err otp_expired, after.1))
  login-request_otp r now t with phone otp guess s accepted given quiet late early active later =
      let waiting =
        IsAwaiting-later R phone otp (r + otp_ttl_seconds) 0 r now _ late early
          (requested-IsAwaiting r phone otp s.store quiet) in
      let s' : State R = record s { store = requested r phone otp s.store } in
      let s2 : State R = record s' {
        store = del (attempts_key phone) (del (otp_key phone) s'.store);
      } in
      let (signed, kept) = sign_in-account now with phone s2 active in
      rw
        (
          request_otp-accepted r phone otp s accepted,
          login-right now with phone otp _ 0 s' early given waiting,
        )
        (
          signed,
          login-expired t with phone guess _
              (ap (λ st. seconds_left t (view st (lock_key phone))) kept
                ∙ ap (seconds_left t)
                    (R.view-del_ne _ _ _ attempts-lock ∙ R.view-del_ne _ _ _ otp-lock)
                ∙ quiet_later now t _ later waiting.quiet)
              (ap (λ st. view st (otp_key phone)) kept
                ∙ R.view-del_ne _ _ _ attempts-otp
                ∙ R.view-del_self _ _),
        )

  request_otp-cools :
      (now : ℕ) (phone otp : String) (delegated : Bool) (s : State R)
      → (request_otp R now delegated otp phone s).0 ≡ ok tt
      → (is_e164 (codes phone) ≡ true)
        × (view (request_otp R now delegated otp phone s).1.store (cooldown_key phone)
            ≡ some (record { value = string "1"; deadline = some (now + resend_cooldown_seconds) }))
  unfolding request_otp
  request_otp-cools now phone otp true s accepted =
      let cools =
        R.view-set_ex_self (cooldown_key phone) (string "1") (now + resend_cooldown_seconds)
          s.store in
      ground (arith, cools)
  request_otp-cools now phone otp false s accepted =
      let cools =
        R.view-set_ex_self (cooldown_key phone) (string "1") (now + resend_cooldown_seconds) (
          del (attempts_key phone)
            (set_ex (otp_key phone) (string otp) (now + otp_ttl_seconds) s.store)) in
      ground (arith, cools)

  request_otp-cooling :
      (now until : ℕ) (phone otp : String) (delegated : Bool) (s : State R)
      → is_e164 (codes phone) ≡ true
      → now < until
      → view s.store (cooldown_key phone)
        ≡ some (record { value = string "1"; deadline = some until })
      → request_otp R now delegated otp phone s ≡ (err (resend_too_soon (until - now)), s)
  unfolding request_otp
  request_otp-cooling now until phone otp delegated s valid early cools =
      rw (valid, cools) (ground arith)

  -- A second request within a minute of an accepted one is refused, by the seconds that are left,
  -- and changes nothing.
  pub request_otp-cooldown :
      (now later : ℕ) (phone otp other : String) (delegated again : Bool) (s : State R)
      → (request_otp R now delegated otp phone s).0 ≡ ok tt
      → now ≤ later
      → later < now + resend_cooldown_seconds
      → let s' = (request_otp R now delegated otp phone s).1 in
        request_otp R later again other phone s'
        ≡ (err (resend_too_soon (now + resend_cooldown_seconds - later)), s')
  request_otp-cooldown now later phone otp other delegated again s accepted late early =
      let (valid, cools) = request_otp-cools now phone otp delegated s accepted in
      request_otp-cooling later _ phone other again _ valid early cools
