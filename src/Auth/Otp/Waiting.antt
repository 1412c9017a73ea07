-- ===== src/Auth/Otp/Waiting.antt =====
-- A phone with a stored code: the counter of wrong codes, and what each wrong code leaves.
use myride_api.Common.{
  ℕ, zero, suc, ◌+◌, ◌-◌, ◌≤◌, ◌<◌, ◌≡◌, ◌≢◌, refl, ◌∙◌, ap, String, Option, some, none, ◌==◌,
  if◌then◌else◌, inl, inr, arith, Option-cases,
}
use myride_api.Redis.{
  Redis, string, number, Entry, live, seconds_left, count_of, bumped, expiring_at,
}
use myride_api.Auth.{Key, otp_key, attempts_key, lock_key}
use myride_api.Auth.Otp.{State, attempts_after, align_expiry}

-- The counter of wrong codes: absent or expired before the first, and then alive as long as the code.
abbrev pub counter : (n d : ℕ) → Option Entry
counter zero d = none
counter (suc n) d = some (record { value = number (suc n); deadline = some d })

pub live-counter : (now d n : ℕ) → now < d → live now (counter n d) ≡ counter n d
live-counter now d zero early = refl
live-counter now d (suc n) early = ground arith

live_later :
    (now later d n : ℕ) (e : Option Entry)
    → now ≤ later
    → later < d
    → live now e ≡ counter n d
    → live later e ≡ counter n d
live_later now later d zero none late early h = refl
live_later now later d (suc n) none late early h = h
live_later now later d zero (some e) late early h = elim (Option-cases e.deadline) [
  | inl forever ↦ absurd (ground arith)
  | inr (x, ends) ↦ ground arith
]
live_later now later d (suc n) (some e) late early h = elim (Option-cases e.deadline) [
  | inl forever ↦ ground arith
  | inr (x, ends) ↦ ground arith
]

pub quiet_later :
    (now later : ℕ) (e : Option Entry)
    → now ≤ later
    → seconds_left now e ≡ 0
    → seconds_left later e ≡ 0
quiet_later now later none late h = refl
quiet_later now later (some e) late h = elim (Option-cases e.deadline) [
  | inl forever ↦ ground arith
  | inr (x, ends) ↦ ground arith
]

pub otp-attempts : {p : String} → otp_key p ≢ attempts_key p
otp-attempts = cc

pub attempts-otp : {p : String} → attempts_key p ≢ otp_key p
attempts-otp = cc

pub attempts-lock : {p : String} → attempts_key p ≢ lock_key p
attempts-lock = cc

lock-otp : {p : String} → lock_key p ≢ otp_key p
lock-otp = cc

lock-attempts : {p : String} → lock_key p ≢ attempts_key p
lock-attempts = cc

pub otp-lock : {p : String} → otp_key p ≢ lock_key p
otp-lock = cc

module _ (R : Redis Key) where
  open R use {Store, view, set_ex, del, incr, expire}

  -- The code `otp` is stored until `d`, `n` wrong ones were tried, and there is no lock.
  pub record IsAwaiting (phone otp : String) (d n now : ℕ) (st : Store) : Type 0 where
    pub code : view st (otp_key phone) ≡ some (record { value = string otp; deadline = some d })
    pub tried : live now (view st (attempts_key phone)) ≡ counter n d
    pub quiet : seconds_left now (view st (lock_key phone)) ≡ 0

  -- The counter's key after INCR and, for the first wrong code, EXPIRE.
  abbrev pub counted : ℕ → String → State R → Store
  counted now phone s =
      if attempts_after R now phone s == 1
      then align_expiry R now phone (record s { store = incr now (attempts_key phone) s.store })
          (incr now (attempts_key phone) s.store)
      else incr now (attempts_key phone) s.store

  pub attempts_after-counter :
      (now : ℕ) (phone otp : String) (d n : ℕ) (s : State R)
      → IsAwaiting phone otp d n now s.store
      → attempts_after R now phone s ≡ n + 1
  attempts_after-counter now phone otp d zero s waiting = rw waiting.tried
  attempts_after-counter now phone otp d (suc n) s waiting =
      ap (λ e. count_of (bumped e).value) waiting.tried

  counted-first :
      (now : ℕ) (phone : String) (d : ℕ) (s : State R) (otp : String)
      → now < d
      → IsAwaiting phone otp d 0 now s.store
      → counted now phone s
        ≡ expire now (attempts_key phone) d (incr now (attempts_key phone) s.store)
  counted-first now phone d s otp early waiting =
      let kept : view (incr now (attempts_key phone) s.store) (otp_key phone)
          ≡ some (record { value = string otp; deadline = some d }) =
        R.view-incr_ne now _ _ _ attempts-otp ∙ waiting.code in
      let rest : now + (d - now) ≡ d = omega arith in
      rw (attempts_after-counter now phone otp d 0 s waiting, kept) (ground (arith, rest))

  counted-later :
      (now : ℕ) (phone otp : String) (d n : ℕ) (s : State R)
      → IsAwaiting phone otp d (suc n) now s.store
      → counted now phone s ≡ incr now (attempts_key phone) s.store
  counted-later now phone otp d n s waiting =
      rw (attempts_after-counter now phone otp d (suc n) s waiting) (ground arith)

  -- What is stored after the counter's step.
  pub counted-stores :
      (now : ℕ) (phone otp : String) (d n : ℕ) (s : State R)
      → now < d
      → IsAwaiting phone otp d n now s.store
      → (view (counted now phone s) (otp_key phone)
          ≡ some (record { value = string otp; deadline = some d }))
        × (view (counted now phone s) (attempts_key phone) ≡ counter (suc n) d)
        × (view (counted now phone s) (lock_key phone) ≡ view s.store (lock_key phone))
  counted-stores now phone otp d zero s early waiting =
      let counts =
        R.view-incr_self now (attempts_key phone) s.store
        ∙ ap (λ e. some (bumped e)) waiting.tried in
      rw (counted-first now phone d s otp early waiting) (
        R.view-expire_ne now _ _ d _ attempts-otp
            ∙ R.view-incr_ne now _ _ _ attempts-otp
            ∙ waiting.code,
        R.view-expire_self now _ d _ ∙ ap (λ e. expiring_at d (live now e)) counts,
        R.view-expire_ne now _ _ d _ attempts-lock ∙ R.view-incr_ne now _ _ _ attempts-lock,
      )
  counted-stores now phone otp d (suc n) s early waiting =
      rw (counted-later now phone otp d n s waiting) (
        R.view-incr_ne now _ _ _ attempts-otp ∙ waiting.code,
        R.view-incr_self now _ _ ∙ ap (λ e. some (bumped e)) waiting.tried ∙ ground arith,
        R.view-incr_ne now _ _ _ attempts-lock,
      )

  pub IsAwaiting-later :
      (phone otp : String) (d n now later : ℕ) (st : Store)
      → now ≤ later
      → later < d
      → IsAwaiting phone otp d n now st
      → IsAwaiting phone otp d n later st
  IsAwaiting-later phone otp d n now later st late early waiting = record {
    code = waiting.code;
    tried = live_later now later d n (view st (attempts_key phone)) late early waiting.tried;
    quiet = quiet_later now later (view st (lock_key phone)) late waiting.quiet;
  }
