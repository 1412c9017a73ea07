-- ===== src/Auth/Otp/Lock.antt =====
-- Wrong codes and the lock that they lead to: `login` of src/modules/auth/auth.service.ts.
use text.Mathlib.Text.{◌==◌ as str_eq}
use myride_api.Common.{
  ℕ, suc, ◌+◌, ◌-◌, ◌≤◌, ◌<◌, ◌≡◌, refl, ◌∙◌, ap, String, false, some, err, arith,
}
use myride_api.Redis.{Redis, string, live, seconds_left}
use myride_api.Auth.{
  Key, otp_key, attempts_key, lock_key, account_locked, invalid_otp, lockout_seconds,
}
use myride_api.Auth.Otp.{State, SignIn, login, wrong_code}
use myride_api.Auth.Otp.Waiting.{
  live-counter, IsAwaiting, IsAwaiting-later, counted, counted-stores, attempts_after-counter,
  attempts-lock, otp-lock,
}

module _ (R : Redis Key) where
  open R use {Store, view, set_ex, del, incr, expire}

  -- One wrong code of three: the counter goes up and the code stays.
  wrong_code-next :
      (now : ℕ) (phone otp : String) (d n : ℕ) (s : State R)
      → now < d
      → n < 2
      → IsAwaiting R phone otp d n now s.store
      → wrong_code R now phone s
        ≡ (err (invalid_otp (2 - n)), record s { store = counted R now phone s })
  unfolding wrong_code
  wrong_code-next now phone otp d n s early few waiting =
      let count = attempts_after-counter R now phone otp d n s waiting in rw count (ground arith)

  wrong_code-last :
      (now : ℕ) (phone otp : String) (d : ℕ) (s : State R)
      → now < d
      → IsAwaiting R phone otp d 2 now s.store
      → wrong_code R now phone s ≡ (
        err (account_locked (now + lockout_seconds)),
        record s {
          store = del (attempts_key phone) (
              del (otp_key phone) (
                set_ex
                  (lock_key phone)
                  (string "1")
                  (now + lockout_seconds)
                  (counted R now phone s)));
        },
      )
  unfolding wrong_code
  wrong_code-last now phone otp d s early waiting =
      let count = attempts_after-counter R now phone otp d 2 s waiting in rw count refl

  login-wrong :
      (now : ℕ) (with : SignIn) (phone otp guess : String) (d n : ℕ) (s : State R)
      → now < d
      → str_eq otp "" ≡ false
      → str_eq otp guess ≡ false
      → IsAwaiting R phone otp d n now s.store
      → login R now with phone guess s ≡ wrong_code R now phone s
  unfolding login
  login-wrong now with phone otp guess d n s early given wrong waiting =
      rw (waiting.quiet, waiting.code) (ground arith)

  login-next :
      (now : ℕ) (with : SignIn) (phone otp guess : String) (d n : ℕ) (s : State R)
      → now < d
      → n < 2
      → str_eq otp "" ≡ false
      → str_eq otp guess ≡ false
      → IsAwaiting R phone otp d n now s.store
      → (login R now with phone guess s
          ≡ (err (invalid_otp (2 - n)), record s { store = counted R now phone s }))
        × IsAwaiting R phone otp d (suc n) now (counted R now phone s)
  login-next now with phone otp guess d n s early few given wrong waiting =
      let (code, tried, lock) = counted-stores R now phone otp d n s early waiting in
      (
        login-wrong now with phone otp guess d n s early given wrong waiting
            ∙ wrong_code-next now phone otp d n s early few waiting,
        record {
          code = code;
          tried = ap (live now) tried ∙ live-counter now d (suc n) early;
          quiet = ap (seconds_left now) lock ∙ waiting.quiet;
        },
      )

  login-last :
      (now : ℕ) (with : SignIn) (phone otp guess : String) (d : ℕ) (s : State R)
      → now < d
      → str_eq otp "" ≡ false
      → str_eq otp guess ≡ false
      → IsAwaiting R phone otp d 2 now s.store
      → ((login R now with phone guess s).0 ≡ err (account_locked (now + lockout_seconds)))
        × (view (login R now with phone guess s).1.store (lock_key phone)
            ≡ some (record { value = string "1"; deadline = some (now + lockout_seconds) }))
  login-last now with phone otp guess d s early given wrong waiting =
      rw
        (
          login-wrong now with phone otp guess d 2 s early given wrong waiting,
          wrong_code-last now phone otp d s early waiting,
        )
        (
          refl,
          R.view-del_ne _ _ _ attempts-lock
              ∙ R.view-del_ne _ _ _ otp-lock
              ∙ R.view-set_ex_self _ _ _ _,
        )

  login-while_locked :
      (now : ℕ) (with : SignIn) (phone guess : String) (until : ℕ) (s : State R)
      → now < until
      → view s.store (lock_key phone) ≡ some (record { value = string "1"; deadline = some until })
      → login R now with phone guess s ≡ (err (account_locked until), s)
  unfolding login
  login-while_locked now with phone guess until s early locked =
      let rest : now + (until - now) ≡ until = omega arith in rw locked (ground (arith, rest))

  -- Three wrong codes, one after the other while the code is alive, lock the phone, if the code is
  -- not empty, none was tried before and there is no lock: the third is answered with ACCOUNT_LOCKED,
  -- and for the next 15 minutes every login of the phone is, the right code's too, with nothing
  -- changed.
  pub login-locks :
      (with : SignIn) (phone otp g1 g2 g3 : String) (d t1 t2 t3 t : ℕ) (again : String)
      (s : State R)
      → t1 ≤ t2
      → t2 ≤ t3
      → t3 < d
      → str_eq otp "" ≡ false
      → str_eq otp g1 ≡ false
      → str_eq otp g2 ≡ false
      → str_eq otp g3 ≡ false
      → IsAwaiting R phone otp d 0 t1 s.store
      → t < t3 + lockout_seconds
      → let s1 = (login R t1 with phone g1 s).1 in
        let s2 = (login R t2 with phone g2 s1).1 in
        let s3 = (login R t3 with phone g3 s2).1 in
        ((login R t3 with phone g3 s2).0 ≡ err (account_locked (t3 + lockout_seconds)))
        × (login R t with phone again s3 ≡ (err (account_locked (t3 + lockout_seconds)), s3))
  login-locks with phone otp g1 g2 g3 d t1 t2 t3 t again s le1 le2 lt given w1 w2 w3 waiting early =
      let (e1, a1) =
        login-next t1 with phone otp g1 d 0 s (omega arith) (omega arith) given w1 waiting in
      let b1 = IsAwaiting-later R phone otp d 1 t1 t2 _ le1 (omega arith) a1 in
      let s1 : State R = record s { store = counted R t1 phone s } in
      let (e2, a2) =
        login-next t2 with phone otp g2 d 1 s1 (omega arith) (omega arith) given w2 b1 in
      let b2 = IsAwaiting-later R phone otp d 2 t2 t3 _ le2 lt a2 in
      let s2 : State R = record s1 { store = counted R t2 phone s1 } in
      let (e3, locked) = login-last t3 with phone otp g3 d s2 lt given w3 b2 in
      rw (e1, e2) (e3, login-while_locked t with phone again _ _ early locked)
