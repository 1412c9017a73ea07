-- ===== src/Chat/Limits.antt =====
-- Counters that limit how often a user acts: `checkFloodControl` of src/modules/chat/chat.service.ts and
-- `checkRateLimit` of src/modules/location/location.service.ts. Times are in seconds.

use myride_api.Common.{
  ℕ, suc, ◌+◌, ◌-◌, ◌<◌, ◌≡◌, subst, ◌↔◌, ◌∙◌, ap, Bool, true, false, some, none, List, [], ◌∷◌,
  length, min, ◌==◌, leb, arith, if◌then◌else◌, All,
}
use myride_api.Redis.{Redis, number, live, count_of, bumped, expiring_at}

-- chat:flood:{user} and loc:rl:{user}
pub data Key : Type 0 where
  flood_key rate_key : (user_id : ℕ) → Key

abbrev pub same_key : Key → Key → Bool
same_key (flood_key a) (flood_key b) = a == b
same_key (rate_key a) (rate_key b) = a == b
same_key _ _ = false

same_key_to : (a b : Key) → same_key a b ≡ true → a ≡ b
same_key_to (flood_key a) (flood_key b) h = ground arith
same_key_to (rate_key a) (rate_key b) h = ground arith
same_key_to (flood_key a) (rate_key b) h = cc
same_key_to (rate_key a) (flood_key b) h = cc

same_key_refl : (a : Key) → same_key a a ≡ true
same_key_refl (flood_key a) = ground arith
same_key_refl (rate_key a) = ground arith

pub same_key_iff : (a b : Key) → (same_key a b ≡ true) ↔ (a ≡ b)
same_key_iff a b = (same_key_to a b, λ e. subst (λ k. same_key a k ≡ true) e (same_key_refl a))

abbrev pub flood_max_per_sec : ℕ
flood_max_per_sec = 10

abbrev pub rl_max : ℕ
rl_max = 1

abbrev pub rl_window_s : ℕ
rl_window_s = 2

module _ (R : Redis Key) where
  -- The count that INCR answers.
  abbrev pub count_after : ℕ → Key → R.Store → ℕ
  count_after now key st = count_of (bumped (live now (R.view st key))).value

  -- INCR, and EXPIRE after the first one of a window.
  abbrev pub counted : (now window : ℕ) → Key → R.Store → R.Store
  counted now window key st =
      if count_after now key st == 1
      then R.expire now key (now + window) (R.incr now key st)
      else R.incr now key st

  abbrev pub limited : (max window : ℕ) → Key → (now : ℕ) → R.Store → Bool × R.Store
  limited max window key now st = (leb (count_after now key st) max, counted now window key st)

  unfoldable pub check_flood_control : (user_id now : ℕ) → R.Store → Bool × R.Store
  check_flood_control user_id = limited flood_max_per_sec 1 (flood_key user_id)

  unfoldable pub check_rate_limit : (user_id now : ℕ) → R.Store → Bool × R.Store
  check_rate_limit user_id = limited rl_max rl_window_s (rate_key user_id)

  -- How many of a sequence of calls are allowed.
  unfoldable pub allowed : (ℕ → R.Store → Bool × R.Store) → List ℕ → R.Store → ℕ
  allowed check [] st = 0
  allowed check (t ∷ ts) st = (if (check t st).0 then 1 else 0) + allowed check ts (check t st).1

  -- The counter of a window that ends at `until`.
  abbrev IsCounting : Key → (n until : ℕ) → R.Store → Type 0
  IsCounting key n until st =
      R.view st key ≡ some (record { value = number n; deadline = some until })

  counted-first :
      (now window : ℕ) (key : Key) (st : R.Store)
      → live now (R.view st key) ≡ none
      → (count_after now key st ≡ 1) × IsCounting key 1 (now + window) (counted now window key st)
  counted-first now window key st fresh =
      let incremented = R.view-incr_self now key st ∙ ap (λ e. some (bumped e)) fresh in
      (
        ap (λ e. count_of (bumped e).value) fresh,
        rw fresh (
            R.view-expire_self now key (now + window) _
            ∙ ap (λ e. expiring_at (now + window) (live now e)) incremented),
      )

  counted-next :
      (now window : ℕ) (key : Key) (n until : ℕ) (st : R.Store)
      → now < until
      → IsCounting key (suc n) until st
      → (count_after now key st ≡ suc (suc n))
        × IsCounting key (suc (suc n)) until (counted now window key st)
  counted-next now window key n until st early counting =
      let alive : live now (R.view st key)
          ≡ some (record { value = number (suc n); deadline = some until }) =
        ap (live now) counting ∙ ground arith in
      let count : count_after now key st ≡ suc (suc n) =
        ap (λ e. count_of (bumped e).value) alive ∙ ground arith in
      let plain : counted now window key st ≡ R.incr now key st = ground (arith, count) in
      (
        count,
        ap (λ x. R.view x key) plain
            ∙ R.view-incr_self now key st
            ∙ ap (λ e. some (bumped e)) alive
            ∙ ground arith,
      )

  allowed-counting :
      (max window : ℕ) (key : Key) (n until : ℕ) (ts : List ℕ) (st : R.Store)
      → All (λ t. t < until) ts
      → IsCounting key (suc n) until st
      → allowed (limited max window key) ts st ≡ min (max - suc n) (length ts)
  unfolding allowed
  allowed-counting max window key n until [] st early counting = omega arith
  allowed-counting max window key n until (t ∷ ts) st (now, early) counting =
      let (count, next) = counted-next t window key n until st now counting in
      let rest = allowed-counting max window key (suc n) until ts _ early next in
      rw (rest, count) (ground arith)

  allowed-window :
      (max window : ℕ) (key : Key) (now : ℕ) (ts : List ℕ) (st : R.Store)
      → 0 < max
      → live now (R.view st key) ≡ none
      → All (λ t. t < now + window) ts
      → allowed (limited max window key) (now ∷ ts) st ≡ min max (length (now ∷ ts))
  unfolding allowed
  allowed-window max window key now ts st some_allowed fresh early =
      let (count, next) = counted-first now window key st fresh in
      let rest = allowed-counting max window key 0 (now + window) ts _ early next in
      rw (rest, count) (ground arith)

  -- Of the messages that a user sends within the second that the first of them opens, exactly the
  -- first ten are allowed.
  pub allowed-check_flood_control :
      (user_id now : ℕ) (ts : List ℕ) (st : R.Store)
      → live now (R.view st (flood_key user_id)) ≡ none
      → All (λ t. t < now + 1) ts
      → allowed (check_flood_control user_id) (now ∷ ts) st ≡ min 10 (length (now ∷ ts))
  unfolding check_flood_control
  allowed-check_flood_control user_id now ts st fresh early =
      allowed-window flood_max_per_sec 1 (flood_key user_id) now ts st (omega arith) fresh early

  -- Of the positions that a user reports within the two seconds that the first of them opens, only
  -- the first is allowed.
  pub allowed-check_rate_limit :
      (user_id now : ℕ) (ts : List ℕ) (st : R.Store)
      → live now (R.view st (rate_key user_id)) ≡ none
      → All (λ t. t < now + rl_window_s) ts
      → allowed (check_rate_limit user_id) (now ∷ ts) st ≡ 1
  unfolding check_rate_limit
  allowed-check_rate_limit user_id now ts st fresh early =
      allowed-window rl_max rl_window_s (rate_key user_id) now ts st (omega arith) fresh early
      ∙ omega arith
