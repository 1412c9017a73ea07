-- ===== src/Chat/Window.antt =====
-- The sliding window of `checkRateLimit` in src/modules/chat/chat.service.ts, which limits reactions.
-- What it relies on of a Redis sorted set is the interface `SortedSets`. Times are in milliseconds, and
-- the clock is past the first minute of 1970.
pub mod Laws
pub mod Scores
use myride_api.Common.{
  ℕ, ◌+◌, ◌-◌, ◌*◌, ◌≡◌, ◌≢◌, refl, ◌↔◌, Bool, true, false, Option, none, some, List, [], ◌∷◌, ◌++◌,
  length, ◌==◌, ==_iff, ltb, leb, if◌then◌else◌, delete_where, Bool-cases, inl, inr, arith,
}

-- The scores of a key's members, and when the key expires; a member is `{now}-{random}`, so each
-- ZADD makes a new one.
pub record SortedSet : Type 0 where
  pub scores : List ℕ
  pub deadline : Option ℕ

abbrev pub is_over : ℕ → Option ℕ → Bool
is_over now none = false
is_over now (some d) = leb d now

abbrev pub live : ℕ → Option SortedSet → Option SortedSet
live now none = none
live now (some z) = if is_over now z.deadline then none else some z

abbrev pub scores_of : Option SortedSet → List ℕ
scores_of none = []
scores_of (some z) = z.scores

-- ZREMRANGEBYSCORE key 0 hi. Redis drops a key whose last member goes; its scores are empty either way.
abbrev pub removed : ℕ → Option SortedSet → Option SortedSet
removed hi none = none
removed hi (some z) = some (record z { scores = delete_where (λ s. leb s hi) z.scores })

abbrev pub added : ℕ → Option SortedSet → SortedSet
added score none = record { scores = score ∷ []; deadline = none }
added score (some z) = record z { scores = z.scores ++ score ∷ [] }

abbrev pub expiring_at : ℕ → Option SortedSet → Option SortedSet
expiring_at d none = none
expiring_at d (some z) = some (record z { deadline = some d })

pub record SortedSets (K : Type 0) : Type 1 where
  pub Store : Type 0
  pub view : Store → K → Option SortedSet
  -- ZREMRANGEBYSCORE key 0 hi
  pub z_rem : (now : ℕ) → K → (hi : ℕ) → Store → Store
  pub z_add : (now : ℕ) → K → (score : ℕ) → Store → Store
  pub expire : (now : ℕ) → K → (deadline : ℕ) → Store → Store
  pub view-z_rem_self :
      (now : ℕ) (k : K) (hi : ℕ) (st : Store)
      → view (z_rem now k hi st) k ≡ removed hi (live now (view st k))
  pub view-z_rem_ne :
      (now : ℕ) (k j : K) (hi : ℕ) (st : Store) → k ≢ j → view (z_rem now k hi st) j ≡ view st j
  pub view-z_add_self :
      (now : ℕ) (k : K) (score : ℕ) (st : Store)
      → view (z_add now k score st) k ≡ some (added score (live now (view st k)))
  pub view-z_add_ne :
      (now : ℕ) (k j : K) (score : ℕ) (st : Store)
      → k ≢ j
      → view (z_add now k score st) j ≡ view st j
  pub view-expire_self :
      (now : ℕ) (k : K) (d : ℕ) (st : Store)
      → view (expire now k d st) k ≡ expiring_at d (live now (view st k))
  pub view-expire_ne :
      (now : ℕ) (k j : K) (d : ℕ) (st : Store) → k ≢ j → view (expire now k d st) j ≡ view st j

abbrev pub put : ℕ → Option SortedSet → (ℕ → Option SortedSet) → ℕ → Option SortedSet
put k z st j = if k == j then z else st j

pub put_self : (k : ℕ) (z : Option SortedSet) (st : ℕ → Option SortedSet) → put k z st k ≡ z
put_self k z st = ground (arith, ==_iff k k)

pub put_ne :
    (k j : ℕ) (z : Option SortedSet) (st : ℕ → Option SortedSet) → k ≢ j → put k z st j ≡ st j
put_ne k j z st h = elim (Bool-cases (k == j)) [
  | inl eq ↦ absurd (h ((==_iff k j).0 eq))
  | inr no_eq ↦ rw no_eq
]

-- The interface can be met: by a function of the key.
abbrev pub by_user : SortedSets ℕ
by_user = record {
  Store = ℕ → Option SortedSet;
  view = λ st. st;
  z_rem = λ now k hi st. put k (removed hi (live now (st k))) st;
  z_add = λ now k score st. put k (some (added score (live now (st k)))) st;
  expire = λ now k d st. put k (expiring_at d (live now (st k))) st;
  view-z_rem_self = λ now k hi st. put_self k _ st;
  view-z_rem_ne = λ now k j hi st h. put_ne k j _ st h;
  view-z_add_self = λ now k score st. put_self k _ st;
  view-z_add_ne = λ now k j score st h. put_ne k j _ st h;
  view-expire_self = λ now k d st. put_self k _ st;
  view-expire_ne = λ now k j d st h. put_ne k j _ st h;
}

abbrev pub rl_react_max : ℕ
rl_react_max = 60

abbrev pub rl_window_ms : ℕ
rl_window_ms = 60000

-- The key of a user is chat:rl:react:{user}.
module _ (Z : SortedSets ℕ) where
  -- The pipeline of ZREMRANGEBYSCORE and ZCARD.
  abbrev pub pruned : (user_id now : ℕ) → Z.Store → Z.Store
  pruned user_id now st = Z.z_rem now user_id (now - rl_window_ms) st

  abbrev pub count_of : (user_id : ℕ) → Z.Store → ℕ
  count_of user_id st = length (scores_of (Z.view st user_id))

  -- The pipeline of ZADD and EXPIRE 70.
  abbrev pub recorded : (user_id now : ℕ) → Z.Store → Z.Store
  recorded user_id now st = Z.expire now user_id (now + 70 * 1000) (Z.z_add now user_id now st)

  unfoldable pub check_rate_limit : (user_id now : ℕ) → Z.Store → Bool × Z.Store
  check_rate_limit user_id now st =
      let before = pruned user_id now st in
      if leb rl_react_max (count_of user_id before)
      then (false, before)
      else (true, recorded user_id now before)

  -- The times of the calls that are allowed, of a sequence of calls.
  unfoldable pub granted : (user_id : ℕ) → List ℕ → Z.Store → List ℕ
  unfolding check_rate_limit
  granted user_id [] st = []
  granted user_id (t ∷ ts) st =
      let (allowed, next) = check_rate_limit user_id t st in
      let rest = granted user_id ts next in if allowed then t ∷ rest else rest
