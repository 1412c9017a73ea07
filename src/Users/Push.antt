-- ===== src/Users/Push.antt =====
-- Push tokens, of one user and of many: `findPushToken` and `findPushTokens` of
-- src/modules/users/users.service.ts.
use myride_api.Common.{
  ℕ, ◌≡◌, ◌≢◌, refl, String, Bool, ◌&&◌, Option, some, none, List, [], ◌∷◌, map, arith, inl, inr,
  ok, Bool-cases, is_some, find_first, find_all, All, All-of-map, Distinct, ◌==◌, ==_iff,
  if◌then◌else◌,
}
use myride_api.Users.{
  truthy_text, User, user_with_id, is_one_of, tokens_of, token_of, find_push_token,
  find_push_tokens,
}

-- `map.get(id)`
unfoldable pub lookup : ℕ → List (ℕ × String) → Option String
lookup id [] = none
lookup id ((i, t) ∷ rest) = if i == id then some t else lookup id rest

abbrev pub truthy_option : Option String → Option String
truthy_option none = none
truthy_option (some t) = truthy_text t

module _ (Json : Type 0) (truthy : Json → Bool) where
  abbrev is_asked : List ℕ → User Json truthy → Bool
  is_asked ids u = is_one_of Json truthy ids u.id && is_some u.push_token

  lookup-absent :
      (ids : List ℕ) (id : ℕ) (us : List (User Json truthy))
      → All (λ (u : User Json truthy). id ≢ u.id) us
      → lookup id (tokens_of Json truthy (find_all (is_asked ids) us)) ≡ none
  unfolding lookup tokens_of find_all
  lookup-absent ids id [] a = refl
  lookup-absent ids id (u ∷ us) (n, a) = ground (arith, lookup-absent ids id us a)

  lookup-tokens_of :
      (ids : List ℕ) (id : ℕ) (us : List (User Json truthy))
      → Distinct (map (λ (u : User Json truthy). u.id) us)
      → lookup id (tokens_of Json truthy (find_all (is_asked ids) us)) ≡ (
          if is_one_of Json truthy ids id
          then truthy_option (token_of Json truthy (find_first (user_with_id Json truthy id) us))
          else none)
  unfolding lookup tokens_of find_all find_first
  lookup-tokens_of ids id [] d = ground arith
  lookup-tokens_of ids id (u ∷ us) (n, d) = elim (Bool-cases (u.id == id)) [
    | inl own ↦
        let eq : u.id ≡ id = (==_iff u.id id).0 own in
        let others = All-of-map (λ j. u.id ≢ j) (λ (x : User Json truthy). x.id) us n in
        ground (arith, own, eq, lookup-absent ids u.id us others)
    | inr other ↦ ground (arith, other, lookup-tokens_of ids id us d)
  ]

  -- The bulk lookup gives for each user that is asked for the token that the single lookup gives, an
  -- empty one counting as none, and nothing for anyone else, if no two users have the same id.
  pub find_push_tokens-find_push_token :
      (ids : List ℕ) (id : ℕ) (users : List (User Json truthy))
      → Distinct (map (λ (u : User Json truthy). u.id) users)
      → (tokens : List (ℕ × String)) × (token : Option String) × ((find_push_tokens Json truthy ids
            users).0
          ≡ ok tokens)
        × ((find_push_token Json truthy id users).0 ≡ ok token)
        × (lookup id tokens ≡ (if is_one_of Json truthy ids id then truthy_option token else none))
  unfolding find_push_tokens find_push_token
  find_push_tokens-find_push_token ids id users distinct = (
    tokens_of Json truthy (find_all (is_asked ids) users),
    token_of Json truthy (find_first (user_with_id Json truthy id) users),
    refl,
    refl,
    lookup-tokens_of ids id users distinct,
  )
