-- ===== src/Auth/Tokens/Laws.antt =====
-- How long a refresh token lives.

use Prim.Native.String.{slice}
use myride_api.Common.{
  ℕ, ◌≡◌, refl, subst, sym, ◌∙◌, ap, String, Bool, Option, some, none, List, [], ◌∷◌, ==_iff, ok,
  is_ok, find_first, update_where, inl, inr, arith, Bool-cases, Option-cases,
  find_first-update_where, find_first-holds, true,
}
use myride_api.Redis.{Redis}
use myride_api.Auth.{User, Key}
use myride_api.Auth.Otp.{State, SignIn}
use myride_api.Auth.Tokens.{refresh_token, logout, user_with_id, assigned}

abbrev pub keep_hash : String → User → User
keep_hash h u = record u { refresh_token = some h }

found_after :
    (id : ℕ) (h : String) (users : List User) {u : User}
    → find_first (user_with_id id) users ≡ some u
    → find_first (user_with_id id) (update_where (user_with_id id) (keep_hash h) users)
      ≡ some (keep_hash h u)
found_after id h users at =
    find_first-update_where (user_with_id id) (user_with_id id) (keep_hash h) users (λ u. refl)
    ∙ rw at (ground (arith, find_first-holds (user_with_id id) users at))

same_after :
    (id : ℕ) (users : List User)
    → update_where
        (user_with_id id)
        (λ u. record u { refresh_token = assigned none u.refresh_token })
        users
      ≡ users
unfolding update_where
same_after id [] = refl
same_after id (u ∷ users) = ground (arith, same_after id users)

module _ (R : Redis Key) (verify : String → Option ℕ) (compare : String → String → Bool) where
  refresh_token-cases :
      (with : SignIn) (token : String) (s : State R) {pair : String × String}
      → (refresh_token R verify compare with token s).0 ≡ ok pair
      → (u : User) × (hash : String) × (find_first (user_with_id u.id) s.users ≡ some u)
        × (u.refresh_token ≡ some hash)
        × (compare token hash ≡ true)
        × (verify token ≡ some u.id)
        × (pair ≡ with.tokens u)
        × ((refresh_token R verify compare with token s).1 ≡ record s {
          users = update_where (user_with_id u.id) (keep_hash (with.hash pair.1)) s.users;
        })
  unfolding refresh_token
  refresh_token-cases with token s accepted = elim (Option-cases (verify token)) [
    | inl forged ↦ absurd (ground arith)
    | inr (sub, genuine) ↦ elim (Option-cases (find_first (user_with_id sub) s.users)) [
      | inl gone ↦ absurd (ground arith)
      | inr (u, at) ↦ elim (Option-cases u.refresh_token) [
        | inl out ↦ absurd (ground arith)
        | inr (hash, kept) ↦
            let same = (==_iff u.id sub).0 (find_first-holds (user_with_id sub) s.users at) in
            elim (Bool-cases (compare token hash)) [
              | inl matches ↦ (
                u,
                hash,
                subst (λ k. find_first (user_with_id k) s.users ≡ some u) (sym same) at,
                kept,
                matches,
                genuine ∙ ap (λ k. some k) (sym same),
                ground arith,
                ground arith,
              )
              | inr differs ↦ absurd (ground arith)
            ]
      ]
    ]
  ]

  refresh_token-is_ok :
      (with : SignIn) (token : String) (s : State R) {u : User} {hash : String}
      → verify token ≡ some u.id
      → find_first (user_with_id u.id) s.users ≡ some u
      → u.refresh_token ≡ some hash
      → is_ok (refresh_token R verify compare with token s).0 ≡ compare token hash
  unfolding refresh_token
  refresh_token-is_ok with token s {u} {hash} genuine at kept =
      rw (genuine, at, kept) (ground arith)

  -- A refresh is answered for a genuine token only that bcrypt accepts against the hash that its
  -- account has, with a new pair of that account. After it, a genuine token of the account is
  -- accepted exactly if bcrypt accepts it against the hash of the new refresh token: the old hash
  -- counts no more.
  pub refresh_token-rotates :
      (with again : SignIn) (token next : String) (s : State R) {pair : String × String}
      → (refresh_token R verify compare with token s).0 ≡ ok pair
      → verify next ≡ verify token
      → (u : User) × (old : String) × (verify token ≡ some u.id)
        × (find_first (user_with_id u.id) s.users ≡ some u)
        × (u.refresh_token ≡ some old)
        × (compare token old ≡ true)
        × (pair ≡ with.tokens u)
        × (is_ok
              (refresh_token R verify compare again next
                (refresh_token R verify compare with token s).1).0
            ≡ compare next (with.hash pair.1))
  refresh_token-rotates with again token next s {pair} accepted same =
      let (u, hash, at, kept, matches, genuine, given, after) =
        refresh_token-cases with token s accepted in
      (
        u,
        hash,
        genuine,
        at,
        kept,
        matches,
        given,
        rw after (
            refresh_token-is_ok again next _ {u = keep_hash (with.hash pair.1) u} (same ∙ genuine)
              (found_after u.id (with.hash pair.1) s.users at) refl),
      )

  -- A used refresh token works once more where it begins with the same 72 characters as the new
  -- one, if bcrypt accepts every text against its own hash and looks at no more than the first 72.
  pub refresh_token-reused :
      (with again : SignIn) (token : String) (s : State R) {pair : String × String}
      → ((a b hash : String) → slice a 0 72 ≡ slice b 0 72 → compare a hash ≡ compare b hash)
      → ((text : String) → compare text (with.hash text) ≡ true)
      → (refresh_token R verify compare with token s).0 ≡ ok pair
      → slice token 0 72 ≡ slice pair.1 0 72
      → is_ok
          (refresh_token R verify compare again token
            (refresh_token R verify compare with token s).1).0
        ≡ true
  refresh_token-reused with again token s {pair} cut own accepted same =
      let (u, old, _, _, _, _, _, next) =
        refresh_token-rotates with again token token s accepted refl in
      next ∙ cut token pair.1 (with.hash pair.1) same ∙ own pair.1

  -- A logout leaves every account as it is, so whatever a refresh token did before, it does after.
  pub logout-refresh_token :
      (id : ℕ) (with : SignIn) (token : String) (s : State R)
      → refresh_token R verify compare with token (logout R id s).1
        ≡ refresh_token R verify compare with token s
  unfolding logout
  logout-refresh_token id with token s = rw (same_after id s.users)
