-- ===== src/Users/Profiles.antt =====
-- The two ways to edit a profile: `updateMe` of src/modules/users/users.service.ts and `updateProfile` of
-- src/modules/auth/auth.service.ts.
use myride_api.Common.{
  ℕ, ◌≡◌, refl, String, Bool, inl, inr, Option, none, List, is_ok, Option-cases, Bool-cases,
  find_first,
}
use myride_api.Users.{
  UpdateMeDto, UpdateProfileDto, update_me, update_profile, refuses, user_with_id, User,
}

module _ (Json : Type 0) (truthy : Json → Bool) where
  -- A request with a name and a picture does the same to the table by both ways, and by both it
  -- succeeds or fails.
  pub update_me-update_profile :
      (user_id : ℕ) (name avatar_url : Option String) (users : List (User Json truthy))
      → let me : UpdateMeDto Json truthy = record {
        name = name;
        bio = none;
        avatar_url = avatar_url;
        emergency_contacts = none;
        push_token = none;
      } in
        let profile : UpdateProfileDto Json truthy = record {
          name = name;
          avatar_url = avatar_url;
          vehicle = none;
        } in
        ((update_me Json truthy user_id me users).1
          ≡ (update_profile Json truthy user_id profile users).1)
        × (is_ok (update_me Json truthy user_id me users).0
            ≡ is_ok (update_profile Json truthy user_id profile users).0)
  unfolding update_me update_profile
  update_me-update_profile user_id name avatar_url users =
      elim (Option-cases (find_first (user_with_id Json truthy user_id) users)) [
        | inl nobody ↦ rw nobody (refl, refl)
        | inr (u, found) ↦ elim (Bool-cases (refuses Json truthy name)) [
          | inl bad ↦ rw (found, bad) (refl, refl)
          | inr good ↦ rw (found, good) (refl, refl)
        ]
      ]
