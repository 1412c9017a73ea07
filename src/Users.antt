-- ===== src/Users.antt =====
-- Profiles: src/modules/users/users.service.ts, and `updateProfile` of src/modules/auth/auth.service.ts, which
-- both edit a row of users. A vehicle is JSON, of which only whether it is truthy is asked; emergency
-- contacts are their JSON text. The columns that only sign-in uses are left out.
pub mod Profiles
pub mod Push
use text.Mathlib.Text.{◌==◌ as str_eq}
use myride_api.Common.{
  ℕ, String, Bool, true, false, not, ◌&&◌, ◌||◌, Option, some, none, List, [], ◌∷◌, ◌==◌, leb, ltb,
  or_else, is_some, if◌then◌else◌, Action, pure, gets, modify, throw_if, or_throw, ◌>>=◌, ◌>>◌,
  find_first, find_all, update_where, trim, length_units,
}

pub data Error : Type 0 where
  user_not_found invalid_name : Error

-- `dto.push_token || null`, and the like.
abbrev pub truthy_text : String → Option String
truthy_text s = if str_eq s "" then none else some s

-- `trimmed.length < 1 || trimmed.length > 100`
abbrev pub is_bad_name : String → Bool
is_bad_name trimmed = ltb (length_units trimmed) 1 || ltb 100 (length_units trimmed)

-- A field of a request that may be left out, and what is assigned where it is there.
abbrev pub assign : {A B : Type 0} → (A → B) → Option A → B → B
assign f none old = old
assign f (some a) old = f a

module _ (Json : Type 0) (truthy : Json → Bool) where
  pub record Preferences : Type 0 where
    pub vehicle : Option Json
    pub others : String

  pub record User : Type 0 where
    pub id : ℕ
    pub phone : String
    pub name : Option String
    pub bio : Option String
    pub profile_photo_url : Option String
    pub is_active : Bool
    pub is_onboarding_complete : Bool
    pub push_token : Option String
    pub emergency_contacts : String
    pub preferences : Option Preferences
    pub created_at : ℕ

  abbrev pub Method : Type 0 → Type 0
  Method A = Action (List User) Error A

  abbrev pub user_with_id : ℕ → User → Bool
  user_with_id id u = u.id == id

  -- `save` of the loaded row.
  abbrev pub save : User → Method (Unit {0})
  save u = modify λ users. update_where (user_with_id u.id) (λ _. u) users

  pub record PublicProfile : Type 0 where
    pub id : ℕ
    pub phone : String
    pub name : Option String
    pub bio : Option String
    pub profile_photo_url : Option String
    pub is_active : Bool
    pub emergency_contacts : String
    pub preferences : Option Preferences
    pub created_at : ℕ

  abbrev pub to_public : User → PublicProfile
  to_public u = record {
    id = u.id;
    phone = u.phone;
    name = u.name;
    bio = u.bio;
    profile_photo_url = u.profile_photo_url;
    is_active = u.is_active;
    emergency_contacts = u.emergency_contacts;
    preferences = u.preferences;
    created_at = u.created_at;
  }

  unfoldable pub find_by_id : ℕ → Method PublicProfile
  find_by_id id = do
    found ← gets λ (users : List User). find_first (λ u. user_with_id id u && u.is_active) users
    u ← or_throw found user_not_found
    pure (to_public u)

  pub record UpdateMeDto : Type 0 where
    pub name : Option String
    pub bio : Option String
    pub avatar_url : Option String
    pub emergency_contacts : Option String
    pub push_token : Option String

  -- The name of the request, if it is one that is refused.
  abbrev pub refuses : Option String → Bool
  refuses none = false
  refuses (some name) = is_bad_name (trim name)

  -- `user.name = trimmed; user.is_onboarding_complete = true;`
  abbrev pub renamed : Option String → User → User
  renamed none u = u
  renamed (some name) u = record u { name = some (trim name); is_onboarding_complete = true }

  abbrev pub edited : UpdateMeDto → User → User
  edited dto u =
      let r = renamed dto.name u in
      record r {
        bio = assign (λ b. truthy_text (trim b)) dto.bio r.bio;
        profile_photo_url = assign (λ a. some a) dto.avatar_url r.profile_photo_url;
        emergency_contacts = assign (λ c. c) dto.emergency_contacts r.emergency_contacts;
        push_token = assign (λ t. truthy_text t) dto.push_token r.push_token;
      }

  unfoldable pub update_me : ℕ → UpdateMeDto → Method PublicProfile
  update_me user_id dto = do
    found ← gets λ (users : List User). find_first (user_with_id user_id) users
    u ← or_throw found user_not_found
    throw_if (refuses dto.name) invalid_name
    save (edited dto u)
    pure (to_public (edited dto u))

  abbrev pub token_of : Option User → Option String
  token_of none = none
  token_of (some u) = u.push_token

  unfoldable pub find_push_token : ℕ → Method (Option String)
  find_push_token user_id =
      gets λ (users : List User). token_of (find_first (user_with_id user_id) users)

  abbrev pub is_one_of : List ℕ → ℕ → Bool
  is_one_of [] id = false
  is_one_of (i ∷ is) id = i == id || is_one_of is id

  -- `if (u.push_token) map.set(u.id, u.push_token)`
  abbrev pub add_token : User → List (ℕ × String) → List (ℕ × String)
  add_token u rest = elim u.push_token [
    | none ↦ rest
    | some t ↦ if str_eq t "" then rest else (u.id, t) ∷ rest
  ]

  unfoldable pub tokens_of : List User → List (ℕ × String)
  tokens_of [] = []
  tokens_of (u ∷ us) = add_token u (tokens_of us)

  unfoldable pub find_push_tokens : List ℕ → Method (List (ℕ × String))
  unfolding tokens_of
  find_push_tokens user_ids = gets λ (users : List User).
      tokens_of (find_all (λ u. is_one_of user_ids u.id && is_some u.push_token) users)

  pub record UpdateProfileDto : Type 0 where
    pub name : Option String
    pub avatar_url : Option String
    pub vehicle : Option Json

  abbrev pub blank : Preferences
  blank = record { vehicle = none; others = "{}" }

  abbrev pub with_vehicle : Option Json → User → User
  with_vehicle none u = u
  with_vehicle (some v) u = record u {
    preferences = some (record (or_else u.preferences blank) { vehicle = some v });
  }

  abbrev pub truthy_json : Option Json → Option Json
  truthy_json none = none
  truthy_json (some v) = if truthy v then some v else none

  abbrev pub stored_vehicle : Option Preferences → Option Json
  stored_vehicle none = none
  stored_vehicle (some p) = truthy_json p.vehicle

  abbrev pub shown_vehicle : Option Json → User → Option Json
  shown_vehicle (some v) u = some v
  shown_vehicle none u = stored_vehicle u.preferences

  abbrev pub profiled : UpdateProfileDto → User → User
  profiled dto u =
      let r = renamed dto.name u in
      with_vehicle dto.vehicle
        (record r { profile_photo_url = assign (λ a. some a) dto.avatar_url r.profile_photo_url })

  pub record PublicUser : Type 0 where
    pub id : ℕ
    pub phone : String
    pub name : Option String
    pub avatar_url : Option String
    pub is_onboarding_complete : Bool
    pub created_at : ℕ

  abbrev pub to_public_user : User → PublicUser
  to_public_user u = record {
    id = u.id;
    phone = u.phone;
    name = u.name;
    avatar_url = u.profile_photo_url;
    is_onboarding_complete = u.is_onboarding_complete;
    created_at = u.created_at;
  }

  unfoldable pub update_profile : ℕ → UpdateProfileDto → Method (PublicUser × Option Json)
  update_profile user_id dto = do
    found ← gets λ (users : List User). find_first (user_with_id user_id) users
    u ← or_throw found user_not_found
    throw_if (refuses dto.name) invalid_name
    save (profiled dto u)
    pure (to_public_user (profiled dto u), shown_vehicle dto.vehicle u)
