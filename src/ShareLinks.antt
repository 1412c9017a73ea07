-- ===== src/ShareLinks.antt =====
-- Shareable links of trips: src/modules/share-links/share-links.service.ts.
-- `token` is the random token that `generateToken` draws, `hash` and `compare` are bcrypt's, and
-- `creator` looks a user up; `now` and `new_id` are as in the trip services.
pub mod Joining
pub mod Laws
use mathlib.Core.Option
use text.Mathlib.Text.{◌==◌ as str_eq}
use myride_api.Common.{
  ℕ, ◌+◌, ◌*◌, String, Bool, true, false, not, ◌&&◌, Option, some, none, List, [], ◌∷◌, ◌++◌, map,
  is_some, or_else, or_option, ltb, ◌==◌, if◌then◌else◌, find_first, update_where, pure, gets,
  modify, throw_if, or_throw, ◌>>=◌, ◌>>◌,
}
use myride_api.Entities.{
  Trip, TripType, Visibility, TripStatus, TripStop, StopType, AccessMode, view_only,
  password_protected, TripShareableLink, is_pending_trip,
}
use myride_api.Store.{
  Db, Method, trip_not_found, password_required, link_not_found, link_not_found_or_disabled,
  link_expired, wrong_password, trip_with_id,
}
use myride_api.Progress.Seed.{stops_in_order}
use myride_api.Trips.Membership.{assert_admin, get_trip}

pub record ShareLinkDto : Type 0 where
  pub access_mode : Option AccessMode
  pub password : Option String
  pub expires_in_hours : Option ℕ

-- A string that JavaScript takes for true: given, and not empty.
abbrev pub truthy : Option String → Option String
truthy none = none
truthy (some s) = if str_eq s "" then none else some s

abbrev pub is_protected : AccessMode → Bool
is_protected password_protected = true
is_protected _ = false

-- `dto.access_mode === 'password-protected'`
abbrev pub asks_protection : Option AccessMode → Bool
asks_protection none = false
asks_protection (some m) = is_protected m

-- `expires_in_hours != null ? new Date(Date.now() + expires_in_hours * 3600_000) : null`
abbrev pub expiry : ℕ → Option ℕ → Option ℕ
expiry now none = none
expiry now (some hours) = some (now + hours * 3600000)

abbrev pub hash_of : (String → String) → Option String → Option String
hash_of hash none = none
hash_of hash (some s) = some (hash s)

abbrev pub link_of_trip : ℕ → TripShareableLink → Bool
link_of_trip trip_id l = l.trip_id == trip_id

abbrev pub link_with_id : ℕ → TripShareableLink → Bool
link_with_id id l = l.id == id

abbrev pub link_with_token : String → TripShareableLink → Bool
link_with_token token l = str_eq l.link_token token

abbrev pub save_link : ℕ → (TripShareableLink → TripShareableLink) → Method (Unit {0})
save_link id f = modify λ db. record db { links = update_where (link_with_id id) f db.links }

abbrev pub replace_link :
    (now : ℕ) (token : String) (hash : String → String)
    → ShareLinkDto
    → TripShareableLink
    → TripShareableLink
replace_link now token hash dto l = record l {
  link_token = token;
  access_mode = or_else dto.access_mode view_only;
  password_hash = hash_of hash (truthy dto.password);
  expires_at = expiry now dto.expires_in_hours;
  is_active = true;
}

-- The columns with a default in the entity start at it.
abbrev pub new_link :
    (now id trip_id : ℕ) (token : String) (hash : String → String)
    → ShareLinkDto
    → TripShareableLink
new_link now id trip_id token hash dto = record {
  id = id;
  trip_id = trip_id;
  link_token = token;
  access_mode = or_else dto.access_mode view_only;
  password_hash = hash_of hash (truthy dto.password);
  expires_at = expiry now dto.expires_in_hours;
  is_active = true;
  total_views = 0;
  join_requests = 0;
  successful_joins = 0;
  last_accessed_at = none;
}

abbrev pub store_link :
    (now id trip_id : ℕ) (token : String) (hash : String → String) (dto : ShareLinkDto)
    → Option TripShareableLink
    → Method TripShareableLink
store_link now id trip_id token hash dto none = do
  modify λ db. record db { links = db.links ++ new_link now id trip_id token hash dto ∷ [] }
  pure (new_link now id trip_id token hash dto)
store_link now id trip_id token hash dto (some l) = do
  save_link l.id (replace_link now token hash dto)
  pure (replace_link now token hash dto l)

unfoldable pub upsert :
    (now new_id : ℕ) (token : String) (hash : String → String) (trip_id admin_id : ℕ)
    → ShareLinkDto
    → Method TripShareableLink
unfolding assert_admin
upsert now new_id token hash trip_id admin_id dto = do
  trip ← assert_admin trip_id admin_id
  throw_if (asks_protection dto.access_mode && not (is_some (truthy dto.password)))
      password_required
  existing ← gets λ (db : Db). find_first (link_of_trip trip_id) db.links
  store_link now new_id trip_id token hash dto existing

-- The hash column has `select: false`: a plain `findOne` does not load it.
abbrev pub hide_hash : TripShareableLink → TripShareableLink
hide_hash l = record l { password_hash = none }

abbrev pub get_link : ℕ → Method TripShareableLink
get_link trip_id = do
  found ← gets λ (db : Db). find_first (link_of_trip trip_id) db.links
  or_throw (Option.map hide_hash found) link_not_found

-- The columns that an update changes are those that the request gives.
abbrev pub update_link :
    (now : ℕ) (hash : String → String) → ShareLinkDto → TripShareableLink → TripShareableLink
update_link now hash dto l = record l {
  access_mode = or_else dto.access_mode l.access_mode;
  password_hash = or_option (hash_of hash (truthy dto.password)) l.password_hash;
  expires_at = or_option (expiry now dto.expires_in_hours) l.expires_at;
}

unfoldable pub update :
    (now : ℕ) (hash : String → String) (trip_id admin_id : ℕ)
    → ShareLinkDto
    → Method TripShareableLink
unfolding assert_admin
update now hash trip_id admin_id dto = do
  trip ← assert_admin trip_id admin_id
  link ← get_link trip_id
  throw_if
      (asks_protection dto.access_mode
        && not (is_some (truthy dto.password))
        && not (is_some link.password_hash))
      password_required
  save_link link.id (update_link now hash dto)
  pure (update_link now hash dto link)

unfoldable pub get_for_admin : (trip_id admin_id : ℕ) → Method (Option TripShareableLink)
unfolding assert_admin
get_for_admin trip_id admin_id = do
  trip ← assert_admin trip_id admin_id
  gets λ (db : Db). Option.map hide_hash (find_first (link_of_trip trip_id) db.links)

unfoldable pub disable : (trip_id admin_id : ℕ) → Method (Unit {0})
unfolding assert_admin
disable trip_id admin_id = do
  trip ← assert_admin trip_id admin_id
  modify λ db. record db {
    links = update_where (link_of_trip trip_id) (λ l. record l { is_active = false }) db.links;
  }

abbrev pub renew : String → TripShareableLink → TripShareableLink
renew token l = record l { link_token = token; is_active = true }

unfoldable pub regenerate : (token : String) (trip_id admin_id : ℕ) → Method TripShareableLink
unfolding assert_admin
regenerate token trip_id admin_id = do
  trip ← assert_admin trip_id admin_id
  link ← get_link trip_id
  save_link link.id (renew token)
  pure (renew token link)
