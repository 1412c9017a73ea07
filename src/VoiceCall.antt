-- ===== src/VoiceCall.antt =====
-- Tokens for a trip's voice room: src/modules/voice-call/voice-call.service.ts. LiveKit's token is its
-- grants and the name in them; signing it is left out. The environment's three settings are an
-- argument, none where one is missing or empty.

use myride_api.Common.{
  ℕ, ◌*◌, ◌≡◌, ◌↔◌, ◌⊎◌, inl, inr, String, Bool, true, not, ◌&&◌, Option, some, arith, Option-cases,
  is_some, is_ok, ok, or_else, ◌==◌, ==_iff, find_first, Action, pure, gets, throw_if, or_throw,
  ◌>>=◌, ◌>>◌,
}
use myride_api.Entities.{Trip, TripParticipant}
use myride_api.Store.{Db, trip_with_id, approved_row}

pub data Error : Type 0 where
  trip_not_found not_trip_member voice_not_configured : Error

abbrev pub Method : Type 0 → Type 0
Method A = Action Db Error A

pub record Settings : Type 0 where
  pub api_key : String
  pub api_secret : String
  pub ws_url : String

-- The room is `trip-{id}`.
pub record Token : Type 0 where
  pub identity : ℕ
  pub name : String
  pub ttl_seconds : ℕ
  pub room : ℕ
  pub can_publish : Bool
  pub can_subscribe : Bool
  pub can_publish_data : Bool

pub record VoiceAccess : Type 0 where
  pub token : Token
  pub ws_url : String
  pub room : ℕ
  pub expires_in : ℕ

abbrev pub ttl_seconds : ℕ
ttl_seconds = 60 * 60

-- `short_id` is the first eight characters of the user's id.
abbrev pub grants :
    (short_id : ℕ → String) (trip_id user_id : ℕ) → Option String → (is_creator : Bool) → Token
grants short_id trip_id user_id display_name is_creator = record {
  identity = user_id;
  name = or_else display_name (short_id user_id);
  ttl_seconds = ttl_seconds;
  room = trip_id;
  can_publish = true;
  can_subscribe = true;
  can_publish_data = is_creator;
}

unfoldable pub issue_token :
    (settings : Option Settings) (short_id : ℕ → String) (trip_id user_id : ℕ)
    → Option String
    → Method VoiceAccess
issue_token settings short_id trip_id user_id display_name = do
  found ← gets λ (db : Db). find_first (trip_with_id trip_id) db.trips
  trip ← or_throw found trip_not_found
  row ← gets λ (db : Db). find_first (approved_row trip_id user_id) db.participants
  throw_if (not (trip.creator_id == user_id) && not (is_some row)) not_trip_member
  config ← or_throw settings voice_not_configured
  pure (record {
    token = grants short_id trip_id user_id display_name (trip.creator_id == user_id);
    ws_url = config.ws_url;
    room = trip_id;
    expires_in = ttl_seconds;
  })

-- With the settings there, a user gets a token for a trip's room exactly if the user created the trip
-- or has an approved row in it; the token is for that user and that trip's room, lasts an hour, and lets
-- the user publish data exactly if the user created the trip.
pub issue_token-ok_iff :
    (settings : Settings) (short_id : ℕ → String) (trip_id user_id : ℕ) (name : Option String)
    (db : Db) {trip : Trip}
    → find_first (trip_with_id trip_id) db.trips ≡ some trip
    → let answer = (issue_token (some settings) short_id trip_id user_id name db).0 in
      ((is_ok answer ≡ true) ↔ (
        (trip.creator_id ≡ user_id)
        ⊎ ((p : TripParticipant) × (find_first (approved_row trip_id user_id) db.participants
              ≡ some p))))
      × ((access : VoiceAccess)
          → answer ≡ ok access
          → (access.token.identity ≡ user_id)
            × (access.token.room ≡ trip_id)
            × (access.token.ttl_seconds ≡ 3600)
            × ((access.token.can_publish_data ≡ true) ↔ (trip.creator_id ≡ user_id)))
unfolding issue_token
issue_token-ok_iff settings short_id trip_id user_id name db {trip} there =
    let own = ==_iff trip.creator_id user_id in
    elim (Option-cases (find_first (approved_row trip_id user_id) db.participants)) [
      | inl no_row ↦ (
        (
          (λ done. inl (ground arith)),
          (λ d. elim d [
            | inl created ↦ ground (arith, own)
            | inr (p, row) ↦ absurd (ground arith)
          ]),
        ),
        (λ access done. (ground arith, ground arith, ground arith, ground (arith, own))),
      )
      | inr (p, row) ↦ (
        ((λ _. inr (p, row)), (λ _. ground arith)),
        (λ access done. (ground arith, ground arith, ground arith, ground (arith, own))),
      )
    ]
