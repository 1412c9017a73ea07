-- ===== src/Tests/Versions.antt =====
-- Version 1.10.0 against 1.9.3, and a voice token of the small store.
use myride_api.Common.{◌≡◌, refl, ◌↔◌, ◌⊎◌, true, some, none, List, [], ◌∷◌, find_first, is_ok, ok}
use myride_api.Common.Int.{ℤ, pos}
use myride_api.Entities.{TripParticipant, public}
use myride_api.Store.{trip_with_id, approved_row}
use myride_api.Version.{compare, is_negative}
use myride_api.Version.Order.{IsBefore, compare-IsBefore}
use myride_api.VoiceCall.{Settings, VoiceAccess, issue_token, issue_token-ok_iff}
use myride_api.Tests.{db, trip_row}

abbrev nine : List ℤ
nine = pos 1 ∷ pos 9 ∷ pos 3 ∷ []

abbrev ten : List ℤ
ten = pos 1 ∷ pos 10 ∷ []

compare-IsBefore_example : (is_negative (compare nine ten) ≡ true) ↔ IsBefore nine ten
compare-IsBefore_example = compare-IsBefore nine ten

abbrev settings : Settings
settings = record { api_key = "k"; api_secret = "s"; ws_url = "wss://call" }

trip_one : find_first (trip_with_id 1) db.trips ≡ some (trip_row 1 public 2)
unfolding find_first
trip_one = refl

issue_token-ok_iff_example :
    let answer = (issue_token (some settings) (λ n. "u") 1 8 none db).0 in
    ((is_ok answer ≡ true) ↔ (
      ((trip_row 1 public 2).creator_id ≡ 8)
      ⊎ ((p : TripParticipant) × (find_first (approved_row 1 8) db.participants ≡ some p))))
    × ((access : VoiceAccess)
        → answer ≡ ok access
        → (access.token.identity ≡ 8)
          × (access.token.room ≡ 1)
          × (access.token.ttl_seconds ≡ 3600)
          × ((access.token.can_publish_data ≡ true) ↔ ((trip_row 1 public 2).creator_id ≡ 8)))
issue_token-ok_iff_example = issue_token-ok_iff settings (λ n. "u") 1 8 none db trip_one
