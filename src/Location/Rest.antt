-- ===== src/Location/Rest.antt =====
-- `getLocations` and `postLocation` of src/modules/location/location.controller.ts, with the membership check
-- that they call. The user id they pass on is `req.user.sub`; `req.user` is the row
-- that `validate` of src/modules/auth/strategies/jwt.strategy.ts returns, which has an `id` and no `sub`. So
-- the id is undefined, the cache's key is chat:access:trip:{trip}:undefined, and TypeORM leaves a
-- condition out of a WHERE whose value is undefined. In the other keys, and in a position, `nobody` is
-- the number that stands for undefined.
use myride_api.Common.{
  ℕ, ◌+◌, ◌≡◌, Bool, not, ◌&&◌, Option, some, none, List, ◌==◌, arith, is_some, find_first, Action,
  ok, pure, gets, modify, throw_if, ◌>>=◌, ◌>>◌, String, if◌then◌else◌, refl,
}
use myride_api.Entities.{TripParticipant, is_approved}
use myride_api.Store.{is_member_of}
use myride_api.Redis.{Redis, Value, value_at}
use myride_api.Auth.{User}
use myride_api.Chat.Access.{cached_value, is_granted, ttl}
use myride_api.Location.Storage.{LocationPayload, ParticipantPosition, Positions, live}
use myride_api.Location.{Error, not_a_trip_member, Near, is_jitter, position_of, pos_ttl}
use myride_api.Chat.Limits
use myride_api.Chat.Limits.{check_rate_limit}

-- `req.user.sub`
abbrev pub subject : User → Option ℕ
subject u = none

-- `{ trip_id, user_id, status: 'approved' }`, where a condition on undefined is left out.
abbrev pub member_where : (trip_id : ℕ) → Option ℕ → TripParticipant → Bool
member_where trip_id none p = is_member_of trip_id p
member_where trip_id (some user_id) p =
    p.trip_id == trip_id && p.user_id == user_id && is_approved p.status

pub data Posted : Type 0 where
  rate_limited no_significant_movement : Posted
  shared : ParticipantPosition → Posted

-- The keys of the access cache are the trips, for the one user that is undefined.
module _ (C : Redis ℕ) (L : Redis Limits.Key) (P : Positions) where
  pub record State : Type 0 where
    pub cache : C.Store
    pub participants : List TripParticipant
    pub limits : L.Store
    pub positions : P.Store

  abbrev pub Method : Type 0 → Type 0
  Method A = Action State Error A

  abbrev pub look_up : (now trip_id : ℕ) → Option ℕ → Method Bool
  look_up now trip_id user_id = do
    has_access ←
        gets λ (s : State). is_some (find_first (member_where trip_id user_id) s.participants)
    modify λ s. record s {
      cache = C.set_ex trip_id (cached_value has_access) (now + ttl has_access) s.cache;
    }
    pure has_access

  abbrev pub answer : (now trip_id : ℕ) → Option ℕ → Option Value → Method Bool
  answer now trip_id user_id (some v) = pure (is_granted v)
  answer now trip_id user_id none = look_up now trip_id user_id

  -- `assertMembership(req.user.sub, tripId)`
  unfoldable pub assert_membership : (now trip_id : ℕ) → User → Method (Unit {0})
  assert_membership now trip_id user = do
    cached ← gets λ (s : State). value_at now (C.view s.cache trip_id)
    member ← answer now trip_id (subject user) cached
    throw_if (not member) not_a_trip_member

  unfoldable pub get_locations : (now trip_id : ℕ) → User → Method (List ParticipantPosition)
  unfolding assert_membership
  get_locations now trip_id user = do
    assert_membership now trip_id user
    gets λ (s : State). P.all now trip_id s.positions

  -- The position is stored unless the move is too small.
  abbrev pub share :
      Near
      → (nobody now trip_id : ℕ) → Option String
      → LocationPayload
      → Option ParticipantPosition
      → Method Posted
  share near nobody now trip_id name payload existing =
      if is_jitter near existing payload then pure no_significant_movement else do
        modify λ s. record s {
          positions =
              P.set_ex trip_id nobody (position_of nobody name payload) (now + pos_ttl) s.positions;
        }
        pure (shared (position_of nobody name payload))

  abbrev pub count_call : (nobody now : ℕ) → Method Bool
  count_call nobody now s =
      let (allowed, limits) = check_rate_limit L nobody now s.limits in
      (ok allowed, record s { limits = limits })

  unfoldable pub post_location :
      Near → (nobody now trip_id : ℕ) → User → LocationPayload → Method Posted
  unfolding assert_membership
  post_location near nobody now trip_id user payload = do
    assert_membership now trip_id user
    within_limit ← count_call nobody now
    if not within_limit then pure rate_limited else do
      existing ← gets λ (s : State). live now (P.view s.positions trip_id nobody)
      share near nobody now trip_id user.name payload existing

  -- Every signed-in user is shown all live positions of a trip that has an approved participant,
  -- whoever that is, where no answer is cached.
  pub get_locations-anyone :
      (now trip_id : ℕ) (user : User) (s : State) {p : TripParticipant}
      → value_at now (C.view s.cache trip_id) ≡ none
      → find_first (is_member_of trip_id) s.participants ≡ some p
      → (get_locations now trip_id user s).0 ≡ ok (P.all now trip_id s.positions)
  unfolding get_locations assert_membership
  get_locations-anyone now trip_id user s cold somebody = ground (arith, cold, somebody)

  -- Two users who post the same place to a trip get the same answers and leave the same state, if they
  -- have the same name: nothing else of the user is looked at.
  pub post_location-anyone :
      (near : Near) (nobody now trip_id : ℕ) (a b : User) (payload : LocationPayload) (s : State)
      → a.name ≡ b.name
      → post_location near nobody now trip_id a payload s
        ≡ post_location near nobody now trip_id b payload s
  unfolding post_location assert_membership
  post_location-anyone near nobody now trip_id a b payload s same = rw same refl
