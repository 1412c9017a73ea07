-- ===== src/Entities.antt =====
-- The rows of the tables that the trip modules share: src/modules/trips/entities/*.entity.ts.
-- Ids are uuids, which the code only compares: natural numbers. A date is its number of
-- milliseconds since the epoch, a price its number of cents, and a coordinate the decimal text
-- that a request holds, which is only passed on. Columns that no method of the services reads or
-- writes (`actual_start_time`, `route_info`, `payment_id`, `updated_at` and the like) are left out.
use myride_api.Common.{ℕ, String, Bool, true, false, Option}

pub data TripType : Type 0 where
  one_way round_trip : TripType

pub data Visibility : Type 0 where
  public private : Visibility

pub data TripStatus : Type 0 where
  pending in_progress completed cancelled : TripStatus

pub record Trip : Type 0 where
  pub id : ℕ
  pub title : String
  pub description : Option String
  pub trip_type : TripType
  pub visibility : Visibility
  pub is_paid : Bool
  pub trip_price : Option ℕ
  pub status : TripStatus
  pub creator_id : ℕ
  pub community_id : Option ℕ
  pub max_participants : ℕ
  pub current_participants : ℕ
  pub scheduled_start_time : Option ℕ
  pub metadata : Option String
  pub created_at : ℕ

pub data StopType : Type 0 where
  start waypoint fuel food rest destination : StopType

pub record Point : Type 0 where
  pub longitude : String
  pub latitude : String

pub record TripStop : Type 0 where
  pub id : ℕ
  pub trip_id : ℕ
  pub stop_order : ℕ
  pub name : String
  pub description : Option String
  pub location : Point
  pub address : Option String
  pub stop_type : StopType
  pub duration_minutes : Option ℕ
  pub is_mandatory : Bool

pub data ParticipantStatus : Type 0 where
  pending approved rejected left : ParticipantStatus

pub data Role : Type 0 where
  admin member : Role

pub data PaymentStatus : Type 0 where
  pending paid refunded : PaymentStatus

pub record TripParticipant : Type 0 where
  pub id : ℕ
  pub trip_id : ℕ
  pub user_id : ℕ
  pub status : ParticipantStatus
  pub role : Role
  pub joined_at : Option ℕ
  pub left_at : Option ℕ
  pub payment_status : Option PaymentStatus
  pub created_at : ℕ

pub data ProgressStatus : Type 0 where
  pending current completed skipped : ProgressStatus

pub record UserStopProgress : Type 0 where
  pub id : ℕ
  pub stop_id : ℕ
  pub user_id : ℕ
  pub status : ProgressStatus
  pub completed_at : Option ℕ
  pub completion_location : Option Point
  pub notes : Option String

pub data AccessMode : Type 0 where
  view_only auto_join password_protected expiring : AccessMode

pub record TripShareableLink : Type 0 where
  pub id : ℕ
  pub trip_id : ℕ
  pub link_token : String
  pub access_mode : AccessMode
  pub password_hash : Option String
  pub expires_at : Option ℕ
  pub is_active : Bool
  pub total_views : ℕ
  pub join_requests : ℕ
  pub successful_joins : ℕ
  pub last_accessed_at : Option ℕ

-- `status === 'pending'` on each of the status types, and the other comparisons of the code.
abbrev pub is_pending_trip : TripStatus → Bool
is_pending_trip TripStatus.pending = true
is_pending_trip _ = false

abbrev pub is_completed_trip : TripStatus → Bool
is_completed_trip TripStatus.completed = true
is_completed_trip _ = false

abbrev pub is_private : Visibility → Bool
is_private private = true
is_private public = false

abbrev pub is_pending : ParticipantStatus → Bool
is_pending ParticipantStatus.pending = true
is_pending _ = false

abbrev pub is_approved : ParticipantStatus → Bool
is_approved ParticipantStatus.approved = true
is_approved _ = false

abbrev pub is_rejected : ParticipantStatus → Bool
is_rejected ParticipantStatus.rejected = true
is_rejected _ = false

abbrev pub has_left : ParticipantStatus → Bool
has_left ParticipantStatus.left = true
has_left _ = false
