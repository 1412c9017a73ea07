-- ===== src/Location/Storage.antt =====
-- What src/modules/location/location.service.ts relies on of Redis for the keys loc:pos:{trip}:{user}.
pub mod Rows
use mathlib.Core.Option
use myride_api.Common.{
  ℕ, ◌≡◌, ◌≢◌, refl, ap, sym, subst, ◌∙◌, ◌⊎◌, inl, inr, ◌↔◌, String, Bool, true, false, not, ◌&&◌,
  ◌||◌, Option, some, none, List, [], ◌∷◌, ◌++◌, map, arith, ◌==◌, ==_iff, leb, is_some, find_first,
  find_all, delete_where, find_first-append, if◌then◌else◌, Bool-cases, Option-cases,
  find_first-eq-none, All,
}

pub record LocationPayload : Type 0 where
  pub lat : String
  pub lng : String
  pub heading : Option String
  pub speed : Option String
  pub ts : ℕ

pub record ParticipantPosition : Type 0 where
  pub user_id : ℕ
  pub name : Option String
  pub lat : String
  pub lng : String
  pub heading : Option String
  pub speed : Option String
  pub ts : ℕ

-- A stored position, and the second at which it expires.
pub record Stored : Type 0 where
  pub position : ParticipantPosition
  pub deadline : ℕ

abbrev pub live : (now : ℕ) → Option Stored → Option ParticipantPosition
live now none = none
live now (some e) = if leb e.deadline now then none else some e.position

-- Membership.
abbrev pub IsIn : ParticipantPosition → List ParticipantPosition → Type 0
IsIn p [] = ⊥
IsIn p (q ∷ qs) = (q ≡ p) ⊎ IsIn p qs

-- Whether a list has a position of the user.
unfoldable pub shows : ℕ → List ParticipantPosition → Bool
shows user_id [] = false
shows user_id (p ∷ ps) = p.user_id == user_id || shows user_id ps

pub record Positions : Type 1 where
  pub Store : Type 0
  pub view : Store → (trip_id user_id : ℕ) → Option Stored
  -- SET key value EX seconds, the deadline given; the user is the position's.
  pub set_ex : (trip_id user_id : ℕ) → ParticipantPosition → (deadline : ℕ) → Store → Store
  pub del : (trip_id user_id : ℕ) → Store → Store
  -- KEYS loc:pos:{trip}:* and MGET, with the keys that are gone by then left out.
  pub all : (now trip_id : ℕ) → Store → List ParticipantPosition
  pub view-set_ex_self :
      (t u : ℕ) (p : ParticipantPosition) (d : ℕ) (st : Store)
      → view (set_ex t u p d st) t u ≡ some (record { position = p; deadline = d })
  pub view-set_ex_ne :
      (t u t' u' : ℕ) (p : ParticipantPosition) (d : ℕ) (st : Store)
      → (t == t' && u == u') ≡ false
      → view (set_ex t u p d st) t' u' ≡ view st t' u'
  pub view-del_self : (t u : ℕ) (st : Store) → view (del t u st) t u ≡ none
  pub view-del_ne :
      (t u t' u' : ℕ) (st : Store)
      → (t == t' && u == u') ≡ false
      → view (del t u st) t' u' ≡ view st t' u'
  -- What is alive under a key of the trip is found.
  pub all-IsIn :
      (now t u : ℕ) (st : Store) (p : ParticipantPosition)
      → live now (view st t u) ≡ some p
      → IsIn p (all now t st)
  -- Nothing else is: what is found is under some key of the trip.
  pub shows-all :
      (now t : ℕ) (st : Store)
      → All (λ p. (u : ℕ) × (live now (view st t u) ≡ some p)) (all now t st)
