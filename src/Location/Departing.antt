-- ===== src/Location/Departing.antt =====
-- What `handleDisconnect` of src/modules/location/location.gateway.ts clears.

use myride_api.Common.{
  ℕ, ◌≡◌, refl, ap, sym, ◌∙◌, true, false, Option, some, none, List, [], ◌∷◌, ◌++◌, map, arith,
  ◌==◌, ==_iff, inl, inr, Bool-cases, append_assoc, append_nil,
}
use myride_api.Redis.{Redis}
use myride_api.Chat.Access
use myride_api.Chat.Limits
use myride_api.Chat.Gateway.{Claims}
use myride_api.Location.{remove_position}
use myride_api.Location.Storage.{Positions}
use myride_api.Location.Gateway.{
  Server, has_trip, claims_of, socket, drop_out, drop_out_of, handle_disconnect, to_trip,
  location_left,
}

module _ (R : Redis Access.Key) (L : Redis Limits.Key) (P : Positions) where
  drop_out-gone :
      (u t : ℕ) (s : Server R L P) → P.view (drop_out R L P u t s).service.positions t u ≡ none
  unfolding remove_position
  drop_out-gone u t s = P.view-del_self t u s.service.positions

  drop_out-other :
      (u t v : ℕ) (s : Server R L P)
      → (t == v) ≡ false
      → P.view (drop_out R L P u t s).service.positions v u ≡ P.view s.service.positions v u
  unfolding remove_position
  drop_out-other u t v s h = P.view-del_ne t u v u s.service.positions (rw h refl)

  drop_out_of-stays_gone :
      (u v : ℕ) (ts : List ℕ) (s : Server R L P)
      → P.view s.service.positions v u ≡ none
      → P.view (drop_out_of R L P u ts s).service.positions v u ≡ none
  unfolding drop_out_of
  drop_out_of-stays_gone u v [] s gone = gone
  drop_out_of-stays_gone u v (t ∷ ts) s gone = elim (Bool-cases (t == v)) [
    | inl same ↦
        drop_out_of-stays_gone u v ts (drop_out R L P u t s)
          (rw (← (==_iff t v).0 same) (drop_out-gone u t s))
    | inr other ↦
        drop_out_of-stays_gone u v ts (drop_out R L P u t s) (drop_out-other u t v s other ∙ gone)
  ]

  drop_out_of-view :
      (u v : ℕ) (ts : List ℕ) (s : Server R L P)
      → has_trip v ts ≡ true
      → P.view (drop_out_of R L P u ts s).service.positions v u ≡ none
  unfolding drop_out_of
  drop_out_of-view u v [] s h = absurd (ground arith)
  drop_out_of-view u v (t ∷ ts) s h = elim (Bool-cases (t == v)) [
    | inl same ↦
        drop_out_of-stays_gone u v ts (drop_out R L P u t s)
          (rw (← (==_iff t v).0 same) (drop_out-gone u t s))
    | inr other ↦ drop_out_of-view u v ts (drop_out R L P u t s) (rw other at h)
  ]

  drop_out_of-emitted :
      (u : ℕ) (ts : List ℕ) (s : Server R L P)
      → (drop_out_of R L P u ts s).emitted
        ≡ s.emitted ++ map (λ t. to_trip t (location_left t u)) ts
  unfolding drop_out_of
  drop_out_of-emitted u [] s = sym (append_nil s.emitted)
  drop_out_of-emitted u (t ∷ ts) s =
      drop_out_of-emitted u ts (drop_out R L P u t s) ∙ append_assoc s.emitted _ _

  -- When a socket of a user goes, the user's position is cleared in each trip whose room the socket
  -- is still in when the handler runs, and that room is told, once for each trip in the order of the
  -- rooms.
  pub handle_disconnect-removes :
      (id : ℕ) (rooms : List ℕ) (s : Server R L P) (c : Claims)
      → claims_of (socket R L P id s) ≡ some c
      → let s' = handle_disconnect R L P id rooms s in
        ((t : ℕ) → has_trip t rooms ≡ true → P.view s'.service.positions t c.sub ≡ none)
        × (s'.emitted ≡ s.emitted ++ map (λ t. to_trip t (location_left t c.sub)) rooms)
  unfolding handle_disconnect
  handle_disconnect-removes id rooms s c known =
      let by : Option Claims → Server R L P = λ k. elim k as (λ _. Server R L P) [
        | none ↦ s
        | some c ↦ drop_out_of R L P c.sub rooms s
      ] in
      let same : handle_disconnect R L P id rooms s ≡ drop_out_of R L P c.sub rooms s =
        ap by known in
      (
        (λ t h.
            ap (λ x. P.view x.service.positions t c.sub) same ∙ drop_out_of-view c.sub t rooms s h),
        ap (λ x. x.emitted) same ∙ drop_out_of-emitted c.sub rooms s,
      )
