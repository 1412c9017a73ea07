-- ===== src/Chat/Worker/Timer.antt =====
-- The timer of src/modules/chat/chat-flush.worker.ts as a step relation.
use myride_api.Common.{
  ℕ, ◌≡◌, refl, ◌⊎◌, inl, inr, Bool, true, false, some, [], ◌∷◌, ◌==◌, ==_iff, arith, delete_where,
  Option-cases, find_first, is_some, ◌+◌,
}
use myride_api.Chat.Worker.{
  Worker, idle, on_application_bootstrap, on_application_shutdown, tick_start, tick_end,
}

abbrev pub is_pending : ℕ → Worker → Bool
is_pending h w = is_some (find_first (λ k. k == h) w.pending)

-- What happens to a worker that is not shut down: a timeout that is pending fires, and a drain that
-- runs comes to its end.
infix 40 ◌⟶◌ ◌⟶*◌
pub data ◌⟶◌ : Worker → Worker → Type 0 where
  fires : {w : Worker} (h : ℕ) → is_pending h w ≡ true → w ⟶ tick_start h w
  finishes : {w : Worker} → w.running ≡ true → w ⟶ tick_end w

pub data ◌⟶*◌ (start : Worker) : Worker → Type 0 where
  here : start ⟶* start
  more : {w v : Worker} → start ⟶* w → w ⟶ v → start ⟶* v

-- One timeout is pending, the one that the field has, or a drain runs and none is pending.
abbrev pub IsAlive : Worker → Type 0
IsAlive w =
    ((h : ℕ) × (w.timer ≡ some h) × (w.pending ≡ h ∷ []) × (w.running ≡ false))
    ⊎ ((w.pending ≡ []) × (w.running ≡ true))

tick_start-IsAlive :
    (w : Worker) (h : ℕ) → is_pending h w ≡ true → IsAlive w → IsAlive (tick_start h w)
unfolding tick_start find_first delete_where
tick_start-IsAlive w h p (inl (k, timer, pending, rests)) =
    let held : is_some (find_first (λ j. j == h) (k ∷ [])) ≡ true = rw pending at p in
    let same : k ≡ h = ground arith in
    inr (rw (rests, pending, same) (rw ((==_iff h h).1 refl) refl), rw rests refl)
tick_start-IsAlive w h p (inr (pending, runs)) =
    let held : is_some (find_first (λ j. j == h) []) ≡ true = rw pending at p in
    absurd (ground arith)

tick_end-IsAlive : (w : Worker) → w.running ≡ true → IsAlive w → IsAlive (tick_end w)
unfolding tick_end
tick_end-IsAlive w runs (inl (k, timer, pending, rests)) = absurd (ground arith)
tick_end-IsAlive w runs (inr (pending, _)) = inl (w.next, refl, rw pending refl, refl)

step-IsAlive : {w v : Worker} → w ⟶ v → IsAlive w → IsAlive v
step-IsAlive (fires h p) alive = tick_start-IsAlive _ h p alive
step-IsAlive (finishes runs) alive = tick_end-IsAlive _ runs alive

started-IsAlive : {w : Worker} → on_application_bootstrap idle ⟶* w → IsAlive w
unfolding on_application_bootstrap
started-IsAlive here = inl (0, refl, refl, refl)
started-IsAlive (more past step) = step-IsAlive step (started-IsAlive past)

fired : (w : Worker) (h : ℕ) → w.pending ≡ h ∷ [] → is_pending h w ≡ true
unfolding find_first
fired w h e = rw e (rw ((==_iff h h).1 refl) refl)

-- The worker never comes to rest: in every state that is reached from the start, a drain runs and
-- its end leaves a timeout whose firing calls the next drain, or none runs and a timeout is pending
-- whose firing calls one.
pub tick_start-always :
    {w : Worker}
    → on_application_bootstrap idle ⟶* w
    → ((w.running ≡ true)
        × ((h : ℕ) × (is_pending h (tick_end w) ≡ true)
            × ((tick_start h (tick_end w)).drains ≡ w.drains + 1)))
      ⊎ ((w.running ≡ false)
          × ((h : ℕ) × (is_pending h w ≡ true) × ((tick_start h w).drains ≡ w.drains + 1)))
unfolding tick_start tick_end
tick_start-always {w} past = elim (started-IsAlive past) [
  | inl (h, timer, pending, rests) ↦ inr (rests, (h, fired w h pending, rw rests refl))
  | inr (pending, runs) ↦ inl (runs, (w.next, fired (tick_end w) w.next (rw pending refl), refl))
]

-- A shutdown between two drains leaves nothing pending and nothing running. A shutdown during a drain
-- does not stop the worker: when the drain ends a timeout is pending, whose firing calls another
-- drain.
pub on_application_shutdown-stops_iff :
    {w : Worker}
    → on_application_bootstrap idle ⟶* w
    → let v = on_application_shutdown w in
      ((w.running ≡ false) → (v.pending ≡ []) × (v.running ≡ false))
      × ((w.running ≡ true)
          → (h : ℕ) × (is_pending h (tick_end v) ≡ true)
            × ((tick_start h (tick_end v)).drains ≡ w.drains + 1))
unfolding on_application_shutdown tick_start tick_end delete_where find_first
on_application_shutdown-stops_iff {w} past = elim (started-IsAlive past) [
  | inl (h, timer, pending, rests) ↦ (
    (λ _. rw (timer, pending) (rw ((==_iff h h).1 refl) (refl, rests))),
    (λ runs. absurd (ground arith)),
  )
  | inr (pending, runs) ↦ (
    (λ rests. absurd (ground arith)),
    (λ _. elim (Option-cases w.timer) [
      | inl nothing ↦ (w.next, rw (nothing, pending) (ground arith), rw nothing refl)
      | inr (k, timer) ↦ (w.next, rw (timer, pending) (ground arith), rw timer refl)
    ]),
  )
]
