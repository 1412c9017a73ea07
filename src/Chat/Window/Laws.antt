-- ===== src/Chat/Window/Laws.antt =====
-- The reactions that `checkRateLimit` of src/modules/chat/chat.service.ts lets through in a minute.
use myride_api.Common.{
  append_nil, append_assoc, ℕ, ◌+◌, ◌-◌, ◌*◌, ◌≤◌, ◌≡◌, ap, ◌∙◌, sym, ◌<◌, List, [], ◌∷◌, ◌++◌,
  length, ltb, leb, delete_where, count_where, count_where-append, All, All-append, All-implies,
  Bool-cases, inl, inr, arith,
}
use myride_api.Chat.Window.{
  SortedSets, rl_react_max, rl_window_ms, live, scores_of, expiring_at, pruned, count_of, recorded,
  check_rate_limit, granted,
}
use myride_api.Chat.Window.Scores.{
  in_window, ComeAfter, is_kept, count_where-length, count_kept-delete, count_over, count_later,
  scores_pruned, scores_recorded, live_twice, count_live,
}

module _ (Z : SortedSets ℕ) (user_id : ℕ) where
  -- The scores that are there to be seen.
  abbrev seen : (now : ℕ) → Z.Store → List ℕ
  seen now st = scores_of (live now (Z.view st user_id))

  -- `times` are the calls that were let through, all before `now`: the set still has each that matters.
  record Covers (times : List ℕ) (now : ℕ) (st : Z.Store) : Type 0 where
    epoch : rl_window_ms ≤ now
    older : All (λ t. t ≤ now) times
    kept :
        (later : ℕ)
        → now ≤ later
        → count_where (in_window later) times ≤ count_where (is_kept later) (seen later st)
    few : (later : ℕ) → count_where (in_window later) times ≤ rl_react_max

  older_later :
      (now later : ℕ) (times : List ℕ)
      → now ≤ later
      → All (λ t. t ≤ now) times
      → All (λ t. t ≤ later) times
  older_later now later times h a =
      All-implies (λ t. t ≤ now) (λ t. t ≤ later) times (λ t p. omega arith) a

  seen-pruned :
      (now later : ℕ) (st : Z.Store)
      → now ≤ later
      → seen later (pruned Z user_id now st)
        ≡ delete_where (λ s. leb s (now - rl_window_ms)) (seen later st)
  seen-pruned now later st h =
      ap (λ z. scores_of (live later z)) (Z.view-z_rem_self now user_id (now - rl_window_ms) st)
      ∙ scores_pruned now later (now - rl_window_ms) (Z.view st user_id) h

  kept-pruned :
      (now later : ℕ) (st : Z.Store)
      → now ≤ later
      → count_where (is_kept later) (seen later (pruned Z user_id now st))
        ≡ count_where (is_kept later) (seen later st)
  kept-pruned now later st h =
      ap (count_where (is_kept later)) (seen-pruned now later st h)
      ∙ count_kept-delete (now - rl_window_ms) later (seen later st) (omega arith)

  count_of-pruned :
      (now : ℕ) (st : Z.Store)
      → count_of Z user_id (pruned Z user_id now st) ≡ length (seen now (pruned Z user_id now st))
  count_of-pruned now st =
      let at = Z.view-z_rem_self now user_id (now - rl_window_ms) st in
      ap (λ z. length (scores_of z)) at
      ∙ sym
          (ap (λ z. length (scores_of z)) (live_twice now (now - rl_window_ms) (Z.view st user_id)))
      ∙ sym (ap (λ z. length (scores_of (live now z))) at)

  Covers-pruned :
      (times : List ℕ) (n now : ℕ) (st : Z.Store)
      → n ≤ now
      → Covers times n st
      → Covers times now (pruned Z user_id now st)
  Covers-pruned times n now st h c = record {
    epoch = omega (arith, c.epoch);
    older = older_later n now times h c.older;
    kept = λ later k. omega (arith, kept-pruned now later st k, c.kept later (omega arith));
    few = c.few;
  }

  seen-recorded :
      (now later : ℕ) (st : Z.Store)
      → later < now + 70 * 1000
      → seen later (recorded Z user_id now st) ≡ seen now st ++ now ∷ []
  seen-recorded now later st h =
      ap (λ z. scores_of (live later z))
        (Z.view-expire_self now user_id (now + 70 * 1000) (Z.z_add now user_id now st)
          ∙ ap (λ z. expiring_at (now + 70 * 1000) (live now z))
              (Z.view-z_add_self now user_id now st))
      ∙ scores_recorded now later (now + 70 * 1000) now (Z.view st user_id) h (omega arith)

  kept-recorded :
      (times : List ℕ) (now later : ℕ) (st : Z.Store)
      → Covers times now st
      → now ≤ later
      → count_where (in_window later) (times ++ now ∷ [])
        ≤ count_where (is_kept later) (seen later (recorded Z user_id now st))
  kept-recorded times now later st c h = elim (Bool-cases (ltb later (now + 70 * 1000))) [
    | inl early ↦
        let shown = ap (count_where (is_kept later)) (seen-recorded now later st (ground arith)) in
        ground (
          arith,
          shown,
          count_where-append (in_window later) times now,
          count_where-append (is_kept later) (seen now st) now,
          c.kept later h,
          c.epoch,
          count_live (is_kept later) now later (Z.view st user_id) h,
        )
    | inr late ↦
        let none_left =
          count_over later now (times ++ now ∷ []) (ground arith)
            (All-append (λ t. t ≤ now) times (now ∷ []) c.older (omega arith, tt)) in
        omega (arith, none_left)
  ]

  few-recorded :
      (times : List ℕ) (now later : ℕ) (st : Z.Store)
      → Covers times now st
      → length (seen now st) < rl_react_max
      → count_where (in_window later) (times ++ now ∷ []) ≤ rl_react_max
  few-recorded times now later st c room = elim (Bool-cases (leb now later)) [
    | inl after ↦ ground (
      arith,
      count_where-append (in_window later) times now,
      count_later now later times (ground arith) c.older,
      c.kept now (omega arith),
      count_where-length (is_kept now) (seen now st),
    )
    | inr before ↦ ground (arith, count_where-append (in_window later) times now, c.few later)
  ]

  Covers-recorded :
      (times : List ℕ) (now : ℕ) (st : Z.Store)
      → Covers times now st
      → length (seen now st) < rl_react_max
      → Covers (times ++ now ∷ []) now (recorded Z user_id now st)
  Covers-recorded times now st c room = record {
    epoch = c.epoch;
    older = All-append (λ t. t ≤ now) times (now ∷ []) c.older (omega arith, tt);
    kept = λ later h. kept-recorded times now later st c h;
    few = λ later. few-recorded times now later st c room;
  }

  few-granted :
      (times : List ℕ) (n : ℕ) (ts : List ℕ) (st : Z.Store)
      → Covers times n st
      → ComeAfter n ts
      → (later : ℕ)
      → count_where (in_window later) (times ++ granted Z user_id ts st) ≤ rl_react_max
  unfolding granted check_rate_limit
  few-granted times n [] st c h later = rw (append_nil times) (c.few later)
  few-granted times n (t ∷ ts) st c (after, rest) later =
      let before = pruned Z user_id t st in
      let ready = Covers-pruned times n t st after c in
      let size = count_of-pruned t st in
      elim (Bool-cases (leb rl_react_max (count_of Z user_id before))) [
        | inl full ↦ rw full (few-granted times t ts before ready rest later)
        | inr room ↦
            let recorded_too = Covers-recorded times t before ready (ground (arith, size)) in
            let all =
              few-granted (times ++ t ∷ []) t ts (recorded Z user_id t before) recorded_too rest
                later in
            let moved =
              append_assoc times (t ∷ []) (granted Z user_id ts (recorded Z user_id t before)) in
            rw room (rw moved at all)
      ]

  -- Of any sequence of a user's reactions whose times do not decrease, whatever is recorded before,
  -- at most 60 pass in any minute, `later` being its end; the clock reads at least a minute.
  pub granted-check_rate_limit :
      (n : ℕ) (ts : List ℕ) (st : Z.Store)
      → rl_window_ms ≤ n
      → ComeAfter n ts
      → (later : ℕ) → count_where (in_window later) (granted Z user_id ts st) ≤ 60
  unfolding count_where
  granted-check_rate_limit n ts st epoch order later =
      few-granted [] n ts st
        (record { epoch = epoch; older = tt; kept = λ l h. omega arith; few = λ l. omega arith })
        order later
