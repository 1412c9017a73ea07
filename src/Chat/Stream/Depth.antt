-- ===== src/Chat/Stream/Depth.antt =====
-- The length of a stream, and the error that `flushStream` of src/modules/chat/chat.service.ts logs
-- where it is above QUEUE_DEPTH_WARN.
use myride_api.Common.{
  length-snoc, ℕ, suc, ◌+◌, ◌≡◌, refl, ◌∙◌, ap, ltb, Bool, true, false, List, [], ◌∷◌, ◌++◌, length,
  arith, take, Bool-cases, inl, inr, if◌then◌else◌,
}
use myride_api.Chat.Stream.{Entry, Group, State, is_empty, logged, flush_stream, enqueue, stale_ids}
use myride_api.Chat.Stream.Flush.{
  recovered, recovered-unread, batch, warned, flush_stream-eq, flush_new-available,
  flush_new-unavailable,
}
use myride_api.Chat.Stream.Loss.{Event, flush, queue, run}

module _ (G : Group) where
  recovered-entries :
      (now worker batch_size : ℕ) (s : State G)
      → G.entries (recovered G now worker batch_size s) ≡ G.entries s.store
  recovered-entries now worker batch_size s =
      elim (Bool-cases (is_empty (stale_ids now (take batch_size (G.pending s.store))))) [
        | inl nothing ↦ rw nothing refl
        | inr stale ↦ rw stale (G.entries-claim now worker _ s.store)
      ]

  acked-entries :
      (none_new : Bool) (ids : List ℕ) (st : G.Store)
      → G.entries (if none_new then st else G.ack ids st) ≡ G.entries st
  acked-entries true ids st = refl
  acked-entries false ids st = G.entries-ack ids st

  -- A flush, whether its INSERT succeeds or not, removes no entry from the stream.
  flush_stream-entries :
      (available : Bool) (now worker batch_size : ℕ) (s : State G)
      → G.entries (flush_stream G available now worker batch_size s).1.store ≡ G.entries s.store
  flush_stream-entries true now worker batch_size s =
      let s1 : State G = record s { store = recovered G now worker batch_size s } in
      rw
        (
          flush_stream-eq G true now worker batch_size s,
          flush_new-available G now worker batch_size s1,
        )
        (acked-entries (is_empty (batch G batch_size s1)) _ (G.read now worker batch_size s1.store)
          ∙ G.entries-read now worker batch_size s1.store
          ∙ recovered-entries now worker batch_size s)
  flush_stream-entries false now worker batch_size s =
      let s1 : State G = record s { store = recovered G now worker batch_size s } in
      rw
        (
          flush_stream-eq G false now worker batch_size s,
          flush_new-unavailable G now worker batch_size s1,
        )
        (G.entries-read now worker batch_size s1.store ∙ recovered-entries now worker batch_size s)

  abbrev pub queued : List (Event G) → ℕ
  queued [] = 0
  queued (flush _ _ _ _ ∷ es) = queued es
  queued (queue _ ∷ es) = suc (queued es)

  enqueue-length :
      (e : Entry) (s : State G)
      → length (G.entries (enqueue G e s).1.store) ≡ suc (length (G.entries s.store))
  unfolding enqueue
  enqueue-length e s = ap length (G.entries-add e s.store) ∙ length-snoc (G.entries s.store) e

  run-entries :
      (es : List (Event G)) (s : State G)
      → length (G.entries (run G es s).store) ≡ length (G.entries s.store) + queued es
  unfolding run
  run-entries [] s = omega arith
  run-entries (flush available now worker batch_size ∷ es) s = omega (
    arith,
    run-entries es (flush_stream G available now worker batch_size s).1,
    ap length (flush_stream-entries available now worker batch_size s),
  )
  run-entries (queue e ∷ es) s = omega (arith, run-entries es (enqueue G e s).1, enqueue-length e s)

  warned-depth :
      (now worker batch_size : ℕ) (s : State G) (e : Entry) (rest : List Entry)
      → G.unread s.store ≡ e ∷ rest
      → warned G now worker
          (suc batch_size)
          (record s { store = recovered G now worker (suc batch_size) s })
        ≡ logged (length (G.entries s.store)) s.depth_errors
  warned-depth now worker batch_size s e rest new =
      rw
        (
          recovered-unread G now worker (suc batch_size) s ∙ new,
          G.entries-read now worker (suc batch_size) (recovered G now worker (suc batch_size) s),
          recovered-entries now worker (suc batch_size) s,
        )
        refl

  flush_stream-warned :
      (available : Bool) (now worker batch_size : ℕ) (s : State G)
      → (flush_stream G available now worker batch_size s).1.depth_errors
        ≡ warned G now worker batch_size (record s { store = recovered G now worker batch_size s })
  flush_stream-warned true now worker batch_size s =
      let s1 : State G = record s { store = recovered G now worker batch_size s } in
      rw
        (
          flush_stream-eq G true now worker batch_size s,
          flush_new-available G now worker batch_size s1,
        )
        refl
  flush_stream-warned false now worker batch_size s =
      let s1 : State G = record s { store = recovered G now worker batch_size s } in
      rw
        (
          flush_stream-eq G false now worker batch_size s,
          flush_new-unavailable G now worker batch_size s1,
        )
        refl

  -- The depth that a flush of a stream with new entries tests against 5000 is the number of all
  -- messages that were ever queued, those of the start and of the events before it, however many of
  -- them were stored and acknowledged.
  pub run-depth_errors :
      (es : List (Event G)) (available : Bool) (now worker batch_size : ℕ) (s : State G) (e : Entry)
      (rest : List Entry)
      → G.unread (run G es s).store ≡ e ∷ rest
      → (flush_stream G available now worker (suc batch_size) (run G es s)).1.depth_errors ≡ (
          if ltb 5000 (length (G.entries s.store) + queued es)
          then (run G es s).depth_errors ++ (length (G.entries s.store) + queued es) ∷ []
          else (run G es s).depth_errors)
  run-depth_errors es available now worker batch_size s e rest new =
      flush_stream-warned available now worker (suc batch_size) (run G es s)
      ∙ warned-depth now worker batch_size (run G es s) e rest new
      ∙ ap (λ n. logged n (run G es s).depth_errors) (run-entries es s)
