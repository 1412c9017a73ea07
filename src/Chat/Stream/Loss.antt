-- ===== src/Chat/Stream/Loss.antt =====
-- What becomes of a message whose flush fails.

use myride_api.Common.{
  ℕ, suc, ◌≡◌, ◌≢◌, refl, ◌∙◌, ap, Bool, true, false, none, List, [], ◌∷◌, ◌++◌, map, take, drop,
  ◌==◌, if◌then◌else◌, is_some, find_first, All, All-take, All-drop, All-append, All-implies, inl,
  inr, arith, Bool-cases,
}
use myride_api.Chat.Stream.{
  Entry, Pending, Group, State, hand_out, message_with_id, is_empty, flush_stream, enqueue,
}
use myride_api.Chat.Stream.Laws.{insert_all-other, pending_entry, acked-pending, has_no_id}
use myride_api.Chat.Stream.Flush.{
  recovered, recovered-unread, recovered-pending, batch, after_read, flush_stream-eq,
  flush_new-available, flush_new-unavailable, acked-unread,
}

found_before :
    (id : ℕ) (ps qs : List Pending)
    → is_some (find_first (pending_entry id) ps) ≡ true
    → is_some (find_first (pending_entry id) (ps ++ qs)) ≡ true
unfolding find_first
found_before id [] qs h = cc
found_before id (p ∷ ps) qs h = elim (Bool-cases (p.entry.entry_id == id)) [
  | inl hit ↦ rw hit refl
  | inr miss ↦ rw miss (found_before id ps qs (rw miss at h))
]

handed-held :
    (now worker : ℕ) (e : Entry) (ps qs : List Pending)
    → is_some (find_first (pending_entry e.entry_id) (ps ++ hand_out now worker e ∷ qs)) ≡ true
unfolding find_first
handed-held now worker e [] qs = ground arith
handed-held now worker e (p ∷ ps) qs = ground (arith, handed-held now worker e ps qs)

module _ (G : Group) where
  -- The entry is pending, its message is not stored, and no new entry has the id of either.
  pub record IsStuck (entry_id message_id : ℕ) (s : State G) : Type 0 where
    pub held : is_some (find_first (pending_entry entry_id) (G.pending s.store)) ≡ true
    pub alone : All (λ e. (e.entry_id ≢ entry_id) × (e.message.id ≢ message_id)) (G.unread s.store)
    pub unsaved : find_first (message_with_id message_id) s.messages ≡ none

  acked-held :
      (none_new : Bool) (id : ℕ) (es : List Entry) (st : G.Store)
      → All (λ e. e.entry_id ≢ id) es
      → is_some (find_first (pending_entry id) (G.pending st)) ≡ true
      → is_some (
          find_first
            (pending_entry id)
            (G.pending (if none_new then st else G.ack (map (λ e. e.entry_id) es) st)))
        ≡ true
  acked-held true id es st others held = held
  acked-held false id es st others held =
      rw (G.pending-ack (map (λ e. e.entry_id) es) st)
        (acked-pending id _ (G.pending st) (has_no_id id es others) ∙ held)

  read-held :
      (now worker batch_size : ℕ) (s : State G) (id : ℕ)
      → is_some (find_first (pending_entry id) (G.pending s.store)) ≡ true
      → is_some (find_first (pending_entry id) (G.pending (after_read G now worker batch_size s)))
        ≡ true
  read-held now worker batch_size s id held =
      rw (G.pending-read now worker batch_size (recovered G now worker batch_size s))
        (found_before id _ _ (recovered-pending G now worker batch_size s id ∙ held))

  read-unread :
      (now worker batch_size : ℕ) (s : State G)
      → G.unread (after_read G now worker batch_size s) ≡ drop batch_size (G.unread s.store)
  read-unread now worker batch_size s =
      G.unread-read now worker batch_size _
      ∙ ap (drop batch_size) (recovered-unread G now worker batch_size s)

  flush_stream-IsStuck :
      (available : Bool) (now worker batch_size : ℕ) (entry_id message_id : ℕ) (s : State G)
      → IsStuck entry_id message_id s
      → IsStuck entry_id message_id (flush_stream G available now worker batch_size s).1
  flush_stream-IsStuck false now worker batch_size entry_id message_id s stuck =
      let s1 : State G = record s { store = recovered G now worker batch_size s } in
      rw
        (
          flush_stream-eq G false now worker batch_size s,
          flush_new-unavailable G now worker batch_size s1,
        )
        (record {
          held = read-held now worker batch_size s entry_id stuck.held;
          alone = rw (read-unread now worker batch_size s) (All-drop _ batch_size _ stuck.alone);
          unsaved = stuck.unsaved;
        })
  flush_stream-IsStuck true now worker batch_size entry_id message_id s stuck =
      let s1 : State G = record s { store = recovered G now worker batch_size s } in
      let others = All-take _ batch_size _ stuck.alone in
      rw
        (
          flush_stream-eq G true now worker batch_size s,
          flush_new-available G now worker batch_size s1,
          recovered-unread G now worker batch_size s,
        )
        (record {
          held =
              acked-held _ entry_id (batch G batch_size s) _
                (All-implies _ _ (batch G batch_size s) (λ e h. h.0) others)
                (read-held now worker batch_size s entry_id stuck.held);
          alone =
              rw
                (
                  acked-unread G (is_empty (batch G batch_size s))
                      (map (λ e. e.entry_id) (batch G batch_size s))
                      (after_read G now worker batch_size s),
                  read-unread now worker batch_size s,
                )
                (All-drop _ batch_size _ stuck.alone);
          unsaved =
              insert_all-other message_id (batch G batch_size s) s.messages
                (All-implies _ _ (batch G batch_size s) (λ e h. h.1) others) stuck.unsaved;
        })

  -- What happens to a room's stream: flushes, by any worker and with Postgres there or not, and
  -- new messages.
  pub data Event : Type 0 where
    flush : (available : Bool) (now worker batch_size : ℕ) → Event
    queue : Entry → Event

  abbrev pub IsOther : (entry_id message_id : ℕ) → Event → Type 0
  IsOther entry_id message_id (flush available now worker batch_size) = Unit
  IsOther entry_id message_id (queue e) = (e.entry_id ≢ entry_id) × (e.message.id ≢ message_id)

  unfoldable pub run : List Event → State G → State G
  run [] s = s
  run (flush available now worker batch_size ∷ es) s =
      run es (flush_stream G available now worker batch_size s).1
  run (queue e ∷ es) s = run es (enqueue G e s).1

  enqueue-IsStuck :
      (e : Entry) (entry_id message_id : ℕ) (s : State G)
      → (e.entry_id ≢ entry_id) × (e.message.id ≢ message_id)
      → IsStuck entry_id message_id s
      → IsStuck entry_id message_id (enqueue G e s).1
  unfolding enqueue
  enqueue-IsStuck e entry_id message_id s other stuck = record {
    held = rw (G.pending-add e s.store) stuck.held;
    alone = rw (G.unread-add e s.store) (All-append _ _ _ stuck.alone (other, tt));
    unsaved = stuck.unsaved;
  }

  run-IsStuck :
      (es : List Event) (entry_id message_id : ℕ) (s : State G)
      → All (IsOther entry_id message_id) es
      → IsStuck entry_id message_id s
      → IsStuck entry_id message_id (run es s)
  unfolding run
  run-IsStuck [] entry_id message_id s others stuck = stuck
  run-IsStuck (flush available now worker batch_size ∷ es) entry_id message_id s (_, others) stuck =
      run-IsStuck es entry_id message_id _ others
        (flush_stream-IsStuck available now worker batch_size entry_id message_id s stuck)
  run-IsStuck (queue e ∷ es) entry_id message_id s (other, others) stuck =
      run-IsStuck es entry_id message_id _ others
        (enqueue-IsStuck e entry_id message_id s other stuck)

  failed-IsStuck :
      (now worker batch_size : ℕ) (s : State G) (e : Entry) (rest : List Entry)
      → G.unread s.store ≡ e ∷ rest
      → All (λ x. (x.entry_id ≢ e.entry_id) × (x.message.id ≢ e.message.id)) rest
      → find_first (message_with_id e.message.id) s.messages ≡ none
      → IsStuck e.entry_id e.message.id (flush_stream G false now worker (suc batch_size) s).1
  failed-IsStuck now worker batch_size s e rest new others unsaved =
      let s1 : State G = record s { store = recovered G now worker (suc batch_size) s } in
      rw
        (
          flush_stream-eq G false now worker (suc batch_size) s,
          flush_new-unavailable G now worker (suc batch_size) s1,
        )
        (record {
          held =
              rw
                (
                  G.pending-read now worker (suc batch_size) s1.store,
                  recovered-unread G now worker (suc batch_size) s ∙ new,
                )
                (handed-held now worker e (G.pending s1.store)
                  (map (hand_out now worker) (take batch_size rest)));
          alone =
              rw (read-unread now worker (suc batch_size) s, new)
                (All-drop _ batch_size rest others);
          unsaved = unsaved;
        })

  -- A message whose flush fails is never stored: after a flush of a batch G that begins with it and
  -- whose INSERT fails, its entry stays pending and its message stays out of the table, through
  -- whatever flushes and other messages follow.
  pub flush_stream-loses :
      (now worker batch_size : ℕ) (s : State G) (e : Entry) (rest : List Entry)
      (events : List Event)
      → G.unread s.store ≡ e ∷ rest
      → All (λ x. (x.entry_id ≢ e.entry_id) × (x.message.id ≢ e.message.id)) rest
      → find_first (message_with_id e.message.id) s.messages ≡ none
      → All (IsOther e.entry_id e.message.id) events
      → let s' = run events (flush_stream G false now worker (suc batch_size) s).1 in
        (find_first (message_with_id e.message.id) s'.messages ≡ none)
        × (is_some (find_first (pending_entry e.entry_id) (G.pending s'.store)) ≡ true)
  flush_stream-loses now worker batch_size s e rest events new others unsaved later =
      let stuck =
        run-IsStuck events e.entry_id e.message.id _ later
          (failed-IsStuck now worker batch_size s e rest new others unsaved) in
      (stuck.unsaved, stuck.held)
