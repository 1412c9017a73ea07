-- ===== src/Chat/Stream/Flush.antt =====
-- The flush of a stream: `flushStream` of src/modules/chat/chat.service.ts.

use myride_api.Common.{
  append_nil, append_assoc, ℕ, ◌≡◌, refl, sym, ◌∙◌, ap, Bool, true, false, List, [], ◌∷◌, ◌++◌, map,
  take, drop, length, min, length-take, if◌then◌else◌, is_some, Result, Action, ◌>>◌, ok, err,
  find_first, All, Distinct, inl, inr, Bool-cases, or_else, none, some, delete_where, subst, ==_iff,
  ◌==◌, All-implies, arith,
}
use myride_api.Chat.{ChatMessage, text}
use myride_api.Chat.Stream.{
  Entry, Group, State, to_message, message_with_id, insert_or_ignore, insert_all, stale_ids,
  is_empty, logged, recover_pending_entries, flush_new, flush_stream, Pending, has_id,
}
use myride_api.Chat.Stream.Laws.{
  insert_all-Distinct, pending_entry, claimed-pending, insert_all-stored,
}

insert_or_ignore-extends :
    (x : ChatMessage) (rows : List ChatMessage)
    → (new : List ChatMessage) × (insert_or_ignore x rows ≡ rows ++ new)
unfolding insert_or_ignore
insert_or_ignore-extends x rows =
    elim (Bool-cases (is_some (find_first (message_with_id x.id) rows))) [
      | inl there ↦ ([], rw there (sym (append_nil rows)))
      | inr fresh ↦ (x ∷ [], rw fresh refl)
    ]

insert_all-extends :
    (es : List Entry) (rows : List ChatMessage)
    → (new : List ChatMessage) × (insert_all es rows ≡ rows ++ new)
unfolding insert_all
insert_all-extends [] rows = ([], sym (append_nil rows))
insert_all-extends (e ∷ es) rows =
    let (one, eq) = insert_or_ignore-extends (to_message e.message) rows in
    let (new, eqs) = insert_all-extends es (insert_or_ignore (to_message e.message) rows) in
    (one ++ new, eqs ∙ ap (λ xs. xs ++ new) eq ∙ append_assoc rows one new)

is_empty-[] : (es : List Entry) → is_empty es ≡ true → es ≡ []
is_empty-[] [] h = refl
is_empty-[] (e ∷ es) h = cc

then_ok :
    {S E B : Type 0} (m : Action S E (Unit {0})) (k : Action S E B) {s s' : S}
    → m s ≡ (ok tt, s')
    → (m >> k) s ≡ k s'
then_ok {S} {E} {B} m k e =
    ap
      (λ (r : Result E (Unit {0}) × S). elim r.0 as (λ _. Result E B × S) [
        | ok a ↦ k r.1
        | err x ↦ (err x, r.1)
      ])
      e

acked-none :
    (id : ℕ) (ids : List ℕ) (ps : List Pending)
    → has_id id ids ≡ true
    → find_first (pending_entry id) (delete_where (λ p. has_id p.entry.entry_id ids) ps) ≡ none
unfolding find_first delete_where
acked-none id ids [] listed = refl
acked-none id ids (p ∷ ps) listed = elim (Bool-cases (has_id p.entry.entry_id ids)) [
  | inl acked ↦ rw acked (acked-none id ids ps listed)
  | inr kept ↦ elim (Bool-cases (p.entry.entry_id == id)) [
    | inl same ↦ absurd (
        ground
          (arith, subst (λ k. has_id k ids ≡ false) ((==_iff p.entry.entry_id id).0 same) kept))
    | inr other ↦ rw kept (rw other (acked-none id ids ps listed))
  ]
]

own_ids :
    (es : List Entry)
    → All (λ (e : Entry). has_id e.entry_id (map (λ (x : Entry). x.entry_id) es) ≡ true) es
own_ids [] = tt
own_ids (e ∷ es) = (
  ground (arith, (==_iff e.entry_id e.entry_id).1 refl),
  All-implies (λ (x : Entry). has_id x.entry_id (map (λ (y : Entry). y.entry_id) es) ≡ true)
      (λ (x : Entry). has_id x.entry_id (map (λ (y : Entry). y.entry_id) (e ∷ es)) ≡ true) es
      (λ x h. ground (arith, h)) (own_ids es),
)

module _ (G : Group) where
  -- The state after the recovery of pending entries.
  abbrev pub recovered : (now worker batch_size : ℕ) → State G → G.Store
  recovered now worker batch_size s =
      let ids = stale_ids now (take batch_size (G.pending s.store)) in
      if is_empty ids then s.store else G.claim now worker ids s.store

  recover_pending_entries-eq :
      (now worker batch_size : ℕ) (s : State G)
      → recover_pending_entries G now worker batch_size s
        ≡ (ok tt, record s { store = recovered now worker batch_size s })
  unfolding recover_pending_entries
  recover_pending_entries-eq now worker batch_size s =
      elim (Bool-cases (is_empty (stale_ids now (take batch_size (G.pending s.store))))) [
        | inl nothing ↦ rw nothing refl
        | inr stale ↦ rw stale refl
      ]

  pub recovered-unread :
      (now worker batch_size : ℕ) (s : State G)
      → G.unread (recovered now worker batch_size s) ≡ G.unread s.store
  recovered-unread now worker batch_size s =
      elim (Bool-cases (is_empty (stale_ids now (take batch_size (G.pending s.store))))) [
        | inl nothing ↦ rw nothing refl
        | inr stale ↦ rw stale (G.unread-claim now worker _ s.store)
      ]

  pub recovered-pending :
      (now worker batch_size : ℕ) (s : State G) (id : ℕ)
      → is_some (find_first (pending_entry id) (G.pending (recovered now worker batch_size s)))
        ≡ is_some (find_first (pending_entry id) (G.pending s.store))
  recovered-pending now worker batch_size s id =
      elim (Bool-cases (is_empty (stale_ids now (take batch_size (G.pending s.store))))) [
        | inl nothing ↦ rw nothing refl
        | inr stale ↦
            rw
              (
                stale,
                G.pending-claim now worker (stale_ids now (take batch_size (G.pending s.store)))
                    s.store,
              )
              (claimed-pending id now worker _ (G.pending s.store))
      ]

  abbrev pub batch : (batch_size : ℕ) → State G → List Entry
  batch batch_size s = take batch_size (G.unread s.store)

  -- The stream after its new entries are read.
  abbrev pub after_read : (now worker batch_size : ℕ) → State G → G.Store
  after_read now worker batch_size s =
      G.read now worker batch_size (recovered now worker batch_size s)

  -- The logged depths after a flush.
  abbrev pub warned : (now worker batch_size : ℕ) → State G → List ℕ
  warned now worker batch_size s =
      if is_empty (batch batch_size s)
      then s.depth_errors
      else logged (length (G.entries (G.read now worker batch_size s.store))) s.depth_errors

  pub flush_stream-eq :
      (available : Bool) (now worker batch_size : ℕ) (s : State G)
      → flush_stream G available now worker batch_size s
        ≡ flush_new G available now worker batch_size
            (record s { store = recovered now worker batch_size s })
  unfolding flush_stream
  flush_stream-eq available now worker batch_size s =
      then_ok (recover_pending_entries G now worker batch_size)
        (flush_new G available now worker batch_size)
        (recover_pending_entries-eq now worker batch_size s)

  pub flush_new-available :
      (now worker batch_size : ℕ) (s : State G)
      → flush_new G true now worker batch_size s ≡ (
        ok (length (batch batch_size s)),
        record {
          store =
              if is_empty (batch batch_size s)
              then G.read now worker batch_size s.store
              else G.ack
                  (map (λ e. e.entry_id) (batch batch_size s))
                  (G.read now worker batch_size s.store);
          messages = insert_all (batch batch_size s) s.messages;
          depth_errors = warned now worker batch_size s;
        },
      )
  unfolding flush_new insert_all
  flush_new-available now worker batch_size s = elim (Bool-cases (is_empty (batch batch_size s))) [
    | inl nothing ↦ rw (is_empty-[] (batch batch_size s) nothing) refl
    | inr some_new ↦ rw some_new refl
  ]

  pub flush_new-unavailable :
      (now worker batch_size : ℕ) (s : State G)
      → (flush_new G false now worker batch_size s).1 ≡ record s {
        store = G.read now worker batch_size s.store;
        depth_errors = warned now worker batch_size s;
      }
  unfolding flush_new
  flush_new-unavailable now worker batch_size s =
      elim (Bool-cases (is_empty (batch batch_size s))) [
        | inl nothing ↦ rw nothing refl
        | inr some_new ↦ rw some_new refl
      ]

  pub acked-unread :
      (none_new : Bool) (ids : List ℕ) (st : G.Store)
      → G.unread (if none_new then st else G.ack ids st) ≡ G.unread st
  acked-unread true ids st = refl
  acked-unread false ids st = G.unread-ack ids st

  acked-gone :
      (es : List Entry) (st : G.Store)
      → All
          (λ e.
            find_first (pending_entry e.entry_id) (
              G.pending (if is_empty es then st else G.ack (map (λ (x : Entry). x.entry_id) es) st))
            ≡ none)
          es
  acked-gone [] st = tt
  acked-gone (e ∷ es) st =
      let ids = map (λ (x : Entry). x.entry_id) (e ∷ es) in
      All-implies (λ (x : Entry). has_id x.entry_id ids ≡ true)
        (λ (x : Entry). find_first (pending_entry x.entry_id) (G.pending (G.ack ids st)) ≡ none)
        (e ∷ es)
        (λ x listed.
          ap (find_first (pending_entry x.entry_id)) (G.pending-ack ids st)
          ∙ acked-none x.entry_id ids (G.pending st) listed)
        (own_ids (e ∷ es))

  -- A flush whose INSERT succeeds handles the oldest new entries, as many as a batch takes, and
  -- answers their number: they are neither new nor pending any more, under the id of each the
  -- table has the row that it had or else a new row with all that was queued, the messages stored
  -- before stay as they were, in front, and no id is stored twice. The ids of the batch's messages
  -- must be distinct, and so must those of the stored ones.
  pub flush_stream-saves :
      (now worker batch_size : ℕ) (s : State G)
      → Distinct (map (λ m. m.id) s.messages)
      → Distinct (map (λ (e : Entry). e.message.id) (take batch_size (G.unread s.store)))
      → let s' = (flush_stream G true now worker batch_size s).1 in
        ((flush_stream G true now worker batch_size s).0
          ≡ ok (min batch_size (length (G.unread s.store))))
        × (G.unread s'.store ≡ drop batch_size (G.unread s.store))
        × All
            (λ e. find_first (pending_entry e.entry_id) (G.pending s'.store) ≡ none)
            (take batch_size (G.unread s.store))
        × All
            (λ e.
              find_first (message_with_id e.message.id) s'.messages
              ≡ some (
                  or_else (find_first (message_with_id e.message.id) s.messages) (record {
                    id = e.message.id;
                    room_type = e.message.room_type;
                    room_id = e.message.room_id;
                    sender_id = some e.message.sender_id;
                    message_type = text;
                    content = e.message.content;
                    reply_to = e.message.reply_to;
                    is_pinned = false;
                    is_deleted = false;
                    created_at = e.message.created_at;
                    deleted_at = none;
                  })))
            (take batch_size (G.unread s.store))
        × ((new : List ChatMessage) × (s'.messages ≡ s.messages ++ new))
        × Distinct (map (λ m. m.id) s'.messages)
  flush_stream-saves now worker batch_size s distinct apart =
      let s1 : State G = record s { store = recovered now worker batch_size s } in
      let same = recovered-unread now worker batch_size s in
      rw
        (
          flush_stream-eq true now worker batch_size s,
          flush_new-available now worker batch_size s1,
          same,
        )
        (
          ap (λ n. ok n) (length-take batch_size (G.unread s.store)),
          acked-unread (is_empty (batch batch_size s)) _ (after_read now worker batch_size s)
              ∙ G.unread-read now worker batch_size _
              ∙ ap (drop batch_size) same,
          acked-gone (batch batch_size s) (after_read now worker batch_size s),
          insert_all-stored (batch batch_size s) s.messages apart,
          insert_all-extends (batch batch_size s) s.messages,
          insert_all-Distinct (batch batch_size s) s.messages distinct,
        )
