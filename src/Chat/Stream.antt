-- ===== src/Chat/Stream.antt =====
-- `flushStream` and `recoverPendingEntries` of src/modules/chat/chat.service.ts, which
-- src/modules/chat/chat-flush.worker.ts runs every 100 ms. What they rely on of a Redis stream and its
-- consumer group is the interface `Group`; times are in milliseconds.
pub mod Laws
pub mod Flush
pub mod Loss
pub mod Depth
use myride_api.Common.{
  ℕ, ◌+◌, ◌-◌, ◌≡◌, refl, String, Bool, true, false, not, ◌||◌, Option, some, none, List, [], ◌∷◌,
  ◌++◌, map, take, drop, length, ◌==◌, ltb, if◌then◌else◌, is_some, Action, find_first, find_all,
  delete_where, pure, gets, modify, throw, throw_if, ◌>>=◌, ◌>>◌,
}
use myride_api.Chat.{QueuedMessage, ChatMessage, text}

pub record Entry : Type 0 where
  pub entry_id : ℕ
  pub message : QueuedMessage

-- An entry that was handed to a worker and not acknowledged.
pub record Pending : Type 0 where
  pub entry : Entry
  pub worker : ℕ
  pub delivered_at : ℕ

abbrev pub hand_out : (now worker : ℕ) → Entry → Pending
hand_out now worker e = record { entry = e; worker = worker; delivered_at = now }

abbrev pub has_id : ℕ → List ℕ → Bool
has_id id [] = false
has_id id (j ∷ js) = j == id || has_id id js

-- XCLAIM of one entry: the worker becomes its owner.
abbrev pub claimed : (now worker : ℕ) → List ℕ → Pending → Pending
claimed now worker ids p = if has_id p.entry.entry_id ids then hand_out now worker p.entry else p

-- A stream with its consumer group, for one room.
pub record Group : Type 1 where
  pub Store : Type 0
  -- Every entry, oldest first; neither a read nor an acknowledgement removes one.
  pub entries : Store → List Entry
  -- The entries that no worker has got yet, in order.
  pub unread : Store → List Entry
  -- The pending entries list.
  pub pending : Store → List Pending
  pub add : Entry → Store → Store
  -- XREADGROUP … COUNT n STREAMS key '>'
  pub read : (now worker n : ℕ) → Store → Store
  pub claim : (now worker : ℕ) → List ℕ → Store → Store
  pub ack : List ℕ → Store → Store
  pub entries-add : (e : Entry) (st : Store) → entries (add e st) ≡ entries st ++ e ∷ []
  pub entries-read : (now worker n : ℕ) (st : Store) → entries (read now worker n st) ≡ entries st
  pub entries-claim :
      (now worker : ℕ) (ids : List ℕ) (st : Store) → entries (claim now worker ids st) ≡ entries st
  pub entries-ack : (ids : List ℕ) (st : Store) → entries (ack ids st) ≡ entries st
  pub unread-add : (e : Entry) (st : Store) → unread (add e st) ≡ unread st ++ e ∷ []
  pub pending-add : (e : Entry) (st : Store) → pending (add e st) ≡ pending st
  pub unread-read :
      (now worker n : ℕ) (st : Store) → unread (read now worker n st) ≡ drop n (unread st)
  pub pending-read :
      (now worker n : ℕ) (st : Store)
      → pending (read now worker n st)
        ≡ pending st ++ map (hand_out now worker) (take n (unread st))
  pub unread-claim :
      (now worker : ℕ) (ids : List ℕ) (st : Store) → unread (claim now worker ids st) ≡ unread st
  pub pending-claim :
      (now worker : ℕ) (ids : List ℕ) (st : Store)
      → pending (claim now worker ids st) ≡ map (claimed now worker ids) (pending st)
  pub unread-ack : (ids : List ℕ) (st : Store) → unread (ack ids st) ≡ unread st
  pub pending-ack :
      (ids : List ℕ) (st : Store)
      → pending (ack ids st) ≡ delete_where (λ p. has_id p.entry.entry_id ids) (pending st)

-- The interface can be met: by three lists, the new entries, the pending ones and all of them.
abbrev pub lists : Group
lists = record {
  Store = List Entry × (List Pending × List Entry);
  entries = λ st. st.1.1;
  unread = λ st. st.0;
  pending = λ st. st.1.0;
  add = λ e st. (st.0 ++ e ∷ [], (st.1.0, st.1.1 ++ e ∷ []));
  read =
      λ now worker n st. (drop n st.0, (st.1.0 ++ map (hand_out now worker) (take n st.0), st.1.1));
  claim = λ now worker ids st. (st.0, (map (claimed now worker ids) st.1.0, st.1.1));
  ack = λ ids st. (st.0, (delete_where (λ p. has_id p.entry.entry_id ids) st.1.0, st.1.1));
  entries-add = λ e st. refl;
  entries-read = λ now worker n st. refl;
  entries-claim = λ now worker ids st. refl;
  entries-ack = λ ids st. refl;
  unread-add = λ e st. refl;
  pending-add = λ e st. refl;
  unread-read = λ now worker n st. refl;
  pending-read = λ now worker n st. refl;
  unread-claim = λ now worker ids st. refl;
  pending-claim = λ now worker ids st. refl;
  unread-ack = λ ids st. refl;
  pending-ack = λ ids st. refl;
}

abbrev pub to_message : QueuedMessage → ChatMessage
to_message q = record {
  id = q.id;
  room_type = q.room_type;
  room_id = q.room_id;
  sender_id = some q.sender_id;
  message_type = text;
  content = q.content;
  reply_to = q.reply_to;
  is_pinned = false;
  is_deleted = false;
  created_at = q.created_at;
  deleted_at = none;
}

abbrev pub message_with_id : ℕ → ChatMessage → Bool
message_with_id id m = m.id == id

-- INSERT … ON CONFLICT DO NOTHING, on the primary key.
unfoldable pub insert_or_ignore : ChatMessage → List ChatMessage → List ChatMessage
insert_or_ignore m rows =
    if is_some (find_first (message_with_id m.id) rows) then rows else rows ++ m ∷ []

unfoldable pub insert_all : List Entry → List ChatMessage → List ChatMessage
insert_all [] rows = rows
insert_all (e ∷ es) rows = insert_all es (insert_or_ignore (to_message e.message) rows)

-- The exception of the INSERT while Postgres is away.
pub data Error : Type 0 where
  insert_failed : Error

abbrev pub stale_ms : ℕ
stale_ms = 5000

-- The ids of the reported pending entries that are idle for more than 5 seconds.
abbrev pub stale_ids : ℕ → List Pending → List ℕ
stale_ids now ps =
    map (λ p. p.entry.entry_id) (find_all (λ p. ltb stale_ms (now - p.delivered_at)) ps)

abbrev pub queue_depth_warn : ℕ
queue_depth_warn = 5000

abbrev pub logged : ℕ → List ℕ → List ℕ
logged depth errors = if ltb queue_depth_warn depth then errors ++ depth ∷ [] else errors

abbrev pub is_empty : {A : Type 0} → List A → Bool
is_empty [] = true
is_empty (_ ∷ _) = false

module _ (G : Group) where
  pub record State : Type 0 where
    pub store : G.Store
    pub messages : List ChatMessage
    -- The depths that were logged as errors.
    pub depth_errors : List ℕ

  abbrev pub Method : Type 0 → Type 0
  Method A = Action State Error A

  abbrev pub on_stream : (G.Store → G.Store) → Method (Unit {0})
  on_stream f = modify λ s. record s { store = f s.store }

  -- The end of `queueMessage`.
  unfoldable pub enqueue : Entry → Method (Unit {0})
  enqueue e = on_stream (G.add e)

  unfoldable pub recover_pending_entries : (now worker batch_size : ℕ) → Method (Unit {0})
  recover_pending_entries now worker batch_size = do
    ids ← gets λ s. stale_ids now (take batch_size (G.pending s.store))
    if is_empty ids then pure tt else on_stream (G.claim now worker ids)

  -- XLEN, and `logger.error` where it exceeds the threshold.
  abbrev pub warn_depth : Method (Unit {0})
  warn_depth =
      modify λ s. record s { depth_errors = logged (length (G.entries s.store)) s.depth_errors }

  -- The rest of `flushStream`, after the recovery. `available`: whether Postgres takes the INSERT.
  unfoldable pub flush_new : (available : Bool) → (now worker batch_size : ℕ) → Method ℕ
  flush_new available now worker batch_size = do
    entries ← gets λ (s : State). take batch_size (G.unread s.store)
    on_stream (G.read now worker batch_size)
    if is_empty entries then pure 0 else do
      warn_depth
      throw_if (not available) insert_failed
      modify λ s. record s { messages = insert_all entries s.messages }
      on_stream (G.ack (map (λ e. e.entry_id) entries))
      pure (length entries)

  unfoldable pub flush_stream : (available : Bool) → (now worker batch_size : ℕ) → Method ℕ
  flush_stream available now worker batch_size = do
    recover_pending_entries now worker batch_size
    flush_new available now worker batch_size
