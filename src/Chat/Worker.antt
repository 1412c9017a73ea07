-- ===== src/Chat/Worker.antt =====
-- src/modules/chat/chat-flush.worker.ts: the timer that drains the rooms' streams, and one drain.
-- A timeout is known by its number, and `pending` lists those that have neither fired nor been
-- cleared. `drainAllStreams` runs the flushes at once; here they run in the order of the set.
pub mod Timer
pub mod Draining
use myride_api.Common.{
  ℕ, ◌+◌, ◌≡◌, Bool, true, false, ◌&&◌, Option, some, none, List, [], ◌∷◌, ◌++◌, ◌==◌,
  if◌then◌else◌, delete_where, Result, ok, err,
}
use myride_api.Chat.{RoomType, ChatMessage}
use myride_api.Chat.Access.{same_room_type}
use myride_api.Chat.Stream.{Group, State, flush_stream}
use myride_api.Chat.Stream
use myride_api.Chat.Gateway.{Room}

pub record Worker : Type 0 where
  -- The field `timer`.
  pub timer : Option ℕ
  pub running : Bool
  pub pending : List ℕ
  pub next : ℕ
  -- The calls of `drainAllStreams`.
  pub drains : ℕ

-- setTimeout
abbrev pub schedule_next : Worker → Worker
schedule_next w = record w {
  timer = some w.next;
  pending = w.pending ++ w.next ∷ [];
  next = w.next + 1;
}

abbrev pub clear : ℕ → Worker → Worker
clear h w = record w { pending = delete_where (λ k. k == h) w.pending }

abbrev pub idle : Worker
idle = record { timer = none; running = false; pending = []; next = 0; drains = 0 }

unfoldable pub on_application_bootstrap : Worker → Worker
on_application_bootstrap w = schedule_next w

unfoldable pub on_application_shutdown : Worker → Worker
unfolding delete_where
on_application_shutdown w = elim w.timer [ none ↦ w | some h ↦ record (clear h w) { timer = none } ]

-- `tick`, from the call of a timeout that fires to the drain, if it gets there.
unfoldable pub tick_start : ℕ → Worker → Worker
unfolding delete_where
tick_start h w =
    let fired = clear h w in
    if w.running
    then schedule_next fired
    else record fired { running = true; drains = w.drains + 1 }

-- The `finally` of `tick`, which runs whatever the drain throws.
unfoldable pub tick_end : Worker → Worker
tick_end w = schedule_next (record w { running = false })

abbrev pub batch_size : ℕ
batch_size = 50

module _ (G : Group) where
  pub record Rooms : Type 0 where
    pub streams : RoomType → ℕ → G.Store
    pub messages : List ChatMessage
    pub depth_errors : List ℕ
    -- The rooms whose flush failed, which is logged.
    pub failed : List Room

  abbrev pub room_state : Room → Rooms → State G
  room_state room r = record {
    store = r.streams room.room_type room.room_id;
    messages = r.messages;
    depth_errors = r.depth_errors;
  }

  abbrev pub put_stream : Room → G.Store → (RoomType → ℕ → G.Store) → RoomType → ℕ → G.Store
  put_stream room st streams t id =
      if same_room_type t room.room_type && id == room.room_id then st else streams t id

  abbrev pub log_failure : Room → Result Stream.Error ℕ → List Room → List Room
  log_failure room (ok n) failed = failed
  log_failure room (err e) failed = failed ++ room ∷ []

  -- `flushStream(key, workerId, 50).catch(log)`
  unfoldable pub flush_room : (available : Bool) → (now worker : ℕ) → Room → Rooms → Rooms
  flush_room available now worker room r =
      let (answer, after) = flush_stream G available now worker batch_size (room_state room r) in
      record {
        streams = put_stream room after.store r.streams;
        messages = after.messages;
        depth_errors = after.depth_errors;
        failed = log_failure room answer r.failed;
      }

  -- `available`: whether Postgres takes the INSERT of a room's flush.
  unfoldable pub drain_all_streams :
      (available : Room → Bool) (now worker : ℕ) (active : List Room) → Rooms → Rooms
  unfolding flush_room
  drain_all_streams available now worker [] r = r
  drain_all_streams available now worker (room ∷ rooms) r =
      drain_all_streams available now worker rooms (flush_room (available room) now worker room r)
