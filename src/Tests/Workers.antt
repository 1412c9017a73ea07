-- ===== src/Tests/Workers.antt =====
-- The flush worker in the middle of a drain, two rooms' streams, and a stream that is read once.
use myride_api.Common.{
  ℕ, ◌+◌, ◌≡◌, ◌⊎◌, refl, true, false, List, [], ◌∷◌, ◌++◌, drop, length, ltb, find_first, find_all,
  if◌then◌else◌,
}
use myride_api.Chat.{RoomType}
use myride_api.Chat.Stream.{lists, flush_stream, enqueue, recover_pending_entries, flush_new}
use myride_api.Chat.Stream.Loss.{Event, flush, queue, run}
use myride_api.Chat.Stream.Depth.{queued, run-depth_errors}
use myride_api.Chat.Gateway.{Room, has_room}
use myride_api.Chat.Worker.{
  Worker, idle, on_application_bootstrap, on_application_shutdown, tick_start, tick_end, Rooms,
  drain_all_streams,
}
use myride_api.Chat.Worker.Timer.{
  ◌⟶*◌, here, more, fires, is_pending, tick_start-always, on_application_shutdown-stops_iff,
}
use myride_api.Chat.Worker.Draining.{drain_all_streams-active}
use myride_api.Tests.Rooms.{entry, stream}

abbrev draining : Worker
draining = tick_start 0 (on_application_bootstrap idle)

first_fires : is_pending 0 (on_application_bootstrap idle) ≡ true
unfolding on_application_bootstrap find_first
first_fires = refl

abbrev past : on_application_bootstrap idle ⟶* draining
past = more here (fires 0 first_fires)

tick_start-always_example :
    ((draining.running ≡ true)
      × ((h : ℕ) × (is_pending h (tick_end draining) ≡ true)
          × ((tick_start h (tick_end draining)).drains ≡ draining.drains + 1)))
    ⊎ ((draining.running ≡ false)
        × ((h : ℕ) × (is_pending h draining ≡ true)
            × ((tick_start h draining).drains ≡ draining.drains + 1)))
tick_start-always_example = tick_start-always past

on_application_shutdown-stops_iff_example :
    let v = on_application_shutdown draining in
    ((draining.running ≡ false) → (v.pending ≡ []) × (v.running ≡ false))
    × ((draining.running ≡ true)
        → (h : ℕ) × (is_pending h (tick_end v) ≡ true)
          × ((tick_start h (tick_end v)).drains ≡ draining.drains + 1))
on_application_shutdown-stops_iff_example = on_application_shutdown-stops_iff past

abbrev trip_one : Room
trip_one = record { room_type = RoomType.trip; room_id = 1 }

abbrev trip_two : Room
trip_two = record { room_type = RoomType.trip; room_id = 2 }

abbrev rooms : Rooms lists
rooms = record { streams = λ t id. stream.store; messages = []; depth_errors = []; failed = [] }

drain_all_streams-active_example :
    let r' = drain_all_streams lists (λ r. true) 0 1 (trip_one ∷ trip_two ∷ []) rooms in
    (has_room trip_one (trip_one ∷ trip_two ∷ []) ≡ true
      → lists.unread (r'.streams RoomType.trip 1)
        ≡ drop 50 (lists.unread (rooms.streams RoomType.trip 1)))
    × (has_room trip_one (trip_one ∷ trip_two ∷ []) ≡ false
        → r'.streams RoomType.trip 1 ≡ rooms.streams RoomType.trip 1)
drain_all_streams-active_example =
    drain_all_streams-active lists (λ r. true) 0 1 (trip_one ∷ trip_two ∷ []) rooms trip_one
      (refl, (refl, tt))

abbrev events : List (Event lists)
events = flush true 0 1 50 ∷ queue (entry 3) ∷ []

one_new : lists.unread (run lists events stream).store ≡ entry 3 ∷ []
unfolding run flush_stream enqueue recover_pending_entries find_all flush_new
one_new = refl

run-depth_errors_example :
    (flush_stream lists true 5 1 50 (run lists events stream)).1.depth_errors ≡ (
      if ltb 5000 (length (lists.entries stream.store) + queued lists events)
      then (run lists events stream).depth_errors
        ++ (length (lists.entries stream.store) + queued lists events) ∷ []
      else (run lists events stream).depth_errors)
run-depth_errors_example = run-depth_errors lists events true 5 1 49 stream (entry 3) [] one_new
