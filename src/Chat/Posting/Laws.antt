-- ===== src/Chat/Posting/Laws.antt =====
-- What becomes of a message that `queueMessage` of src/modules/chat/chat.service.ts has answered.

use myride_api.Common.{
  append_assoc, append_nil, length-snoc, All-append, ℕ, zero, suc, ◌<◌, ◌≡◌, refl, ap, sym, ◌∙◌,
  String, true, false, some, none, List, [], ◌∷◌, ◌++◌, take, reverse, length, ==_iff, find_first,
  find_first-append, All, arith, ok,
}
use myride_api.Auth.{User}
use myride_api.Chat.{ChatMessage}
use myride_api.Chat.Stream.{
  Entry, Group, State, to_message, message_with_id, insert_or_ignore, insert_all, enqueue,
  flush_stream,
}
use myride_api.Chat.Stream.Flush.{recovered, recovered-unread, flush_stream-eq, flush_new-available}
use myride_api.Chat.Reactions.{group_onto}
use myride_api.Chat.History.{format_message}
use myride_api.Chat.Posting.{
  SendMessageDto, Author, queued_with_id, queued_snapshot, queued_message, formatted,
  newest_entries, snapshot_of, reply_snapshot, resolve_reply_snapshot, queue_message,
}

reverse-append : (xs ys : List Entry) → reverse (xs ++ ys) ≡ reverse ys ++ reverse xs
reverse-append [] ys = sym (append_nil (reverse ys))
reverse-append (x ∷ xs) ys =
    ap (λ zs. zs ++ x ∷ []) (reverse-append xs ys) ∙ append_assoc (reverse ys) (reverse xs) (x ∷ [])

abbrev pub IsOther : ℕ → Entry → Type 0
IsOther id e = queued_with_id id e ≡ false

-- Of the entries up to a bound, one that has an id is found behind others that do not.
find_first-take :
    (id n : ℕ) (later : List Entry) (e : Entry) (old : List Entry)
    → length later < n
    → All (IsOther id) later
    → e.message.id ≡ id
    → find_first (queued_with_id id) (take n (later ++ e ∷ old)) ≡ some e
unfolding find_first
find_first-take id zero later e old h o same = absurd (omega arith)
find_first-take id (suc n) [] e old h o same = rw ((==_iff e.message.id id).1 same) refl
find_first-take id (suc n) (x ∷ later) e old h (p, o) same =
    rw p (find_first-take id n later e old (omega arith) o same)

All-reverse : (P : Entry → Type 0) (xs : List Entry) → All P xs → All P (reverse xs)
All-reverse P [] h = tt
All-reverse P (x ∷ xs) (p, h) = All-append P (reverse xs) (x ∷ []) (All-reverse P xs h) (p, tt)

length-reverse : (xs : List Entry) → length (reverse xs) ≡ length xs
length-reverse [] = refl
length-reverse (x ∷ xs) = length-snoc (reverse xs) x ∙ ap (λ n. suc n) (length-reverse xs)

module _ (G : Group) where
  -- A reply to a message that is in the room's stream, with fewer than 200 entries after it, quotes
  -- it, whether it is stored yet or not, if no later entry has the id of its message.
  pub resolve_reply_snapshot-recent :
      (users : List User) (s : State G) (old : List Entry) (e : Entry) (later : List Entry)
      → G.entries s.store ≡ old ++ e ∷ later
      → length later < 200
      → All (IsOther e.message.id) later
      → resolve_reply_snapshot G users e.message.id s ≡ some (queued_snapshot e.message)
  unfolding resolve_reply_snapshot
  resolve_reply_snapshot-recent users s old e later split few others =
      let turned : reverse (G.entries s.store) ≡ reverse later ++ e ∷ reverse old =
        ap (λ xs. reverse xs) split
        ∙ reverse-append old (e ∷ later)
        ∙ append_assoc (reverse later) (e ∷ []) (reverse old) in
      let found : find_first (queued_with_id e.message.id) (newest_entries (G.entries s.store))
          ≡ some e =
        ap (λ xs. find_first (queued_with_id e.message.id) (take 200 xs)) turned
        ∙ find_first-take e.message.id 200 (reverse later) e (reverse old)
            (omega (arith, length-reverse later)) (All-reverse (IsOther e.message.id) later others)
            refl in
      ap (λ o. snapshot_of users o (find_first (message_with_id e.message.id) s.messages)) found

  -- The entry that a call puts on the stream.
  abbrev pub new_entry :
      (escape : String → String) (now new_id entry_id : ℕ)
      → List User
      → Author
      → SendMessageDto
      → State G
      → Entry
  new_entry escape now new_id entry_id users author dto s = record {
    entry_id = entry_id;
    message =
        queued_message escape now new_id author dto (reply_snapshot G users dto.reply_to_id s);
  }

  queue_message-eq :
      (escape : String → String) (now new_id entry_id : ℕ) (users : List User) (author : Author)
      (dto : SendMessageDto) (s : State G)
      → let e = new_entry escape now new_id entry_id users author dto s in
        queue_message G escape now new_id entry_id users author dto s
        ≡ (ok (formatted author e.message), record s { store = G.add e s.store })
  unfolding queue_message enqueue
  queue_message-eq escape now new_id entry_id users author dto s = refl

  take_single : (n : ℕ) (e : Entry) → take (suc n) (e ∷ []) ≡ e ∷ []
  take_single zero e = refl
  take_single (suc n) e = refl

  single_stored :
      (e : Entry) (rows : List ChatMessage)
      → find_first (message_with_id e.message.id) rows ≡ none
      → insert_all (e ∷ []) rows ≡ rows ++ to_message e.message ∷ []
  unfolding insert_all insert_or_ignore
  single_stored e rows new = rw new refl

  -- What the room is shown at once is what the history shows after the next flush: where every
  -- earlier message has been read, the id is new and Postgres is there, a flush stores the message,
  -- and formatted for the author's row, which has the name and the picture the call was given, and
  -- without reactions, it is the answer of the call.
  pub queue_message-flush_stream :
      (escape : String → String) (now new_id entry_id : ℕ) (users : List User) (author : Author)
      (dto : SendMessageDto) (later worker batch_size : ℕ) (s : State G) (u : User)
      → G.unread s.store ≡ []
      → find_first (message_with_id new_id) s.messages ≡ none
      → (u.id ≡ author.id)
        × (u.name ≡ author.name)
        × (u.profile_photo_url ≡ author.profile_photo_url)
      → let (answer, queued) = queue_message G escape now new_id entry_id users author dto s in
        let flushed = (flush_stream G true later worker (suc batch_size) queued).1 in
        (m : ChatMessage) × (find_first (message_with_id new_id) flushed.messages ≡ some m)
        × (m.sender_id ≡ some author.id)
        × (answer ≡ ok (format_message m (some u) []))
  unfolding find_first queue_message flush_stream enqueue group_onto
  queue_message-flush_stream escape now new_id entry_id users author dto later worker batch_size s u
        read new (same_id, same_name, same_photo) =
      let e = new_entry escape now new_id entry_id users author dto s in
      let queued : State G = record s { store = G.add e s.store } in
      let s1 : State G = record queued {
        store = recovered G later worker (suc batch_size) queued;
      } in
      let unread : G.unread s1.store ≡ e ∷ [] =
        recovered-unread G later worker (suc batch_size) queued
        ∙ G.unread-add e s.store
        ∙ ap (λ xs. xs ++ e ∷ []) read in
      let stored : (flush_stream G true later worker (suc batch_size) queued).1.messages
          ≡ s.messages ++ to_message e.message ∷ [] =
        ap (λ r. r.1.messages)
          (flush_stream-eq G true later worker (suc batch_size) queued
            ∙ flush_new-available G later worker (suc batch_size) s1)
        ∙ ap (λ es. insert_all (take (suc batch_size) es) s.messages) unread
        ∙ ap (λ es. insert_all es s.messages) (take_single batch_size e)
        ∙ single_stored e s.messages new in
      (
        to_message e.message,
        ap (find_first (message_with_id new_id)) stored
            ∙ find_first-append (message_with_id new_id) s.messages (to_message e.message)
            ∙ rw new (rw ((==_iff new_id new_id).1 refl) refl),
        refl,
        rw (same_id, same_name, same_photo) refl,
      )
