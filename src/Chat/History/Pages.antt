-- ===== src/Chat/History/Pages.antt =====
-- The pages of `getHistory` in src/modules/chat/chat.service.ts, and the history that they show.
use myride_api.Common.{
  All-of_find_all, All-found, ℕ, ◌≡◌, ◌≢◌, refl, ap, subst, sym, ◌∙◌, Bool, ◌&&◌, Option, some,
  none, List, [], ◌∷◌, ◌++◌, map, inl, inr, Bool-cases, take, min, or_else, find_first, find_all,
  sort_by, insert_by, All, All-map, All-of-map, Distinct, IsSorted, All-insert_by, All-sort_by,
  sort_by-IsSorted,
}
use myride_api.Chat.{RoomType, ChatMessage}
use myride_api.Chat.Stream.{message_with_id}
use myride_api.Chat.History.{newest_first, precedes, in_room, page, after_cursor, max_page}
use myride_api.Chat.History.Laws.{
  find_all-and, find_all-sort_by, newest_first_trans, newest_first-total, find_all-precedes,
  All-middle,
}

-- All messages of a room that are not deleted, from the newest to the oldest.
abbrev pub whole_history : RoomType → (room_id : ℕ) → List ChatMessage → List ChatMessage
whole_history room_type room_id messages =
    sort_by newest_first (find_all (in_room room_type room_id) messages)

abbrev pub HasIds : List ChatMessage → Type 0
HasIds ms = Distinct (map (λ (m : ChatMessage). m.id) ms)

find_all-HasIds :
    (p : ChatMessage → Bool) (ms : List ChatMessage) → HasIds ms → HasIds (find_all p ms)
unfolding find_all
find_all-HasIds p [] h = tt
find_all-HasIds p (m ∷ ms) (n, h) = elim (Bool-cases (p m)) [
  | inl hit ↦ rw hit (
    All-map (λ j. m.id ≢ j) (λ x. x.id) (find_all p ms)
        (All-of_find_all (λ (x : ChatMessage). m.id ≢ x.id) p ms
          (All-of-map (λ j. m.id ≢ j) (λ x. x.id) ms n)),
    find_all-HasIds p ms h,
  )
  | inr miss ↦ rw miss (find_all-HasIds p ms h)
]

insert_by-HasIds :
    (x : ChatMessage) (ms : List ChatMessage)
    → All (λ (m : ChatMessage). x.id ≢ m.id) ms
    → HasIds ms
    → HasIds (insert_by newest_first x ms)
unfolding insert_by
insert_by-HasIds x [] n h = (tt, tt)
insert_by-HasIds x (m ∷ ms) (p, n) (a, h) = elim (Bool-cases (newest_first x m)) [
  | inl before ↦ rw before (All-map (λ j. x.id ≢ j) (λ y. y.id) (m ∷ ms) (p, n), (a, h))
  | inr after ↦ rw after (
    All-map (λ j. m.id ≢ j) (λ y. y.id) (insert_by newest_first x ms)
        ((All-insert_by (λ (y : ChatMessage). m.id ≢ y.id) newest_first x ms).1
          ((λ e. p (sym e)), All-of-map (λ j. m.id ≢ j) (λ y. y.id) ms a)),
    insert_by-HasIds x ms n h,
  )
]

sort_by-HasIds : (ms : List ChatMessage) → HasIds ms → HasIds (sort_by newest_first ms)
unfolding sort_by
sort_by-HasIds [] h = tt
sort_by-HasIds (m ∷ ms) (n, h) =
    insert_by-HasIds m (sort_by newest_first ms)
      ((All-sort_by (λ (x : ChatMessage). m.id ≢ x.id) newest_first ms).1
        (All-of-map (λ j. m.id ≢ j) (λ x. x.id) ms n))
      (sort_by-HasIds ms h)

-- With distinct ids, each message is what its id finds.
abbrev IsFoundIn : List ChatMessage → ChatMessage → Type 0
IsFoundIn messages m = find_first (message_with_id m.id) messages ≡ some m

module _ (room_type : RoomType) (room_id : ℕ) (messages : List ChatMessage)
    (ids : HasIds messages) where
  abbrev whole : List ChatMessage
  whole = whole_history room_type room_id messages

  whole-HasIds : HasIds whole
  whole-HasIds =
      sort_by-HasIds (find_all (in_room room_type room_id) messages)
        (find_all-HasIds (in_room room_type room_id) messages ids)

  whole-IsFoundIn : All (IsFoundIn messages) whole
  whole-IsFoundIn =
      (All-sort_by (IsFoundIn messages) newest_first
          (find_all (in_room room_type room_id) messages)).1
        (All-of_find_all (IsFoundIn messages) (in_room room_type room_id) messages
          (All-found (λ (m : ChatMessage). m.id) messages ids))

  -- What a page is cut from.
  cut :
      (cursor : Option ChatMessage)
      → sort_by newest_first
          (find_all (λ m. in_room room_type room_id m && after_cursor cursor m) messages)
        ≡ find_all (after_cursor cursor) whole
  cut cursor =
      ap (sort_by newest_first)
        (find_all-and (in_room room_type room_id) (after_cursor cursor) messages)
      ∙ sym (
          find_all-sort_by newest_first newest_first_trans (after_cursor cursor) newest_first-total
            (find_all (in_room room_type room_id) messages))

  keep_all : (ms : List ChatMessage) → find_all (after_cursor none) ms ≡ ms
  unfolding find_all
  keep_all [] = refl
  keep_all (m ∷ ms) = ap (λ xs. m ∷ xs) (keep_all ms)

  pub page-first :
      (limit : Option ℕ)
      → page room_type room_id none limit messages ≡ take (min (or_else limit 50) max_page) whole
  unfolding page
  page-first limit = ap (take (min (or_else limit 50) max_page)) (cut none ∙ keep_all whole)

  -- The page before a message of the room is the part of the room's history that comes right after
  -- it, from the newest to the oldest, at most `limit` (50 where none is given) and at most 100
  -- messages of it, if no two messages have the same id.
  pub page-whole_history :
      (front : List ChatMessage) (c : ChatMessage) (rest : List ChatMessage) (limit : Option ℕ)
      → whole_history room_type room_id messages ≡ front ++ c ∷ rest
      → page room_type room_id (some c.id) limit messages ≡ take (min (or_else limit 50) 100) rest
  unfolding page
  page-whole_history front c rest limit split =
      let found : find_first (message_with_id c.id) messages ≡ some c =
        All-middle (IsFoundIn messages) front c rest
          (subst (All (IsFoundIn messages)) split whole-IsFoundIn) in
      let sorted = subst (IsSorted newest_first) split (
        sort_by-IsSorted newest_first newest_first_trans newest_first-total
          (find_all (in_room room_type room_id) messages)) in
      ap (take (min (or_else limit 50) 100)) (
        ap
          (λ o.
            sort_by newest_first
              (find_all (λ m. in_room room_type room_id m && after_cursor o m) messages))
          found
        ∙ cut (some c)
        ∙ ap (find_all (precedes c)) split
        ∙ find_all-precedes front c rest sorted (subst HasIds split whole-HasIds))
