-- ===== src/Chat/History/Walk.antt =====
-- A client that loads more of a room by giving the oldest message it has as the cursor, as
-- src/modules/chat/chat.controller.ts says: `?before=<message_uuid>&limit=50`.
use myride_api.Common.{
  append_assoc, ℕ, zero, suc, ◌<◌, ◌≡◌, ◌≢◌, refl, ap, sym, ◌∙◌, Option, some, none, List, [], ◌∷◌,
  ◌++◌, take, length, min, or_else, arith,
}
use myride_api.Chat.{RoomType, ChatMessage}
use myride_api.Chat.History.{page, max_page}
use myride_api.Chat.History.Pages.{whole_history, HasIds, page-first, page-whole_history}

abbrev pub oldest : List ChatMessage → Option ChatMessage
oldest [] = none
oldest (m ∷ []) = some m
oldest (m ∷ n ∷ ms) = oldest (n ∷ ms)

-- A list is cut right after the last element of a part of it that is not empty.
record Cut (k : ℕ) (ms : List ChatMessage) : Type 0 where
  front : List ChatMessage
  last : ChatMessage
  rest : List ChatMessage
  whole : ms ≡ front ++ last ∷ rest
  part : take (suc k) ms ≡ front ++ last ∷ []
  shorter : length rest < length ms

split_after : (k : ℕ) (m : ChatMessage) (ms : List ChatMessage) → Cut k (m ∷ ms)
split_after zero m ms = record {
  front = [];
  last = m;
  rest = ms;
  whole = refl;
  part = refl;
  shorter = omega arith;
}
split_after (suc k) m [] = record {
  front = [];
  last = m;
  rest = [];
  whole = refl;
  part = refl;
  shorter = omega arith;
}
split_after (suc k) m (n ∷ ms) =
    let c = split_after k n ms in
    record {
      front = m ∷ c.front;
      last = c.last;
      rest = c.rest;
      whole = ap (λ xs. m ∷ xs) c.whole;
      part = ap (λ xs. m ∷ xs) c.part;
      shorter = omega (arith, c.shorter);
    }

oldest-snoc : (front : List ChatMessage) (m : ChatMessage) → oldest (front ++ m ∷ []) ≡ some m
oldest-snoc [] m = refl
oldest-snoc (x ∷ []) m = refl
oldest-snoc (x ∷ y ∷ front) m = oldest-snoc (y ∷ front) m

some_size :
    (limit : Option ℕ) → limit ≢ some 0 → (k : ℕ) × (min (or_else limit 50) max_page ≡ suc k)
some_size none h = (49, omega arith)
some_size (some zero) h = absurd (h refl)
some_size (some (suc n)) h = (min n 99, omega arith)

module _ (room_type : RoomType) (room_id : ℕ) (limit : Option ℕ) (messages : List ChatMessage) where
  -- At most `fuel` requests, each from the oldest message of the page before, until a page is empty.
  unfoldable pub load_more : (fuel : ℕ) → Option ℕ → List ChatMessage
  load_more zero before = []
  load_more (suc fuel) before =
      let shown = page room_type room_id before limit messages in
      elim (oldest shown) [ none ↦ [] | some m ↦ shown ++ load_more fuel (some m.id) ]

  load_more-eq :
      (fuel : ℕ) (before : Option ℕ) {shown : List ChatMessage}
      → page room_type room_id before limit messages ≡ shown
      → load_more (suc fuel) before
        ≡ elim (oldest shown) [ none ↦ [] | some m ↦ shown ++ load_more fuel (some m.id) ]
  unfolding load_more
  load_more-eq fuel before e =
      ap
        (λ ms. elim (oldest ms) as (λ _. List ChatMessage) [
          | none ↦ []
          | some m ↦ ms ++ load_more fuel (some m.id)
        ])
        e

  module _ (ids : HasIds messages) (k : ℕ)
      (some_asked : min (or_else limit 50) max_page ≡ suc k) where
    load_more-rest :
        (fuel : ℕ) (before : Option ℕ) (front rest : List ChatMessage)
        → whole_history room_type room_id messages ≡ front ++ rest
        → page room_type room_id before limit messages ≡ take (suc k) rest
        → length rest < fuel
        → load_more fuel before ≡ rest
    unfolding load_more
    load_more-rest zero before front rest split shown enough = absurd (omega arith)
    load_more-rest (suc fuel) before front [] split shown enough = load_more-eq fuel before shown
    load_more-rest (suc fuel) before front (m ∷ ms) split shown enough =
        let c = split_after k m ms in
        let before_last = front ++ c.front in
        let at : whole_history room_type room_id messages ≡ before_last ++ c.last ∷ c.rest =
          split
          ∙ ap (λ xs. front ++ xs) c.whole
          ∙ sym (append_assoc front c.front (c.last ∷ c.rest)) in
        let later =
          load_more-rest fuel (some c.last.id) (before_last ++ c.last ∷ []) c.rest
            (at ∙ sym (append_assoc before_last (c.last ∷ []) c.rest))
            (page-whole_history room_type room_id messages ids before_last c.last c.rest limit at
              ∙ ap (λ n. take n c.rest) some_asked)
            (omega (arith, c.shorter, enough)) in
        load_more-eq fuel before (shown ∙ c.part)
        ∙ rw (oldest-snoc c.front c.last, later)
            (append_assoc c.front (c.last ∷ []) c.rest ∙ sym c.whole)

  -- Loading page after page, each from the oldest message of the page before, ends and shows every
  -- message of the room that is not deleted once and from the newest to the oldest, if no two
  -- messages have the same id and the limit is not 0: one request more than there are messages is
  -- enough.
  pub load_more-whole_history :
      HasIds messages
      → limit ≢ some 0
      → (fuel : ℕ) → length (whole_history room_type room_id messages) < fuel
      → load_more fuel none ≡ whole_history room_type room_id messages
  load_more-whole_history ids asked fuel enough =
      let (k, size) = some_size limit asked in
      load_more-rest ids k size fuel none [] (whole_history room_type room_id messages) refl
        (page-first room_type room_id messages ids limit
          ∙ ap (λ n. take n (whole_history room_type room_id messages)) size)
        enough
