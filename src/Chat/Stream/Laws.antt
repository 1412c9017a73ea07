-- ===== src/Chat/Stream/Laws.antt =====
-- The insert that ignores conflicts, and claims and acknowledgements of pending entries.

use myride_api.Common.{
  ℕ, ◌≡◌, ◌≢◌, refl, ◌∙◌, ap, Bool, true, false, some, none, List, [], ◌∷◌, map, ◌==◌, ==_iff,
  is_some, find_first, delete_where, find_first-append, find_first-eq-none, All, All-implies,
  All-map, Distinct, Distinct-snoc, map-append_row, inl, inr, arith, Bool-cases, Option-cases,
  or_else, All-both, All-of-map, sym,
}
use myride_api.Chat.{ChatMessage}
use myride_api.Chat.Stream.{
  Entry, Pending, has_id, claimed, to_message, message_with_id, insert_or_ignore, insert_all,
}

insert_or_ignore-keeps :
    (i : ℕ) (x : ChatMessage) (rows : List ChatMessage) {m : ChatMessage}
    → find_first (message_with_id i) rows ≡ some m
    → find_first (message_with_id i) (insert_or_ignore x rows) ≡ some m
unfolding insert_or_ignore
insert_or_ignore-keeps i x rows at =
    elim (Bool-cases (is_some (find_first (message_with_id x.id) rows))) [
      | inl there ↦ rw there at
      | inr new ↦ rw new (find_first-append (message_with_id i) rows x ∙ rw at refl)
    ]

insert_or_ignore-is_some :
    (x : ChatMessage) (rows : List ChatMessage)
    → is_some (find_first (message_with_id x.id) (insert_or_ignore x rows)) ≡ true
unfolding insert_or_ignore
insert_or_ignore-is_some x rows = elim (Option-cases (find_first (message_with_id x.id) rows)) [
  | inl new ↦ rw new (rw (find_first-append (message_with_id x.id) rows x, new) (ground arith))
  | inr (m, at) ↦ rw at (rw at refl)
]

insert_or_ignore-other :
    (i : ℕ) (x : ChatMessage) (rows : List ChatMessage)
    → x.id ≢ i
    → find_first (message_with_id i) rows ≡ none
    → find_first (message_with_id i) (insert_or_ignore x rows) ≡ none
unfolding insert_or_ignore
insert_or_ignore-other i x rows differs gone =
    elim (Bool-cases (is_some (find_first (message_with_id x.id) rows))) [
      | inl there ↦ rw there gone
      | inr new ↦ rw new (find_first-append (message_with_id i) rows x ∙ rw gone (ground arith))
    ]

insert_or_ignore-Distinct :
    (x : ChatMessage) (rows : List ChatMessage)
    → Distinct (map (λ m. m.id) rows)
    → Distinct (map (λ m. m.id) (insert_or_ignore x rows))
unfolding insert_or_ignore
insert_or_ignore-Distinct x rows distinct =
    elim (Option-cases (find_first (message_with_id x.id) rows)) [
      | inl new ↦
          rw (new, map-append_row (λ m. m.id) rows x)
            (Distinct-snoc _ x.id distinct (
              All-map _ _ rows (
                All-implies _ _ rows (λ m differs. ground (arith, ==_iff m.id x.id))
                  (find_first-eq-none (message_with_id x.id) rows new))))
      | inr (m, at) ↦ rw at distinct
    ]

pub insert_all-keeps :
    (i : ℕ) (es : List Entry) (rows : List ChatMessage) {m : ChatMessage}
    → find_first (message_with_id i) rows ≡ some m
    → find_first (message_with_id i) (insert_all es rows) ≡ some m
unfolding insert_all
insert_all-keeps i [] rows at = at
insert_all-keeps i (e ∷ es) rows at =
    insert_all-keeps i es _ (insert_or_ignore-keeps i (to_message e.message) rows at)

insert_or_ignore-own :
    (x : ChatMessage) (rows : List ChatMessage)
    → find_first (message_with_id x.id) (insert_or_ignore x rows)
      ≡ some (or_else (find_first (message_with_id x.id) rows) x)
unfolding insert_or_ignore
insert_or_ignore-own x rows = elim (Option-cases (find_first (message_with_id x.id) rows)) [
  | inl new ↦ rw new (rw (find_first-append (message_with_id x.id) rows x, new) (ground arith))
  | inr (m, at) ↦ rw at (rw at refl)
]

insert_or_ignore-apart :
    (i : ℕ) (x : ChatMessage) (rows : List ChatMessage)
    → x.id ≢ i
    → find_first (message_with_id i) (insert_or_ignore x rows) ≡ find_first (message_with_id i) rows
insert_or_ignore-apart i x rows differs =
    elim (Option-cases (find_first (message_with_id i) rows)) [
      | inl gone ↦ insert_or_ignore-other i x rows differs gone ∙ sym gone
      | inr (m, at) ↦ insert_or_ignore-keeps i x rows at ∙ sym at
    ]

-- What an insert of messages with distinct ids leaves under each of their ids: the row that was
-- there, or else the message.
pub insert_all-stored :
    (es : List Entry) (rows : List ChatMessage)
    → Distinct (map (λ (e : Entry). e.message.id) es)
    → All
        (λ e.
          find_first (message_with_id e.message.id) (insert_all es rows)
          ≡ some (or_else (find_first (message_with_id e.message.id) rows) (to_message e.message)))
        es
unfolding insert_all
insert_all-stored [] rows distinct = tt
insert_all-stored (e ∷ es) rows (apart, distinct) =
    let next = insert_or_ignore (to_message e.message) rows in
    (
      insert_all-keeps e.message.id es next (insert_or_ignore-own (to_message e.message) rows),
      All-both (λ (x : Entry). e.message.id ≢ x.message.id)
          (λ (x : Entry).
            find_first (message_with_id x.message.id) (insert_all es next)
            ≡ some
                (or_else (find_first (message_with_id x.message.id) next) (to_message x.message)))
          (λ (x : Entry).
            find_first (message_with_id x.message.id) (insert_all es next)
            ≡ some
                (or_else (find_first (message_with_id x.message.id) rows) (to_message x.message)))
          es
          (λ x differs h.
            h
            ∙ ap (λ o. some (or_else o (to_message x.message)))
                (insert_or_ignore-apart x.message.id (to_message e.message) rows differs))
          (All-of-map (λ j. e.message.id ≢ j) (λ (x : Entry). x.message.id) es apart)
          (insert_all-stored es next distinct),
    )

pub insert_all-other :
    (i : ℕ) (es : List Entry) (rows : List ChatMessage)
    → All (λ e. e.message.id ≢ i) es
    → find_first (message_with_id i) rows ≡ none
    → find_first (message_with_id i) (insert_all es rows) ≡ none
unfolding insert_all
insert_all-other i [] rows h gone = gone
insert_all-other i (e ∷ es) rows (differs, h) gone =
    insert_all-other i es _ h (insert_or_ignore-other i (to_message e.message) rows differs gone)

pub insert_all-Distinct :
    (es : List Entry) (rows : List ChatMessage)
    → Distinct (map (λ m. m.id) rows)
    → Distinct (map (λ m. m.id) (insert_all es rows))
unfolding insert_all
insert_all-Distinct [] rows distinct = distinct
insert_all-Distinct (e ∷ es) rows distinct =
    insert_all-Distinct es _ (insert_or_ignore-Distinct (to_message e.message) rows distinct)

abbrev pub pending_entry : ℕ → Pending → Bool
pending_entry id p = p.entry.entry_id == id

pub claimed-pending :
    (id now worker : ℕ) (ids : List ℕ) (ps : List Pending)
    → is_some (find_first (pending_entry id) (map (claimed now worker ids) ps))
      ≡ is_some (find_first (pending_entry id) ps)
unfolding find_first
claimed-pending id now worker ids [] = refl
claimed-pending id now worker ids (p ∷ ps) = ground (arith, claimed-pending id now worker ids ps)

pub acked-pending :
    (id : ℕ) (ids : List ℕ) (ps : List Pending)
    → has_id id ids ≡ false
    → is_some (find_first (pending_entry id) (delete_where (λ p. has_id p.entry.entry_id ids) ps))
      ≡ is_some (find_first (pending_entry id) ps)
unfolding find_first delete_where
acked-pending id ids [] h = refl
acked-pending id ids (p ∷ ps) h = elim (Bool-cases (p.entry.entry_id == id)) [
  | inl hit ↦
      let same = (==_iff p.entry.entry_id id).0 hit in
      rw (ap (λ k. has_id k ids) same ∙ h, hit) refl
  | inr miss ↦ ground (arith, acked-pending id ids ps h)
]

pub has_no_id :
    (id : ℕ) (es : List Entry)
    → All (λ e. e.entry_id ≢ id) es
    → has_id id (map (λ e. e.entry_id) es) ≡ false
has_no_id id [] h = refl
has_no_id id (e ∷ es) (differs, h) = ground (arith, has_no_id id es h)
