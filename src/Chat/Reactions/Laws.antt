-- ===== src/Chat/Reactions/Laws.antt =====
-- What a toggle does to the reactions of a message, and what the answer shows.
use text.Mathlib.Text.{◌==◌ as str_eq}
use text.Mathlib.TextEquality.{eq_iff}
use myride_api.Common.{
  ℕ, ◌+◌, ◌≡◌, refl, sym, ◌∙◌, ap, String, Bool, true, ◌&&◌, not, List, [], ◌∷◌, ◌==◌, is_some,
  Option, Result, err, if◌then◌else◌, ok, find_first, find_all, count_where, delete_where, arith,
  inl, inr, Bool-cases, Option-cases, count_where-append,
}
use myride_api.Chat.{RoomType, MessageReaction}
use myride_api.Chat.Reactions.{
  Db, reaction_of, on_message, add_to, group_onto, group_reactions, new_reaction, toggled,
  toggle_reaction, Reacted, Error, message_room_of,
}

-- How often a user is listed in a list of users.
abbrev pub times_in : ℕ → List ℕ → ℕ
times_in user_id users = count_where (λ u. u == user_id) users

-- How often a user is listed under an emoji.
unfoldable pub listed : String → ℕ → List (String × List ℕ) → ℕ
listed emoji user_id [] = 0
listed emoji user_id ((e, users) ∷ groups) =
    (if str_eq e emoji then times_in user_id users else 0) + listed emoji user_id groups

abbrev pub by_user : String → ℕ → MessageReaction → Bool
by_user emoji user_id r = str_eq r.emoji emoji && r.user_id == user_id

listed-add_to :
    (emoji : String) (user_id : ℕ) (e : String) (u : ℕ) (groups : List (String × List ℕ))
    → listed emoji user_id (add_to e u groups)
      ≡ listed emoji user_id groups + (if str_eq e emoji && u == user_id then 1 else 0)
unfolding listed add_to count_where
listed-add_to emoji user_id e u [] = ground arith
listed-add_to emoji user_id e u ((x, users) ∷ groups) = ground (
  arith,
  listed-add_to emoji user_id e u groups,
  count_where-append (λ v. v == user_id) users u,
  eq_iff x e,
)

listed-group_onto :
    (emoji : String) (user_id : ℕ) (acc : List (String × List ℕ)) (rows : List MessageReaction)
    → listed emoji user_id (group_onto acc rows)
      ≡ listed emoji user_id acc + count_where (by_user emoji user_id) rows
unfolding group_onto count_where
listed-group_onto emoji user_id acc [] = omega arith
listed-group_onto emoji user_id acc (r ∷ rows) = ground (
  arith,
  listed-group_onto emoji user_id (add_to r.emoji r.user_id acc) rows,
  listed-add_to emoji user_id r.emoji r.user_id acc,
)

listed-group_reactions :
    (emoji : String) (user_id : ℕ) (rows : List MessageReaction)
    → listed emoji user_id (group_reactions rows) ≡ count_where (by_user emoji user_id) rows
unfolding listed
listed-group_reactions emoji user_id rows = listed-group_onto emoji user_id [] rows ∙ omega arith

count_where-find_all :
    (emoji : String) (user_id message_id : ℕ) (rows : List MessageReaction)
    → count_where (by_user emoji user_id) (find_all (on_message message_id) rows)
      ≡ count_where (reaction_of message_id user_id emoji) rows
unfolding count_where find_all
count_where-find_all emoji user_id message_id [] = refl
count_where-find_all emoji user_id message_id (r ∷ rows) =
    ground (arith, count_where-find_all emoji user_id message_id rows)

count_where-find_first :
    (k : MessageReaction → Bool) (rows : List MessageReaction)
    → is_some (find_first k rows) ≡ not (count_where k rows == 0)
unfolding count_where find_first
count_where-find_first k [] = refl
count_where-find_first k (r ∷ rows) = ground (arith, count_where-find_first k rows)

-- Deleting by a key takes away exactly the rows with that key.
count_where-delete_where :
    (p k : MessageReaction → Bool) (rows : List MessageReaction)
    → count_where p (delete_where k rows) ≡ count_where (λ r. p r && not (k r)) rows
unfolding count_where delete_where
count_where-delete_where p k [] = refl
count_where-delete_where p k (r ∷ rows) = ground (arith, count_where-delete_where p k rows)

-- Whether two reactions have the same key.
abbrev pub same_reaction : (m u : ℕ) (e : String) (m' u' : ℕ) (e' : String) → Bool
same_reaction m u e m' u' e' = m == m' && u == u' && str_eq e e'

count_deleted :
    (m u : ℕ) (e : String) (m' u' : ℕ) (e' : String) (rows : List MessageReaction)
    → count_where (λ r. reaction_of m' u' e' r && not (reaction_of m u e r)) rows
      ≡ (if same_reaction m u e m' u' e' then 0 else count_where (reaction_of m' u' e') rows)
unfolding count_where
count_deleted m u e m' u' e' [] = ground arith
count_deleted m u e m' u' e' (r ∷ rows) =
    ground
      (arith, count_deleted m u e m' u' e' rows, eq_iff r.emoji e, eq_iff r.emoji e', eq_iff e e')

new_matches :
    (new_id m u : ℕ) (e : String) (m' u' : ℕ) (e' : String)
    → reaction_of m' u' e' (new_reaction new_id m u e) ≡ same_reaction m u e m' u' e'
new_matches new_id m u e m' u' e' = refl

count_same :
    (m u : ℕ) (e : String) (m' u' : ℕ) (e' : String) (rows : List MessageReaction)
    → same_reaction m u e m' u' e' ≡ true
    → count_where (reaction_of m' u' e') rows ≡ count_where (reaction_of m u e) rows
unfolding count_where
count_same m u e m' u' e' [] same = refl
count_same m u e m' u' e' (r ∷ rows) same =
    ground (arith, count_same m u e m' u' e' rows same, eq_iff e e')

-- A toggle turns one reaction over and leaves every other alone: a user's emoji on a message that
-- was not there is there once, one that was there is gone, and every other user, emoji or message has
-- as many as before.
pub toggled-count_where :
    (new_id m u : ℕ) (e : String) (m' u' : ℕ) (e' : String) (rows : List MessageReaction)
    → count_where (reaction_of m' u' e') (toggled new_id m u e rows) ≡ (
        if same_reaction m u e m' u' e'
        then (if count_where (reaction_of m u e) rows == 0 then 1 else 0)
        else count_where (reaction_of m' u' e') rows)
unfolding toggled
toggled-count_where new_id m u e m' u' e' rows =
    elim (Bool-cases (count_where (reaction_of m u e) rows == 0)) [
      | inl absent ↦
          rw
            (
              count_where-find_first (reaction_of m u e) rows,
              absent,
              count_where-append (reaction_of m' u' e') rows (new_reaction new_id m u e),
              new_matches new_id m u e m' u' e',
            )
            (elim (Bool-cases (same_reaction m u e m' u' e')) [
              | inl same ↦ rw same (ground (arith, count_same m u e m' u' e' rows same))
              | inr differs ↦ rw differs (omega arith)
            ])
      | inr there ↦
          rw
            (
              count_where-find_first (reaction_of m u e) rows,
              there,
              count_where-delete_where (reaction_of m' u' e') (reaction_of m u e) rows,
            )
            (count_deleted m u e m' u' e' rows)
    ]

-- The answer to an accepted toggle, whether the message's room was cached or read from the message,
-- lists each user under each emoji as often as the table holds that reaction to the message, and the
-- table is the toggled one.
pub toggle_reaction-listed :
    (cached : Option (RoomType × ℕ)) (new_id user_id message_id : ℕ) (emoji : String)
    (other : String) (other_user : ℕ) (db : Db) {reacted : Reacted}
    → (toggle_reaction cached new_id user_id message_id emoji db).0 ≡ ok reacted
    → (listed other other_user reacted.reactions
        ≡ count_where
            (reaction_of message_id other_user other)
            (toggle_reaction cached new_id user_id message_id emoji db).1.reactions)
      × ((toggle_reaction cached new_id user_id message_id emoji db).1.reactions
          ≡ toggled new_id message_id user_id emoji db.reactions)
unfolding toggle_reaction
toggle_reaction-listed cached new_id user_id message_id emoji other other_user db {reacted}
      accepted =
    elim (Option-cases
      (message_room_of cached (find_first (λ m. m.id == message_id) db.messages))) [
        | inl gone ↦ absurd (ground arith)
        | inr (room, at) ↦
            let rows = toggled new_id message_id user_id emoji db.reactions in
            let answer : group_reactions (find_all (on_message message_id) rows)
                ≡ reacted.reactions =
              ap reactions_of (rw at at accepted) in
            rw at (
              ap (listed other other_user) (sym answer)
                  ∙ listed-group_reactions other other_user (find_all (on_message message_id) rows)
                  ∙ count_where-find_all other other_user message_id rows,
              refl,
            )
      ]
  where
    reactions_of : Result Error Reacted → List (String × List ℕ)
    reactions_of (ok r) = r.reactions
    reactions_of (err e) = []
