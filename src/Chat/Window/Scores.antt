-- ===== src/Chat/Window/Scores.antt =====
-- The scores of the sorted sets of src/modules/chat/chat.service.ts and the minute of `checkRateLimit`.
use myride_api.Common.{
  ℕ, ◌+◌, ◌-◌, ◌≤◌, ◌≡◌, refl, ◌<◌, ◌&&◌, not, Bool, Option, none, some, List, [], ◌∷◌, ◌++◌,
  length, ltb, leb, delete_where, count_where, All, arith,
}
use myride_api.Chat.Window.{SortedSet, rl_window_ms, live, scores_of, removed, added, expiring_at}

-- Whether a call at `t` lies in the minute that ends at `now`.
abbrev pub in_window : (now t : ℕ) → Bool
in_window now t = ltb now (t + rl_window_ms) && leb t now

-- The calls come in order.
abbrev pub ComeAfter : ℕ → List ℕ → Type 0
ComeAfter n [] = Unit
ComeAfter n (t ∷ ts) = (n ≤ t) × ComeAfter t ts

pub count_where-length : (p : ℕ → Bool) (xs : List ℕ) → count_where p xs ≤ length xs
unfolding count_where
count_where-length p [] = omega arith
count_where-length p (x ∷ xs) = ground (arith, count_where-length p xs)

abbrev pub is_kept : (now s : ℕ) → Bool
is_kept now s = not (leb s (now - rl_window_ms))

pub count_kept-delete :
    (hi now : ℕ) (xs : List ℕ)
    → hi ≤ now - rl_window_ms
    → count_where (is_kept now) (delete_where (λ s. leb s hi) xs) ≡ count_where (is_kept now) xs
unfolding count_where delete_where
count_kept-delete hi now [] h = refl
count_kept-delete hi now (x ∷ xs) h = ground (arith, count_kept-delete hi now xs h)

pub count_over :
    (now n : ℕ) (xs : List ℕ)
    → n + rl_window_ms ≤ now
    → All (λ t. t ≤ n) xs
    → count_where (in_window now) xs ≡ 0
unfolding count_where
count_over now n [] h a = refl
count_over now n (x ∷ xs) h (p, a) = ground (arith, count_over now n xs h a)

-- What is in a later window was in an earlier one, where nothing is newer than the earlier one's end.
pub count_later :
    (now later : ℕ) (xs : List ℕ)
    → now ≤ later
    → All (λ t. t ≤ now) xs
    → count_where (in_window later) xs ≤ count_where (in_window now) xs
unfolding count_where
count_later now later [] h a = omega arith
count_later now later (x ∷ xs) h (p, a) = ground (arith, count_later now later xs h a)

-- What pruning leaves to be seen later.
pub scores_pruned :
    (now later hi : ℕ) (z : Option SortedSet)
    → now ≤ later
    → scores_of (live later (removed hi (live now z)))
      ≡ delete_where (λ s. leb s hi) (scores_of (live later z))
unfolding delete_where
scores_pruned now later hi none h = refl
scores_pruned now later hi (some z) h = ground (arith)

-- What a recorded call leaves to be seen until 70 seconds later.
pub scores_recorded :
    (now later d score : ℕ) (z : Option SortedSet)
    → later < d
    → now < d
    → scores_of (live later (expiring_at d (live now (some (added score (live now z))))))
      ≡ scores_of (live now z) ++ score ∷ []
scores_recorded now later d score none h k = ground arith
scores_recorded now later d score (some z) h k = ground arith

pub live_twice :
    (now hi : ℕ) (z : Option SortedSet)
    → live now (removed hi (live now z)) ≡ removed hi (live now z)
live_twice now hi none = refl
live_twice now hi (some z) = ground arith

pub count_live :
    (p : ℕ → Bool) (now later : ℕ) (z : Option SortedSet)
    → now ≤ later
    → count_where p (scores_of (live later z)) ≤ count_where p (scores_of (live now z))
unfolding count_where
count_live p now later none h = omega arith
count_live p now later (some z) h = ground arith
