-- ===== src/Location/Storage/Rows.antt =====
-- The keys loc:pos:{trip}:{user} of src/modules/location/location.service.ts as a list of rows.
use mathlib.Core.Option
use myride_api.Common.{
  ℕ, ◌≡◌, refl, ap, ◌∙◌, inl, inr, Bool, true, false, ◌&&◌, Option, some, none, List, [], ◌∷◌, ◌++◌,
  arith, ◌==◌, ==_iff, find_first, delete_where, if◌then◌else◌, Bool-cases, Option-cases, All,
}
use myride_api.Location.Storage.{ParticipantPosition, Stored, live, Positions, IsIn}

pub record Row : Type 0 where
  pub trip_id : ℕ
  pub user_id : ℕ
  pub stored : Stored

abbrev pub under : (t u : ℕ) → Row → Bool
under t u r = r.trip_id == t && r.user_id == u

pub find_first-deleted :
    {A : Type 0} (q : A → Bool) (xs : List A) → find_first q (delete_where q xs) ≡ none
unfolding find_first delete_where
find_first-deleted q [] = refl
find_first-deleted q (x ∷ xs) = elim (Bool-cases (q x)) [
  | inl hit ↦ rw hit (find_first-deleted q xs)
  | inr miss ↦ rw miss (rw miss (find_first-deleted q xs))
]

pub find_first-kept :
    {A : Type 0} (q k : A → Bool) (xs : List A)
    → ((x : A) → k x ≡ true → q x ≡ false)
    → find_first q (delete_where k xs) ≡ find_first q xs
unfolding find_first delete_where
find_first-kept q k [] apart = refl
find_first-kept q k (x ∷ xs) apart = elim (Bool-cases (k x)) [
  | inl hit ↦ rw (hit, apart x hit) (find_first-kept q k xs apart)
  | inr miss ↦ rw (miss, find_first-kept q k xs apart) refl
]

find_first-new :
    {A : Type 0} (q : A → Bool) (xs : List A) (y : A)
    → find_first q xs ≡ none
    → q y ≡ true
    → find_first q (xs ++ y ∷ []) ≡ some y
unfolding find_first
find_first-new q [] y e h = rw h refl
find_first-new q (x ∷ xs) y e h = elim (Bool-cases (q x)) [
  | inl hit ↦ absurd (ground arith)
  | inr miss ↦ rw miss (find_first-new q xs y (rw miss at e) h)
]

find_first-skip :
    {A : Type 0} (q : A → Bool) (xs : List A) (y : A)
    → q y ≡ false
    → find_first q (xs ++ y ∷ []) ≡ find_first q xs
unfolding find_first
find_first-skip q [] y h = rw h refl
find_first-skip q (x ∷ xs) y h = rw (find_first-skip q xs y h) refl

abbrev pub view_rows : List Row → (t u : ℕ) → Option Stored
view_rows rows t u = Option.map (λ (r : Row). r.stored) (find_first (under t u) rows)

abbrev pub set_row : (t u : ℕ) → ParticipantPosition → ℕ → List Row → List Row
set_row t u p d rows =
    delete_where (under t u) rows
    ++ record { trip_id = t; user_id = u; stored = record { position = p; deadline = d } } ∷ []

abbrev pub with_found :
    Option ParticipantPosition → List ParticipantPosition → List ParticipantPosition
with_found none ps = ps
with_found (some p) ps = p ∷ ps

abbrev pub collect : (now t : ℕ) → List Row → List Row → List ParticipantPosition
collect now t rows [] = []
collect now t rows (r ∷ rs) =
    let rest = collect now t rows rs in
    if r.trip_id == t then with_found (live now (view_rows rows t r.user_id)) rest else rest

pub apart_rows :
    (t u t' u' : ℕ)
    → (t == t' && u == u') ≡ false
    → (x : Row) → under t u x ≡ true
    → under t' u' x ≡ false
apart_rows t u t' u' h x e = ground (arith, ==_iff x.trip_id t, ==_iff x.user_id u)

pub view_rows-set_self :
    (t u : ℕ) (p : ParticipantPosition) (d : ℕ) (rows : List Row)
    → view_rows (set_row t u p d rows) t u ≡ some (record { position = p; deadline = d })
view_rows-set_self t u p d rows = ap (Option.map (λ (r : Row). r.stored)) (
    find_first-new (under t u) (delete_where (under t u) rows) _
      (find_first-deleted (under t u) rows) (ground (arith, ==_iff t t, ==_iff u u)))

pub view_rows-set_ne :
    (t u t' u' : ℕ) (p : ParticipantPosition) (d : ℕ) (rows : List Row)
    → (t == t' && u == u') ≡ false
    → view_rows (set_row t u p d rows) t' u' ≡ view_rows rows t' u'
view_rows-set_ne t u t' u' p d rows h = ap (Option.map (λ (r : Row). r.stored)) (
    find_first-skip (under t' u') (delete_where (under t u) rows) _ h
    ∙ find_first-kept (under t' u') (under t u) rows (apart_rows t u t' u' h))

pub collect-IsIn :
    (now t u : ℕ) (rows xs : List Row) (r : Row) (p : ParticipantPosition)
    → live now (view_rows rows t u) ≡ some p
    → find_first (under t u) xs ≡ some r
    → IsIn p (collect now t rows xs)
unfolding find_first
collect-IsIn now t u rows [] r p alive found = cc
collect-IsIn now t u rows (x ∷ xs) r p alive found = elim (Bool-cases (under t u x)) [
  | inl hit ↦
      let trip : (x.trip_id == t) ≡ true = ground arith in
      let user : x.user_id ≡ u = ground arith in rw (trip, user, alive) (inl refl)
  | inr miss ↦
      let rest = collect-IsIn now t u rows xs r p alive (rw miss at found) in
      in_behind (x.trip_id == t) (live now (view_rows rows t x.user_id)) _ rest
]
  where
    in_behind :
        (b : Bool) (o : Option ParticipantPosition) (ps : List ParticipantPosition)
        → IsIn p ps
        → IsIn p (if b then with_found o ps else ps)
    in_behind false o ps h = h
    in_behind true none ps h = h
    in_behind true (some q) ps h = inr h

pub shows-collect :
    (now t : ℕ) (rows xs : List Row)
    → All (λ p. (u : ℕ) × (live now (view_rows rows t u) ≡ some p)) (collect now t rows xs)
shows-collect now t rows [] = tt
shows-collect now t rows (x ∷ xs) =
    all_behind (x.trip_id == t) (live now (view_rows rows t x.user_id)) _ refl
      (shows-collect now t rows xs)
  where
    all_behind :
        (b : Bool) (o : Option ParticipantPosition) (ps : List ParticipantPosition)
        → live now (view_rows rows t x.user_id) ≡ o
        → All (λ p. (u : ℕ) × (live now (view_rows rows t u) ≡ some p)) ps
        → All
            (λ p. (u : ℕ) × (live now (view_rows rows t u) ≡ some p))
            (if b then with_found o ps else ps)
    all_behind false o ps e h = h
    all_behind true none ps e h = h
    all_behind true (some q) ps e h = ((x.user_id, e), h)

pub found_row :
    (now t u : ℕ) (rows : List Row) {p : ParticipantPosition}
    → live now (view_rows rows t u) ≡ some p
    → (r : Row) × (find_first (under t u) rows ≡ some r)
found_row now t u rows alive = elim (Option-cases (find_first (under t u) rows)) [
  | inl nothing ↦ absurd (ground arith)
  | inr (r, found) ↦ (r, found)
]

-- The interface can be met.
abbrev pub rows_of : Positions
rows_of = record {
  Store = List Row;
  view = view_rows;
  set_ex = set_row;
  del = λ t u rows. delete_where (under t u) rows;
  all = λ now t rows. collect now t rows rows;
  view-set_ex_self = view_rows-set_self;
  view-set_ex_ne = view_rows-set_ne;
  view-del_self =
      λ t u rows. ap (Option.map (λ (r : Row). r.stored)) (find_first-deleted (under t u) rows);
  view-del_ne = λ t u t' u' rows h.
      ap (Option.map (λ (r : Row). r.stored))
        (find_first-kept (under t' u') (under t u) rows (apart_rows t u t' u' h));
  all-IsIn = λ now t u rows p alive.
      let (r, found) = found_row now t u rows alive in
      collect-IsIn now t u rows rows r p alive found;
  shows-all = λ now t rows. shows-collect now t rows rows;
}
