-- ===== src/Community/Browsing.antt =====
-- `findMine` and `discover` of src/modules/community/community.service.ts. `like` is Postgres's ILIKE with
-- the search between two `%`.

use myride_api.Common.{
  ℕ, ◌+◌, ◌≡◌, ◌≤◌, refl, ap, String, Bool, true, false, ◌&&◌, ◌||◌, Option, some, none, List, [],
  ◌∷◌, map, take, drop, length, min, length-take, arith, inl, inr, Bool-cases, Option-cases, ◌==◌,
  leb, or_else, if◌then◌else◌, ok, find_first, find_first-holds, find_all, find_all-holds, sort_by,
  gets, All, All-both, All-of_find_all, All-found, Distinct, ==_iff, find_first-some, is_some,
  is_ok, All-sort_by, All-take, All-drop,
}
use myride_api.Common.Int.{ℤ, pos_part, neg_part}
use myride_api.Community.{
  Community, CommunityMember, Db, Method, community_with_id, is_open, active_community, active_row,
  member_row, join,
}

-- `order: { joined_at: 'DESC' }`
abbrev pub latest_first : CommunityMember → CommunityMember → Bool
latest_first a b = leb b.joined_at a.joined_at

-- The joined community, where `c && c.is_active`.
abbrev pub active_of : Option Community → List Community
active_of none = []
active_of (some c) = if c.is_active then c ∷ [] else []

unfoldable pub communities_of : Db → List CommunityMember → List Community
communities_of db [] = []
communities_of db (m ∷ ms) =
    let rest = communities_of db ms in
    elim (active_of (find_first (community_with_id m.community_id) db.communities)) [
      | [] ↦ rest
      | c ∷ _ ↦ c ∷ rest
    ]

unfoldable pub find_mine : ℕ → Method (List Community)
unfolding communities_of
find_mine user_id = gets λ (db : Db).
    communities_of db
      (sort_by latest_first (find_all (λ m. m.user_id == user_id && m.is_active) db.members))

abbrev pub ℤ_leb : ℤ → ℤ → Bool
ℤ_leb a b = leb (pos_part a + neg_part b) (pos_part b + neg_part a)

-- `c.member_count DESC`
abbrev pub largest_first : Community → Community → Bool
largest_first a b = ℤ_leb b.member_count a.member_count

-- `c.name ILIKE :q OR c.description ILIKE :q`; an empty search adds no filter.
abbrev pub mentions : (like : String → String → Bool) → Option String → Community → Bool
mentions like none c = true
mentions like (some String.[]) c = true
mentions like (some s) c = like c.name s || elim c.description [ none ↦ false | some d ↦ like d s ]

abbrev pub is_discovered : (like : String → String → Bool) → Option String → Community → Bool
is_discovered like search c = c.is_active && is_open c.join_type && mentions like search c

pub record Discovered : Type 0 where
  pub communities : List Community
  pub total : ℕ

unfoldable pub discover :
    (like : String → String → Bool) → Option String → (limit offset : Option ℕ) → Method Discovered
discover like search limit offset = gets λ (db : Db).
    let found = sort_by largest_first (find_all (is_discovered like search) db.communities) in
    record {
      communities = take (min (or_else limit 20) 50) (drop (or_else offset 0) found);
      total = length found;
    }

-- A query that is narrower than another finds what the other finds, if it passes.
find_first-narrower :
    {A : Type 0} (q k : A → Bool) (xs : List A) {c : A}
    → ((x : A) → k x ≡ false → q x ≡ false)
    → find_first k xs ≡ some c
    → q c ≡ true
    → find_first q xs ≡ some c
unfolding find_first
find_first-narrower q k [] narrow found h = cc
find_first-narrower q k (x ∷ xs) {c} narrow found h = elim (Bool-cases (k x)) [
  | inl hit ↦ let same : x ≡ c = ground arith in ground (arith, ap q same, hit)
  | inr miss ↦ rw (narrow x miss) (find_first-narrower q k xs narrow (rw miss at found) h)
]

module _ (now new_id user_id : ℕ) (db : Db) where
  join-accepted :
      (c : Community)
      → find_first (community_with_id c.id) db.communities ≡ some c
      → c.is_active ≡ true
      → is_open c.join_type ≡ true
      → is_some (find_first (active_row c.id user_id) db.members) ≡ false
      → is_ok (join now new_id c.id user_id db).0 ≡ true
  unfolding join
  join-accepted c there active free outside =
      let found : find_first (active_community c.id) db.communities ≡ some c =
        find_first-narrower (active_community c.id) (community_with_id c.id) db.communities
          (λ x e. rw e refl) there (rw ((==_iff c.id c.id).1 refl) active) in
      elim (Option-cases (find_first (member_row c.id user_id) db.members)) [
        | inl nobody ↦ ground (arith, found)
        | inr (m, row) ↦ elim (Bool-cases m.is_active) [
          | inl inside ↦
              let own = find_first-holds (member_row c.id user_id) db.members row in
              let (x, again) =
                find_first-some (member_row c.id user_id) (active_row c.id user_id) db.members row
                  (rw (own, inside) refl) in
              absurd (ground (arith, again))
          | inr gone ↦ ground (arith, found, gone)
        ]
      ]

  -- Every community on a page of the discovery is one that the user can join at that moment, unless
  -- the user is an active member of it, and a page has at most 50. The communities' ids must be
  -- distinct.
  pub discover-join :
      (like : String → String → Bool) (search : Option String) (limit offset : Option ℕ)
      → Distinct (map (λ (c : Community). c.id) db.communities)
      → (page : Discovered) × ((discover like search limit offset db).0 ≡ ok page)
        × All
            (λ (c : Community).
              is_some (find_first (active_row c.id user_id) db.members) ≡ false
              → is_ok (join now new_id c.id user_id db).0 ≡ true)
            page.communities
        × (length page.communities ≤ 50)
  unfolding discover
  discover-join like search limit offset distinct =
      let shown = find_all (is_discovered like search) db.communities in
      let found = sort_by largest_first shown in
      let good = λ (c : Community).
        is_some (find_first (active_row c.id user_id) db.members) ≡ false
        → is_ok (join now new_id c.id user_id db).0 ≡ true in
      let each : All good shown =
        All-both (λ (c : Community). find_first (community_with_id c.id) db.communities ≡ some c)
          (λ c. is_discovered like search c ≡ true) good shown
          (λ c a b outside. join-accepted c a (ground arith) (ground arith) outside)
          (All-of_find_all _ (is_discovered like search) db.communities
            (All-found (λ (c : Community). c.id) db.communities distinct))
          (find_all-holds (is_discovered like search) db.communities) in
      (
        record {
          communities = take (min (or_else limit 20) 50) (drop (or_else offset 0) found);
          total = length found;
        },
        refl,
        All-take good _ _ (
            All-drop good (or_else offset 0) found ((All-sort_by good largest_first shown).1 each)),
        omega (arith, length-take (min (or_else limit 20) 50) (drop (or_else offset 0) found)),
      )
