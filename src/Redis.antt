-- ===== src/Redis.antt =====
-- What the services rely on of Redis: strings and counters that expire, at whole seconds.
-- Redis is no code of the repository, so it is an interface; `table` below shows that it can be met.
use myride_api.Common.{
  ℕ, ◌+◌, ◌-◌, ◌≡◌, ◌≢◌, refl, Bool-cases, inl, inr, String, Bool, true, false, Option, none, some,
  leb, ◌↔◌, if◌then◌else◌,
}

pub data Value : Type 0 where
  string : String → Value
  number : ℕ → Value

pub record Entry : Type 0 where
  pub value : Value
  -- The second at which the key expires; none for a key that does not.
  pub deadline : Option ℕ

abbrev pub is_over : ℕ → Option ℕ → Bool
is_over now none = false
is_over now (some d) = leb d now

-- An expired key is as good as absent.
abbrev pub live : ℕ → Option Entry → Option Entry
live now none = none
live now (some e) = if is_over now e.deadline then none else some e

-- GET
abbrev pub value_at : ℕ → Option Entry → Option Value
value_at now none = none
value_at now (some e) = if is_over now e.deadline then none else some e.value

-- TTL, with 0 where Redis answers a negative number: the services only test whether it is positive.
abbrev pub seconds_left : ℕ → Option Entry → ℕ
seconds_left now none = 0
seconds_left now (some e) = elim e.deadline [ none ↦ 0 | some d ↦ d - now ]

abbrev pub count_of : Value → ℕ
count_of (string s) = 0
count_of (number n) = n

-- The key after INCR: an absent key counts as 0 and gets no expiry, a live one keeps its own.
abbrev pub bumped : Option Entry → Entry
bumped none = record { value = number 1; deadline = none }
bumped (some e) = record { value = number (count_of e.value + 1); deadline = e.deadline }

-- The key after EXPIRE.
abbrev pub expiring_at : ℕ → Option Entry → Option Entry
expiring_at d none = none
expiring_at d (some e) = some (record e { deadline = some d })

pub record Redis (K : Type 0) : Type 1 where
  pub Store : Type 0
  pub view : Store → K → Option Entry
  pub set_ex : K → Value → ℕ → Store → Store
  pub del : K → Store → Store
  pub incr : ℕ → K → Store → Store
  pub expire : ℕ → K → ℕ → Store → Store
  -- SET key value EX seconds, the deadline given.
  pub view-set_ex_self :
      (k : K) (v : Value) (d : ℕ) (st : Store)
      → view (set_ex k v d st) k ≡ some (record { value = v; deadline = some d })
  pub view-set_ex_ne :
      (k j : K) (v : Value) (d : ℕ) (st : Store) → k ≢ j → view (set_ex k v d st) j ≡ view st j
  pub view-del_self : (k : K) (st : Store) → view (del k st) k ≡ none
  pub view-del_ne : (k j : K) (st : Store) → k ≢ j → view (del k st) j ≡ view st j
  pub view-incr_self :
      (now : ℕ) (k : K) (st : Store) → view (incr now k st) k ≡ some (bumped (live now (view st k)))
  pub view-incr_ne : (now : ℕ) (k j : K) (st : Store) → k ≢ j → view (incr now k st) j ≡ view st j
  pub view-expire_self :
      (now : ℕ) (k : K) (d : ℕ) (st : Store)
      → view (expire now k d st) k ≡ expiring_at d (live now (view st k))
  pub view-expire_ne :
      (now : ℕ) (k j : K) (d : ℕ) (st : Store) → k ≢ j → view (expire now k d st) j ≡ view st j

module _ {K : Type 0} (same : K → K → Bool)
    (same_iff : (a b : K) → (same a b ≡ true) ↔ (a ≡ b)) where
  abbrev pub put : K → Option Entry → (K → Option Entry) → K → Option Entry
  put k e st j = if same k j then e else st j

  pub put_self : (k : K) (e : Option Entry) (st : K → Option Entry) → put k e st k ≡ e
  put_self k e st = rw ((same_iff k k).1 refl)

  pub put_ne : (k j : K) (e : Option Entry) (st : K → Option Entry) → k ≢ j → put k e st j ≡ st j
  put_ne k j e st h = elim (Bool-cases (same k j)) [
    | inl eq ↦ absurd (h ((same_iff k j).0 eq))
    | inr no_eq ↦ rw no_eq
  ]

  -- A store as a function, over keys with a test for equality.
  abbrev pub table : Redis K
  table = record {
    Store = K → Option Entry;
    view = λ st. st;
    set_ex = λ k v d st. put k (some (record { value = v; deadline = some d })) st;
    del = λ k st. put k none st;
    incr = λ now k st. put k (some (bumped (live now (st k)))) st;
    expire = λ now k d st. put k (expiring_at d (live now (st k))) st;
    view-set_ex_self = λ k v d st. put_self k _ st;
    view-set_ex_ne = λ k j v d st h. put_ne k j _ st h;
    view-del_self = λ k st. put_self k _ st;
    view-del_ne = λ k j st h. put_ne k j _ st h;
    view-incr_self = λ now k st. put_self k _ st;
    view-incr_ne = λ now k j st h. put_ne k j _ st h;
    view-expire_self = λ now k d st. put_self k _ st;
    view-expire_ne = λ now k j d st h. put_ne k j _ st h;
  }
