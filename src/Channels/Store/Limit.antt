-- ===== src/Channels/Store/Limit.antt =====
-- The bound on the channels of all users together.
use codegen_product_kit.Base.{
  ℕ, ◌+◌, ◌≤◌, ◌≡◌, refl, String, Bool, true, false, ◌||◌, ◌&&◌, not, Option, none, some, List, [],
  ◌∷◌, ◌++◌, if◌then◌else◌, str_eq, eq_iff, leb, arith, length, is_some, Bool-cases, inl, inr,
  same_pair_iff,
}
use codegen_product_kit.Base.Dict.{Dict, lookup, insert, lookup-insert}
use codegen_product_kit.Base.Sorting.{any, select}
use codegen_product_kit.Channels.Store.{
  Subscription, Tables, add_rows, row_of, union, is_subscription, add_subscription,
  insert_subscription, insert_all, initialize, add, remove, channel_limit,
}

-- The channels of the rows that are not known already, each counted once.
abbrev fresh : List Subscription → (String → Bool) → ℕ
fresh [] h = 0
fresh (s ∷ l) h = (if h s.channel then 0 else 1) + fresh l (λ c. h c || str_eq s.channel c)

length-insert :
    {V : Type 0} (k : String) (v : V) (d : Dict V)
    → length (insert k v d) ≡ length d + (if is_some (lookup k d) then 0 else 1)
unfolding lookup insert
length-insert k v [] = omega arith
length-insert k v ((j, w) ∷ d) = ground (arith, length-insert k v d, eq_iff j k)

fresh-ext :
    (l : List Subscription) (h k : String → Bool)
    → ((c : String) → h c ≡ k c)
    → fresh l h ≡ fresh l k
fresh-ext [] h k e = refl
fresh-ext (s ∷ l) h k e = ground (
  arith,
  e s.channel,
  fresh-ext l (λ c. h c || str_eq s.channel c) (λ c. k c || str_eq s.channel c)
      (λ c. ground (arith, e c)),
)

length-add_rows :
    (l : List Subscription) (d : Dict (Dict ℕ))
    → length (add_rows l d) ≡ length d + fresh l (λ c. is_some (lookup c d))
unfolding add_rows
length-add_rows [] d = omega arith
length-add_rows (s ∷ l) d = omega (
  arith,
  length-add_rows l (insert s.channel (row_of s d) d),
  length-insert s.channel (row_of s d) d,
  fresh-ext l (λ c. is_some (lookup c (insert s.channel (row_of s d) d)))
      (λ c. is_some (lookup c d) || str_eq s.channel c)
      (λ c. ground (arith, lookup-insert s.channel c (row_of s d) d)),
)

-- Dropping rows of one channel adds no other.
fresh-select :
    (p : Subscription → Bool) (ch : String)
    → ((s : Subscription) → p s ≡ false → s.channel ≡ ch)
    → (l : List Subscription) (h k : String → Bool)
    → ((c : String) → str_eq ch c ≡ false → h c ≡ k c)
    → (h ch ≡ true → k ch ≡ true)
    → fresh (select p l) h ≤ fresh l k + (if k ch && not (h ch) then 1 else 0)
fresh-select p ch drops [] h k e i = omega arith
fresh-select p ch drops (s ∷ l) h k e i = elim (Bool-cases (p s)) [
  | inl a ↦ rw a (
      ground (
        arith,
        e s.channel,
        eq_iff ch s.channel,
        eq_iff s.channel ch,
        fresh-select p ch drops l (λ c. h c || str_eq s.channel c) (λ c. k c || str_eq s.channel c)
            (λ c n. ground (arith, e c n)) (λ y. ground arith),
      ))
  | inr a ↦ rw (a) (
      ground (
        arith,
        drops s a,
        eq_iff s.channel ch,
        fresh-select p ch drops l h (λ c. k c || str_eq s.channel c)
            (λ c n. ground (arith, e c n, drops s a)) (λ y. ground arith),
      ))
]

fresh-append :
    (l : List Subscription) (s : Subscription) (h : String → Bool)
    → fresh (l ++ s ∷ []) h
      ≡ fresh l h + (if h s.channel || any (λ t. str_eq t.channel s.channel) l then 0 else 1)
fresh-append [] s h = ground arith
fresh-append (t ∷ l) s h = ground (arith, fresh-append l s (λ c. h c || str_eq t.channel c))

length-union : (db : Tables) → length (union db) ≡ fresh db.subscriptions (λ c. false)
unfolding union lookup
length-union db = omega (arith, length-add_rows db.subscriptions [])

lookup-add_rows :
    (c : String) (l : List Subscription) (d : Dict (Dict ℕ))
    → is_some (lookup c (add_rows l d)) ≡ (is_some (lookup c d) || any (λ s. str_eq s.channel c) l)
unfolding add_rows
lookup-add_rows c [] d = ground arith
lookup-add_rows c (s ∷ l) d = ground (
  arith,
  lookup-add_rows c l (insert s.channel (row_of s d) d),
  lookup-insert s.channel c (row_of s d) d,
)

-- The subscriptions of all users name at most 50 channels.
unfoldable pub IsBounded : Tables → Type 0
IsBounded db = length (union db) ≤ channel_limit

add-fresh :
    (s : Subscription) (l : List Subscription)
    → fresh (add_subscription s l) (λ c. false)
      ≤ fresh l (λ c. false) + (if any (λ t. str_eq t.channel s.channel) l then 0 else 1)
add-fresh s l = ground (arith, fresh-append l s (λ c. false))

-- A result that is an error or satisfies a predicate.
abbrev pub Kept : (Tables → Type 0) → Option Tables → Type 0
Kept P none = Unit
Kept P (some db) = P db

Kept-then :
    (P : Tables → Type 0) (f : Tables → Option Tables)
    → ((db : Tables) → P db → Kept P (f db))
    → (o : Option Tables) → Kept P o
    → Kept P (elim o [ none ↦ none | some db ↦ f db ])
Kept-then P f h none k = tt
Kept-then P f h (some db) k = h db k

insert_subscription-IsBounded :
    (now : ℕ) (u c : String) (db : Tables)
    → IsBounded db
    → Kept IsBounded (insert_subscription now u c db)
unfolding IsBounded insert_subscription lookup
insert_subscription-IsBounded now u c db b =
    let s : Subscription = record { user_ref = u; channel = c; subscribed_at = now } in
    let db' : Tables = record db { subscriptions = add_subscription s db.subscriptions } in
    let listed = lookup-add_rows c db.subscriptions [] in
    let after = length-union db' in
    let before = length-union db in
    let step = add-fresh s db.subscriptions in
    elim (Bool-cases (is_some (lookup c (union db)))) [
      | inl known ↦ rw known (ground arith)
      | inr new ↦ elim (Bool-cases (leb channel_limit (length (union db)))) [
        | inl full ↦ rw (new, full) tt
        | inr free ↦ rw (new, free) (ground arith)
      ]
    ]

insert_all-IsBounded :
    (now : ℕ) (u : String) (cs : List String) (db : Tables)
    → IsBounded db
    → Kept IsBounded (insert_all now u cs db)
unfolding insert_all
insert_all-IsBounded now u [] db b = b
insert_all-IsBounded now u (c ∷ cs) db b =
    Kept-then IsBounded (insert_all now u cs) (insert_all-IsBounded now u cs)
      (insert_subscription now u c db) (insert_subscription-IsBounded now u c db b)

initialize-IsBounded :
    (now : ℕ) (u : String) (db : Tables) → IsBounded db → Kept IsBounded (initialize now u db)
unfolding initialize IsBounded
initialize-IsBounded now u db b = elim (Bool-cases (any (λ v. str_eq v u) db.users)) [
  | inl known ↦ rw known b
  | inr new ↦
      rw new
        (insert_all-IsBounded now u db.starting_list (record db { users = db.users ++ u ∷ [] }) b)
]

remove_rows-IsBounded :
    (u c : String) (db : Tables)
    → IsBounded db
    → IsBounded
        (record db { subscriptions = select (λ s. not (is_subscription u c s)) db.subscriptions })
unfolding IsBounded
remove_rows-IsBounded u c db b =
    let after =
      length-union (record db {
        subscriptions = select (λ s. not (is_subscription u c s)) db.subscriptions;
      }) in
    let before = length-union db in
    let step =
      fresh-select (λ s. not (is_subscription u c s)) c
        (λ s d. ground (arith, same_pair_iff s.user_ref s.channel u c)) db.subscriptions
        (λ _. false) (λ _. false) (λ _ _. refl) (λ f. f) in
    omega arith

-- Adding a channel and removing one, with the starting channels of a new user, keep the channels of all
-- users together at 50 at most.
pub channels-IsBounded :
    (now : ℕ) (u c : String) (db : Tables)
    → IsBounded db
    → Kept IsBounded (add now u c db) × Kept IsBounded (remove now u c db)
unfolding add remove
channels-IsBounded now u c db b =
    let k = initialize-IsBounded now u db b in
    (
      Kept-then IsBounded (insert_subscription now u c) (insert_subscription-IsBounded now u c)
          (initialize now u db) k,
      Kept-then IsBounded _ (remove_rows-IsBounded u c) (initialize now u db) k,
    )
