-- ===== src/Consumer/Once.antt =====
-- What `consume_once` promises over redeliveries.
use codegen_product_kit.Base.{
  ℕ, ◌+◌, ◌≤◌, ◌≡◌, refl, String, Bool, true, false, ◌&&◌, Option, none, some, List, [], ◌∷◌,
  if◌then◌else◌, same_pair, same_pair_iff, arith, Bool-cases, Option-cases, inl, inr,
}
use codegen_product_kit.Consumer.{EventConsumption, Store, is_consumed, consume_once, deliver}

-- A delivery of an event to a group, with what its handler does to the tables, and whether the caller
-- comes to its commit after `consume_once` or crashes or raises before.
pub record Delivery (S : Type 0) : Type 0 where
  pub group : String
  pub event : String
  pub effect : S → Option S
  pub commits : Bool

now_consumed :
    (g e : String) (ms : List EventConsumption)
    → is_consumed g e (record { consumer_group = g; event_id = e } ∷ ms) ≡ true
unfolding is_consumed
now_consumed g e ms = ground (arith, same_pair_iff g e g e)

module _ {S : Type 0} where
  abbrev pub deliver_one : Delivery S → Store S → Store S
  deliver_one d db = deliver d.commits d.group d.event d.effect db

  pub deliveries : List (Delivery S) → Store S → Store S
  deliveries [] db = db
  deliveries (d ∷ l) db = deliveries l (deliver_one d db)

  -- The effect of the delivery ran, and the transaction that holds it was committed.
  abbrev pub has_run : Option (Bool × Store S) → Bool
  has_run none = false
  has_run (some (ran, db)) = ran

  abbrev pub is_committed : Delivery S → Store S → Bool
  is_committed d db = d.commits && has_run (consume_once d.group d.event d.effect db)

  -- How many effects of the event were committed for the group over a sequence of deliveries.
  abbrev pub commits_of : String → String → List (Delivery S) → Store S → ℕ
  commits_of g e [] db = 0
  commits_of g e (d ∷ l) db =
      (if same_pair d.group d.event g e && is_committed d db then 1 else 0)
      + commits_of g e l (deliver_one d db)

  -- The tables after the committed effects alone, one after the other.
  abbrev after : S → Option S → S
  after s none = s
  after s (some s') = s'

  abbrev pub replayed : List (Delivery S) → Store S → S → S
  replayed [] db s = s
  replayed (d ∷ l) db s =
      replayed l (deliver_one d db) (if is_committed d db then after s (d.effect s) else s)

  abbrev pub marked : String → String → Store S → ℕ
  marked g e db = if is_consumed g e db.markers then 1 else 0

  commit_one :
      (d : Delivery S) (g e : String) (db : Store S)
      → (if same_pair d.group d.event g e && is_committed d db then 1 else 0) + marked g e db
        ≡ marked g e (deliver_one d db)
  unfolding deliver
  commit_one d g e db = elim (Bool-cases d.commits) [
    | inr k ↦ rw k (ground arith)
    | inl k ↦ elim (Bool-cases (is_consumed d.group d.event db.markers)) [
      | inl c ↦ rw (k, c) (ground arith)
      | inr c ↦ elim (Option-cases (d.effect db.tables)) [
        | inl n ↦ rw (k, c, n) (ground arith)
        | inr (s, f) ↦ rw (k, c, f) (ground (arith, same_pair_iff d.group d.event g e))
      ]
    ]
  ]

  replay_one :
      (d : Delivery S) (db : Store S)
      → (if is_committed d db then after db.tables (d.effect db.tables) else db.tables)
        ≡ (deliver_one d db).tables
  unfolding deliver
  replay_one d db = elim (Bool-cases d.commits) [
    | inr k ↦ rw k refl
    | inl k ↦ elim (Bool-cases (is_consumed d.group d.event db.markers)) [
      | inl c ↦ rw (k, c) refl
      | inr c ↦ elim (Option-cases (d.effect db.tables)) [
        | inl n ↦ rw (k, c, n) refl
        | inr (s, f) ↦ rw (k, c, f) refl
      ]
    ]
  ]

  replayed-deliveries :
      (l : List (Delivery S)) (db : Store S) → (deliveries l db).tables ≡ replayed l db db.tables
  unfolding deliveries
  replayed-deliveries [] db = refl
  replayed-deliveries (d ∷ l) db = rw (replay_one d db) (replayed-deliveries l (deliver_one d db))

  -- Over any deliveries, whatever their handlers do, and wherever the caller crashes before its commit: an
  -- effect of an event is committed for a group at most once, and not at all if the event is marked at
  -- the start; it is marked at the end exactly if one has been committed by then; and the tables are at
  -- the end what the committed effects make of them, so that one which was rolled back leaves no trace.
  pub commits_once :
      (g e : String) (l : List (Delivery S)) (db : Store S)
      → (commits_of g e l db ≤ 1)
        × (commits_of g e l db + marked g e db ≡ marked g e (deliveries l db))
        × ((deliveries l db).tables ≡ replayed l db db.tables)
  unfolding deliveries
  commits_once g e l db =
      (ground (arith, commits_marked l db), commits_marked l db, replayed-deliveries l db)
    where
      commits_marked :
          (l : List (Delivery S)) (db : Store S)
          → commits_of g e l db + marked g e db ≡ marked g e (deliveries l db)
      commits_marked [] db = ground arith
      commits_marked (d ∷ l) db =
          omega (arith, commit_one d g e db, commits_marked l (deliver_one d db))

  -- A delivery that is marked, whose handler raises or that is not committed changes nothing, so that it
  -- can be delivered again; another applies its effect and marks it, so that any later handler of it does
  -- not run and changes nothing.
  pub deliver_lem :
      (d : Delivery S) (db : Store S)
      → (is_consumed d.group d.event db.markers ≡ true → deliver_one d db ≡ db)
        × (d.effect db.tables ≡ none → deliver_one d db ≡ db)
        × (d.commits ≡ false → deliver_one d db ≡ db)
        × ((s : S)
            → d.commits ≡ true
            → is_consumed d.group d.event db.markers ≡ false
            → d.effect db.tables ≡ some s
            → ((deliver_one d db).tables ≡ s)
              × ((later : S → Option S)
                  → consume_once d.group d.event later (deliver_one d db)
                    ≡ some (false, deliver_one d db)))
  unfolding deliver
  deliver_lem d db = (
    λ c. elim (Bool-cases d.commits) [ inl k ↦ rw (k, c) refl | inr k ↦ rw k refl ],
    λ n. elim (Bool-cases d.commits) [
      | inl k ↦ elim (Bool-cases (is_consumed d.group d.event db.markers)) [
        | inl c ↦ rw (k, c) refl
        | inr c ↦ rw (k, c, n) refl
      ]
      | inr k ↦ rw k refl
    ],
    λ k. rw k refl,
    λ s k c f. rw (k, c, f) (refl, λ later. rw (now_consumed d.group d.event db.markers) refl),
  )
