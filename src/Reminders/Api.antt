-- ===== src/Reminders/Api.antt =====
-- The HTTP operations of a caller keep the tables consistent, and `cancel_reminder` on each branch.
use codegen_product_kit.Base.{
  ℕ, ◌≡◌, refl, true, none, some, List, [], ◌∷◌, ◌++◌, map, arith, All-map, All-append, All-of_map,
  String, str_eq, Bool-cases, Option-cases, inl, inr, ok, http_error, Option, Http, Bool, false,
  ◌&&◌, ◌==◌, if◌then◌else◌, ap, sym, ◌∙◌,
}
use text.Mathlib.TextEquality.{eq_iff}
use codegen_product_kit.Base.Sorting.{any, any-append}
use codegen_product_kit.Reminders.{
  Reminder, Emission, Tables, is_scheduled, has_id, create_reminder, cancel_reminder, owned, cancel,
  cancel_where, returning, refusal,
}
use codegen_product_kit.Reminders.Invariant.{
  IsUnique, emission_of, agrees, HasReminder, IsConsistent, map-IsUnique, HasReminder-map,
  emission_of-absent,
}

append-IsUnique :
    (rs : List Reminder) (r : Reminder)
    → any (has_id r.id) rs ≡ false
    → IsUnique rs
    → IsUnique (rs ++ r ∷ [])
append-IsUnique [] r n u = (refl, tt)
append-IsUnique (x ∷ rs) r n u =
    ground (arith, any-append (has_id x.id) rs (r ∷ []), append-IsUnique rs r)

HasReminder-append :
    (event_id : ℕ → ℕ) (rs : List Reminder) (r : Reminder) (es : List Emission)
    → HasReminder event_id rs es
    → HasReminder event_id (rs ++ r ∷ []) es
HasReminder-append event_id rs r [] h = tt
HasReminder-append event_id rs r (e ∷ es) h = (
  (ground (arith, any-append (has_id e.reminder_id) rs (r ∷ []), h.0.0), h.0.1),
  HasReminder-append event_id rs r es h.1,
)

-- Creating a reminder, also where it is refused, keeps the tables consistent.
pub create_reminder-IsConsistent :
    (event_id : ℕ → ℕ) (i now : ℕ) (user_ref text : String) (at : ℕ) (db : Tables)
    → IsConsistent event_id db
    → IsConsistent event_id (create_reminder i now user_ref text at db).1
unfolding create_reminder
create_reminder-IsConsistent event_id i now user_ref text at db c =
    elim (Bool-cases (str_eq text "")) [
      | inl y ↦ rw y c
      | inr n ↦ elim (Bool-cases (any (has_id i) db.reminders)) [
        | inl y ↦ rw (n, y) c
        | inr m ↦
            rw (n, m)
              (record {
                unique = append-IsUnique db.reminders _ m c.unique;
                agree = All-append _ db.reminders _ c.agree (
                  rw (emission_of-absent event_id i db.reminders db.emissions m c.owned) refl,
                  tt,
                );
                owned = HasReminder-append event_id db.reminders _ db.emissions c.owned;
              })
      ]
    ]

cancel_where-agrees :
    (now i : ℕ) (user_ref : String) (es : List Emission) (r : Reminder)
    → agrees r.state (emission_of r.id es) ≡ true
    → agrees
        (cancel_where now i user_ref r).state
        (emission_of (cancel_where now i user_ref r).id es)
      ≡ true
cancel_where-agrees now i user_ref es r h = ground arith

-- Cancelling a reminder, also where it is refused, keeps the tables consistent.
pub cancel_reminder-IsConsistent :
    (event_id : ℕ → ℕ) (now i : ℕ) (user_ref : String) (db : Tables)
    → IsConsistent event_id db
    → IsConsistent event_id (cancel_reminder now i user_ref db).1
unfolding cancel_reminder
cancel_reminder-IsConsistent event_id now i user_ref db c =
    by_rows (returning now i user_ref db.reminders) refl
  where
    updated :
        IsConsistent event_id
          (record db { reminders = map (cancel_where now i user_ref) db.reminders })
    updated = record {
      unique = map-IsUnique (cancel_where now i user_ref) (λ r. ground arith) db.reminders c.unique;
      agree = All-of_map _ (cancel_where now i user_ref) db.reminders (
          All-map _ _ (λ r h. cancel_where-agrees now i user_ref db.emissions r h) db.reminders
            c.agree);
      owned =
          HasReminder-map event_id (cancel_where now i user_ref) (λ r. ground arith) db.reminders
            db.emissions c.owned;
    }

    by_rows :
        (rows : List Reminder)
        → returning now i user_ref db.reminders ≡ rows
        → IsConsistent event_id (cancel_reminder now i user_ref db).1
    by_rows [] e = rw e c
    by_rows (row ∷ []) e = rw e updated
    by_rows (row ∷ other ∷ rows) e = rw e c

module _ (i : ℕ) (user_ref : String) where
  returning_foreign :
      (now : ℕ) (rs : List Reminder) → owned i user_ref rs ≡ none → returning now i user_ref rs ≡ []
  unfolding owned
  returning_foreign now [] e = refl
  returning_foreign now (x ∷ rs) e = ground (arith, returning_foreign now rs)

  returning_absent :
      (now : ℕ) (rs : List Reminder) → any (has_id i) rs ≡ false → returning now i user_ref rs ≡ []
  returning_absent now [] e = refl
  returning_absent now (x ∷ rs) e = ground (arith, returning_absent now rs)

  -- Under the primary key the UPDATE returns the caller's own row if that is scheduled, or nothing.
  returning_own :
      (now : ℕ) (rs : List Reminder) {r : Reminder}
      → IsUnique rs
      → owned i user_ref rs ≡ some r
      → returning now i user_ref rs ≡ (if is_scheduled r.state then cancel now r ∷ [] else [])
  unfolding owned
  returning_own now [] u e = cc
  returning_own now (x ∷ rs) {r} u e = elim (Bool-cases (x.id == i && str_eq x.user_ref user_ref)) [
    | inl y ↦ ground (arith, returning_absent now rs, u.0)
    | inr n ↦ ground (arith, returning_own now rs {r = r} u.1)
  ]

  owned-map_foreign :
      (now : ℕ) (rs : List Reminder)
      → owned i user_ref rs ≡ none
      → owned i user_ref (map (cancel_where now i user_ref) rs) ≡ none
  unfolding owned
  owned-map_foreign now [] e = refl
  owned-map_foreign now (x ∷ rs) e = ground (arith, owned-map_foreign now rs)

  owned-map_own :
      (now : ℕ) (rs : List Reminder) {r : Reminder}
      → owned i user_ref rs ≡ some r
      → owned i user_ref (map (cancel_where now i user_ref) rs)
        ≡ some (if is_scheduled r.state then cancel now r else r)
  unfolding owned
  owned-map_own now [] e = cc
  owned-map_own now (x ∷ rs) {r} e = ground (arith, owned-map_own now rs {r = r})

  -- The UPDATE touches the row of nobody else, and no other row of the caller.
  owned-map_other :
      (now j : ℕ) (v : String) (rs : List Reminder)
      → (j == i && str_eq v user_ref) ≡ false
      → owned j v (map (cancel_where now i user_ref) rs) ≡ owned j v rs
  unfolding owned
  owned-map_other now j v [] d = refl
  owned-map_other now j v (x ∷ rs) d = ground (
    arith,
    eq_iff x.user_ref v,
    eq_iff x.user_ref user_ref,
    eq_iff v user_ref,
    owned-map_other now j v rs,
  )

-- What a call of `cancel_reminder` makes of the row that a lookup finds, if that is the own one or not.
abbrev pub cancelled_or_same : ℕ → Bool → Option Reminder → Option Reminder
cancelled_or_same now is_own none = none
cancelled_or_same now is_own (some r) =
    some (if is_own && is_scheduled r.state then cancel now r else r)

abbrev pub reply_to : ℕ → Option Reminder → Http Reminder
reply_to now none = http_error 404
reply_to now (some r) = if is_scheduled r.state then ok (cancel now r) else http_error 409

module _ (i : ℕ) (user_ref : String) where
  abbrev pub is_own : ℕ → String → Bool
  is_own j v = j == i && str_eq v user_ref

  by_lookup :
      (now : ℕ) (rs rs' : List Reminder)
      → owned i user_ref rs' ≡ cancelled_or_same now true (owned i user_ref rs)
      → ((j : ℕ) (v : String) → is_own j v ≡ false → owned j v rs' ≡ owned j v rs)
      → (j : ℕ) (v : String) → owned j v rs' ≡ cancelled_or_same now (is_own j v) (owned j v rs)
  by_lookup now rs rs' own other j v = elim (Bool-cases (is_own j v)) [
    | inl y ↦ ground (arith, own, eq_iff v user_ref)
    | inr n ↦ rw n (other j v n ∙ same (owned j v rs))
  ]
    where
      same : (o : Option Reminder) → o ≡ cancelled_or_same now false o
      same none = refl
      same (some r) = refl

-- Under the primary key, `cancel_reminder` answers 404 for a reminder that the caller does not own,
-- just as for one that is not there; 409 for an own one that is no longer scheduled; and the cancelled
-- reminder for an own scheduled one. Whoever looks up whichever reminder afterwards finds what was
-- there before, save for that one, which is found cancelled. The emissions stay as they are, and a
-- second call answers 404 if the caller owns no such reminder, else 409, and changes nothing.
pub cancel_reminder_lem :
    (now later i : ℕ) (user_ref : String) (db : Tables)
    → IsUnique db.reminders
    → let (reply, db') = cancel_reminder now i user_ref db in
      (reply ≡ reply_to now (owned i user_ref db.reminders))
      × ((j : ℕ) (v : String)
          → owned j v db'.reminders
            ≡ cancelled_or_same now (is_own i user_ref j v) (owned j v db.reminders))
      × (db'.emissions ≡ db.emissions)
      × (cancel_reminder later i user_ref db' ≡ (refusal (owned i user_ref db.reminders), db'))
unfolding cancel_reminder
cancel_reminder_lem now later i user_ref db u =
    elim (Option-cases (owned i user_ref db.reminders)) [
      | inl e ↦
          rw
            (
              returning_foreign i user_ref now db.reminders e,
              returning_foreign i user_ref later db.reminders e,
            )
            (
              ap refusal (owned-map_foreign i user_ref now db.reminders e) ∙ rw e refl,
              by_lookup i user_ref now db.reminders db.reminders (rw e refl) (λ j v n. refl),
              refl,
              ap (λ o. (refusal o, db)) (owned-map_foreign i user_ref later db.reminders e ∙ sym e),
            )
      | inr (r, e) ↦ elim (Bool-cases (is_scheduled r.state)) [
        | inl y ↦
            let rs' = map (cancel_where now i user_ref) db.reminders in
            let own : owned i user_ref rs' ≡ some (cancel now r) =
              owned-map_own i user_ref now db.reminders {r = r} e ∙ rw y refl in
            let once : returning now i user_ref db.reminders ≡ cancel now r ∷ [] =
              returning_own i user_ref now db.reminders {r = r} u e ∙ rw y refl in
            let twice : returning later i user_ref rs' ≡ [] =
              returning_own i user_ref later rs' {r = cancel now r}
                (map-IsUnique (cancel_where now i user_ref) (λ r. ground arith) db.reminders u)
                own in
            let db' = record db { reminders = rs' } in
            rw once (
              rw (e, y) refl,
              by_lookup i user_ref now db.reminders rs' (rw e (own ∙ rw y refl))
                  (λ j v n. owned-map_other i user_ref now j v db.reminders n),
              refl,
              rw twice (
                  ap (λ o. (refusal o, db'))
                    (owned-map_own i user_ref later rs' {r = cancel now r} own)
                  ∙ ap (λ o. (refusal o, db')) (sym e)),
            )
        | inr n ↦
            let once : (at : ℕ) → returning at i user_ref db.reminders ≡ [] =
              λ at. returning_own i user_ref at db.reminders {r = r} u e ∙ rw n refl in
            let own : (at : ℕ)
                → owned i user_ref (map (cancel_where at i user_ref) db.reminders) ≡ some r =
              λ at. owned-map_own i user_ref at db.reminders {r = r} e ∙ rw n refl in
            rw (once now) (
              ap refusal (own now) ∙ rw (e, n) refl,
              by_lookup i user_ref now db.reminders db.reminders (rw e (rw n refl)) (λ j v n. refl),
              refl,
              rw (once later) (ap (λ o. (refusal o, db)) (own later ∙ sym e)),
            )
      ]
    ]
