-- ===== src/Reminders/Transition.antt =====
-- `transition_due` marks exactly the reminders that are due, and gives each its emission.
use codegen_product_kit.Base.{
  ℕ, ◌≡◌, refl, true, false, none, some, List, [], ◌∷◌, ◌++◌, map, arith, if◌then◌else◌, ◌==◌, All,
  All-append, map-eq_of_All, All-map, All-map₂, All-of_map, String, Bool-cases, Option-cases, inl,
  inr, ap, sym, ◌∙◌,
}
use codegen_product_kit.Base.Sorting.{
  any, select, sort_by, any-sort_by, any-select, All-sort_by, All-select,
}
use codegen_product_kit.Reminders.{
  Reminder, Emission, Tables, has_id, is_for, make_due, update_due, is_due_at, due_event_id,
  insert_emission, transition_rows, transition_due, due_before,
}
use codegen_product_kit.Reminders.Invariant.{
  DistinctEvents, emission_of, HasReminder, IsConsistent, map-IsUnique, HasReminder-map, any-is_for,
  any-is_for-some, emission_of-append, selected,
}

-- What a transition at an instant does to one reminder.
abbrev pub due_or_same : ℕ → Reminder → Reminder
due_or_same at r = if is_due_at at r then make_due at r else r

module _ (uuid5 : String → ℕ) (uuid_text : ℕ → String) where
  abbrev event_id : ℕ → ℕ
  event_id = due_event_id uuid5 uuid_text

  abbrev pub new_emission : ℕ → ℕ → Emission
  new_emission at i = record {
    reminder_id = i;
    event_id = event_id i;
    occurred_at = at;
    emitted_at = none;
  }

  -- No other emission stands in the way, because no two reminders of the table share an event id.
  no_clash :
      (rs : List Reminder) (i : ℕ) (es : List Emission)
      → DistinctEvents event_id rs
      → any (has_id i) rs ≡ true
      → HasReminder event_id rs es
      → any (is_for i) es ≡ false
      → any (λ e. e.event_id == event_id i) es ≡ false
  no_clash rs i [] inj m o n = refl
  no_clash rs i (e ∷ es) inj m o n =
      ground (arith, inj i e.reminder_id m o.0.0, no_clash rs i es inj m o.1, o.0.1)

  -- The emissions after the insert for one row.
  abbrev with_emission : ℕ → ℕ → List Emission → List Emission
  with_emission at i es = if any (is_for i) es then es else es ++ new_emission at i ∷ []

  insert_emission_lem :
      (rs : List Reminder) (at i : ℕ) (es : List Emission)
      → DistinctEvents event_id rs
      → any (has_id i) rs ≡ true
      → HasReminder event_id rs es
      → insert_emission uuid5 uuid_text at i es ≡ some (with_emission at i es)
  unfolding insert_emission
  insert_emission_lem rs at i es inj m o = ground (arith, no_clash rs i es inj m o)

  with_emission-HasReminder :
      (at : ℕ) (rs : List Reminder) (i : ℕ) (es : List Emission)
      → any (has_id i) rs ≡ true
      → HasReminder event_id rs es
      → HasReminder event_id rs (with_emission at i es)
  with_emission-HasReminder at rs i es m o = elim (Bool-cases (any (is_for i) es)) [
    | inl y ↦ rw y o
    | inr n ↦ rw n (All-append _ es (new_emission at i ∷ []) o ((m, refl), tt))
  ]

  abbrev marked : ℕ → List Reminder → Reminder → Reminder
  marked at rows r = if any (has_id r.id) rows then make_due at r else r

  abbrev inserted : ℕ → List Reminder → List Emission → List Emission
  inserted at [] es = es
  inserted at (row ∷ rows) es = inserted at rows (with_emission at row.id es)

  map-marked :
      (at : ℕ) (row : Reminder) (rows : List Reminder) (rs : List Reminder)
      → map (marked at rows) (map (update_due at row.id) rs) ≡ map (marked at (row ∷ rows)) rs
  map-marked at row rows [] = refl
  map-marked at row rows (r ∷ rs) = ground (arith, map-marked at row rows rs)

  map-marked_none : (at : ℕ) (rs : List Reminder) → map (marked at []) rs ≡ rs
  map-marked_none at [] = refl
  map-marked_none at (r ∷ rs) = ap (◌∷◌ r) (map-marked_none at rs)

  transition_rows_lem :
      (rs : List Reminder) (at : ℕ) (rows : List Reminder) (db : Tables)
      → DistinctEvents event_id rs
      → All (λ r. any (has_id r.id) rs ≡ true) rows
      → HasReminder event_id rs db.emissions
      → transition_rows uuid5 uuid_text at rows db
        ≡ some (record {
          reminders = map (marked at rows) db.reminders;
          emissions = inserted at rows db.emissions;
        })
  unfolding transition_rows
  transition_rows_lem rs at [] db inj m o =
      ap (λ rs. some (record db { reminders = rs })) (sym (map-marked_none at db.reminders))
  transition_rows_lem rs at (row ∷ rows) db inj m o =
      rw (insert_emission_lem rs at row.id db.emissions inj m.0 o, transition_rows)
        (transition_rows_lem rs at rows
            (record {
              reminders = map (update_due at row.id) db.reminders;
              emissions = with_emission at row.id db.emissions;
            })
            inj m.1 (with_emission-HasReminder at rs row.id db.emissions m.0 o)
          ∙ ap
              (λ rs. some (record {
                reminders = rs;
                emissions = inserted at rows (with_emission at row.id db.emissions);
              }))
              (map-marked at row rows db.reminders))

  emission_of-inserted :
      (at i : ℕ) (rows : List Reminder) (es : List Emission)
      → emission_of i (inserted at rows es) ≡ elim (emission_of i es) [
        | some e ↦ some e
        | none ↦ if any (has_id i) rows then some (new_emission at i) else none
      ]
  emission_of-inserted at i [] es = ground arith
  emission_of-inserted at i (row ∷ rows) es =
      emission_of-inserted at i rows (with_emission at row.id es) ∙ step
    where
      step :
          elim (emission_of i (with_emission at row.id es)) [
            | some e ↦ some e
            | none ↦ if any (has_id i) rows then some (new_emission at i) else none
          ]
          ≡ elim (emission_of i es) [
            | some e ↦ some e
            | none ↦ if any (has_id i) (row ∷ rows) then some (new_emission at i) else none
          ]
      step = elim (Option-cases (emission_of row.id es)) [
        | inl e ↦
            ground (arith, emission_of-append i es (new_emission at row.id), any-is_for row.id es e)
        | inr (x, e) ↦ ground (arith, any-is_for-some row.id x es e)
      ]

  inserted-HasReminder :
      (at : ℕ) (rs rows : List Reminder) (es : List Emission)
      → All (λ r. any (has_id r.id) rs ≡ true) rows
      → HasReminder event_id rs es
      → HasReminder event_id rs (inserted at rows es)
  inserted-HasReminder at rs [] es m o = o
  inserted-HasReminder at rs (row ∷ rows) es m o =
      inserted-HasReminder at rs rows (with_emission at row.id es) m.1
        (with_emission-HasReminder at rs row.id es m.0 o)

  members : (rs : List Reminder) → All (λ r. any (has_id r.id) rs ≡ true) rs
  members [] = tt
  members (x ∷ rs) = (ground arith, All-map _ _ (λ r h. ground arith) rs (members rs))

  -- On consistent tables, and if no two reminders of the table share an event id, `transition_due` succeeds: exactly
  -- the scheduled reminders whose time has come become due, each of them has a new unconfirmed
  -- emission, every emission that was there stays as it was, and the tables stay consistent.
  pub transition_due_lem :
      (at : ℕ) (db : Tables)
      → DistinctEvents event_id db.reminders
      → IsConsistent event_id db
      → (db' : Tables) × (transition_due uuid5 uuid_text at db ≡ some db')
        × (db'.reminders ≡ map (due_or_same at) db.reminders)
        × All
            (λ r. emission_of r.id db'.emissions ≡ (
              if is_due_at at r
              then some (new_emission at r.id)
              else emission_of r.id db.emissions))
            db.reminders
        × IsConsistent event_id db'
  unfolding transition_due
  transition_due_lem at db inj c =
      let rows = sort_by due_before (select (is_due_at at) db.reminders) in
      let es = inserted at rows db.emissions in
      let hit : All (λ r. any (has_id r.id) rows ≡ is_due_at at r) db.reminders =
        All-map _ _
          (λ r h.
            any-sort_by due_before (has_id r.id) (select (is_due_at at) db.reminders)
            ∙ any-select (has_id r.id) (is_due_at at) db.reminders
            ∙ h)
          db.reminders (selected (is_due_at at) db.reminders c.unique) in
      let rs : map (marked at rows) db.reminders ≡ map (due_or_same at) db.reminders =
        map-eq_of_All (marked at rows) (due_or_same at) db.reminders
          (All-map _ _ (λ r h. rw h refl) db.reminders hit) in
      let emissions =
        All-map₂ _ _
          (λ r. emission_of r.id es ≡ (
            if is_due_at at r then some (new_emission at r.id) else emission_of r.id db.emissions))
          (λ r h a. ground (arith, emission_of-inserted at r.id rows db.emissions)) db.reminders hit
          c.agree in
      let known : All (λ r. any (has_id r.id) db.reminders ≡ true) rows =
        All-sort_by _ due_before _
          (All-select _ (is_due_at at) db.reminders (members db.reminders)) in
      (
        record { reminders = map (due_or_same at) db.reminders; emissions = es },
        transition_rows_lem db.reminders at rows db inj known c.owned
            ∙ ap (λ l. some (record { reminders = l; emissions = es })) rs,
        refl,
        emissions,
        record {
          unique = map-IsUnique (due_or_same at) (λ r. ground arith) db.reminders c.unique;
          agree =
              All-of_map _ (due_or_same at) db.reminders
                (All-map₂ _ _ _ (λ r h a. ground arith) db.reminders emissions c.agree);
          owned =
              HasReminder-map event_id (due_or_same at) (λ r. ground arith) db.reminders es
                (inserted-HasReminder at db.reminders rows db.emissions known c.owned);
        },
      )
