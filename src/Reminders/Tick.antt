-- ===== src/Reminders/Tick.antt =====
-- One tick of the reminders package, from the job event to the published reminders.
use codegen_product_kit.Base.{
  ℕ, ◌≡◌, refl, true, false, some, List, [], ◌∷◌, ◌++◌, arith, All, All-map, All-map₂, everywhere,
  All-of_map, String, str_eq, Option-cases, inl, inr, ◌∙◌,
}
use codegen_product_kit.Base.Sorting.{any, any-sort_by}
use codegen_product_kit.Jobs.{accepted}
use codegen_product_kit.Reminders.{
  Reminder, Emission, Tables, is_due, is_due_at, is_unconfirmed, read_pending, pending_rows,
  emitted_before, World, Outside, due_event_id, transition_due, handle_job_fired,
}
use codegen_product_kit.Reminders.Invariant.{emission_of, agrees, IsConsistent, DistinctEvents}
use codegen_product_kit.Reminders.Transition.{due_or_same, transition_due_lem}
use codegen_product_kit.Reminders.Emit.{
  is_row, InOutbox, pending_rows_complete, emitted_by, emit_pending_lem, read_pending-published,
}

outbox_of :
    (i : ℕ) (rs : List Reminder) (rows : List _) (es : List Emission) {e : Emission}
    → All (InOutbox rs rows) es
    → emission_of i es ≡ some e
    → is_unconfirmed e ≡ true
    → any (is_row i) rows ≡ true
outbox_of i rs rows [] k h u = cc
outbox_of i rs rows (x ∷ es) {e} k h u = ground (arith, outbox_of i rs rows es {e = e} k.1, k.0)

-- Nothing is left to do for a reminder at an instant.
abbrev pub IsServed : ℕ → Reminder → Type 0
IsServed at r = (is_due_at at r ≡ false) × (is_due r.state ≡ false)

outbox_complete :
    (event_id : ℕ → ℕ) (db : Tables)
    → IsConsistent event_id db
    → All (InOutbox db.reminders (read_pending db)) db.emissions
unfolding read_pending
outbox_complete event_id db c =
    All-map _ _
      (λ e k u.
        any-sort_by emitted_before (is_row e.reminder_id) (pending_rows db.reminders db.emissions)
        ∙ k u)
      db.emissions (pending_rows_complete event_id db.reminders db.emissions c.owned)

published_row :
    (clock : ℕ → ℕ) (at : ℕ) (db : Tables) (r : Reminder)
    → All (InOutbox db.reminders (read_pending db)) db.emissions
    → is_due_at at r ≡ false
    → agrees r.state (emission_of r.id db.emissions) ≡ true
    → IsServed at (emitted_by clock (read_pending db) r)
published_row clock at db r k n h = elim (Option-cases (emission_of r.id db.emissions)) [
  | inl e ↦ (ground arith, ground arith)
  | inr (x, e) ↦
      let hit = outbox_of r.id db.reminders (read_pending db) db.emissions {e = x} k e in
      (ground arith, ground arith)
]

due_or_same-served : (at : ℕ) (r : Reminder) → is_due_at at (due_or_same at r) ≡ false
due_or_same-served at r = ground arith

-- A tick at an instant, on consistent tables no two of whose reminders share an event id, and with a
-- stream that accepts every event, returns and serves every reminder: none that was due by then is still scheduled, none is left
-- due, the stream has gained exactly what was pending after the transition, in order, and nothing is
-- pending any more. A job of another name changes nothing.
pub handle_job_fired_lem :
    (uuid5 : String → ℕ) (uuid_text : ℕ → String) (o : Outside) (name : String) (at : ℕ) (w : World)
    → DistinctEvents (due_event_id uuid5 uuid_text) w.tables.reminders
    → ((i : ℕ) → o.publish i ≡ accepted)
    → IsConsistent (due_event_id uuid5 uuid_text) w.tables
    → let (returned, w') =
        handle_job_fired uuid5 uuid_text o (some (record { name = name; at = some at })) w in
      (str_eq name "reminders.tick" ≡ false → (returned ≡ true) × (w' ≡ w))
      × (str_eq name "reminders.tick" ≡ true
          → (returned ≡ true)
            × All (IsServed at) w'.tables.reminders
            × ((db : Tables) × (transition_due uuid5 uuid_text at w.tables ≡ some db)
                × (w'.stream ≡ w.stream ++ read_pending db))
            × (read_pending w'.tables ≡ []))
unfolding handle_job_fired
handle_job_fired_lem uuid5 uuid_text o name at w inj h c =
    let (db, e, rs, es, k) = transition_due_lem uuid5 uuid_text at w.tables inj c in
    (
      λ n. rw n (refl, refl),
      λ y.
          rw (y, e)
            (rw (emit_pending_lem o (record w { tables = db }) h) (
              refl,
              All-of_map _ (emitted_by o.clock (read_pending db)) db.reminders (
                  All-map₂ _ _ _
                    (λ r n a. published_row o.clock at db r (outbox_complete _ db k) n a)
                    db.reminders
                    (rw rs (
                      All-of_map _ (due_or_same at) w.tables.reminders
                        (everywhere _ (λ r. due_or_same-served at r) w.tables.reminders)))
                    k.agree),
              (db, refl, refl),
              read_pending-published (due_event_id uuid5 uuid_text) o (record w { tables = db }) k,
            )),
    )
