-- ===== src/Reminders/Emit.antt =====
-- `emit_pending` publishes what the outbox holds, and confirms it row by row.
use codegen_product_kit.Base.{
  ℕ, ◌≡◌, refl, Bool, true, false, none, some, List, [], ◌∷◌, ◌++◌, map, arith, ap₂, if◌then◌else◌,
  ◌==◌, All, map_same, All-map, All-of_map, Bool-cases, Option-cases, inl, inr, sym, ◌∙◌,
}
use mathlib.Core.List.{append_assoc, append-nil}
use codegen_product_kit.Base.Sorting.{any, sort_by, any-sort_by}
use codegen_product_kit.Jobs.{Publish, accepted, refused, unacknowledged}
use codegen_product_kit.Reminders.{
  Reminder, Emission, Tables, has_id, is_for, is_unconfirmed, Pending, find_reminder, pending_rows,
  emitted_before, read_pending, confirm_row, emit_row, confirm_emission, World, Outside, emit_rows,
  emit_pending,
}
use codegen_product_kit.Reminders.Invariant.{
  emission_of, agrees, HasReminder, IsConsistent, map-IsUnique, HasReminder-map,
}

-- The row of a reminder.
abbrev pub is_row : ℕ → Pending → Bool
is_row i p = p.reminder_id == i

emission_of-confirm :
    (j i now : ℕ) (es : List Emission)
    → emission_of j (map (confirm_row i now) es)
      ≡ elim (emission_of j es) [ none ↦ none | some e ↦ some (confirm_row i now e) ]
emission_of-confirm j i now [] = refl
emission_of-confirm j i now (e ∷ es) = ground (arith, emission_of-confirm j i now es)

emission_of-id :
    (j : ℕ) (es : List Emission) {e : Emission} → emission_of j es ≡ some e → e.reminder_id ≡ j
emission_of-id j [] h = cc
emission_of-id j (x ∷ es) {e} h = ground (arith, emission_of-id j es {e = e})

confirm-agrees :
    (i now : ℕ) (es : List Emission) (r : Reminder)
    → agrees r.state (emission_of r.id es) ≡ true
    → agrees
        (emit_row i now r).state
        (emission_of (emit_row i now r).id (map (confirm_row i now) es))
      ≡ true
confirm-agrees i now es r h = elim (Option-cases (emission_of r.id es)) [
  | inl e ↦ ground (arith, emission_of-confirm r.id i now es)
  | inr (x, e) ↦ ground (arith, emission_of-confirm r.id i now es, emission_of-id r.id es {e = x} e)
]

HasReminder-confirm :
    (event_id : ℕ → ℕ) (i now : ℕ) (rs : List Reminder) (es : List Emission)
    → HasReminder event_id rs es
    → HasReminder event_id rs (map (confirm_row i now) es)
HasReminder-confirm event_id i now rs es h =
    All-of_map _ (confirm_row i now) es (All-map _ _ (λ e k. confirmed e k) es h)
  where
    confirmed :
        (e : Emission)
        → (any (has_id e.reminder_id) rs ≡ true) × (e.event_id ≡ event_id e.reminder_id)
        → let e' = confirm_row i now e in
          (any (has_id e'.reminder_id) rs ≡ true) × (e'.event_id ≡ event_id e'.reminder_id)
    confirmed e k = ground arith

-- To confirm an emission keeps the tables consistent.
pub confirm_emission-IsConsistent :
    (event_id : ℕ → ℕ) (i now : ℕ) (db : Tables)
    → IsConsistent event_id db
    → IsConsistent event_id (confirm_emission i now db)
unfolding confirm_emission
confirm_emission-IsConsistent event_id i now db c = record {
  unique = map-IsUnique (emit_row i now) (λ r. ground arith) db.reminders c.unique;
  agree =
      All-of_map _ (emit_row i now) db.reminders
        (All-map _ _ (λ r h. confirm-agrees i now db.emissions r h) db.reminders c.agree);
  owned =
      HasReminder-map event_id (emit_row i now) (λ r. ground arith) db.reminders _
        (HasReminder-confirm event_id i now db.reminders db.emissions c.owned);
}

emit_rows-IsConsistent :
    (event_id : ℕ → ℕ) (o : Outside) (rows : List Pending) (w : World)
    → IsConsistent event_id w.tables
    → IsConsistent event_id (emit_rows o rows w).1.tables
unfolding emit_rows
emit_rows-IsConsistent event_id o [] w c = c
emit_rows-IsConsistent event_id o (row ∷ rows) w c = by_outcome (o.publish row.reminder_id) (
    emit_rows-IsConsistent event_id o rows _
      (confirm_emission-IsConsistent event_id row.reminder_id (o.clock row.reminder_id) w.tables c))
  where
    by_outcome :
        (p : Publish)
        → IsConsistent event_id
            (emit_rows o rows (record {
              tables = confirm_emission row.reminder_id (o.clock row.reminder_id) w.tables;
              stream = w.stream ++ row ∷ [];
            })).1.tables
        → let y : Bool × World = elim p [
          | accepted ↦ emit_rows o rows (record {
            tables = confirm_emission row.reminder_id (o.clock row.reminder_id) w.tables;
            stream = w.stream ++ row ∷ [];
          })
          | refused ↦ (false, w)
          | unacknowledged ↦ (false, record w { stream = w.stream ++ row ∷ [] })
        ] in
          IsConsistent event_id y.1.tables
    by_outcome accepted k = k
    by_outcome refused k = c
    by_outcome unacknowledged k = c

-- Whatever the stream does with each event, `emit_pending` keeps the tables consistent.
pub emit_pending-IsConsistent :
    (event_id : ℕ → ℕ) (o : Outside) (w : World)
    → IsConsistent event_id w.tables
    → IsConsistent event_id (emit_pending o w).1.tables
unfolding emit_pending
emit_pending-IsConsistent event_id o w c =
    emit_rows-IsConsistent event_id o (read_pending w.tables) w c

abbrev pub emitted_by : (ℕ → ℕ) → List Pending → Reminder → Reminder
emitted_by clock rows r = if any (is_row r.id) rows then emit_row r.id (clock r.id) r else r

abbrev pub confirmed_by : (ℕ → ℕ) → List Pending → Emission → Emission
confirmed_by clock rows e =
    if any (is_row e.reminder_id) rows then confirm_row e.reminder_id (clock e.reminder_id) e else e

map-emitted_by :
    (clock : ℕ → ℕ) (row : Pending) (rows : List Pending) (rs : List Reminder)
    → map (emitted_by clock rows) (map (emit_row row.reminder_id (clock row.reminder_id)) rs)
      ≡ map (emitted_by clock (row ∷ rows)) rs
map-emitted_by clock row rows [] = refl
map-emitted_by clock row rows (r ∷ rs) = ap₂ ◌∷◌ (ground arith) (map-emitted_by clock row rows rs)

map-confirmed_by :
    (clock : ℕ → ℕ) (row : Pending) (rows : List Pending) (es : List Emission)
    → map (confirmed_by clock rows) (map (confirm_row row.reminder_id (clock row.reminder_id)) es)
      ≡ map (confirmed_by clock (row ∷ rows)) es
map-confirmed_by clock row rows [] = refl
map-confirmed_by clock row rows (e ∷ es) =
    ap₂ ◌∷◌ (ground arith) (map-confirmed_by clock row rows es)

-- With every publication accepted the loop publishes each row and confirms it.
emit_rows_lem :
    (o : Outside) (rows : List Pending) (w : World)
    → ((i : ℕ) → o.publish i ≡ accepted)
    → emit_rows o rows w ≡ (
      true,
      record {
        tables = record {
          reminders = map (emitted_by o.clock rows) w.tables.reminders;
          emissions = map (confirmed_by o.clock rows) w.tables.emissions;
        };
        stream = w.stream ++ rows;
      },
    )
unfolding emit_rows
emit_rows_lem o [] w h = λ i. (
  true,
  record {
    tables = record {
      reminders = sym (map_same (emitted_by o.clock []) (λ r. refl) w.tables.reminders) i;
      emissions = sym (map_same (confirmed_by o.clock []) (λ e. refl) w.tables.emissions) i;
    };
    stream = sym (append-nil w.stream) i;
  },
)
emit_rows_lem o (row ∷ rows) w h =
    let t = confirm_emission row.reminder_id (o.clock row.reminder_id) w.tables in
    let ih = emit_rows_lem o rows (record { tables = t; stream = w.stream ++ row ∷ [] }) h in
    rw (h row.reminder_id, emit_rows)
      (ih ∙ λ i. (
        true,
        record {
          tables = record {
            reminders = map-emitted_by o.clock row rows w.tables.reminders i;
            emissions = map-confirmed_by o.clock row rows w.tables.emissions i;
          };
          stream = append_assoc w.stream (row ∷ []) rows i;
        },
      ))

-- An unconfirmed emission of a reminder that is there stands in the outbox.
find_reminder-some :
    (i : ℕ) (rs : List Reminder)
    → any (has_id i) rs ≡ true
    → (r : Reminder) × (find_reminder i rs ≡ some r) × (r.id ≡ i)
unfolding find_reminder
find_reminder-some i [] h = cc
find_reminder-some i (r ∷ rs) h = elim (Bool-cases (r.id == i)) [
  | inl y ↦ (r, ground arith, ground arith)
  | inr n ↦ let (x, e, k) = find_reminder-some i rs (ground arith) in (x, ground arith, k)
]

pending_rows_none :
    (i : ℕ) (rs : List Reminder) (es : List Emission)
    → any (is_for i) es ≡ false
    → any (is_row i) (pending_rows rs es) ≡ false
unfolding pending_rows
pending_rows_none i rs [] h = refl
pending_rows_none i rs (e ∷ es) h = ground (arith, pending_rows_none i rs es)

abbrev pub InOutbox : List Reminder → List Pending → Emission → Type 0
InOutbox rs rows e = is_unconfirmed e ≡ true → any (is_row e.reminder_id) rows ≡ true

pending_rows-more :
    (rs : List Reminder) (e : Emission) (es : List Emission) (i : ℕ)
    → any (is_row i) (pending_rows rs es) ≡ true
    → any (is_row i) (pending_rows rs (e ∷ es)) ≡ true
unfolding pending_rows
pending_rows-more rs e es i h = ground arith

pub pending_rows_complete :
    (event_id : ℕ → ℕ) (rs : List Reminder) (es : List Emission)
    → HasReminder event_id rs es
    → All (InOutbox rs (pending_rows rs es)) es
unfolding pending_rows
pending_rows_complete event_id rs [] h = tt
pending_rows_complete event_id rs (e ∷ es) h =
    let (r, found, same) = find_reminder-some e.reminder_id rs h.0.0 in
    (
      λ u. rw (u, found) (ground arith),
      All-map _ _ (λ x k u. pending_rows-more rs e es x.reminder_id (k u)) es
          (pending_rows_complete event_id rs es h.1),
    )

-- Once every emission is confirmed the outbox is empty.
pending_rows_confirmed :
    (rs : List Reminder) (es : List Emission)
    → All (λ e. is_unconfirmed e ≡ false) es
    → pending_rows rs es ≡ []
unfolding pending_rows
pending_rows_confirmed rs [] h = refl
pending_rows_confirmed rs (e ∷ es) h = rw h.0 (pending_rows_confirmed rs es h.1)

pending_rows-map :
    (event_id : ℕ → ℕ) (rs rs' : List Reminder) (es : List Emission) (clock : ℕ → ℕ)
    → HasReminder event_id rs es
    → pending_rows rs' (map (confirmed_by clock (sort_by emitted_before (pending_rows rs es))) es)
      ≡ []
pending_rows-map event_id rs rs' es clock h =
    let rows = sort_by emitted_before (pending_rows rs es) in
    pending_rows_confirmed rs' (map (confirmed_by clock rows) es) (
      All-of_map _ (confirmed_by clock rows) es (
        All-map _ _
          (λ e k.
            confirmed e
              (λ u. any-sort_by emitted_before (is_row e.reminder_id) (pending_rows rs es) ∙ k u))
          es (pending_rows_complete event_id rs es h)))
  where
    confirmed :
        (e : Emission)
        → InOutbox rs (sort_by emitted_before (pending_rows rs es)) e
        → is_unconfirmed (confirmed_by clock (sort_by emitted_before (pending_rows rs es)) e)
          ≡ false
    confirmed e k = ground arith

-- The world after every pending row was published and confirmed.
abbrev pub published : Outside → World → World
published o w = record {
  tables = record {
    reminders = map (emitted_by o.clock (read_pending w.tables)) w.tables.reminders;
    emissions = map (confirmed_by o.clock (read_pending w.tables)) w.tables.emissions;
  };
  stream = w.stream ++ read_pending w.tables;
}

pub emit_pending_lem :
    (o : Outside) (w : World)
    → ((i : ℕ) → o.publish i ≡ accepted)
    → emit_pending o w ≡ (true, published o w)
unfolding emit_pending
emit_pending_lem o w h = emit_rows_lem o (read_pending w.tables) w h

pub read_pending-published :
    (event_id : ℕ → ℕ) (o : Outside) (w : World)
    → IsConsistent event_id w.tables
    → read_pending (published o w).tables ≡ []
unfolding read_pending sort_by
read_pending-published event_id o w c =
    rw
      (pending_rows-map event_id w.tables.reminders
        (map (emitted_by o.clock (read_pending w.tables)) w.tables.reminders) w.tables.emissions
        o.clock c.owned)
      refl

emit_nothing : (o : Outside) (w : World) → read_pending w.tables ≡ [] → emit_pending o w ≡ (true, w)
unfolding emit_pending emit_rows
emit_nothing o w h = rw (h, emit_rows) refl

-- If the stream accepts every event, `emit_pending` on consistent tables returns, publishes exactly
-- the pending rows in their order, and leaves nothing pending: a second call publishes nothing.
pub emit_pending_accepted :
    (event_id : ℕ → ℕ) (o : Outside) (w : World)
    → ((i : ℕ) → o.publish i ≡ accepted)
    → IsConsistent event_id w.tables
    → let (returned, w') = emit_pending o w in
      (returned ≡ true)
      × (w'.stream ≡ w.stream ++ read_pending w.tables)
      × (read_pending w'.tables ≡ [])
      × (emit_pending o w' ≡ (true, w'))
emit_pending_accepted event_id o w h c =
    let nothing = read_pending-published event_id o w c in
    rw (emit_pending_lem o w h) (refl, refl, nothing, emit_nothing o (published o w) nothing)
