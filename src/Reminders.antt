-- ===== src/Reminders.antt =====
-- The reminders package: packages/codegen-kit-reminders/codegen_kit_reminders/api.py, runtime.py and
-- identity.py, over its two tables. Instants are microseconds since the epoch; a UUID is the number
-- it stands for. Each `database.session()` block is one atomic step on the tables.
mod Invariant
mod Transition
mod Api
mod Emit
mod Tick
mod Tests
use Prim.Native.String.{◌++◌ as str_append}
use codegen_product_kit.Base.{
  ℕ, ◌+◌, String, Bool, true, false, ◌&&◌, ◌||◌, Option, none, some, List, [], ◌∷◌, ◌++◌, map,
  str_eq, if◌then◌else◌, ◌==◌, ltb, leb, Http, ok, http_error,
}
use codegen_product_kit.Base.Sorting.{any, select, sort_by}
use codegen_product_kit.Jobs.{Publish, accepted, refused, unacknowledged}

pub data State : Type 0 where
  scheduled cancelled due emitted : State

pub record Reminder : Type 0 where
  pub id : ℕ
  pub user_ref : String
  pub text : String
  pub remind_at : ℕ
  pub state : State
  pub created_at : ℕ
  pub cancelled_at : Option ℕ
  pub due_at : Option ℕ
  pub emitted_at : Option ℕ

pub record Emission : Type 0 where
  pub reminder_id : ℕ
  pub event_id : ℕ
  pub occurred_at : ℕ
  pub emitted_at : Option ℕ

pub record Tables : Type 0 where
  pub reminders : List Reminder
  pub emissions : List Emission

abbrev pub is_scheduled : State → Bool
is_scheduled scheduled = true
is_scheduled _ = false

abbrev pub is_due : State → Bool
is_due due = true
is_due _ = false

abbrev pub has_id : ℕ → Reminder → Bool
has_id i r = r.id == i

abbrev pub is_for : ℕ → Emission → Bool
is_for i e = e.reminder_id == i

-- `create_reminder`. An empty text is refused by the request model, and an id that is taken breaks
-- the primary key.
pub create_reminder : ℕ → ℕ → String → String → ℕ → Tables → Http Reminder × Tables
create_reminder reminder_id created_at user_ref text remind_at db =
    let r : Reminder = record {
      id = reminder_id;
      user_ref = user_ref;
      text = text;
      remind_at = remind_at;
      state = scheduled;
      created_at = created_at;
      cancelled_at = none;
      due_at = none;
      emitted_at = none;
    } in
    if str_eq text ""
    then (http_error 422, db)
    else if any (has_id reminder_id) db.reminders
    then (http_error 500, db)
    else (ok r, record db { reminders = db.reminders ++ r ∷ [] })

-- `ORDER BY remind_at, created_at, id`
abbrev pub listed_before : Reminder → Reminder → Bool
listed_before r s =
    ltb r.remind_at s.remind_at
    || (r.remind_at == s.remind_at
        && (ltb r.created_at s.created_at || (r.created_at == s.created_at && leb r.id s.id)))

pub list_reminders : String → Tables → List Reminder
list_reminders user_ref db =
    sort_by listed_before (select (λ r. str_eq r.user_ref user_ref) db.reminders)

-- The row that a caller owns, which the second statement of `cancel_reminder` selects.
pub owned : ℕ → String → List Reminder → Option Reminder
owned i user_ref [] = none
owned i user_ref (r ∷ l) =
    if r.id == i && str_eq r.user_ref user_ref then some r else owned i user_ref l

abbrev pub cancel : ℕ → Reminder → Reminder
cancel now r = record r { state = cancelled; cancelled_at = some now }

-- The WHERE of the guarded UPDATE.
abbrev pub is_cancellable : ℕ → String → Reminder → Bool
is_cancellable i user_ref r = r.id == i && str_eq r.user_ref user_ref && is_scheduled r.state

abbrev pub cancel_where : ℕ → ℕ → String → Reminder → Reminder
cancel_where now i user_ref r = if is_cancellable i user_ref r then cancel now r else r

-- The rows that the UPDATE returns.
abbrev pub returning : ℕ → ℕ → String → List Reminder → List Reminder
returning now i user_ref l = map (cancel now) (select (is_cancellable i user_ref) l)

abbrev pub refusal : Option Reminder → Http Reminder
refusal none = http_error 404
refusal (some existing) = http_error 409

-- `one_or_none` of the returned rows and what follows: an error rolls the UPDATE back, two rows raise.
abbrev answered : Tables → Tables → ℕ → String → List Reminder → Http Reminder × Tables
answered db updated i user_ref [] = (refusal (owned i user_ref updated.reminders), db)
answered db updated i user_ref (row ∷ []) = (ok row, updated)
answered db updated i user_ref (row ∷ other ∷ rows) = (http_error 500, db)

pub cancel_reminder : ℕ → ℕ → String → Tables → Http Reminder × Tables
cancel_reminder now i user_ref db =
    answered db (record db { reminders = map (cancel_where now i user_ref) db.reminders }) i
      user_ref (returning now i user_ref db.reminders)

-- `ORDER BY remind_at, id`
abbrev pub due_before : Reminder → Reminder → Bool
due_before r s = ltb r.remind_at s.remind_at || (r.remind_at == s.remind_at && leb r.id s.id)

abbrev pub is_due_at : ℕ → Reminder → Bool
is_due_at at r = is_scheduled r.state && leb r.remind_at at

abbrev pub make_due : ℕ → Reminder → Reminder
make_due at r = record r { state = due; due_at = some at }

abbrev pub update_due : ℕ → ℕ → Reminder → Reminder
update_due at i r = if r.id == i then make_due at r else r

-- `uuid5(NAMESPACE_URL, ...)` and the text of a UUID are the standard library's.
module _ (uuid5 : String → ℕ) (uuid_text : ℕ → String) where
  -- `due_event_id` of identity.py.
  pub due_event_id : ℕ → ℕ
  due_event_id reminder_id = uuid5 (str_append "codegen-kit-reminders:due:" (uuid_text reminder_id))

  -- The insert of `transition_due`. A row for the reminder stays; another row with the same event id
  -- breaks the unique constraint, which is `none`.
  pub insert_emission : ℕ → ℕ → List Emission → Option (List Emission)
  insert_emission at i es =
      if any (is_for i) es
      then some es
      else if any (λ e. e.event_id == due_event_id i) es
      then none
      else some (
          es
          ++ record {
            reminder_id = i;
            event_id = due_event_id i;
            occurred_at = at;
            emitted_at = none;
          }
            ∷ [])

  -- The loop over the selected rows.
  pub transition_rows : ℕ → List Reminder → Tables → Option Tables
  unfolding insert_emission
  transition_rows at [] db = some db
  transition_rows at (row ∷ rows) db = elim (insert_emission at row.id db.emissions) [
    | none ↦ none
    | some es ↦
        transition_rows at rows
          (record { reminders = map (update_due at row.id) db.reminders; emissions = es })
  ]

  -- `transition_due`: `none` rolls the transaction back and raises.
  pub transition_due : ℕ → Tables → Option Tables
  unfolding transition_rows
  transition_due at db =
      transition_rows at (sort_by due_before (select (is_due_at at) db.reminders)) db

-- A row of `read_pending`, which is also what `publish_event` is given.
pub record Pending : Type 0 where
  pub reminder_id : ℕ
  pub event_id : ℕ
  pub occurred_at : ℕ
  pub user_ref : String
  pub text : String
  pub remind_at : ℕ

abbrev pub pending_row : Emission → Reminder → Pending
pending_row e r = record {
  reminder_id = e.reminder_id;
  event_id = e.event_id;
  occurred_at = e.occurred_at;
  user_ref = r.user_ref;
  text = r.text;
  remind_at = r.remind_at;
}

pub find_reminder : ℕ → List Reminder → Option Reminder
find_reminder i [] = none
find_reminder i (r ∷ l) = if r.id == i then some r else find_reminder i l

abbrev joined : Emission → Option Reminder → List Pending → List Pending
joined e none rest = rest
joined e (some r) rest = pending_row e r ∷ rest

abbrev pub is_unconfirmed : Emission → Bool
is_unconfirmed e = elim e.emitted_at [ none ↦ true | some t ↦ false ]

-- The join of `read_pending`, before it is ordered.
pub pending_rows : List Reminder → List Emission → List Pending
unfolding find_reminder
pending_rows rs [] = []
pending_rows rs (e ∷ es) =
    let rest = pending_rows rs es in
    if is_unconfirmed e then joined e (find_reminder e.reminder_id rs) rest else rest

-- `ORDER BY e.occurred_at, e.reminder_id`
abbrev pub emitted_before : Pending → Pending → Bool
emitted_before p q =
    ltb p.occurred_at q.occurred_at
    || (p.occurred_at == q.occurred_at && leb p.reminder_id q.reminder_id)

pub read_pending : Tables → List Pending
unfolding pending_rows
read_pending db = sort_by emitted_before (pending_rows db.reminders db.emissions)

abbrev pub confirm_row : ℕ → ℕ → Emission → Emission
confirm_row i now e =
    if e.reminder_id == i && is_unconfirmed e then record e { emitted_at = some now } else e

abbrev pub emit_row : ℕ → ℕ → Reminder → Reminder
emit_row i now r =
    if r.id == i && is_due r.state then record r { state = emitted; emitted_at = some now } else r

pub confirm_emission : ℕ → ℕ → Tables → Tables
confirm_emission i now db = record {
  reminders = map (emit_row i now) db.reminders;
  emissions = map (confirm_row i now) db.emissions;
}

-- The tables and the stream `reminders.due`.
pub record World : Type 0 where
  pub tables : Tables
  pub stream : List Pending

-- What the outside does with the event of a reminder, and the clock when it is published. A crash
-- between the publication and its confirmation is `unacknowledged` too.
pub record Outside : Type 0 where
  pub publish : ℕ → Publish
  pub clock : ℕ → ℕ

-- The loop of `emit_pending`; the result is false if a publication raised, which ends the loop.
pub emit_rows : Outside → List Pending → World → Bool × World
unfolding confirm_emission
emit_rows o [] w = (true, w)
emit_rows o (row ∷ rows) w = elim (o.publish row.reminder_id) [
  | accepted ↦ emit_rows o rows (record {
    tables = confirm_emission row.reminder_id (o.clock row.reminder_id) w.tables;
    stream = w.stream ++ row ∷ [];
  })
  | refused ↦ (false, w)
  | unacknowledged ↦ (false, record w { stream = w.stream ++ row ∷ [] })
]

pub emit_pending : Outside → World → Bool × World
emit_pending o w = emit_rows o (read_pending w.tables) w

-- The payload of a `job_fired` envelope, once it is known to be a dict: its name and the `at` of its
-- arguments, `none` where `TickArguments` does not validate.
pub record JobPayload : Type 0 where
  pub name : String
  pub at : Option ℕ

abbrev tick_outcome : Outside → World → Option Tables → Bool × World
tick_outcome o w none = (false, w)
tick_outcome o w (some db) = emit_pending o (record w { tables = db })

-- `handle_job_fired`; the result is false if it raised.
pub handle_job_fired :
    (String → ℕ) → (ℕ → String) → Outside → Option JobPayload → World → Bool × World
handle_job_fired uuid5 uuid_text o none w = (true, w)
handle_job_fired uuid5 uuid_text o (some payload) w =
    if str_eq payload.name "reminders.tick"
    then elim payload.at [
      | none ↦ (false, w)
      | some at ↦ tick_outcome o w (transition_due uuid5 uuid_text at w.tables)
    ]
    else (true, w)
