-- ===== src/Reminders/Tests.antt =====
-- The reminders package at small inputs.
use codegen_product_kit.Base.Sorting.{any}
use codegen_product_kit.Base.{
  ◌∙◌, ap, sym, ℕ, ◌≡◌, ◌⊎◌, inl, inr, refl, true, false, none, some, [], ◌∷◌, ◌++◌, String, arith,
  map, All, str_eq, if◌then◌else◌, ◌==◌,
}
use codegen_product_kit.Jobs.{accepted}
use codegen_product_kit.Reminders.{
  scheduled, Reminder, Tables, World, Outside, is_due_at, cancel_reminder, transition_due,
  read_pending, handle_job_fired, due_event_id, owned, has_id, refusal,
}
use codegen_product_kit.Reminders.Invariant.{IsConsistent, DistinctEvents, emission_of}
use codegen_product_kit.Reminders.Transition.{due_or_same, new_emission, transition_due_lem}
use codegen_product_kit.Reminders.Api.{cancel_reminder_lem, cancelled_or_same, reply_to, is_own}
use codegen_product_kit.Reminders.Tick.{IsServed, handle_job_fired_lem}

-- The standard library's texts and hashes of the two ids below.
abbrev uuid_text : ℕ → String
uuid_text i =
    if i == 1
    then "00000000-0000-0000-0000-000000000001"
    else "00000000-0000-0000-0000-000000000002"

abbrev uuid5 : String → ℕ
uuid5 name =
    if str_eq name "codegen-kit-reminders:due:00000000-0000-0000-0000-000000000001"
    then 231662902011161178370275441094418324078
    else 322752889689915830588702518738354352024

abbrev event_id : ℕ → ℕ
event_id = due_event_id uuid5 uuid_text

abbrev due_now : Reminder
due_now = record {
  id = 1;
  user_ref = "telegram:7";
  text = "tea";
  remind_at = 10;
  state = scheduled;
  created_at = 1;
  cancelled_at = none;
  due_at = none;
  emitted_at = none;
}

abbrev later : Reminder
later = record due_now { id = 2; remind_at = 99 }

abbrev db : Tables
db = record { reminders = due_now ∷ later ∷ []; emissions = [] }

db-IsConsistent : IsConsistent event_id db
db-IsConsistent = record { unique = (refl, (refl, tt)); agree = (refl, (refl, tt)); owned = tt }

one_or_two : (i : ℕ) → any (has_id i) db.reminders ≡ true → (i ≡ 1) ⊎ (i ≡ 2)
one_or_two i h = ground arith

event_of_1 : event_id 1 ≡ 231662902011161178370275441094418324078
unfolding due_event_id
event_of_1 = refl

event_of_2 : event_id 2 ≡ 322752889689915830588702518738354352024
unfolding due_event_id
event_of_2 = refl

distinct_events : DistinctEvents event_id db.reminders
distinct_events i j hi hj h = elim (one_or_two i hi) [
  | inl p ↦ elim (one_or_two j hj) [
    | inl q ↦ q ∙ sym p
    | inr q ↦
        absurd
          (omega (arith, sym event_of_2 ∙ sym (ap event_id q) ∙ h ∙ ap event_id p ∙ event_of_1))
  ]
  | inr p ↦ elim (one_or_two j hj) [
    | inl q ↦
        absurd
          (omega (arith, sym event_of_1 ∙ sym (ap event_id q) ∙ h ∙ ap event_id p ∙ event_of_2))
    | inr q ↦ q ∙ sym p
  ]
]

abbrev outside : Outside
outside = record { publish = λ i. accepted; clock = λ i. 50 }

abbrev world : World
world = record { tables = db; stream = [] }

transition_due_example :
    (db' : Tables) × (transition_due uuid5 uuid_text 20 db ≡ some db')
    × (db'.reminders ≡ map (due_or_same 20) db.reminders)
    × All
        (λ r. emission_of r.id db'.emissions ≡ (
          if is_due_at 20 r
          then some (new_emission uuid5 uuid_text 20 r.id)
          else emission_of r.id db.emissions))
        db.reminders
    × IsConsistent event_id db'
transition_due_example = transition_due_lem uuid5 uuid_text 20 db distinct_events db-IsConsistent

cancel_reminder_example :
    let (reply, db') = cancel_reminder 6 1 "telegram:7" db in
    (reply ≡ reply_to 6 (owned 1 "telegram:7" db.reminders))
    × ((j : ℕ) (v : String)
        → owned j v db'.reminders
          ≡ cancelled_or_same 6 (is_own 1 "telegram:7" j v) (owned j v db.reminders))
    × (db'.emissions ≡ [])
    × (cancel_reminder 8 1 "telegram:7" db' ≡ (refusal (owned 1 "telegram:7" db.reminders), db'))
cancel_reminder_example = cancel_reminder_lem 6 8 1 "telegram:7" db (refl, (refl, tt))

handle_job_fired_example :
    let (returned, w') =
      handle_job_fired uuid5 uuid_text outside
        (some (record { name = "reminders.tick"; at = some 20 }))
        world in
    (str_eq "reminders.tick" "reminders.tick" ≡ false → (returned ≡ true) × (w' ≡ world))
    × (str_eq "reminders.tick" "reminders.tick" ≡ true
        → (returned ≡ true)
          × All (IsServed 20) w'.tables.reminders
          × ((db' : Tables) × (transition_due uuid5 uuid_text 20 db ≡ some db')
              × (w'.stream ≡ [] ++ read_pending db'))
          × (read_pending w'.tables ≡ []))
handle_job_fired_example =
    handle_job_fired_lem uuid5 uuid_text outside "reminders.tick" 20 world distinct_events
      (λ i. refl) db-IsConsistent
