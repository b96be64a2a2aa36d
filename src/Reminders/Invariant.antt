-- ===== src/Reminders/Invariant.antt =====
-- How the two tables of the reminders package belong together.
use codegen_product_kit.Base.{
  ℕ, ◌≡◌, refl, Bool, true, false, ◌&&◌, Option, none, some, List, [], ◌∷◌, ◌++◌, map, arith,
  if◌then◌else◌, ◌==◌, All, All-map₂, Bool-cases, inl, inr, ◌∙◌,
}
use codegen_product_kit.Base.Sorting.{any}
use codegen_product_kit.Reminders.{
  State, scheduled, cancelled, due, emitted, Reminder, Emission, Tables, has_id, is_for,
  is_unconfirmed,
}

-- No id stands twice in the table of reminders.
abbrev pub IsUnique : List Reminder → Type 0
IsUnique [] = Unit
IsUnique (r ∷ rs) = (any (has_id r.id) rs ≡ false) × IsUnique rs

-- The emission of a reminder.
abbrev pub emission_of : ℕ → List Emission → Option Emission
emission_of i [] = none
emission_of i (e ∷ es) = if e.reminder_id == i then some e else emission_of i es

-- The state that a reminder has beside its emission.
abbrev pub agrees : State → Option Emission → Bool
agrees scheduled none = true
agrees cancelled none = true
agrees due (some e) = is_unconfirmed e
agrees emitted (some e) = elim e.emitted_at [ none ↦ false | some t ↦ true ]
agrees _ _ = false

abbrev pub Agree : List Emission → List Reminder → Type 0
Agree es rs = All (λ r. agrees r.state (emission_of r.id es) ≡ true) rs

-- Each emission is of a reminder, and bears the reminder's event id.
abbrev pub HasReminder : (ℕ → ℕ) → List Reminder → List Emission → Type 0
HasReminder event_id rs es =
    All (λ e. (any (has_id e.reminder_id) rs ≡ true) × (e.event_id ≡ event_id e.reminder_id)) es

-- The ids are unique; a reminder is scheduled or cancelled exactly if it has no emission, due if it
-- has one that is not confirmed, and emitted if it has a confirmed one; and there are no others.
pub record IsConsistent (event_id : ℕ → ℕ) (db : Tables) : Type 0 where
  pub unique : IsUnique db.reminders
  pub agree : Agree db.emissions db.reminders
  pub owned : HasReminder event_id db.reminders db.emissions

-- No two reminders of a table have the same event id.
abbrev pub DistinctEvents : (ℕ → ℕ) → List Reminder → Type 0
DistinctEvents event_id rs =
    (i j : ℕ)
    → any (has_id i) rs ≡ true
    → any (has_id j) rs ≡ true
    → event_id j ≡ event_id i
    → j ≡ i

-- A change of the rows that keeps their ids.
pub any-map_id :
    (i : ℕ) (f : Reminder → Reminder)
    → ((r : Reminder) → (f r).id ≡ r.id)
    → (rs : List Reminder) → any (has_id i) (map f rs) ≡ any (has_id i) rs
any-map_id i f h [] = refl
any-map_id i f h (r ∷ rs) = ground (arith, h r, any-map_id i f h rs)

pub map-IsUnique :
    (f : Reminder → Reminder)
    → ((r : Reminder) → (f r).id ≡ r.id)
    → (rs : List Reminder) → IsUnique rs
    → IsUnique (map f rs)
map-IsUnique f h [] u = tt
map-IsUnique f h (r ∷ rs) u = (rw (h r) (any-map_id r.id f h rs ∙ u.0), map-IsUnique f h rs u.1)

pub HasReminder-map :
    (event_id : ℕ → ℕ) (f : Reminder → Reminder)
    → ((r : Reminder) → (f r).id ≡ r.id)
    → (rs : List Reminder) (es : List Emission) → HasReminder event_id rs es
    → HasReminder event_id (map f rs) es
HasReminder-map event_id f h rs [] o = tt
HasReminder-map event_id f h rs (e ∷ es) o =
    ((any-map_id e.reminder_id f h rs ∙ o.0.0, o.0.1), HasReminder-map event_id f h rs es o.1)

-- A reminder that is not there has no emission.
pub emission_of-absent :
    (event_id : ℕ → ℕ) (i : ℕ) (rs : List Reminder) (es : List Emission)
    → any (has_id i) rs ≡ false
    → HasReminder event_id rs es
    → emission_of i es ≡ none
emission_of-absent event_id i rs [] n o = refl
emission_of-absent event_id i rs (e ∷ es) n o = elim (Bool-cases (e.reminder_id == i)) [
  | inl y ↦ ground arith
  | inr k ↦ rw k (emission_of-absent event_id i rs es n o.1)
]

pub any-is_for : (i : ℕ) (es : List Emission) → emission_of i es ≡ none → any (is_for i) es ≡ false
any-is_for i [] h = refl
any-is_for i (e ∷ es) h = ground (arith, any-is_for i es)

pub any-is_for-some :
    (i : ℕ) (e' : Emission) (es : List Emission)
    → emission_of i es ≡ some e'
    → any (is_for i) es ≡ true
any-is_for-some i e' [] h = cc
any-is_for-some i e' (e ∷ es) h = ground (arith, any-is_for-some i e' es)

pub emission_of-append :
    (i : ℕ) (es : List Emission) (e : Emission)
    → emission_of i (es ++ e ∷ []) ≡ elim (emission_of i es) [
      | some d ↦ some d
      | none ↦ if e.reminder_id == i then some e else none
    ]
emission_of-append i [] e = ground arith
emission_of-append i (d ∷ es) e = ground (arith, emission_of-append i es e)

-- In a table with unique ids, a row is selected by the id of a row exactly if it is that row.
pub selected_other :
    (i : ℕ) (p : Reminder → Bool) (rs : List Reminder)
    → any (has_id i) rs ≡ false
    → any (λ x. p x && has_id i x) rs ≡ false
selected_other i p [] h = refl
selected_other i p (r ∷ rs) h = ground (arith, selected_other i p rs)

distinct :
    (i : ℕ) (rs : List Reminder) → any (has_id i) rs ≡ false → All (λ r. (i == r.id) ≡ false) rs
distinct i [] h = tt
distinct i (r ∷ rs) h = (ground arith, distinct i rs (ground arith))

pub selected :
    (p : Reminder → Bool) (rs : List Reminder)
    → IsUnique rs
    → All (λ r. any (λ x. p x && has_id r.id x) rs ≡ p r) rs
selected p [] u = tt
selected p (x ∷ rs) u = (
  ground (arith, selected_other x.id p rs u.0),
  All-map₂ _ _ _ (λ r d s. ground arith) rs (distinct x.id rs u.0) (selected p rs u.1),
)
