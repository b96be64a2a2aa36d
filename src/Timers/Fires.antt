-- ===== src/Timers/Fires.antt =====
-- Which slots the timer loop fires.
use mathlib.Core.Path.{subst}
use mathlib.Core.List.{append-nil, append_assoc}
use codegen_product_kit.Base.{
  ◌∙◌, sym, ℕ, ◌+◌, ◌-◌, ◌*◌, ◌≤◌, ◌<◌, ◌≡◌, refl, ◌≢◌, Option, none, some, List, [], ◌∷◌, ◌++◌,
  if◌then◌else◌, ◌==◌, leb, arith, String, str_eq, eq_iff, Bool-cases, Option-cases, inl, inr, All,
  All-map, ◌⊎◌, ◌&&◌, min,
}
use codegen_product_kit.Base.Dict.{Dict, lookup, lookup-insert}
use codegen_product_kit.Jobs.{DispatchStatus}
use codegen_product_kit.Timers.{
  second, slot_instant, Loop, Due, sleep, zero_division_error, value_error, is_attempted, visit,
  fire_each, fire_due, run, insert_sorted, sorted_items, min_of, shortest, new,
}
use codegen_product_kit.Timers.Slots.{slot_instant_bounds}

-- Every period is positive, as the manifest of a package makes sure.
abbrev pub IsPositive : Dict ℕ → Type 0
IsPositive ts = All (λ t. 0 < t.1) ts

-- The wait that `fire_due` works out for a timer runs to the end of its slot.
abbrev pub wait : ℕ → ℕ → ℕ
wait now every = slot_instant now every + every * second - now

abbrev waits_of : ℕ → Dict ℕ → List ℕ
waits_of now [] = []
waits_of now ((job, every) ∷ ts) = wait now every ∷ waits_of now ts

waits_of-pos : (now : ℕ) (ts : Dict ℕ) → IsPositive ts → All (λ v. 0 < v) (waits_of now ts)
waits_of-pos now [] h = tt
waits_of-pos now ((job, every) ∷ ts) h =
    (omega (arith, slot_instant_bounds now every h.0), waits_of-pos now ts h.1)

All-waits_of :
    (now w : ℕ) (ts : Dict ℕ) → All (λ v. w ≤ v) (waits_of now ts) → All (λ t. w ≤ wait now t.1) ts
All-waits_of now w [] h = tt
All-waits_of now w (t ∷ ts) h = (h.0, All-waits_of now w ts h.1)

min_of-bounds :
    (w : ℕ) (ws : List ℕ)
    → 0 < w
    → All (λ v. 0 < v) ws
    → (0 < min_of w ws) × (min_of w ws ≤ w) × All (λ v. min_of w ws ≤ v) ws
min_of-bounds w [] h hs = (h, omega arith, tt)
min_of-bounds w (v ∷ vs) h hs =
    let (p, q, r) = min_of-bounds (min w v) vs (omega arith) hs.1 in
    (p, omega arith, (omega arith, r))

module _ {W : Type 0} (fire : String → ℕ → W → Option DispatchStatus × W) where
  visit-timers : (slot : ℕ) (job : String) (s : Loop W) → (visit fire slot job s).timers ≡ s.timers
  unfolding visit
  visit-timers slot job s = ground arith

  -- The loop after a visit of each timer in turn.
  abbrev pub visits : ℕ → Dict ℕ → Loop W → Loop W
  visits now [] s = s
  visits now ((job, every) ∷ ts) s = visits now ts (visit fire (slot_instant now every) job s)

  visits-timers : (now : ℕ) (ts : Dict ℕ) (s : Loop W) → (visits now ts s).timers ≡ s.timers
  visits-timers now [] s = refl
  visits-timers now ((job, every) ∷ ts) s =
      visits-timers now ts (visit fire (slot_instant now every) job s)
      ∙ visit-timers (slot_instant now every) job s

  fire_each_lem :
      (now : ℕ) (ts : Dict ℕ) (waits : List ℕ) (s : Loop W)
      → IsPositive ts
      → fire_each fire now ts waits s ≡ (shortest (waits ++ waits_of now ts), visits now ts s)
  unfolding fire_each
  fire_each_lem now [] waits s h = simp append-nil
  fire_each_lem now ((job, every) ∷ ts) waits s h =
      let ih =
        fire_each_lem now ts (waits ++ wait now every ∷ [])
          (visit fire (slot_instant now every) job s) h.1 in
      ground (arith, ih, append_assoc waits (wait now every ∷ []) (waits_of now ts))

  pub fire_due_lem :
      (now : ℕ) (s : Loop W)
      → IsPositive s.timers
      → fire_due fire now s ≡ (shortest (waits_of now s.timers), visits now s.timers s)
  unfolding fire_due
  fire_due_lem now s h = fire_each_lem now s.timers [] s h

  -- With positive periods and at least one timer, `fire_due` returns, also where firing raised, and
  -- the time to sleep is positive and reaches past the end of no timer's current slot.
  pub fire_due-wait :
      (now : ℕ) (s : Loop W)
      → IsPositive s.timers
      → s.timers ≢ []
      → (w : ℕ) × ((fire_due fire now s).0 ≡ sleep w)
        × (0 < w)
        × All (λ t. w ≤ wait now t.1) s.timers
  fire_due-wait now s h ne = by_timers s.timers refl h ne
    where
      by_timers :
          (ts : Dict ℕ)
          → s.timers ≡ ts
          → IsPositive ts
          → ts ≢ []
          → (w : ℕ) × ((fire_due fire now s).0 ≡ sleep w) × (0 < w) × All (λ t. w ≤ wait now t.1) ts
      by_timers [] e h n = absurd (n refl)
      by_timers (t ∷ ts) e h n =
          let (p, q, r) =
            min_of-bounds (wait now t.1) (waits_of now ts) (waits_of-pos now (t ∷ []) (h.0, tt)).0
              (waits_of-pos now ts h.1) in
          (
            min_of (wait now t.1) (waits_of now ts),
            rw (fire_due_lem now s (rw e h), e) refl,
            p,
            (q, All-waits_of now (min_of (wait now t.1) (waits_of now ts)) ts r),
          )

-- A world that records each slot it is asked to fire, and answers as `reply` says.
abbrev pub Trace : Type 0
Trace = List (String × ℕ)

abbrev pub recording :
    (String → ℕ → Option DispatchStatus) → String → ℕ → Trace → Option DispatchStatus × Trace
recording reply job slot t = (reply job slot, t ++ (job, slot) ∷ [])

-- How often a slot of a job was fired.
abbrev pub fired : String → ℕ → Trace → ℕ
fired job slot [] = 0
fired job slot ((j, t) ∷ r) = (if str_eq j job && t == slot then 1 else 0) + fired job slot r

fired-append :
    (job : String) (slot : ℕ) (t : Trace) (j : String) (u : ℕ)
    → fired job slot (t ++ (j, u) ∷ [])
      ≡ fired job slot t + (if str_eq j job && u == slot then 1 else 0)
fired-append job slot [] j u = ground arith
fired-append job slot ((i, v) ∷ t) j u = ground (arith, fired-append job slot t j u)

abbrev Status : Option ℕ → ℕ → Type 0
Status none slot = ⊥
Status (some last) slot = slot ≤ last

-- A slot that was fired was fired once, and the loop remembers it or a later one.
abbrev Once : Loop Trace → String → ℕ → Type 0
Once s job slot =
    (fired job slot s.world ≡ 0)
    ⊎ ((fired job slot s.world ≡ 1) × Status (lookup job s.attempted) slot)

visit-Once :
    (reply : String → ℕ → Option DispatchStatus) (slot : ℕ) (job : String) (s : Loop Trace)
    (j : String) (t : ℕ)
    → Once s j t
    → Once (visit (recording reply) slot job s) j t
unfolding visit
visit-Once reply slot job s j t h =
    ground
      (arith, lookup-insert job j slot s.attempted, fired-append j t s.world job slot, eq_iff job j)

visits-Once :
    (reply : String → ℕ → Option DispatchStatus) (now : ℕ) (ts : Dict ℕ) (s : Loop Trace)
    (j : String) (t : ℕ)
    → Once s j t
    → Once (visits (recording reply) now ts s) j t
visits-Once reply now [] s j t h = h
visits-Once reply now ((job, every) ∷ ts) s j t h =
    visits-Once reply now ts (visit (recording reply) (slot_instant now every) job s) j t
      (visit-Once reply (slot_instant now every) job s j t h)

-- What a visit of every timer keeps, a run keeps.
run-keeps :
    {W : Type 0} (fire : String → ℕ → W → Option DispatchStatus × W) (P : Loop W → Type 0)
    (ts : Dict ℕ)
    → IsPositive ts
    → ((now : ℕ) (s : Loop W) → P s → P (visits fire now ts s))
    → (nows : List ℕ) (s : Loop W) → s.timers ≡ ts
    → P s
    → P (run fire nows s)
unfolding run
run-keeps fire P ts pos keep [] s e h = h
run-keeps fire P ts pos keep (now ∷ nows) s e h =
    subst (λ x. P (elim x.0 [ sleep w ↦ run fire nows x.1 | _ ↦ x.1 ]))
      (sym (fire_due_lem fire now s (rw e pos)))
      (by_outcome (shortest (waits_of now s.timers)) now_kept (
        run-keeps fire P ts pos keep nows (visits fire now s.timers s)
          (visits-timers fire now s.timers s ∙ e) now_kept))
  where
    now_kept : P (visits fire now s.timers s)
    now_kept = simp e (keep now s h)

    by_outcome :
        {s' : Loop _} (d : Due)
        → P s'
        → P (run fire nows s')
        → P (elim d [ sleep w ↦ run fire nows s' | _ ↦ s' ])
    by_outcome (sleep w) a b = b
    by_outcome zero_division_error a b = a
    by_outcome value_error a b = a

visit-covers :
    (reply : String → ℕ → Option DispatchStatus) (slot : ℕ) (job : String) (s : Loop Trace)
    → ((j : String) (last : ℕ) → lookup j s.attempted ≡ some last → 1 ≤ fired j last s.world)
    → (last : ℕ) × (lookup job (visit (recording reply) slot job s).attempted ≡ some last)
      × (slot ≤ last)
unfolding visit
visit-covers reply slot job s h = elim (Option-cases (lookup job s.attempted)) [
  | inl e ↦
      (slot, ground (arith, lookup-insert job job slot s.attempted, eq_iff job job), omega arith)
  | inr (last, e) ↦ elim (Bool-cases (leb slot last)) [
    | inl y ↦ (last, ground arith, ground arith)
    | inr n ↦
        (slot, ground (arith, lookup-insert job job slot s.attempted, eq_iff job job), omega arith)
  ]
]

-- The loop remembers a slot of the job that is not before the given one.
abbrev Covered : Loop Trace → String → ℕ → Type 0
Covered s job slot = (last : ℕ) × (lookup job s.attempted ≡ some last) × (slot ≤ last)

-- What the loop remembers was fired.
abbrev Known : Loop Trace → Type 0
Known s = (j : String) (last : ℕ) → lookup j s.attempted ≡ some last → 1 ≤ fired j last s.world

visit-Covered :
    (reply : String → ℕ → Option DispatchStatus) (slot : ℕ) (job : String) (s : Loop Trace)
    (j : String) (t : ℕ)
    → Covered s j t
    → Covered (visit (recording reply) slot job s) j t
unfolding visit
visit-Covered reply slot job s j t (last, e, le) =
    elim (Bool-cases (is_attempted slot (lookup job s.attempted))) [
      | inl y ↦ (last, ground arith, le)
      | inr n ↦ elim (Bool-cases (str_eq job j)) [
        | inl same ↦ (
          slot,
          ground (arith, lookup-insert job j slot s.attempted),
          ground (arith, eq_iff job j),
        )
        | inr other ↦ (last, ground (arith, lookup-insert job j slot s.attempted), le)
      ]
    ]

visit-Known :
    (reply : String → ℕ → Option DispatchStatus) (slot : ℕ) (job : String) (s : Loop Trace)
    → Known s
    → Known (visit (recording reply) slot job s)
unfolding visit
visit-Known reply slot job s h j last e = ground (
  arith,
  h j last,
  lookup-insert job j slot s.attempted,
  fired-append j last s.world job slot,
  eq_iff job j,
)

visits-Covered :
    (reply : String → ℕ → Option DispatchStatus) (now : ℕ) (ts : Dict ℕ) (s : Loop Trace)
    (j : String) (t : ℕ)
    → Covered s j t
    → Covered (visits (recording reply) now ts s) j t
visits-Covered reply now [] s j t h = h
visits-Covered reply now ((job, every) ∷ ts) s j t h =
    visits-Covered reply now ts (visit (recording reply) (slot_instant now every) job s) j t
      (visit-Covered reply (slot_instant now every) job s j t h)

visits-covers :
    (reply : String → ℕ → Option DispatchStatus) (now : ℕ) (ts : Dict ℕ) (s : Loop Trace)
    → Known s
    → Known (visits (recording reply) now ts s)
      × All (λ t. Covered (visits (recording reply) now ts s) t.0 (slot_instant now t.1)) ts
visits-covers reply now [] s h = (h, tt)
visits-covers reply now ((job, every) ∷ ts) s h =
    let slot = slot_instant now every in
    let s' = visit (recording reply) slot job s in
    let (known, covered) = visits-covers reply now ts s' (visit-Known reply slot job s h) in
    (known, (visits-Covered reply now ts s' job slot (visit-covers reply slot job s h), covered))

insert_sorted-IsPositive :
    (t : String × ℕ) (ts : Dict ℕ) → 0 < t.1 → IsPositive ts → IsPositive (insert_sorted t ts)
unfolding insert_sorted
insert_sorted-IsPositive t [] p h = (p, tt)
insert_sorted-IsPositive t (u ∷ ts) p h = ground (arith, insert_sorted-IsPositive t ts p h.1)

sorted_items-IsPositive : (ts : Dict ℕ) → IsPositive ts → IsPositive (sorted_items ts)
unfolding sorted_items
sorted_items-IsPositive [] h = tt
sorted_items-IsPositive (t ∷ ts) h =
    insert_sorted-IsPositive t (sorted_items ts) h.0 (sorted_items-IsPositive ts h.1)

-- Over any readings of the clock, also when it goes back, and whatever becomes of the fires, each
-- slot of each job is fired at most once.
pub run_fires_once :
    (reply : String → ℕ → Option DispatchStatus) (timers : Dict ℕ) (nows : List ℕ) (job : String)
    (slot : ℕ)
    → IsPositive timers
    → fired job slot (run (recording reply) nows (new (recording reply) timers [])).world ≤ 1
unfolding new
run_fires_once reply timers nows job slot pos =
    let once =
      run-keeps (recording reply) (λ s. Once s job slot) (sorted_items timers)
        (sorted_items-IsPositive timers pos)
        (λ now s h. visits-Once reply now (sorted_items timers) s job slot h) nows
        (new (recording reply) timers []) refl (inl refl) in
    elim once [ inl e ↦ omega arith | inr (e, r) ↦ omega arith ]

nothing_attempted : (j : String) (last : ℕ) → lookup {V = ℕ} j [] ≡ some last → ⊥
unfolding lookup
nothing_attempted j last h = cc

-- A call of `fire_due` leaves no due timer behind: for each timer it fires the slot of the instant
-- that it reads, unless that slot or a later one of the job has been fired before.
pub fire_due_covers :
    (reply : String → ℕ → Option DispatchStatus) (timers : Dict ℕ) (nows : List ℕ) (now : ℕ)
    → IsPositive timers
    → let s = run (recording reply) nows (new (recording reply) timers []) in
      let s' = (fire_due (recording reply) now s).1 in
      All (λ t. (last : ℕ) × (slot_instant now t.1 ≤ last) × (1 ≤ fired t.0 last s'.world)) s.timers
unfolding new
fire_due_covers reply timers nows now pos =
    let pos' = sorted_items-IsPositive timers pos in
    let start = new (recording reply) timers [] in
    let s = run (recording reply) nows start in
    let known =
      run-keeps (recording reply) Known (sorted_items timers) pos'
        (λ n s h. (visits-covers reply n (sorted_items timers) s h).0) nows start refl
        (λ j last h. absurd (nothing_attempted j last h)) in
    let kept =
      run-keeps (recording reply) (λ s. s.timers ≡ sorted_items timers) (sorted_items timers) pos'
        (λ n s h. visits-timers (recording reply) n (sorted_items timers) s ∙ h) nows start refl
        refl in
    let covers = visits-covers reply now s.timers s known in
    rw (fire_due_lem (recording reply) now s (rw kept pos'))
      (All-map _ _ (λ t c. (c.0, c.2, covers.0 t.0 c.0 c.1)) s.timers covers.1)
