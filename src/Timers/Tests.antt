-- ===== src/Timers/Tests.antt =====
-- The timer loop at small inputs.
use codegen_product_kit.Base.{
  true, ℕ, ◌+◌, ◌*◌, ◌/◌, ◌≤◌, ◌<◌, ◌≡◌, refl, Option, some, [], ◌∷◌, String, All, arith,
}
use codegen_product_kit.Base.Dict.{Dict}
use codegen_product_kit.Jobs.{DispatchStatus, dispatched}
use codegen_product_kit.Timers.{second, slot_instant, Loop, fire_due, run, new}
use codegen_product_kit.Timers.Slots.{slot_instant_bounds}
use codegen_product_kit.Timers.Fires.{Trace, recording, fired, run_fires_once, fire_due_covers}

abbrev timers : Dict ℕ
timers = ("tick", 60) ∷ ("poll", 10) ∷ []

abbrev reply : String → ℕ → Option DispatchStatus
reply job slot = some dispatched

abbrev loop : Loop Trace
loop = record { timers = timers; attempted = []; running = true; log = []; world = [] }

-- 125.5 seconds lie in the slots that begin at 120 seconds.
slot_of_125 : slot_instant 125500000 60 ≡ 120000000
unfolding slot_instant
slot_of_125 = refl

slot_instant_bounds_example :
    let slot = slot_instant 125500000 60 in
    (slot ≡ 125500000 / second / 60 * 60 * second)
    × (slot ≤ 125500000)
    × (125500000 < slot + 60 * second)
slot_instant_bounds_example = slot_instant_bounds 125500000 60 (omega arith)

run_fires_once_example :
    fired "tick" 120000000
      (run
        (recording reply)
        (125500000 ∷ 126000000 ∷ 60000000 ∷ [])
        (new (recording reply) timers [])).world
    ≤ 1
run_fires_once_example =
    run_fires_once reply timers (125500000 ∷ 126000000 ∷ 60000000 ∷ []) "tick" 120000000
      (omega arith)

fire_due_covers_example :
    let s = run (recording reply) (125500000 ∷ []) (new (recording reply) timers []) in
    let s' = (fire_due (recording reply) 185000000 s).1 in
    All
      (λ t. (last : ℕ) × (slot_instant 185000000 t.1 ≤ last) × (1 ≤ fired t.0 last s'.world))
      s.timers
fire_due_covers_example = fire_due_covers reply timers (125500000 ∷ []) 185000000 (omega arith)
