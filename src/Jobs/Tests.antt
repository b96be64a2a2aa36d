-- ===== src/Jobs/Tests.antt =====
-- Runs of the jobs core at small inputs.
use codegen_product_kit.Base.{
  ℕ, ◌+◌, ◌≤◌, ◌≡◌, refl, Bool, Option, none, some, List, [], ◌∷◌, String, str_eq, ◌==◌,
  if◌then◌else◌, ok, same_pair, same_pair,
}
use codegen_product_kit.Jobs.{
  dispatched, undelivered, JobCommand, JobFire, Core, Evidence, accepted, refused, unacknowledged,
  get, fire, to_contract, record_command,
}
use codegen_product_kit.Jobs.Fire.{fire_evidence, record_command_lem, recorded, row, settled}
use codegen_product_kit.Jobs.Retry.{
  fire_retry, fires_publish_once, fires, Call, empty, emitted, terminal, unacknowledged_calls,
}
use codegen_product_kit.Jobs.Dispatch.{
  World, Reach, start, interleaved_publish_once, here, next, record_and_commit, lock, Phase,
}

abbrev is_one : ℕ → Bool
is_one n = n == 1

-- The product declares one job, whose arguments must be 1.
abbrev schemas : String → Option (ℕ → Bool)
schemas name = if str_eq name "reminders.tick" then some is_one else none

abbrev tick : JobFire ℕ
tick = record {
  command_id = "c1";
  name = "reminders.tick";
  arguments = 1;
  fired_by_product = "shop";
  fired_by_run = "r1";
}

abbrev again : JobFire ℕ
again = record {
  command_id = "c1";
  name = "reminders.tick";
  arguments = 1;
  fired_by_product = "shop";
  fired_by_run = "r2";
}

abbrev bad : JobFire ℕ
bad = record {
  command_id = "c2";
  name = "reminders.tick";
  arguments = 2;
  fired_by_product = "shop";
  fired_by_run = "r2";
}

abbrev first : Core ℕ
first = (fire schemas tick refused 10 11 empty).1

refused_keeps_undelivered :
    (get "shop" "c1" first.ledger
      ≡ some (record {
        command_id = "c1";
        name = "reminders.tick";
        arguments = 1;
        fired_by_product = "shop";
        fired_by_run = "r1";
        dispatch_status = undelivered;
        accepted_at = 10;
        dispatched_at = none;
      }))
    × (first.events ≡ [])
unfolding fire get same_pair
refused_keeps_undelivered = (refl, refl)

record_command_example :
    (c : JobCommand ℕ) × (b : Bool) × (record_command again 20 [] first.ledger
      ≡ some (c, b, recorded again 20 first.ledger))
unfolding get
record_command_example = record_command_lem again 20 [] first.ledger (λ h. cc)

fire_evidence_example :
    let (r, s') = fire schemas again accepted 20 21 first in
    (r ≡ ok (to_contract (settled accepted 21 (row again 20 first))))
    × (get "shop" "c1" s'.ledger ≡ some (settled accepted 21 (row again 20 first)))
fire_evidence_example = fire_evidence schemas again accepted 20 21 first is_one refl refl

abbrev shown : Evidence ℕ
shown = record {
  contract_version = 1;
  command_id = "c1";
  name = "reminders.tick";
  arguments = 1;
  fired_by_product = "shop";
  fired_by_run = "r1";
  dispatch_status = dispatched;
  accepted_at = 10;
  dispatched_at = some 11;
}

fire_retry_example :
    let s' = (fire schemas tick accepted 10 11 empty).1 in
    fire schemas again accepted 20 21 s' ≡ (ok shown, s')
unfolding fire get same_pair
fire_retry_example =
    fire_retry schemas tick again accepted accepted 10 11 20 21 empty is_one is_one shown refl refl
      refl refl refl refl refl refl

abbrev calls : List (Call ℕ)
calls =
    record { payload = tick; publish = unacknowledged; accepted_at = 1; dispatched_at = 2 }
    ∷ record { payload = again; publish = accepted; accepted_at = 3; dispatched_at = 4 }
    ∷ record { payload = again; publish = accepted; accepted_at = 5; dispatched_at = 6 }
    ∷ []

-- The bound is met: one unacknowledged publication, and so two events.
calls_emit_twice : emitted "shop" "c1" (fires schemas calls empty).events ≡ 2
unfolding fires fire get same_pair
calls_emit_twice = refl

fires_publish_once_example :
    let s = fires schemas calls empty in
    (emitted "shop" "c1" s.events ≤ 1 + unacknowledged_calls "shop" "c1" calls)
    × (terminal "shop" "c1" s ≤ emitted "shop" "c1" s.events)
fires_publish_once_example = fires_publish_once schemas "shop" "c1" calls

abbrev w1 : World
w1 = record {
  row = some undelivered;
  holder = none;
  phase = λ n. if n == 0 then Phase.recorded else Phase.arrived;
  events = 0;
  lost = 0;
}

abbrev w2 : World
w2 = record w1 { holder = some 0; phase = λ n. if n == 0 then Phase.locked else w1.phase n }

run_to_lock : Reach start w2
run_to_lock = next (next here (record_and_commit start 0 refl)) (lock w1 0 refl refl)

interleaved_publish_once_example :
    (w2.events ≤ 1 + w2.lost) × (w2.row ≡ some dispatched → 1 ≤ w2.events)
interleaved_publish_once_example = interleaved_publish_once run_to_lock
