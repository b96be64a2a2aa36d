-- ===== src/Timers.antt =====
-- The core timer loop, template/services/backend/src/app/timers.py. Instants are microseconds since
-- the Unix epoch and periods are seconds. The callback that fires a timer is a function of the job,
-- the slot and the state of the world outside; `none` is an exception that it raised.
mod Slots
mod Fires
mod Tests
use Prim.Native.String.{compare, ◌++◌ as str_append}
use Prim.Native.Nat.{Ordering}
use codegen_product_kit.Base.{
  ℕ, ◌+◌, ◌-◌, ◌*◌, ◌/◌, ◌%◌, min, String, Bool, true, false, Option, none, some, List, [], ◌∷◌,
  ◌++◌, if◌then◌else◌, ◌==◌, leb,
}
use codegen_product_kit.Base.Dict.{Dict, lookup, insert}
use codegen_product_kit.Jobs.{DispatchStatus, dispatched, undelivered, JobFire}

-- What `datetime.strftime` writes for an instant, to the second, is not computed here.
abbrev pub Format : Type 0
Format = ℕ → String

abbrev pub second : ℕ
second = 1000000

abbrev pub timer_run : String
timer_run = "core-timer"

-- `slot_instant`. A period of zero is Python's `ZeroDivisionError`, which `fire_due` models.
pub slot_instant : ℕ → ℕ → ℕ
slot_instant now every_seconds =
    let seconds = now / second in (seconds - seconds % every_seconds) * second

pub timer_command_id : Format → String → ℕ → String
timer_command_id instant job slot =
    str_append timer_run (str_append ":" (str_append job (str_append ":" (instant slot))))

-- `at_argument` builds the JSON object `{"at": ...}` around a text.
pub timer_fire : {A : Type 0} → (String → A) → Format → String → ℕ → String → JobFire A
unfolding timer_command_id
timer_fire at_argument instant job slot fired_by_product = record {
  command_id = timer_command_id instant job slot;
  name = job;
  arguments = at_argument (instant slot);
  fired_by_product = fired_by_product;
  fired_by_run = timer_run;
}

-- The two lines that `_fire_slot` may write to the log.
pub data LogLine : Type 0 where
  fire_failed fire_undelivered : String → ℕ → LogLine

-- The loop's own state, the log, and the world that the callback changes.
pub record Loop (W : Type 0) : Type 0 where
  pub timers : Dict ℕ
  pub attempted : Dict ℕ
  pub running : Bool
  pub log : List LogLine
  pub world : W

-- What a call of `fire_due` ends with: the seconds to sleep, in microseconds, or an exception.
pub data Due : Type 0 where
  sleep : ℕ → Due
  zero_division_error value_error : Due

abbrev leq_text : String → String → Bool
leq_text a b = elim (compare a b) [ Ordering.gt ↦ false | _ ↦ true ]

pub insert_sorted : String × ℕ → Dict ℕ → Dict ℕ
insert_sorted e [] = e ∷ []
insert_sorted e (f ∷ d) = if leq_text e.0 f.0 then e ∷ f ∷ d else f ∷ insert_sorted e d

-- `dict(sorted(timers.items()))`; the keys of a mapping are distinct.
pub sorted_items : Dict ℕ → Dict ℕ
unfolding insert_sorted
sorted_items [] = []
sorted_items (e ∷ d) = insert_sorted e (sorted_items d)

-- The minimum of a list that is not empty.
abbrev min_of : ℕ → List ℕ → ℕ
min_of w [] = w
min_of w (v ∷ vs) = min_of (min w v) vs

-- `max(min(waits), 0.0)`; `min` of nothing raises `ValueError`.
abbrev shortest : List ℕ → Due
shortest [] = value_error
shortest (w ∷ ws) = sleep (min_of w ws)

abbrev logged : String → ℕ → Option DispatchStatus → List LogLine → List LogLine
logged job slot none log = log ++ fire_failed job slot ∷ []
logged job slot (some undelivered) log = log ++ fire_undelivered job slot ∷ []
logged job slot (some dispatched) log = log

abbrev pub is_attempted : ℕ → Option ℕ → Bool
is_attempted slot none = false
is_attempted slot (some last) = leb slot last

module _ {W : Type 0} (fire : String → ℕ → W → Option DispatchStatus × W) where
  -- `TimerLoop.__init__`
  pub new : Dict ℕ → W → Loop W
  unfolding sorted_items
  new timers w = record {
    timers = sorted_items timers;
    attempted = [];
    running = false;
    log = [];
    world = w;
  }

  -- `_fire_slot`
  pub fire_slot : String → ℕ → Loop W → Loop W
  fire_slot job slot s =
      let (reply, w) = fire job slot s.world in
      record s { log = logged job slot reply s.log; world = w }

  -- The body of the loop of `fire_due` after `waits.append`.
  pub visit : ℕ → String → Loop W → Loop W
  unfolding fire_slot lookup insert
  visit slot job s =
      if is_attempted slot (lookup job s.attempted)
      then s
      else fire_slot job slot (record s { attempted = insert job slot s.attempted })

  pub fire_each : ℕ → Dict ℕ → List ℕ → Loop W → Due × Loop W
  unfolding visit slot_instant
  fire_each now [] waits s = (shortest waits, s)
  fire_each now ((job, every_seconds) ∷ ts) waits s =
      if every_seconds == 0
      then (zero_division_error, s)
      else fire_each now ts
          (waits ++ (slot_instant now every_seconds + every_seconds * second - now) ∷ [])
          (visit (slot_instant now every_seconds) job s)

  -- `TimerLoop.fire_due`, at the instant that the clock reads.
  pub fire_due : ℕ → Loop W → Due × Loop W
  unfolding fire_each
  fire_due now s = fire_each now s.timers [] s

  -- `TimerLoop.run` until it is cancelled: a call of `fire_due` at each instant at which the loop
  -- wakes. An exception of `fire_due` ends the task.
  pub run : List ℕ → Loop W → Loop W
  run [] s = s
  run (now ∷ nows) s =
      let (due, s') = fire_due now s in
      let rest = run nows s' in elim due [ sleep w ↦ rest | _ ↦ s' ]

  -- `start` makes a task unless there is one, and `stop` forgets it.
  pub start : Loop W → Loop W
  start s = record s { running = true }

  pub stop : Loop W → Loop W
  stop s = record s { running = false }

  -- `start_timer_loop`
  pub start_timer_loop : Dict ℕ → W → Option (Loop W)
  unfolding new start
  start_timer_loop [] w = none
  start_timer_loop (t ∷ ts) w = some (start (new (t ∷ ts) w))
