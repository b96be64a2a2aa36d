-- ===== src/Jobs.antt =====
-- The jobs core: template/services/backend/src/controllers/jobs.py over the ledger of
-- template/services/backend/src/app/repositories/job_command.py and the row of
-- template/services/backend/src/app/models/job_command.py. The arguments are JSON that the core
-- passes on, so their type is a parameter, and so is the generated table of argument schemas.
mod Ledger
mod Fire
mod Retry
mod Dispatch
mod Tests
use codegen_product_kit.Base.{
  ℕ, suc, String, Bool, true, false, ◌&&◌, Option, none, some, List, [], ◌∷◌, ◌++◌, same_pair,
  if◌then◌else◌, Http, ok, http_error, is_some, not,
}

pub data DispatchStatus : Type 0 where
  dispatched undelivered : DispatchStatus

pub record JobCommand (A : Type 0) : Type 0 where
  pub command_id : String
  pub name : String
  pub arguments : A
  pub fired_by_product : String
  pub fired_by_run : String
  pub dispatch_status : DispatchStatus
  pub accepted_at : ℕ
  pub dispatched_at : Option ℕ

pub record JobFire (A : Type 0) : Type 0 where
  pub command_id : String
  pub name : String
  pub arguments : A
  pub fired_by_product : String
  pub fired_by_run : String

-- The event that the stream carries.
pub record JobFired (A : Type 0) : Type 0 where
  pub contract_version : ℕ
  pub command_id : String
  pub name : String
  pub arguments : A
  pub fired_by_product : String
  pub fired_by_run : String
  pub accepted_at : ℕ

-- `JobCommandContract`, the evidence that the API returns.
pub record Evidence (A : Type 0) : Type 0 where
  pub contract_version : ℕ
  pub command_id : String
  pub name : String
  pub arguments : A
  pub fired_by_product : String
  pub fired_by_run : String
  pub dispatch_status : DispatchStatus
  pub accepted_at : ℕ
  pub dispatched_at : Option ℕ

-- The committed rows, in the order of their insertion, and the stream of published events.
pub record Core (A : Type 0) : Type 0 where
  pub ledger : List (JobCommand A)
  pub events : List (JobFired A)

-- What became of a call of `publish_job_fired`: it returned, it raised and nothing was published,
-- or it raised after the stream had taken the event.
pub data Publish : Type 0 where
  accepted refused unacknowledged : Publish

abbrev pub core_jobs_contract_version : ℕ
core_jobs_contract_version = 1

module _ {A : Type 0} where
  abbrev pub is_identity : String → String → JobCommand A → Bool
  is_identity product id c = same_pair c.fired_by_product c.command_id product id

  -- `JobCommandRepository.get`; the statement of `lock_for_dispatch` selects the same row.
  pub get : String → String → List (JobCommand A) → Option (JobCommand A)
  get product id [] = none
  get product id (c ∷ l) = if is_identity product id c then some c else get product id l

  -- The insert of `record`: `none` is the `IntegrityError` of the unique constraint.
  abbrev pub insert : JobCommand A → List (JobCommand A) → Option (List (JobCommand A))
  insert c l = if is_some (get c.fired_by_product c.command_id l) then none else some (l ++ c ∷ [])

  abbrev pub new_command : JobFire A → ℕ → JobCommand A
  new_command f now = record {
    command_id = f.command_id;
    name = f.name;
    arguments = f.arguments;
    fired_by_product = f.fired_by_product;
    fired_by_run = f.fired_by_run;
    dispatch_status = undelivered;
    accepted_at = now;
    dispatched_at = none;
  }

  -- After an `IntegrityError`: the row of the fire that won, or the error again.
  abbrev after_conflict :
      Option (JobCommand A)
      → List (JobCommand A)
      → Option (JobCommand A × Bool × List (JobCommand A))
  after_conflict none l = none
  after_conflict (some raced) l = some (raced, false, l)

  abbrev after_insert :
      JobCommand A
      → List (JobCommand A)
      → Option (List (JobCommand A))
      → Option (JobCommand A × Bool × List (JobCommand A))
  after_insert c l none = after_conflict (get c.fired_by_product c.command_id l) l
  after_insert c l (some l') = some (c, true, l')

  abbrev after_get :
      JobFire A
      → ℕ
      → List (JobCommand A)
      → Option (JobCommand A)
      → Option (JobCommand A × Bool × List (JobCommand A))
  after_get f now l (some existing) = some (existing, false, l)
  after_get f now l none = after_insert (new_command f now) l (insert (new_command f now) l)

  -- `JobCommandRepository.record`. The first lookup reads the ledger `seen`; another session may
  -- have committed before the flush, which meets the ledger `l`. `none` is an error raised again.
  pub record_command :
      JobFire A
      → ℕ
      → List (JobCommand A)
      → List (JobCommand A)
      → Option (JobCommand A × Bool × List (JobCommand A))
  unfolding get
  record_command f now seen l = after_get f now l (get f.fired_by_product f.command_id seen)

  abbrev pub mark : ℕ → JobCommand A → JobCommand A
  mark now c = record c { dispatch_status = dispatched; dispatched_at = some now }

  -- `mark_dispatched` writes to the row that `lock_for_dispatch` selected.
  pub mark_dispatched : String → String → ℕ → List (JobCommand A) → List (JobCommand A)
  mark_dispatched product id now [] = []
  mark_dispatched product id now (c ∷ l) =
      if is_identity product id c then mark now c ∷ l else c ∷ mark_dispatched product id now l

  abbrev pub to_contract : JobCommand A → Evidence A
  to_contract c = record {
    contract_version = core_jobs_contract_version;
    command_id = c.command_id;
    name = c.name;
    arguments = c.arguments;
    fired_by_product = c.fired_by_product;
    fired_by_run = c.fired_by_run;
    dispatch_status = c.dispatch_status;
    accepted_at = c.accepted_at;
    dispatched_at = c.dispatched_at;
  }

  abbrev pub job_fired : JobCommand A → JobFired A
  job_fired c = record {
    contract_version = core_jobs_contract_version;
    command_id = c.command_id;
    name = c.name;
    arguments = c.arguments;
    fired_by_product = c.fired_by_product;
    fired_by_run = c.fired_by_run;
    accepted_at = c.accepted_at;
  }

  -- `_emit`: whether delivery was reported, and the stream afterwards.
  abbrev pub emit : Publish → JobCommand A → List (JobFired A) → Bool × List (JobFired A)
  emit accepted c events = (true, events ++ job_fired c ∷ [])
  emit refused c events = (false, events)
  emit unacknowledged c events = (false, events ++ job_fired c ∷ [])

  abbrev dispatch :
      Publish → ℕ → JobCommand A → DispatchStatus → Core A → Http (Evidence A) × Core A
  dispatch p now c dispatched s = (ok (to_contract c), s)
  dispatch p now c undelivered s =
      let (delivered, events) = emit p c s.events in
      if delivered
      then (
        ok (to_contract (mark now c)),
        record {
          ledger = mark_dispatched c.fired_by_product c.command_id now s.ledger;
          events = events;
        },
      )
      else (ok (to_contract c), record s { events = events })

  abbrev locked : Publish → ℕ → Option (JobCommand A) → Core A → Http (Evidence A) × Core A
  locked p now none s = (http_error 500, s)
  locked p now (some c) s = dispatch p now c c.dispatch_status s

  -- `_emit_once`, with the row lock held from the lookup to the commit.
  pub emit_once : String → String → Publish → ℕ → Core A → Http (Evidence A) × Core A
  unfolding get mark_dispatched
  emit_once product id p now s = locked p now (get product id s.ledger) s

  abbrev commit_and_emit :
      JobFire A
      → Publish
      → ℕ
      → Core A
      → Option (JobCommand A × Bool × List (JobCommand A))
      → Http (Evidence A) × Core A
  commit_and_emit f p now s none = (http_error 500, s)
  commit_and_emit f p now s (some (c, created, l)) =
      emit_once f.fired_by_product f.command_id p now (record s { ledger = l })

  abbrev validated :
      Option (A → Bool) → JobFire A → Publish → ℕ → ℕ → Core A → Http (Evidence A) × Core A
  validated none f p accepted_at now s = (http_error 404, s)
  validated (some is_valid) f p accepted_at now s =
      if is_valid f.arguments
      then commit_and_emit f p now s (record_command f accepted_at s.ledger s.ledger)
      else (http_error 422, s)

  -- `JobsController.fire`, by one session. `schemas` is the generated `JOB_SCHEMAS` with its
  -- validator; the two times are those that the handler reads from the clock.
  pub fire :
      (String → Option (A → Bool))
      → JobFire A
      → Publish
      → ℕ
      → ℕ
      → Core A
      → Http (Evidence A) × Core A
  unfolding record_command emit_once
  fire schemas f p accepted_at now s = validated (schemas f.name) f p accepted_at now s

  abbrev found : Option (JobCommand A) → Http (Evidence A)
  found none = http_error 404
  found (some c) = ok (to_contract c)

  -- `JobsController.evidence`.
  pub evidence : String → String → Core A → Http (Evidence A)
  unfolding get
  evidence product id s = found (get product id s.ledger)
