-- ===== src/Jobs/Retry.antt =====
-- Retries of a command identity, and how often its event is published over any sequence of fires.
use codegen_product_kit.Base.{
  ℕ, ◌+◌, ◌≤◌, String, ◌≡◌, refl, Bool, true, Option, none, some, List, [], ◌∷◌, ◌++◌, arith,
  if◌then◌else◌, Bool-cases, Option-cases, inl, inr, ok, same_pair, same_pair_iff,
}
use codegen_product_kit.Jobs.{
  dispatched, undelivered, JobCommand, JobFire, JobFired, Evidence, Core, Publish, unacknowledged,
  get, emit_once, fire, to_contract, job_fired,
}
use codegen_product_kit.Jobs.Ledger.{get-identity, get-mark_dispatched}
use codegen_product_kit.Jobs.Fire.{
  recorded, fire_valid, get-recorded, get-recorded_other, row, get-row, settled, fire_evidence,
  fire_refused,
}

-- One fire with the conditions of the world outside: what the stream does, and the two times.
pub record Call (A : Type 0) : Type 0 where
  pub payload : JobFire A
  pub publish : Publish
  pub accepted_at : ℕ
  pub dispatched_at : ℕ

module _ {A : Type 0} where
  -- A valid fire of an identity whose row is terminal returns that row's evidence, publishes nothing
  -- and writes nothing.
  pub fire_terminal :
      (schemas : String → Option (A → Bool)) (f : JobFire A) (p : Publish) (at now : ℕ) (s : Core A)
      (v : A → Bool) (c : JobCommand A)
      → schemas f.name ≡ some v
      → v f.arguments ≡ true
      → get f.fired_by_product f.command_id s.ledger ≡ some c
      → c.dispatch_status ≡ dispatched
      → fire schemas f p at now s ≡ (ok (to_contract c), s)
  unfolding emit_once
  fire_terminal schemas f p at now s v c d e g t =
      rw (fire_valid schemas f p at now s v d e) (ground arith)

  -- Once a fire has returned evidence that says `dispatched`, every later valid fire of the same
  -- product and command id, with whatever name and arguments and whatever the stream would do,
  -- returns the same evidence, publishes nothing and writes nothing.
  pub fire_retry :
      (schemas : String → Option (A → Bool)) (f g : JobFire A) (p q : Publish) (at now at' now' : ℕ)
      (s : Core A) (v w : A → Bool) (ev : Evidence A)
      → schemas f.name ≡ some v
      → v f.arguments ≡ true
      → (fire schemas f p at now s).0 ≡ ok ev
      → ev.dispatch_status ≡ dispatched
      → g.fired_by_product ≡ f.fired_by_product
      → g.command_id ≡ f.command_id
      → schemas g.name ≡ some w
      → w g.arguments ≡ true
      → let s' = (fire schemas f p at now s).1 in fire schemas g q at' now' s' ≡ (ok ev, s')
  fire_retry schemas f g p q at now at' now' s v w ev d e r t ep ei d' e' =
      let s' = (fire schemas f p at now s).1 in
      let c = settled p now (row f at s) in
      let (shown, held) = fire_evidence schemas f p at now s v d e in
      ground (
        arith,
        shown,
        fire_terminal schemas g q at' now' s' w c d' e' (rw (ep, ei) held) (ground arith),
      )

  -- How many events of one identity the stream carries.
  abbrev pub emitted : String → String → List (JobFired A) → ℕ
  emitted p i [] = 0
  emitted p i (e ∷ es) =
      (if same_pair e.fired_by_product e.command_id p i then 1 else 0) + emitted p i es

  abbrev status_of : Option (JobCommand A) → ℕ
  status_of none = 0
  status_of (some c) = elim c.dispatch_status [ dispatched ↦ 1 | undelivered ↦ 0 ]

  -- 1 if the identity's row is terminal, else 0.
  abbrev pub terminal : String → String → Core A → ℕ
  terminal p i s = status_of (get p i s.ledger)

  -- 1 if the call is for the identity and its publication raised after the event was taken.
  abbrev pub unacknowledged_call : String → String → Call A → ℕ
  unacknowledged_call p i c = elim c.publish [
    | unacknowledged ↦
        if same_pair c.payload.fired_by_product c.payload.command_id p i then 1 else 0
    | _ ↦ 0
  ]

  emitted-append :
      (p i : String) (es : List (JobFired A)) (e : JobFired A)
      → emitted p i (es ++ e ∷ [])
        ≡ emitted p i es + (if same_pair e.fired_by_product e.command_id p i then 1 else 0)
  emitted-append p i [] e = ground arith
  emitted-append p i (x ∷ es) e = ground (arith, emitted-append p i es e)

  -- What one call adds to the stream for an identity, against what it adds to the row's status.
  abbrev Accounts : String → String → ℕ → Core A → Core A → Type 0
  Accounts p i lost s s' =
      (emitted p i s'.events + terminal p i s ≤ emitted p i s.events + terminal p i s' + lost)
      × (emitted p i s.events + terminal p i s' ≤ emitted p i s'.events + terminal p i s)

  -- To record a fire changes the status of no identity.
  terminal-recorded :
      (p i : String) (f : JobFire A) (at : ℕ) (s : Core A)
      → terminal p i (record s { ledger = recorded f at s.ledger }) ≡ terminal p i s
  terminal-recorded p i f at s = elim (Bool-cases (same_pair f.fired_by_product f.command_id p i)) [
    | inr n ↦ rw (get-recorded_other f at p i s.ledger n) refl
    | inl y ↦
        let (ep, ei) = (same_pair_iff f.fired_by_product f.command_id p i).0 y in
        rw (← ep, ← ei) (ground (arith, get-recorded f at s.ledger))
  ]

  emit_once-Accounts :
      (p i q j : String) (u : Publish) (now : ℕ) (s : Core A) (c : JobCommand A)
      → get q j s.ledger ≡ some c
      → Accounts p i
          (elim u [ unacknowledged ↦ if same_pair q j p i then 1 else 0 | _ ↦ 0 ])
          s
          (emit_once q j u now s).1
  unfolding emit_once
  emit_once-Accounts p i q j u now s c h = ground (
    arith,
    emitted-append p i s.events (job_fired c),
    get-identity q j s.ledger {c = c} h,
    get-mark_dispatched q j p i now s.ledger,
    same_pair_iff q j p i,
  )

  fire-Accounts :
      (schemas : String → Option (A → Bool)) (p i : String) (c : Call A) (s : Core A)
      → Accounts p i
          (unacknowledged_call p i c)
          s
          (fire schemas c.payload c.publish c.accepted_at c.dispatched_at s).1
  fire-Accounts schemas p i c s =
      let f = c.payload in
      let at = c.accepted_at in
      let refused = fire_refused schemas f c.publish at c.dispatched_at s in
      elim (Option-cases (schemas f.name)) [
        | inl e ↦ rw (refused.0 e) (omega arith)
        | inr (v, e) ↦ elim (Bool-cases (v f.arguments)) [
          | inr n ↦ rw (refused.1 v e n) (omega arith)
          | inl y ↦ rw (fire_valid schemas f c.publish at c.dispatched_at s v e y) (
              omega (
                arith,
                terminal-recorded p i f at s,
                emit_once-Accounts p i f.fired_by_product f.command_id c.publish c.dispatched_at
                    (record s { ledger = recorded f at s.ledger }) (row f at s) (get-row f at s),
              ))
        ]
      ]

  -- Any number of fires, one after the other.
  unfoldable pub fires : (String → Option (A → Bool)) → List (Call A) → Core A → Core A
  fires schemas [] s = s
  fires schemas (c ∷ cs) s =
      fires schemas cs (fire schemas c.payload c.publish c.accepted_at c.dispatched_at s).1

  abbrev pub unacknowledged_calls : String → String → List (Call A) → ℕ
  unacknowledged_calls p i [] = 0
  unacknowledged_calls p i (c ∷ cs) = unacknowledged_call p i c + unacknowledged_calls p i cs

  fires-Accounts :
      (schemas : String → Option (A → Bool)) (p i : String) (cs : List (Call A)) (s : Core A)
      → Accounts p i (unacknowledged_calls p i cs) s (fires schemas cs s)
  unfolding fires
  fires-Accounts schemas p i [] s = omega arith
  fires-Accounts schemas p i (c ∷ cs) s = omega (
    arith,
    fire-Accounts schemas p i c s,
    fires-Accounts schemas p i cs
        (fire schemas c.payload c.publish c.accepted_at c.dispatched_at s).1,
  )

  abbrev pub empty : Core A
  empty = record { ledger = []; events = [] }

  terminal-le : (p i : String) (s : Core A) → terminal p i s ≤ 1
  terminal-le p i s = ground arith

  -- Over any sequence of fires from an empty ledger, valid or not, the stream carries at most one
  -- event of an identity, and one more for each of its publications that raised after the stream had
  -- taken the event; and if the identity's row is terminal, its event was published.
  pub fires_publish_once :
      (schemas : String → Option (A → Bool)) (p i : String) (cs : List (Call A))
      → let s = fires schemas cs empty in
        (emitted p i s.events ≤ 1 + unacknowledged_calls p i cs)
        × (terminal p i s ≤ emitted p i s.events)
  unfolding get
  fires_publish_once schemas p i cs =
      omega (arith, fires-Accounts schemas p i cs empty, terminal-le p i (fires schemas cs empty))
