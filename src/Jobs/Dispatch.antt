-- ===== src/Jobs/Dispatch.antt =====
-- `_emit_once` of template/services/backend/src/controllers/jobs.py by any number of sessions at once,
-- on one command identity. A session records and commits, waits for the row lock, reads the row
-- again, publishes, marks the row and commits, which releases the lock. It may crash between any two
-- of these, which releases the lock too and undoes what it has not committed.
use codegen_product_kit.Base.{
  ℕ, ◌+◌, ◌≤◌, ◌≡◌, Bool, true, false, Option, none, some, arith, if◌then◌else◌, Option-cases, inl,
  inr, ◌==◌,
}
use codegen_product_kit.Jobs.{DispatchStatus, dispatched, undelivered}

-- Where a session stands in `fire`.
pub data Phase : Type 0 where
  arrived recorded locked published returned crashed : Phase

-- The row of the identity, the session that holds its lock, the phase of each session, the number of
-- events that the stream has taken for the identity, and of those the ones whose session could not
-- commit the mark: it crashed after publishing, or the publication raised though the stream took it.
pub record World : Type 0 where
  pub row : Option DispatchStatus
  pub holder : Option ℕ
  pub phase : ℕ → Phase
  pub events : ℕ
  pub lost : ℕ

abbrev pub move : (ℕ → Phase) → ℕ → Phase → ℕ → Phase
move phase n x m = if m == n then x else phase m

-- The insert leaves a row that is there as it is.
abbrev pub recorded_row : Option DispatchStatus → Option DispatchStatus
recorded_row none = some undelivered
recorded_row (some status) = some status

abbrev pub released : ℕ → Option ℕ → Option ℕ
released n none = none
released n (some m) = if m == n then none else some m

abbrev pub lost_by : Phase → ℕ
lost_by published = 1
lost_by _ = 0

pub data Step : World → World → Type 0 where
  record_and_commit :
      (w : World) (n : ℕ)
      → w.phase n ≡ arrived
      → Step w (record w { row = recorded_row w.row; phase = move w.phase n recorded })
  lock :
      (w : World) (n : ℕ)
      → w.phase n ≡ recorded
      → w.holder ≡ none
      → Step w (record w { holder = some n; phase = move w.phase n locked })
  publish :
      (w : World) (n : ℕ)
      → w.phase n ≡ locked
      → w.row ≡ some undelivered
      → Step w (record w { phase = move w.phase n published; events = w.events + 1 })
  refuse :
      (w : World) (n : ℕ)
      → w.phase n ≡ locked
      → w.row ≡ some undelivered
      → Step w (record w { holder = none; phase = move w.phase n returned })
  unacknowledged :
      (w : World) (n : ℕ)
      → w.phase n ≡ locked
      → w.row ≡ some undelivered
      → Step w (record w {
        holder = none;
        phase = move w.phase n returned;
        events = w.events + 1;
        lost = w.lost + 1;
      })
  already :
      (w : World) (n : ℕ)
      → w.phase n ≡ locked
      → w.row ≡ some dispatched
      → Step w (record w { holder = none; phase = move w.phase n returned })
  mark_and_commit :
      (w : World) (n : ℕ)
      → w.phase n ≡ published
      → Step w (record w { row = some dispatched; holder = none; phase = move w.phase n returned })
  crash :
      (w : World) (n : ℕ)
      → Step w (record w {
        holder = released n w.holder;
        phase = move w.phase n crashed;
        lost = w.lost + lost_by (w.phase n);
      })

pub data Reach (w : World) : World → Type 0 where
  here : Reach w w
  next : {u v : World} → Reach w u → Step u v → Reach w v

-- No row, no lock, no event, and every session about to begin.
abbrev pub start : World
start = record { row = none; holder = none; phase = λ n. arrived; events = 0; lost = 0 }

abbrev pub holds : Phase → Bool
holds locked = true
holds published = true
holds _ = false

abbrev terminal : Option DispatchStatus → ℕ
terminal (some dispatched) = 1
terminal _ = 0

-- 1 while the session that holds the lock has published and not yet committed.
abbrev in_flight : (ℕ → Phase) → Option ℕ → ℕ
in_flight phase none = 0
in_flight phase (some n) = lost_by (phase n)

record Inv (w : World) : Type 0 where
  holder_holds : (n : ℕ) → w.holder ≡ some n → holds (w.phase n) ≡ true
  only_holder : (n : ℕ) → holds (w.phase n) ≡ true → w.holder ≡ some n
  published_row : (n : ℕ) → w.phase n ≡ published → w.row ≡ some undelivered
  accounted : w.events ≡ w.lost + terminal w.row + in_flight w.phase w.holder

start-Inv : Inv start
start-Inv = record {
  holder_holds = λ n h. cc;
  only_holder = λ n h. cc;
  published_row = λ n h. cc;
  accounted = omega arith;
}

Step-holder :
    {u v : World} → Step u v → Inv u → (n : ℕ) → v.holder ≡ some n → holds (v.phase n) ≡ true
Step-holder (record_and_commit w k e) i n h = ground (arith, i.holder_holds n)
Step-holder (lock w k e f) i n h = ground (arith, i.holder_holds n)
Step-holder (publish w k e f) i n h = ground (arith, i.holder_holds n)
Step-holder (refuse w k e f) i n h = ground (arith, i.holder_holds n)
Step-holder (unacknowledged w k e f) i n h = ground (arith, i.holder_holds n)
Step-holder (already w k e f) i n h = ground (arith, i.holder_holds n)
Step-holder (mark_and_commit w k e) i n h = ground (arith, i.holder_holds n)
Step-holder (crash w k) i n h = ground (arith, i.holder_holds n)

Step-only :
    {u v : World} → Step u v → Inv u → (n : ℕ) → holds (v.phase n) ≡ true → v.holder ≡ some n
Step-only (record_and_commit w k e) i n h = ground (arith, i.only_holder n)
Step-only (lock w k e f) i n h = ground (arith, i.only_holder n)
Step-only (publish w k e f) i n h = ground (arith, i.only_holder n, i.only_holder k)
Step-only (refuse w k e f) i n h = ground (arith, i.only_holder n, i.only_holder k)
Step-only (unacknowledged w k e f) i n h = ground (arith, i.only_holder n, i.only_holder k)
Step-only (already w k e f) i n h = ground (arith, i.only_holder n, i.only_holder k)
Step-only (mark_and_commit w k e) i n h = ground (arith, i.only_holder n, i.only_holder k)
Step-only (crash w k) i n h = ground (arith, i.only_holder n)

Step-published :
    {u v : World} → Step u v → Inv u → (n : ℕ) → v.phase n ≡ published → v.row ≡ some undelivered
Step-published (record_and_commit w k e) i n h = ground (arith, i.published_row n)
Step-published (lock w k e f) i n h = ground (arith, i.published_row n)
Step-published (publish w k e f) i n h = ground (arith, i.published_row n)
Step-published (refuse w k e f) i n h = ground (arith, i.published_row n)
Step-published (unacknowledged w k e f) i n h = ground (arith, i.published_row n)
Step-published (already w k e f) i n h = ground (arith, i.published_row n)
Step-published (mark_and_commit w k e) i n h = ground (arith, i.only_holder n, i.only_holder k)
Step-published (crash w k) i n h = ground (arith, i.published_row n)

Step-accounted :
    {u v : World}
    → Step u v
    → Inv u
    → v.events ≡ v.lost + terminal v.row + in_flight v.phase v.holder
Step-accounted (record_and_commit w k e) i = elim (Option-cases w.holder) [
  | inl h ↦ ground (arith, i.accounted)
  | inr (m, h) ↦ ground (arith, i.accounted, i.holder_holds m)
]
Step-accounted (lock w k e f) i = ground (arith, i.accounted)
Step-accounted (publish w k e f) i = ground (arith, i.accounted, i.only_holder k)
Step-accounted (refuse w k e f) i = ground (arith, i.accounted, i.only_holder k)
Step-accounted (unacknowledged w k e f) i = ground (arith, i.accounted, i.only_holder k)
Step-accounted (already w k e f) i = ground (arith, i.accounted, i.only_holder k)
Step-accounted (mark_and_commit w k e) i =
    ground (arith, i.accounted, i.only_holder k, i.published_row k)
Step-accounted (crash w k) i = elim (Option-cases w.holder) [
  | inl h ↦ ground (arith, i.accounted, i.only_holder k)
  | inr (m, h) ↦ ground (arith, i.accounted, i.only_holder k, i.holder_holds m)
]

Reach-Inv : {w : World} → Reach start w → Inv w
Reach-Inv here = start-Inv
Reach-Inv (next r st) =
    let i = Reach-Inv r in
    record {
      holder_holds = Step-holder st i;
      only_holder = Step-only st i;
      published_row = Step-published st i;
      accounted = Step-accounted st i;
    }

-- However the sessions interleave and whenever they crash, at most one of them is between taking the
-- row lock and releasing it.
pub mutual_exclusion :
    {w : World} (m n : ℕ)
    → Reach start w
    → holds (w.phase m) ≡ true
    → holds (w.phase n) ≡ true
    → m ≡ n
mutual_exclusion m n r hm hn =
    let i = Reach-Inv r in ground (arith, i.only_holder m, i.only_holder n)

-- However the sessions interleave and whenever they crash, the stream takes at most one event of the
-- identity, and one more for each publication that was not followed by its commit, because the session
-- crashed in between or the publication raised after the stream had taken the event; and a row that
-- is marked dispatched has had its event published.
pub interleaved_publish_once :
    {w : World} → Reach start w → (w.events ≤ 1 + w.lost) × (w.row ≡ some dispatched → 1 ≤ w.events)
interleaved_publish_once {w} r =
    let i = Reach-Inv r in
    elim (Option-cases w.holder) [
      | inl h ↦ (ground (arith, i.accounted), ground (arith, i.accounted))
      | inr (m, h) ↦ (ground (arith, i.accounted, i.published_row m), ground (arith, i.accounted))
    ]
