-- ===== src/Channels/Poller.antt =====
-- The poller: codegen_kit_tg_channels/polling.py and runtime.py of packages/codegen-kit-tg-channels. An
-- instant minus a duration stops at 0, which the maximum with a later instant hides.
pub mod Window
use Prim.Native.Nat.{Ordering}
use Prim.Native.String.{compare}
use codegen_product_kit.Base.{
  ℕ, ◌+◌, ◌-◌, ◌*◌, max, String, Bool, true, false, ◌||◌, Option, none, some, List, [], ◌∷◌, ◌++◌,
  map, if◌then◌else◌, ◌==◌, ltb, str_eq,
}
use codegen_product_kit.Base.Dict.{Dict}
use codegen_product_kit.Base.Sorting.{sort_by}
use codegen_product_kit.Channels.Store.{
  Post, PollState, Tables, Delivery, Library, union, accept_page, pending, confirm_delivery,
}

abbrev pub hour : ℕ
hour = 3600000000

abbrev pub restart_margin : ℕ
restart_margin = 24 * hour

abbrev pub retention_horizon : ℕ
retention_horizon = 30 * 24 * hour

abbrev pub first_window : ℕ
first_window = 72 * hour

-- A `ServiceError` of client.py; the delay is in seconds.
pub record ServiceError : Type 0 where
  pub status : ℕ
  pub retry_after : ℕ

pub record PostPage : Type 0 where
  pub items : List Post
  pub next_cursor : String

pub data Reply : Type 0 where
  page : PostPage → Reply
  failed : ServiceError → Reply

-- `ReaderClient.posts`: the platform's answer for channels, an instant and a cursor.
abbrev pub Client : Type 0
Client = List String → ℕ → Option String → Reply

abbrev pub clamp : ℕ → ℕ → ℕ
clamp since at = max (max since (at - restart_margin)) (at - retention_horizon)

abbrev pub restarted : PollState → ℕ → ℕ → PollState
restarted state since at = record state { cursor = none; since_at = some (clamp since at) }

abbrev retried : Client → List String → PollState → ℕ → ℕ → Reply → Reply × ℕ × PollState
retried client channels state since at (page p) = (page p, since, state)
retried client channels state since at (failed e) =
    if e.status == 409
    then (client channels (clamp since at) none, clamp since at, restarted state since at)
    else (failed e, since, state)

-- `Poller._page`: the answer, and `since_at` and the state afterwards.
pub page_of : Client → List String → PollState → ℕ → ℕ → Reply × ℕ × PollState
page_of client channels state since at =
    retried client channels state since at (client channels since state.cursor)

abbrev or_default : ℕ → Option ℕ → ℕ
or_default d none = d
or_default d (some n) = n

-- `max(state["since_at"] or at - 72 h, at - 30 d)`
pub window : PollState → ℕ → ℕ
window state at = max (or_default (at - first_window) state.since_at) (at - retention_horizon)

abbrev names : Dict (Dict ℕ) → List String
names d = map (λ e. e.0) d

abbrev leq_text : String → String → Bool
leq_text a b = elim (compare a b) [ Ordering.gt ↦ false | _ ↦ true ]

abbrev save_state : PollState → Tables → Tables
save_state state db = record db { poll_state = state }

abbrev settle : Library → ℕ → Dict (Dict ℕ) → Tables → Reply × ℕ × PollState → Tables
settle lib at subscribers db (page p, since, state) =
    save_state
      (record state {
        cursor = some p.next_cursor;
        since_at = some (clamp since at);
        retry_at = none;
      })
      (accept_page lib at subscribers p.items db)
settle lib at subscribers db (failed e, since, state) =
    save_state
      (if e.status == 401 || e.status == 403
        then record state { stopped = true }
        else record state { retry_at = some (at + e.retry_after * 1000000) })
      db

abbrev is_waiting : ℕ → Option ℕ → Bool
is_waiting at none = false
is_waiting at (some retry) = ltb at retry

abbrev poll_subscribers : Library → Client → ℕ → Tables → Dict (Dict ℕ) → Tables
poll_subscribers lib client at db [] = db
poll_subscribers lib client at db (s ∷ subscribers) =
    let since = window db.poll_state at in
    settle lib at (s ∷ subscribers) db (
      page_of client (sort_by leq_text (names (s ∷ subscribers)))
        (record db.poll_state { since_at = some since }) since at)

abbrev poll_with : Library → ℕ → Tables → Option Client → Tables
poll_with lib at db none = db
poll_with lib at db (some client) =
    if db.poll_state.stopped || is_waiting at db.poll_state.retry_at
    then db
    else poll_subscribers lib client at db (union db)

-- `Poller.poll`, in one transaction.
pub poll : Library → Option Client → ℕ → Tables → Tables
unfolding page_of window
poll lib client at db = poll_with lib at db client

pub record World : Type 0 where
  pub tables : Tables
  pub stream : List Delivery

-- `Store.confirm`
abbrev confirm : ℕ → ℕ → Tables → Tables
confirm event_id at db = record db { deliveries = map (confirm_delivery event_id at) db.deliveries }

-- The loop of `emit_pending`, `publish` telling for each event whether the stream takes it; the result is
-- false if a publication raised, which ends the loop.
pub emit_rows : (ℕ → Bool) → ℕ → List Delivery → World → Bool × World
emit_rows publish at [] w = (true, w)
emit_rows publish at (row ∷ rows) w = elim (publish row.event_id) [
  | true ↦
      emit_rows publish at rows
        (record { tables = confirm row.event_id at w.tables; stream = w.stream ++ row ∷ [] })
  | false ↦ (false, w)
]

-- `Poller.emit_pending`
pub emit_pending : (ℕ → Bool) → ℕ → World → Bool × World
unfolding emit_rows
emit_pending publish at w = emit_rows publish at (pending w.tables) w

abbrev and_then : (World → Bool × World) → Bool × World → Bool × World
and_then f (false, w) = (false, w)
and_then f (true, w) = f w

-- `Poller.tick`
pub tick : Library → Option Client → (ℕ → Bool) → ℕ → World → Bool × World
unfolding emit_pending poll
tick lib client publish at w =
    and_then (λ w'. emit_pending publish at (record w' { tables = poll lib client at w'.tables }))
      (emit_pending publish at w)
