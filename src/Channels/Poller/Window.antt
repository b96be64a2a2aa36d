-- ===== src/Channels/Poller/Window.antt =====
-- When a poll happens, how far back it asks, and what its errors do.
use mathlib.Core.Path.{subst}
use codegen_product_kit.Base.{
  ℕ, ◌+◌, ◌-◌, ◌*◌, ◌≤◌, ◌≡◌, refl, String, Bool, true, false, ◌||◌, Option, none, some, List, [],
  ◌∷◌, if◌then◌else◌, ◌==◌, ltb, arith, Bool-cases, inl, inr, ◌⊎◌, ◌∙◌, ap, sym,
}
use codegen_product_kit.Base.Dict.{Dict}
use codegen_product_kit.Base.Sorting.{sort_by}
use codegen_product_kit.Channels.Store.{PollState, Tables, Library, union}
use codegen_product_kit.Channels.Poller.{
  ServiceError, Reply, page, failed, Client, clamp, window, page_of, poll, settle, names, leq_text,
  retried, restarted, retention_horizon, is_waiting, poll_subscribers,
}

same_either : (b : Bool) (x : Tables) → (if b then x else x) ≡ x
same_either true x = refl
same_either false x = refl

abbrev pub is_empty : Dict (Dict ℕ) → Bool
is_empty [] = true
is_empty (e ∷ d) = false

-- Without a client, once stopped, before the instant of a retry, and without subscriptions, a poll
-- changes nothing.
pub poll_idle :
    (lib : Library) (client : Option Client) (at : ℕ) (db : Tables)
    → ((client ≡ none) ⊎ (db.poll_state.stopped ≡ true))
      ⊎ (((retry : ℕ) × (db.poll_state.retry_at ≡ some retry) × (ltb at retry ≡ true))
          ⊎ (union db ≡ []))
    → poll lib client at db ≡ db
unfolding poll
poll_idle lib none at db h = refl
poll_idle lib (some client) at db (inl (inl h)) = absurd cc
poll_idle lib (some client) at db (inl (inr h)) =
    ap
      (λ b.
        if b || is_waiting at db.poll_state.retry_at
        then db
        else poll_subscribers lib client at db (union db))
      h
poll_idle lib (some client) at db (inr (inl (retry, h, k))) =
    ap (λ b. if b then db else poll_subscribers lib client at db (union db)) (waits retry h k)
  where
    waits :
        (retry : ℕ)
        → db.poll_state.retry_at ≡ some retry
        → ltb at retry ≡ true
        → (db.poll_state.stopped || is_waiting at db.poll_state.retry_at) ≡ true
    waits retry h k = ground arith
poll_idle lib (some client) at db (inr (inr h)) =
    ap
      (λ (d : Dict (Dict ℕ)).
        if db.poll_state.stopped || is_waiting at db.poll_state.retry_at
        then db
        else poll_subscribers lib client at db d)
      h
    ∙ same_either (db.poll_state.stopped || is_waiting at db.poll_state.retry_at) db

neither : (b c : Bool) → b ≡ false → c ≡ false → (b || c) ≡ false
neither b c p q = cc

-- What a state of the poll is allowed to become.
abbrev pub Advanced : ℕ → Option ℕ → Option ℕ → Type 0
Advanced at before after =
    (s : ℕ) × (after ≡ some s) × (at - retention_horizon ≤ s) × ((t : ℕ) → before ≡ some t → t ≤ s)

retried-since :
    (client : Client) (channels : List String) (state : PollState) (since at : ℕ) (r : Reply)
    → state.since_at ≡ some since
    → let (reply, s, state') = retried client channels state since at r in
      (state'.since_at ≡ some s) × (since ≤ s)
retried-since client channels state since at (page p) h = (h, omega arith)
retried-since client channels state since at (failed e) h = elim (Bool-cases (e.status == 409)) [
  | inl c ↦ rw c (refl, ground arith)
  | inr c ↦ rw c (h, omega arith)
]

-- The same of an instant.
abbrev Follows : ℕ → Option ℕ → ℕ → Type 0
Follows at before s = (at - retention_horizon ≤ s) × ((t : ℕ) → before ≡ some t → t ≤ s)

settle-Advanced :
    (lib : Library) (at : ℕ) (subscribers : Dict (Dict ℕ)) (db : Tables) (before : Option ℕ)
    (reply : Reply) (s : ℕ) (state : PollState)
    → state.since_at ≡ some s
    → Follows at before s
    → Advanced at before (settle lib at subscribers db (reply, s, state)).poll_state.since_at
settle-Advanced lib at subscribers db before (page p) s state h (w, m) =
    (clamp s at, refl, ground arith, λ u f. ground (arith, m u f))
settle-Advanced lib at subscribers db before (failed e) s state h (w, m) =
    elim (e.status == 401 || e.status == 403)
      as (λ b.
        Advanced at before
          (if◌then◌else◌ {A = PollState} b (record state { stopped = true })
            (record state { retry_at = some (at + e.retry_after * 1000000) })).since_at) [
              | true ↦ (s, h, w, m)
              | false ↦ (s, h, w, m)
            ]

window-Follows : (state : PollState) (at s : ℕ) → window state at ≤ s → Follows at state.since_at s
unfolding window
window-Follows state at s h = (ground arith, λ t e. ground arith)

subscribers-Advanced :
    (lib : Library) (client : Client) (at : ℕ) (db : Tables) (subscribers : Dict (Dict ℕ))
    → (poll_subscribers lib client at db subscribers ≡ db)
      ⊎ Advanced at db.poll_state.since_at
          (poll_subscribers lib client at db subscribers).poll_state.since_at
unfolding page_of
subscribers-Advanced lib client at db [] = inl refl
subscribers-Advanced lib client at db (s ∷ subscribers) =
    let since = window db.poll_state at in
    let state : PollState = record db.poll_state { since_at = some since } in
    let channels = sort_by leq_text (names (s ∷ subscribers)) in
    let reply = client channels since state.cursor in
    let (stored, later) = retried-since client channels state since at reply refl in
    let answer = retried client channels state since at reply in
    inr (
      settle-Advanced lib at (s ∷ subscribers) db db.poll_state.since_at answer.0 answer.1 answer.2
        stored (window-Follows db.poll_state at answer.1 later))

-- A poll changes nothing, or the instant from which the next one asks is set: at most thirty days back
-- and, however the platform answered, not before the one that was set.
pub poll_window :
    (lib : Library) (client : Option Client) (at : ℕ) (db : Tables)
    → (poll lib client at db ≡ db)
      ⊎ Advanced at db.poll_state.since_at (poll lib client at db).poll_state.since_at
unfolding poll
poll_window lib none at db = inl refl
poll_window lib (some client) at db =
    elim (db.poll_state.stopped || is_waiting at db.poll_state.retry_at)
      as (λ b.
        let db' = if b then db else poll_subscribers lib client at db (union db) in
        (db' ≡ db) ⊎ Advanced at db.poll_state.since_at db'.poll_state.since_at) [
          | true ↦ inl refl
          | false ↦ subscribers-Advanced lib client at db (union db)
        ]

page_of-failed :
    (client : Client) (e : ServiceError) (channels : List String) (state : PollState) (since at : ℕ)
    → ((c : List String) (n : ℕ) (k : Option String) → client c n k ≡ failed e)
    → (s : ℕ) × (state' : PollState) × (page_of client channels state since at
        ≡ (failed e, s, state'))
      × (state'.stopped ≡ state.stopped)
unfolding page_of
page_of-failed client e channels state since at h = elim (Bool-cases (e.status == 409)) [
  | inl c ↦ (clamp since at, restarted state since at, rw (h, c) (rw h refl), refl)
  | inr c ↦ (since, state, rw (h, c) refl, refl)
]

-- The state that an error leaves.
abbrev after_error : ServiceError → ℕ → PollState → PollState
after_error e at state =
    if e.status == 401 || e.status == 403
    then record state { stopped = true }
    else record state { retry_at = some (at + e.retry_after * 1000000) }

subscribers-failed :
    (lib : Library) (client : Client) (e : ServiceError) (at : ℕ) (db : Tables)
    (subscribers : Dict (Dict ℕ))
    → ((c : List String) (n : ℕ) (k : Option String) → client c n k ≡ failed e)
    → db.poll_state.stopped ≡ false
    → is_empty subscribers ≡ false
    → (state : PollState) × (state.stopped ≡ false)
      × (poll_subscribers lib client at db subscribers
          ≡ record db { poll_state = after_error e at state })
subscribers-failed lib client e at db [] h a n = absurd cc
subscribers-failed lib client e at db (s ∷ subscribers) h a n =
    let since = window db.poll_state at in
    let (t, state, f, k) =
      page_of-failed client e (sort_by leq_text (names (s ∷ subscribers)))
        (record db.poll_state { since_at = some since }) since at h in
    (state, k ∙ a, ap (settle lib at (s ∷ subscribers) db) f)

abbrev Refused : Library → ServiceError → ℕ → Tables → Tables → Type 0
Refused lib e at db db' =
    (db' ≡ record db { poll_state = db'.poll_state })
    × ((e.status == 401 || e.status == 403) ≡ true
        → (client' : Option Client) (at' : ℕ) → poll lib client' at' db' ≡ db')
    × ((e.status == 401 || e.status == 403) ≡ false
        → (db'.poll_state.stopped ≡ false)
          × (db'.poll_state.retry_at ≡ some (at + e.retry_after * 1000000)))

after_error-Refused :
    (lib : Library) (e : ServiceError) (at : ℕ) (db : Tables) (state : PollState)
    → state.stopped ≡ false
    → Refused lib e at db (record db { poll_state = after_error e at state })
after_error-Refused lib e at db state k = (
  refl,
  λ b client' at'.
      poll_idle lib client' at' (record db { poll_state = after_error e at state })
        (inl (inr (rw b refl))),
  λ b. (rw b k, rw b refl),
)

-- A poll that asks a platform which answers an error, to a restart too, changes the state of the poll
-- only. For 401 and 403 the poll stops: no later one, whatever its client, changes anything. For another
-- status it waits as long as the error says.
pub poll_refused :
    (lib : Library) (client : Client) (e : ServiceError) (at : ℕ) (db : Tables)
    → ((c : List String) (n : ℕ) (k : Option String) → client c n k ≡ failed e)
    → db.poll_state.stopped ≡ false
    → is_waiting at db.poll_state.retry_at ≡ false
    → is_empty (union db) ≡ false
    → let db' = poll lib (some client) at db in
      (db' ≡ record db { poll_state = db'.poll_state })
      × ((e.status == 401 || e.status == 403) ≡ true
          → (client' : Option Client) (at' : ℕ) → poll lib client' at' db' ≡ db')
      × ((e.status == 401 || e.status == 403) ≡ false
          → (db'.poll_state.stopped ≡ false)
            × (db'.poll_state.retry_at ≡ some (at + e.retry_after * 1000000)))
unfolding poll
poll_refused lib client e at db h a w n =
    let (state, k, f) = subscribers-failed lib client e at db (union db) h a n in
    subst (Refused lib e at db) (sym (asks ∙ f)) (after_error-Refused lib e at db state k)
  where
    asks : poll lib (some client) at db ≡ poll_subscribers lib client at db (union db)
    asks =
        ap (λ b. if b then db else poll_subscribers lib client at db (union db))
          (neither db.poll_state.stopped (is_waiting at db.poll_state.retry_at) a w)
