-- ===== src/Jobs/Fire.antt =====
-- What one call of `JobsController.fire` does on each of its branches.
use codegen_product_kit.Base.{
  ℕ, String, ◌≡◌, refl, Bool, true, false, Option, none, some, List, [], ◌∷◌, ◌++◌, arith,
  if◌then◌else◌, Bool-cases, Option-cases, inl, inr, is_some, ok, http_error, same_pair,
  same_pair_iff,
}
use codegen_product_kit.Jobs.{
  dispatched, undelivered, JobCommand, JobFire, Core, Publish, accepted, get, new_command,
  record_command, mark, emit_once, fire, to_contract,
}
use codegen_product_kit.Jobs.Ledger.{
  IsUnique, get-append, get-identity, insert-IsUnique, get-mark_dispatched,
  mark_dispatched-IsUnique,
}

module _ {A : Type 0} where
  -- The ledger once the fire is recorded.
  abbrev pub recorded : JobFire A → ℕ → List (JobCommand A) → List (JobCommand A)
  recorded f now l =
      if is_some (get f.fired_by_product f.command_id l) then l else l ++ new_command f now ∷ []

  -- The first lookup of `record` may miss a row that another session commits before the flush. As
  -- rows are never deleted, the ledger afterwards is the same as if there had been no race.
  pub record_command_lem :
      (f : JobFire A) (now : ℕ) (seen l : List (JobCommand A))
      → (is_some (get f.fired_by_product f.command_id seen) ≡ true
          → is_some (get f.fired_by_product f.command_id l) ≡ true)
      → (c : JobCommand A) × (b : Bool) × (record_command f now seen l
          ≡ some (c, b, recorded f now l))
  unfolding record_command
  record_command_lem f now seen l kept =
      elim (Option-cases (get f.fired_by_product f.command_id seen)) [
        | inr (c, e) ↦ (c, false, ground arith)
        | inl e ↦ elim (Option-cases (get f.fired_by_product f.command_id l)) [
          | inl e' ↦ (new_command f now, true, ground arith)
          | inr (c, e') ↦ (c, false, ground arith)
        ]
      ]

  pub recorded-IsUnique :
      (f : JobFire A) (now : ℕ) (l : List (JobCommand A)) → IsUnique l → IsUnique (recorded f now l)
  recorded-IsUnique f now l u = ground (arith, insert-IsUnique (new_command f now) l)

  -- The row of the fire's identity once it is recorded: the first one stays.
  pub get-recorded :
      (f : JobFire A) (now : ℕ) (l : List (JobCommand A))
      → get f.fired_by_product f.command_id (recorded f now l)
        ≡ elim (get f.fired_by_product f.command_id l) [
          | some d ↦ some d
          | none ↦ some (new_command f now)
        ]
  get-recorded f now l = ground (
    arith,
    get-append f.fired_by_product f.command_id l (new_command f now),
    same_pair_iff f.fired_by_product f.command_id f.fired_by_product f.command_id,
  )

  pub get-recorded_other :
      (f : JobFire A) (now : ℕ) (p i : String) (l : List (JobCommand A))
      → same_pair f.fired_by_product f.command_id p i ≡ false
      → get p i (recorded f now l) ≡ get p i l
  get-recorded_other f now p i l h = ground (arith, get-append p i l (new_command f now))

  -- A valid fire is recorded, and then dispatched.
  pub fire_valid :
      (schemas : String → Option (A → Bool)) (f : JobFire A) (p : Publish) (at now : ℕ) (s : Core A)
      (v : A → Bool)
      → schemas f.name ≡ some v
      → v f.arguments ≡ true
      → fire schemas f p at now s
        ≡ emit_once f.fired_by_product f.command_id p now
            (record s { ledger = recorded f at s.ledger })
  unfolding fire
  fire_valid schemas f p at now s v d e =
      let (c, b, r) = record_command_lem f at s.ledger s.ledger (λ h. h) in rw (d, e, r) refl

  pub emit_once-IsUnique :
      (q i : String) (p : Publish) (now : ℕ) (s : Core A)
      → IsUnique s.ledger
      → IsUnique (emit_once q i p now s).1.ledger
  unfolding emit_once
  emit_once-IsUnique q i p now s u = elim (Option-cases (get q i s.ledger)) [
    | inl e ↦ rw e u
    | inr (c, e) ↦
        rw e (ground (arith, mark_dispatched-IsUnique c.fired_by_product c.command_id now s.ledger))
  ]

  -- Every fire, valid or not and whatever becomes of its event, keeps one row for each identity.
  pub fire-IsUnique :
      (schemas : String → Option (A → Bool)) (f : JobFire A) (p : Publish) (at now : ℕ) (s : Core A)
      → IsUnique s.ledger
      → IsUnique (fire schemas f p at now s).1.ledger
  unfolding fire
  fire-IsUnique schemas f p at now s u = elim (Option-cases (schemas f.name)) [
    | inl e ↦ rw e u
    | inr (v, e) ↦ elim (Bool-cases (v f.arguments)) [
      | inl y ↦ rw (fire_valid schemas f p at now s v e y) (
          emit_once-IsUnique f.fired_by_product f.command_id p now
            (record s { ledger = recorded f at s.ledger }) (recorded-IsUnique f at s.ledger u))
      | inr n ↦ rw (e, n) u
    ]
  ]

  -- A fire of an undeclared name, or with arguments that its schema refuses, is answered 404 or 422
  -- and leaves the ledger and the stream as they were.
  pub fire_refused :
      (schemas : String → Option (A → Bool)) (f : JobFire A) (p : Publish) (at now : ℕ) (s : Core A)
      → ((schemas f.name ≡ none) → fire schemas f p at now s ≡ (http_error 404, s))
        × ((v : A → Bool)
            → schemas f.name ≡ some v
            → v f.arguments ≡ false
            → fire schemas f p at now s ≡ (http_error 422, s))
  unfolding fire
  fire_refused schemas f p at now s = (λ e. rw e refl, λ v e n. rw (e, n) refl)

  abbrev row_or_new : JobFire A → ℕ → Option (JobCommand A) → JobCommand A
  row_or_new f at none = new_command f at
  row_or_new f at (some c) = c

  -- The row that `_emit_once` locks: the recorded one, or the new one.
  abbrev pub row : JobFire A → ℕ → Core A → JobCommand A
  row f at s = row_or_new f at (get f.fired_by_product f.command_id s.ledger)

  abbrev pub settled : Publish → ℕ → JobCommand A → JobCommand A
  settled p now c = elim c.dispatch_status [
    | dispatched ↦ c
    | undelivered ↦ elim p [ accepted ↦ mark now c | _ ↦ c ]
  ]

  pub get-row :
      (f : JobFire A) (at : ℕ) (s : Core A)
      → get f.fired_by_product f.command_id (recorded f at s.ledger) ≡ some (row f at s)
  get-row f at s = ground (arith, get-recorded f at s.ledger)

  -- A valid fire returns the row that the identity had before it, or the new row if it had none,
  -- marked dispatched if it was not yet and the stream took the event now; and that is what the
  -- ledger holds for the identity afterwards.
  pub fire_evidence :
      (schemas : String → Option (A → Bool)) (f : JobFire A) (p : Publish) (at now : ℕ) (s : Core A)
      (v : A → Bool)
      → schemas f.name ≡ some v
      → v f.arguments ≡ true
      → let (r, s') = fire schemas f p at now s in
        (r ≡ ok (to_contract (settled p now (row f at s))))
        × (get f.fired_by_product f.command_id s'.ledger ≡ some (settled p now (row f at s)))
  unfolding emit_once
  fire_evidence schemas f p at now s v d e = rw (fire_valid schemas f p at now s v d e) (
      ground (
        arith,
        get-row f at s,
        get-identity f.fired_by_product f.command_id (recorded f at s.ledger) {c = row f at s}
            (get-row f at s),
        same_pair_iff f.fired_by_product f.command_id f.fired_by_product f.command_id,
        get-mark_dispatched f.fired_by_product f.command_id f.fired_by_product f.command_id now
            (recorded f at s.ledger),
      ))
