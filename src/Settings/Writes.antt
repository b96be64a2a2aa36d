-- ===== src/Settings/Writes.antt =====
-- What the settings controller promises: `get` after `set`, and the constraints of the table.
use mathlib.Core.Path.{subst}
use codegen_product_kit.Base.{
  ℕ, ◌≤◌, ◌≡◌, refl, String, Bool, true, false, Option, none, some, List, arith, Bool-cases,
  Option-cases, inl, inr, ◌⊎◌, ap, ◌∙◌, sym, Http, ok, http_error,
}
use codegen_product_kit.Settings.{
  SettingScope, product, user, Setting, SettingGet, SettingSet, SettingValue, get_setting,
  set_setting, new_setting, to_contract, subject, Service, get, set, seed_for,
}
use codegen_product_kit.Settings.Store.{
  IsConsistent, IsAllowed, same_row, get-write, get-write_other, get-append, write_twice,
  is_row_new, set-IsConsistent, is_row_exclusive, write_new,
}

answered_not_error : {A : Type 0} {a : A} {n : ℕ} → ok a ≡ http_error n → ⊥
answered_not_error h = cc

subject-IsAllowed :
    (s : SettingScope) (o : Option ℕ) (i : ℕ)
    → ((j : ℕ) → o ≡ some j → 1 ≤ j)
    → subject s o ≡ some i
    → IsAllowed s i
subject-IsAllowed product none i h f = cc
subject-IsAllowed product (some j) i h f = absurd cc
subject-IsAllowed user none i h f = absurd cc
subject-IsAllowed user (some j) i h f = h i f

module _ {V : Type 0} where
  -- The row that `SettingRepository.set` returns is the one that is there.
  get-set :
      (same : V → V → Bool) (k : String) (s : SettingScope) (i : ℕ) (v : V)
      (rows : List (Setting V))
      → let (r, rows') = set_setting same k s i v rows in
        (get_setting k s i rows' ≡ some r) × ((r.value ≡ v) ⊎ (same r.value v ≡ true))
  unfolding set_setting
  get-set same k s i v rows = elim (Option-cases (get_setting k s i rows)) [
    | inl n ↦
        rw n
          (get-append k s i rows (new_setting k s i v) ∙ rw (n, is_row_new k s i v) refl, inl refl)
    | inr (r, f) ↦ elim (Bool-cases (same r.value v)) [
      | inl e ↦ rw (f, e) (f, inr e)
      | inr e ↦ rw (f, e) (get-write k s i v rows {r = r} f, inl refl)
    ]
  ]

  get-set_other :
      (same : V → V → Bool) (k k' : String) (s s' : SettingScope) (i i' : ℕ) (v : V)
      (rows : List (Setting V))
      → same_row k s i k' s' i' ≡ false
      → get_setting k' s' i' (set_setting same k s i v rows).1 ≡ get_setting k' s' i' rows
  unfolding set_setting
  get-set_other same k k' s s' i i' v rows d = elim (Option-cases (get_setting k s i rows)) [
    | inl n ↦ rw n (
        ground (
          arith,
          get-append k' s' i' rows (new_setting k s i v),
          is_row_exclusive k k' s s' i i' (new_setting k s i v) d (is_row_new k s i v),
        ))
    | inr (r, f) ↦ elim (Bool-cases (same r.value v)) [
      | inl e ↦ rw (f, e) refl
      | inr e ↦ rw (f, e) (get-write_other k k' s s' i i' v rows d)
    ]
  ]

  set_again :
      (same : V → V → Bool) (k : String) (s : SettingScope) (i : ℕ) (v : V)
      (rows : List (Setting V))
      → let (r, rows') = set_setting same k s i v rows in
        set_setting same k s i v rows' ≡ (r, rows')
  unfolding set_setting
  set_again same k s i v rows = elim (Option-cases (get_setting k s i rows)) [
    | inl n ↦ rw n (
        ground (
          arith,
          get-append k s i rows (new_setting k s i v),
          is_row_new k s i v,
          write_new k s i v rows n,
        ))
    | inr (r, f) ↦ elim (Bool-cases (same r.value v)) [
      | inl e ↦ rw (f, e) (rw (f, e) refl)
      | inr e ↦
          rw (f, e)
            (rw (get-write k s i v rows {r = r} f) (ground (arith, write_twice k s i v rows)))
    ]
  ]

  abbrev answer : Service V → SettingSet V → List (Setting V) → ℕ → Setting V × List (Setting V)
  answer service p rows i = set_setting service.same p.key p.scope i p.value rows

  -- A call of `set` answers an error and changes nothing, or it stores the value at its subject; then it
  -- would on any rows.
  abbrev Failed : Service V → SettingSet V → Type 0
  Failed service p =
      (n : ℕ) × ((rows : List (Setting V)) → set service p rows ≡ (http_error n, rows))

  abbrev Stored : Service V → SettingSet V → Type 0
  Stored service p =
      (i : ℕ) × (subject p.scope p.subject_id ≡ some i)
      × ((rows : List (Setting V))
          → set service p rows
            ≡ (ok (to_contract (answer service p rows i).0), (answer service p rows i).1))

  subject_cases :
      (service : Service V) (p : SettingSet V) (valid : V → Bool)
      → service.schemas p.key ≡ some valid
      → valid p.value ≡ true
      → Failed service p ⊎ Stored service p
  unfolding set
  subject_cases service p valid h v = elim (Option-cases (subject p.scope p.subject_id)) [
    | inl n ↦ inl (422, λ rows. rw (h, v, n) refl)
    | inr (i, f) ↦ elim (Option-cases (seed_for service p.scope p.key)) [
      | inl n ↦ inr (i, f, λ rows. rw (h, v, f, n) refl)
      | inr (seed, g) ↦ elim (Bool-cases (seed p.key p.value)) [
        | inl b ↦ inr (i, f, λ rows. rw (h, v, f, g, b) refl)
        | inr b ↦ inl (500, λ rows. rw (h, v, f, g, b) refl)
      ]
    ]
  ]

  set_cases : (service : Service V) (p : SettingSet V) → Failed service p ⊎ Stored service p
  unfolding set
  set_cases service p = elim (Option-cases (service.schemas p.key)) [
    | inl n ↦ inl (404, λ rows. rw n refl)
    | inr (valid, h) ↦ elim (Bool-cases (valid p.value)) [
      | inl v ↦ subject_cases service p valid h v
      | inr v ↦ inl (422, λ rows. rw (h, v) refl)
    ]
  ]

  abbrev pub read_of : SettingSet V → SettingGet
  read_of p = record { key = p.key; scope = p.scope; subject_id = p.subject_id }

  abbrev ReadsBack : Service V → SettingSet V → Http (SettingValue V) × List (Setting V) → Type 0
  ReadsBack service p (http_error n, rows) = Unit
  ReadsBack service p (ok r, rows) =
      (get (read_of p) rows ≡ ok r)
      × ((r.value ≡ p.value) ⊎ (service.same r.value p.value ≡ true))
      × (set service p rows ≡ (ok r, rows))

  stored-ReadsBack :
      (service : Service V) (p : SettingSet V) (rows : List (Setting V)) (i : ℕ)
      → subject p.scope p.subject_id ≡ some i
      → ((rows : List (Setting V))
          → set service p rows
            ≡ (ok (to_contract (answer service p rows i).0), (answer service p rows i).1))
      → ReadsBack service p
          (ok (to_contract (answer service p rows i).0), (answer service p rows i).1)
  unfolding get
  stored-ReadsBack service p rows i f g =
      let (found, value) = get-set service.same p.key p.scope i p.value rows in
      (
        rw (f, found) refl,
        value,
        rw (g (answer service p rows i).1, set_again service.same p.key p.scope i p.value rows)
            refl,
      )

  -- After a `set` that answered, `get` of the same key, scope and subject answers the same, which is the
  -- value of the payload or one that Python takes for equal to it, and the same `set` again answers the
  -- same and changes nothing.
  pub get-set_lem :
      (service : Service V) (p : SettingSet V) (rows rows' : List (Setting V)) (r : SettingValue V)
      → set service p rows ≡ (ok r, rows')
      → (get (read_of p) rows' ≡ ok r)
        × ((r.value ≡ p.value) ⊎ (service.same r.value p.value ≡ true))
        × (set service p rows' ≡ (ok r, rows'))
  unfolding get
  get-set_lem service p rows rows' r h = elim (set_cases service p) [
    | inl (n, f) ↦ absurd (answered_not_error (ap (λ a. a.0) (sym h ∙ f rows)))
    | inr (i, f, g) ↦
        subst (ReadsBack service p) (sym (g rows) ∙ h) (stored-ReadsBack service p rows i f g)
  ]

  -- Whatever `set` answers, `get` of another key, scope or subject answers as before.
  pub get-set_frame :
      (service : Service V) (p : SettingSet V) (q : SettingGet) (rows : List (Setting V)) (i j : ℕ)
      → subject p.scope p.subject_id ≡ some i
      → subject q.scope q.subject_id ≡ some j
      → same_row p.key p.scope i q.key q.scope j ≡ false
      → get q (set service p rows).1 ≡ get q rows
  unfolding get
  get-set_frame service p q rows i j hi hj d = elim (set_cases service p) [
    | inl (n, f) ↦ rw (f rows) refl
    | inr (i', f, g) ↦
        let same_subject : i' ≡ i = cc in
        rw (g rows, hj, same_subject)
          (rw (get-set_other service.same p.key q.key p.scope q.scope i j p.value rows d) refl)
  ]

  -- For a payload whose subject, if it has one, is positive, `set` keeps one row for each key, scope and
  -- subject, subject 0 for the product and a positive one for a user.
  pub set-IsConsistent_lem :
      (service : Service V) (p : SettingSet V) (rows : List (Setting V))
      → ((i : ℕ) → p.subject_id ≡ some i → 1 ≤ i)
      → IsConsistent rows
      → IsConsistent (set service p rows).1
  set-IsConsistent_lem service p rows h c = elim (set_cases service p) [
    | inl (n, f) ↦ rw (f rows) c
    | inr (i, f, g) ↦ rw (g rows) (
        set-IsConsistent service.same p.key p.scope i p.value rows
          (subject-IsAllowed p.scope p.subject_id i h f) c)
  ]
