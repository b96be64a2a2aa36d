-- ===== src/Settings/Store.antt =====
-- The rows of settings: what `get` and `set` of app/repositories/setting.py do to them.
use codegen_product_kit.Base.{
  ℕ, ◌≤◌, ◌≡◌, refl, String, Bool, true, false, ◌&&◌, none, some, List, [], ◌∷◌, ◌++◌,
  if◌then◌else◌, ◌==◌, str_eq, eq_iff, arith, All, All-append, Bool-cases, Option-cases, inl, inr,
}
use codegen_product_kit.Settings.{
  SettingScope, product, user, same_scope, Setting, is_row, get_setting, write_setting, set_setting,
  new_setting,
}

-- Two rows would break the unique constraint.
abbrev pub same_row : String → SettingScope → ℕ → String → SettingScope → ℕ → Bool
same_row k s i k' s' i' = str_eq k k' && same_scope s s' && i == i'

-- The CHECK constraint on a row.
abbrev pub IsAllowed : SettingScope → ℕ → Type 0
IsAllowed product i = i ≡ 0
IsAllowed user i = 1 ≤ i

scope_exclusive :
    (a s t : SettingScope) → same_scope a s ≡ true → same_scope a t ≡ true → same_scope s t ≡ true
scope_exclusive product product product h k = refl
scope_exclusive product product user h k = cc
scope_exclusive product user t h k = cc
scope_exclusive user product t h k = cc
scope_exclusive user user product h k = cc
scope_exclusive user user user h k = refl

same_scope_refl : (s : SettingScope) → same_scope s s ≡ true
same_scope_refl product = refl
same_scope_refl user = refl

same_scope_sym : (s t : SettingScope) → same_scope s t ≡ same_scope t s
same_scope_sym product product = refl
same_scope_sym product user = refl
same_scope_sym user product = refl
same_scope_sym user user = refl

module _ {V : Type 0} where
  abbrev pub RowsUnique : List (Setting V) → Type 0
  RowsUnique [] = Unit
  RowsUnique (r ∷ rows) = (get_setting r.key r.scope r.subject_id rows ≡ none) × RowsUnique rows

  -- The two constraints of the table.
  pub record IsConsistent (rows : List (Setting V)) : Type 0 where
    pub unique : RowsUnique rows
    pub allowed : All (λ (r : Setting V). IsAllowed r.scope r.subject_id) rows

  -- A row is not at two places.
  pub is_row_exclusive :
      (k k' : String) (s s' : SettingScope) (i i' : ℕ) (r : Setting V)
      → same_row k s i k' s' i' ≡ false
      → is_row k s i r ≡ true
      → is_row k' s' i' r ≡ false
  is_row_exclusive k k' s s' i i' r h a =
      ground (arith, scope_exclusive r.scope s s', eq_iff r.key k, eq_iff r.key k', eq_iff k k')

  pub get-write :
      (k : String) (s : SettingScope) (i : ℕ) (v : V) (rows : List (Setting V)) {r : Setting V}
      → get_setting k s i rows ≡ some r
      → get_setting k s i (write_setting k s i v rows) ≡ some (record r { value = v })
  unfolding get_setting write_setting
  get-write k s i v [] h = cc
  get-write k s i v (x ∷ rows) {r} h = ground (arith, get-write k s i v rows {r = r})

  pub get-write_other :
      (k k' : String) (s s' : SettingScope) (i i' : ℕ) (v : V) (rows : List (Setting V))
      → same_row k s i k' s' i' ≡ false
      → get_setting k' s' i' (write_setting k s i v rows) ≡ get_setting k' s' i' rows
  unfolding get_setting write_setting
  get-write_other k k' s s' i i' v [] h = refl
  get-write_other k k' s s' i i' v (x ∷ rows) h =
      ground (arith, is_row_exclusive k k' s s' i i' x h, get-write_other k k' s s' i i' v rows h)

  pub get-append :
      (k : String) (s : SettingScope) (i : ℕ) (rows : List (Setting V)) (x : Setting V)
      → get_setting k s i (rows ++ x ∷ []) ≡ elim (get_setting k s i rows) [
        | some r ↦ some r
        | none ↦ if is_row k s i x then some x else none
      ]
  unfolding get_setting
  get-append k s i [] x = ground arith
  get-append k s i (y ∷ rows) x = ground (arith, get-append k s i rows x)

  pub write_twice :
      (k : String) (s : SettingScope) (i : ℕ) (v : V) (rows : List (Setting V))
      → write_setting k s i v (write_setting k s i v rows) ≡ write_setting k s i v rows
  unfolding write_setting
  write_twice k s i v [] = refl
  write_twice k s i v (x ∷ rows) = ground (arith, write_twice k s i v rows)

  pub is_row_new :
      (k : String) (s : SettingScope) (i : ℕ) (v : V) → is_row k s i (new_setting k s i v) ≡ true
  is_row_new k s i v = ground (arith, same_scope_refl s, eq_iff k k)

  pub write_new :
      (k : String) (s : SettingScope) (i : ℕ) (v : V) (rows : List (Setting V))
      → get_setting k s i rows ≡ none
      → let rows' = rows ++ new_setting k s i v ∷ [] in write_setting k s i v rows' ≡ rows'
  unfolding get_setting write_setting
  write_new k s i v [] n = ground (arith, is_row_new k s i v)
  write_new k s i v (x ∷ rows) n = ground (arith, write_new k s i v rows)

  write-none :
      (k k' : String) (s s' : SettingScope) (i i' : ℕ) (v : V) (rows : List (Setting V))
      → get_setting k' s' i' rows ≡ none
      → get_setting k' s' i' (write_setting k s i v rows) ≡ none
  unfolding get_setting write_setting
  write-none k k' s s' i i' v [] h = refl
  write-none k k' s s' i i' v (x ∷ rows) h = ground (arith, write-none k k' s s' i i' v rows)

  write-RowsUnique :
      (k : String) (s : SettingScope) (i : ℕ) (v : V) (rows : List (Setting V))
      → RowsUnique rows
      → RowsUnique (write_setting k s i v rows)
  unfolding write_setting
  write-RowsUnique k s i v [] u = tt
  write-RowsUnique k s i v (x ∷ rows) u =
      ground
        (arith, write-none k x.key s x.scope i x.subject_id v rows, write-RowsUnique k s i v rows)

  write-IsAllowed :
      (k : String) (s : SettingScope) (i : ℕ) (v : V) (rows : List (Setting V))
      → All (λ (r : Setting V). IsAllowed r.scope r.subject_id) rows
      → All (λ (r : Setting V). IsAllowed r.scope r.subject_id) (write_setting k s i v rows)
  unfolding write_setting
  write-IsAllowed k s i v [] h = tt
  write-IsAllowed k s i v (x ∷ rows) h =
      elim (is_row k s i x)
        as (λ b.
          All (λ (r : Setting V). IsAllowed r.scope r.subject_id)
            (if b then record x { value = v } ∷ rows else x ∷ write_setting k s i v rows)) [
              | true ↦ h
              | false ↦ (h.0, write-IsAllowed k s i v rows h.1)
            ]

  append-RowsUnique :
      (rows : List (Setting V)) (x : Setting V)
      → get_setting x.key x.scope x.subject_id rows ≡ none
      → RowsUnique rows
      → RowsUnique (rows ++ x ∷ [])
  unfolding get_setting
  append-RowsUnique [] x n u = (refl, tt)
  append-RowsUnique (y ∷ rows) x n u = ground (
    arith,
    append-RowsUnique rows x,
    get-append y.key y.scope y.subject_id rows x,
    same_scope_sym y.scope x.scope,
    eq_iff x.key y.key,
    eq_iff y.key x.key,
  )

  -- What `SettingRepository.set` leaves in the table.
  pub set-IsConsistent :
      (same : V → V → Bool) (k : String) (s : SettingScope) (i : ℕ) (v : V)
      (rows : List (Setting V))
      → IsAllowed s i
      → IsConsistent rows
      → IsConsistent (set_setting same k s i v rows).1
  unfolding set_setting
  set-IsConsistent same k s i v rows a c = elim (Option-cases (get_setting k s i rows)) [
    | inl n ↦ rw n (record {
      unique = append-RowsUnique rows (new_setting k s i v) n c.unique;
      allowed = All-append _ rows _ c.allowed (a, tt);
    })
    | inr (r, f) ↦ elim (Bool-cases (same r.value v)) [
      | inl e ↦ rw (f, e) c
      | inr e ↦
          rw (f, e)
            (record {
              unique = write-RowsUnique k s i v rows c.unique;
              allowed = write-IsAllowed k s i v rows c.allowed;
            })
    ]
  ]
