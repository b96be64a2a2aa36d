-- ===== src/Settings.antt =====
-- The settings core: template/services/backend/src/controllers/settings.py, with the repository
-- app/repositories/setting.py and the model app/models/setting.py beside it. A JSON value is of a type
-- `V`, a parameter, and `same` is Python's `==` on such values.

mod Store
mod Writes
mod Tests
use Prim.Native.Char.{Char, code}
use Prim.Native.String.{◌++◌ as str_append}
use Prim.Native.String
use codegen_product_kit.Base.Dict.{Dict, lookup, insert}
use codegen_product_kit.Base.{
  ℕ, suc, ◌≡◌, String, Bool, true, false, ◌&&◌, Option, none, some, List, [], ◌∷◌, ◌++◌,
  if◌then◌else◌, ◌==◌, str_eq, Http, ok, http_error,
}

pub data SettingScope : Type 0 where
  product user : SettingScope

abbrev pub same_scope : SettingScope → SettingScope → Bool
same_scope product product = true
same_scope product user = false
same_scope user product = false
same_scope user user = true

pub record Setting (V : Type 0) : Type 0 where
  pub key : String
  pub scope : SettingScope
  pub subject_id : ℕ
  pub value : V

pub record SettingGet : Type 0 where
  pub key : String
  pub scope : SettingScope
  pub subject_id : Option ℕ

pub record SettingSet (V : Type 0) : Type 0 where
  pub key : String
  pub scope : SettingScope
  pub subject_id : Option ℕ
  pub value : V

pub record SettingValue (V : Type 0) : Type 0 where
  pub contract_version : ℕ
  pub key : String
  pub scope : SettingScope
  pub subject_id : Option ℕ
  pub value : V

abbrev pub core_settings_contract_version : ℕ
core_settings_contract_version = 1

-- The `where` of `SettingRepository.get`.
abbrev pub is_row : {V : Type 0} → String → SettingScope → ℕ → Setting V → Bool
is_row key scope subject_id s =
    str_eq s.key key && same_scope s.scope scope && s.subject_id == subject_id

-- `subject_id or None`
abbrev or_none : ℕ → Option ℕ
or_none n = if n == 0 then none else some n

module _ {V : Type 0} where
  -- `SettingRepository.get`
  pub get_setting : String → SettingScope → ℕ → List (Setting V) → Option (Setting V)
  get_setting key scope subject_id [] = none
  get_setting key scope subject_id (s ∷ rows) =
      if is_row key scope subject_id s then some s else get_setting key scope subject_id rows

  -- The assignment to `setting.value`, on the row that was found.
  pub write_setting : String → SettingScope → ℕ → V → List (Setting V) → List (Setting V)
  write_setting key scope subject_id value [] = []
  write_setting key scope subject_id value (s ∷ rows) =
      let rest = write_setting key scope subject_id value rows in
      if is_row key scope subject_id s then record s { value = value } ∷ rows else s ∷ rest

  abbrev new_setting : String → SettingScope → ℕ → V → Setting V
  new_setting key scope subject_id value = record {
    key = key;
    scope = scope;
    subject_id = subject_id;
    value = value;
  }

  abbrev set_found :
      (V → V → Bool)
      → String
      → SettingScope
      → ℕ
      → V
      → List (Setting V)
      → Option (Setting V)
      → Setting V × List (Setting V)
  set_found same key scope subject_id value rows none =
      (new_setting key scope subject_id value, rows ++ new_setting key scope subject_id value ∷ [])
  set_found same key scope subject_id value rows (some s) =
      if same s.value value
      then (s, rows)
      else (record s { value = value }, write_setting key scope subject_id value rows)

  -- `SettingRepository.set`
  pub set_setting :
      (V → V → Bool)
      → String
      → SettingScope
      → ℕ
      → V
      → List (Setting V)
      → Setting V × List (Setting V)
  set_setting same key scope subject_id value rows =
      set_found same key scope subject_id value rows (get_setting key scope subject_id rows)

  abbrev pub to_contract : Setting V → SettingValue V
  to_contract s = record {
    contract_version = core_settings_contract_version;
    key = s.key;
    scope = s.scope;
    subject_id = or_none s.subject_id;
    value = s.value;
  }

-- `_subject_id`: `none` is its 422.
abbrev pub subject : SettingScope → Option ℕ → Option ℕ
subject product none = some 0
subject product (some i) = none
subject user none = none
subject user (some i) = some i

-- The product's packages, as the service is made from them; a seed that raises answers false.
pub record Package (V : Type 0) : Type 0 where
  pub name : String
  pub setting_seeds : List (SettingScope × String)
  pub seed_setting : String → V → Bool

-- `name.replace('-', '_')`
pub underscored : String → String
underscored String.[] = ""
underscored (String.◌∷◌ c s) = String.◌∷◌ (if code c == 45 then "_" else c) (underscored s)

abbrev pub seed_key : String → String → String
seed_key name local_key = str_append (underscored name) (str_append "." local_key)

module _ {V : Type 0} where
  abbrev add_seeds :
      Package V → List (SettingScope × String) → Dict (String → V → Bool) → Dict (String → V → Bool)
  add_seeds p [] seeds = seeds
  add_seeds p ((product, local_key) ∷ l) seeds =
      add_seeds p l (insert (seed_key p.name local_key) p.seed_setting seeds)
  add_seeds p ((user, local_key) ∷ l) seeds = add_seeds p l seeds

  -- `SettingsController.__init__`
  pub product_seeds : List (Package V) → Dict (String → V → Bool) → Dict (String → V → Bool)
  product_seeds [] seeds = seeds
  product_seeds (p ∷ l) seeds = product_seeds l (add_seeds p p.setting_seeds seeds)

-- A controller: the declared schemas as their validators, Python's `==`, and the seeds.
pub record Service (V : Type 0) : Type 0 where
  pub schemas : String → Option (V → Bool)
  pub same : V → V → Bool
  pub seeds : Dict (String → V → Bool)

module _ {V : Type 0} where
  abbrev got : Option (Setting V) → Http (SettingValue V)
  got none = http_error 404
  got (some s) = ok (to_contract s)

  abbrev get_subject : String → SettingScope → List (Setting V) → Option ℕ → Http (SettingValue V)
  get_subject key scope rows none = http_error 422
  get_subject key scope rows (some subject_id) = got (get_setting key scope subject_id rows)

  -- `SettingsController.get`
  pub get : SettingGet → List (Setting V) → Http (SettingValue V)
  get payload rows =
      get_subject payload.key payload.scope rows (subject payload.scope payload.subject_id)

  -- The seed of the key, and for a scope other than product none.
  abbrev seed_for : Service V → SettingScope → String → Option (String → V → Bool)
  seed_for service product key = lookup key service.seeds
  seed_for service user key = none

  -- The seed runs in the session that wrote the row; if it raises, the row is still written there.
  abbrev seeded :
      Option (String → V → Bool)
      → String
      → V
      → Setting V × List (Setting V)
      → Http (SettingValue V) × List (Setting V)
  seeded none key value (s, rows) = (ok (to_contract s), rows)
  seeded (some seed) key value (s, rows) =
      if seed key value then (ok (to_contract s), rows) else (http_error 500, rows)

  abbrev set_subject :
      Service V
      → SettingSet V
      → List (Setting V)
      → Option ℕ
      → Http (SettingValue V) × List (Setting V)
  set_subject service payload rows none = (http_error 422, rows)
  set_subject service payload rows (some subject_id) =
      seeded (seed_for service payload.scope payload.key) payload.key payload.value
        (set_setting service.same payload.key payload.scope subject_id payload.value rows)

  abbrev set_declared :
      Service V
      → SettingSet V
      → List (Setting V)
      → Option (V → Bool)
      → Http (SettingValue V) × List (Setting V)
  set_declared service payload rows none = (http_error 404, rows)
  set_declared service payload rows (some valid) =
      if valid payload.value
      then set_subject service payload rows (subject payload.scope payload.subject_id)
      else (http_error 422, rows)

  -- The transaction of the request's session, which an error rolls back to the rows before it.
  abbrev in_session :
      List (Setting V)
      → Http (SettingValue V) × List (Setting V)
      → Http (SettingValue V) × List (Setting V)
  in_session rows (http_error n, written) = (http_error n, rows)
  in_session rows (ok r, written) = (ok r, written)

  -- `SettingsController.set` in its session.
  pub set : Service V → SettingSet V → List (Setting V) → Http (SettingValue V) × List (Setting V)
  set service payload rows =
      in_session rows (set_declared service payload rows (service.schemas payload.key))
