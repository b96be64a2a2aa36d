-- ===== src/Packages/Manifest.antt =====
-- The activation subset of package.yaml, as `_parse_manifest` of template/codegen_kit/packages.py reads
-- it. `strip` and the parts of a path are of the standard library.
pub mod Validity
use codegen_product_kit.Base.{
  ℕ, ◌≡◌, refl, String, Bool, true, false, ◌&&◌, ◌||◌, not, Option, none, some, List, [], ◌∷◌, ◌++◌,
  if◌then◌else◌, ◌==◌, leb, str_eq, is_some, same_pair,
}
use codegen_product_kit.Base.Sorting.{any}
use codegen_product_kit.Base.Texts.{
  codes, starts_slash, ends_slash, has_double_slash, is_name, partition,
}
use codegen_product_kit.Json.{
  Json, Items, Fields, null, bool, num, other_number, str, arr, obj, nil, cons, end, field, get,
  keys, items, is_truthy,
}

-- The named failures of the activation.
pub data PackageError : Type 0 where
  package_activation package_manifest unknown_package_manifest_field missing_package_identity :
      PackageError
  malformed_package_prefix unimplemented_deployment_mode invalid_package_module_root : PackageError
  installed_package_not_listed listed_package_not_installed incompatible_package_protocol :
      PackageError
  incompatible_core_version duplicate_package_http_prefix missing_setting_seed_callback :
      PackageError
  package_database_ownership : PackageError

-- What a step of the activation comes to.
pub data Checked {ℓ} (A : Type ℓ) : Type ℓ where
  raised : PackageError → Checked A
  ok : A → Checked A

module _ {ℓ κ} {A : Type ℓ} {B : Type κ} where
  infixl 5 ◌>>=◌
  -- The next step is taken only if nothing was raised.
  abbrev pub ◌>>=◌ : Checked A → (A → Checked B) → Checked B
  m >>= next = elim m [ raised e ↦ raised e | ok a ↦ next a ]

  -- If both steps went well, so did the first.
  pub bound :
      (m : Checked A) (next : A → Checked B) {b : B}
      → (m >>= next) ≡ ok b
      → (a : A) × (m ≡ ok a) × (next a ≡ ok b)
  bound (raised e) next h = cc
  bound (ok a) next h = (a, refl, h)

infixl 5 ◌>>◌
abbrev pub ◌>>◌ {ℓ} : {B : Type ℓ} → Checked (Unit {0}) → Checked B → Checked B
check >> rest = check >>= (λ done. rest)

-- `raise e` unless the condition holds.
abbrev pub require : Bool → PackageError → Checked (Unit {0})
require holds e = elim holds [ true ↦ ok tt | false ↦ raised e ]

pub require-eq-ok :
    {B : Type 0} (t : Bool) (e : PackageError) (k : Checked B) {b : B}
    → (require t e >> k) ≡ ok b
    → (t ≡ true) × (k ≡ ok b)
require-eq-ok true e k h = (refl, h)
require-eq-ok false e k h = cc

pub record PackageManifest : Type 0 where
  pub protocol_version : Json
  pub name : Json
  pub version : Json
  pub requires_core : Json
  pub http_prefix : String
  pub deployment_modes : List String
  pub database : Option (String × String)
  pub setting_seeds : List (String × String)

abbrev pub member : List String → String → Bool
member l s = any (λ t. str_eq t s) l

abbrev pub known : List String
known =
    "protocol_version" ∷ "name" ∷ "version" ∷ "requires_core" ∷ "provides" ∷ "requires"
    ∷ "package_dependencies" ∷ "http" ∷ "database" ∷ "events" ∷ "settings_schema" ∷ "setting_seeds"
    ∷ "jobs_schema" ∷ "timers" ∷ "deployment" ∷ "environment" ∷ "resources" ∷ "actions"
    ∷ "default_binding" ∷ []

abbrev pub is_given : Option Json → Bool
is_given none = false
is_given (some j) = is_truthy j

-- `_validate_manifest_fields`
unfoldable pub validate_manifest_fields : Fields → Checked (Unit {0})
unfolding get
validate_manifest_fields d = do
  require (not (any (λ k. not (member known k)) (keys d))) unknown_package_manifest_field
  require (is_given (get "name" d)) missing_package_identity
  require (is_given (get "version" d)) missing_package_identity
  require (is_some (get "protocol_version" d) && is_some (get "requires_core" d)) package_manifest

unfoldable pub is_malformed_prefix : String → Bool
is_malformed_prefix prefix =
    let l = codes prefix in
    not (starts_slash l)
    || str_eq prefix "/"
    || ends_slash l
    || has_double_slash l
    || any (λ c. c == b'{') l
    || any (λ c. c == b'}') l

abbrev prefix_of_http : Json → Option Json
prefix_of_http (obj d) = get "prefix" d
prefix_of_http _ = none

abbrev checked_prefix : Option Json → Checked String
checked_prefix (some (str prefix)) =
    if is_malformed_prefix prefix then raised malformed_package_prefix else ok prefix
checked_prefix _ = raised malformed_package_prefix

abbrev http_of : Option Json → Option Json
http_of none = none
http_of (some j) = prefix_of_http j

-- `_http_prefix`
unfoldable pub http_prefix : Fields → Checked String
unfolding get is_malformed_prefix
http_prefix d = checked_prefix (http_of (get "http" d))

unfoldable pub valid_database_schema : String → Bool
valid_database_schema schema = not (str_eq schema "public") && is_name (codes schema)

-- `Path(...).parts` and `strip` of the standard library.
pub record Library : Type 0 where
  pub parts : String → List String
  pub strip : String → String

unfoldable pub valid_migration_resource : Library → String → Bool
unfolding partition
valid_migration_resource lib declaration =
    let (head, found, tail) = partition declaration in
    found && not (str_eq head "") && not (str_eq tail "") && not (member (lib.parts tail) "..")

abbrev database_pair : Library → Option Json → Option Json → Checked (Option (String × String))
database_pair lib (some (str schema)) (some (str migrations)) =
    if valid_database_schema schema && valid_migration_resource lib migrations
    then ok (some (schema, migrations))
    else raised package_manifest
database_pair lib _ _ = raised package_manifest

abbrev database_of : Library → Option Json → Checked (Option (String × String))
database_of lib none = ok none
database_of lib (some null) = ok none
database_of lib (some (obj d)) = database_pair lib (get "schema" d) (get "migrations" d)
database_of lib (some _) = raised package_manifest

-- `_database_declaration`
unfoldable pub database_declaration : Library → Fields → Checked (Option (String × String))
unfolding get valid_database_schema valid_migration_resource
database_declaration lib d = database_of lib (get "database" d)

-- The modes, if each is a text.
abbrev pub texts : List Json → Option (List String)
texts [] = some []
texts (str s ∷ l) = elim (texts l) [ none ↦ none | some t ↦ some (s ∷ t) ]
texts (_ ∷ l) = none

abbrev pub no_repeats : List String → Bool
no_repeats [] = true
no_repeats (s ∷ l) = not (member l s) && no_repeats l

abbrev is_mode : String → Bool
is_mode m = str_eq m "in_process" || str_eq m "container"

abbrev pub checked_modes : Option (List String) → Checked (List String)
checked_modes none = raised package_manifest
checked_modes (some []) = raised package_manifest
checked_modes (some (m ∷ ms)) =
    if any (λ n. not (is_mode n)) (m ∷ ms) || not (no_repeats (m ∷ ms))
    then raised package_manifest
    else if member (m ∷ ms) "container"
    then raised unimplemented_deployment_mode
    else ok (m ∷ ms)

abbrev modes_of_list : Json → Checked (List String)
modes_of_list (arr l) = checked_modes (texts (items l))
modes_of_list _ = raised package_manifest

-- `set(deployment) != {"modes"}`: the only key is `modes`.
abbrev pub modes_of : Option Json → Checked (List String)
modes_of none = ok ("in_process" ∷ [])
modes_of (some (obj (field k j end))) =
    if str_eq k "modes" then modes_of_list j else raised package_manifest
modes_of (some _) = raised package_manifest

-- `_deployment_modes`
pub deployment_modes : Fields → Checked (List String)
unfolding get
deployment_modes d = modes_of (get "deployment" d)

abbrev pub binding_of : Library → Fields → Option Json → Option Json → Checked (String × String)
binding_of lib properties (some (str key)) (some (str scope)) =
    if str_eq key ""
      || not (str_eq (lib.strip key) key)
      || not (str_eq scope "product")
      || not (member (keys properties) key)
    then raised package_manifest
    else ok (scope, key)
binding_of lib properties _ _ = raised package_manifest

abbrev has_two_keys : Fields → Bool
has_two_keys (field k i (field l j end)) =
    (str_eq k "key" && str_eq l "scope") || (str_eq k "scope" && str_eq l "key")
has_two_keys _ = false

-- `_setting_seed_binding`
pub setting_seed_binding : Library → Json → Fields → Checked (String × String)
unfolding get
setting_seed_binding lib (obj d) properties =
    if has_two_keys d
    then binding_of lib properties (get "key" d) (get "scope" d)
    else raised package_manifest
setting_seed_binding lib _ properties = raised package_manifest

-- The loop of `_setting_seeds`.
pub bind_seeds :
    Library → Fields → List Json → List (String × String) → Checked (List (String × String))
unfolding setting_seed_binding
bind_seeds lib properties [] bindings = ok bindings
bind_seeds lib properties (j ∷ l) bindings = do
  b ← setting_seed_binding lib j properties
  require (not (any (λ c. same_pair c.0 c.1 b.0 b.1) bindings)) package_manifest
  bind_seeds lib properties l (bindings ++ b ∷ [])

abbrev pub seeds_with : Library → List Json → Option Json → Checked (List (String × String))
seeds_with lib l (some (obj properties)) = bind_seeds lib properties l []
seeds_with lib l _ = raised package_manifest

abbrev pub seeds_under : Library → List Json → Option Json → Checked (List (String × String))
seeds_under lib l (some (obj schema)) = seeds_with lib l (get "properties" schema)
seeds_under lib l _ = raised package_manifest

abbrev pub seeds_of : Library → Option Json → Option Json → Checked (List (String × String))
seeds_of lib none schema = ok []
seeds_of lib (some (arr nil)) schema = ok []
seeds_of lib (some (arr (cons j l))) schema = seeds_under lib (j ∷ items l) schema
seeds_of lib (some _) schema = raised package_manifest

-- `_setting_seeds`
pub setting_seeds : Library → Fields → Checked (List (String × String))
unfolding get bind_seeds
setting_seeds lib d = seeds_of lib (get "setting_seeds" d) (get "settings_schema" d)

abbrev pub or_null : Option Json → Json
or_null none = null
or_null (some j) = j

-- `_parse_manifest` after the file was read; `none` is a file that is no mapping.
unfoldable pub parse_fields : Library → Fields → Checked PackageManifest
unfolding get validate_manifest_fields database_declaration http_prefix deployment_modes
    setting_seeds
parse_fields lib d = do
  validate_manifest_fields d
  database ← database_declaration lib d
  prefix ← http_prefix d
  modes ← deployment_modes d
  seeds ← setting_seeds lib d
  ok (record {
    protocol_version = or_null (get "protocol_version" d);
    name = or_null (get "name" d);
    version = or_null (get "version" d);
    requires_core = or_null (get "requires_core" d);
    http_prefix = prefix;
    deployment_modes = modes;
    database = database;
    setting_seeds = seeds;
  })

abbrev pub parse_loaded : Library → Option Json → Checked PackageManifest
parse_loaded lib (some (obj d)) = parse_fields lib d
parse_loaded lib _ = raised package_manifest

-- `_parse_manifest`: `none` is a file that cannot be read.
unfoldable pub parse_manifest : Library → Option Json → Checked PackageManifest
unfolding parse_fields
parse_manifest lib file = parse_loaded lib file
