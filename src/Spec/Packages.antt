-- ===== src/Spec/Packages.antt =====
-- Manifests of packages as their authors write them, framework/spec/packages.py: the data that pydantic
-- has typed, and the validators. A validator gives the refusal that it raises, if any. What the standard
-- library says of identifiers and paths, and the JSON Schema library of a schema, are parameters.
mod Timers
mod Events
mod Accepted
mod Tests
use codegen_product_kit.Base.{
  ℕ, ◌≡◌, String, Bool, true, false, ◌&&◌, ◌||◌, not, Option, none, some, List, [], ◌∷◌, ◌++◌, map,
  if◌then◌else◌, leb, ◌==◌, str_eq, is_some, same_pair,
}
use codegen_product_kit.Base.Sorting.{any}
use codegen_product_kit.Base.Texts.{
  codes, starts_slash, ends_slash, has_double_slash, is_name, partition,
}
use codegen_product_kit.Base.Dict.{Dict}
use codegen_product_kit.Json.{
  Json, Items, Fields, null, bool, num, other_number, str, arr, obj, nil, cons, end, field, get,
  keys, items, is_truthy,
}
use codegen_product_kit.Spec.Manifests.{
  Refusal, validate_declaration_schema, validate_jobs_schema, is_text, occurs, repeats,
}

-- `negsuc n` is -(n + 1).
pub data ℤ : Type 0 where
  pos : ℕ → ℤ
  negsuc : ℕ → ℤ

pub record DatabaseDeclaration : Type 0 where
  pub schema_name : String
  pub migrations : String

pub record PackageEventMessage : Type 0 where
  pub model : String
  pub schema_data : Fields
  pub recipient : Option String

pub record EventsDeclaration : Type 0 where
  pub publishes : List String
  pub consumes : List String
  pub messages : Dict PackageEventMessage

pub record EnvironmentDeclaration : Type 0 where
  pub name : String
  pub required : Bool

pub record ResourceDeclaration : Type 0 where
  pub name : String
  pub path : String

pub record SettingSeedDeclaration : Type 0 where
  pub key : String

pub record TimerDeclaration : Type 0 where
  pub job : String
  pub every_seconds : ℤ

pub record PackageManifest : Type 0 where
  pub provides : List String
  pub requires : List String
  pub http_prefix : String
  pub database : Option DatabaseDeclaration
  pub events : EventsDeclaration
  pub settings_schema : Fields
  pub setting_seeds : List SettingSeedDeclaration
  pub jobs_schema : Fields
  pub timers : List TimerDeclaration
  pub deployment_modes : List String
  pub environment : List EnvironmentDeclaration
  pub resources : List ResourceDeclaration
  pub action_names : List String

-- `timer_min_seconds` and `timer_max_seconds` are the bounds of an interval.
abbrev pub timer_min_seconds : ℕ
timer_min_seconds = 10

abbrev pub timer_max_seconds : ℕ
timer_max_seconds = 86400

pub data TimerRefusal : Type 0 where
  repeated_job undeclared_job outside_interval wrong_arguments : TimerRefusal

pub in_interval : ℤ → Bool
in_interval (pos n) = leb timer_min_seconds n && leb n timer_max_seconds
in_interval (negsuc n) = false

abbrev is_str : Json → String → Bool
is_str (str s) t = str_eq s t
is_str _ t = false

-- `== TIMER_ARGUMENT`, in either order of its two keys.
abbrev pub is_timer_argument : Json → Bool
is_timer_argument (obj (field k v (field l w end))) =
    (str_eq k "type" && is_str v "string" && str_eq l "format" && is_str w "date-time")
    || (str_eq k "format" && is_str v "date-time" && str_eq l "type" && is_str w "string")
is_timer_argument _ = false

abbrev pub is_at_only : Option Json → Bool
is_at_only (some (obj (field k v end))) = str_eq k "at" && is_timer_argument v
is_at_only _ = false

abbrev pub requires_at : Option Json → Bool
requires_at (some (arr (cons v nil))) = is_str v "at"
requires_at _ = false

-- The arguments that the core can fire: an object whose only property is the required `at`.
pub is_fireable : Fields → Bool
unfolding get
is_fireable arguments =
    is_at_only (get "properties" arguments) && requires_at (get "required" arguments)

pub arguments_refusal : Option Json → ℤ → Option TimerRefusal
arguments_refusal none s = some undeclared_job
arguments_refusal (some (obj arguments)) s =
    if not (in_interval s)
    then some outside_interval
    else if not (is_fireable arguments)
    then some wrong_arguments
    else none
-- Not reached: the properties of a jobs schema are objects.
arguments_refusal (some j) s = some wrong_arguments

-- The loop of `_validate_timers`, over the properties of the jobs schema.
pub validate_timers : List String → List TimerDeclaration → Fields → Option TimerRefusal
validate_timers seen [] properties = none
validate_timers seen (t ∷ ts) properties =
    let rest = validate_timers (t.job ∷ seen) ts properties in
    if occurs seen t.job
    then some repeated_job
    else elim (arguments_refusal (get t.job properties) t.every_seconds) [
      | some r ↦ some r
      | none ↦ rest
    ]

pub data EventsRefusal : Type 0 where
  repeated_publish repeated_consume missing_message undeclared_message : EventsRefusal

abbrev pub names_of {ℓ} : {V : Type ℓ} → Dict V → List String
names_of [] = []
names_of ((name, v) ∷ d) = name ∷ names_of d

-- `set(left) - set(right)` is not empty.
abbrev pub exceeds : List String → List String → Bool
exceeds left right = any (λ s. not (occurs right s)) left

-- `validate_messages_cover_events`
pub validate_messages_cover_events : EventsDeclaration → Option EventsRefusal
validate_messages_cover_events e =
    let declared = e.publishes ++ e.consumes in
    if repeats e.publishes
    then some repeated_publish
    else if repeats e.consumes
    then some repeated_consume
    else if exceeds declared (names_of e.messages)
    then some missing_message
    else if exceeds (names_of e.messages) declared
    then some undeclared_message
    else none

-- `HttpDeclaration.validate_prefix`
pub valid_prefix : String → Bool
valid_prefix prefix =
    let l = codes prefix in
    starts_slash l
    && not (str_eq prefix "/")
    && not (ends_slash l)
    && not (has_double_slash l)
    && not (any (λ c. c == b'{') l)
    && not (any (λ c. c == b'}') l)

-- `Path(...)` of the standard library, `isidentifier` and `strip`, and `check_schema`.
pub record Library : Type 0 where
  pub parts : String → List String
  pub is_absolute : String → Bool
  pub is_identifier : String → Bool
  pub strip : String → String
  pub check_schema : Json → Bool

-- `DatabaseDeclaration`
pub valid_database : Library → DatabaseDeclaration → Bool
unfolding partition
valid_database lib d =
    let (module_name, found, relative) = partition d.migrations in
    not (str_eq d.schema_name "public")
    && is_name (codes d.schema_name)
    && found
    && not (str_eq module_name "")
    && not (str_eq relative "")
    && not (occurs (lib.parts relative) "..")

abbrev requires_field : Option Json → String → Bool
requires_field (some (arr l)) name = any (λ j. is_str j name) (items l)
requires_field _ name = false

abbrev field_of : Option Json → String → Option Json
field_of (some (obj properties)) name = get name properties
field_of _ name = none

abbrev is_string_field : Option Json → Bool
is_string_field (some (obj d)) = is_text (get "type" d) "string"
is_string_field _ = false

abbrev valid_recipient : Fields → Option String → Bool
valid_recipient schema none = true
valid_recipient schema (some recipient) =
    requires_field (get "required" schema) recipient
    && is_string_field (field_of (get "properties" schema) recipient)

-- `PackageEventMessage`
pub valid_message : Library → PackageEventMessage → Bool
unfolding get
valid_message lib m =
    lib.is_identifier m.model
    && lib.check_schema (obj m.schema_data)
    && is_text (get "type" m.schema_data) "object"
    && valid_recipient m.schema_data m.recipient

abbrev is_upper : ℕ → Bool
is_upper c = (leb b'A' c && leb c b'Z') || c == b'_'

abbrev is_environment_name : List ℕ → Bool
is_environment_name [] = false
is_environment_name (c ∷ l) =
    is_upper c && not (any (λ d. not (is_upper d || (leb b'0' d && leb d b'9'))) l)

-- `EnvironmentDeclaration`
pub valid_environment : EnvironmentDeclaration → Bool
valid_environment e = is_environment_name (codes e.name)

-- `ResourceDeclaration`
pub valid_resource : Library → ResourceDeclaration → Bool
valid_resource lib r =
    not (str_eq r.name "")
    && not (lib.is_absolute r.path)
    && not (str_eq r.path "")
    && not (occurs (lib.parts r.path) "..")

abbrev is_empty : List String → Bool
is_empty [] = true
is_empty (s ∷ l) = false

-- `DeploymentDeclaration.validate_modes`, on modes that are `in_process` or `container`.
pub valid_modes : List String → Bool
valid_modes modes = not (is_empty modes) && not (repeats modes) && not (occurs modes "container")

-- `SettingSeedDeclaration`
pub valid_seed : Library → SettingSeedDeclaration → Bool
valid_seed lib s = not (str_eq s.key "") && str_eq (lib.strip s.key) s.key

pub data ManifestRefusal : Type 0 where
  repeated_name repeated_seed undeclared_seed : ManifestRefusal
  timer : TimerRefusal → ManifestRefusal

abbrev properties_in : Option Json → Fields
properties_in (some (obj properties)) = properties
properties_in _ = end

-- `schema["properties"]` of a schema that was validated_manifest.
abbrev pub properties_of : Fields → Fields
properties_of schema = properties_in (get "properties" schema)

abbrev pub as_timer : Option TimerRefusal → Option ManifestRefusal
as_timer none = none
as_timer (some r) = some (timer r)

abbrev pub seed_keys : PackageManifest → List String
seed_keys m = map (λ (s : SettingSeedDeclaration). s.key) m.setting_seeds

-- `validate_named_lists`; the scope of every seed is `product`.
pub validate_named_lists : PackageManifest → Option ManifestRefusal
validate_named_lists m =
    if repeats m.provides
      || repeats m.requires
      || repeats (map (λ (e : EnvironmentDeclaration). e.name) m.environment)
      || repeats (map (λ (r : ResourceDeclaration). r.name) m.resources)
      || repeats m.action_names
    then some repeated_name
    else if repeats (seed_keys m)
    then some repeated_seed
    else if exceeds (seed_keys m) (keys (properties_of m.settings_schema))
    then some undeclared_seed
    else as_timer (validate_timers [] m.timers (properties_of m.jobs_schema))

abbrev pub database_ok : Library → Option DatabaseDeclaration → Bool
database_ok lib none = true
database_ok lib (some d) = valid_database lib d

abbrev pub holds_for {ℓ} : {A : Type ℓ} → (A → Bool) → List A → Bool
holds_for p [] = true
holds_for p (x ∷ l) = p x && holds_for p l

abbrev pub messages_of : Dict PackageEventMessage → List PackageEventMessage
messages_of d = map (λ e. e.1) d

-- The validators of the fields of `PackageManifest` but the prefix's. The actions have their own.
pub valid_fields : Library → PackageManifest → Bool
valid_fields lib m =
    database_ok lib m.database
    && holds_for (valid_message lib) (messages_of m.events.messages)
    && not (is_some (validate_messages_cover_events m.events))
    && not (is_some (validate_declaration_schema lib.check_schema m.settings_schema))
    && holds_for (valid_seed lib) m.setting_seeds
    && not (is_some (validate_jobs_schema lib.check_schema m.jobs_schema))
    && valid_modes m.deployment_modes
    && holds_for valid_environment m.environment
    && holds_for (valid_resource lib) m.resources

pub data ManifestError : Type 0 where
  unknown_field unimplemented_mode missing_identity malformed_prefix invalid_manifest
        invalid_timer :
      ManifestError

abbrev pub fields_of_manifest : List String
fields_of_manifest =
    "protocol_version" ∷ "name" ∷ "version" ∷ "requires_core" ∷ "provides" ∷ "requires"
    ∷ "package_dependencies" ∷ "http" ∷ "database" ∷ "events" ∷ "settings_schema" ∷ "setting_seeds"
    ∷ "jobs_schema" ∷ "timers" ∷ "deployment" ∷ "environment" ∷ "resources" ∷ "actions"
    ∷ "default_binding" ∷ []

abbrev lists_container : Option Json → Bool
lists_container (some (arr l)) = any (λ j. is_str j "container") (items l)
lists_container _ = false

abbrev pub declares_container : Option Json → Bool
declares_container (some (obj d)) = lists_container (get "modes" d)
declares_container _ = false

abbrev pub is_given : Option Json → Bool
is_given none = false
is_given (some j) = is_truthy j

-- What `parse_package_manifest` and the library's typing of the fields return or raise.
pub data Parsed : Type 0 where
  parsed : PackageManifest → Parsed
  raised : ManifestError → Parsed

abbrev pub raised_by : Option ManifestRefusal → Option ManifestError
raised_by none = none
raised_by (some (timer r)) = some invalid_timer
raised_by (some r) = some invalid_manifest

abbrev pub returned : PackageManifest → Option ManifestError → Parsed
returned m none = parsed m
returned m (some e) = raised e

-- The validators, once the fields have their types.
abbrev pub validated_manifest : Library → Parsed → Parsed
validated_manifest lib (raised e) = raised e
validated_manifest lib (parsed m) =
    if not (valid_prefix m.http_prefix)
    then raised malformed_prefix
    else if not (valid_fields lib m)
    then raised invalid_manifest
    else returned m (raised_by (validate_named_lists m))

-- `parse_package_manifest` of a dict. `coerce` is how pydantic gives the fields of the data the types
-- declared for them; where a field is missing, of another type or not allowed, it raises, as the
-- handler here names it.
pub parse_package_manifest : Library → (Fields → Parsed) → Fields → Parsed
parse_package_manifest lib coerce d =
    if exceeds (keys d) fields_of_manifest
    then raised unknown_field
    else if declares_container (get "deployment" d)
    then raised unimplemented_mode
    else if not (is_given (get "name" d) && is_given (get "version" d))
    then raised missing_identity
    else validated_manifest lib (coerce d)
