-- ===== src/Spec/Manifests.antt =====
-- Declaration schemas and service manifests, framework/spec/manifests.py. A validator gives the refusal
-- that it raises, if any; `check_schema` of the JSON Schema library is a parameter.
pub mod Refs
use codegen_product_kit.Base.{
  ℕ, ◌≡◌, String, Bool, true, false, ◌&&◌, ◌||◌, not, Option, none, some, List, [], ◌∷◌, map,
  if◌then◌else◌, str_eq, is_some,
}
use codegen_product_kit.Base.Sorting.{any}
use codegen_product_kit.Json.{
  Json, Items, Fields, null, bool, num, other_number, str, arr, obj, nil, cons, end, field, get,
  keys,
}

abbrev pub meta_schema_url : String
meta_schema_url = "https://json-schema.org/draft/2020-12/schema"

-- `CORE_CAPABILITIES`
abbrev pub core_capabilities : List String
core_capabilities = "jobs.fire" ∷ []

-- `empty_declaration_schema`
abbrev pub empty_declaration_schema : Fields
empty_declaration_schema = field "$schema" (str meta_schema_url) (
    field "type" (str "object")
      (field "properties" (obj end) (field "additionalProperties" (bool false) end)))

pub data Refusal : Type 0 where
  wrong_meta_schema not_an_object open_schema has_required no_properties empty_key not_a_schema
        has_ref :
      Refusal
  invalid_schema repeated unknown_capability malformed_name : Refusal
  -- Of the arguments of a job.
  job_not_an_object open_job : Refusal

-- `_contains_ref`
unfoldable mutual
  pub contains_ref : Json → Bool
  contains_ref (obj d) = is_some (get "$ref" d) || field_contains_ref d
  contains_ref (arr l) = item_contains_ref l
  contains_ref _ = false

  pub item_contains_ref : Items → Bool
  item_contains_ref nil = false
  item_contains_ref (cons j l) = contains_ref j || item_contains_ref l

  pub field_contains_ref : Fields → Bool
  field_contains_ref end = false
  field_contains_ref (field k j d) = contains_ref j || field_contains_ref d

abbrev pub is_text : Option Json → String → Bool
is_text (some (str s)) t = str_eq s t
is_text _ t = false

abbrev pub is_false : Option Json → Bool
is_false (some (bool b)) = not b
is_false _ = false

abbrev pub all_objects : Fields → Bool
all_objects end = true
all_objects (field k (obj e) d) = all_objects d
all_objects (field k j d) = false

-- The first refusal of a list of checks.
abbrev pub first_of : List (Bool × Refusal) → Option Refusal
first_of [] = none
first_of ((failed, r) ∷ l) = if failed then some r else first_of l

abbrev pub checks_of : (Json → Bool) → Fields → Option Json → List (Bool × Refusal)
checks_of check_schema schema (some (obj properties)) =
    (any (λ k. str_eq k "") (keys properties), empty_key)
    ∷ (not (all_objects properties), not_a_schema)
    ∷ (contains_ref (obj schema), has_ref)
    ∷ (not (check_schema (obj schema)), invalid_schema)
    ∷ []
checks_of check_schema schema _ = (true, no_properties) ∷ []

-- `_validate_declaration_schema`
unfoldable pub validate_declaration_schema : (Json → Bool) → Fields → Option Refusal
validate_declaration_schema check_schema schema = first_of (
    (not (is_text (get "$schema" schema) meta_schema_url), wrong_meta_schema)
    ∷ (not (is_text (get "type" schema) "object"), not_an_object)
    ∷ (not (is_false (get "additionalProperties" schema)), open_schema)
    ∷ (is_some (get "required" schema), has_required)
    ∷ checks_of check_schema schema (get "properties" schema))

-- The loop of `validate_jobs_schema` over the properties.
pub validate_jobs : Fields → Option Refusal
unfolding get
validate_jobs end = none
validate_jobs (field name (obj arguments) d) =
    let rest = validate_jobs d in
    if not (is_text (get "type" arguments) "object")
    then some job_not_an_object
    else if not (is_false (get "additionalProperties" arguments))
    then some open_job
    else rest
-- Not reached: the properties are objects.
validate_jobs (field name j d) = some job_not_an_object

abbrev jobs_under : Option Json → Option Refusal
jobs_under (some (obj properties)) = validate_jobs properties
jobs_under _ = none

-- `validate_jobs_schema`
unfoldable pub validate_jobs_schema : (Json → Bool) → Fields → Option Refusal
unfolding validate_declaration_schema validate_jobs get
validate_jobs_schema check_schema schema = elim (validate_declaration_schema check_schema schema) [
  | some r ↦ some r
  | none ↦ jobs_under (get "properties" schema)
]

abbrev pub occurs : List String → String → Bool
occurs l s = any (λ t. str_eq t s) l

-- `len(set(names)) != len(names)`
abbrev pub repeats : List String → Bool
repeats [] = false
repeats (s ∷ l) = occurs l s || repeats l

-- `validate_provides`
pub validate_provides : List String → Option Refusal
validate_provides provided = first_of (
    (repeats provided, repeated)
    ∷ (any (λ name. not (occurs core_capabilities name)) provided, unknown_capability)
    ∷ [])

-- `validate_packages`; `is_package_name` stands for `name.replace("-", "_").isidentifier()`.
pub validate_packages : (String → Bool) → List String → Option Refusal
validate_packages is_package_name packages = first_of (
    (repeats packages, repeated)
    ∷ (any (λ name. str_eq name "" || not (is_package_name name)) packages, malformed_name)
    ∷ [])

pub record ServiceManifest : Type 0 where
  pub settings_schema : Fields
  pub jobs_schema : Fields
  pub provides : List String
  pub packages : List String

abbrev pub gather : Option Refusal → List Refusal → List Refusal
gather none l = l
gather (some r) l = r ∷ l

-- Every field is validated, in the order of the fields.
pub validate_service_manifest : (Json → Bool) → (String → Bool) → ServiceManifest → List Refusal
unfolding validate_declaration_schema validate_jobs_schema validate_provides validate_packages
validate_service_manifest check_schema is_package_name m =
    gather (validate_declaration_schema check_schema m.settings_schema) (
      gather (validate_jobs_schema check_schema m.jobs_schema) (
        gather (validate_provides m.provides)
          (gather (validate_packages is_package_name m.packages) [])))
