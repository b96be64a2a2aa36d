-- ===== src/Spec/Packages/Tests.antt =====
-- The theorems at the manifest of a package with a timer and an event.
use mathlib.Core.Path.{subst}
use codegen_product_kit.Base.{
  ℕ, String, Option, ◌≡◌, ◌↔◌, refl, true, false, none, some, [], ◌∷◌, All,
}
use codegen_product_kit.Json.{Json, Fields, bool, num, str, arr, obj, nil, cons, end, field, get}
use codegen_product_kit.Spec.Manifests.{
  repeats, meta_schema_url, validate_declaration_schema, contains_ref, validate_jobs_schema,
}
use codegen_product_kit.Spec.Manifests.Refs.{
  IsDeclaration, validate_declaration_schema-IsDeclaration,
}
use codegen_product_kit.Spec.Packages.{
  pos, Library, PackageEventMessage, EventsDeclaration, TimerDeclaration, PackageManifest,
  DatabaseDeclaration, Parsed, parsed, raised, invalid_timer, validate_timers, arguments_refusal,
  in_interval, is_fireable, validate_messages_cover_events, parse_package_manifest, valid_prefix,
  valid_fields, valid_database, valid_message, valid_environment, valid_resource, valid_modes,
  valid_seed, validate_named_lists,
}
use codegen_product_kit.Spec.Packages.Timers.{IsTimer, jobs_of, validate_timers_iff}
use codegen_product_kit.Spec.Packages.Events.{IsCovered, validate_messages_cover_events_iff}
use codegen_product_kit.Spec.Packages.Accepted.{
  Reads, ReadsFields, IsAliased, IsAccepted, parse_package_manifest-IsAccepted,
}

abbrev plain : Library
plain = record {
  parts = λ s. s ∷ [];
  is_absolute = λ s. false;
  is_identifier = λ s. true;
  strip = λ s. s;
  check_schema = λ j. true;
}

abbrev at_argument : Fields
at_argument = field "type" (str "object") (
    field "properties"
      (obj
        (field "at" (obj (field "type" (str "string") (field "format" (str "date-time") end))) end))
      (field "required" (arr (cons (str "at") nil))
        (field "additionalProperties" (bool false) end)))

abbrev jobs : Fields
jobs = field "tick" (obj at_argument) end

abbrev declaration : Fields → Fields
declaration properties = field "$schema" (str meta_schema_url) (
    field "type" (str "object")
      (field "properties" (obj properties) (field "additionalProperties" (bool false) end)))

abbrev tick : TimerDeclaration
tick = record { job = "tick"; every_seconds = pos 60 }

abbrev too_often : TimerDeclaration
too_often = record { job = "tick"; every_seconds = pos 9 }

tick_accepted : validate_timers [] (tick ∷ []) jobs ≡ none
unfolding validate_timers get arguments_refusal in_interval is_fireable
tick_accepted = refl

validate_timers_iff_example :
    (validate_timers [] (tick ∷ []) jobs ≡ none)
    ↔ ((repeats (jobs_of (tick ∷ [])) ≡ false) × All (IsTimer jobs) (tick ∷ []))
validate_timers_iff_example = validate_timers_iff (tick ∷ []) jobs

abbrev due_message : PackageEventMessage
due_message = record {
  model = "ReminderDue";
  schema_data = field "type" (str "object") end;
  recipient = none;
}

abbrev events : EventsDeclaration
events = record {
  publishes = "reminder.due" ∷ [];
  consumes = [];
  messages = ("reminder.due", due_message) ∷ [];
}

validate_messages_cover_events_iff_example :
    (validate_messages_cover_events events ≡ none) ↔ IsCovered events
validate_messages_cover_events_iff_example = validate_messages_cover_events_iff events

abbrev reminders : TimerDeclaration → String → Option DatabaseDeclaration → PackageManifest
reminders timer prefix database = record {
  provides = [];
  requires = [];
  http_prefix = prefix;
  database = database;
  events = events;
  settings_schema = declaration (field "timezone" (obj end) end);
  setting_seeds = record { key = "timezone" } ∷ [];
  jobs_schema = declaration jobs;
  timers = timer ∷ [];
  deployment_modes = "in_process" ∷ [];
  environment = record { name = "REMINDERS_TOKEN"; required = true } ∷ [];
  resources = [];
  action_names = [];
}

-- The package's manifest as it is written.
abbrev written : ℕ → Fields
written seconds = field "protocol_version" (num 1) (
    field "name" (str "reminders") (
      field "version" (str "1.2.0") (
        field "requires_core" (str ">=1") (
          field "http" (obj (field "prefix" (str "/reminders") end)) (
            field "database"
              (obj (
                field "schema" (str "reminders")
                  (field "migrations" (str "reminders:migrations") end)))
              (field "events"
                (obj (
                  field "publishes" (arr (cons (str "reminder.due") nil)) (
                    field "messages"
                      (obj (
                        field "reminder.due"
                          (obj (
                            field "model" (str "ReminderDue")
                              (field "schema" (obj (field "type" (str "object") end)) end)))
                          end))
                      end)))
                (field "settings_schema" (obj (declaration (field "timezone" (obj end) end))) (
                  field "setting_seeds"
                    (arr (
                      cons (obj (field "key" (str "timezone") (field "scope" (str "product") end)))
                        nil))
                    (field "jobs_schema" (obj (declaration jobs)) (
                      field "timers"
                        (arr (
                          cons
                            (obj
                              (field "job" (str "tick") (field "every_seconds" (num seconds) end)))
                            nil))
                        (field "environment"
                          (arr (
                            cons
                              (obj (
                                field "name" (str "REMINDERS_TOKEN")
                                  (field "required" (bool true) end)))
                              nil))
                          end)))))))))))

-- A stand-in for pydantic, on manifests of this one package: it reads the prefix and the database.
abbrev text_of : Option Json → String
text_of (some (str s)) = s
text_of _ = ""

abbrev prefix_of : Option Json → String
prefix_of (some (obj h)) = text_of (get "prefix" h)
prefix_of _ = ""

abbrev database_in : Option Json → Option DatabaseDeclaration
database_in (some (obj f)) =
    some
      (record { schema_name = text_of (get "schema" f); migrations = text_of (get "migrations" f) })
database_in _ = none

abbrev coerce : TimerDeclaration → Fields → Parsed
coerce timer d =
    parsed (reminders timer (prefix_of (get "http" d)) (database_in (get "database" d)))

abbrev read_back : TimerDeclaration → PackageManifest
read_back timer =
    reminders timer "/reminders"
      (some (record { schema_name = "reminders"; migrations = "reminders:migrations" }))

reminders_accepted :
    parse_package_manifest plain (coerce tick) (written 60) ≡ parsed (read_back tick)
unfolding parse_package_manifest get valid_prefix valid_fields valid_database valid_message
    validate_messages_cover_events validate_declaration_schema contains_ref validate_jobs_schema
    valid_environment valid_resource valid_modes valid_seed validate_named_lists validate_timers
    arguments_refusal in_interval is_fireable
reminders_accepted = refl

-- A timer of nine seconds is refused.
reminders_refused :
    parse_package_manifest plain (coerce too_often) (written 9) ≡ raised invalid_timer
unfolding parse_package_manifest get valid_prefix valid_fields valid_database valid_message
    validate_messages_cover_events validate_declaration_schema contains_ref validate_jobs_schema
    valid_environment valid_resource valid_modes valid_seed validate_named_lists validate_timers
    arguments_refusal in_interval is_fireable
reminders_refused = refl

parsed_inj : {m n : PackageManifest} → parsed m ≡ parsed n → m ≡ n
parsed_inj h = cc h

written-Reads : Reads (written 60) (read_back tick)
unfolding get
written-Reads = record {
  has_protocol_version = refl;
  has_requires_core = refl;
  http = (_, refl, refl);
  database = (_, refl, refl, refl);
}

written-ReadsFields : ReadsFields (coerce tick) (written 60)
unfolding get
written-ReadsFields m alias h = subst (Reads (written 60)) (parsed_inj h) written-Reads

obj_inj : {a b : Fields} → some (obj a) ≡ some (obj b) → a ≡ b
obj_inj h = cc h

written-IsAliased : IsAliased (written 60)
unfolding get
written-IsAliased f h = subst (λ g. get "schema_name" g ≡ none) (obj_inj h) refl

parse_package_manifest-IsAccepted_example : IsAccepted plain (written 60) (read_back tick)
parse_package_manifest-IsAccepted_example =
    parse_package_manifest-IsAccepted plain (coerce tick) (written 60) (read_back tick)
      written-ReadsFields written-IsAliased reminders_accepted

abbrev settings : Fields
settings = declaration (field "timezone" (obj (field "type" (str "string") end)) end)

settings_accepted : validate_declaration_schema (λ j. true) settings ≡ none
unfolding validate_declaration_schema get contains_ref
settings_accepted = refl

validate_declaration_schema-IsDeclaration_example : IsDeclaration (λ j. true) settings
validate_declaration_schema-IsDeclaration_example =
    validate_declaration_schema-IsDeclaration (λ j. true) settings settings_accepted
