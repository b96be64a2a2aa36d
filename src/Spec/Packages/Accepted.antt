-- ===== src/Spec/Packages/Accepted.antt =====
-- A manifest that `parse_package_manifest` of the framework accepts, beside the checks of the fields, the
-- prefix and the database in template/codegen_kit/packages.py, which read the same data again.
use codegen_product_kit.Base.{
  ◌≡◌, refl, ap, String, Bool, true, false, ◌&&◌, not, Option, none, some, [], arith, is_some, All,
  ◌⊎◌, inl, inr, Bool-cases,
}
use codegen_product_kit.Json.{Json, Fields, null, str, obj, keys, get}
use mathlib.Core.Path.{subst}
use codegen_product_kit.Packages.Manifest as Runtime
use codegen_product_kit.Packages.Manifest.{
  ◌>>◌, validate_manifest_fields, is_malformed_prefix, valid_database_schema,
  valid_migration_resource,
}
use codegen_product_kit.Spec.Manifests.{repeats}
use codegen_product_kit.Spec.Packages.{
  Library, DatabaseDeclaration, PackageManifest, valid_prefix, valid_database, valid_fields,
  validate_named_lists, validate_timers, validate_messages_cover_events, parse_package_manifest,
  properties_of, database_ok, exceeds, seed_keys, fields_of_manifest, is_given, raised_by, as_timer,
  ManifestError, Parsed, parsed, raised, returned, validated_manifest, ManifestRefusal,
  repeated_name, repeated_seed, undeclared_seed, timer, TimerRefusal, EventsRefusal,
}
use codegen_product_kit.Spec.Packages.Timers.{IsTimer, jobs_of, validate_timers_iff}
use codegen_product_kit.Spec.Packages.Events.{IsCovered, validate_messages_cover_events_iff}

valid_prefix-wellformed : (p : String) → valid_prefix p ≡ true → is_malformed_prefix p ≡ false
unfolding valid_prefix is_malformed_prefix
valid_prefix-wellformed p h = ground arith

-- The library of the runtime has the same paths.
abbrev pub runtime : Library → Runtime.Library
runtime lib = record { parts = lib.parts; strip = lib.strip }

abbrev pub ReadsPrefix : Option Json → String → Type 0
ReadsPrefix o prefix = (h : Fields) × (o ≡ some (obj h)) × (get "prefix" h ≡ some (str prefix))

abbrev pub ReadsDatabase : Option Json → Option DatabaseDeclaration → Type 0
ReadsDatabase o none = (o ≡ none) ⊎ (o ≡ some null)
ReadsDatabase o (some b) =
    (f : Fields) × (o ≡ some (obj f))
    × (get "schema" f ≡ some (str b.schema_name))
    × (get "migrations" f ≡ some (str b.migrations))

-- The typed manifest is what the data holds: the required fields are there, and the texts of the prefix
-- and of the database are those of the data.
pub record Reads (d : Fields) (m : PackageManifest) : Type 0 where
  pub has_protocol_version : is_some (get "protocol_version" d) ≡ true
  pub has_requires_core : is_some (get "requires_core" d) ≡ true
  pub http : ReadsPrefix (get "http" d) m.http_prefix
  pub database : ReadsDatabase (get "database" d) m.database

-- The database is written under the alias `schema` of its field `schema_name`.
abbrev pub IsAliased : Fields → Type 0
IsAliased d = (f : Fields) → get "database" d ≡ some (obj f) → get "schema_name" f ≡ none

-- What pydantic documents of typed fields, for the data at hand.
abbrev pub ReadsFields : (Fields → Parsed) → Fields → Type 0
ReadsFields coerce d = (m : PackageManifest) → IsAliased d → coerce d ≡ parsed m → Reads d m

abbrev pub pair_of : Option DatabaseDeclaration → Option (String × String)
pair_of none = none
pair_of (some b) = some (b.schema_name, b.migrations)

http_prefix-Reads :
    (d : Fields) (m : PackageManifest)
    → Reads d m
    → is_malformed_prefix m.http_prefix ≡ false
    → Runtime.http_prefix d ≡ Runtime.ok m.http_prefix
unfolding Runtime.http_prefix
http_prefix-Reads d m r w = let (h, e, p) = r.http in rw (e, p, w) refl

passes :
    (lib : Library) (b : DatabaseDeclaration)
    → valid_database lib b ≡ true
    → (valid_database_schema b.schema_name && valid_migration_resource (runtime lib) b.migrations)
      ≡ true
unfolding valid_database valid_database_schema valid_migration_resource
passes lib b k = ground arith

database_declaration-Reads :
    (lib : Library) (d : Fields) (o : Option DatabaseDeclaration)
    → ReadsDatabase (get "database" d) o
    → database_ok lib o ≡ true
    → Runtime.database_declaration (runtime lib) d ≡ Runtime.ok (pair_of o)
unfolding Runtime.database_declaration
database_declaration-Reads lib d none (inl e) h = rw e refl
database_declaration-Reads lib d none (inr e) h = rw e refl
database_declaration-Reads lib d (some b) (f, e, s, m) h = rw (e, s, m, passes lib b h) refl

returned-parsed :
    (m n : PackageManifest) (o : Option ManifestError)
    → returned n o ≡ parsed m
    → (n ≡ m) × (o ≡ none)
returned-parsed m n none h = (cc h, refl)
returned-parsed m n (some e) h = absurd (cc h)

-- The checks that a typed manifest has passed.
abbrev Passed : Library → PackageManifest → Type 0
Passed lib m =
    (valid_prefix m.http_prefix ≡ true)
    × (valid_fields lib m ≡ true)
    × (raised_by (validate_named_lists m) ≡ none)

validated_manifest-parsed :
    (lib : Library) (p : Parsed) (m : PackageManifest)
    → validated_manifest lib p ≡ parsed m
    → (p ≡ parsed m) × Passed lib m
validated_manifest-parsed lib (raised e) m h = absurd (cc h)
validated_manifest-parsed lib (parsed n) m h = elim (Bool-cases (valid_prefix n.http_prefix)) [
  | inr k ↦ absurd (ground arith)
  | inl v ↦ elim (Bool-cases (valid_fields lib n)) [
    | inr k ↦ absurd (ground arith)
    | inl f ↦
        let (same, lists) =
          returned-parsed m n (raised_by (validate_named_lists n)) (ground arith) in
        (ap parsed same, subst (Passed lib) same (v, f, lists))
  ]
]

parse_package_manifest-checks :
    (lib : Library) (coerce : Fields → Parsed) (d : Fields) (m : PackageManifest)
    → parse_package_manifest lib coerce d ≡ parsed m
    → (exceeds (keys d) fields_of_manifest ≡ false)
      × (is_given (get "name" d) ≡ true)
      × (is_given (get "version" d) ≡ true)
      × (validated_manifest lib (coerce d) ≡ parsed m)
unfolding parse_package_manifest
parse_package_manifest-checks lib coerce d m h = ground arith

raised_by-none : (o : Option ManifestRefusal) → raised_by o ≡ none → o ≡ none
raised_by-none none h = refl
raised_by-none (some repeated_name) h = cc
raised_by-none (some repeated_seed) h = cc
raised_by-none (some undeclared_seed) h = cc
raised_by-none (some (timer r)) h = cc

as_timer-none : (o : Option TimerRefusal) → as_timer o ≡ none → o ≡ none
as_timer-none none h = refl
as_timer-none (some r) h = cc

validate_named_lists-checks :
    (m : PackageManifest)
    → validate_named_lists m ≡ none
    → (repeats (seed_keys m) ≡ false)
      × (exceeds (seed_keys m) (keys (properties_of m.settings_schema)) ≡ false)
      × (as_timer (validate_timers [] m.timers (properties_of m.jobs_schema)) ≡ none)
unfolding validate_named_lists
validate_named_lists-checks m h = ground arith

valid_fields-checks :
    (lib : Library) (m : PackageManifest)
    → valid_fields lib m ≡ true
    → (database_ok lib m.database ≡ true) × (validate_messages_cover_events m.events ≡ none)
unfolding valid_fields
valid_fields-checks lib m h =
    (ground arith, is_some-none (validate_messages_cover_events m.events) (ground arith))
  where
    is_some-none : (o : Option EventsRefusal) → is_some o ≡ false → o ≡ none
    is_some-none none k = refl
    is_some-none (some r) k = cc

-- What an accepted manifest is, for the framework and for the runtime that reads its data again.
pub record IsAccepted (lib : Library) (d : Fields) (m : PackageManifest) : Type 0 where
  pub known_fields : validate_manifest_fields d ≡ Runtime.ok tt
  pub reads_prefix : Runtime.http_prefix d ≡ Runtime.ok m.http_prefix
  pub reads_database :
      Runtime.database_declaration (runtime lib) d ≡ Runtime.ok (pair_of m.database)
  pub covered_events : IsCovered m.events
  pub distinct_seeds : repeats (seed_keys m) ≡ false
  pub declared_seeds : exceeds (seed_keys m) (keys (properties_of m.settings_schema)) ≡ false
  pub distinct_jobs : repeats (jobs_of m.timers) ≡ false
  pub fireable_timers : All (IsTimer (properties_of m.jobs_schema)) m.timers

given_too : (o : Option Json) → is_given o ≡ true → Runtime.is_given o ≡ true
given_too none h = h
given_too (some j) h = h

-- Requirements that all hold raise nothing.
all_hold :
    (a b c d : Bool) (x y z w : Runtime.PackageError)
    → a ≡ true
    → b ≡ true
    → c ≡ true
    → d ≡ true
    → (Runtime.require a x >> (Runtime.require b y >> (Runtime.require c z >> Runtime.require d w)))
      ≡ Runtime.ok tt
all_hold a b c d x y z w ha hb hc hd = rw (ha, hb, hc, hd) refl

validate_manifest_fields-accepts :
    (d : Fields)
    → exceeds (keys d) fields_of_manifest ≡ false
    → is_given (get "name" d) ≡ true
    → is_given (get "version" d) ≡ true
    → is_some (get "protocol_version" d) ≡ true
    → is_some (get "requires_core" d) ≡ true
    → validate_manifest_fields d ≡ Runtime.ok tt
unfolding validate_manifest_fields
validate_manifest_fields-accepts d k n v p r =
    let both : Bool = is_some (get "protocol_version" d) && is_some (get "requires_core" d) in
    let present : both ≡ true = rw (p, r) refl in
    all_hold (not (exceeds (keys d) fields_of_manifest)) (Runtime.is_given (get "name" d))
      (Runtime.is_given (get "version" d)) both Runtime.unknown_package_manifest_field
      Runtime.missing_package_identity Runtime.missing_package_identity Runtime.package_manifest
      (ap not k) (given_too (get "name" d) n) (given_too (get "version" d) v) present

-- If pydantic types fields as it documents, data that the framework accepts, with the database under its
-- alias, passes the runtime's check of the fields, and the runtime reads from it the prefix and the
-- database of the typed manifest without an error. The events of the manifest are covered; its setting
-- seeds differ and are declared; its timers have different jobs, each with the arguments that the core
-- gives and an interval of 10 to 86400 seconds.
pub parse_package_manifest-IsAccepted :
    (lib : Library) (coerce : Fields → Parsed) (d : Fields) (m : PackageManifest)
    → ReadsFields coerce d
    → IsAliased d
    → parse_package_manifest lib coerce d ≡ parsed m
    → IsAccepted lib d m
parse_package_manifest-IsAccepted lib coerce d m reads alias h =
    let (ek, en, ev, checks) = parse_package_manifest-checks lib coerce d m h in
    let (typed, (ep, ef, el)) = validated_manifest-parsed lib (coerce d) m checks in
    let r = reads m alias typed in
    let (es, ed, et) = validate_named_lists-checks m (raised_by-none _ el) in
    let (db, events) = valid_fields-checks lib m ef in
    let (jobs, timers) =
      (validate_timers_iff m.timers (properties_of m.jobs_schema)).0 (as_timer-none _ et) in
    record {
      known_fields =
          validate_manifest_fields-accepts d ek en ev r.has_protocol_version r.has_requires_core;
      reads_prefix = http_prefix-Reads d m r (valid_prefix-wellformed m.http_prefix ep);
      reads_database = database_declaration-Reads lib d m.database r.database db;
      covered_events = (validate_messages_cover_events_iff m.events).0 events;
      distinct_seeds = es;
      declared_seeds = ed;
      distinct_jobs = jobs;
      fireable_timers = timers;
    }
