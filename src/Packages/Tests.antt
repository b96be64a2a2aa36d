-- ===== src/Packages/Tests.antt =====
-- The theorems at concrete packages.
use codegen_product_kit.Base.{
  ◌≡◌, refl, String, Bool, true, false, none, some, [], ◌∷◌, str_eq, if◌then◌else◌,
}
use codegen_product_kit.Json.{Fields, str, num, obj, arr, cons, nil, field, end}
use codegen_product_kit.Packages.Manifest.{ok, PackageManifest, Library, parse_fields}
use codegen_product_kit.Packages.Manifest.Validity.{IsAccepted, parse_fields_lem}
use codegen_product_kit.Packages.Activation.{
  Parameter, Runtime, Distribution, EntryPoint, ActivatedPackage, Core, Identity, Mounts,
  discover_packages, discover_generated_packages, configure_packages,
}
use codegen_product_kit.Packages.Activation.Discovery.{AreDiscovered, discover_packages_lem}
use codegen_product_kit.Packages.Activation.Ownership.{
  IsOwned, owned_database_schema, owned_database_schema_lem,
}
use codegen_product_kit.Packages.Activation.Mounting.{
  IsConfigured, AreGenerated, configure_packages_lem, discover_generated_packages_lem,
}
use codegen_product_kit.Packages.Lifecycle.{
  shutdown, finished, cancelled, failed, Behaviour, Application, startup_packages,
  shutdown_packages,
}
use codegen_product_kit.Packages.Lifecycle.Startup.{Ends, startup_packages_lem}

abbrev plain : Library
plain = record { parts = λ s. s ∷ []; strip = λ s. s }

abbrev manifest_of_reminders : Fields
manifest_of_reminders = field "protocol_version" (num 1) (
    field "name" (str "reminders") (
      field "version" (str "1.2.0") (
        field "requires_core" (str ">=1") (
          field "http" (obj (field "prefix" (str "/reminders") end)) (
            field "database"
              (obj (
                field "schema" (str "reminders")
                  (field "migrations" (str "reminders:migrations") end)))
              (field "settings_schema"
                (obj (field "properties" (obj (field "timezone" (obj end) end)) end))
                (field "setting_seeds"
                  (arr (
                    cons (obj (field "key" (str "timezone") (field "scope" (str "product") end)))
                      nil))
                  end)))))))

abbrev reminders_manifest : PackageManifest
reminders_manifest = record {
  protocol_version = num 1;
  name = str "reminders";
  version = str "1.2.0";
  requires_core = str ">=1";
  http_prefix = "/reminders";
  deployment_modes = "in_process" ∷ [];
  database = some ("reminders", "reminders:migrations");
  setting_seeds = ("product", "timezone") ∷ [];
}

reminders_accepted : parse_fields plain manifest_of_reminders ≡ ok reminders_manifest
unfolding parse_fields
reminders_accepted = refl

parse_fields_lem_example : IsAccepted plain manifest_of_reminders reminders_manifest
parse_fields_lem_example =
    parse_fields_lem plain manifest_of_reminders reminders_manifest reminders_accepted

abbrev core : Core
core = record { library = plain; admits = λ r. some true }

abbrev positional : String → Parameter
positional s = record { name = s; is_positional = true }

abbrev reminders_runtime : Runtime
reminders_runtime = record {
  id = 7;
  is_package = true;
  seed_setting = some (record {
    is_coroutine = true;
    parameters = some (positional "session" ∷ positional "key" ∷ positional "value" ∷ []);
  });
}

abbrev reminders_wheel : Distribution
reminders_wheel = record {
  version = "1.2.0";
  package_dir = λ m. if str_eq m "reminders" then some "/site/reminders" else none;
  files = ("METADATA", "/site/meta") ∷ ("package.yaml", "/site/reminders/package.yaml") ∷ [];
  manifest_of = λ root. "/site/reminders/package.yaml";
  load_yaml = λ path. some (obj manifest_of_reminders);
  sha256 = λ path. "ab12";
}

abbrev reminders_entry : EntryPoint
reminders_entry = record {
  name = "reminders";
  value = "reminders:package";
  dist = some reminders_wheel;
  runtime = reminders_runtime;
}

abbrev reminders_package : ActivatedPackage
reminders_package = record {
  manifest = reminders_manifest;
  runtime = reminders_runtime;
  package_root = "/site/reminders";
  manifest_sha256 = "ab12";
}

reminders_discovered :
    discover_packages core (reminders_entry ∷ []) ("reminders" ∷ []) ≡ ok (reminders_package ∷ [])
unfolding discover_packages
reminders_discovered = refl

abbrev reminders_identity : Identity
reminders_identity = record { name = "reminders"; version = "1.2.0"; manifest_sha256 = "ab12" }

reminders_generated :
    discover_generated_packages core
      (reminders_entry ∷ [])
      (reminders_identity ∷ [])
      (some ("reminders" ∷ []))
    ≡ ok (reminders_package ∷ [])
unfolding discover_generated_packages
reminders_generated = refl

abbrev under : String → String → Bool
under caller root = str_eq root "/site/reminders"

reminders_owned :
    owned_database_schema core under (reminders_entry ∷ []) "/site/reminders/store.py"
    ≡ ok "reminders"
unfolding owned_database_schema
reminders_owned = refl

abbrev calm : Behaviour
calm log c = finished

abbrev second_fails : Behaviour
second_fails [] c = failed 1
second_fails (d ∷ l) c = cancelled 2

abbrev before : Application
before = record {
  codegen_packages = reminders_package ∷ reminders_package ∷ [];
  codegen_started_packages = reminders_package ∷ reminders_package ∷ [];
  log = [];
}

-- Both packages are stopped, and the cancellation is raised although an error came first.
stopped_twice :
    shutdown_packages 3 second_fails false before
    ≡ some (
      record {
        codegen_packages = reminders_package ∷ reminders_package ∷ [];
        codegen_started_packages = [];
        log = shutdown reminders_package ∷ shutdown reminders_package ∷ [];
      },
      some (cancelled 2),
    )
unfolding shutdown_packages
stopped_twice = refl

discover_packages_lem_example :
    AreDiscovered core (reminders_entry ∷ []) ("reminders" ∷ []) (reminders_package ∷ [])
discover_packages_lem_example =
    discover_packages_lem core (reminders_entry ∷ []) ("reminders" ∷ []) (reminders_package ∷ [])
      reminders_discovered

abbrev unmounted : Mounts
unmounted = record { codegen_packages = []; routers = (1, "/core") ∷ [] }

configure_packages_lem_example :
    IsConfigured core
      (reminders_entry ∷ [])
      ("reminders" ∷ [])
      unmounted
      (configure_packages core (reminders_entry ∷ []) ("reminders" ∷ []) unmounted)
configure_packages_lem_example =
    configure_packages_lem core (reminders_entry ∷ []) ("reminders" ∷ []) unmounted

discover_generated_packages_lem_example :
    AreGenerated core
      (reminders_entry ∷ [])
      (reminders_identity ∷ [])
      (some ("reminders" ∷ []))
      (reminders_package ∷ [])
discover_generated_packages_lem_example =
    discover_generated_packages_lem core (reminders_entry ∷ []) (reminders_identity ∷ [])
      (some ("reminders" ∷ [])) (reminders_package ∷ []) reminders_generated

owned_database_schema_lem_example :
    IsOwned core under (reminders_entry ∷ []) "/site/reminders/store.py" "reminders"
owned_database_schema_lem_example =
    owned_database_schema_lem core under (reminders_entry ∷ []) "/site/reminders/store.py"
      "reminders" reminders_owned

startup_packages_lem_example :
    let (a, raised) = startup_packages calm before in
    Ends calm [] before.codegen_packages a.codegen_started_packages raised a.log
startup_packages_lem_example = startup_packages_lem calm before
