-- ===== src/Packages/Activation.antt =====
-- Discovery and activation, template/codegen_kit/packages.py. An installed distribution is data: its
-- directories, its files and the YAML they hold; the object that its entry point loads is data too.
pub mod Discovery
pub mod Ownership
pub mod Mounting
mod Compatible
use codegen_product_kit.Base.{
  ℕ, ◌≡◌, String, Bool, true, false, ◌&&◌, ◌||◌, not, Option, none, some, List, [], ◌∷◌, ◌++◌, map,
  if◌then◌else◌, ◌==◌, str_eq, is_some,
}
use codegen_product_kit.Base.Dict.{Dict, lookup, insert}
use codegen_product_kit.Base.Sorting.{any}
use codegen_product_kit.Base.Texts.{partition}
use codegen_product_kit.Json.{Json, null, bool, num, other_number, str, arr, obj}
use codegen_product_kit.Packages.Manifest.{
  PackageError, package_activation, package_manifest, invalid_package_module_root,
  installed_package_not_listed, listed_package_not_installed, incompatible_package_protocol,
  incompatible_core_version, duplicate_package_http_prefix, missing_setting_seed_callback,
  package_database_ownership, Checked, ok, raised, ◌>>=◌, ◌>>◌, require, PackageManifest, Library,
  parse_manifest, member,
}

pub record Parameter : Type 0 where
  pub name : String
  pub is_positional : Bool

-- A callback `seed_setting`; its signature may be unreadable.
pub record SeedCallback : Type 0 where
  pub is_coroutine : Bool
  pub parameters : Option (List Parameter)

pub record Runtime : Type 0 where
  pub id : ℕ
  pub is_package : Bool
  pub seed_setting : Option SeedCallback

-- The directory of a dotted module, if it is one; the files with their names; a file as YAML.
pub record Distribution : Type 0 where
  pub version : String
  pub package_dir : String → Option String
  pub files : List (String × String)
  pub manifest_of : String → String
  pub load_yaml : String → Option Json
  pub sha256 : String → String

pub record EntryPoint : Type 0 where
  pub name : String
  pub value : String
  pub dist : Option Distribution
  pub runtime : Runtime

pub record ActivatedPackage : Type 0 where
  pub manifest : PackageManifest
  pub runtime : Runtime
  pub package_root : String
  pub manifest_sha256 : String

-- `Version(CORE_VERSION) in SpecifierSet(requires_core)`: `none` is an invalid requirement.
pub record Core : Type 0 where
  pub library : Library
  pub admits : Json → Option Bool

abbrev pub as_result {ℓ} : {A : Type ℓ} → PackageError → Option A → Checked A
as_result e none = raised e
as_result e (some a) = ok a

abbrev module_name : EntryPoint → String
module_name e = (partition e.value).0

abbrev root_in : String → Distribution → Checked (Distribution × String)
root_in name d = do
  root ← as_result invalid_package_module_root (d.package_dir name)
  require (not (str_eq name "")) invalid_package_module_root
  ok (d, root)

-- `_package_root`, with the distribution that it found.
pub package_root_of : EntryPoint → Checked (Distribution × String)
unfolding partition
package_root_of e = do d ← as_result package_manifest e.dist; root_in (module_name e) d

abbrev manifests : List (String × String) → List String
manifests [] = []
manifests ((name, path) ∷ l) =
    if str_eq name "package.yaml" then path ∷ manifests l else manifests l

abbrev the_one : List String → Checked String
the_one [] = raised package_manifest
the_one (p ∷ []) = ok p
the_one (p ∷ q ∷ l) = raised package_manifest

-- `_manifest_path`
pub manifest_path_of : Distribution → String → Checked String
manifest_path_of d root = do
  path ← the_one (manifests d.files)
  require (str_eq path (d.manifest_of root)) package_manifest
  ok path

abbrev pub is_text : Json → String → Bool
is_text (str s) t = str_eq s t
is_text _ t = false

-- `protocol_version != 1`; Python takes True for 1.
abbrev pub is_one : Json → Bool
is_one (num n) = n == 1
is_one (bool b) = b
is_one _ = false

-- `_validate_compatibility`
pub validate_compatibility : Core → PackageManifest → Checked (Unit {0})
validate_compatibility core m = do
  require (is_one m.protocol_version) incompatible_package_protocol
  compatible ← as_result incompatible_core_version (core.admits m.requires_core)
  require compatible incompatible_core_version

abbrev seed_names : List Parameter → Bool
seed_names (p ∷ q ∷ r ∷ []) =
    str_eq p.name "session" && str_eq q.name "key" && str_eq r.name "value"
seed_names _ = false

abbrev checked_callback : Option SeedCallback → Checked (Unit {0})
checked_callback none = raised missing_setting_seed_callback
checked_callback (some c) = do
  parameters ← as_result missing_setting_seed_callback c.parameters
  require c.is_coroutine missing_setting_seed_callback
  require (seed_names parameters) missing_setting_seed_callback
  require (not (any (λ (p : Parameter). not p.is_positional) parameters))
      missing_setting_seed_callback

abbrev callback_for : List (String × String) → Runtime → Checked (Unit {0})
callback_for [] r = ok tt
callback_for (s ∷ l) r = checked_callback r.seed_setting

-- `_validate_setting_seed_callback`
pub validate_setting_seed_callback : PackageManifest → Runtime → Checked (Unit {0})
validate_setting_seed_callback m r = callback_for m.setting_seeds r

-- `_activate_entry_point`
unfoldable pub activate_entry_point : Core → String → EntryPoint → Checked ActivatedPackage
unfolding package_root_of manifest_path_of parse_manifest validate_compatibility
    validate_setting_seed_callback
activate_entry_point core name e = do
  (d, root) ← package_root_of e
  path ← manifest_path_of d root
  m ← parse_manifest core.library (d.load_yaml path)
  require (is_text m.name name) package_manifest
  validate_compatibility core m
  require (is_text m.version d.version) package_manifest
  require e.runtime.is_package package_activation
  validate_setting_seed_callback m e.runtime
  ok (record {
    manifest = m;
    runtime = e.runtime;
    package_root = root;
    manifest_sha256 = d.sha256 path;
  })

-- `{entry_point.name: entry_point for entry_point in entry_points()}`
pub by_name : List EntryPoint → Dict EntryPoint → Dict EntryPoint
unfolding insert
by_name [] d = d
by_name (e ∷ l) d = by_name l (insert e.name e d)

abbrev pub is_installed : Dict EntryPoint → String → Bool
is_installed d name = is_some (lookup name d)

-- `_validate_allowlist`
pub validate_allowlist : List String → Dict EntryPoint → Checked (Unit {0})
unfolding lookup
validate_allowlist listed d = do
  require (not (any (λ e. not (member listed e.0)) d)) installed_package_not_listed
  require (not (any (λ name. not (is_installed d name)) listed)) listed_package_not_installed

pub activate_all : Core → Dict EntryPoint → List String → Checked (List ActivatedPackage)
unfolding activate_entry_point lookup
activate_all core d [] = ok []
activate_all core d (name ∷ names) = do
  e ← as_result package_activation (lookup name d)
  p ← activate_entry_point core name e
  ps ← activate_all core d names
  ok (p ∷ ps)

-- The loop of `_validate_http_prefixes` over the prefixes that are owned.
pub validate_http_prefixes : List String → List ActivatedPackage → Checked (Unit {0})
validate_http_prefixes owners [] = ok tt
validate_http_prefixes owners (p ∷ ps) = do
  require (not (member owners p.manifest.http_prefix)) duplicate_package_http_prefix
  validate_http_prefixes (p.manifest.http_prefix ∷ owners) ps

-- `discover_packages`
unfoldable pub discover_packages :
    Core → List EntryPoint → List String → Checked (List ActivatedPackage)
unfolding by_name validate_allowlist activate_all validate_http_prefixes
discover_packages core entry_points listed = do
  let d = by_name entry_points []
  validate_allowlist listed d
  ps ← activate_all core d listed
  validate_http_prefixes [] ps
  ok ps

-- `application.state.codegen_packages`, and the routers mounted with their prefixes.
pub record Mounts : Type 0 where
  pub codegen_packages : List ActivatedPackage
  pub routers : List (ℕ × String)

abbrev pub routes : List ActivatedPackage → List (ℕ × String)
routes ps = map (λ (p : ActivatedPackage). (p.runtime.id, p.manifest.http_prefix)) ps

abbrev pub mount : Mounts → Checked (List ActivatedPackage) → Mounts × Option PackageError
mount a (raised e) = (a, some e)
mount a (ok ps) = (record { codegen_packages = ps; routers = a.routers ++ routes ps }, none)

-- `configure_packages`, with what it raises.
unfoldable pub configure_packages :
    Core → List EntryPoint → List String → Mounts → Mounts × Option PackageError
unfolding discover_packages
configure_packages core entry_points listed a = mount a (discover_packages core entry_points listed)

-- One element of `ACTIVE_PACKAGES`.
pub record Identity : Type 0 where
  pub name : String
  pub version : String
  pub manifest_sha256 : String

abbrev pub same_texts : List String → List String → Bool
same_texts [] [] = true
same_texts (s ∷ l) (t ∷ m) = str_eq s t && same_texts l m
same_texts _ _ = false

-- `product_packages`, read as data: `none` is a manifest that cannot be read or is malformed.
unfoldable pub generated_packages : List Identity → Option (List String) → Checked (List String)
generated_packages identities product = do
  listed ← as_result package_activation product
  require (same_texts (map (λ (i : Identity). i.name) identities) listed) package_activation
  ok (map (λ (i : Identity). i.name) identities)

-- `{item["name"]: item for item in ACTIVE_PACKAGES}`
pub expected_of : List Identity → Dict Identity → Dict Identity
unfolding insert
expected_of [] d = d
expected_of (i ∷ l) d = expected_of l (insert i.name i d)

abbrev pub text_of : Json → String
text_of (str s) = s
text_of _ = ""

-- The loop of `discover_generated_packages`; a KeyError, which the list of names rules out, stands as
-- `package_activation`.
pub check_identities : Dict Identity → List ActivatedPackage → Checked (Unit {0})
unfolding lookup
check_identities expected [] = ok tt
check_identities expected (p ∷ ps) = do
  i ← as_result package_activation (lookup (text_of p.manifest.name) expected)
  require (is_text p.manifest.version i.version) package_activation
  require (str_eq p.manifest_sha256 i.manifest_sha256) package_activation
  check_identities expected ps

-- `discover_generated_packages`
unfoldable pub discover_generated_packages :
    Core → List EntryPoint → List Identity → Option (List String) → Checked (List ActivatedPackage)
unfolding discover_packages generated_packages expected_of check_identities
discover_generated_packages core entry_points identities product = do
  listed ← generated_packages identities product
  ps ← discover_packages core entry_points listed
  check_identities (expected_of identities []) ps
  ok ps

-- `configure_generated_packages`, with what it raises.
unfoldable pub configure_generated_packages :
    Core
    → List EntryPoint
    → List Identity
    → Option (List String)
    → Mounts
    → Mounts × Option PackageError
unfolding discover_generated_packages
configure_generated_packages core entry_points identities product a =
    mount a (discover_generated_packages core entry_points identities product)
