-- ===== src/Packages/Activation/Discovery.antt =====
-- What a successful discovery establishes of the activated packages.
use mathlib.Core.Path.{subst}
use codegen_product_kit.Base.{
  ◌≡◌, refl, sym, ap, String, Bool, true, false, ◌&&◌, not, Option, none, some, List, [], ◌∷◌, map,
  str_eq, arith, eq_iff, Bool-cases, inl, inr,
}
use codegen_product_kit.Base.Dict.{Dict, lookup}
use codegen_product_kit.Base.Sorting.{any}
use codegen_product_kit.Json.{str}
use codegen_product_kit.Packages.Manifest.{
  PackageError, package_activation, ok, bound, require-eq-ok, parse_manifest, member, no_repeats,
}
use codegen_product_kit.Packages.Activation.{
  Core, Distribution, EntryPoint, ActivatedPackage, package_root_of, manifest_path_of,
  validate_compatibility, validate_setting_seed_callback, activate_entry_point, by_name,
  validate_allowlist, activate_all, validate_http_prefixes, discover_packages, is_text, as_result,
}
use codegen_product_kit.Packages.Activation.Compatible.{
  IsCompatible, validate_compatibility_lem, is_text_lem,
}

-- The package `p` is what the entry point `e` installs under `name`: its manifest is the accepted one of
-- the distribution, with this name, the distribution's version and a core that suits it.
abbrev pub IsActivation : Core → String → EntryPoint → ActivatedPackage → Type 0
IsActivation core name e p =
    (d : Distribution) × (root path : String) × (package_root_of e ≡ ok (d, root))
    × (manifest_path_of d root ≡ ok path)
    × (parse_manifest core.library (d.load_yaml path) ≡ ok p.manifest)
    × (p.manifest.name ≡ str name)
    × (p.manifest.version ≡ str d.version)
    × IsCompatible core p.manifest
    × (e.runtime.is_package ≡ true)
    × (validate_setting_seed_callback p.manifest e.runtime ≡ ok tt)
    × (p.runtime ≡ e.runtime)
    × (p.package_root ≡ root)
    × (p.manifest_sha256 ≡ d.sha256 path)

pub activate_entry_point-IsActivation :
    (core : Core) (name : String) (e : EntryPoint) (p : ActivatedPackage)
    → activate_entry_point core name e ≡ ok p
    → IsActivation core name e p
unfolding activate_entry_point
activate_entry_point-IsActivation core name e p h =
    let ((d, root), hr, h1) = bound (package_root_of e) _ h in
    let (path, hp, h2) = bound (manifest_path_of d root) _ h1 in
    let (m, hf, h3) = bound (parse_manifest core.library (d.load_yaml path)) _ h2 in
    let (en, h4) = require-eq-ok (is_text m.name name) _ _ h3 in
    let (_, hc, h5) = bound (validate_compatibility core m) _ h4 in
    let (ev, h6) = require-eq-ok (is_text m.version d.version) _ _ h5 in
    let (ep, h7) = require-eq-ok e.runtime.is_package _ _ h6 in
    let (_, hs, h8) = bound (validate_setting_seed_callback m e.runtime) _ h7 in
    let built : ActivatedPackage = record {
      manifest = m;
      runtime = e.runtime;
      package_root = root;
      manifest_sha256 = d.sha256 path;
    } in
    let eq : built ≡ p = cc in
    subst (IsActivation core name e) eq (
      d,
      root,
      path,
      hr,
      hp,
      hf,
      is_text_lem m.name name en,
      is_text_lem m.version d.version ev,
      validate_compatibility_lem core m hc,
      ep,
      hs,
      refl,
      refl,
      refl,
    )

-- The packages are the activations of the names' entry points, in the order of the names.
abbrev pub AreActivations : Core → Dict EntryPoint → List String → List ActivatedPackage → Type 0
AreActivations core d [] [] = Unit
AreActivations core d (name ∷ names) (p ∷ ps) =
    ((e : EntryPoint) × (lookup name d ≡ some e)
      × (activate_entry_point core name e ≡ ok p)
      × IsActivation core name e p)
    × AreActivations core d names ps
AreActivations core d _ _ = ⊥

pub as_result_lem {ℓ} :
    {A : Type ℓ} (x : PackageError) (o : Option A) (a : A) → as_result x o ≡ ok a → o ≡ some a
as_result_lem x none a h = cc
as_result_lem x (some b) a h = cc

activate_all-AreActivations :
    (core : Core) (d : Dict EntryPoint) (names : List String) (ps : List ActivatedPackage)
    → activate_all core d names ≡ ok ps
    → AreActivations core d names ps
unfolding activate_all
activate_all-AreActivations core d [] ps h =
    let e : [] ≡ ps = cc in subst (AreActivations core d []) e tt
activate_all-AreActivations core d (name ∷ names) ps h =
    let (e, he, h1) = bound (as_result package_activation (lookup name d)) _ h in
    let (p, hp, h2) = bound (activate_entry_point core name e) _ h1 in
    let (qs, hq, h3) = bound (activate_all core d names) _ h2 in
    let eq : (p ∷ qs) ≡ ps = cc in
    subst (AreActivations core d (name ∷ names)) eq (
      (e, as_result_lem _ _ e he, hp, activate_entry_point-IsActivation core name e p hp),
      activate_all-AreActivations core d names qs hq,
    )

abbrev pub prefixes : List ActivatedPackage → List String
prefixes ps = map (λ (p : ActivatedPackage). p.manifest.http_prefix) ps

abbrev none_of : List String → List String → Bool
none_of owners [] = true
none_of owners (s ∷ l) = not (member owners s) && none_of owners l

none_of-cons :
    (s : String) (owners l : List String)
    → none_of (s ∷ owners) l ≡ true
    → (member l s ≡ false) × (none_of owners l ≡ true)
none_of-cons s owners [] h = (refl, refl)
none_of-cons s owners (t ∷ l) h = ground (arith, eq_iff s t, eq_iff t s, none_of-cons s owners l)

validate_http_prefixes_lem :
    (owners : List String) (ps : List ActivatedPackage) {u : Unit {0}}
    → validate_http_prefixes owners ps ≡ ok u
    → (none_of owners (prefixes ps) ≡ true) × (no_repeats (prefixes ps) ≡ true)
unfolding validate_http_prefixes
validate_http_prefixes_lem owners [] h = (refl, refl)
validate_http_prefixes_lem owners (p ∷ ps) h =
    let (free, rest) = require-eq-ok (not (member owners p.manifest.http_prefix)) _ _ h in
    let (others, distinct) = validate_http_prefixes_lem (p.manifest.http_prefix ∷ owners) ps rest in
    ground (arith, none_of-cons p.manifest.http_prefix owners (prefixes ps))

same_activation :
    (core : Core) (name : String) (d : Dict EntryPoint) (e f : EntryPoint) (p q : ActivatedPackage)
    → lookup name d ≡ some e
    → lookup name d ≡ some f
    → activate_entry_point core name e ≡ ok p
    → activate_entry_point core name f ≡ ok q
    → p ≡ q
same_activation core name d e f p q he hf hp hq =
    let eq : e ≡ f = cc in
    let found = subst (λ g. activate_entry_point core name g ≡ ok p) eq hp in cc

-- A name that is activated twice brings its prefix twice.
member-prefixes :
    (core : Core) (d : Dict EntryPoint) (names : List String) (ps : List ActivatedPackage)
    (name : String) (e : EntryPoint) (p : ActivatedPackage)
    → AreActivations core d names ps
    → lookup name d ≡ some e
    → activate_entry_point core name e ≡ ok p
    → member names name ≡ true
    → member (prefixes ps) p.manifest.http_prefix ≡ true
member-prefixes core d [] [] name e p h he hp hm = hm
member-prefixes core d [] (q ∷ qs) name e p h he hp hm = absurd h
member-prefixes core d (n ∷ names) [] name e p h he hp hm = absurd h
member-prefixes core d (n ∷ names) (q ∷ qs) name e p ((f, hf, hq, _), rest) he hp hm =
    elim (Bool-cases (str_eq n name)) [
      | inl y ↦
          let eq : n ≡ name = (eq_iff n name).0 y in
          let hf' = subst (λ m. lookup m d ≡ some f) eq hf in
          let hq' = subst (λ m. activate_entry_point core m f ≡ ok q) eq hq in
          let same = same_activation core name d e f p q he hf' hp hq' in
          let equal =
            (eq_iff q.manifest.http_prefix p.manifest.http_prefix).1
              (ap (λ (r : ActivatedPackage). r.manifest.http_prefix) (sym same)) in
          ground arith
      | inr n' ↦ ground (arith, member-prefixes core d names qs name e p rest he hp)
    ]

AreActivations-no_repeats :
    (core : Core) (d : Dict EntryPoint) (names : List String) (ps : List ActivatedPackage)
    → AreActivations core d names ps
    → no_repeats (prefixes ps) ≡ true
    → no_repeats names ≡ true
AreActivations-no_repeats core d [] ps h k = refl
AreActivations-no_repeats core d (n ∷ names) [] h k = absurd h
AreActivations-no_repeats core d (n ∷ names) (p ∷ ps) ((e, he, hp, _), rest) k = ground (
  arith,
  member-prefixes core d names ps n e p rest he hp,
  AreActivations-no_repeats core d names ps rest,
)

abbrev pub AreDiscovered : Core → List EntryPoint → List String → List ActivatedPackage → Type 0
AreDiscovered core l listed ps =
    AreActivations core (by_name l []) listed ps
    × (any (λ e. not (member listed e.0)) (by_name l []) ≡ false)
    × (no_repeats (prefixes ps) ≡ true)
    × (no_repeats listed ≡ true)

-- A discovery that succeeds gives the activations of the listed names in their order; every discovered
-- entry point is listed; no HTTP prefix occurs twice among the packages, and no name twice in the list.
pub discover_packages_lem :
    (core : Core) (l : List EntryPoint) (listed : List String) (ps : List ActivatedPackage)
    → discover_packages core l listed ≡ ok ps
    → AreDiscovered core l listed ps
unfolding discover_packages validate_allowlist
discover_packages_lem core l listed ps h =
    let d = by_name l [] in
    let (_, ha, h1) = bound (validate_allowlist listed d) _ h in
    let (qs, hq, h2) = bound (activate_all core d listed) _ h1 in
    let (_, hp, h3) = bound (validate_http_prefixes [] qs) _ h2 in
    let eq : qs ≡ ps = cc in
    let all = activate_all-AreActivations core d listed qs hq in
    let distinct = (validate_http_prefixes_lem [] qs hp).1 in
    subst
      (λ rs.
        AreActivations core d listed rs
        × (any (λ e. not (member listed e.0)) d ≡ false)
        × (no_repeats (prefixes rs) ≡ true)
        × (no_repeats listed ≡ true))
      eq (all, ground arith, distinct, AreActivations-no_repeats core d listed qs all distinct)
