-- ===== src/Packages/Activation/Mounting.antt =====
-- What the application mounts, and the packages that were generated into the product.
use mathlib.Core.Path.{subst}
use codegen_product_kit.Base.{
  ◌≡◌, ◌⊎◌, inl, inr, refl, sym, ap, String, true, false, Option, none, some, List, [], ◌∷◌, ◌++◌,
  map, str_eq, arith, eq_iff, All,
}
use codegen_product_kit.Base.Dict.{Dict, lookup}
use codegen_product_kit.Json.{Json, str, obj}
use codegen_product_kit.Packages.Manifest.{
  PackageError, package_activation, Checked, ok, raised, bound, require-eq-ok, PackageManifest,
  Library, parse_manifest, is_malformed_prefix, no_repeats,
}
use codegen_product_kit.Packages.Manifest.Validity.{parse_fields_lem}
use codegen_product_kit.Packages.Activation.{
  Core, EntryPoint, ActivatedPackage, Mounts, mount, routes, configure_packages, Identity,
  generated_packages, expected_of, check_identities, discover_packages, discover_generated_packages,
  as_result, is_text, text_of, same_texts,
}
use codegen_product_kit.Packages.Activation.Compatible.{is_text_lem}
use codegen_product_kit.Packages.Activation.Discovery.{
  AreActivations, prefixes, discover_packages_lem, as_result_lem,
}

parse_manifest-wellformed :
    (lib : Library) (file : Option Json) (m : PackageManifest)
    → parse_manifest lib file ≡ ok m
    → is_malformed_prefix m.http_prefix ≡ false
unfolding parse_manifest
parse_manifest-wellformed lib (some (obj d)) m h = (parse_fields_lem lib d m h).3
parse_manifest-wellformed lib file m h = cc

abbrev pub IsMountable : ActivatedPackage → Type 0
IsMountable p = is_malformed_prefix p.manifest.http_prefix ≡ false

AreActivations-IsMountable :
    (core : Core) (d : Dict EntryPoint) (names : List String) (ps : List ActivatedPackage)
    → AreActivations core d names ps
    → All IsMountable ps
AreActivations-IsMountable core d [] [] h = tt
AreActivations-IsMountable core d [] (p ∷ ps) h = absurd h
AreActivations-IsMountable core d (n ∷ names) [] h = absurd h
AreActivations-IsMountable core d (n ∷ names) (p ∷ ps) ((e, _, _, a), rest) =
    let dist = a.0 in
    let path = a.2 in
    let hf = a.5 in
    (
      parse_manifest-wellformed core.library (dist.load_yaml path) p.manifest hf,
      AreActivations-IsMountable core d names ps rest,
    )

-- What a configuration of an application comes to.
abbrev pub IsConfigured :
    Core → List EntryPoint → List String → Mounts → Mounts × Option PackageError → Type 0
IsConfigured core l listed a r =
    ((x : PackageError) × (discover_packages core l listed ≡ raised x) × (r ≡ (a, some x)))
    ⊎ ((ps : List ActivatedPackage) × (discover_packages core l listed ≡ ok ps)
        × (r ≡ (record { codegen_packages = ps; routers = a.routers ++ routes ps }, none))
        × (no_repeats (prefixes ps) ≡ true)
        × All IsMountable ps)

-- Configuring an application either raises the discovery's error and changes nothing, or records the
-- discovered packages and mounts each one's router, in order, after the routers that were there, under
-- prefixes that are well formed and differ pairwise.
pub configure_packages_lem :
    (core : Core) (l : List EntryPoint) (listed : List String) (a : Mounts)
    → IsConfigured core l listed a (configure_packages core l listed a)
unfolding configure_packages
configure_packages_lem core l listed a = by_result (discover_packages core l listed) refl
  where
    by_result :
        (r : Checked (List ActivatedPackage))
        → discover_packages core l listed ≡ r
        → IsConfigured core l listed a (configure_packages core l listed a)
    by_result (raised x) h = inl (x, h, ap (mount a) h)
    by_result (ok ps) h =
        let (all, _, distinct, _) = discover_packages_lem core l listed ps h in
        inr (ps, h, ap (mount a) h, distinct, AreActivations-IsMountable core _ listed ps all)

-- The installed package is the one whose identity was generated.
abbrev pub IsGenerated : Dict Identity → ActivatedPackage → Type 0
IsGenerated expected p =
    (name : String) × (i : Identity) × (p.manifest.name ≡ str name)
    × (lookup name expected ≡ some i)
    × (p.manifest.version ≡ str i.version)
    × (p.manifest_sha256 ≡ i.manifest_sha256)

check_identities_lem :
    (core : Core) (d : Dict EntryPoint) (names : List String) (expected : Dict Identity)
    (ps : List ActivatedPackage) {u : Unit {0}}
    → AreActivations core d names ps
    → check_identities expected ps ≡ ok u
    → All (IsGenerated expected) ps
unfolding check_identities
check_identities_lem core d [] expected [] a h = tt
check_identities_lem core d [] expected (p ∷ ps) a h = absurd a
check_identities_lem core d (n ∷ names) expected [] a h = absurd a
check_identities_lem core d (n ∷ names) expected (p ∷ ps) ((e, _, _, is), rest) h =
    let named = is.6 in
    let (i, hi, h1) =
      bound (as_result package_activation (lookup (text_of p.manifest.name) expected)) _ h in
    let (hv, h2) = require-eq-ok (is_text p.manifest.version i.version) _ _ h1 in
    let (hs, h3) = require-eq-ok (str_eq p.manifest_sha256 i.manifest_sha256) _ _ h2 in
    let found = as_result_lem _ _ i hi in
    (
      (
        n,
        i,
        named,
        subst (λ j. lookup (text_of j) expected ≡ some i) named found,
        is_text_lem p.manifest.version i.version hv,
        (eq_iff p.manifest_sha256 i.manifest_sha256).0 hs,
      ),
      check_identities_lem core d names expected ps rest h3,
    )

same_texts_lem : (l m : List String) → same_texts l m ≡ true → l ≡ m
same_texts_lem [] [] h = refl
same_texts_lem [] (t ∷ m) h = cc
same_texts_lem (s ∷ l) [] h = cc
same_texts_lem (s ∷ l) (t ∷ m) h = ground (arith, eq_iff s t, same_texts_lem l m)

abbrev pub names_of : List Identity → List String
names_of identities = map (λ (i : Identity). i.name) identities

abbrev pub AreGenerated :
    Core → List EntryPoint → List Identity → Option (List String) → List ActivatedPackage → Type 0
AreGenerated core l identities product ps =
    (product ≡ some (names_of identities))
    × (discover_packages core l (names_of identities) ≡ ok ps)
    × All (IsGenerated (expected_of identities [])) ps

-- The generated packages are discovered only if the product's list is the generated one, and each
-- installed package then has the version and the manifest digest that were generated for its name.
pub discover_generated_packages_lem :
    (core : Core) (l : List EntryPoint) (identities : List Identity)
    (product : Option (List String)) (ps : List ActivatedPackage)
    → discover_generated_packages core l identities product ≡ ok ps
    → AreGenerated core l identities product ps
unfolding discover_generated_packages generated_packages
discover_generated_packages_lem core l identities product ps h =
    let (listed, hg, h1) = bound (generated_packages identities product) _ h in
    let (qs, hd, h2) = bound (discover_packages core l listed) _ h1 in
    let (_, hc, h3) = bound (check_identities (expected_of identities []) qs) _ h2 in
    let (read, hr, g1) = bound (as_result package_activation product) _ hg in
    let (hs, g2) = require-eq-ok (same_texts (names_of identities) read) _ _ g1 in
    let product_is = as_result_lem _ product read hr in
    let listed_is : names_of identities ≡ listed = cc in
    let read_is = same_texts_lem (names_of identities) read hs in
    let eq : qs ≡ ps = cc in
    let all = (discover_packages_lem core l listed qs hd).0 in
    let found = subst (λ rs. discover_packages core l listed ≡ ok rs) eq hd in
    (
      ground (arith),
      subst (λ n. discover_packages core l n ≡ ok ps) (sym listed_is) found,
      subst (All (IsGenerated (expected_of identities []))) eq
          (check_identities_lem core _ listed (expected_of identities []) qs all hc),
    )
