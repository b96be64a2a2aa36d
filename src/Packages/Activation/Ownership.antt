-- ===== src/Packages/Activation/Ownership.antt =====
-- Which installed package owns the database of a caller, template/codegen_kit/packages.py.
use codegen_product_kit.Base.{
  ℕ, ◌≡◌, refl, ap, String, Bool, false, Option, none, some, List, [], ◌∷◌, ◌++◌, if◌then◌else◌,
  arith, length, ◌+◌, ◌∙◌, sym,
}
use codegen_product_kit.Base.Sorting.{count_if}
use codegen_product_kit.Json.{str}
use codegen_product_kit.Packages.Manifest.{
  package_database_ownership, Checked, ok, raised, ◌>>=◌, ◌>>◌, require, bound, require-eq-ok,
  PackageManifest, parse_manifest,
}
use codegen_product_kit.Packages.Activation.Compatible.{
  IsCompatible, validate_compatibility_lem, is_text_lem,
}
use codegen_product_kit.Packages.Activation.{
  Core, Distribution, EntryPoint, package_root_of, manifest_path_of, validate_compatibility,
  is_text,
}

-- `caller_path.is_relative_to(package_root.resolve())`, of the standard library.
abbrev pub IsUnder : Type 0
IsUnder = String → String → Bool

abbrev matched :
    IsUnder
    → String
    → EntryPoint
    → Checked (Distribution × String)
    → List (EntryPoint × Distribution × String)
matched is_under caller e (raised x) = []
matched is_under caller e (ok (d, root)) = if is_under caller root then (e, d, root) ∷ [] else []

-- The loop of `owned_database_schema`.
pub matches : IsUnder → String → List EntryPoint → List (EntryPoint × Distribution × String)
unfolding package_root_of
matches is_under caller [] = []
matches is_under caller (e ∷ l) =
    matched is_under caller e (package_root_of e) ++ matches is_under caller l

abbrev the_match :
    List (EntryPoint × Distribution × String) → Checked (EntryPoint × Distribution × String)
the_match (m ∷ []) = ok m
the_match _ = raised package_database_ownership

abbrev schema_of : Option (String × String) → Checked String
schema_of none = raised package_database_ownership
schema_of (some (schema, migrations)) = ok schema

abbrev owned_by : Core → EntryPoint × Distribution × String → Checked String
owned_by core (e, d, root) = do
  path ← manifest_path_of d root
  m ← parse_manifest core.library (d.load_yaml path)
  require (is_text m.name e.name) package_database_ownership
  validate_compatibility core m
  require (is_text m.version d.version) package_database_ownership
  schema_of m.database

-- `owned_database_schema`, for a resolved path.
unfoldable pub owned_database_schema : Core → IsUnder → List EntryPoint → String → Checked String
unfolding matches manifest_path_of parse_manifest validate_compatibility
owned_database_schema core is_under entry_points caller =
    the_match (matches is_under caller entry_points) >>= owned_by core

-- Whether the directory of an entry point's package, if it can be resolved, contains the caller.
abbrev pub contains : IsUnder → String → EntryPoint → Bool
contains is_under caller e = elim (package_root_of e) [
  | raised x ↦ false
  | ok (d, root) ↦ is_under caller root
]

abbrev one_if : Bool → ℕ
one_if b = if b then 1 else 0

length-matched :
    (is_under : IsUnder) (caller : String) (e : EntryPoint) (r : Checked (Distribution × String))
    (l : List (EntryPoint × Distribution × String))
    → length (matched is_under caller e r ++ l)
      ≡ one_if (elim r [ raised x ↦ false | ok (d, root) ↦ is_under caller root ]) + length l
length-matched is_under caller e (raised x) l = omega arith
length-matched is_under caller e (ok (d, root)) l = ground arith

length-matches :
    (is_under : IsUnder) (caller : String) (l : List EntryPoint)
    → length (matches is_under caller l) ≡ count_if (contains is_under caller) l
unfolding matches
length-matches is_under caller [] = refl
length-matches is_under caller (e ∷ l) = ground (
  arith,
  length-matched is_under caller e (package_root_of e) (matches is_under caller l),
  length-matches is_under caller l,
)

the_match_lem :
    (l : List (EntryPoint × Distribution × String)) (t : EntryPoint × Distribution × String)
    → the_match l ≡ ok t
    → l ≡ t ∷ []
the_match_lem [] t h = cc
the_match_lem (u ∷ []) t h = cc
the_match_lem (u ∷ v ∷ l) t h = cc

schema_of_lem :
    (o : Option (String × String)) (schema : String)
    → schema_of o ≡ ok schema
    → (migrations : String) × (o ≡ some (schema, migrations))
schema_of_lem none schema h = ground arith
schema_of_lem (some (t, migrations)) schema h = (migrations, ground arith)

-- The schema that an installed package owns, seen from a caller's path.
abbrev pub IsOwned : Core → IsUnder → List EntryPoint → String → String → Type 0
IsOwned core is_under l caller schema =
    (count_if (contains is_under caller) l ≡ 1)
    × ((e : EntryPoint) × (d : Distribution) × (root path migrations : String)
        × (m : PackageManifest) × (matches is_under caller l ≡ (e, d, root) ∷ [])
        × (manifest_path_of d root ≡ ok path)
        × (parse_manifest core.library (d.load_yaml path) ≡ ok m)
        × (m.name ≡ str e.name)
        × (m.version ≡ str d.version)
        × IsCompatible core m
        × (m.database ≡ some (schema, migrations)))

-- A caller's schema is found only if the directory of exactly one installed package contains the caller,
-- and that package's manifest is accepted, names its entry point and the version of its distribution,
-- is compatible with the core and declares that schema.
pub owned_database_schema_lem :
    (core : Core) (is_under : IsUnder) (l : List EntryPoint) (caller schema : String)
    → owned_database_schema core is_under l caller ≡ ok schema
    → IsOwned core is_under l caller schema
unfolding owned_database_schema
owned_database_schema_lem core is_under l caller schema h =
    let ((e, d, root), hm, h1) = bound (the_match (matches is_under caller l)) (owned_by core) h in
    let one = the_match_lem (matches is_under caller l) (e, d, root) hm in
    let (path, hp, h2) = bound (manifest_path_of d root) _ h1 in
    let (m, hf, h3) = bound (parse_manifest core.library (d.load_yaml path)) _ h2 in
    let (en, h4) = require-eq-ok (is_text m.name e.name) _ _ h3 in
    let (_, hc, h5) = bound (validate_compatibility core m) _ h4 in
    let (ev, h6) = require-eq-ok (is_text m.version d.version) _ _ h5 in
    let (migrations, hs) = schema_of_lem m.database schema h6 in
    (
      sym (length-matches is_under caller l) ∙ ap length one,
      (
        e,
        d,
        root,
        path,
        migrations,
        m,
        one,
        hp,
        hf,
        is_text_lem m.name e.name en,
        is_text_lem m.version d.version ev,
        validate_compatibility_lem core m hc,
        hs,
      ),
    )
