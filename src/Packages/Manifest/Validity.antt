-- ===== src/Packages/Manifest/Validity.antt =====
-- What an accepted package.yaml is known to be.
use mathlib.Core.Path.{subst}
use codegen_product_kit.Base.{
  ◌≡◌, refl, String, Bool, true, false, ◌&&◌, not, Option, none, some, List, [], ◌∷◌, ◌++◌, arith,
  eq_iff, All, All-append, same_pair,
}
use codegen_product_kit.Base.Sorting.{any, any-append}
use codegen_product_kit.Json.{Json, Fields, str, arr, obj, nil, cons, end, field, get, keys, items}
use codegen_product_kit.Packages.Manifest.{
  ok, bound, require-eq-ok, PackageManifest, Library, is_malformed_prefix, http_prefix,
  deployment_modes, texts, checked_modes, modes_of, binding_of, known, is_given, or_null, seeds_of,
  seeds_with, setting_seeds, bind_seeds, setting_seed_binding, parse_fields, member,
  validate_manifest_fields, database_declaration, valid_database_schema, valid_migration_resource,
}

http_prefix-wellformed :
    (d : Fields) (p : String) → http_prefix d ≡ ok p → is_malformed_prefix p ≡ false
unfolding http_prefix
http_prefix-wellformed d p h = ground arith

checked_modes_lem :
    (o : Option (List String)) (ms : List String) → checked_modes o ≡ ok ms → ms ≡ "in_process" ∷ []
checked_modes_lem none ms h = cc
checked_modes_lem (some []) ms h = cc
checked_modes_lem (some (m ∷ [])) ms h = ground (arith, eq_iff m "in_process", eq_iff m "container")
checked_modes_lem (some (m ∷ n ∷ l)) ms h = ground (
  arith,
  eq_iff m "in_process",
  eq_iff m "container",
  eq_iff n "in_process",
  eq_iff n "container",
  eq_iff n m,
)

deployment_modes_lem :
    (d : Fields) (ms : List String) → deployment_modes d ≡ ok ms → ms ≡ "in_process" ∷ []
unfolding deployment_modes
deployment_modes_lem d ms h = by_modes (get "deployment" d) h
  where
    by_modes : (o : Option Json) → modes_of o ≡ ok ms → ms ≡ "in_process" ∷ []
    by_modes none k = cc
    by_modes (some (obj (field k (arr l) end))) e =
        ground (arith, checked_modes_lem (texts (items l)) ms)
    by_modes (some j) e = ground arith

abbrev pub HasDatabase : Library → Option (String × String) → Type 0
HasDatabase lib none = Unit
HasDatabase lib (some (s, r)) =
    (valid_database_schema s ≡ true) × (valid_migration_resource lib r ≡ true)

database_declaration_lem :
    (lib : Library) (d : Fields) (o : Option (String × String))
    → database_declaration lib d ≡ ok o
    → HasDatabase lib o
unfolding database_declaration
database_declaration_lem lib d none h = tt
database_declaration_lem lib d (some (s, r)) h = ground arith

-- The keys of `settings_schema.properties`.
abbrev properties_of : Option Json → Option Json
properties_of (some (obj schema)) = get "properties" schema
properties_of _ = none

abbrev keys_of : Option Json → List String
keys_of (some (obj properties)) = keys properties
keys_of _ = []

abbrev pub setting_keys : Fields → List String
setting_keys d = keys_of (properties_of (get "settings_schema" d))

-- The seeds differ pairwise.
abbrev pub distinct : List (String × String) → Bool
distinct [] = true
distinct (s ∷ l) = not (any (λ t. same_pair s.0 s.1 t.0 t.1) l) && distinct l

abbrev pub IsSeed : List String → String × String → Type 0
IsSeed names s = (s.0 ≡ "product") × (member names s.1 ≡ true)

distinct-append :
    (l : List (String × String)) (s : String × String)
    → distinct l ≡ true
    → any (λ t. same_pair t.0 t.1 s.0 s.1) l ≡ false
    → distinct (l ++ s ∷ []) ≡ true
distinct-append [] s h k = refl
distinct-append (t ∷ l) s h k =
    ground (arith, distinct-append l s, any-append (λ u. same_pair t.0 t.1 u.0 u.1) l (s ∷ []))

binding_of-IsSeed :
    (lib : Library) (properties : Fields) (key scope : Option Json) (s : String × String)
    → binding_of lib properties key scope ≡ ok s
    → IsSeed (keys properties) s
binding_of-IsSeed lib properties (some (str key)) (some (str scope)) s h =
    ground (arith, eq_iff scope "product")
binding_of-IsSeed lib properties key scope s h = ground arith

not-eq-true : (t : Bool) → not t ≡ true → t ≡ false
not-eq-true true h = cc
not-eq-true false h = refl

setting_seed_binding-IsSeed :
    (lib : Library) (j : Json) (properties : Fields) (s : String × String)
    → setting_seed_binding lib j properties ≡ ok s
    → IsSeed (keys properties) s
unfolding setting_seed_binding
setting_seed_binding-IsSeed lib (obj d) properties s h =
    ground (arith, binding_of-IsSeed lib properties (get "key" d) (get "scope" d) s)
setting_seed_binding-IsSeed lib j properties s h = ground arith

bind_seeds_lem :
    (lib : Library) (properties : Fields) (l : List Json) (old seeds : List (String × String))
    → bind_seeds lib properties l old ≡ ok seeds
    → distinct old ≡ true
    → All (IsSeed (keys properties)) old
    → (distinct seeds ≡ true) × All (IsSeed (keys properties)) seeds
unfolding bind_seeds
bind_seeds_lem lib properties [] old seeds h k all =
    let e : old ≡ seeds = cc in
    subst (λ l. (distinct l ≡ true) × All (IsSeed (keys properties)) l) e (k, all)
bind_seeds_lem lib properties (j ∷ l) old seeds h k all =
    let (s, hs, h') = bound (setting_seed_binding lib j properties) _ h in
    let (fresh, rest) = require-eq-ok _ _ _ h' in
    bind_seeds_lem lib properties l (old ++ s ∷ []) seeds rest
      (distinct-append old s k (not-eq-true _ fresh))
      (All-append _ old (s ∷ []) all (setting_seed_binding-IsSeed lib j properties s hs, tt))

abbrev AreSeeds : List String → List (String × String) → Type 0
AreSeeds names seeds = (distinct seeds ≡ true) × All (IsSeed names) seeds

no_seeds-AreSeeds :
    (names : List String) (seeds : List (String × String)) → [] ≡ seeds → AreSeeds names seeds
no_seeds-AreSeeds names seeds e = subst (AreSeeds names) e (refl, tt)

seeds_of_lem :
    (lib : Library) (declared schema : Option Json) (seeds : List (String × String))
    → seeds_of lib declared schema ≡ ok seeds
    → AreSeeds (keys_of (properties_of schema)) seeds
seeds_of_lem lib none schema seeds h = no_seeds-AreSeeds _ seeds cc
seeds_of_lem lib (some (arr nil)) schema seeds h = no_seeds-AreSeeds _ seeds cc
seeds_of_lem lib (some (arr (cons j l))) (some (obj schema)) seeds h =
    under (get "properties" schema) h
  where
    under :
        (o : Option Json) → seeds_with lib (j ∷ items l) o ≡ ok seeds → AreSeeds (keys_of o) seeds
    under (some (obj properties)) k = bind_seeds_lem lib properties (j ∷ items l) [] seeds k refl tt
    under o k = ground arith
seeds_of_lem lib declared schema seeds h = ground arith

setting_seeds_lem :
    (lib : Library) (d : Fields) (seeds : List (String × String))
    → setting_seeds lib d ≡ ok seeds
    → AreSeeds (setting_keys d) seeds
unfolding setting_seeds
setting_seeds_lem lib d seeds h =
    seeds_of_lem lib (get "setting_seeds" d) (get "settings_schema" d) seeds h

validate_manifest_fields_lem :
    (d : Fields) {u : Unit {0}}
    → validate_manifest_fields d ≡ ok u
    → (any (λ k. not (member known k)) (keys d) ≡ false)
      × (is_given (get "name" d) ≡ true)
      × (is_given (get "version" d) ≡ true)
unfolding validate_manifest_fields
validate_manifest_fields_lem d h = ground arith

abbrev pub IsAccepted : Library → Fields → PackageManifest → Type 0
IsAccepted lib d m =
    (any (λ k. not (member known k)) (keys d) ≡ false)
    × (is_given (get "name" d) ≡ true)
    × (is_given (get "version" d) ≡ true)
    × (is_malformed_prefix m.http_prefix ≡ false)
    × (m.deployment_modes ≡ "in_process" ∷ [])
    × HasDatabase lib m.database
    × (distinct m.setting_seeds ≡ true)
    × All (IsSeed (setting_keys d)) m.setting_seeds

-- An accepted package.yaml has only known keys and gives a name and a version. Its HTTP prefix is well
-- formed; its only deployment mode is `in_process`; a database has a valid schema name and a migration
-- resource of the form package:path that does not leave the package; and its setting seeds differ
-- pairwise, are of the product's scope, and name properties of the settings schema.
pub parse_fields_lem :
    (lib : Library) (d : Fields) (m : PackageManifest)
    → parse_fields lib d ≡ ok m
    → IsAccepted lib d m
unfolding parse_fields
parse_fields_lem lib d m h =
    let (_, hv, h1) = bound (validate_manifest_fields d) _ h in
    let (db, hd, h2) = bound (database_declaration lib d) _ h1 in
    let (p, hp, h3) = bound (http_prefix d) _ h2 in
    let (ms, hm, h4) = bound (deployment_modes d) _ h3 in
    let (ss, hs, h5) = bound (setting_seeds lib d) _ h4 in
    let (ek, en, ev) = validate_manifest_fields_lem d hv in
    let (es, all) = setting_seeds_lem lib d ss hs in
    let built : PackageManifest = record {
      protocol_version = or_null (get "protocol_version" d);
      name = or_null (get "name" d);
      version = or_null (get "version" d);
      requires_core = or_null (get "requires_core" d);
      http_prefix = p;
      deployment_modes = ms;
      database = db;
      setting_seeds = ss;
    } in
    let e : built ≡ m = cc in
    subst (IsAccepted lib d) e (
      ek,
      en,
      ev,
      http_prefix-wellformed d p hp,
      deployment_modes_lem d ms hm,
      database_declaration_lem lib d db hd,
      es,
      all,
    )
