-- ===== src/Packages/Activation/Compatible.antt =====
-- The compatibility of a package with the core, and texts in a manifest.
use codegen_product_kit.Base.{◌≡◌, String, true, some, arith, eq_iff}
use codegen_product_kit.Json.{Json, null, bool, num, other_number, str, arr, obj}
use codegen_product_kit.Packages.Manifest.{ok, PackageManifest}
use codegen_product_kit.Packages.Activation.{Core, validate_compatibility, is_text, is_one}

pub is_text_lem : (j : Json) (s : String) → is_text j s ≡ true → j ≡ str s
is_text_lem (str t) s h = ground (arith, eq_iff t s)
is_text_lem null s h = cc
is_text_lem (bool b) s h = cc
is_text_lem (num n) s h = cc
is_text_lem (other_number t) s h = cc
is_text_lem (arr l) s h = cc
is_text_lem (obj d) s h = cc

-- The package `m` is compatible with the core.
abbrev pub IsCompatible : Core → PackageManifest → Type 0
IsCompatible core m = (is_one m.protocol_version ≡ true) × (core.admits m.requires_core ≡ some true)

pub validate_compatibility_lem :
    (core : Core) (m : PackageManifest) {u : Unit {0}}
    → validate_compatibility core m ≡ ok u
    → IsCompatible core m
unfolding validate_compatibility
validate_compatibility_lem core m h = ground arith
