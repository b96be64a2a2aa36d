-- ===== src/Host/Settings.antt =====
-- The settings that bindings read, framework/host_contract.py: the core's language, and one time zone of
-- the product. The lines of a file's sections are data.
pub mod OneZone
use Prim.Native.String.{◌++◌ as str_append}
use mathlib.Core.Path.{subst}
use codegen_product_kit.Base.{
  ℕ, ◌≡◌, ◌≢◌, refl, sym, ap, ◌∙◌, String, Bool, true, false, ◌&&◌, ◌||◌, not, Option, none, some,
  List, [], ◌∷◌, ◌++◌, if◌then◌else◌, str_eq, is_some, arith, eq_iff, All, Bool-cases, inl, inr,
}
use codegen_product_kit.Base.Sorting.{any}
use codegen_product_kit.Host.{
  Location, Violation, binding_language_owner, binding_setting_conflict, product_owner,
}

-- A binding; `language` is the key that one of version 2 reads.
pub record Binding : Type 0 where
  pub file : String
  pub package_name : String
  pub timezone : Option String
  pub language : Option String
  -- The binding is the product's own file.
  pub is_retained : Bool

-- `LANGUAGE_KEY`, the one setting of the core.
abbrev pub language_key : String
language_key = "language"

abbrev owner_of : Binding → String
owner_of b = if b.is_retained then product_owner else str_append "package:" b.package_name

abbrev setting_violation : (String → String → Option ℕ) → Binding → String → Violation
setting_violation line b key = record {
  code = binding_language_owner;
  owner = owner_of b;
  command = none;
  key = some key;
  symbol = b.package_name;
  location = record {
    path = str_append "services/tg_bot/bindings/" b.file;
    line = line b.file "language";
  };
  other = none;
}

abbrev pub timezone_violation : (String → String → Option ℕ) → Binding → String → Violation
timezone_violation line b key = record {
  code = binding_setting_conflict;
  owner = owner_of b;
  command = none;
  key = some key;
  symbol = b.package_name;
  location = record {
    path = str_append "services/tg_bot/bindings/" b.file;
    line = line b.file "timezone";
  };
  other = none;
}

abbrev pub language_violations :
    (String → String → Option ℕ) → Binding → Option String → List Violation
language_violations line b none = []
language_violations line b (some key) =
    if str_eq key language_key then [] else setting_violation line b key ∷ []

-- `binding_settings` raises: language and time zone need distinct keys.
abbrev pub shares_key : Option String → String → Bool
shares_key none key = false
shares_key (some language) key = str_eq language key

-- The key differs from those that were read before.
abbrev pub differs : List String → String → Bool
differs [] key = false
differs (k ∷ l) key = not (any (λ t. str_eq t key) (k ∷ l))

-- `_timezone_conflict`, of a binding that reads the key.
unfoldable pub timezone_conflict : Option String → String → List String → Bool
timezone_conflict language key timezones =
    shares_key language key || str_eq key language_key || differs timezones key

abbrev pub set_default : String → List String → List String
set_default key l = if any (λ t. str_eq t key) l then l else l ++ key ∷ []

-- The loop of `binding_setting_violations`, over the bindings in the order of their files.
unfoldable pub binding_setting_violations :
    (String → String → Option ℕ) → List String → List Binding → List Violation
binding_setting_violations line timezones [] = []
binding_setting_violations line timezones (b ∷ bs) =
    language_violations line b b.language ++ elim b.timezone [
      | none ↦ binding_setting_violations line timezones bs
      | some key ↦ elim (timezone_conflict b.language key timezones) [
        | true ↦ timezone_violation line b key ∷ binding_setting_violations line timezones bs
        | false ↦ binding_setting_violations line (set_default key timezones) bs
      ]
    ]
