-- ===== src/Environment.antt =====
-- Fragments of an environment contract and their merge, framework/contracts/env_contract.py. The URL of
-- a platform is checked by pydantic, a parameter.
mod Declared
mod Loop
mod Merge
mod Tests
use codegen_product_kit.Base.{
  ℕ, ◌≡◌, String, Bool, true, false, ◌&&◌, ◌||◌, not, Option, none, some, List, [], ◌∷◌,
  if◌then◌else◌, ltb, leb, str_eq, is_some, ◌==◌,
}
use codegen_product_kit.Base.Dict.{Dict, lookup, insert}
use codegen_product_kit.Base.Sorting.{any, sort_by}
use codegen_product_kit.Base.Texts.{codes}

-- `EnvLiteralValue`; a number is its text.
pub data LiteralValue : Type 0 where
  text : String → LiteralValue
  number : String → LiteralValue
  flag : Bool → LiteralValue

pub record PlatformKeyFields : Type 0 where
  pub service : String
  pub scopes : List String
  pub quota : Dict ℕ

pub record PlatformBaseUrlFields : Type 0 where
  pub service : String
  pub url : String

-- The seven sources, with the fields that each adds. `sensitive` is fixed by the source.
pub data EnvSource : Type 0 where
  user_secret generated_secret derived : EnvSource
  allocation : Option String → Option String → EnvSource
  literal : LiteralValue → EnvSource
  platform_key : PlatformKeyFields → EnvSource
  platform_base_url : PlatformBaseUrlFields → EnvSource

pub record EnvContractEntry : Type 0 where
  pub source : EnvSource
  pub environments : List String
  pub consumers : List String
  pub required : Bool
  pub description : Option String
  pub sensitive : Bool

pub record EnvContractFragment : Type 0 where
  pub owner : String
  pub entries : Dict EnvContractEntry

abbrev is_lower_or_digit : ℕ → Bool
is_lower_or_digit c = (leb b'a' c && leb c b'z') || (leb b'0' c && leb c b'9')

-- The rest of a service's name: after a dash there stands a letter or a digit.
abbrev is_service_tail : List ℕ → Bool
is_service_tail [] = true
is_service_tail (c ∷ []) = is_lower_or_digit c
is_service_tail (c ∷ d ∷ l) =
    (is_lower_or_digit c || (c == b'-' && is_lower_or_digit d)) && is_service_tail (d ∷ l)

abbrev is_service : List ℕ → Bool
is_service [] = false
is_service (c ∷ l) = leb b'a' c && leb c b'z' && is_service_tail l

abbrev is_empty {ℓ} : {A : Type ℓ} → List A → Bool
is_empty [] = true
is_empty (x ∷ l) = false

abbrev is_filled : Option String → Bool
is_filled none = false
is_filled (some s) = not (str_eq s "")

abbrev quota_named : Dict ℕ → Bool
quota_named [] = true
quota_named ((k, n) ∷ d) = not (str_eq k "") && quota_named d

-- An optional text that is given is not empty.
abbrev not_blank : Option String → Bool
not_blank none = true
not_blank (some s) = not (str_eq s "")

-- The validators of an entry's class.
pub valid_entry : (String → Bool) → EnvContractEntry → Bool
valid_entry is_platform_url e = not (is_empty e.environments) && elim e.source [
  | user_secret ↦ not (is_empty e.consumers) && is_filled e.description && e.sensitive
  | generated_secret ↦ e.sensitive
  | derived ↦ not e.sensitive
  | allocation service resource ↦
      not_blank service && not_blank resource && (is_filled service || is_filled resource)
  | literal v ↦ not e.sensitive
  | platform_key f ↦
      is_service (codes f.service)
      && not (any (λ s. str_eq s "") f.scopes)
      && quota_named f.quota
      && e.sensitive
  | platform_base_url f ↦ is_service (codes f.service) && is_platform_url f.url && not e.sensitive
]

abbrev all_valid : (EnvContractEntry → Bool) → Dict EnvContractEntry → Bool
all_valid valid [] = true
all_valid valid ((k, e) ∷ d) = valid e && all_valid valid d

-- `validate_env_contract_fragment`
pub valid_fragment : (String → Bool) → EnvContractFragment → Bool
unfolding valid_entry
valid_fragment is_platform_url f =
    not (str_eq f.owner "") && all_valid (valid_entry is_platform_url) f.entries

-- What the merge raises.
pub data MergeError : Type 0 where
  invalid_fragment : MergeError
  incompatible : String → MergeError

pub data Merged : Type 0 where
  contract : Dict EnvContractEntry → Merged
  refused : MergeError → Merged

module _ (same : EnvContractEntry → EnvContractEntry → Bool) where
  abbrev pub conflicts : Option EnvContractEntry → EnvContractEntry → Bool
  conflicts none e = false
  conflicts (some current) e = not (same current e)

  -- The inner loop, over one fragment's entries.
  pub merge_entries : Dict EnvContractEntry → Dict EnvContractEntry → Merged
  unfolding lookup insert
  merge_entries [] merged = contract merged
  merge_entries ((key, entry) ∷ d) merged =
      let rest = merge_entries d (insert key entry merged) in
      if conflicts (lookup key merged) entry then refused (incompatible key) else rest

  -- The outer loop, over the fragments in the order of their owners.
  pub merge_fragments : List EnvContractFragment → Dict EnvContractEntry → Merged
  unfolding merge_entries
  merge_fragments [] merged = contract merged
  merge_fragments (f ∷ fs) merged = elim (merge_entries f.entries merged) [
    | refused e ↦ refused e
    | contract m ↦ merge_fragments fs m
  ]

-- `merge_env_contract_fragments`; `same` is the equality of entries and `before` the order of texts.
pub merge_env_contract_fragments :
    (String → Bool)
    → (EnvContractEntry → EnvContractEntry → Bool)
    → (String → String → Bool)
    → List EnvContractFragment
    → Merged
unfolding valid_fragment merge_fragments sort_by
merge_env_contract_fragments is_platform_url same before fragments =
    if any (λ f. not (valid_fragment is_platform_url f)) fragments
    then refused invalid_fragment
    else merge_fragments same (sort_by (λ f g. before f.owner g.owner) fragments) []
