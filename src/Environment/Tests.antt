-- ===== src/Environment/Tests.antt =====
-- The merge of the fragments of two owners. Entries are compared by their descriptions.
use codegen_product_kit.Base.{
  ◌≡◌, ◌↔◌, refl, sym, ◌∙◌, ap, String, Bool, true, false, not, Option, none, some, [], ◌∷◌, str_eq,
  eq_iff,
}
use codegen_product_kit.Base.Dict.{Dict, lookup, insert}
use codegen_product_kit.Base.Sorting.{any, sort_by, insert_by}
use codegen_product_kit.Environment.{
  EnvContractEntry, EnvContractFragment, generated_secret, valid_entry, valid_fragment, contract,
  refused, incompatible, merge_entries, merge_fragments, merge_env_contract_fragments,
}
use codegen_product_kit.Environment.Declared.{IsDeclared, IsEquality}
use codegen_product_kit.Environment.Loop.{Has}
use codegen_product_kit.Environment.Merge.{AreCompatible, merge_contents, merge_iff}

abbrev same_text : Option String → Option String → Bool
same_text none none = true
same_text (some s) (some t) = str_eq s t
same_text _ _ = false

same_text_lem : (o p : Option String) → (same_text o p ≡ true) ↔ (o ≡ p)
same_text_lem none none = (λ h. refl, λ h. refl)
same_text_lem none (some t) = (λ h. cc, λ h. cc)
same_text_lem (some s) none = (λ h. cc, λ h. cc)
same_text_lem (some s) (some t) = (λ h. ap some ((eq_iff s t).0 h), λ h. (eq_iff s t).1 cc)

abbrev same : EnvContractEntry → EnvContractEntry → Bool
same e f = same_text e.description f.description

same-IsEquality : IsEquality same
same-IsEquality = record {
  same_refl = λ e. (same_text_lem e.description e.description).1 refl;
  same_sym = λ e f h.
      (same_text_lem f.description e.description).1
        (sym ((same_text_lem e.description f.description).0 h));
  same_trans = λ e f g h k. (same_text_lem e.description g.description).1 (
      (same_text_lem e.description f.description).0 h
      ∙ (same_text_lem f.description g.description).0 k);
}

abbrev secret : Option String → EnvContractEntry
secret description = record {
  source = generated_secret;
  environments = "production" ∷ [];
  consumers = [];
  required = true;
  description = description;
  sensitive = true;
}

abbrev core : EnvContractFragment
core = record { owner = "core"; entries = ("SECRET_KEY", secret (some "Signs")) ∷ [] }

abbrev bot : String → EnvContractFragment
bot description = record {
  owner = "bot";
  entries = ("SECRET_KEY", secret (some description)) ∷ ("BOT_TOKEN", secret none) ∷ [];
}

abbrev is_url : String → Bool
is_url s = false

-- The owner `bot` comes first.
abbrev before : String → String → Bool
before s t = str_eq s "bot"

abbrev both : Dict EnvContractEntry
both = ("SECRET_KEY", secret (some "Signs")) ∷ ("BOT_TOKEN", secret none) ∷ []

both_merged :
    merge_env_contract_fragments is_url same before (core ∷ bot "Signs" ∷ []) ≡ contract both
unfolding merge_env_contract_fragments valid_fragment valid_entry merge_fragments merge_entries
    lookup insert sort_by insert_by
both_merged = refl

others_refused :
    merge_env_contract_fragments is_url same before (core ∷ bot "Other" ∷ [])
    ≡ refused (incompatible "SECRET_KEY")
unfolding merge_env_contract_fragments valid_fragment valid_entry merge_fragments merge_entries
    lookup insert sort_by insert_by
others_refused = refl

both_valid : any (λ f. not (valid_fragment is_url f)) (core ∷ bot "Signs" ∷ []) ≡ false
unfolding valid_fragment valid_entry
both_valid = refl

merge_contents_example :
    ((k : String) (e : EnvContractEntry)
      → IsDeclared k e (core ∷ bot "Signs" ∷ [])
      → Has same k e both)
    × ((k : String) (f : EnvContractEntry)
        → lookup k both ≡ some f
        → IsDeclared k f (core ∷ bot "Signs" ∷ []))
merge_contents_example =
    merge_contents is_url same before same-IsEquality (core ∷ bot "Signs" ∷ []) both both_merged

merge_iff_example :
    ((m : Dict EnvContractEntry) × (merge_env_contract_fragments is_url same before
          (core ∷ bot "Signs" ∷ [])
        ≡ contract m))
    ↔ AreCompatible same (core ∷ bot "Signs" ∷ [])
merge_iff_example =
    merge_iff is_url same before same-IsEquality (core ∷ bot "Signs" ∷ []) both_valid
