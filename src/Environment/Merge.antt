-- ===== src/Environment/Merge.antt =====
-- Which fragments merge, and what the merged contract holds.
use mathlib.Core.Path.{subst}
use codegen_product_kit.Base.{
  ◌≡◌, ◌↔◌, sym, ◌∙◌, String, Bool, true, false, not, some, List, [], arith,
}
use codegen_product_kit.Base.Dict.{Dict, lookup}
use codegen_product_kit.Base.Sorting.{any, sort_by}
use codegen_product_kit.Environment.{
  EnvContractEntry, EnvContractFragment, valid_fragment, Merged, contract, merge_entries,
  merge_env_contract_fragments,
}
use codegen_product_kit.Environment.Declared.{
  Declares, IsDeclared, IsEquality, declared, Declares-of_IsDeclared, IsDeclared-of_Declares,
  IsDeclared-sort_by,
}
use codegen_product_kit.Environment.Loop.{
  Has, Holds-nothing, merge_fragments-flat, merge_entries-total, merge_entries-Has,
  merge_entries-Holds,
}

-- Whatever two fragments declare under one key is equal.
abbrev pub AreCompatible :
    (EnvContractEntry → EnvContractEntry → Bool) → List EnvContractFragment → Type 0
AreCompatible same fs =
    (k : String) (e f : EnvContractEntry) → IsDeclared k e fs → IsDeclared k f fs → same e f ≡ true

module _ (is_platform_url : String → Bool) (same : EnvContractEntry → EnvContractEntry → Bool)
    (before : String → String → Bool) (eq : IsEquality same)
    (fragments : List EnvContractFragment) where
  abbrev merged : Merged
  merged = merge_env_contract_fragments is_platform_url same before fragments

  abbrev by_owner : EnvContractFragment → EnvContractFragment → Bool
  by_owner f g = before f.owner g.owner

  -- The merge of valid fragments is one pass over the entries of the sorted fragments.
  merged-flat :
      (m : Dict EnvContractEntry)
      → merged ≡ contract m
      → merge_entries same (declared (sort_by by_owner fragments)) [] ≡ contract m
  unfolding merge_env_contract_fragments
  merged-flat m h = ground (arith, merge_fragments-flat same (sort_by by_owner fragments) [])

  flat-merged :
      (m : Dict EnvContractEntry)
      → any (λ f. not (valid_fragment is_platform_url f)) fragments ≡ false
      → merge_entries same (declared (sort_by by_owner fragments)) [] ≡ contract m
      → merged ≡ contract m
  unfolding merge_env_contract_fragments
  flat-merged m v h = rw v (merge_fragments-flat same (sort_by by_owner fragments) [] ∙ h)

  sorted_in :
      (k : String) (e : EnvContractEntry)
      → IsDeclared k e fragments
      → Declares k e (declared (sort_by by_owner fragments))
  sorted_in k e p =
      Declares-of_IsDeclared k e (sort_by by_owner fragments)
        ((IsDeclared-sort_by by_owner k e fragments).1 p)

  sorted_out :
      (k : String) (e : EnvContractEntry)
      → Declares k e (declared (sort_by by_owner fragments))
      → IsDeclared k e fragments
  sorted_out k e p =
      (IsDeclared-sort_by by_owner k e fragments).0
        (IsDeclared-of_Declares k e (sort_by by_owner fragments) p)

  -- A merged contract holds, for every entry that a fragment declares, an equal one under its key, and
  -- every entry in it is declared by a fragment under that key.
  pub merge_contents :
      (m : Dict EnvContractEntry)
      → merged ≡ contract m
      → ((k : String) (e : EnvContractEntry) → IsDeclared k e fragments → Has same k e m)
        × ((k : String) (f : EnvContractEntry) → lookup k m ≡ some f → IsDeclared k f fragments)
  merge_contents m h =
      let flat = merged-flat m h in
      (
        λ k e p. (merge_entries-Has same eq _ [] m flat).1 k e (sorted_in k e p),
        λ k f l.
            sorted_out k f (Holds-nothing same k f _ (merge_entries-Holds same k f _ [] m flat l)),
      )

  -- Valid fragments merge exactly when whatever two of them declare under one key is equal. So neither
  -- the order of the fragments nor their owners decide whether they merge.
  pub merge_iff :
      any (λ f. not (valid_fragment is_platform_url f)) fragments ≡ false
      → ((m : Dict EnvContractEntry) × (merged ≡ contract m)) ↔ AreCompatible same fragments
  merge_iff valid = (compatible, total)
    where
      compatible :
          (m : Dict EnvContractEntry) × (merged ≡ contract m) → AreCompatible same fragments
      compatible (m, h) k e f p q =
          let (g, l, s) = (merge_contents m h).0 k e p in
          let (g', l', s') = (merge_contents m h).0 k f q in
          let gg : g ≡ g' = cc in
          eq.same_trans e g f (eq.same_sym g e s) (subst (λ x. same x f ≡ true) (sym gg) s')

      total : AreCompatible same fragments → (m : Dict EnvContractEntry) × (merged ≡ contract m)
      total h =
          let (m, r) =
            merge_entries-total same (declared (sort_by by_owner fragments)) [] (λ k e f p q.
              h k f e (sorted_out k f (Holds-nothing same k f _ q)) (sorted_out k e p)) in
          (m, flat-merged m valid r)
