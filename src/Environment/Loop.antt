-- ===== src/Environment/Loop.antt =====
-- The loops of the merge.
use mathlib.Core.Path.{subst}
use codegen_product_kit.Base.{
  ◌≡◌, ◌⊎◌, inl, inr, refl, sym, ap, String, Bool, true, false, not, Option, none, some, List, [],
  ◌∷◌, ◌++◌, str_eq, arith, eq_iff, Bool-cases,
}
use codegen_product_kit.Base.Dict.{Dict, lookup, insert, lookup-insert}
use codegen_product_kit.Environment.{
  EnvContractEntry, EnvContractFragment, Merged, contract, refused, conflicts, merge_entries,
  merge_fragments,
}
use codegen_product_kit.Environment.Declared.{Declares, IsEquality, declared}

module _ (same : EnvContractEntry → EnvContractEntry → Bool) where
  merge_entries-append :
      (d b : Dict EnvContractEntry) (m : Dict EnvContractEntry)
      → merge_entries same (d ++ b) m ≡ elim (merge_entries same d m) [
        | refused e ↦ refused e
        | contract n ↦ merge_entries same b n
      ]
  unfolding merge_entries
  merge_entries-append [] b m = refl
  merge_entries-append ((k, e) ∷ d) b m = ground (arith, merge_entries-append d b (insert k e m))

  -- The two loops are one over all the entries.
  pub merge_fragments-flat :
      (fs : List EnvContractFragment) (m : Dict EnvContractEntry)
      → merge_fragments same fs m ≡ merge_entries same (declared fs) m
  unfolding merge_fragments declared merge_entries
  merge_fragments-flat [] m = refl
  merge_fragments-flat (f ∷ fs) m =
      by_merged (merge_entries same f.entries m) refl (merge_fragments-flat fs)
    where
      by_merged :
          (r : Merged)
          → merge_entries same f.entries m ≡ r
          → ((n : Dict EnvContractEntry)
              → merge_fragments same fs n ≡ merge_entries same (declared fs) n)
          → merge_fragments same (f ∷ fs) m ≡ merge_entries same (f.entries ++ declared fs) m
      by_merged (refused e) h next = ground (arith, merge_entries-append f.entries (declared fs) m)
      by_merged (contract n) h next =
          ground (arith, next n, merge_entries-append f.entries (declared fs) m)

  -- The entry stands under the key, in what is to be merged or in what was.
  pub Holds : String → EnvContractEntry → Dict EnvContractEntry → Dict EnvContractEntry → Type 0
  Holds k f d m = Declares k f d ⊎ (lookup k m ≡ some f)

  pub Holds-nothing :
      (k : String) (f : EnvContractEntry) (d : Dict EnvContractEntry)
      → Holds k f d []
      → Declares k f d
  unfolding Holds lookup
  Holds-nothing k f d (inl p) = p
  Holds-nothing k f d (inr q) = cc

  no_conflict :
      (o : Option EnvContractEntry) (e : EnvContractEntry)
      → ((f : EnvContractEntry) → o ≡ some f → same f e ≡ true)
      → conflicts same o e ≡ false
  no_conflict none e h = refl
  no_conflict (some f) e h = ap not (h f refl)

  insert-Holds :
      (k : String) (f : EnvContractEntry) (j : String) (g : EnvContractEntry)
      (d m : Dict EnvContractEntry)
      → Holds k f d (insert j g m)
      → Holds k f ((j, g) ∷ d) m
  unfolding Holds
  insert-Holds k f j g d m (inl h) = inl (inr h)
  insert-Holds k f j g d m (inr h) = elim (Bool-cases (str_eq j k)) [
    | inl y ↦ inl (inl ((eq_iff j k).0 y, ground (arith, lookup-insert j k g m)))
    | inr n ↦ inr (ground (arith, lookup-insert j k g m))
  ]

  -- If what stands under one key is the same throughout, the loop gives a contract.
  pub merge_entries-total :
      (d m : Dict EnvContractEntry)
      → ((k : String) (e f : EnvContractEntry) → Declares k e d → Holds k f d m → same f e ≡ true)
      → (m' : Dict EnvContractEntry) × (merge_entries same d m ≡ contract m')
  unfolding merge_entries
  merge_entries-total [] m h = (m, refl)
  merge_entries-total ((k, e) ∷ d) m h =
      let free : conflicts same (lookup k m) e ≡ false =
        no_conflict (lookup k m) e (λ f l. h k e f (inl (refl, refl)) (unfold Holds in inr l)) in
      let (m', r) =
        merge_entries-total d (insert k e m)
          (λ j f g p q. h j f g (inr p) (insert-Holds j g k e d m q)) in
      (m', rw free r)

  -- The contract has an entry under the key that equals `e`.
  abbrev pub Has : String → EnvContractEntry → Dict EnvContractEntry → Type 0
  Has k e m = (f : EnvContractEntry) × (lookup k m ≡ some f) × (same f e ≡ true)

  no_conflict-same :
      (o : Option EnvContractEntry) (e f : EnvContractEntry)
      → conflicts same o e ≡ false
      → o ≡ some f
      → same f e ≡ true
  no_conflict-same none e f h p = cc
  no_conflict-same (some g) e f h p =
      let eq : g ≡ f = cc in subst (λ x. same x e ≡ true) eq (not_not (same g e) h)
    where
      not_not : (b : Bool) → not b ≡ false → b ≡ true
      not_not true q = refl
      not_not false q = cc

  module _ (eq : IsEquality same) where
    insert-Has :
        (k j : String) (e g : EnvContractEntry) (m : Dict EnvContractEntry)
        → conflicts same (lookup j m) g ≡ false
        → Has k e m
        → Has k e (insert j g m)
    insert-Has k j e g m h (f, l, s) = elim (Bool-cases (str_eq j k)) [
      | inl y ↦
          let jk = (eq_iff j k).0 y in
          let fg =
            no_conflict-same (lookup j m) g f h (subst (λ x. lookup x m ≡ some f) (sym jk) l) in
          (g, ground (arith, lookup-insert j k g m), eq.same_trans g f e (eq.same_sym f g fg) s)
      | inr n ↦ (f, ground (arith, lookup-insert j k g m), s)
    ]

    -- What stood before and what the entries declare is in the contract.
    pub merge_entries-Has :
        (d m m' : Dict EnvContractEntry)
        → merge_entries same d m ≡ contract m'
        → ((k : String) (e : EnvContractEntry) → Has k e m → Has k e m')
          × ((k : String) (e : EnvContractEntry) → Declares k e d → Has k e m')
    unfolding merge_entries
    merge_entries-Has [] m m' h =
        let same_map : m ≡ m' = cc in (λ k e p. subst (Has k e) same_map p, λ k e p. absurd p)
    merge_entries-Has ((j, g) ∷ d) m m' h =
        let free : conflicts same (lookup j m) g ≡ false = ground arith in
        let (old, new) = merge_entries-Has d (insert j g m) m' (ground arith) in
        (λ k e p. old k e (insert-Has k j e g m free p), λ k e p. by_place k e old new p)
      where
        by_place :
            (k : String) (e : EnvContractEntry)
            → ((i : String) (f : EnvContractEntry) → Has i f (insert j g m) → Has i f m')
            → ((i : String) (f : EnvContractEntry) → Declares i f d → Has i f m')
            → Declares k e ((j, g) ∷ d)
            → Has k e m'
        by_place k e old new (inr p) = new k e p
        by_place k e old new (inl (jk, ge)) =
            subst (λ i. Has i e m') jk
              (subst (λ f. Has j f m') ge
                (old j g (g, ground (arith, lookup-insert j j g m, eq_iff j j), eq.same_refl g)))

  -- The contract invents nothing.
  pub merge_entries-Holds :
      (k : String) (f : EnvContractEntry) (d m m' : Dict EnvContractEntry)
      → merge_entries same d m ≡ contract m'
      → lookup k m' ≡ some f
      → Holds k f d m
  unfolding merge_entries
  merge_entries-Holds k f [] m m' h l =
      let same_map : m' ≡ m = cc in
      unfold Holds in inr (subst (λ n. lookup k n ≡ some f) same_map l)
  merge_entries-Holds k f ((j, g) ∷ d) m m' h l =
      insert-Holds k f j g d m (merge_entries-Holds k f d (insert j g m) m' (ground arith) l)
