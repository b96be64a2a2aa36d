-- ===== src/Packages/Lifecycle/Startup.antt =====
-- The order and the outcome of `startup_packages`.
use mathlib.Core.Path.{subst}
use mathlib.Core.List.{append-nil, append_assoc}
use codegen_product_kit.Base.{
  ◌≡◌, ◌≢◌, ◌⊎◌, inl, inr, refl, sym, ap, ◌∙◌, map, Option, none, some, List, [], ◌∷◌, ◌++◌,
}
use codegen_product_kit.Packages.Activation.{ActivatedPackage}
use codegen_product_kit.Packages.Lifecycle.{
  Call, startup, Outcome, finished, cancelled, failed, interrupted, Behaviour, Application,
  append_started, called, start_each, startup_packages,
}

-- The startups of these packages, made in order after the given calls, all return.
abbrev pub AllReturn : Behaviour → List Call → List ActivatedPackage → Type 0
AllReturn b log [] = Unit
AllReturn b log (p ∷ ps) = (b log (startup p) ≡ finished) × AllReturn b (log ++ startup p ∷ []) ps

-- How a startup of the packages `ps` after `log` ends: the packages that start, those that do not, what
-- is raised and the calls made.
pub data Ends (b : Behaviour) (log : List Call) (ps started : List ActivatedPackage)
    (raised : Option Outcome) (log' : List Call) : Type 0 where
  all_started :
      started ≡ ps
      → AllReturn b log ps
      → raised ≡ none
      → log' ≡ log ++ map startup ps
      → Ends b log ps started raised log'
  stopped_at :
      (p : ActivatedPackage) (rest : List ActivatedPackage) (o : Outcome)
      → ps ≡ started ++ p ∷ rest
      → AllReturn b log started
      → b (log ++ map startup started) (startup p) ≡ o
      → o ≢ finished
      → raised ≡ some o
      → log' ≡ (log ++ map startup started) ++ startup p ∷ []
      → Ends b log ps started raised log'

Outcome-cases : (o : Outcome) → (o ≡ finished) ⊎ (o ≢ finished)
Outcome-cases finished = inl refl
Outcome-cases (cancelled e) = inr (λ h. cc)
Outcome-cases (failed e) = inr (λ h. cc)
Outcome-cases (interrupted e) = inr (λ h. cc)

Ends-cons :
    (b : Behaviour) (log : List Call) (p : ActivatedPackage) (ps started : List ActivatedPackage)
    (raised : Option Outcome) (log' : List Call)
    → b log (startup p) ≡ finished
    → Ends b (log ++ startup p ∷ []) ps started raised log'
    → Ends b log (p ∷ ps) (p ∷ started) raised log'
Ends-cons b log p ps started raised log' h (Ends.all_started es all r l) =
    Ends.all_started (ap (λ s. p ∷ s) es) (h, all) r
      (l ∙ append_assoc log (startup p ∷ []) (map startup ps))
Ends-cons b log p ps started raised log' h (Ends.stopped_at q rest o e all ho n r l) =
    Ends.stopped_at q rest o (ap (λ s. p ∷ s) e) (h, all)
      (ap (λ x. b x (startup q)) (sym (append_assoc log (startup p ∷ []) (map startup started)))
        ∙ ho)
      n r
      (l ∙ ap (λ x. x ++ startup q ∷ []) (append_assoc log (startup p ∷ []) (map startup started)))

start_each-finished :
    (b : Behaviour) (p : ActivatedPackage) (ps : List ActivatedPackage) (a : Application)
    → b a.log (startup p) ≡ finished
    → start_each b (p ∷ ps) a ≡ start_each b ps (append_started p (called (startup p) a))
unfolding start_each
start_each-finished b p ps a h = rw (h, start_each) refl

start_each-raised :
    (b : Behaviour) (p : ActivatedPackage) (ps : List ActivatedPackage) (a : Application)
    (o : Outcome)
    → b a.log (startup p) ≡ o
    → o ≢ finished
    → start_each b (p ∷ ps) a ≡ (called (startup p) a, some o)
unfolding start_each
start_each-raised b p ps a finished h n = absurd (n refl)
start_each-raised b p ps a (cancelled e) h n = rw (h, start_each) refl
start_each-raised b p ps a (failed e) h n = rw (h, start_each) refl
start_each-raised b p ps a (interrupted e) h n = rw (h, start_each) refl

-- `started` grows by exactly the packages that start.
abbrev Grows :
    Behaviour → List ActivatedPackage → Application → Application × Option Outcome → Type 0
Grows b ps a r =
    (started : List ActivatedPackage) × (r.0.codegen_started_packages
      ≡ a.codegen_started_packages ++ started)
    × Ends b a.log ps started r.1 r.0.log

start_each_lem :
    (b : Behaviour) (ps : List ActivatedPackage) (a : Application)
    → Grows b ps a (start_each b ps a)
unfolding start_each
start_each_lem b [] a = (
  [],
  sym (append-nil a.codegen_started_packages),
  Ends.all_started refl tt refl (sym (append-nil a.log)),
)
start_each_lem b (p ∷ ps) a = elim (Outcome-cases (b a.log (startup p))) [
  | inl h ↦
      let (started, e, ends) = start_each_lem b ps (append_started p (called (startup p) a)) in
      subst (Grows b (p ∷ ps) a) (sym (start_each-finished b p ps a h)) (
        p ∷ started,
        e ∙ append_assoc a.codegen_started_packages (p ∷ []) started,
        Ends-cons b a.log p ps started _ _ h ends,
      )
  | inr n ↦ subst (Grows b (p ∷ ps) a) (sym (start_each-raised b p ps a _ refl n)) (
    [],
    sym (append-nil a.codegen_started_packages),
    Ends.stopped_at p ps _ refl tt (ap (λ x. b x (startup p)) (append-nil a.log)) n refl
        (ap (λ x. x ++ startup p ∷ []) (sym (append-nil a.log))),
  )
]

-- A startup starts the packages in the order of the product's list: the packages recorded as started
-- are exactly those whose startup returned. Either that is every package and nothing is raised, or the
-- next package's startup raised what the function raises, and no later package is called.
pub startup_packages_lem :
    (b : Behaviour) (a : Application)
    → let (a', raised) = startup_packages b a in
      Ends b a.log a.codegen_packages a'.codegen_started_packages raised a'.log
unfolding startup_packages
startup_packages_lem b a =
    let a' = record a { codegen_started_packages = [] } in
    let (started, e, ends) = start_each_lem b a.codegen_packages a' in
    let r = start_each b a.codegen_packages a' in
    subst (λ s. Ends b a.log a.codegen_packages s r.1 r.0.log) (sym e) ends
