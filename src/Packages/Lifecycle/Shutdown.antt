-- ===== src/Packages/Lifecycle/Shutdown.antt =====
-- `shutdown_packages` ends, attempts every stop in reverse order, and what it raises.
use mathlib.Core.List.{reverse}
use codegen_product_kit.Base.{ℕ, ◌≡◌, map, Bool, Option, none, some, List, [], ◌∷◌, ◌++◌}
use codegen_product_kit.Packages.Activation.{ActivatedPackage}
use codegen_product_kit.Packages.Lifecycle.{
  Call, shutdown, Outcome, cancelled, failed, interrupted, Behaviour, Application, conclusion,
  stop_each,
}

-- The outcomes of the stops, made in this order after the given calls, up to the first that interrupts.
abbrev pub outcomes : Behaviour → List Call → List ActivatedPackage → List Outcome
outcomes b log [] = []
outcomes b log (p ∷ ps) = elim (b log (shutdown p)) [
  | interrupted e ↦ interrupted e ∷ []
  | o ↦ o ∷ outcomes b (log ++ shutdown p ∷ []) ps
]

-- What the stops are to raise: an interruption, else the first cancellation, else the first error,
-- unless errors are suppressed.
abbrev pub interruption : List Outcome → Option ℕ
interruption [] = none
interruption (interrupted e ∷ os) = some e
interruption (_ ∷ os) = interruption os

abbrev pub first_cancellation : List Outcome → Option ℕ
first_cancellation [] = none
first_cancellation (cancelled e ∷ os) = some e
first_cancellation (_ ∷ os) = first_cancellation os

abbrev pub first_failure : List Outcome → Option ℕ
first_failure [] = none
first_failure (failed e ∷ os) = some e
first_failure (_ ∷ os) = first_failure os

abbrev or_else : Option ℕ → Option ℕ → Option ℕ
or_else none y = y
or_else (some d) y = some d

abbrev pub verdict : Bool → Option ℕ → Option ℕ → Option ℕ → Option Outcome
verdict suppress_errors error cancellation (some e) = some (interrupted e)
verdict suppress_errors error cancellation none = conclusion suppress_errors error cancellation

abbrev pub drop {ℓ κ} : {A : Type ℓ} {B : Type κ} → List B → List A → List A
drop [] xs = xs
drop (_ ∷ ys) [] = []
drop (_ ∷ ys) (x ∷ xs) = drop ys xs

abbrev pub prefix {ℓ κ} : {A : Type ℓ} {B : Type κ} → List B → List A → List A
prefix [] xs = []
prefix (_ ∷ ys) [] = []
prefix (_ ∷ ys) (x ∷ xs) = x ∷ prefix ys xs

abbrev app : List ActivatedPackage → List Call → List ActivatedPackage → Application
app pk log started = record { codegen_packages = pk; codegen_started_packages = started; log = log }

-- The state and the result that the loop is to reach from the started packages, the last first.
abbrev reached :
    Behaviour
    → Bool
    → Option ℕ
    → Option ℕ
    → List ActivatedPackage
    → List Call
    → List ActivatedPackage
    → Application × Option Outcome
reached b suppress_errors error cancellation pk log ps =
    let os = outcomes b log ps in
    (
      app pk (log ++ map shutdown (prefix os ps)) (reverse (drop os ps)),
      verdict suppress_errors (or_else error (first_failure os))
          (or_else cancellation (first_cancellation os)) (interruption os),
    )

module _ (b : Behaviour) (se : Bool) (pk : List ActivatedPackage) where
  Reaches : ℕ → Option ℕ → Option ℕ → List Call → List ActivatedPackage → Type 0
  Reaches n fe ca log ps =
      stop_each n b se fe ca (app pk log (reverse ps)) ≡ some (reached b se fe ca pk log ps)

-- The state and the result of a shutdown.
abbrev pub shut_down : Behaviour → Bool → Application → Application × Option Outcome
shut_down b suppress_errors a =
    let ps = reverse a.codegen_started_packages in
    let os = outcomes b a.log ps in
    (
      record {
        codegen_packages = a.codegen_packages;
        codegen_started_packages = reverse (drop os ps);
        log = a.log ++ map shutdown (prefix os ps);
      },
      verdict suppress_errors (first_failure os) (first_cancellation os) (interruption os),
    )
