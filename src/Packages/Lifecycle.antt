-- ===== src/Packages/Lifecycle.antt =====
-- Startup and shutdown of the activated packages, template/codegen_kit/packages.py. What a callback does
-- may depend on every call before it, so it is a function of the log of those calls.
pub mod Startup
pub mod Shutdown
use mathlib.Core.List.{reverse, reverse-append, append-nil, append_assoc}
use codegen_product_kit.Base.{
  ℕ, zero, suc, ◌<◌, ◌≡◌, ◌≢◌, ◌⊎◌, inl, inr, refl, sym, ap, ◌∙◌, map, Bool, true, false, Option,
  none, some, List, [], ◌∷◌, ◌++◌, length, arith, if◌then◌else◌,
}
use codegen_product_kit.Packages.Activation.{ActivatedPackage}

-- A call of a package's runtime.
pub data Call : Type 0 where
  startup shutdown : ActivatedPackage → Call

-- It returns, or raises CancelledError, an Exception, or another BaseException.
pub data Outcome : Type 0 where
  finished : Outcome
  cancelled failed interrupted : ℕ → Outcome

abbrev pub Behaviour : Type 0
Behaviour = List Call → Call → Outcome

-- `application.state`; `started` is the list object that both functions change.
pub record Application : Type 0 where
  pub codegen_packages : List ActivatedPackage
  pub codegen_started_packages : List ActivatedPackage
  pub log : List Call

abbrev pub append_started : ActivatedPackage → Application → Application
append_started p a = record a { codegen_started_packages = a.codegen_started_packages ++ p ∷ [] }

abbrev pub called : Call → Application → Application
called c a = record a { log = a.log ++ c ∷ [] }

-- The loop of `startup_packages`; what it raises, if anything.
pub start_each : Behaviour → List ActivatedPackage → Application → Application × Option Outcome
start_each b [] a = (a, none)
start_each b (p ∷ ps) a =
    let a' = called (startup p) a in
    elim (b a.log (startup p)) [
      | finished ↦ start_each b ps (append_started p a')
      | o ↦ (a', some o)
    ]

-- `startup_packages`
unfoldable pub startup_packages : Behaviour → Application → Application × Option Outcome
unfolding start_each
startup_packages b a = start_each b a.codegen_packages (record a { codegen_started_packages = [] })

-- `started.pop()`: the rest and the last element.
pub pop {ℓ} : {A : Type ℓ} → List A → Option (List A × A)
pop [] = none
pop (x ∷ xs) = elim (pop xs) [ none ↦ some ([], x) | some (rest, y) ↦ some (x ∷ rest, y) ]

abbrev pub or_first : Option ℕ → ℕ → Option ℕ
or_first none e = some e
or_first (some d) e = some d

-- After the loop: what `shutdown_packages` raises.
abbrev pub conclusion : Bool → Option ℕ → Option ℕ → Option Outcome
conclusion suppress_errors first_error (some c) = some (cancelled c)
conclusion suppress_errors (some e) none = if suppress_errors then none else some (failed e)
conclusion suppress_errors none none = none

abbrev pub taken : List ActivatedPackage → ActivatedPackage → Application → Application
taken rest p a = record a { codegen_started_packages = rest; log = a.log ++ shutdown p ∷ [] }

-- The loop of `shutdown_packages` with fuel; `none` means that the fuel ran out.
pub stop_each :
    ℕ → Behaviour → Bool → Option ℕ → Option ℕ → Application → Option (Application × Option Outcome)
unfolding pop
stop_each zero b suppress_errors first_error cancellation a = none
stop_each (suc n) b suppress_errors first_error cancellation a =
    elim (pop a.codegen_started_packages) [
      | none ↦ some (a, conclusion suppress_errors first_error cancellation)
      | some (rest, p) ↦
          let a' = taken rest p a in
          elim (b a.log (shutdown p)) [
            | finished ↦ stop_each n b suppress_errors first_error cancellation a'
            | cancelled e ↦ stop_each n b suppress_errors first_error (or_first cancellation e) a'
            | failed e ↦ stop_each n b suppress_errors (or_first first_error e) cancellation a'
            | interrupted e ↦ some (a', some (interrupted e))
          ]
    ]

-- `shutdown_packages`
unfoldable pub shutdown_packages :
    ℕ → Behaviour → Bool → Application → Option (Application × Option Outcome)
unfolding stop_each
shutdown_packages n b suppress_errors a = stop_each n b suppress_errors none none a
