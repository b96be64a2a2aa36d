-- ===== src/Spec/Packages/Timers.antt =====
-- Which timers a package may declare.
use codegen_product_kit.Base.{
  ℕ, ◌≤◌, ◌≡◌, ◌↔◌, refl, String, Bool, true, false, Option, none, some, List, [], ◌∷◌, map,
  if◌then◌else◌, arith, eq_iff, All,
}
use codegen_product_kit.Json.{Json, Fields, null, bool, num, other_number, str, arr, obj, get}
use codegen_product_kit.Spec.Manifests.{occurs, repeats}
use codegen_product_kit.Spec.Packages.{
  ℤ, pos, negsuc, TimerDeclaration, in_interval, is_fireable, arguments_refusal, validate_timers,
}

-- The core can fire the timer: its job is declared with the arguments that the core gives, and it comes
-- every 10 to 86400 seconds.
abbrev pub IsTimer : Fields → TimerDeclaration → Type 0
IsTimer properties t =
    (arguments : Fields) × (seconds : ℕ) × (get t.job properties ≡ some (obj arguments))
    × (is_fireable arguments ≡ true)
    × (t.every_seconds ≡ pos seconds)
    × (10 ≤ seconds)
    × (seconds ≤ 86400)

abbrev pub jobs_of : List TimerDeclaration → List String
jobs_of ts = map (λ (t : TimerDeclaration). t.job) ts

in_interval_lem : (s : ℤ) → in_interval s ≡ true → (n : ℕ) × (s ≡ pos n) × (10 ≤ n) × (n ≤ 86400)
unfolding in_interval
in_interval_lem (pos n) h = (n, refl, ground arith, ground arith)
in_interval_lem (negsuc n) h = cc

in_interval-pos : (n : ℕ) → 10 ≤ n → n ≤ 86400 → in_interval (pos n) ≡ true
unfolding in_interval
in_interval-pos n lo hi = ground arith

arguments_refusal-declared :
    (o : Option Json) (s : ℤ)
    → arguments_refusal o s ≡ none
    → (arguments : Fields) × (o ≡ some (obj arguments))
      × (is_fireable arguments ≡ true)
      × (in_interval s ≡ true)
unfolding arguments_refusal
arguments_refusal-declared (some (obj arguments)) s h =
    (arguments, refl, ground arith, ground arith)
arguments_refusal-declared none s h = ground arith
arguments_refusal-declared (some null) s h = ground arith
arguments_refusal-declared (some (bool b)) s h = ground arith
arguments_refusal-declared (some (num n)) s h = ground arith
arguments_refusal-declared (some (other_number t)) s h = ground arith
arguments_refusal-declared (some (str t)) s h = ground arith
arguments_refusal-declared (some (arr l)) s h = ground arith

arguments_refusal-none :
    (properties : Fields) (t : TimerDeclaration)
    → arguments_refusal (get t.job properties) t.every_seconds ≡ none
    → IsTimer properties t
arguments_refusal-none properties t h =
    let (arguments, e, f, b) =
      arguments_refusal-declared (get t.job properties) t.every_seconds h in
    let (n, es, lo, hi) = in_interval_lem t.every_seconds b in (arguments, n, e, f, es, lo, hi)

arguments_refusal-IsTimer :
    (properties : Fields) (t : TimerDeclaration)
    → IsTimer properties t
    → arguments_refusal (get t.job properties) t.every_seconds ≡ none
unfolding arguments_refusal
arguments_refusal-IsTimer properties t (arguments, n, h, f, s, lo, hi) =
    rw (h, s, f, in_interval-pos n lo hi) refl

-- None of the jobs was seen.
abbrev fresh : List String → List String → Bool
fresh seen [] = true
fresh seen (j ∷ js) = if occurs seen j then false else fresh seen js

fresh-cons :
    (j : String) (seen js : List String)
    → fresh (j ∷ seen) js ≡ (if occurs js j then false else fresh seen js)
fresh-cons j seen [] = refl
fresh-cons j seen (k ∷ js) = ground (arith, eq_iff j k, eq_iff k j, fresh-cons j seen js)

fresh-nil : (js : List String) → fresh [] js ≡ true
fresh-nil [] = refl
fresh-nil (j ∷ js) = fresh-nil js

validate_timers-accepts :
    (seen : List String) (ts : List TimerDeclaration) (properties : Fields)
    → validate_timers seen ts properties ≡ none
    → (fresh seen (jobs_of ts) ≡ true)
      × (repeats (jobs_of ts) ≡ false)
      × All (IsTimer properties) ts
unfolding validate_timers
validate_timers-accepts seen [] properties h = (refl, refl, tt)
validate_timers-accepts seen (t ∷ ts) properties h =
    let rest = validate_timers-accepts (t.job ∷ seen) ts properties (ground arith) in
    (
      ground (arith, fresh-cons t.job seen (jobs_of ts)),
      ground (arith, fresh-cons t.job seen (jobs_of ts)),
      (arguments_refusal-none properties t (ground arith), rest.2),
    )

validate_timers-refuses :
    (seen : List String) (ts : List TimerDeclaration) (properties : Fields)
    → fresh seen (jobs_of ts) ≡ true
    → repeats (jobs_of ts) ≡ false
    → All (IsTimer properties) ts
    → validate_timers seen ts properties ≡ none
unfolding validate_timers
validate_timers-refuses seen [] properties f r all = refl
validate_timers-refuses seen (t ∷ ts) properties f r all = ground (
  arith,
  arguments_refusal-IsTimer properties t all.0,
  fresh-cons t.job seen (jobs_of ts),
  validate_timers-refuses (t.job ∷ seen) ts properties,
  all.1,
)

-- The timers of a package are accepted exactly when their jobs differ pairwise and each is declared by
-- the jobs schema with the one required date-time argument that the core gives it, and comes every 10 to
-- 86400 seconds.
pub validate_timers_iff :
    (ts : List TimerDeclaration) (properties : Fields)
    → (validate_timers [] ts properties ≡ none)
      ↔ ((repeats (jobs_of ts) ≡ false) × All (IsTimer properties) ts)
validate_timers_iff ts properties = (
  λ h. let (_, r, all) = validate_timers-accepts [] ts properties h in (r, all),
  λ h. validate_timers-refuses [] ts properties (fresh-nil (jobs_of ts)) h.0 h.1,
)
