-- ===== src/Host/Commands.antt =====
-- Which claims become commands.
use mathlib.Core.Path.{subst}
use codegen_product_kit.Base.{
  ℕ, ◌+◌, ◌≡◌, ◌↔◌, refl, sym, ap, ◌∙◌, String, Bool, true, false, ◌&&◌, not, Option, none, some,
  List, [], ◌∷◌, ◌++◌, map, str_eq, arith, eq_iff, All, length, is_some, Option-cases, inl, inr,
  suc,
}
use codegen_product_kit.Base.Dict.{Dict, lookup, insert, lookup-insert}
use codegen_product_kit.Base.Sorting.{any}
use codegen_product_kit.Host.{
  CommandClaim, Violation, is_command, is_reserved, core_owner, command_violation, resolve_claims,
  evaluate_commands, builtins,
}

-- A well-formed name, which only the core may take if it is reserved.
abbrev pub IsAdmissible : CommandClaim → Type 0
IsAdmissible c =
    (is_command c.command ≡ true)
    × ((is_reserved c.command && not (str_eq c.owner core_owner)) ≡ false)

abbrev pub names : List CommandClaim → List String
names cs = map (λ (c : CommandClaim). c.command) cs

abbrev pub distinct : List String → Bool
distinct [] = true
distinct (s ∷ l) = not (any (λ t. str_eq t s) l) && distinct l

-- None of the names is claimed.
abbrev unclaimed : Dict CommandClaim → List String → Bool
unclaimed d [] = true
unclaimed d (s ∷ l) = not (is_some (lookup s d)) && unclaimed d l

unclaimed-insert :
    (k : String) (c : CommandClaim) (d : Dict CommandClaim) (l : List String)
    → unclaimed (insert k c d) l ≡ (not (any (λ t. str_eq t k) l) && unclaimed d l)
unclaimed-insert k c d [] = refl
unclaimed-insert k c d (s ∷ l) =
    ground (arith, lookup-insert k s c d, eq_iff k s, eq_iff s k, unclaimed-insert k c d l)

unclaimed-nil : (l : List String) → unclaimed [] l ≡ true
unfolding lookup
unclaimed-nil [] = refl
unclaimed-nil (s ∷ l) = unclaimed-nil l

command_violation-none :
    (c : CommandClaim) (o : Option CommandClaim)
    → command_violation c o ≡ none
    → (o ≡ none) × IsAdmissible c
unfolding command_violation
command_violation-none c none h = (refl, (ground arith, ground arith))
command_violation-none c (some p) h = ground arith

command_violation-free :
    (c : CommandClaim) (o : Option CommandClaim)
    → o ≡ none
    → IsAdmissible c
    → command_violation c o ≡ none
unfolding command_violation
command_violation-free c none e (a, b) = rw (a, b) refl
command_violation-free c (some p) e h = cc

resolve_claims-kept :
    (d : Dict CommandClaim) (c : CommandClaim) (cs : List CommandClaim)
    → command_violation c (lookup c.command d) ≡ none
    → let r = resolve_claims (insert c.command c d) cs in resolve_claims d (c ∷ cs) ≡ (c ∷ r.0, r.1)
unfolding resolve_claims
resolve_claims-kept d c cs e = rw (e, resolve_claims) refl

resolve_claims-refused :
    (d : Dict CommandClaim) (c : CommandClaim) (cs : List CommandClaim) (v : Violation)
    → command_violation c (lookup c.command d) ≡ some v
    → let r = resolve_claims d cs in resolve_claims d (c ∷ cs) ≡ (r.0, v ∷ r.1)
unfolding resolve_claims
resolve_claims-refused d c cs v e = rw (e, resolve_claims) refl

-- What the loop accepts is admissible, takes unclaimed names, and takes each name once; every claim ends
-- as a command or as a violation.
abbrev Accepts : Dict CommandClaim → ℕ → List CommandClaim × List Violation → Type 0
Accepts d n r =
    All IsAdmissible r.0
    × (distinct (names r.0) ≡ true)
    × (unclaimed d (names r.0) ≡ true)
    × (length r.0 + length r.1 ≡ n)

resolve_claims-Accepts :
    (d : Dict CommandClaim) (cs : List CommandClaim) → Accepts d (length cs) (resolve_claims d cs)
unfolding resolve_claims
resolve_claims-Accepts d [] = (tt, refl, refl, omega arith)
resolve_claims-Accepts d (c ∷ cs) = elim (Option-cases (command_violation c (lookup c.command d))) [
  | inr (v, e) ↦
      let (all, once, free, sum) = resolve_claims-Accepts d cs in
      subst (Accepts d (suc (length cs))) (sym (resolve_claims-refused d c cs v e))
        (all, once, free, omega arith)
  | inl e ↦
      let r = resolve_claims (insert c.command c d) cs in
      let (all, once, free, sum) = resolve_claims-Accepts (insert c.command c d) cs in
      let (none_there, fine) = command_violation-none c (lookup c.command d) e in
      let apart = unclaimed-insert c.command c d (names r.0) in
      subst (Accepts d (suc (length cs))) (sym (resolve_claims-kept d c cs e))
        ((fine, all), ground arith, ground arith, omega arith)
]

-- Claims that are admissible and take unclaimed names once are all accepted.
resolve_claims-clean :
    (d : Dict CommandClaim) (cs : List CommandClaim)
    → All IsAdmissible cs
    → distinct (names cs) ≡ true
    → unclaimed d (names cs) ≡ true
    → resolve_claims d cs ≡ (cs, [])
unfolding resolve_claims
resolve_claims-clean d [] all once free = refl
resolve_claims-clean d (c ∷ cs) (fine, all) once free =
    let e =
      command_violation-free c (lookup c.command d) (absent (lookup c.command d) (ground arith))
        fine in
    let apart = unclaimed-insert c.command c d (names cs) in
    let rest = resolve_claims-clean (insert c.command c d) cs all (ground arith) (ground arith) in
    resolve_claims-kept d c cs e
    ∙ ap (λ (r : List CommandClaim × List Violation). (c ∷ r.0, r.1)) rest
  where
    absent : (o : Option CommandClaim) → is_some o ≡ false → o ≡ none
    absent none h = refl
    absent (some p) h = cc

-- Without a violation the commands are the claims.
resolve_claims-all :
    (d : Dict CommandClaim) (cs : List CommandClaim)
    → (resolve_claims d cs).1 ≡ []
    → (resolve_claims d cs).0 ≡ cs
unfolding resolve_claims
resolve_claims-all d [] h = refl
resolve_claims-all d (c ∷ cs) h = elim (Option-cases (command_violation c (lookup c.command d))) [
  | inr (v, e) ↦
      let same =
        ap (λ (r : List CommandClaim × List Violation). r.1) (resolve_claims-refused d c cs v e) in
      cc
  | inl e ↦
      let kept = resolve_claims-kept d c cs e in
      let same = ap (λ (r : List CommandClaim × List Violation). r.1) kept in
      let rest = resolve_claims-all (insert c.command c d) cs (sym same ∙ h) in
      ap (λ (r : List CommandClaim × List Violation). r.0) kept ∙ ap (λ l. c ∷ l) rest
]

-- The outcome of the loop over the claims.
abbrev pub IsResolved : List CommandClaim → List CommandClaim × List Violation → Type 0
IsResolved claims r =
    All IsAdmissible r.0
    × (distinct (names r.0) ≡ true)
    × (length r.0 + length r.1 ≡ length claims)
    × ((r.1 ≡ []) ↔ (All IsAdmissible claims × (distinct (names claims) ≡ true)))
    × (r.1 ≡ [] → r.0 ≡ claims)

-- The commands of a contract have well-formed names, each once; only the core takes a reserved name;
-- and every claim is a command or a violation. There is no violation exactly if the claims of the core,
-- of the product and of the modules are all of that kind, and then they are the commands, in order.
pub evaluate_commands_lem :
    (backend : Bool) (product modules : List CommandClaim)
    → IsResolved
        (builtins backend ++ (product ++ modules))
        (evaluate_commands backend product modules)
unfolding evaluate_commands
evaluate_commands_lem backend product modules =
    let claims = builtins backend ++ (product ++ modules) in
    let (all, once, free, sum) = resolve_claims-Accepts [] claims in
    (all, once, sum, (forth claims all once, back claims), resolve_claims-all [] claims)
  where
    forth :
        (claims : List CommandClaim)
        → All IsAdmissible (resolve_claims [] claims).0
        → distinct (names (resolve_claims [] claims).0) ≡ true
        → (resolve_claims [] claims).1 ≡ []
        → All IsAdmissible claims × (distinct (names claims) ≡ true)
    forth claims all once h =
        subst (λ l. All IsAdmissible l × (distinct (names l) ≡ true))
          (resolve_claims-all [] claims h) (all, once)

    back :
        (claims : List CommandClaim)
        → All IsAdmissible claims × (distinct (names claims) ≡ true)
        → (resolve_claims [] claims).1 ≡ []
    back claims (all, once) =
        ap (λ (r : List CommandClaim × List Violation). r.1)
          (resolve_claims-clean [] claims all once (unclaimed-nil (names claims)))
