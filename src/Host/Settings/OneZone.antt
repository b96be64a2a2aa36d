-- ===== src/Host/Settings/OneZone.antt =====
-- Bindings without a violation share one time zone and the core's language.
use mathlib.Core.Path.{subst}
use codegen_product_kit.Base.{
  ℕ, ◌≡◌, ◌≢◌, refl, sym, ap, ◌∙◌, String, Bool, true, false, Option, none, some, List, [], ◌∷◌,
  ◌++◌, str_eq, arith, eq_iff, All,
}
use codegen_product_kit.Host.{Violation}
use codegen_product_kit.Host.Settings.{
  Binding, language_key, language_violations, timezone_violation, differs, timezone_conflict,
  set_default, binding_setting_violations,
}

-- A binding reads the core's language, if any, and the time zone under the key, if any, which is not the
-- core's.
abbrev pub ReadsTimezone : String → Option String → Type 0
ReadsTimezone zone none = Unit
ReadsTimezone zone (some key) = (key ≡ zone) × (key ≢ language_key)

abbrev pub ReadsLanguage : Option String → Type 0
ReadsLanguage none = Unit
ReadsLanguage (some key) = key ≡ language_key

abbrev pub Reads : String → Binding → Type 0
Reads zone b = ReadsLanguage b.language × ReadsTimezone zone b.timezone

nothing_left {ℓ} : {A : Type ℓ} (l r : List A) → l ++ r ≡ [] → (l ≡ []) × (r ≡ [])
nothing_left [] r h = (refl, h)
nothing_left (x ∷ l) r h = cc

core_language :
    (line : String → String → Option ℕ) (b : Binding) (o : Option String)
    → language_violations line b o ≡ []
    → ReadsLanguage o
core_language line b none h = tt
core_language line b (some key) h = ground (arith, eq_iff key language_key)

not_language :
    (language : Option String) (key : String) (timezones : List String)
    → timezone_conflict language key timezones ≡ false
    → (key ≢ language_key) × (differs timezones key ≡ false)
unfolding timezone_conflict
not_language language key timezones h =
    let apart : str_eq key language_key ≡ false = ground arith in
    (λ e. differ ((eq_iff key language_key).1 e) apart, ground arith)
  where
    differ : str_eq key language_key ≡ true → str_eq key language_key ≡ false → ⊥
    differ p q = ground arith

set_default-single : (zone : String) → set_default zone (zone ∷ []) ≡ zone ∷ []
set_default-single zone = ground (arith, eq_iff zone zone)

-- With one key read, another reading must be of the same.
differs-single : (zone key : String) → differs (zone ∷ []) key ≡ false → key ≡ zone
differs-single zone key h = sym ((eq_iff zone key).0 (ground arith))

module _ (line : String → String → Option ℕ) where
  -- The rest of the loop after a binding's language.
  abbrev after_zone : Binding → List String → List Binding → Option String → List Violation
  after_zone b timezones bs o = elim o [
    | none ↦ binding_setting_violations line timezones bs
    | some key ↦ elim (timezone_conflict b.language key timezones) [
      | true ↦ timezone_violation line b key ∷ binding_setting_violations line timezones bs
      | false ↦ binding_setting_violations line (set_default key timezones) bs
    ]
  ]

  no_conflict :
      (b : Binding) (timezones : List String) (bs : List Binding) (key : String)
      → after_zone b timezones bs (some key) ≡ []
      → (timezone_conflict b.language key timezones ≡ false)
        × (binding_setting_violations line (set_default key timezones) bs ≡ [])
  no_conflict b timezones bs key h = by_test (timezone_conflict b.language key timezones) h
    where
      by_test :
          (c : Bool)
          → (elim c as (λ x. List Violation) [
            | true ↦ timezone_violation line b key ∷ binding_setting_violations line timezones bs
            | false ↦ binding_setting_violations line (set_default key timezones) bs
          ])
            ≡ []
          → (c ≡ false) × (binding_setting_violations line (set_default key timezones) bs ≡ [])
      by_test true k = ground arith
      by_test false k = (refl, k)

  -- Once one time zone is read, all further ones are the same.
  single_zone :
      (zone : String) (bs : List Binding)
      → binding_setting_violations line (zone ∷ []) bs ≡ []
      → All (Reads zone) bs
  unfolding binding_setting_violations
  single_zone zone [] h = tt
  single_zone zone (b ∷ bs) h =
      let (l, r) =
        nothing_left (language_violations line b b.language)
          (after_zone b (zone ∷ []) bs b.timezone) h in
      let (z, rest) = by_zone b.timezone r (single_zone zone bs) in
      ((core_language line b b.language l, z), rest)
    where
      by_zone :
          (o : Option String)
          → after_zone b (zone ∷ []) bs o ≡ []
          → (binding_setting_violations line (zone ∷ []) bs ≡ [] → All (Reads zone) bs)
          → ReadsTimezone zone o × All (Reads zone) bs
      by_zone none k ih = (tt, ih k)
      by_zone (some key) k ih =
          let (c, v) = no_conflict b (zone ∷ []) bs key k in
          let (other, same) = not_language b.language key (zone ∷ []) c in
          let eq = differs-single zone key same in
          let kept : set_default key (zone ∷ []) ≡ zone ∷ [] =
            ap (λ x. set_default x (zone ∷ [])) eq ∙ set_default-single zone in
          ((eq, other), ih (subst (λ l. binding_setting_violations line l bs ≡ []) kept v))

  -- Without a violation every binding of version 2 reads the core's language, and all time zones are read
  -- under one key, which is not the core's.
  pub binding_setting_violations-none :
      (bs : List Binding)
      → binding_setting_violations line [] bs ≡ []
      → (zone : String) × All (Reads zone) bs
  unfolding binding_setting_violations
  binding_setting_violations-none [] h = ("", tt)
  binding_setting_violations-none (b ∷ bs) h =
      let (l, r) =
        nothing_left (language_violations line b b.language) (after_zone b [] bs b.timezone) h in
      by_zone b.timezone r (core_language line b b.language l) (binding_setting_violations-none bs)
    where
      by_zone :
          (o : Option String)
          → after_zone b [] bs o ≡ []
          → ReadsLanguage b.language
          → (binding_setting_violations line [] bs ≡ [] → (zone : String) × All (Reads zone) bs)
          → (zone : String) × ((ReadsLanguage b.language × ReadsTimezone zone o)
              × All (Reads zone) bs)
      by_zone none k l ih = let (zone, all) = ih k in (zone, ((l, tt), all))
      by_zone (some key) k l ih =
          let (c, v) = no_conflict b [] bs key k in
          let (other, _) = not_language b.language key [] c in
          (key, ((l, (refl, other)), single_zone key bs v))
