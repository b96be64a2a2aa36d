-- ===== src/Users/Caller.antt =====
-- The verified caller of a package route, template/services/backend/src/app/caller_identity.py.
pub mod Presented
use Prim.Native.Char.{Char, code}
use Prim.Native.String.{◌++◌ as str_append}
use text.Mathlib.TextEquality.{eq_iff}
use text.Mathlib.TextLemmas.{cons-append, nil-append, head-eq_of_cons-eq, tail-eq_of_cons-eq}
use mathlib.Core.Path.{subst}
use codegen_product_kit.Base.{
  ap₂, ◌↔◌, ◌⊎◌, ℕ, ◌≡◌, refl, String, Bool, true, false, ◌&&◌, Option, none, some, List, [], ◌∷◌,
  if◌then◌else◌, ◌==◌, leb, ltb, str_eq, Http, ok, http_error, arith, length, Bool-cases,
  Option-cases, inl, inr, ap, ◌∙◌, sym, All, ◌≤◌, ◌≢◌,
}
use codegen_product_kit.Base.Sorting.{any}
use codegen_product_kit.Users.{UserStatus, active, inactive, Tables, Identity, get_channel}
use codegen_product_kit.Users.Access.{get_channel-names}

abbrev pub max_channel_length : ℕ
max_channel_length = 64

abbrev pub max_external_id_length : ℕ
max_external_id_length = 256

-- The code points of a text.
unfoldable pub codes : String → List ℕ
codes String.[] = []
codes (String.◌∷◌ c s) = code c ∷ codes s

-- `isascii` and `isprintable` at once: from the space to the tilde.
abbrev pub is_plain : ℕ → Bool
is_plain c = leb 32 c && leb c 126

abbrev pub all_plain : List ℕ → Bool
all_plain [] = true
all_plain (c ∷ l) = is_plain c && all_plain l

abbrev pub checked : String → ℕ → Option String
checked value max_length =
    if ltb 0 (length (codes value))
      && leb (length (codes value)) max_length
      && all_plain (codes value)
    then some value
    else none

-- `_single_header`, on the values that the request presents under a name.
unfoldable pub single_header : List String → ℕ → Option String
unfolding codes
single_header [] max_length = checked "" max_length
single_header (v ∷ []) max_length = checked v max_length
single_header (v ∷ w ∷ l) max_length = checked "" max_length

-- The three headers that are read, each with all its values.
pub record Request : Type 0 where
  pub capability : List String
  pub user_channel : List String
  pub user_external_id : List String

abbrev pub presented : String → Option String → Bool
presented expected none = false
presented expected (some value) = str_eq value expected

-- `_require_capability`; `compare_digest` is equality.
unfoldable pub has_capability : String → Request → Bool
unfolding codes single_header
has_capability expected r =
    presented expected (single_header r.capability (length (codes expected)))

-- `":" in channel`
unfoldable pub has_colon : String → Bool
unfolding codes
has_colon channel = any (λ c. c == 58) (codes channel)

abbrev pub both : Option String → Option String → Option (String × String)
both none e = none
both (some c) none = none
both (some c) (some e) = if has_colon c then none else some (c, e)

-- `_channel_identity`: `none` is its 401.
unfoldable pub channel_identity : Request → Option (String × String)
unfolding single_header
channel_identity r =
    both (single_header r.user_channel max_channel_length)
      (single_header r.user_external_id max_external_id_length)

unfoldable pub canonical : String → String → String
canonical channel external_id = str_append channel (str_append ":" external_id)

abbrev is_active : UserStatus → Bool
is_active active = true
is_active inactive = false

abbrev admitted : Option Identity → Http String
admitted none = http_error 403
admitted (some i) =
    if is_active i.status then ok (canonical i.channel i.external_id) else http_error 403

abbrev identified : Tables → Option (String × String) → Http String
identified db none = http_error 401
identified db (some (c, e)) = admitted (get_channel c e db)

-- `caller_identity`
unfoldable pub caller_identity : String → Request → Tables → Http String
caller_identity expected r db =
    if has_capability expected r then identified db (channel_identity r) else http_error 401

abbrev colon : Char
colon = ":"

no_colon_head : (x : Char) (s : String) → has_colon (String.◌∷◌ x s) ≡ false → colon ≡ x → ⊥
unfolding has_colon
no_colon_head x s h p = cc (subst (λ (y : Char). (code y == 58) ≡ true) p refl, no_colon_code x s h)
  where
    no_colon_code :
        (y : Char) (t : String) → has_colon (String.◌∷◌ y t) ≡ false → (code y == 58) ≡ false
    no_colon_code y t k = ground arith

no_colon_tail : (x : Char) (s : String) → has_colon (String.◌∷◌ x s) ≡ false → has_colon s ≡ false
unfolding has_colon
no_colon_tail x s h = ground arith

canonical-cons :
    (x : Char) (c e : String) → canonical (String.◌∷◌ x c) e ≡ String.◌∷◌ x (canonical c e)
unfolding canonical
canonical-cons x c e = cons-append x c (str_append ":" e)

canonical-nil : (e : String) → canonical "" e ≡ String.◌∷◌ colon e
unfolding canonical
canonical-nil e =
    nil-append (str_append ":" e) ∙ cons-append colon "" e ∙ ap (String.◌∷◌ colon) (nil-append e)

-- A channel has no colon, so the canonical text names one identity only.
canonical_inj :
    (c c' e e' : String)
    → has_colon c ≡ false
    → has_colon c' ≡ false
    → canonical c e ≡ canonical c' e'
    → (c ≡ c') × (e ≡ e')
canonical_inj String.[] String.[] e e' h h' p =
    (refl, tail-eq_of_cons-eq (sym (canonical-nil e) ∙ p ∙ canonical-nil e'))
canonical_inj String.[] (String.◌∷◌ y c') e e' h h' p = absurd (
    no_colon_head y c' h' (head-eq_of_cons-eq (sym (canonical-nil e) ∙ p ∙ canonical-cons y c' e')))
canonical_inj (String.◌∷◌ x c) String.[] e e' h h' p = absurd (
    no_colon_head x c h
      (sym (head-eq_of_cons-eq (sym (canonical-cons x c e) ∙ p ∙ canonical-nil e'))))
canonical_inj (String.◌∷◌ x c) (String.◌∷◌ y c') e e' h h' p =
    let q = sym (canonical-cons x c e) ∙ p ∙ canonical-cons y c' e' in
    let (same, rest) =
      canonical_inj c c' e e' (no_colon_tail x c h) (no_colon_tail y c' h')
        (tail-eq_of_cons-eq q) in
    (ap₂ String.◌∷◌ (head-eq_of_cons-eq q) same, rest)

channel_identity-no_colon :
    (r : Request) {c e : String} → channel_identity r ≡ some (c, e) → has_colon c ≡ false
unfolding channel_identity
channel_identity-no_colon r {c} {e} h =
    elim (Option-cases (single_header r.user_channel max_channel_length)) [
      | inl n ↦ ground arith
      | inr (x, f) ↦ elim (Option-cases (single_header r.user_external_id max_external_id_length)) [
        | inl n ↦ ground arith
        | inr (y, g) ↦ elim (Bool-cases (has_colon x)) [
          | inl yes_colon ↦ ground arith
          | inr n ↦ ground arith
        ]
      ]
    ]

status_cases : (s : UserStatus) → (s ≡ active) ⊎ (s ≡ inactive)
status_cases active = inl refl
status_cases inactive = inr refl

ok_inj : {a b : String} → ok a ≡ ok b → a ≡ b
ok_inj h = cc h

http_error_ok : {n : ℕ} {a : String} → http_error n ≡ ok a → ⊥
http_error_ok h = cc h

admitted_to :
    (o : Option Identity) (text : String)
    → admitted o ≡ ok text
    → (i : Identity) × (o ≡ some i)
      × (i.status ≡ active)
      × (canonical i.channel i.external_id ≡ text)
admitted_to none text h = absurd (cc h)
admitted_to (some i) text h = elim (status_cases i.status) [
  | inl a ↦ (
    i,
    refl,
    a,
    ok_inj (
        subst
          (λ b.
            (if is_active b then ok (canonical i.channel i.external_id) else http_error 403)
            ≡ ok text)
          a h),
  )
  | inr a ↦ absurd (
      http_error_ok (
        subst
          (λ b.
            (if is_active b then ok (canonical i.channel i.external_id) else http_error 403)
            ≡ ok text)
          a h))
]

identified_to :
    (db : Tables) (o : Option (String × String)) (text : String)
    → identified db o ≡ ok text
    → (c : String) × (e : String) × (o ≡ some (c, e))
      × ((i : Identity) × (get_channel c e db ≡ some i) × (i.status ≡ active))
      × (text ≡ canonical c e)
identified_to db none text h = absurd (cc h)
identified_to db (some (c, e)) text h =
    let (i, f, a, t) = admitted_to (get_channel c e db) text h in
    let (p, q) = get_channel-names c e db {i = i} f in
    (c, e, refl, (i, f, a), sym t ∙ ap₂ canonical p q)

identified_from :
    (db : Tables) (c e : String) (i : Identity)
    → get_channel c e db ≡ some i
    → i.status ≡ active
    → identified db (some (c, e)) ≡ ok (canonical c e)
identified_from db c e i f a =
    let (p, q) = get_channel-names c e db {i = i} f in
    ap admitted f ∙ rw a (ap ok (ap₂ canonical p q))

-- The parts that a verified caller presents.
pub caller_identity-by_parts :
    (expected : String) (r : Request) (db : Tables) (text : String)
    → (caller_identity expected r db ≡ ok text) ↔ (
        (has_capability expected r ≡ true)
        × ((c : String) × (e : String) × (channel_identity r ≡ some (c, e))
            × ((i : Identity) × (get_channel c e db ≡ some i) × (i.status ≡ active))
            × (text ≡ canonical c e)))
unfolding caller_identity
caller_identity-by_parts expected r db text = elim (Bool-cases (has_capability expected r)) [
  | inl b ↦ rw b (
    (λ h. (refl, identified_to db (channel_identity r) text h)),
    (λ (_, (c, e, f, (i, g, a), t)).
        ap (identified db) f ∙ identified_from db c e i g a ∙ ap ok (sym t)),
  )
  | inr b ↦ rw b ((λ h. absurd (http_error_ok h)), (λ (p, _). absurd (cc p)))
]

-- If two requests, each on its own tables, are verified as the same text, they presented the same
-- channel and the same external id.
pub caller_identity_inj :
    (expected : String) (r r' : Request) (db db' : Tables) (text : String)
    → caller_identity expected r db ≡ ok text
    → caller_identity expected r' db' ≡ ok text
    → channel_identity r ≡ channel_identity r'
caller_identity_inj expected r r' db db' text h h' =
    let (a, (c, e, f, i, t)) = (caller_identity-by_parts expected r db text).0 h in
    let (a', (c', e', f', i', t')) = (caller_identity-by_parts expected r' db' text).0 h' in
    let (p, q) =
      canonical_inj c c' e e' (channel_identity-no_colon r f) (channel_identity-no_colon r' f')
        (sym t ∙ t') in
    f ∙ (λ j. some (p j, q j)) ∙ sym f'
