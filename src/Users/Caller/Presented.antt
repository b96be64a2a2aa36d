-- ===== src/Users/Caller/Presented.antt =====
-- What a request presents when its caller is verified.
use Prim.Native.String.{◌++◌ as str_append}
use text.Mathlib.TextEquality.{eq_iff}
use mathlib.Core.Path.{subst}
use codegen_product_kit.Base.{
  ◌↔◌, ℕ, ◌≡◌, refl, String, true, false, Option, none, some, List, [], ◌∷◌, ◌==◌, ok, arith,
  length, Bool-cases, Option-cases, inl, inr, ap, ◌∙◌, sym, All, ◌≤◌, ◌≢◌,
}
use codegen_product_kit.Base.Sorting.{any}
use codegen_product_kit.Users.{active, Tables, Identity, get_channel}
use codegen_product_kit.Users.Caller.{
  max_channel_length, max_external_id_length, codes, all_plain, checked, single_header, Request,
  has_capability, has_colon, both, channel_identity, canonical, caller_identity,
  caller_identity-by_parts,
}

-- A text that one header can carry: not empty, at most so long, and printable ASCII throughout.
abbrev pub IsHeaderText : ℕ → String → Type 0
IsHeaderText max_length s =
    (1 ≤ length (codes s))
    × (length (codes s) ≤ max_length)
    × All (λ c. (32 ≤ c) × (c ≤ 126)) (codes s)

all_plain_iff : (l : List ℕ) → (all_plain l ≡ true) ↔ All (λ c. (32 ≤ c) × (c ≤ 126)) l
all_plain_iff [] = (λ h. tt, λ h. refl)
all_plain_iff (c ∷ l) = (
  λ h. (ground arith, (all_plain_iff l).0 (ground arith)),
  λ (h, k). ground (arith, (all_plain_iff l).1 k),
)

checked_iff :
    (value : String) (n : ℕ) (s : String)
    → (checked value n ≡ some s) ↔ ((value ≡ s) × IsHeaderText n s)
checked_iff value n s = (
  λ h. elim (Bool-cases (all_plain (codes value))) [
    | inl y ↦
        let same : value ≡ s = ground arith in
        (
          same,
          subst (IsHeaderText n) same
              (ground arith, ground arith, (all_plain_iff (codes value)).0 y),
        )
    | inr k ↦ absurd (ground arith)
  ],
  λ (e, (a, b, k)).
      subst (λ v. checked v n ≡ some s) (sym e) (ground (arith, (all_plain_iff (codes s)).1 k)),
)

-- One value, which is a header text, is all that is taken.
single_header_iff :
    (l : List String) (n : ℕ) (s : String)
    → (single_header l n ≡ some s) ↔ ((l ≡ s ∷ []) × IsHeaderText n s)
unfolding single_header codes
single_header_iff [] n s = (λ h. absurd (cc h), λ (e, k). absurd (cc e))
single_header_iff (v ∷ []) n s = (
  λ h. let (e, k) = (checked_iff v n s).0 h in (ap (λ t. t ∷ []) e, k),
  λ (e, k). (checked_iff v n s).1 (cc e, k),
)
single_header_iff (v ∷ w ∷ l) n s = (λ h. absurd (cc h), λ (e, k). absurd (cc e))

has_colon_iff : (s : String) → (has_colon s ≡ false) ↔ All (λ c. c ≢ 58) (codes s)
unfolding has_colon
has_colon_iff s = any_iff (codes s)
  where
    any_iff : (l : List ℕ) → (any (λ c. c == 58) l ≡ false) ↔ All (λ c. c ≢ 58) l
    any_iff [] = (λ h. tt, λ h. refl)
    any_iff (c ∷ l) = (
      λ h. (λ e. ground arith, (any_iff l).0 (ground arith)),
      λ (h, k). ground (arith, (any_iff l).1 k),
    )

has_capability_iff :
    (expected : String) (r : Request)
    → (has_capability expected r ≡ true)
      ↔ ((r.capability ≡ expected ∷ []) × IsHeaderText (length (codes expected)) expected)
unfolding has_capability
has_capability_iff expected r =
    let n = length (codes expected) in
    let same = single_header_iff r.capability n expected in
    (
      λ h. elim (Option-cases (single_header r.capability n)) [
        | inl e ↦ absurd (ground arith)
        | inr (v, e) ↦ same.0 (e ∙ ap some ((eq_iff v expected).0 (ground arith)))
      ],
      λ h. rw (same.1 h) ((eq_iff expected expected).1 refl),
    )

-- The headers name the identity: each has one value, and the channel has no colon.
abbrev pub Names : Request → String → String → Type 0
Names r c e =
    (r.user_channel ≡ c ∷ [])
    × (r.user_external_id ≡ e ∷ [])
    × IsHeaderText 64 c
    × IsHeaderText 256 e
    × All (λ x. x ≢ 58) (codes c)

both_iff :
    (o p : Option String) (c e : String)
    → (both o p ≡ some (c, e)) ↔ ((o ≡ some c) × (p ≡ some e) × (has_colon c ≡ false))
both_iff none p c e = (λ h. absurd (cc h), λ (h, k, n). absurd (cc h))
both_iff (some x) none c e = (λ h. absurd (cc h), λ (h, k, n). absurd (cc k))
both_iff (some x) (some y) c e = (
  λ h. elim (Bool-cases (has_colon x)) [ inl b ↦ absurd (ground arith) | inr b ↦ ground arith ],
  λ (h, k, n). ground arith,
)

channel_identity_iff :
    (r : Request) (c e : String) → (channel_identity r ≡ some (c, e)) ↔ Names r c e
unfolding channel_identity
channel_identity_iff r c e =
    let channel = single_header_iff r.user_channel max_channel_length c in
    let external = single_header_iff r.user_external_id max_external_id_length e in
    let parts =
      both_iff (single_header r.user_channel max_channel_length)
        (single_header r.user_external_id max_external_id_length) c e in
    (
      λ h.
          let (p, q, n) = parts.0 h in
          let (cs, ch) = channel.0 p in
          let (es, eh) = external.0 q in (cs, es, ch, eh, (has_colon_iff c).0 n),
      λ (cs, es, ch, eh, n).
          parts.1 (channel.1 (cs, ch), external.1 (es, eh), (has_colon_iff c).1 n),
    )

-- A caller is verified exactly if the request presents the expected capability, which is printable
-- ASCII and not empty, as the only value of its header; one channel of 1 to 64 and one external id of 1
-- to 256 printable ASCII characters, with no colon in the channel; and the tables have that identity,
-- active. Then the result is the canonical text of the identity.
pub caller_identity_iff :
    (expected : String) (r : Request) (db : Tables) (text : String)
    → (caller_identity expected r db ≡ ok text) ↔ (
        (r.capability ≡ expected ∷ [])
        × IsHeaderText (length (codes expected)) expected
        × ((c : String) × (e : String) × Names r c e
            × ((i : Identity) × (get_channel c e db ≡ some i) × (i.status ≡ active))
            × (text ≡ str_append c (str_append ":" e))))
unfolding canonical
caller_identity_iff expected r db text =
    let parts = caller_identity-by_parts expected r db text in
    let capability = has_capability_iff expected r in
    (
      λ h.
          let (p, (c, e, f, i, t)) = parts.0 h in
          let (one, plain) = capability.0 p in
          (one, plain, (c, e, (channel_identity_iff r c e).0 f, i, t)),
      λ (one, plain, (c, e, n, i, t)).
          parts.1 (capability.1 (one, plain), (c, e, (channel_identity_iff r c e).1 n, i, t)),
    )
