-- ===== src/Host/Declarations/Bound.antt =====
-- The arguments that a declaration binds, and the callbacks that are declared.
use mathlib.Core.Path.{subst}
use codegen_product_kit.Base.{
  ℕ, ◌≡◌, String, Bool, true, false, ◌||◌, not, none, some, List, [], ◌∷◌, ◌++◌, if◌then◌else◌,
  Option, is_some, ◌≤◌, ◌&&◌, Bool-cases, inl, inr, str_eq, ltb, length, suc, ◌+◌, ◌∙◌,
  length-append, arith, eq_iff, refl, ap,
}
use codegen_product_kit.Base.Dict.{Dict, lookup, insert, lookup-insert}
use codegen_product_kit.Base.Sorting.{any-append}
use codegen_product_kit.Host.{is_command}
use codegen_product_kit.Host.Declarations.{
  Expr, Args, Keywords, nil, cons, end, keyword, unpacked, too_many, Admitted, admitted, refused,
  any_starred, any_unpacked, count_args, zipped, occurs, bind_keywords, covers, are_known, complete,
  call_arguments, InputClaim, is_declared, callback_claims,
}

-- The callbacks have well-formed names and differ pairwise.
abbrev pub AreCallbacks : List InputClaim → Type 0
AreCallbacks [] = Unit
AreCallbacks (c ∷ l) =
    (is_command c.callback ≡ true) × (is_declared l c.callback ≡ false) × AreCallbacks l

abbrev pub AreDistinct : List String → Type 0
AreDistinct [] = Unit
AreDistinct (p ∷ ps) = (occurs ps p ≡ false) × AreDistinct ps

-- What a call gives to a name: by position, and by each keyword of that name.
abbrev by_position : List String → Args → String → List Expr
by_position [] l k = []
by_position (p ∷ ps) nil k = []
by_position (p ∷ ps) (cons e l) k =
    let rest = by_position ps l k in if str_eq p k then e ∷ rest else rest

abbrev by_keyword : Keywords → String → List Expr
by_keyword end k = []
by_keyword (keyword none e l) k = by_keyword l k
by_keyword (keyword (some j) e l) k =
    let rest = by_keyword l k in if str_eq j k then e ∷ rest else rest

abbrev pub given : List String → Args → Keywords → String → List Expr
given parameters args keywords k = by_position parameters args k ++ by_keyword keywords k

abbrev pub as_list : Option Expr → List Expr
as_list none = []
as_list (some e) = e ∷ []

-- Each name is bound to the one expression that the call gives it, and it is bound if it is a parameter.
abbrev pub IsBound : List String → Args → Keywords → Dict Expr → Type 0
IsBound parameters args keywords arguments =
    (k : String)
    → (as_list (lookup k arguments) ≡ given parameters args keywords k)
      × (is_some (lookup k arguments) ≡ occurs parameters k)

by_position-absent :
    (ps : List String) (l : Args) (k : String) → occurs ps k ≡ false → by_position ps l k ≡ []
by_position-absent [] l k h = refl
by_position-absent (p ∷ ps) nil k h = refl
by_position-absent (p ∷ ps) (cons e l) k h = ground (arith, by_position-absent ps l k)

zipped_lem :
    (ps : List String) (l : Args) (k : String)
    → AreDistinct ps
    → as_list (lookup k (zipped ps l)) ≡ by_position ps l k
unfolding lookup
zipped_lem [] l k d = refl
zipped_lem (p ∷ ps) nil k d = refl
zipped_lem (p ∷ ps) (cons e l) k d = elim (Bool-cases (str_eq p k)) [
  | inl y ↦
      rw (y, by_position-absent ps l k (subst (λ j. occurs ps j ≡ false) ((eq_iff p k).0 y) d.0))
        refl
  | inr n ↦ rw n (zipped_lem ps l k d.1)
]

is_some-false : (o : Option Expr) → is_some o ≡ false → o ≡ none
is_some-false none h = refl
is_some-false (some e) h = cc h

as_list-append : (o : Option Expr) → as_list o ≡ as_list o ++ []
as_list-append none = refl
as_list-append (some e) = refl

as_list-insert :
    (j k : String) (a : Expr) (before : Dict Expr) (rest : List Expr)
    → is_some (lookup j before) ≡ false
    → as_list (lookup k (insert j a before)) ++ rest
      ≡ as_list (lookup k before) ++ (if str_eq j k then a ∷ rest else rest)
as_list-insert j k a before rest n =
    rw (lookup-insert j k a before) (elim (Bool-cases (str_eq j k)) [
      | inl y ↦
          rw
            (
              y,
              is_some-false (lookup k before)
                  (subst (λ i. is_some (lookup i before) ≡ false) ((eq_iff j k).0 y) n),
            )
            refl
      | inr m ↦ rw m refl
    ])

bind_keywords_lem :
    (parameters : List String) (l : Keywords) (before after : Dict Expr) (k : String)
    → bind_keywords parameters l before ≡ admitted after
    → as_list (lookup k after) ≡ as_list (lookup k before) ++ by_keyword l k
unfolding bind_keywords
bind_keywords_lem parameters end before after k h =
    let same : after ≡ before = cc in
    ap (λ d. as_list (lookup k d)) same ∙ as_list-append (lookup k before)
bind_keywords_lem parameters (keyword none a l) before after k h = cc h
bind_keywords_lem parameters (keyword (some j) a l) before after k h =
    bind_keywords_lem parameters l (insert j a before) after k (ground arith)
    ∙ as_list-insert j k a before (by_keyword l k) (ground arith)

covers-occurs :
    (d : Dict Expr) (ps : List String) (k : String)
    → covers d ps ≡ true
    → occurs ps k ≡ true
    → is_some (lookup k d) ≡ true
covers-occurs d [] k h o = cc o
covers-occurs d (p ∷ ps) k h o = ground (arith, covers-occurs d ps k, eq_iff p k)

are_known-lookup :
    (ps : List String) (d : Dict Expr) (k : String)
    → are_known ps d ≡ true
    → is_some (lookup k d) ≡ true
    → occurs ps k ≡ true
unfolding lookup
are_known-lookup ps [] k h o = cc o
are_known-lookup ps ((j, e) ∷ d) k h o = ground (arith, are_known-lookup ps d k, eq_iff j k)

same_names :
    (ps : List String) (d : Dict Expr) (k : String)
    → covers d ps ≡ true
    → are_known ps d ≡ true
    → is_some (lookup k d) ≡ occurs ps k
same_names ps d k c n = ground (arith, covers-occurs d ps k c, are_known-lookup ps d k n)

complete_lem :
    (parameters : List String) (r : Admitted (Dict Expr)) (arguments : Dict Expr)
    → complete parameters r ≡ admitted arguments
    → (r ≡ admitted arguments)
      × (covers arguments parameters ≡ true)
      × (are_known parameters arguments ≡ true)
complete_lem parameters (refused x) arguments h = ground arith
complete_lem parameters (admitted d) arguments h =
    elim (Bool-cases (covers d parameters && are_known parameters d)) [
      | inl y ↦
          let same : d ≡ arguments = ground arith in
          let (c, n) =
            subst (λ x. (covers x parameters ≡ true) × (are_known parameters x ≡ true)) same
              (ground arith, ground arith) in
          (ap admitted same, c, n)
      | inr n ↦ absurd (ground arith)
    ]

past_tests :
    (a b c : Bool) (r : Admitted (Dict Expr)) (arguments : Dict Expr)
    → (if a || b then refused unpacked else if c then refused too_many else r) ≡ admitted arguments
    → (a ≡ false) × (b ≡ false) × (c ≡ false) × (r ≡ admitted arguments)
past_tests a b c r arguments h = ground arith

-- An accepted call, for parameters that differ, unpacks nothing and has no more positional arguments than
-- there are parameters, so that the first parameters take them in order; every parameter is bound to
-- the one expression that the call gives it, by position or by keyword but not by two of them, and no
-- other name is given anything or bound.
pub call_arguments-IsBound :
    (args : Args) (keywords : Keywords) (parameters : List String) (arguments : Dict Expr)
    → AreDistinct parameters
    → call_arguments args keywords parameters ≡ admitted arguments
    → (any_starred args ≡ false)
      × (any_unpacked keywords ≡ false)
      × (count_args args ≤ length parameters)
      × IsBound parameters args keywords arguments
unfolding call_arguments
call_arguments-IsBound args keywords parameters arguments d h =
    let (plain, named, few, all) =
      past_tests (any_starred args) (any_unpacked keywords)
        (ltb (length parameters) (count_args args))
        (complete parameters (bind_keywords parameters keywords (zipped parameters args))) arguments
        h in
    let (bound, c, n) =
      complete_lem parameters (bind_keywords parameters keywords (zipped parameters args)) arguments
        all in
    (
      plain,
      named,
      ground arith,
      λ k. (
        bind_keywords_lem parameters keywords (zipped parameters args) arguments k bound
            ∙ ap (λ l. l ++ by_keyword keywords k) (zipped_lem parameters args k d),
        same_names parameters arguments k c n,
      ),
    )

AreCallbacks-append :
    (l : List InputClaim) (c : InputClaim)
    → AreCallbacks l
    → is_command c.callback ≡ true
    → is_declared l c.callback ≡ false
    → AreCallbacks (l ++ c ∷ [])
AreCallbacks-append [] c h v n = (v, refl, tt)
AreCallbacks-append (x ∷ l) c (vx, nx, rest) v n = (
  vx,
  any-append (λ (y : InputClaim). str_eq y.callback x.callback) l (c ∷ [])
      ∙ ground (arith, eq_iff x.callback c.callback, eq_iff c.callback x.callback),
  AreCallbacks-append l c rest v (ground arith),
)

abbrev pub AreClaimed : ℕ → List InputClaim × List String → Type 0
AreClaimed n r = AreCallbacks r.0 × (length r.0 + length r.1 ≡ n)

valid_and_new : (a b : Bool) → (not a || b) ≡ false → (a ≡ true) × (b ≡ false)
valid_and_new a b h = (ground arith, ground arith)

-- Every entry of a product's callbacks becomes a callback or is refused, and the callbacks have
-- well-formed names and differ pairwise.
pub callback_claims-AreClaimed :
    (entries callbacks : List InputClaim)
    → AreCallbacks callbacks
    → AreClaimed (length callbacks + length entries) (callback_claims entries callbacks)
unfolding callback_claims
callback_claims-AreClaimed [] callbacks h = (h, refl)
callback_claims-AreClaimed (e ∷ entries) callbacks h =
    by_test (not (is_command e.callback) || is_declared callbacks e.callback) refl
      (callback_claims-AreClaimed entries callbacks h)
      (callback_claims-AreClaimed entries (callbacks ++ e ∷ []))
  where
    by_test :
        (b : Bool)
        → (not (is_command e.callback) || is_declared callbacks e.callback) ≡ b
        → AreClaimed (length callbacks + length entries) (callback_claims entries callbacks)
        → (AreCallbacks (callbacks ++ e ∷ [])
            → AreClaimed
                (length (callbacks ++ e ∷ []) + length entries)
                (callback_claims entries (callbacks ++ e ∷ [])))
        → AreClaimed (length callbacks + suc (length entries)) (elim b [
          | true ↦
              let (kept, wrong) = callback_claims entries callbacks in (kept, e.callback ∷ wrong)
          | false ↦ callback_claims entries (callbacks ++ e ∷ [])
        ])
    by_test true t wrong next = (wrong.0, omega (arith, wrong.1))
    by_test false t wrong next =
        let (v, n) = valid_and_new (is_command e.callback) (is_declared callbacks e.callback) t in
        let (are, sum) = next (AreCallbacks-append callbacks e h v n) in
        (are, omega (arith, sum, length-append callbacks (e ∷ [])))
