-- ===== src/Host/Declarations.antt =====
-- What a product declares in its command module, framework/host_contract.py: the calls are syntax trees.
-- A refusal is named; its text is left out. `unparse` is of the standard library.
pub mod Bound
use mathlib.Core.Path.{subst}
use codegen_product_kit.Base.{
  ℕ, ◌≡◌, String, Bool, true, false, ◌&&◌, ◌||◌, not, Option, none, some, List, [], ◌∷◌, ◌++◌,
  if◌then◌else◌, str_eq, is_some, ltb, length, suc, ◌+◌, ◌∙◌, length-append, Bool-cases, inl, inr,
  arith, eq_iff, refl, sym, ap,
}
use codegen_product_kit.Base.Dict.{Dict, lookup, insert, lookup-insert}
use codegen_product_kit.Base.Sorting.{any, any-append}
use codegen_product_kit.Host.{Location, is_command}

-- An expression of Python; the arguments and the keywords of a call.
mutual
  pub data Expr : Type 0 where
    name : String → Expr
    attribute : Expr → String → Expr
    call : Expr → Args → Keywords → Expr
    string : String → Expr
    starred : Expr → Expr
    tuple : Args → Expr
    other : String → Expr

  pub data Args : Type 0 where
    nil : Args
    cons : Expr → Args → Args

  -- A keyword with no name unpacks a mapping.
  pub data Keywords : Type 0 where
    end : Keywords
    keyword : Option String → Expr → Keywords → Keywords

pub data Refusal : Type 0 where
  not_a_call unpacked too_many unknown_argument given_twice missing_argument : Refusal
  name_not_a_string handler_not_a_function : Refusal

pub data Admitted {ℓ} (A : Type ℓ) : Type ℓ where
  admitted : A → Admitted A
  refused : Refusal → Admitted A

abbrev is_starred : Expr → Bool
is_starred (starred e) = true
is_starred _ = false

abbrev pub any_starred : Args → Bool
any_starred nil = false
any_starred (cons e l) = is_starred e || any_starred l

abbrev pub any_unpacked : Keywords → Bool
any_unpacked end = false
any_unpacked (keyword k e l) = not (is_some k) || any_unpacked l

abbrev pub count_args : Args → ℕ
count_args nil = 0
count_args (cons e l) = suc (count_args l)

-- `dict(zip(parameters, node.args))`
abbrev pub zipped : List String → Args → Dict Expr
zipped [] l = []
zipped (p ∷ ps) nil = []
zipped (p ∷ ps) (cons e l) = (p, e) ∷ zipped ps l

abbrev pub occurs : List String → String → Bool
occurs l s = any (λ t. str_eq t s) l

-- The loop over the keywords.
unfoldable pub bind_keywords : List String → Keywords → Dict Expr → Admitted (Dict Expr)
unfolding lookup insert
bind_keywords parameters end arguments = admitted arguments
bind_keywords parameters (keyword none e l) arguments = refused unpacked
bind_keywords parameters (keyword (some k) e l) arguments =
    let rest = bind_keywords parameters l (insert k e arguments) in
    if not (occurs parameters k)
    then refused unknown_argument
    else if is_some (lookup k arguments)
    then refused given_twice
    else rest

-- `set(arguments) == set(parameters)`, the one inclusion and the other.
abbrev pub covers : Dict Expr → List String → Bool
covers arguments [] = true
covers arguments (p ∷ ps) = is_some (lookup p arguments) && covers arguments ps

abbrev pub are_known : List String → Dict Expr → Bool
are_known parameters [] = true
are_known parameters ((k, e) ∷ d) = occurs parameters k && are_known parameters d

abbrev pub complete : List String → Admitted (Dict Expr) → Admitted (Dict Expr)
complete parameters (refused r) = refused r
complete parameters (admitted arguments) =
    if covers arguments parameters && are_known parameters arguments
    then admitted arguments
    else refused missing_argument

-- `_call_arguments`
unfoldable pub call_arguments : Args → Keywords → List String → Admitted (Dict Expr)
unfolding bind_keywords lookup
call_arguments args keywords parameters =
    if any_starred args || any_unpacked keywords
    then refused unpacked
    else if ltb (length parameters) (count_args args)
    then refused too_many
    else complete parameters (bind_keywords parameters keywords (zipped parameters args))

abbrev is_kind : String → Expr → Bool
is_kind kind (name n) = str_eq n kind
is_kind kind (attribute e n) = str_eq n kind
is_kind kind _ = false

abbrev named_handler :
    (Expr → String) → Option String → Option Expr → Admitted (Option String × String)
named_handler unparse n (some (name h)) = admitted (n, unparse (name h))
named_handler unparse n (some (attribute e h)) = admitted (n, unparse (attribute e h))
named_handler unparse n _ = refused handler_not_a_function

abbrev named : (Expr → String) → Option Expr → Option Expr → Admitted (Option String × String)
named unparse none handler = named_handler unparse none handler
named unparse (some (string n)) handler = named_handler unparse (some n) handler
named unparse (some e) handler = refused name_not_a_string

abbrev of_arguments : (Expr → String) → Admitted (Dict Expr) → Admitted (Option String × String)
of_arguments unparse (refused r) = refused r
of_arguments unparse (admitted d) = named unparse (lookup "name" d) (lookup "handler" d)

-- `_declaration`: the name, if the kind has one, and the handler.
pub declaration : (Expr → String) → Expr → String → List String → Admitted (Option String × String)
unfolding call_arguments lookup
declaration unparse (call f args keywords) kind parameters =
    if is_kind kind f
    then of_arguments unparse (call_arguments args keywords parameters)
    else refused not_a_call
declaration unparse e kind parameters = refused not_a_call

-- One callback, `InputClaim`; the handler's symbol.
pub record InputClaim : Type 0 where
  pub callback : String
  pub location : Location
  pub symbol : String

abbrev pub is_declared : List InputClaim → String → Bool
is_declared callbacks n = any (λ (c : InputClaim). str_eq c.callback n) callbacks

-- The loop of `_callback_claims` over the entries: the callbacks, and the names that are refused.
pub callback_claims : List InputClaim → List InputClaim → List InputClaim × List String
callback_claims [] callbacks = (callbacks, [])
callback_claims (e ∷ entries) callbacks =
    elim (not (is_command e.callback) || is_declared callbacks e.callback) [
      | true ↦ let (kept, wrong) = callback_claims entries callbacks in (kept, e.callback ∷ wrong)
      | false ↦ callback_claims entries (callbacks ++ e ∷ [])
    ]
