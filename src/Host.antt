-- ===== src/Host.antt =====
-- The core host contract, framework/host_contract.py: the claims of Telegram commands and the time zone
-- that bindings share. The texts of a violation are left out. A path that is a product's file and the
-- declarations that a product's module holds are data.
pub mod Declarations
pub mod Settings
mod Commands
mod Tests
use codegen_product_kit.Base.{
  ℕ, ◌≡◌, String, Bool, true, false, ◌&&◌, ◌||◌, not, Option, none, some, List, [], ◌∷◌, ◌++◌,
  if◌then◌else◌, leb, ◌==◌, str_eq, length,
}
use codegen_product_kit.Base.Dict.{Dict, lookup, insert}
use codegen_product_kit.Base.Sorting.{any}
use codegen_product_kit.Base.Texts.{codes}

pub record Location : Type 0 where
  pub path : String
  pub line : Option ℕ

pub record CommandClaim : Type 0 where
  pub command : String
  pub owner : String
  pub location : Location
  pub symbol : String

pub data Code : Type 0 where
  invalid_command command_collision reserved_command : Code
  binding_language_owner binding_setting_conflict : Code

pub record Violation : Type 0 where
  pub code : Code
  pub owner : String
  pub command : Option String
  pub key : Option String
  pub symbol : String
  pub location : Location
  pub other : Option CommandClaim

abbrev pub core_owner : String
core_owner = "core"

abbrev pub product_owner : String
product_owner = "product"

abbrev pub reserved_commands : List String
reserved_commands = "start" ∷ "command" ∷ []

abbrev pub max_command_length : ℕ
max_command_length = 32

abbrev is_lower : ℕ → Bool
is_lower c = leb b'a' c && leb c b'z'

abbrev matches_pattern : List ℕ → Bool
matches_pattern [] = false
matches_pattern (c ∷ l) =
    is_lower c && not (any (λ d. not (is_lower d || (leb b'0' d && leb d b'9') || d == b'_')) l)

-- `COMMAND_PATTERN` and the greatest length.
pub is_command : String → Bool
is_command name = leb (length (codes name)) max_command_length && matches_pattern (codes name)

abbrev pub is_reserved : String → Bool
is_reserved name = any (λ r. str_eq r name) reserved_commands

abbrev violation : Code → CommandClaim → Option CommandClaim → Violation
violation code c other = record {
  code = code;
  owner = c.owner;
  command = some c.command;
  key = none;
  symbol = c.symbol;
  location = c.location;
  other = other;
}

-- The side that the product's author edits stands first.
abbrev pub collision : CommandClaim → CommandClaim → Violation
collision claim previous =
    if str_eq previous.owner product_owner
    then violation command_collision previous (some claim)
    else violation command_collision claim (some previous)

abbrev reserved_by : CommandClaim → Option Violation
reserved_by claim =
    if is_reserved claim.command && not (str_eq claim.owner core_owner)
    then some (violation reserved_command claim none)
    else none

abbrev against : CommandClaim → Option CommandClaim → Option Violation
against claim none = reserved_by claim
against claim (some previous) = some (collision claim previous)

-- `_command_violation`, given the claim that holds the name.
pub command_violation : CommandClaim → Option CommandClaim → Option Violation
unfolding is_command
command_violation claim previous =
    if not (is_command claim.command)
    then some (violation invalid_command claim none)
    else against claim previous

-- The loop of `evaluate` over the claims: the commands of the contract, and the violations.
pub resolve_claims : Dict CommandClaim → List CommandClaim → List CommandClaim × List Violation
resolve_claims claimed [] = ([], [])
resolve_claims claimed (claim ∷ claims) =
    elim (command_violation claim (lookup claim.command claimed)) [
      | none ↦
          let (commands, violations) = resolve_claims (insert claim.command claim claimed) claims in
          (claim ∷ commands, violations)
      | some v ↦
          let (commands, violations) = resolve_claims claimed claims in (commands, v ∷ violations)
    ]

abbrev builtin : String → String → CommandClaim
builtin name symbol = record {
  command = name;
  owner = core_owner;
  location = record { path = "services/tg_bot/src/main.py"; line = none };
  symbol = symbol;
}

-- The commands of the core; `command` exists only with a backend.
pub builtins : Bool → List CommandClaim
builtins backend =
    builtin "start" "handle_start"
    ∷ (if backend then builtin "command" "handle_command" ∷ [] else [])

-- The commands of `evaluate` and their violations, from the claims of the product and of the modules.
pub evaluate_commands :
    Bool → List CommandClaim → List CommandClaim → List CommandClaim × List Violation
evaluate_commands backend product modules =
    resolve_claims [] (builtins backend ++ (product ++ modules))
