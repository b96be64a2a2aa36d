-- ===== src/Host/Tests.antt =====
-- The theorems at a product with a command and a callback.
use codegen_product_kit.Host.Settings.{Binding, binding_setting_violations, timezone_conflict}
use codegen_product_kit.Host.Settings.OneZone.{Reads, binding_setting_violations-none}
use codegen_product_kit.Base.{
  length, ◌≤◌, false, ◌≡◌, refl, String, true, false, none, some, List, [], ◌∷◌, ◌++◌, All, Option,
  ℕ,
}
use codegen_product_kit.Base.Dict.{Dict, lookup, insert}
use codegen_product_kit.Host.{
  Location, CommandClaim, command_collision, is_command, command_violation, resolve_claims,
  builtins, evaluate_commands,
}
use codegen_product_kit.Host.Commands.{IsResolved, evaluate_commands_lem}
use codegen_product_kit.Host.Declarations.{
  Expr, name, string, nil, cons, end, keyword, admitted, refused, given_twice, bind_keywords,
  call_arguments, any_starred, any_unpacked, count_args,
}
use codegen_product_kit.Host.Declarations.Bound.{IsBound, call_arguments-IsBound}

abbrev at : Location
at = record { path = "services/tg_bot/src/commands.py"; line = some 4 }

abbrev claim : String → String → CommandClaim
claim command owner = record { command = command; owner = owner; location = at; symbol = "handle" }

-- A product may not take the command of a module: the product's side is to be edited.
collides :
    (evaluate_commands false
      (claim "list" "product" ∷ [])
      (claim "list" "package:reminders" ∷ [])).1
    ≡ record {
      code = command_collision;
      owner = "product";
      command = some "list";
      key = none;
      symbol = "handle";
      location = at;
      other = some (claim "list" "package:reminders");
    }
      ∷ []
unfolding evaluate_commands builtins resolve_claims command_violation is_command lookup insert
collides = refl

evaluate_commands_lem_example :
    IsResolved
      (builtins true ++ ((claim "help" "product" ∷ []) ++ (claim "list" "package:reminders" ∷ [])))
      (evaluate_commands true (claim "help" "product" ∷ []) (claim "list" "package:reminders" ∷ []))
evaluate_commands_lem_example =
    evaluate_commands_lem true (claim "help" "product" ∷ []) (claim "list" "package:reminders" ∷ [])

abbrev parameters : List String
parameters = "name" ∷ "handler" ∷ []

abbrev bound : Dict Expr
bound = ("name", string "help") ∷ ("handler", name "handle_help") ∷ []

help_bound :
    call_arguments
      (cons (string "help") nil)
      (keyword (some "handler") (name "handle_help") end)
      parameters
    ≡ admitted bound
unfolding call_arguments bind_keywords lookup insert
help_bound = refl

help_twice :
    call_arguments
      (cons (string "help") nil)
      (keyword (some "name") (name "handle_help") end)
      parameters
    ≡ refused given_twice
unfolding call_arguments bind_keywords lookup insert
help_twice = refl

call_arguments-IsBound_example :
    let args = cons (string "help") nil in
    let keywords = keyword (some "handler") (name "handle_help") end in
    (any_starred args ≡ false)
    × (any_unpacked keywords ≡ false)
    × (count_args args ≤ length parameters)
    × IsBound parameters args keywords bound
call_arguments-IsBound_example =
    call_arguments-IsBound (cons (string "help") nil)
      (keyword (some "handler") (name "handle_help") end) parameters bound (refl, (refl, tt))
      help_bound

abbrev reader : String → Option String → Binding
reader file language = record {
  file = file;
  package_name = "reminders";
  timezone = some "timezone";
  language = language;
  is_retained = false;
}

abbrev readers : List Binding
readers = reader "digest.yaml" (some "language") ∷ reader "reminders.yaml" none ∷ []

abbrev no_lines : String → String → Option ℕ
no_lines file section = none

readers_agree : binding_setting_violations no_lines [] readers ≡ []
unfolding binding_setting_violations timezone_conflict
readers_agree = refl

binding_setting_violations-none_example : (zone : String) × All (Reads zone) readers
binding_setting_violations-none_example =
    binding_setting_violations-none no_lines readers readers_agree
