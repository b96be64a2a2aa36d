-- ===== src/Consumer/Tests.antt =====
-- Runs of the consumer at small inputs.
use codegen_product_kit.Base.{
  true, false, ℕ, suc, ◌+◌, ◌≤◌, ◌≡◌, Option, none, some, [], ◌∷◌, ◌==◌, if◌then◌else◌,
}
use codegen_product_kit.Consumer.{Store}
use codegen_product_kit.Consumer.Once.{
  Delivery, deliveries, commits_of, replayed, marked, commits_once,
}

-- The handler adds one, and raises on an empty table.
abbrev add_one : ℕ → Option ℕ
add_one n = if n == 0 then none else some (suc n)

abbrev delivery : Delivery ℕ
delivery = record { group = "reminders"; event = "e1"; effect = add_one; commits = true }

-- The caller crashes before its commit.
abbrev crashing : Delivery ℕ
crashing = record delivery { commits = false }

abbrev db : Store ℕ
db = record { markers = []; tables = 4 }

commits_once_example :
    let l = crashing ∷ delivery ∷ delivery ∷ [] in
    (commits_of "reminders" "e1" l db ≤ 1)
    × (commits_of "reminders" "e1" l db + marked "reminders" "e1" db
        ≡ marked "reminders" "e1" (deliveries l db))
    × ((deliveries l db).tables ≡ replayed l db 4)
commits_once_example = commits_once "reminders" "e1" (crashing ∷ delivery ∷ delivery ∷ []) db
