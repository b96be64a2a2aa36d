-- ===== src/Settings/Tests.antt =====
-- Runs of the settings core at small inputs. The JSON values are a number that prints as an integer, one
-- that prints as a fraction, and a text; Python takes the first two for equal.
use codegen_product_kit.Base.{
  ℕ, ◌≤◌, ◌≡◌, refl, String, Bool, true, false, Option, none, some, List, [], ◌∷◌, ok, ◌⊎◌, str_eq,
  if◌then◌else◌, ◌==◌,
}
use codegen_product_kit.Base.Dict.{lookup}
use codegen_product_kit.Settings.{
  product, user, Setting, SettingGet, SettingSet, SettingValue, Service, get, set, get_setting,
  set_setting,
}
use codegen_product_kit.Settings.Store.{IsConsistent}
use codegen_product_kit.Settings.Writes.{get-set_lem, set-IsConsistent_lem, read_of}

data Json : Type 0 where
  whole : ℕ → Json
  real : ℕ → Json
  string : String → Json

abbrev python_eq : Json → Json → Bool
python_eq (whole n) (whole m) = n == m
python_eq (whole n) (real m) = n == m
python_eq (whole n) (string t) = false
python_eq (real n) (whole m) = n == m
python_eq (real n) (real m) = n == m
python_eq (real n) (string t) = false
python_eq (string s) (whole m) = false
python_eq (string s) (real m) = false
python_eq (string s) (string t) = str_eq s t

abbrev is_number : Json → Bool
is_number (whole n) = true
is_number (real n) = true
is_number (string t) = false

abbrev schemas : String → Option (Json → Bool)
schemas key = if str_eq key "core.limit" then some is_number else none

abbrev service : Service Json
service = record { schemas = schemas; same = python_eq; seeds = [] }

abbrev limit : Json → SettingSet Json
limit v = record { key = "core.limit"; scope = product; subject_id = none; value = v }

abbrev rows_of : Json → List (Setting Json)
rows_of v = record { key = "core.limit"; scope = product; subject_id = 0; value = v } ∷ []

abbrev answer_of : Json → SettingValue Json
answer_of v = record {
  contract_version = 1;
  key = "core.limit";
  scope = product;
  subject_id = none;
  value = v;
}

set_first : set service (limit (whole 1)) [] ≡ (ok (answer_of (whole 1)), rows_of (whole 1))
unfolding set set_setting get_setting lookup
set_first = refl

-- A value that Python takes for equal is not stored: the fraction 1.0 leaves the integer 1.
set_equal :
    set service (limit (real 1)) (rows_of (whole 1)) ≡ (ok (answer_of (whole 1)), rows_of (whole 1))
unfolding set set_setting get_setting lookup
set_equal = refl

get-set_example :
    (get (read_of (limit (real 1))) (rows_of (whole 1)) ≡ ok (answer_of (whole 1)))
    × ((whole 1 ≡ real 1) ⊎ (python_eq (whole 1) (real 1) ≡ true))
    × (set service (limit (real 1)) (rows_of (whole 1))
        ≡ (ok (answer_of (whole 1)), rows_of (whole 1)))
get-set_example =
    get-set_lem service (limit (real 1)) (rows_of (whole 1)) (rows_of (whole 1))
      (answer_of (whole 1)) set_equal

abbrev of_user : SettingGet
of_user = record { key = "core.limit"; scope = user; subject_id = some 3 }

no_subject : (i : ℕ) → none ≡ some i → 1 ≤ i
no_subject i h = absurd cc

no_rows-IsConsistent : IsConsistent {V = Json} []
no_rows-IsConsistent = record { unique = tt; allowed = tt }

set-IsConsistent_example : IsConsistent (set service (limit (whole 5)) []).1
set-IsConsistent_example =
    set-IsConsistent_lem service (limit (whole 5)) [] (λ i h. absurd (cc h)) no_rows-IsConsistent
