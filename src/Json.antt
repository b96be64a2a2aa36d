-- ===== src/Json.antt =====
-- Values of JSON and YAML, as the framework and the packages read them. A dict has its keys in order.
use Prim.Native.String.{String}
use Prim.Native.Nat.{ℕ}
use mathlib.Core.Bool.{Bool, true, false}
use mathlib.Core.Option.{Option, none, some}
use mathlib.Core.List.{List, [], ◌∷◌}
use codegen_product_kit.Base.{str_eq, if◌then◌else◌}

-- `num n` is a number that equals the natural number n, `other_number` any other, by its text.
mutual
  pub data Json : Type 0 where
    null : Json
    bool : Bool → Json
    num : ℕ → Json
    other_number : String → Json
    str : String → Json
    arr : Items → Json
    obj : Fields → Json

  pub data Items : Type 0 where
    nil : Items
    cons : Json → Items → Items

  pub data Fields : Type 0 where
    end : Fields
    field : String → Json → Fields → Fields

-- `d.get(key)`
unfoldable pub get : String → Fields → Option Json
get k end = none
get k (field l j d) = if str_eq l k then some j else get k d

abbrev pub keys : Fields → List String
keys end = []
keys (field k j d) = k ∷ keys d

abbrev pub items : Items → List Json
items nil = []
items (cons j l) = j ∷ items l

-- `if not value`: what Python takes for false.
abbrev pub is_truthy : Json → Bool
is_truthy null = false
is_truthy (bool b) = b
is_truthy (num n) = elim n [ Prim.Native.Nat.zero ↦ false | Prim.Native.Nat.suc m ↦ true ]
is_truthy (other_number t) = true
is_truthy (str s) = if str_eq s "" then false else true
is_truthy (arr nil) = false
is_truthy (arr (cons j l)) = true
is_truthy (obj end) = false
is_truthy (obj (field k j d)) = true
