-- ===== src/Spec/Manifests/Refs.antt =====
-- A validated declaration schema is closed and free of references.
use codegen_product_kit.Base.Sorting.{any}
use codegen_product_kit.Base.{
  ◌≡◌, refl, String, Bool, true, false, ◌||◌, not, Option, none, some, List, [], ◌∷◌, arith,
  is_some, str_eq,
}
use codegen_product_kit.Json.{
  Json, Items, Fields, null, bool, num, other_number, str, arr, obj, cons, field, get, keys,
}
use codegen_product_kit.Spec.Manifests.{
  Refusal, contains_ref, item_contains_ref, field_contains_ref, first_of, checks_of, is_text,
  is_false, validate_declaration_schema, meta_schema_url, all_objects, empty_key, not_a_schema,
  has_ref, invalid_schema, wrong_meta_schema, not_an_object, open_schema, has_required,
}

-- The object `e` occurs in the value, at any depth.
mutual
  pub data Occurs (e : Fields) : Json → Type 0 where
    here : Occurs e (obj e)
    in_array : (l : Items) → OccursItem e l → Occurs e (arr l)
    in_object : (d : Fields) → OccursField e d → Occurs e (obj d)

  pub data OccursItem (e : Fields) : Items → Type 0 where
    first : (j : Json) (l : Items) → Occurs e j → OccursItem e (cons j l)
    later : (j : Json) (l : Items) → OccursItem e l → OccursItem e (cons j l)

  pub data OccursField (e : Fields) : Fields → Type 0 where
    value : (k : String) (j : Json) (d : Fields) → Occurs e j → OccursField e (field k j d)
    beyond : (k : String) (j : Json) (d : Fields) → OccursField e d → OccursField e (field k j d)

or_false : (a b : Bool) → (a || b) ≡ false → (a ≡ false) × (b ≡ false)
or_false true b h = cc
or_false false b h = (refl, h)

is_some-false {ℓ} : {A : Type ℓ} (o : Option A) → is_some o ≡ false → o ≡ none
is_some-false none h = refl
is_some-false (some a) h = cc

mutual
  unfolding contains_ref item_contains_ref field_contains_ref

  no_ref : (e : Fields) (j : Json) → Occurs e j → contains_ref j ≡ false → get "$ref" e ≡ none
  no_ref e j here h = is_some-false (get "$ref" e) (or_false _ _ h).0
  no_ref e j (in_array l o) h = no_item_ref e l o h
  no_ref e j (in_object d o) h = no_field_ref e d o (or_false _ _ h).1

  no_item_ref :
      (e : Fields) (l : Items) → OccursItem e l → item_contains_ref l ≡ false → get "$ref" e ≡ none
  no_item_ref e l (first j r o) h = no_ref e j o (or_false _ _ h).0
  no_item_ref e l (later j r o) h = no_item_ref e r o (or_false _ _ h).1

  no_field_ref :
      (e : Fields) (d : Fields)
      → OccursField e d
      → field_contains_ref d ≡ false
      → get "$ref" e ≡ none
  no_field_ref e d (value k j r o) h = no_ref e j o (or_false _ _ h).0
  no_field_ref e d (beyond k j r o) h = no_field_ref e r o (or_false _ _ h).1

first_refusal :
    (a b c d : Bool) (x y z w : Refusal) (l : List (Bool × Refusal))
    → first_of ((not a, x) ∷ (not b, y) ∷ (not c, z) ∷ (d, w) ∷ l) ≡ none
    → (a ≡ true) × (b ≡ true) × (c ≡ true) × (d ≡ false) × (first_of l ≡ none)
first_refusal a b c d x y z w l h = ground arith

last_refusal :
    (a b c d : Bool) (x y z w : Refusal)
    → first_of ((a, x) ∷ (not b, y) ∷ (c, z) ∷ (not d, w) ∷ []) ≡ none
    → (b ≡ true) × (c ≡ false) × (d ≡ true)
last_refusal a b c d x y z w h = ground arith

checks_of-none :
    (check_schema : Json → Bool) (schema : Fields) (o : Option Json)
    → first_of (checks_of check_schema schema o) ≡ none
    → (properties : Fields) × (o ≡ some (obj properties))
      × (all_objects properties ≡ true)
      × (contains_ref (obj schema) ≡ false)
      × (check_schema (obj schema) ≡ true)
checks_of-none check_schema schema (some (obj properties)) h =
    let (all, refs, valid) =
      last_refusal (any (λ k. str_eq k "") (keys properties)) (all_objects properties)
        (contains_ref (obj schema)) (check_schema (obj schema)) empty_key not_a_schema has_ref
        invalid_schema h in
    (properties, refl, all, refs, valid)
checks_of-none check_schema schema none h = ground arith
checks_of-none check_schema schema (some null) h = ground arith
checks_of-none check_schema schema (some (bool b)) h = ground arith
checks_of-none check_schema schema (some (num n)) h = ground arith
checks_of-none check_schema schema (some (other_number t)) h = ground arith
checks_of-none check_schema schema (some (str t)) h = ground arith
checks_of-none check_schema schema (some (arr l)) h = ground arith

abbrev pub HasProperties : Option Json → Type 0
HasProperties o =
    (properties : Fields) × (o ≡ some (obj properties)) × (all_objects properties ≡ true)

-- A declaration schema that is accepted names the meta-schema, is a closed object without `required`, has
-- properties that are objects, and no object in it, at any depth, has a `$ref`.
pub record IsDeclaration (check_schema : Json → Bool) (schema : Fields) : Type 0 where
  pub names_meta_schema : is_text (get "$schema" schema) meta_schema_url ≡ true
  pub is_object : is_text (get "type" schema) "object" ≡ true
  pub is_closed : is_false (get "additionalProperties" schema) ≡ true
  pub without_required : get "required" schema ≡ none
  pub has_properties : HasProperties (get "properties" schema)
  pub without_ref : (e : Fields) → Occurs e (obj schema) → get "$ref" e ≡ none
  pub passes : check_schema (obj schema) ≡ true

pub validate_declaration_schema-IsDeclaration :
    (check_schema : Json → Bool) (schema : Fields)
    → validate_declaration_schema check_schema schema ≡ none
    → IsDeclaration check_schema schema
unfolding validate_declaration_schema
validate_declaration_schema-IsDeclaration check_schema schema h =
    let (hm, ho, hc, hr, h4) =
      first_refusal (is_text (get "$schema" schema) meta_schema_url)
        (is_text (get "type" schema) "object") (is_false (get "additionalProperties" schema))
        (is_some (get "required" schema)) wrong_meta_schema not_an_object open_schema has_required
        (checks_of check_schema schema (get "properties" schema)) h in
    let (properties, hp, all, refs, valid) =
      checks_of-none check_schema schema (get "properties" schema) h4 in
    record {
      names_meta_schema = hm;
      is_object = ho;
      is_closed = hc;
      without_required = is_some-false (get "required" schema) hr;
      has_properties = (properties, hp, all);
      without_ref = λ e o. no_ref e (obj schema) o refs;
      passes = valid;
    }
