-- ===== src/Spec/Models/Variants.antt =====
-- Which fields a variant has, and which of them its schema requires.
use codegen_product_kit.Base.{
  ◌≡◌, refl, String, false, ◌&&◌, not, Option, none, some, List, [], ◌∷◌, if◌then◌else◌, str_eq,
  eq_iff, is_some, arith,
}
use codegen_product_kit.Base.Dict.{Dict, lookup}
use codegen_product_kit.Spec.Models.{
  FieldSpec, VariantSpec, ModelSpec, holds, is_dropped, is_required, kept_fields,
  get_variant_fields, fields_for, properties_of, required_of, model_to_schema,
}

module _ {V : Type 0} where
  -- The keys of a dict stand once each.
  abbrev pub KeysUnique : Dict (FieldSpec V) → Type 0
  KeysUnique [] = Unit
  KeysUnique ((name, f) ∷ fields) = (lookup name fields ≡ none) × KeysUnique fields

  lookup-kept_fields :
      (v : VariantSpec) (variant_name name : String) (fields : Dict (FieldSpec V))
      → KeysUnique fields
      → lookup name (kept_fields v variant_name fields) ≡ elim (lookup name fields) [
        | none ↦ none
        | some f ↦ if is_dropped v variant_name name f then none else some f
      ]
  unfolding kept_fields lookup
  lookup-kept_fields v variant_name name [] u = refl
  lookup-kept_fields v variant_name name ((n, f) ∷ fields) u =
      ground (arith, eq_iff n name, lookup-kept_fields v variant_name name fields u.1)

  -- In a model whose fields have distinct names, a variant has exactly the fields of the model that it
  -- does not exclude and, if it is Create or Update, that are not readonly; a name that is no variant has
  -- them all.
  pub get_variant_fields_lem :
      (m : ModelSpec V) (variant_name name : String)
      → KeysUnique m.fields
      → lookup name (get_variant_fields variant_name m) ≡ elim (lookup variant_name m.variants) [
        | none ↦ lookup name m.fields
        | some v ↦ elim (lookup name m.fields) [
          | none ↦ none
          | some f ↦ if is_dropped v variant_name name f then none else some f
        ]
      ]
  unfolding get_variant_fields
  get_variant_fields_lem m variant_name name u = by_variant (lookup variant_name m.variants)
    where
      by_variant :
          (o : Option VariantSpec)
          → lookup name (fields_for variant_name m.fields o) ≡ elim o [
            | none ↦ lookup name m.fields
            | some v ↦ elim (lookup name m.fields) [
              | none ↦ none
              | some f ↦ if is_dropped v variant_name name f then none else some f
            ]
          ]
      by_variant none = refl
      by_variant (some v) = lookup-kept_fields v variant_name name m.fields u

  kept_fields-KeysUnique :
      (v : VariantSpec) (variant_name : String) (fields : Dict (FieldSpec V))
      → KeysUnique fields
      → KeysUnique (kept_fields v variant_name fields)
  unfolding kept_fields
  kept_fields-KeysUnique v variant_name [] u = tt
  kept_fields-KeysUnique v variant_name ((n, f) ∷ fields) u = ground (
    arith,
    lookup-kept_fields v variant_name n fields u.1,
    kept_fields-KeysUnique v variant_name fields u.1,
  )

  get_variant_fields-KeysUnique :
      (m : ModelSpec V) (variant_name : String)
      → KeysUnique m.fields
      → KeysUnique (get_variant_fields variant_name m)
  unfolding get_variant_fields
  get_variant_fields-KeysUnique m variant_name u = by_variant (lookup variant_name m.variants)
    where
      by_variant : (o : Option VariantSpec) → KeysUnique (fields_for variant_name m.fields o)
      by_variant none = u
      by_variant (some v) = kept_fields-KeysUnique v variant_name m.fields u

  lookup-properties_of :
      (optional : List String) (name : String) (fields : Dict (FieldSpec V))
      → is_some (lookup name (properties_of optional fields)) ≡ is_some (lookup name fields)
  unfolding properties_of lookup
  lookup-properties_of optional name [] = refl
  lookup-properties_of optional name ((n, f) ∷ fields) =
      ground (arith, lookup-properties_of optional name fields)

  holds-required_of :
      (optional : List String) (name : String) (fields : Dict (FieldSpec V))
      → KeysUnique fields
      → holds (required_of optional fields) name ≡ elim (lookup name fields) [
        | none ↦ false
        | some f ↦ not (holds optional name) && is_required f
      ]
  unfolding required_of lookup
  holds-required_of optional name [] u = refl
  holds-required_of optional name ((n, f) ∷ fields) u =
      ground (arith, eq_iff n name, holds-required_of optional name fields u.1)

  -- The schema of a model whose fields have distinct names has a property for each field, and requires
  -- exactly the fields that are not optional and have no default; that of a variant has one for each of
  -- the fields that the variant has, and requires of them those that it does not make optional.
  pub model_to_schema_lem :
      (model_name variant_name name : String) (m : ModelSpec V) (v : VariantSpec)
      → KeysUnique m.fields
      → str_eq variant_name "" ≡ false
      → let base = model_to_schema model_name m none in
        let schema = model_to_schema model_name m (some (variant_name, v)) in
        (is_some (lookup name base.properties) ≡ is_some (lookup name m.fields))
        × (holds base.required name
            ≡ elim (lookup name m.fields) [ none ↦ false | some f ↦ is_required f ])
        × (is_some (lookup name schema.properties)
            ≡ is_some (lookup name (get_variant_fields variant_name m)))
        × (holds schema.required name ≡ elim (lookup name (get_variant_fields variant_name m)) [
          | none ↦ false
          | some f ↦ not (holds v.optional name) && is_required f
        ])
  unfolding model_to_schema
  model_to_schema_lem model_name variant_name name m v u n = rw n (
    lookup-properties_of [] name m.fields,
    holds-required_of [] name m.fields u,
    lookup-properties_of v.optional name (get_variant_fields variant_name m),
    holds-required_of v.optional name (get_variant_fields variant_name m)
        (get_variant_fields-KeysUnique m variant_name u),
  )
