-- ===== src/Spec/Models/Nullable.antt =====
-- The null branch of the schema of a field.
use codegen_product_kit.Base.{
  ℕ, ◌≡◌, refl, String, Bool, true, false, ◌&&◌, ◌||◌, not, Option, none, some, if◌then◌else◌,
  str_eq, eq_iff, is_some, arith, ◌∙◌,
}
use codegen_product_kit.Spec.Types.{
  TypeSpec, fold_type_spec, primitive, list, dict, optional, enum, int, string, bool, float,
  datetime, uuid, json, Json, Fields, text, any_of, flag, count, value, empty, field, put,
  type_spec_to_json_schema,
}
use codegen_product_kit.Spec.Models.{
  FieldSpec, has_key, constrain, on_typed, to_json_schema, put_value, put_count, annotated,
  with_null,
}

abbrev pub is_optional : TypeSpec → Bool
is_optional (optional t) = true
is_optional _ = false

module _ {V : Type 0} where
  -- `{"type": "null"}`
  abbrev is_null : Fields V → Bool
  is_null (field k (text t) empty) = str_eq k "type" && str_eq t "null"
  is_null _ = false

  abbrev null_among : Json V → Bool
  null_among (any_of a b) = is_null b || is_null a
  null_among _ = false

  -- A schema has `{"type": "null"}` among the branches of its `anyOf`.
  abbrev pub has_null_branch : Fields V → Bool
  has_null_branch empty = false
  has_null_branch (field k j s) = (str_eq k "anyOf" && null_among j) || has_null_branch s

  has_null_branch-put :
      (l : String) (j : Json V) (s : Fields V)
      → str_eq l "anyOf" ≡ false
      → has_null_branch (put l j s) ≡ has_null_branch s
  unfolding put
  has_null_branch-put l j empty h = ground arith
  has_null_branch-put l j (field m i s) h = ground (arith, eq_iff m l, has_null_branch-put l j s h)

  has_key-put :
      (k l : String) (j : Json V) (s : Fields V)
      → has_key k (put l j s) ≡ (str_eq l k || has_key k s)
  unfolding has_key put
  has_key-put k l j empty = refl
  has_key-put k l j (field m i s) =
      ground (arith, eq_iff m l, eq_iff m k, eq_iff l k, has_key-put k l j s)

  -- A schema with and without a change has `anyOf`, and a null branch, alike.
  abbrev Alike : Fields V → Fields V → Type 0
  Alike s t = (has_key "anyOf" s ≡ has_key "anyOf" t) × (has_null_branch s ≡ has_null_branch t)

  Alike-trans : (s t u : Fields V) → Alike s t → Alike t u → Alike s u
  Alike-trans s t u (a, b) (c, d) = (a ∙ c, b ∙ d)

  put_other :
      (l : String) (j : Json V) (s : Fields V) → str_eq l "anyOf" ≡ false → Alike (put l j s) s
  put_other l j s h = (has_key-put "anyOf" l j s ∙ rw h refl, has_null_branch-put l j s h)

  put_value_other :
      (l : String) (o : Option V) (s : Fields V)
      → str_eq l "anyOf" ≡ false
      → Alike (put_value l o s) s
  put_value_other l none s h = (refl, refl)
  put_value_other l (some v) s h = put_other l (value v) s h

  put_count_other :
      (l : String) (o : Option ℕ) (s : Fields V)
      → str_eq l "anyOf" ≡ false
      → Alike (put_count l o s) s
  put_count_other l none s h = (refl, refl)
  put_count_other l (some n) s h = put_other l (count n) s h

  -- No constraint adds `anyOf`.
  constrain-Alike : (f : FieldSpec V) (s : Fields V) → Alike (constrain f s) s
  unfolding constrain
  constrain-Alike f s = Alike-trans _ _ _ (put_count_other "maxLength" f.max_length _ refl) (
      Alike-trans _ _ _ (put_count_other "minLength" f.min_length _ refl) (
        Alike-trans _ _ _ (put_value_other "exclusiveMaximum" f.lt _ refl) (
          Alike-trans _ _ _ (put_value_other "maximum" f.le _ refl) (
            Alike-trans _ _ _ (put_value_other "exclusiveMinimum" f.gt _ refl)
              (put_value_other "minimum" f.ge s refl)))))

  annotated-Alike : (f : FieldSpec V) (s : Fields V) → Alike (annotated f s) s
  annotated-Alike f s =
      Alike-trans _ _ _ (with_flag f.readonly (put_value "default" f.default s))
        (put_value_other "default" f.default s refl)
    where
      with_flag :
          (b : Bool) (t : Fields V) → Alike (if b then put "readOnly" (flag true) t else t) t
      with_flag true t = put_other "readOnly" (flag true) t refl
      with_flag false t = (refl, refl)

  -- The type alone gives both or neither.
  abbrev Both : Bool → Fields V → Type 0
  Both b s = (has_key "anyOf" s ≡ b) × (has_null_branch s ≡ b)

  with_null-Both :
      (f : FieldSpec V) (b : Bool) (s : Fields V)
      → Both b s
      → Both (b || (f.optional && not (is_some f.default))) (with_null f s)
  unfolding has_key
  with_null-Both f b s h = ground arith

  constrained-Both : (f : FieldSpec V) (s : Fields V) → Both false s → Both false (constrain f s)
  constrained-Both f s (h, k) = let (a, b) = constrain-Alike f s in (a ∙ h, b ∙ k)

  typed-Both :
      (f : FieldSpec V) (t : TypeSpec)
      → Both (is_optional t) (on_typed (constrain f) (type_spec_to_json_schema t))
  unfolding on_typed type_spec_to_json_schema fold_type_spec has_key
  typed-Both f (primitive int) = constrained-Both f _ (refl, refl)
  typed-Both f (primitive string) = constrained-Both f _ (refl, refl)
  typed-Both f (primitive bool) = constrained-Both f _ (refl, refl)
  typed-Both f (primitive float) = constrained-Both f _ (refl, refl)
  typed-Both f (primitive datetime) = constrained-Both f _ (refl, refl)
  typed-Both f (primitive uuid) = constrained-Both f _ (refl, refl)
  typed-Both f (primitive json) = constrained-Both f _ (refl, refl)
  typed-Both f (list t) = constrained-Both f _ (refl, refl)
  typed-Both f (dict k v) = constrained-Both f _ (refl, refl)
  typed-Both f (enum values none) = constrained-Both f _ (refl, refl)
  typed-Both f (enum values (some d)) = constrained-Both f _ (refl, refl)
  typed-Both f (optional t) = (refl, refl)

  -- The schema of a field has `{"type": "null"}` among the branches of an `anyOf` exactly if its type is
  -- optional, or the field is optional and has no default; and it has an `anyOf` in no other case.
  pub nullable_iff :
      (f : FieldSpec V)
      → let is_nullable = is_optional f.type_spec || (f.optional && not (is_some f.default)) in
        (has_null_branch (to_json_schema f) ≡ is_nullable)
        × (has_key "anyOf" (to_json_schema f) ≡ is_nullable)
  unfolding to_json_schema
  nullable_iff f =
      let typed = on_typed (constrain f) (type_spec_to_json_schema f.type_spec) in
      let (a, b) = annotated-Alike f (with_null f typed) in
      let (key, branch) =
        with_null-Both f (is_optional f.type_spec) typed (typed-Both f f.type_spec) in
      (b ∙ branch, a ∙ key)
