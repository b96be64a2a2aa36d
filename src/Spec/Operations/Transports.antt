-- ===== src/Spec/Operations/Transports.antt =====
-- References to models, and the transports of valid operations.
use Prim.Native.Char.{Char, code}
use Prim.Native.String.append
use Prim.Native.String.{◌++◌ as str_append}
use codegen_product_kit.Base.{
  ◌≡◌, ◌⊎◌, inl, inr, refl, ap, ◌∙◌, String, Bool, true, false, ◌||◌, not, Option, none, some, List,
  [], ◌∷◌, if◌then◌else◌, arith, is_some, Bool-cases, ◌==◌, ◌&&◌,
}
use codegen_product_kit.Base.Sorting.{select}
use codegen_product_kit.Spec.Operations.{
  after_prefix, before_bracket, inside, prepend, unwrap_list, EventsConfig, OperationSpec,
  OperationRefusal, DomainSpec, validate_operation, valid_events, is_set, get_rest_operations,
  get_events_operations, unwrapped, direction_ok, events_refusal, no_input, no_output, no_direction,
  no_transport,
}

prepend_tail :
    (c : Char) (s t : String)
    → before_bracket t ≡ some s
    → before_bracket (String.◌∷◌ c t) ≡ some (String.◌∷◌ c s)
unfolding before_bracket
prepend_tail c s String.[] h = cc
prepend_tail c s (String.◌∷◌ d t) h = ap (prepend c) h

before_bracket-append : (s : String) → before_bracket (str_append s "]") ≡ some s
unfolding before_bracket
before_bracket-append String.[] = ap before_bracket (append.nil "]")
before_bracket-append (String.◌∷◌ c s) =
    ap before_bracket (append.cons c s "]")
    ∙ prepend_tail c s (str_append s "]") (before_bracket-append s)

after_prefix-append : (p s : String) → after_prefix p (str_append p s) ≡ some s
unfolding after_prefix
after_prefix-append String.[] s = ap (after_prefix "") (append.nil s)
after_prefix-append (String.◌∷◌ c p) s =
    ap (after_prefix (String.◌∷◌ c p)) (append.cons c p s) ∙ ground (arith, after_prefix-append p s)

after_prefix_other :
    (c d : Char) (p r s : String)
    → (code c == code d) ≡ false
    → after_prefix (String.◌∷◌ c p) (str_append (String.◌∷◌ d r) s) ≡ none
unfolding after_prefix
after_prefix_other c d p r s h =
    ap (after_prefix (String.◌∷◌ c p)) (append.cons d r s) ∙ ground arith

unwrapped_first :
    (ref s : String) (o p : Option String) → o ≡ some s → unwrapped ref o p ≡ (true, s)
unwrapped_first ref s o p h = ap (λ x. unwrapped ref x p) h

unwrapped_second :
    (ref s : String) (o p : Option String) → o ≡ none → p ≡ some s → unwrapped ref o p ≡ (true, s)
unwrapped_second ref s o p h k = ap (λ x. unwrapped ref x p) h ∙ ap (unwrapped ref none) k

inside_list : (p s : String) → inside (after_prefix p (str_append p (str_append s "]"))) ≡ some s
inside_list p s = ap inside (after_prefix-append p (str_append s "]")) ∙ before_bracket-append s

-- A reference written as a list in either spelling is a list of the model inside.
pub unwrap_list_lem :
    (s : String)
    → (unwrap_list (str_append "list[" (str_append s "]")) ≡ (true, s))
      × (unwrap_list (str_append "List[" (str_append s "]")) ≡ (true, s))
unfolding unwrap_list
unwrap_list_lem s =
    let body = str_append s "]" in
    (
      unwrapped_first (str_append "list[" body) s
          (inside (after_prefix "list[" (str_append "list[" body)))
          (inside (after_prefix "List[" (str_append "list[" body))) (inside_list "list[" s),
      unwrapped_second (str_append "List[" body) s
          (inside (after_prefix "list[" (str_append "List[" body)))
          (inside (after_prefix "List[" (str_append "List[" body)))
          (ap inside (after_prefix_other "l" "L" "ist[" "ist[" body refl)) (inside_list "List[" s),
    )

-- The operation is offered on a transport with the models that the transport needs: it has a transport,
-- one that consumes events has an input, and one that publishes has an output.
abbrev pub NeedsModels : OperationSpec → Option EventsConfig → Type 0
NeedsModels op none = Unit
NeedsModels op (some e) =
    ((is_set e.subscribe || is_set e.publish_on_success) ≡ true)
    × (is_set e.subscribe ≡ true → is_set op.input_model ≡ true)
    × (is_set e.publish_on_success ≡ true → is_set op.output_model ≡ true)

abbrev pub IsOffered : OperationSpec → Type 0
IsOffered op = ((is_some op.rest || is_some op.events) ≡ true) × NeedsModels op op.events

models_ok :
    (a i b o : Bool) (x y : OperationRefusal)
    → ((if a && not i then some x else if b && not o then some y else none) ≡ none)
    → (a ≡ true → i ≡ true) × (b ≡ true → o ≡ true)
models_ok a i b o x y h = (λ p. ground arith, λ p. ground arith)

needs_models :
    (op : OperationSpec) (o : Option EventsConfig)
    → direction_ok o ≡ true
    → events_refusal op.input_model op.output_model o ≡ none
    → NeedsModels op o
unfolding valid_events
needs_models op none d h = tt
needs_models op (some e) d h =
    let (input, output) =
      models_ok (is_set e.subscribe) (is_set op.input_model) (is_set e.publish_on_success)
        (is_set op.output_model) no_input no_output h in
    (d, input, output)

in_order :
    (a b c : Bool) (r : Option OperationRefusal)
    → (if not a then some no_direction else if not b && not c then some no_transport else r) ≡ none
    → (a ≡ true) × ((b || c) ≡ true) × (r ≡ none)
in_order a b c r h = ground arith

validate_operation-IsOffered : (op : OperationSpec) → validate_operation op ≡ none → IsOffered op
unfolding validate_operation
validate_operation-IsOffered op h =
    let (d, t, r) =
      in_order (direction_ok op.events) (is_some op.rest) (is_some op.events)
        (events_refusal op.input_model op.output_model op.events) h in
    (t, needs_models op op.events d r)

-- The operation is one of those.
abbrev pub Among : OperationSpec → List OperationSpec → Type 0
Among op [] = ⊥
Among op (x ∷ l) = (x ≡ op) ⊎ Among op l

Among-select :
    (p : OperationSpec → Bool) (op : OperationSpec) (l : List OperationSpec)
    → p op ≡ true
    → Among op l
    → Among op (select p l)
Among-select p op [] h a = absurd a
Among-select p op (x ∷ l) h (inl e) = let px : p x ≡ true = ap p e ∙ h in rw px (inl e)
Among-select p op (x ∷ l) h (inr a) = by_test (p x) (Among-select p op l h a)
  where
    by_test :
        (b : Bool) → Among op (select p l) → Among op (if b then x ∷ select p l else select p l)
    by_test true q = inr q
    by_test false q = q

-- A domain offers every operation that is valid, over REST or over events; one that consumes events has
-- an input model, and one that publishes has an output model.
pub operations_offered :
    (d : DomainSpec) (op : OperationSpec)
    → Among op d.operations
    → validate_operation op ≡ none
    → (Among op (get_rest_operations d) ⊎ Among op (get_events_operations d))
      × NeedsModels op op.events
unfolding get_rest_operations get_events_operations
operations_offered d op a h =
    let (t, n) = validate_operation-IsOffered op h in
    (by_transport (Bool-cases (is_some op.rest)) t, n)
  where
    by_transport :
        (is_some op.rest ≡ true) ⊎ (is_some op.rest ≡ false)
        → (is_some op.rest || is_some op.events) ≡ true
        → Among op (get_rest_operations d) ⊎ Among op (get_events_operations d)
    by_transport (inl r) t =
        inl (Among-select (λ (x : OperationSpec). is_some x.rest) op d.operations r a)
    by_transport (inr r) t =
        inr
          (Among-select (λ (x : OperationSpec). is_some x.events) op d.operations (ground arith) a)
