-- ===== src/Spec/Packages/Events.antt =====
-- Which events a package may declare.
use codegen_product_kit.Base.{
  ◌≡◌, ◌↔◌, refl, sym, ◌∙◌, String, Bool, true, false, ◌||◌, none, List, [], ◌∷◌, ◌++◌, str_eq,
  arith, eq_iff,
}
use codegen_product_kit.Base.Sorting.{any-append}
use codegen_product_kit.Spec.Manifests.{occurs, repeats}
use codegen_product_kit.Spec.Packages.{
  EventsDeclaration, names_of, exceeds, validate_messages_cover_events,
}

occurs-of_exceeds :
    (left right : List String) (s : String)
    → exceeds left right ≡ false
    → occurs left s ≡ true
    → occurs right s ≡ true
occurs-of_exceeds [] right s h k = cc
occurs-of_exceeds (t ∷ left) right s h k =
    ground (arith, eq_iff t s, occurs-of_exceeds left right s)

occurs_self : (t : String) (l : List String) → occurs (t ∷ l) t ≡ true
occurs_self t l = rw ((eq_iff t t).1 refl) refl

exceeds-of_occurs :
    (left right : List String)
    → ((s : String) → occurs left s ≡ true → occurs right s ≡ true)
    → exceeds left right ≡ false
exceeds-of_occurs [] right h = refl
exceeds-of_occurs (t ∷ left) right h =
    let here = h t (occurs_self t left) in
    let rest = exceeds-of_occurs left right (λ s k. h s (later s k)) in ground arith
  where
    later : (s : String) → occurs left s ≡ true → occurs (t ∷ left) s ≡ true
    later s k = ground arith

-- The events of the declaration are covered: no event is published or consumed twice, and exactly the
-- events that are published or consumed have a message.
abbrev pub IsCovered : EventsDeclaration → Type 0
IsCovered e =
    (repeats e.publishes ≡ false)
    × (repeats e.consumes ≡ false)
    × ((s : String)
        → occurs (names_of e.messages) s ≡ (occurs e.publishes s || occurs e.consumes s))

same_test : (a b : Bool) → (a ≡ true → b ≡ true) → (b ≡ true → a ≡ true) → a ≡ b
same_test true b f g = sym (f refl)
same_test false true f g = g refl
same_test false false f g = refl

covered_name :
    (e : EventsDeclaration) (s : String)
    → exceeds (e.publishes ++ e.consumes) (names_of e.messages) ≡ false
    → exceeds (names_of e.messages) (e.publishes ++ e.consumes) ≡ false
    → occurs (names_of e.messages) s ≡ (occurs e.publishes s || occurs e.consumes s)
covered_name e s h k =
    same_test (occurs (names_of e.messages) s) (occurs (e.publishes ++ e.consumes) s)
      (occurs-of_exceeds (names_of e.messages) (e.publishes ++ e.consumes) s k)
      (occurs-of_exceeds (e.publishes ++ e.consumes) (names_of e.messages) s h)
    ∙ any-append (λ t. str_eq t s) e.publishes e.consumes

-- The events of a package are accepted exactly when no event is published twice or consumed twice, and
-- the events with a message are those that are published or consumed.
pub validate_messages_cover_events_iff :
    (e : EventsDeclaration) → (validate_messages_cover_events e ≡ none) ↔ IsCovered e
unfolding validate_messages_cover_events
validate_messages_cover_events_iff e = (accepted, covered)
  where
    accepted : validate_messages_cover_events e ≡ none → IsCovered e
    accepted h = (ground arith, ground arith, λ s. covered_name e s (ground arith) (ground arith))

    covered : IsCovered e → validate_messages_cover_events e ≡ none
    covered (p, c, same) =
        let split = λ (s : String). any-append (λ t. str_eq t s) e.publishes e.consumes in
        let missing =
          exceeds-of_occurs (e.publishes ++ e.consumes) (names_of e.messages)
            (λ s k. same s ∙ sym (split s) ∙ k) in
        let undeclared =
          exceeds-of_occurs (names_of e.messages) (e.publishes ++ e.consumes)
            (λ s k. split s ∙ sym (same s) ∙ k) in
        ground arith
