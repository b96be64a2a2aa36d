-- ===== src/Environment/Declared.antt =====
-- What the fragments declare, in whatever order.
use codegen_product_kit.Base.{
  ◌≡◌, ◌⊎◌, ◌↔◌, inl, inr, String, Bool, true, false, List, [], ◌∷◌, ◌++◌, if◌then◌else◌,
}
use codegen_product_kit.Base.Dict.{Dict}
use codegen_product_kit.Base.Sorting.{sort_by, insert_by}
use codegen_product_kit.Environment.{EnvContractEntry, EnvContractFragment}

-- The entries declare `e` under the key.
abbrev pub Declares : String → EnvContractEntry → Dict EnvContractEntry → Type 0
Declares k e [] = ⊥
Declares k e ((j, f) ∷ d) = ((j ≡ k) × (f ≡ e)) ⊎ Declares k e d

-- One of the fragments does.
abbrev pub IsDeclared : String → EnvContractEntry → List EnvContractFragment → Type 0
IsDeclared k e [] = ⊥
IsDeclared k e (f ∷ fs) = Declares k e f.entries ⊎ IsDeclared k e fs

-- The equality of entries is an equivalence; Python's takes the numbers 1 and 1.0 and True for equal.
pub record IsEquality (same : EnvContractEntry → EnvContractEntry → Bool) : Type 0 where
  pub same_refl : (e : EnvContractEntry) → same e e ≡ true
  pub same_sym : (e f : EnvContractEntry) → same e f ≡ true → same f e ≡ true
  pub same_trans : (e f g : EnvContractEntry) → same e f ≡ true → same f g ≡ true → same e g ≡ true

unfoldable pub declared : List EnvContractFragment → Dict EnvContractEntry
declared [] = []
declared (f ∷ fs) = f.entries ++ declared fs

pub Declares-left :
    (k : String) (e : EnvContractEntry) (d b : Dict EnvContractEntry)
    → Declares k e d
    → Declares k e (d ++ b)
Declares-left k e [] b h = absurd h
Declares-left k e (x ∷ d) b (inl h) = inl h
Declares-left k e (x ∷ d) b (inr h) = inr (Declares-left k e d b h)

pub Declares-right :
    (k : String) (e : EnvContractEntry) (d b : Dict EnvContractEntry)
    → Declares k e b
    → Declares k e (d ++ b)
Declares-right k e [] b h = h
Declares-right k e (x ∷ d) b h = inr (Declares-right k e d b h)

pub Declares-append :
    (k : String) (e : EnvContractEntry) (d b : Dict EnvContractEntry)
    → Declares k e (d ++ b)
    → Declares k e d ⊎ Declares k e b
Declares-append k e [] b h = inr h
Declares-append k e (x ∷ d) b (inl h) = inl (inl h)
Declares-append k e (x ∷ d) b (inr h) = by_part (Declares-append k e d b h)
  where
    by_part : Declares k e d ⊎ Declares k e b → Declares k e (x ∷ d) ⊎ Declares k e b
    by_part (inl p) = inl (inr p)
    by_part (inr p) = inr p

pub Declares-of_IsDeclared :
    (k : String) (e : EnvContractEntry) (fs : List EnvContractFragment)
    → IsDeclared k e fs
    → Declares k e (declared fs)
unfolding declared
Declares-of_IsDeclared k e [] h = absurd h
Declares-of_IsDeclared k e (f ∷ fs) (inl h) = Declares-left k e f.entries (declared fs) h
Declares-of_IsDeclared k e (f ∷ fs) (inr h) =
    Declares-right k e f.entries (declared fs) (Declares-of_IsDeclared k e fs h)

pub IsDeclared-of_Declares :
    (k : String) (e : EnvContractEntry) (fs : List EnvContractFragment)
    → Declares k e (declared fs)
    → IsDeclared k e fs
unfolding declared
IsDeclared-of_Declares k e [] h = absurd h
IsDeclared-of_Declares k e (f ∷ fs) h =
    by_part (Declares-append k e f.entries (declared fs) h) (IsDeclared-of_Declares k e fs)
  where
    by_part :
        Declares k e f.entries ⊎ Declares k e (declared fs)
        → (Declares k e (declared fs) → IsDeclared k e fs)
        → IsDeclared k e (f ∷ fs)
    by_part (inl p) next = inl p
    by_part (inr p) next = inr (next p)

-- Sorting the fragments declares the same.
IsDeclared-insert_by :
    (before : EnvContractFragment → EnvContractFragment → Bool) (k : String) (e : EnvContractEntry)
    (f : EnvContractFragment) (fs : List EnvContractFragment)
    → IsDeclared k e (insert_by before f fs) ↔ IsDeclared k e (f ∷ fs)
unfolding insert_by
IsDeclared-insert_by before k e f [] = (λ h. h, λ h. h)
IsDeclared-insert_by before k e f (g ∷ gs) =
    by_test (before f g) (IsDeclared-insert_by before k e f gs)
  where
    by_test :
        (b : Bool)
        → IsDeclared k e (insert_by before f gs) ↔ IsDeclared k e (f ∷ gs)
        → IsDeclared k e (if b then f ∷ g ∷ gs else g ∷ insert_by before f gs)
          ↔ IsDeclared k e (f ∷ g ∷ gs)
    by_test true ih = (λ h. h, λ h. h)
    by_test false ih = (forth, back)
      where
        forth : IsDeclared k e (g ∷ insert_by before f gs) → IsDeclared k e (f ∷ g ∷ gs)
        forth (inl p) = inr (inl p)
        forth (inr p) = swap (ih.0 p)
          where
            swap : IsDeclared k e (f ∷ gs) → IsDeclared k e (f ∷ g ∷ gs)
            swap (inl q) = inl q
            swap (inr q) = inr (inr q)

        back : IsDeclared k e (f ∷ g ∷ gs) → IsDeclared k e (g ∷ insert_by before f gs)
        back (inl p) = inr (ih.1 (inl p))
        back (inr (inl p)) = inl p
        back (inr (inr p)) = inr (ih.1 (inr p))

pub IsDeclared-sort_by :
    (before : EnvContractFragment → EnvContractFragment → Bool) (k : String) (e : EnvContractEntry)
    (fs : List EnvContractFragment)
    → IsDeclared k e (sort_by before fs) ↔ IsDeclared k e fs
unfolding sort_by
IsDeclared-sort_by before k e [] = (λ h. h, λ h. h)
IsDeclared-sort_by before k e (f ∷ fs) =
    by_rest (IsDeclared-sort_by before k e fs)
      (IsDeclared-insert_by before k e f (sort_by before fs))
  where
    by_rest :
        IsDeclared k e (sort_by before fs) ↔ IsDeclared k e fs
        → IsDeclared k e (insert_by before f (sort_by before fs))
          ↔ IsDeclared k e (f ∷ sort_by before fs)
        → IsDeclared k e (insert_by before f (sort_by before fs)) ↔ IsDeclared k e (f ∷ fs)
    by_rest ih here = (λ h. forth (here.0 h), λ h. here.1 (back h))
      where
        forth : IsDeclared k e (f ∷ sort_by before fs) → IsDeclared k e (f ∷ fs)
        forth (inl p) = inl p
        forth (inr p) = inr (ih.0 p)

        back : IsDeclared k e (f ∷ fs) → IsDeclared k e (f ∷ sort_by before fs)
        back (inl p) = inl p
        back (inr p) = inr (ih.1 p)
