-- ===== src/Jobs/Ledger.antt =====
-- Every operation of the job core keeps one row per command identity, and leaves the rows of other
-- identities alone.
use codegen_product_kit.Base.{
  ℕ, String, ◌≡◌, refl, none, some, List, [], ◌∷◌, ◌++◌, arith, same_pair, same_pair_iff,
  if◌then◌else◌,
}
use codegen_product_kit.Jobs.{JobCommand, is_identity, get, mark, mark_dispatched}

module _ {A : Type 0} where
  -- No identity is recorded twice.
  abbrev pub IsUnique : List (JobCommand A) → Type 0
  IsUnique [] = Unit
  IsUnique (c ∷ l) = (get c.fired_by_product c.command_id l ≡ none) × IsUnique l

  pub get-append :
      (p i : String) (l : List (JobCommand A)) (c : JobCommand A)
      → get p i (l ++ c ∷ [])
        ≡ elim (get p i l) [ some d ↦ some d | none ↦ if is_identity p i c then some c else none ]
  unfolding get
  get-append p i [] c = ground arith
  get-append p i (d ∷ l) c = ground (arith, get-append p i l c)

  -- The row found bears the identity asked for.
  pub get-identity :
      (p i : String) (l : List (JobCommand A)) {c : JobCommand A}
      → get p i l ≡ some c
      → (c.fired_by_product ≡ p) × (c.command_id ≡ i)
  unfolding get
  get-identity p i [] h = cc
  get-identity p i (d ∷ l) {c} h =
      ground (arith, get-identity p i l {c = c}, same_pair_iff d.fired_by_product d.command_id p i)

  pub insert-IsUnique :
      (c : JobCommand A) (l : List (JobCommand A))
      → get c.fired_by_product c.command_id l ≡ none
      → IsUnique l
      → IsUnique (l ++ c ∷ [])
  unfolding get
  insert-IsUnique c [] h u = (refl, tt)
  insert-IsUnique c (d ∷ l) h u = ground (
    arith,
    insert-IsUnique c l,
    get-append d.fired_by_product d.command_id l c,
    same_pair_iff c.fired_by_product c.command_id d.fired_by_product d.command_id,
    same_pair_iff d.fired_by_product d.command_id c.fired_by_product c.command_id,
  )

  -- Marking finds exactly the rows that were there.
  pub get-mark_dispatched :
      (p i q j : String) (now : ℕ) (l : List (JobCommand A))
      → get q j (mark_dispatched p i now l) ≡ elim (get q j l) [
        | none ↦ none
        | some c ↦ if same_pair p i q j then some (mark now c) else some c
      ]
  unfolding get mark_dispatched
  get-mark_dispatched p i q j now [] = refl
  get-mark_dispatched p i q j now (c ∷ l) = ground (
    arith,
    get-mark_dispatched p i q j now l,
    same_pair_iff c.fired_by_product c.command_id p i,
    same_pair_iff c.fired_by_product c.command_id q j,
    same_pair_iff p i q j,
  )

  pub mark_dispatched-IsUnique :
      (p i : String) (now : ℕ) (l : List (JobCommand A))
      → IsUnique l
      → IsUnique (mark_dispatched p i now l)
  unfolding mark_dispatched
  mark_dispatched-IsUnique p i now [] u = tt
  mark_dispatched-IsUnique p i now (c ∷ l) u = ground (
    arith,
    mark_dispatched-IsUnique p i now l,
    get-mark_dispatched p i c.fired_by_product c.command_id now l,
  )
