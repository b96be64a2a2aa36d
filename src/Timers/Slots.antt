-- ===== src/Timers/Slots.antt =====
-- The grid of slots.
use native.Mathlib.Nat.{div-add-mod', mod-lt}
use codegen_product_kit.Base.{ℕ, ◌+◌, ◌*◌, ◌/◌, ◌%◌, ◌≤◌, ◌<◌, ◌≡◌, arith}
use codegen_product_kit.Timers.{second, slot_instant}

-- For a positive period the slot is the latest multiple of the period, counted from the epoch, that
-- is not after the given instant.
pub slot_instant_bounds :
    (now every : ℕ)
    → 0 < every
    → let slot = slot_instant now every in
      (slot ≡ now / second / every * every * second) × (slot ≤ now) × (now < slot + every * second)
unfolding slot_instant
slot_instant_bounds now every h =
    let q : ℕ = now / second / every * every in
    let parts : q + now / second % every ≡ now / second = div-add-mod' (now / second) every in
    let rest : now / second % every < every = mod-lt (now / second) h in
    (omega arith, omega arith, omega arith)
