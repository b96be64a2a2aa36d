-- ===== src/Base/Responses.antt =====
-- What a handler returns: a value, or an `HTTPException` with its status.
use Prim.Native.Nat.{ℕ}

pub data Http {ℓ} (A : Type ℓ) : Type ℓ where
  ok : A → Http A
  http_error : ℕ → Http A
