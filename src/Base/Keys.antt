-- ===== src/Base/Keys.antt =====
-- Equality of pairs of texts, by which the tables of the backend are keyed.
use Prim.Native.String.{String}
use mathlib.Core.Path.{◌≡◌}
use mathlib.Core.Logic.{◌↔◌}
use mathlib.Core.Bool.{Bool, true, ◌&&◌}
use native.Mathlib.Omega.{arith}
use text.Mathlib.Text.{◌==◌ as str_eq}
use text.Mathlib.TextEquality.{eq_iff}

unfoldable pub same_pair : String → String → String → String → Bool
same_pair a b c d = str_eq a c && str_eq b d

pub same_pair_iff : (a b c d : String) → (same_pair a b c d ≡ true) ↔ ((a ≡ c) × (b ≡ d))
unfolding same_pair
same_pair_iff a b c d = ground (arith, eq_iff a c, eq_iff b d)
