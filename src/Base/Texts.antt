-- ===== src/Base/Texts.antt =====
-- Tests on the characters of a text, and `partition`.
use Prim.Native.Char.{code}
use Prim.Native.String.{String}
use Prim.Native.Nat.{ℕ}
use mathlib.Core.Bool.{Bool, true, false, ◌&&◌, ◌||◌, not}
use mathlib.Core.List.{List, [], ◌∷◌}
use codegen_product_kit.Base.Tests.{if◌then◌else◌, ◌==◌, leb}
use codegen_product_kit.Base.Sorting.{any}

abbrev pub codes : String → List ℕ
codes String.[] = []
codes (String.◌∷◌ c s) = code c ∷ codes s

-- `startswith("/")`
abbrev pub starts_slash : List ℕ → Bool
starts_slash [] = false
starts_slash (c ∷ l) = c == b'/'

abbrev pub ends_slash : List ℕ → Bool
ends_slash [] = false
ends_slash (c ∷ []) = c == b'/'
ends_slash (c ∷ d ∷ l) = ends_slash (d ∷ l)

-- `"//" in prefix`
abbrev pub has_double_slash : List ℕ → Bool
has_double_slash [] = false
has_double_slash (c ∷ []) = false
has_double_slash (c ∷ d ∷ l) = (c == b'/' && d == b'/') || has_double_slash (d ∷ l)

abbrev pub is_letter_or_underscore : ℕ → Bool
is_letter_or_underscore c = (leb b'A' c && leb c b'Z') || (leb b'a' c && leb c b'z') || c == b'_'

abbrev pub is_word : ℕ → Bool
is_word c = is_letter_or_underscore c || (leb b'0' c && leb c b'9')

-- `re.fullmatch(r"[A-Za-z_][A-Za-z0-9_]*", schema)`
abbrev pub is_name : List ℕ → Bool
is_name [] = false
is_name (c ∷ l) = is_letter_or_underscore c && not (any (λ d. not (is_word d)) l)

-- `partition(":")`: the text before the first colon, whether there is one, and the text after it.
unfoldable pub partition : String → String × Bool × String
partition String.[] = ("", false, "")
partition (String.◌∷◌ c s) =
    let (head, found, tail) = partition s in
    if code c == b':' then ("", true, s) else (String.◌∷◌ c head, found, tail)
