-- ===== src/Base/Texts.antt =====
-- Native strings: their concatenation under a name, since lists have the operator, and their bytes,
-- if they are ASCII.
use Prim.Native.Char.{code}
use Prim.Native.String.{String, ◌++◌}
use Prim.Native.Nat.{ℕ}
use mathlib.Core.List.{List, [], ◌∷◌}

abbrev pub concat : String → String → String
concat a b = a ++ b

abbrev pub codes : String → List ℕ
codes String.[] = []
codes (String.◌∷◌ c s) = code c ∷ codes s
