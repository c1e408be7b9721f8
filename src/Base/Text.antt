-- ===== src/Base/Text.antt =====
-- Texts: the code points of a `str`, and `str.strip()` on white space.
use Prim.Native.Nat.{ℕ}
use Prim.Native.Char.{code}
use Prim.Native.String.{String}
use mathlib.Core.Bool.{Bool, ◌&&◌, ◌||◌}
use mathlib.Core.List.{List, [], ◌∷◌}
use ai_knowledge_hub.Base.Tests.{leb, ◌==◌}
use ai_knowledge_hub.Base.Lists.{all}

abbrev pub codes : String → List ℕ
codes String.[] = []
codes (String.◌∷◌ c s) = code c ∷ codes s

-- The characters that `str.isspace` accepts, which `str.strip()` removes.
unfoldable pub is_space : ℕ → Bool
is_space c =
    (leb 9 c && leb c 13)
    || (leb 28 c && leb c 32)
    || c == 0x85
    || c == 0xa0
    || c == 0x1680
    || (leb 0x2000 c && leb c 0x200a)
    || c == 0x2028
    || c == 0x2029
    || c == 0x202f
    || c == 0x205f
    || c == 0x3000

-- `not s.strip()`
unfoldable pub is_blank : String → Bool
unfolding is_space
is_blank s = all is_space (codes s)
