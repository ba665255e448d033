-- ===== src/Prelude/Text.antt =====
-- Python's texts: truth value, `strip`, and membership tests.
use Prim.Native.Nat.{ℕ}
use Prim.Native.Char.{code}
use Prim.Native.String.{String}
use mathlib.Core.Bool.{Bool, true, false, ◌&&◌, ◌||◌}
use mathlib.Core.List.{List, [], ◌∷◌}
use sopara.Prelude.Tests.{leb, ◌==◌}
use text.Mathlib.Text.{◌==◌ as str_eq}
pub use text.Mathlib.Text.{◌==◌ as str_eq}

-- The code points of a text.
abbrev pub codes : String → List ℕ
codes String.[] = []
codes (String.◌∷◌ c s) = code c ∷ codes s

-- `not s`
abbrev pub is_empty : String → Bool
is_empty s = str_eq s ""

-- The code points that `str.strip` removes.
unfoldable pub is_space : ℕ → Bool
is_space c =
    (leb 9 c && leb c 13)
    || (leb 28 c && leb c 32)
    || c == 133
    || c == 160
    || c == 5760
    || (leb 8192 c && leb c 8202)
    || c == 8232
    || c == 8233
    || c == 8239
    || c == 8287
    || c == 12288

-- `not s.strip()`: every code point is white space.
unfoldable pub is_blank : String → Bool
unfolding is_space
is_blank String.[] = true
is_blank (String.◌∷◌ c s) = is_space (code c) && is_blank s

-- `x in xs`
abbrev pub mem_str : String → List String → Bool
mem_str x [] = false
mem_str x (y ∷ ys) = str_eq x y || mem_str x ys

-- `len(set(xs)) == len(xs)`
abbrev pub distinct : List String → Bool
distinct [] = true
distinct (x ∷ xs) = elim (mem_str x xs) [ true ↦ false | false ↦ distinct xs ]
