-- ===== src/Base/Texts.antt =====
-- Texts as the bytes that the program walks, and the C functions on them that it calls.
use Prim.Native.Char.{code}
use Prim.Native.Nat.{ℕ}
use Prim.Native.String.{String}
use mathlib.Core.Bool.{Bool, true, false, ◌&&◌, ◌||◌}
use mathlib.Core.List.{List, [], ◌∷◌}
use mathlib.Core.Logic.{◌↔◌}
use mathlib.Core.Path.{◌≡◌}
use native.Mathlib.Omega.{arith}
use emmbus2influx.Base.Tests.{◌==◌}

abbrev pub Bytes : Type 0
Bytes = List ℕ

-- The bytes of a literal; every literal of the development is ASCII.
abbrev pub codes : String → Bytes
codes String.[] = []
codes (String.◌∷◌ c s) = code c ∷ codes s

-- `strcmp (a, b) == 0`
unfoldable pub same_text : Bytes → Bytes → Bool
same_text [] [] = true
same_text [] (d ∷ other) = false
same_text (c ∷ text) [] = false
same_text (c ∷ text) (d ∷ other) = same_text text other && c == d

pub same_text_iff : (text other : Bytes) → (same_text text other ≡ true) ↔ (text ≡ other)
unfolding same_text
same_text_iff [] [] = ground arith
same_text_iff [] (d ∷ other) = ground arith
same_text_iff (c ∷ text) [] = ground arith
same_text_iff (c ∷ text) (d ∷ other) = let later = same_text_iff text other in ground (arith, later)

-- `strchr (set, c) != NULL` for a `c` other than NUL
unfoldable pub contains : Bytes → ℕ → Bool
contains [] c = false
contains (x ∷ xs) c = x == c || contains xs c
