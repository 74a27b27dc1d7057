-- ===== src/Prelude/Text.antt =====
-- The text of a string literal as the object that the compiler lays out for it.
use Prim.Native.Nat.{ℕ}
use Prim.Native.Char.{code}
use Prim.Native.String.{String}
use mathlib.Core.List.{List, [], ◌∷◌}
use boz_os.Prelude.Lists.{get_or}
use boz_os.Prelude.Words.{Buf}

-- The code points: the bytes, for the texts are ASCII.
abbrev pub codes : String → List ℕ
codes String.[] = []
codes (String.◌∷◌ c s) = code c ∷ codes s

-- The bytes of the literal, with its terminator.
unfoldable pub literal : String → Buf
literal s q = get_or (codes s) q 0
