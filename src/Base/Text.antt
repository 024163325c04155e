-- ===== src/Base/Text.antt =====
-- Go strings as lists of bytes, with the functions of package `strings` that the code calls.
use Prim.Native.Nat.{ℕ, suc}
use Prim.Native.Char.{code}
use Prim.Native.String.{String}
use mathlib.Core.Bool.{Bool, true, false, ◌&&◌}
use mathlib.Core.List.{List, [], ◌∷◌}
use mathlib.Core.Option.{Option, none, some}
use herbarium.Base.Tests.{◌==◌, if◌then◌else◌}

abbrev pub Bytes : Type 0
Bytes = List ℕ

-- the code points of a literal, which are its bytes if it is ASCII
abbrev pub codes : String → Bytes
codes String.[] = []
codes (String.◌∷◌ c s) = code c ∷ codes s

-- `strings.HasPrefix(s, p)`
abbrev pub has_prefix : Bytes → Bytes → Bool
has_prefix s [] = true
has_prefix [] (c ∷ p) = false
has_prefix (d ∷ s) (c ∷ p) = d == c && has_prefix s p

-- `strings.Index` and `bytes.Index`
unfoldable pub index : Bytes → Bytes → Option ℕ
index [] pattern = if has_prefix [] pattern then some 0 else none
index (c ∷ s) pattern =
    let rest = index s pattern in
    if has_prefix (c ∷ s) pattern then some 0 else elim rest [ none ↦ none | some i ↦ some (suc i) ]
