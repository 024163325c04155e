-- ===== src/Base/Scan.antt =====
-- The parts of a regular expression that the parsers use: one class of bytes after another, each
-- taken as far as it goes. A byte that ends a class is in no class that may follow it directly, so
-- that there is only one way to match.
use Prim.Native.Nat.{ℕ, ◌+◌, ◌*◌, ◌-◌}
use mathlib.Core.Bool.{Bool, not, ◌&&◌, ◌||◌}
use mathlib.Core.List.{[], ◌∷◌}
use mathlib.Core.Option.{Option, none, some}
use herbarium.Base.Tests.{leb, ◌==◌, if◌then◌else◌}
use herbarium.Base.Text.{Bytes}

-- `\s`
abbrev pub is_space : ℕ → Bool
is_space c = c == 32 || (leb 9 c && leb c 10 || (leb 12 c && leb c 13))

-- `\S`
abbrev pub is_not_space : ℕ → Bool
is_not_space c = not (is_space c)

abbrev pub is_digit : ℕ → Bool
is_digit c = leb b'0' c && leb c b'9'

-- `[0-9a-fA-F]`
abbrev pub is_hex : ℕ → Bool
is_hex c = is_digit c || (leb b'a' c && leb c b'f' || (leb b'A' c && leb c b'F'))

abbrev pub is_letter : ℕ → Bool
is_letter c = leb b'a' c && leb c b'z' || (leb b'A' c && leb c b'Z')

-- `\w`
abbrev pub is_word : ℕ → Bool
is_word c = is_letter c || (is_digit c || c == b'_')

-- the bytes of a class at the start, and what follows them
abbrev pub span : (ℕ → Bool) → Bytes → Bytes × Bytes
span test [] = ([], [])
span test (c ∷ s) = let rest = span test s in if test c then (c ∷ rest.0, rest.1) else ([], c ∷ s)

-- `[...]+`
abbrev pub some_of : (ℕ → Bool) → Bytes → Option (Bytes × Bytes)
some_of test [] = none
some_of test (c ∷ s) = if test c then some (span test (c ∷ s)) else none

-- a literal
abbrev pub after : Bytes → Bytes → Option Bytes
after [] s = some s
after (c ∷ p) [] = none
after (c ∷ p) (d ∷ s) = if d == c then after p s else none

-- the value of hexadecimal digits
abbrev hex_digit : ℕ → ℕ
hex_digit c = if is_digit c then c - b'0' else if leb b'a' c then c - b'a' + 10 else c - b'A' + 10

abbrev pub hex_from : ℕ → Bytes → ℕ
hex_from n [] = n
hex_from n (c ∷ s) = hex_from (n * 16 + hex_digit c) s

-- a step that may fail, for `do` blocks
infixl 5 ◌>>=◌
abbrev pub ◌>>=◌ {ℓ κ} : {A : Type ℓ} {B : Type κ} → Option A → (A → Option B) → Option B
none >>= f = none
some a >>= f = f a
