-- ===== src/NinjaDeps/Words.antt =====
-- `encoding/binary`: little-endian 32-bit words.
use herbarium.Base.{
  ℕ, ◌+◌, ◌*◌, ◌/◌, ◌%◌, ◌^◌, ◌<◌, List, [], ◌∷◌, ◌++◌, ◌≡◌, refl, arith, Bytes, All,
}

-- `binary.Read` of a uint32: no byte is left, fewer than four are, or the word and the rest
pub data Word : Type 0 where
  eof short : Word
  word : ℕ → Bytes → Word

abbrev pub u32 : ℕ → ℕ → ℕ → ℕ → ℕ
u32 a b c d = a + b * 256 + c * 65536 + d * 16777216

unfoldable pub read_u32 : Bytes → Word
read_u32 [] = eof
read_u32 (a ∷ b ∷ c ∷ d ∷ s) = word (u32 a b c d) s
read_u32 _ = short

-- `binary.LittleEndian.Uint32`, on at least four bytes
unfoldable pub u32_at : Bytes → ℕ
u32_at (a ∷ b ∷ c ∷ d ∷ s) = u32 a b c d
u32_at _ = 0

-- the words of a buffer, one after another
unfoldable pub words : Bytes → List ℕ
words (a ∷ b ∷ c ∷ d ∷ s) = u32 a b c d ∷ words s
words _ = []

-- how a word is written
abbrev pub le32 : ℕ → Bytes
le32 n = n % 256 ∷ n / 256 % 256 ∷ n / 65536 % 256 ∷ n / 16777216 % 256 ∷ []

pub u32-le32 :
    (n : ℕ) → n < 2 ^ 32 → u32 (n % 256) (n / 256 % 256) (n / 65536 % 256) (n / 16777216 % 256) ≡ n
u32-le32 n h = omega arith

abbrev pub le32s : List ℕ → Bytes
le32s [] = []
le32s (n ∷ ns) = le32 n ++ le32s ns

pub words-le32s : (ns : List ℕ) → All (λ n. n < 2 ^ 32) ns → words (le32s ns) ≡ ns
unfolding words
words-le32s [] h = refl
words-le32s (n ∷ ns) (h, hs) = rw (u32-le32 n h, words-le32s ns hs)
