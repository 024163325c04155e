-- ===== src/NinjaDeps/Format.antt =====
-- The log format as ninja writes it, and the state that a sequence of records stands for.
use herbarium.Base.{
  ℕ, zero, suc, ◌+◌, ◌-◌, ◌*◌, ◌%◌, ◌^◌, ◌≤◌, ◌<◌, ◌≡◌, refl, ap, ◌∙◌, List, [], ◌∷◌, ◌++◌, arith,
  Bytes, length, length-append, All, insert, list_eq, nat_eq,
}
use herbarium.NinjaDeps.{Log, strip_nuls}
use herbarium.NinjaDeps.Words.{le32, le32s}

-- one record: a path, or the inputs of an output with its time stamp
pub data Entry : Type 0 where
  path : Bytes → Entry
  deps : (out mtime_low mtime_high : ℕ) → List ℕ → Entry

abbrev pub nuls : ℕ → Bytes
nuls zero = []
nuls (suc n) = 0 ∷ nuls n

abbrev pub padded : Bytes → Bytes
padded p = p ++ nuls ((4 - length p % 4) % 4)

-- the body of a record, where `n` paths stand before it
abbrev pub body : ℕ → Entry → Bytes
body n (path p) = padded p ++ le32 (2 ^ 32 - 1 - n)
body n (deps out low high ids) = le32 out ++ le32 low ++ le32 high ++ le32s ids

-- bit 31 is set on a deps record
abbrev pub head_word : ℕ → Entry → ℕ
head_word n (path p) = length (body n (path p))
head_word n (deps out low high ids) = 2 ^ 31 + length (body n (deps out low high ids))

abbrev pub encode : ℕ → Entry → Bytes
encode n e = le32 (head_word n e) ++ body n e

abbrev pub count_after : ℕ → Entry → ℕ
count_after n (path p) = suc n
count_after n (deps _ _ _ _) = n

abbrev pub encode_all : ℕ → List Entry → Bytes
encode_all n [] = []
encode_all n (e ∷ es) = encode n e ++ encode_all (count_after n e) es

-- What ninja may write: paths that do not end in a NUL, words of 32 bits, records within the cap.
abbrev pub IsWritable : ℕ → Entry → Type 0
IsWritable n (path p) = (strip_nuls p ≡ p) × (length p + 8 ≤ 2 ^ 24) × (n < 2 ^ 32)
IsWritable n (deps out low high ids) =
    (out < 2 ^ 32)
    × (low < 2 ^ 32)
    × (high < 2 ^ 32)
    × All (λ i. i < 2 ^ 32) ids
    × (12 + 4 * length ids ≤ 2 ^ 24)

abbrev pub AllWritable : ℕ → List Entry → Type 0
AllWritable n [] = Unit
AllWritable n (e ∷ es) = IsWritable n e × AllWritable (count_after n e) es

-- the registered paths after a record, and the log
abbrev pub paths_after : List Bytes → Entry → List Bytes
paths_after paths (path p) = paths ++ p ∷ []
paths_after paths (deps _ _ _ _) = paths

-- the path of the record with the number, if there is one
abbrev pub path_number : List Bytes → ℕ → List Bytes
path_number [] n = []
path_number (p ∷ ps) zero = p ∷ []
path_number (p ∷ ps) (suc n) = path_number ps n

-- the paths with the numbers, in their order, but for the numbers that no path has
abbrev pub numbered : List Bytes → List ℕ → List Bytes
numbered paths [] = []
numbered paths (n ∷ ns) = path_number paths n ++ numbered paths ns

-- A deps record replaces what was recorded for its output. One for an unknown output is skipped.
abbrev pub record_deps : Log → List Bytes → List Bytes → Log
record_deps log [] files = log
record_deps log (o ∷ os) files = record log { deps = insert o files log.deps }

abbrev pub log_after : Log → List Bytes → Entry → Log
log_after log paths (path p) = log
log_after log paths (deps out _ _ ids) =
    record_deps log (path_number paths out) (numbered paths ids)

abbrev pub replay : Log → List Bytes → List Entry → Log
replay log paths [] = log
replay log paths (e ∷ es) = replay (log_after log paths e) (paths_after paths e) es

length-nuls : (n : ℕ) → length (nuls n) ≡ n
length-nuls zero = refl
length-nuls (suc n) = ap suc (length-nuls n)

length-le32s : (ns : List ℕ) → length (le32s ns) ≡ 4 * length ns
length-le32s [] = refl
length-le32s (n ∷ ns) = omega (arith, length-le32s ns)

strip_nuls-nuls : (n : ℕ) → strip_nuls (nuls n) ≡ []
unfolding strip_nuls
strip_nuls-nuls zero = refl
strip_nuls-nuls (suc n) = rw (strip_nuls-nuls n)

strip_nuls-append : (p : Bytes) (n : ℕ) → strip_nuls (p ++ nuls n) ≡ strip_nuls p
unfolding strip_nuls
strip_nuls-append [] n = strip_nuls-nuls n
strip_nuls-append (c ∷ p) n = rw (strip_nuls-append p n)

pub strip_nuls-padded : (p : Bytes) → strip_nuls p ≡ p → strip_nuls (padded p) ≡ p
strip_nuls-padded p h = strip_nuls-append p _ ∙ h

pub length-body :
    (n : ℕ) (e : Entry) → IsWritable n e → (4 ≤ length (body n e)) × (length (body n e) ≤ 2 ^ 24)
length-body n (path p) h = omega (
  arith,
  length-append (padded p) (le32 (2 ^ 32 - 1 - n)),
  length-append p (nuls ((4 - length p % 4) % 4)),
  length-nuls ((4 - length p % 4) % 4),
)
length-body n (deps out low high ids) h = omega (arith, length-le32s ids)

pub length-deps_body :
    (n out low high : ℕ) (ids : List ℕ)
    → length (body n (deps out low high ids)) ≡ 12 + 4 * length ids
length-deps_body n out low high ids = omega (arith, length-le32s ids)
