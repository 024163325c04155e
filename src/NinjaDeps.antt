-- ===== src/NinjaDeps.antt =====
-- internal/ninjadeps/ninjadeps.go: `Read` and `DepsFor`, over the bytes of a .ninja_deps file.
-- A path is a list of bytes. `os.Open` and the directory lookup of `ReadForBuildDir` are left out.
pub mod Words
pub mod Format
mod Inputs
pub mod RoundTrip
pub mod Total
mod Tests
use herbarium.Base.{
  ℕ, zero, suc, ◌+◌, ◌-◌, ◌/◌, ◌%◌, ◌^◌, Bool, true, false, not, ◌||◌, List, [], ◌∷◌, ◌++◌, Option,
  none, some, Bytes, codes, ltb, ◌==◌, if◌then◌else◌, length, take, drop, get_elem?, lookup, insert,
  list_beq, list_eq, nat_eq,
}
use herbarium.NinjaDeps.Words.{Word, eof, short, word, read_u32, u32_at, words}

abbrev pub magic : Bytes
magic = codes "# ninjadeps\n"

abbrev pub supported_version : ℕ
supported_version = 4

pub record Log : Type 0 where
  pub version : ℕ
  pub deps : List (Bytes × List Bytes)

pub data Error : Type 0 where
  short_header bad_magic short_version : Error
  unsupported : ℕ → Error
  malformed_deps : ℕ → Error
  bad_checksum : ℕ → Error

-- What `Read` returns: no log, a log with an error, or a log. The loop's fuel is not the code's.
pub data Outcome : Type 0 where
  failed : Error → Outcome
  broken : Log → Error → Outcome
  read : Log → Outcome
  out_of_fuel : Outcome

-- one round of the loop: it returns, or goes on with the log, `paths` and what is unread
pub data Round : Type 0 where
  stop : Outcome → Round
  next : Log → List Bytes → Bytes → Round

-- `for len(raw) > 0 && raw[len(raw)-1] == 0 { raw = raw[:len(raw)-1] }`
unfoldable pub strip_nuls : Bytes → Bytes
strip_nuls [] = []
strip_nuls (c ∷ s) = elim (strip_nuls s) [ [] ↦ if c == 0 then [] else c ∷ [] | d ∷ t ↦ c ∷ d ∷ t ]

-- the input ids that are registered, as paths
unfoldable pub inputs : List Bytes → List ℕ → List Bytes
inputs paths [] = []
inputs paths (id ∷ ids) = elim (get_elem? paths id) [
  | none ↦ inputs paths ids
  | some p ↦ p ∷ inputs paths ids
]

unfoldable pub deps_record : Log → List Bytes → ℕ → Bytes → Bytes → Round
deps_record log paths size buf rest =
    if ltb size 12 || not ((size - 12) % 4 == 0)
    then stop (broken log (malformed_deps size))
    else elim (get_elem? paths (u32_at buf)) [
      | none ↦ next log paths rest
      | some out ↦
          next (record log { deps = insert out (inputs paths (words (drop 12 buf))) log.deps })
            paths rest
    ]

unfoldable pub path_record : Log → List Bytes → ℕ → Bytes → Bytes → Round
path_record log paths size buf rest =
    let raw = strip_nuls (take (size - 4) buf) in
    let checksum = u32_at (drop (size - 4) buf) in
    if not (checksum == 2 ^ 32 - 1 - length paths % 2 ^ 32)
    then stop (broken log (bad_checksum (length paths)))
    else next log (paths ++ raw ∷ []) rest

-- after the header word `head` of a record
unfoldable pub record_at : Log → List Bytes → ℕ → Bytes → Round
record_at log paths head rest =
    let size = head % 2 ^ 31 in
    if ltb size 4 || ltb (2 ^ 24) size
    then stop (read log)
    else if ltb (length rest) size
    then stop (read log)
    else if head / 2 ^ 31 % 2 == 1
    then deps_record log paths size (take size rest) (drop size rest)
    else path_record log paths size (take size rest) (drop size rest)

unfoldable pub round : Log → List Bytes → Bytes → Round
round log paths s = elim (read_u32 s) [
  | eof ↦ stop (read log)
  | short ↦ stop (read log)
  | word head rest ↦ record_at log paths head rest
]

unfoldable pub records : ℕ → Log → List Bytes → Bytes → Outcome
records zero log paths s = out_of_fuel
records (suc fuel) log paths s = elim (round log paths s) [
  | stop o ↦ o
  | next log' paths' rest ↦ records fuel log' paths' rest
]

abbrev pub empty_log : Log
empty_log = record { version = supported_version; deps = [] }

unfoldable pub read_version : Bytes → Outcome
read_version s = elim (read_u32 s) [
  | eof ↦ failed short_version
  | short ↦ failed short_version
  | word version rest ↦
      if not (version == supported_version)
      then failed (unsupported version)
      else records (suc (length rest)) empty_log [] rest
]

-- `Read`, on the content of the file
unfoldable pub read_log : Bytes → Outcome
read_log s =
    if ltb (length s) (length magic)
    then failed short_header
    else if not (list_beq (take (length magic) s) magic)
    then failed bad_magic
    else read_version (drop (length magic) s)

unfoldable pub deps_for : Log → Bytes → Option (List Bytes)
deps_for log output = lookup output log.deps
