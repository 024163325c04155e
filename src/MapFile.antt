-- ===== src/MapFile.antt =====
-- internal/linkplane/mapfile.go: the linker's map file, read line by line.
mod Matches
mod Origins
mod Stable
mod Tests
use herbarium.Base.{
  ℕ, suc, ◌+◌, Bool, true, false, not, ◌&&◌, ◌||◌, List, [], ◌∷◌, ◌++◌, Option, none, some, Bytes,
  codes, has_prefix, lookup, insert, list_eq, nat_eq, ◌==◌, if◌then◌else◌, take, is_space,
  is_not_space, is_hex, is_word, is_letter, span, some_of, after, ◌>>=◌, list_beq,
}
use herbarium.Base.{index}

pub record ArchivePull : Type 0 where
  pub object : Bytes
  pub referrer : Bytes
  pub symbol : Bytes

pub record MapFile : Type 0 where
  pub symbol_origin : List (Bytes × Bytes)
  pub archive_pulls : List ArchivePull

-- `idx` is the first place of ".a.p/".
pub archive_for : Bytes → Bytes
archive_for object_path = elim (index object_path (codes ".a.p/")) [
  | none ↦ []
  | some idx ↦ take (idx + 2) object_path
]

abbrev pub is_empty_line : Bytes → Bool
is_empty_line [] = true
is_empty_line (c ∷ s) = false

-- `\S+\.o`, for a text without spaces
pub is_object : Bytes → Bool
is_object [] = false
is_object (c ∷ s) = list_beq s (codes ".o") || is_object s

-- `(\S+\.o)$`
abbrev pub object_at_end : Bytes → Option Bytes
object_at_end s = do
  (object, rest) ← some_of is_not_space s
  if is_empty_line rest && is_object object then some object else none

-- `[\w.]`
abbrev in_section : ℕ → Bool
in_section c = is_word c || c == b'.'

-- `[\w.$@]`
abbrev in_symbol : ℕ → Bool
in_symbol c = is_word c || (c == b'.' || (c == b'$' || c == b'@'))

-- `\s+\.[\w.]+`
abbrev pub section_name : Bytes → Option Bytes
section_name line = do
  (_, s) ← some_of is_space line
  s ← after (codes ".") s
  (_, s) ← some_of in_section s
  some s

-- `\s+0x[0-9a-fA-F]+`
abbrev pub hex_number : Bytes → Option Bytes
hex_number line = do
  (_, s) ← some_of is_space line
  s ← after (codes "0x") s
  (_, s) ← some_of is_hex s
  some s

-- `mfContribTailRe`: ^\s+0x[0-9a-fA-F]+\s+0x[0-9a-fA-F]+\s+(\S+\.o)$
pub contrib_tail : Bytes → Option Bytes
contrib_tail line = do
  s ← hex_number line
  s ← hex_number s
  (_, s) ← some_of is_space s
  object_at_end s

-- `mfContribRe`: ^\s+\.[\w.]+\s+0x[0-9a-fA-F]+\s+0x[0-9a-fA-F]+\s+(\S+\.o)$
pub contrib : Bytes → Option Bytes
contrib line = do s ← section_name line; contrib_tail s

-- `mfContribHeadRe`: ^\s+\.[\w.]+\s*$
pub contrib_head : Bytes → Bool
contrib_head line = elim (section_name line) [
  | none ↦ false
  | some s ↦ is_empty_line (span is_space s).1
]

-- `mfSymRe`: ^\s+0x[0-9a-fA-F]+\s+([A-Za-z_][\w.$@]*)$
abbrev symbol_at_end : Bytes → Option Bytes
symbol_at_end [] = none
symbol_at_end (c ∷ s) =
    if (is_letter c || c == b'_') && is_empty_line (span in_symbol s).1 then some (c ∷ s) else none

pub symbol_line : Bytes → Option Bytes
symbol_line line = do s ← hex_number line; (_, s) ← some_of is_space s; symbol_at_end s

-- `mfLoadRef`: ^\s+(\S+\.o)\s+\(([^)]+)\)$
pub load_ref : Bytes → Option (Bytes × Bytes)
load_ref line = do
  (_, s) ← some_of is_space line
  (object, s) ← some_of is_not_space s
  (_, s) ← some_of is_space s
  s ← after (codes "(") s
  (symbol, s) ← some_of (λ c. not (c == b')')) s
  s ← after (codes ")") s
  if is_object object && is_empty_line s then some (object, symbol) else none

pub data Phase : Type 0 where
  header : Phase
  load_list : Phase
  sections : Phase

-- the variables of `ReadMap`
pub record Reader : Type 0 where
  pub mf : MapFile
  pub phase : Phase
  pub pending_load_object : Bytes
  pub cur_contrib_object : Bytes
  pub pending_split_header : Bool

-- the headings that end the load list
abbrev pub ends_load_list : Bytes → Bool
ends_load_list trimmed =
    has_prefix trimmed (codes "Merging program properties")
    || has_prefix trimmed (codes "Discarded input sections")
    || has_prefix trimmed (codes "As-needed library")
    || has_prefix trimmed (codes "Memory Configuration")

abbrev pub add_pull : Reader → Option (Bytes × Bytes) → Reader
add_pull r none = r
add_pull r (some (referrer, symbol)) = if is_empty_line r.pending_load_object then r else record r {
  mf = record r.mf {
    archive_pulls =
        r.mf.archive_pulls
        ++ record { object = r.pending_load_object; referrer = referrer; symbol = symbol } ∷ [];
  };
  pending_load_object = [];
}

abbrev pub load_entry : Reader → Option Bytes → Option (Bytes × Bytes) → Reader
load_entry r (some object) ref = record r { pending_load_object = object }
load_entry r none ref = add_pull r ref

-- phase 1
abbrev pub load_line : Reader → Bytes → Bytes → Reader
load_line r line trimmed =
    if is_empty_line trimmed
    then r
    else if ends_load_list trimmed
    then record r { phase = sections }
    else load_entry r (object_at_end trimmed) (load_ref line)

-- the first object that supplies a symbol stays
abbrev pub unless_seen : Reader → Bytes → Option Bytes → Reader
unless_seen r name (some seen) = r
unless_seen r name none = record r {
  mf = record r.mf { symbol_origin = insert name r.cur_contrib_object r.mf.symbol_origin };
}

abbrev pub add_symbol : Reader → Bytes → Reader
add_symbol r name = unless_seen r name (lookup name r.mf.symbol_origin)

-- a line that is not indented ends the contribution
abbrev pub close_contrib : Reader → Bytes → Reader
close_contrib r line =
    if has_prefix line (codes "  ") then r else record r { cur_contrib_object = [] }

abbrev pub symbol_or_end : Reader → Option Bytes → Bytes → Reader
symbol_or_end r none line = close_contrib r line
symbol_or_end r (some name) line =
    if is_empty_line r.cur_contrib_object then close_contrib r line else add_symbol r name

abbrev pub contrib_or_symbol : Reader → Option Bytes → Bytes → Reader
contrib_or_symbol r (some object) line = record r { cur_contrib_object = object }
contrib_or_symbol r none line =
    if contrib_head line
    then record r { pending_split_header = true }
    else symbol_or_end r (symbol_line line) line

-- phase 2, when the header before the line, if it was one, does not go on in it
abbrev pub section_line : Reader → Bytes → Reader
section_line r line = contrib_or_symbol r (contrib line) line

abbrev pub split_line : Reader → Option Bytes → Bytes → Reader
split_line r (some object) line = record r { cur_contrib_object = object }
split_line r none line = section_line r line

module _ (trim_space : Bytes → Bytes) where
  abbrev pub read_in : Phase → Reader → Bytes → Reader
  read_in header r line =
      if has_prefix (trim_space line) (codes "Archive member included")
      then record r { phase = load_list }
      else r
  read_in load_list r line = load_line r line (trim_space line)
  read_in sections r line =
      if r.pending_split_header
      then split_line (record r { pending_split_header = false }) (contrib_tail line) line
      else section_line r line

  pub line_loop : Reader → List Bytes → Reader
  line_loop r [] = r
  line_loop r (line ∷ lines) = line_loop (read_in r.phase r line) lines

  abbrev pub start : Reader
  start = record {
    mf = record { symbol_origin = []; archive_pulls = [] };
    phase = header;
    pending_load_object = [];
    cur_contrib_object = [];
    pending_split_header = false;
  }

  pub read_map : List Bytes → MapFile
  read_map lines = (line_loop start lines).mf
