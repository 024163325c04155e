-- ===== src/GccDump/OptRecord.antt =====
-- internal/gccdump/optrecord.go: the inlining decisions in the optimization record of gcc. The
-- decoding of JSON is left out: a file is what the steps of it give.
mod Distinct
mod Decisions
mod Kept
mod Tests
use herbarium.Base.{
  ℕ, suc, ◌+◌, ◌-◌, ◌≡◌, ◌↔◌, arith, Bool, true, false, not, ◌||◌, ◌&&◌, List, [], ◌∷◌, ◌++◌,
  Option, none, some, Bytes, codes, ltb, ◌==◌, if◌then◌else◌, index, take, drop, length, list_beq,
  list_eq, nat_eq, pair_eq, Eq, contains, lookup, insert, ◌>>=◌,
}
use herbarium.GccDump.{InlineRecord, OptRecordDump}
use herbarium.GccDump.CgraphDump.{trim_white, trim_prefix, has_suffix, contains_text}

-- the pass tree
mutual
  pub data OptPass : Type 0 where
    opt_pass : Bytes → Bytes → List Bytes → OptPasses → OptPass

  pub data OptPasses : Type 0 where
    no_passes : OptPasses
    and_passes : OptPass → OptPasses → OptPasses

pub record OptLocation : Type 0 where
  pub file : Bytes
  pub line : ℕ
  pub column : ℕ

-- An item of a message: a string, an object with its `symtab_node`, which is empty if it has none,
-- or any other value.
pub data MessageItem : Type 0 where
  text node : Bytes → MessageItem
  other_value : MessageItem

pub record OptRecordEntry : Type 0 where
  pub kind : Bytes
  pub pass : Bytes
  pub message : List MessageItem
  pub location : Option OptLocation

-- What the decoding gives: how many elements the array has, and of the three, `none` where it fails.
pub record OptFile : Type 0 where
  pub elements : ℕ
  pub format : Option Bytes
  pub tree : Option OptPasses
  pub records : Option (List OptRecordEntry)

pub data OptError : Type 0 where
  not_json bad_metadata bad_tree bad_records : OptError
  too_few : ℕ → OptError
  unsupported_format : Bytes → OptError

pub data OptResult : Type 0 where
  dump_of : OptRecordDump → OptResult
  refused : OptError → OptResult

abbrev pub supported_format : Bytes
supported_format = codes "1"

-- `collectInlinePasses`: the names of the passes with the optgroup, by id
unfoldable mutual
  pub collect_pass : OptPass → List (Bytes × Bytes) → List (Bytes × Bytes)
  collect_pass (opt_pass id name groups children) out =
      collect_inline_passes children
        (if contains groups (codes "inline") then insert id name out else out)

  pub collect_inline_passes : OptPasses → List (Bytes × Bytes) → List (Bytes × Bytes)
  collect_inline_passes no_passes out = out
  collect_inline_passes (and_passes p ps) out = collect_inline_passes ps (collect_pass p out)

-- `strings.LastIndex(s, "/")`, from the place `at` on
abbrev pub last_index : Option ℕ → ℕ → Bytes → Option ℕ
last_index found at [] = found
last_index found at (c ∷ s) = last_index (if c == b'/' then some at else found) (suc at) s

pub record NodeRef : Type 0 where
  pub name : Bytes
  pub id : Bytes

abbrev split_at : Bytes → Option ℕ → Option NodeRef
split_at s none = none
split_at s (some i) =
    if not (ltb 0 i) || i == length s - 1
    then none
    else some (record { name = take i s; id = drop (i + 1) s })

unfoldable pub split_node : Bytes → Option NodeRef
split_node s = split_at s (last_index none 0 s)

abbrev cut_line : Bytes → Option ℕ → Bytes
cut_line s none = s
cut_line s (some i) = take i s

abbrev trim_suffix : Bytes → Bytes → Bytes
trim_suffix s p = if has_suffix s p then take (length s - length p) s else s

unfoldable pub clean_reason : Bytes → Bytes
clean_reason tail =
    let line = trim_white (cut_line tail (index tail (b'\n' ∷ []))) in
    trim_white (trim_suffix (trim_white (trim_prefix line (codes ","))) (codes "."))

-- the nodes, the text before each, and the text behind the last
pub record Message : Type 0 where
  pub nodes : List Bytes
  pub seps : List Bytes
  pub cur : Bytes

abbrev pub is_no_node : Bytes → Bool
is_no_node [] = true
is_no_node (c ∷ s) = false

abbrev read_item : Message → MessageItem → Message
read_item m (text s) = record m { cur = m.cur ++ s }
read_item m other_value = m
read_item m (node n) =
    if is_no_node n
    then m
    else record { nodes = m.nodes ++ n ∷ []; seps = m.seps ++ m.cur ∷ []; cur = [] }

unfoldable pub read_items : Message → List MessageItem → Message
read_items m [] = m
read_items m (i ∷ items) = read_items (read_item m i) items

abbrev pub no_items : Message
no_items = record { nodes = []; seps = []; cur = [] }

abbrev pub is_success : OptRecordEntry → Bool
is_success rec = list_beq rec.kind (codes "success")

abbrev no_location : Option OptLocation → OptLocation
no_location none = record { file = []; line = 0; column = 0 }
no_location (some at) = at

-- the record of a caller and a callee
abbrev pub decision : OptRecordEntry → Bytes → Bytes → NodeRef → NodeRef → InlineRecord
decision rec pass trailing caller callee =
    let at = no_location rec.location in
    record {
      pass = pass;
      caller_local_id = caller.id;
      callee_local_id = callee.id;
      caller_name = caller.name;
      callee_name = callee.name;
      inlined = is_success rec;
      reason = if is_success rec then [] else clean_reason trailing;
      file = at.file;
      line = at.line;
      column = at.column;
    }

-- which of the two nodes is the caller, by the text between them
abbrev pub ordered :
    OptRecordEntry → Bytes → Bytes → Bytes → NodeRef → NodeRef → Option InlineRecord
ordered rec pass trailing sep first second =
    if contains_text sep (codes "->")
    then some (decision rec pass trailing first second)
    else if contains_text sep (codes " into ") || contains_text sep (codes " to ")
    then some (decision rec pass trailing second first)
    else none

-- of the nodes and the texts, the first two
abbrev pub from_parts :
    OptRecordEntry → Bytes → Bytes → List Bytes → List Bytes → Option InlineRecord
from_parts rec pass trailing (a ∷ b ∷ nodes) (before ∷ sep ∷ seps) = do
  first ← split_node a
  second ← split_node b
  ordered rec pass trailing sep first second
from_parts rec pass trailing nodes seps = none

unfoldable pub record_from_message : OptRecordEntry → Bytes → Option InlineRecord
record_from_message rec pass =
    let m = read_items no_items rec.message in from_parts rec pass m.cur m.nodes m.seps

-- The key of the map `seen` is the record itself.
abbrev pub bool_beq : Bool → Bool → Bool
bool_beq true b = b
bool_beq false b = not b

pub bool_beq_iff : (a b : Bool) → (bool_beq a b ≡ true) ↔ (a ≡ b)
bool_beq_iff true true = ground arith
bool_beq_iff true false = ground arith
bool_beq_iff false true = ground arith
bool_beq_iff false false = ground arith

instance abbrev pub bool_eq : Eq Bool
bool_eq = record { beq = bool_beq; beq_iff = bool_beq_iff }

abbrev pub Key : Type 0
Key = (Bytes × (Bytes × (Bytes × Bytes))) × ((Bytes × (Bool × Bytes)) × (Bytes × (ℕ × ℕ)))

abbrev pub key_of : InlineRecord → Key
key_of r = (
  (r.pass, (r.caller_local_id, (r.callee_local_id, r.caller_name))),
  ((r.callee_name, (r.inlined, r.reason)), (r.file, (r.line, r.column))),
)

abbrev pub keys_of : List InlineRecord → List Key
keys_of [] = []
keys_of (r ∷ rs) = key_of r ∷ keys_of rs

abbrev pub is_decision : OptRecordEntry → Bool
is_decision rec = is_success rec || list_beq rec.kind (codes "failure")

-- the record of an entry of the file, if it is kept
unfoldable pub entry_record : List (Bytes × Bytes) → OptRecordEntry → Option InlineRecord
entry_record passes rec = elim (lookup rec.pass passes) [
  | none ↦ none
  | some pass ↦ if is_decision rec then record_from_message rec pass else none
]

abbrev pub add_unseen : List InlineRecord → Option InlineRecord → List InlineRecord
add_unseen out none = out
add_unseen out (some ir) = if contains (keys_of out) (key_of ir) then out else out ++ ir ∷ []

unfoldable pub entry_loop :
    List (Bytes × Bytes) → List InlineRecord → List OptRecordEntry → List InlineRecord
entry_loop passes out [] = out
entry_loop passes out (rec ∷ recs) =
    entry_loop passes (add_unseen out (entry_record passes rec)) recs

abbrev from_records : OptPasses → Option (List OptRecordEntry) → OptResult
from_records tree none = refused bad_records
from_records tree (some recs) =
    dump_of (record { inline_records = entry_loop (collect_inline_passes tree []) [] recs })

abbrev from_tree : Option OptPasses → Option (List OptRecordEntry) → OptResult
from_tree none recs = refused bad_tree
from_tree (some tree) recs = from_records tree recs

abbrev from_format : OptFile → Option Bytes → OptResult
from_format f none = refused bad_metadata
from_format f (some format) =
    if not (list_beq format supported_format)
    then refused (unsupported_format format)
    else from_tree f.tree f.records

-- `none` is a text that is no JSON array.
unfoldable pub parse_opt_record : Option OptFile → OptResult
parse_opt_record none = refused not_json
parse_opt_record (some f) =
    if ltb f.elements 3 then refused (too_few f.elements) else from_format f f.format
