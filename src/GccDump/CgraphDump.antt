-- ===== src/GccDump/CgraphDump.antt =====
-- `ParseCgraph` of internal/gccdump/cgraph.go, on the lines of the dump. Each regular expression is
-- a function, with the expression above it. White space is that of ASCII.
pub mod Merged
pub mod Targets
mod Calls
mod References
mod Tests
use herbarium.Base.{
  ℕ, zero, suc, ◌+◌, ◌-◌, ◌*◌, ◌^◌, Bool, true, false, not, ◌||◌, ◌&&◌, List, [], ◌∷◌, ◌++◌, Option,
  none, some, Bytes, codes, ltb, leb, ◌==◌, if◌then◌else◌, has_prefix, index, take, drop, length,
  list_beq, list_eq, nat_eq, is_space, is_digit, is_letter, is_word, span, some_of, after, ◌>>=◌,
  map,
}
use herbarium.GccDump.{Ref, Call, IndirectSite, Function, Cgraph, is_empty, merge_symbol}
use herbarium.Link.Nm.{fields}

-- `strings.TrimSpace`
abbrev pub is_white : ℕ → Bool
is_white c = c == 32 || leb 9 c && leb c 13

unfoldable pub trim_right : Bytes → Bytes
trim_right [] = []
trim_right (c ∷ s) = elim (trim_right s) [
  | [] ↦ if is_white c then [] else c ∷ []
  | d ∷ t ↦ c ∷ d ∷ t
]

unfoldable pub trim_white : Bytes → Bytes
trim_white s = trim_right (span is_white s).1

-- `strings.Contains`, `strings.TrimPrefix` and `strings.HasSuffix`
abbrev pub is_found : Option ℕ → Bool
is_found none = false
is_found (some i) = true

abbrev pub contains_text : Bytes → Bytes → Bool
contains_text s p = is_found (index s p)

abbrev pub trim_prefix : Bytes → Bytes → Bytes
trim_prefix s p = if has_prefix s p then drop (length p) s else s

abbrev pub has_suffix : Bytes → Bytes → Bool
has_suffix s p = leb (length p) (length s) && list_beq (drop (length s - length p) s) p

-- `[A-Za-z_]` and `[\w.$]`
abbrev pub is_name_start : ℕ → Bool
is_name_start c = is_letter c || c == b'_'

abbrev pub is_name_part : ℕ → Bool
is_name_part c = is_word c || (c == b'.' || c == b'$')

pub record TargetToken : Type 0 where
  pub name : Bytes
  pub id : Bytes
  pub rest : Bytes

abbrev id_after : Bytes → Bytes → Option TargetToken
id_after name rest = do
  s ← after (codes "/") rest
  found ← some_of is_digit s
  some (record { name = name; id = found.0; rest = found.1 })

-- `([A-Za-z_][\w.$]*)/(\d+)` at the start
unfoldable pub target_at : Bytes → Option TargetToken
target_at [] = none
target_at (c ∷ s) =
    if is_name_start c
    then id_after (span is_name_part (c ∷ s)).0 (span is_name_part (c ∷ s)).1
    else none

-- All matches of it, each with the text up to the next: what stands before the first, and the list.
-- The number is how much of the text belongs to a match.
unfoldable pub split_targets : ℕ → Bytes → Bytes × List (Bytes × Bytes)
split_targets k [] = ([], [])
split_targets (suc k) (c ∷ s) = split_targets k s
split_targets zero (c ∷ s) = elim (target_at (c ∷ s)) [
  | none ↦ let found = split_targets 0 s in (c ∷ found.0, found.1)
  | some t ↦
      let found = split_targets (length s - length t.rest) s in ([], (t.id, found.0) ∷ found.1)
]

-- the ids, with the tails behind them
abbrev pub targets_in : Bytes → List (Bytes × Bytes)
targets_in s = (split_targets 0 s).1

-- what stands between the first parentheses of a tail
abbrev pub up_to_close : ℕ → Bytes → Option ℕ → Bytes
up_to_close lp tail none = []
up_to_close lp tail (some rp) = if ltb 0 rp then take (rp - 1) (drop (lp + 1) tail) else []

abbrev pub from_open : Bytes → Option ℕ → Bytes
from_open tail none = []
from_open tail (some lp) = up_to_close lp tail (index (drop lp tail) (codes ")"))

abbrev pub ref_of : Bytes × Bytes → Ref
ref_of (id, tail) = record { target_local_id = id; kind = from_open tail (index tail (codes "(")) }

unfoldable pub parse_ref_list : Bytes → List Ref
parse_ref_list s = map ref_of (targets_in s)

abbrev pub call_of : Bytes × Bytes → Call
call_of (id, tail) = record {
  target_local_id = id;
  inlined = contains_text tail (codes "(inlined)");
}

unfoldable pub parse_call_list : Bytes → List Call
parse_call_list s = map call_of (targets_in s)

abbrev observation : Bytes → Bytes → Bytes → Function
observation id name linkage_name = record {
  local_id = id;
  name = name;
  linkage_name = linkage_name;
  kind = [];
  analyzed = false;
  body_removed = false;
  visibility_flags = [];
  address_taken = false;
  function_flags = [];
  clone_of_id = [];
  refs = [];
  called = [];
  indirect_sites = [];
}

abbrev is_not_close : ℕ → Bool
is_not_close c = not (c == b')')

abbrev only_if : Bool → Option (Unit {0})
only_if true = some tt
only_if false = none

-- `^([A-Za-z_][\w.$]*)/(\d+)\s+\(([^)]*)\)\s*$`
unfoldable pub symbol_header : Bytes → Option Function
symbol_header raw = do
  t ← target_at raw
  spaces ← some_of is_space t.rest
  inner ← after (codes "(") spaces.1
  closed ← after (codes ")") (span is_not_close inner).1
  _ ← only_if (is_empty (span is_space closed).1)
  some (observation t.id t.name (span is_not_close inner).0)

-- `^count:\d+`
abbrev starts_with_digit : Bytes → Bool
starts_with_digit [] = false
starts_with_digit (c ∷ s) = is_digit c

unfoldable pub is_count : Bytes → Bool
is_count tok = elim (after (codes "count:") tok) [ none ↦ false | some s ↦ starts_with_digit s ]

-- `^Clone of ([A-Za-z_][\w.$]*)/(\d+)$`: the id
unfoldable pub clone_of : Bytes → Option Bytes
clone_of trimmed = do
  s ← after (codes "Clone of ") trimmed
  t ← target_at s
  _ ← only_if (is_empty t.rest)
  some t.id

-- what follows the first place of a text
abbrev after_first : Bytes → Bytes → Option Bytes
after_first p s = elim (index s p) [ none ↦ none | some i ↦ some (drop (i + length p) s) ]

abbrev count_here : Bytes → Option Bytes
count_here s = do
  rest ← after (codes "num speculative call targets:") s
  found ← some_of is_digit (span is_space rest).1
  some found.0

abbrev last_count : Bytes → Option Bytes
last_count [] = none
last_count (c ∷ s) = elim (last_count s) [ some n ↦ some n | none ↦ count_here (c ∷ s) ]

-- `indirect .+ callsite,.*num speculative call targets:\s*(\d+)`. Both repetitions are greedy, so
-- that the number is the last one that may be.
unfoldable pub indirect_count : Bytes → Option Bytes
indirect_count trimmed = do
  s ← after_first (codes "indirect ") trimmed
  t ← after_first (codes " callsite,") (drop 1 s)
  last_count t

abbrev digits_from : ℕ → Bytes → ℕ
digits_from n [] = n
digits_from n (c ∷ s) = digits_from (n * 10 + (c - b'0')) s

-- `strconv.Atoi` of digits, whose result at an overflow is the greatest int
abbrev pub atoi : Bytes → ℕ
atoi s = let n = digits_from 0 s in if ltb n (2 ^ 63) then n else 2 ^ 63 - 1

abbrev is_flag : Bytes → Bool
is_flag tok = not (is_count tok) && not (has_prefix tok (codes "(") || has_suffix tok (codes ")"))

abbrev pub flags_in : List Bytes → List Bytes
flags_in [] = []
flags_in (tok ∷ toks) = let rest = flags_in toks in if is_flag tok then tok ∷ rest else rest

abbrev has_addr : List Ref → Bool
has_addr [] = false
has_addr (r ∷ rs) = list_beq r.kind (codes "addr") || has_addr rs

abbrev first_or : Bytes → List Bytes → Bytes
first_or kind [] = kind
first_or kind (tok ∷ toks) = tok

-- the text behind a label, trimmed
abbrev value_of : Bytes → Bytes → Bytes
value_of trimmed label = trim_white (trim_prefix trimmed label)

abbrev add_indirect : Function → Option Bytes → Function
add_indirect cur none = cur
add_indirect cur (some digits) = record cur {
  indirect_sites =
      cur.indirect_sites
      ++ record { speculative_count = atoi digits; speculative_targets = [] } ∷ [];
}

-- the cases of the switch from "Clone of" on
unfoldable pub edge_line : Function → Bytes → Function
edge_line cur trimmed = elim (clone_of trimmed) [
  | some id ↦ record cur { clone_of_id = id }
  | none ↦
      if has_prefix trimmed (codes "References:")
      then record cur {
        refs = cur.refs ++ parse_ref_list (trim_prefix trimmed (codes "References:"));
      }
      else if has_prefix trimmed (codes "Referring:")
      then record cur {
        address_taken =
            cur.address_taken
            || has_addr (parse_ref_list (trim_prefix trimmed (codes "Referring:")));
      }
      else if has_prefix trimmed (codes "Calls:")
      then record cur {
        called = cur.called ++ parse_call_list (trim_prefix trimmed (codes "Calls:"));
      }
      else if has_prefix trimmed (codes "Called by:")
      then cur
      else add_indirect cur (indirect_count trimmed)
]

-- the switch on a line of a block
unfoldable pub block_line : Function → Bytes → Function
block_line cur trimmed =
    if has_prefix trimmed (codes "Type:")
    then record cur {
      kind = first_or cur.kind (fields (value_of trimmed (codes "Type:")));
      analyzed = contains_text (value_of trimmed (codes "Type:")) (codes "definition analyzed");
    }
    else if has_prefix trimmed (codes "Body removed")
    then record cur { body_removed = true }
    else if has_prefix trimmed (codes "Visibility:")
    then record cur { visibility_flags = fields (value_of trimmed (codes "Visibility:")) }
    else if list_beq trimmed (codes "Address is taken.")
    then record cur { address_taken = true }
    else if has_prefix trimmed (codes "Function flags:")
    then record cur {
      function_flags =
          cur.function_flags ++ flags_in (fields (value_of trimmed (codes "Function flags:")));
    }
    else edge_line cur trimmed

-- `cg`, and the observation that is being read
pub record Parser : Type 0 where
  pub cg : Cgraph
  pub cur : Option Function

unfoldable pub flush : Parser → Parser
flush p = elim p.cur [
  | none ↦ p
  | some obs ↦ record { cg = record p.cg { symbols = merge_symbol p.cg.symbols obs }; cur = none }
]

abbrev ids_of : List (Bytes × Bytes) → List Bytes
ids_of [] = []
ids_of ((id, tail) ∷ found) = id ∷ ids_of found

abbrev with_needed : Parser → Bytes → Parser
with_needed p trimmed = record p {
  cg = record p.cg { trivial_needed = p.cg.trivial_needed ++ ids_of (targets_in trimmed) };
}

-- lines that end a block, and nothing more
abbrev ends_block : Bytes → Bool
ends_block trimmed =
    has_suffix trimmed (codes "Symbol table:")
    || (is_empty trimmed
        || (has_prefix trimmed (codes "Removing ")
            || (has_prefix trimmed (codes "Reclaiming ")
                || has_prefix trimmed (codes "Clearing "))))

abbrev column_0 : Parser → Option Function → Parser
column_0 p none = flush p
column_0 p (some f) = record (flush p) { cur = some f }

abbrev in_block : Parser → Bytes → Option Function → Parser
in_block p trimmed none = p
in_block p trimmed (some f) = record p { cur = some (block_line f trimmed) }

unfoldable pub cgraph_line : Parser → Bytes → Parser
cgraph_line p raw =
    let trimmed = trim_white raw in
    if has_prefix trimmed (codes "Trivially needed")
    then with_needed (flush p) trimmed
    else if ends_block trimmed
    then flush p
    else if not (has_prefix raw (codes " "))
    then column_0 p (symbol_header raw)
    else in_block p trimmed p.cur

unfoldable pub cgraph_lines : Parser → List Bytes → Parser
cgraph_lines p [] = p
cgraph_lines p (raw ∷ lines) = cgraph_lines (cgraph_line p raw) lines

abbrev pub no_symbols : Parser
no_symbols = record { cg = record { trivial_needed = []; symbols = [] }; cur = none }

pub parse_cgraph : List Bytes → Cgraph
parse_cgraph lines = (flush (cgraph_lines no_symbols lines)).cg
