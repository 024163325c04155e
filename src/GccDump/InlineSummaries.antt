-- ===== src/GccDump/InlineSummaries.antt =====
-- `ParseInline` of internal/gccdump/inline.go, on the lines of the dump, with its expressions. The
-- summaries come in the order in which their ids were first stored, which the code leaves open.
mod Headed
mod Tests
use herbarium.Base.{
  Bool, true, false, not, ◌||◌, ◌&&◌, List, [], ◌∷◌, ◌++◌, Option, none, some, Bytes, codes,
  if◌then◌else◌, has_prefix, insert, list_beq, list_eq, nat_eq, is_space, some_of, after, ◌>>=◌,
}
use herbarium.GccDump.{InlineSummary, InlineDump, is_empty}
use herbarium.GccDump.CgraphDump.{TargetToken, target_at, trim_white}

-- `IPA function summary for name/id` and `inlinable` or `not inlinable`
abbrev new_summary : TargetToken → Bool → InlineSummary
new_summary t inlinable = record {
  function_local_id = t.id;
  name = t.name;
  linkage_name = [];
  inlinable = inlinable;
  inlined_into = [];
}

abbrev with_flag : TargetToken → Bytes → Option InlineSummary
with_flag t s =
    if has_prefix s (codes "not inlinable")
    then some (new_summary t false)
    else if has_prefix s (codes "inlinable")
    then some (new_summary t true)
    else none

unfoldable pub summary_head : Bytes → Option InlineSummary
summary_head line = do
  s ← after (codes "IPA function summary for ") line
  t ← target_at s
  spaces ← some_of is_space t.rest
  with_flag t spaces.1

-- a call entry: its id, and whether it is inlined
abbrev entry_kind : Bytes → Bytes → Option (Bytes × Bool)
entry_kind id s =
    if has_prefix s (codes "inlined")
    then some (id, true)
    else if has_prefix s (codes "function body not available")
        || has_prefix s (codes "function not considered for inlining")
    then some (id, false)
    else none

unfoldable pub call_entry : Bytes → Option (Bytes × Bool)
call_entry line = do
  spaces ← some_of is_space line
  t ← target_at spaces.1
  more ← some_of is_space t.rest
  entry_kind t.id more.1

-- the variables of the loop
pub record Summaries : Type 0 where
  pub by_id : List (Bytes × InlineSummary)
  pub cur : Option InlineSummary
  pub in_calls : Bool

abbrev pub flush_cur :
    List (Bytes × InlineSummary) → Option InlineSummary → List (Bytes × InlineSummary)
flush_cur by_id none = by_id
flush_cur by_id (some s) = insert s.function_local_id s by_id

-- A line with a first byte that is not a blank ends the block.
abbrev pub end_block : Summaries → Bytes → Option InlineSummary → Summaries
end_block st line none = st
end_block st line (some s) =
    if not (is_empty line) && not (has_prefix line (codes " "))
    then record { by_id = flush_cur st.by_id (some s); cur = none; in_calls = false }
    else st

abbrev end_calls : Summaries → Bytes → Summaries
end_calls st line = if is_empty (trim_white line) then record st { in_calls = false } else st

abbrev pub entry_line : Summaries → Bytes → InlineSummary → Option (Bytes × Bool) → Summaries
entry_line st line s (some (id, true)) = record st {
  cur = some (record s { inlined_into = s.inlined_into ++ id ∷ [] });
}
entry_line st line s (some (id, false)) = st
entry_line st line s none = end_block (end_calls st line) line (some s)

abbrev pub in_summary : Summaries → Bytes → Option InlineSummary → Summaries
in_summary st line none = st
in_summary st line (some s) =
    if st.in_calls then entry_line st line s (call_entry line) else end_block st line (some s)

abbrev pub summary_line : Summaries → Bytes → Summaries
summary_line st line =
    if list_beq (trim_white line) (codes "calls:")
    then record st { in_calls = true }
    else in_summary st line st.cur

abbrev pub inline_line : Summaries → Bytes → Option InlineSummary → Summaries
inline_line st line none = summary_line st line
inline_line st line (some s) = record {
  by_id = flush_cur st.by_id st.cur;
  cur = some s;
  in_calls = false;
}

unfoldable pub inline_lines : Summaries → List Bytes → Summaries
inline_lines st [] = st
inline_lines st (line ∷ lines) = inline_lines (inline_line st line (summary_head line)) lines

abbrev pub no_summaries : Summaries
no_summaries = record { by_id = []; cur = none; in_calls = false }

abbrev pub stored : List (Bytes × InlineSummary) → List InlineSummary
stored [] = []
stored ((id, s) ∷ m) = s ∷ stored m

unfoldable pub parse_inline : List Bytes → InlineDump
parse_inline lines =
    let st = inline_lines no_summaries lines in
    record { summaries = stored (flush_cur st.by_id st.cur) }
