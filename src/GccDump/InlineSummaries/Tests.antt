-- ===== src/GccDump/InlineSummaries/Tests.antt =====
-- An inline dump with two summaries of the same function, and one of another.
use herbarium.Base.{
  ◌≡◌, refl, true, false, List, [], ◌∷◌, Bytes, codes, contains, all_distinct, list_eq, nat_eq,
}
use herbarium.GccDump.CgraphDump.{target_at, trim_right, trim_white}
use herbarium.GccDump.InlineSummaries.{summary_head, call_entry, inline_lines, parse_inline}
use herbarium.GccDump.InlineSummaries.Headed.{local_ids, is_headed, parse_inline_lem}

abbrev lines : List Bytes
lines =
    codes "IPA function summary for sum/3 inlinable"
    ∷ codes "  calls:"
    ∷ codes "    add/2 function body not available"
    ∷ []
    ∷ codes "IPA function summary for main/4 not inlinable"
    ∷ codes "  calls:"
    ∷ codes "    sum/3 inlined"
    ∷ codes "      freq:1.00"
    ∷ codes "Deciding on inlining."
    ∷ codes "    add/2 inlined"
    ∷ codes "IPA function summary for sum/3 inlinable"
    ∷ codes "  calls:"
    ∷ codes "    add/2 inlined"
    ∷ []

parsed : parse_inline lines ≡ record {
  summaries =
      record {
        function_local_id = codes "3";
        name = codes "sum";
        linkage_name = [];
        inlinable = true;
        inlined_into = codes "2" ∷ [];
      }
      ∷ record {
        function_local_id = codes "4";
        name = codes "main";
        linkage_name = [];
        inlinable = false;
        inlined_into = codes "3" ∷ [];
      }
      ∷ [];
}
unfolding summary_head call_entry inline_lines parse_inline target_at trim_right trim_white
parsed = refl

parse_inline_lem_example :
    (all_distinct (local_ids (parse_inline lines).summaries) ≡ true)
    × ((i : Bytes) → contains (local_ids (parse_inline lines).summaries) i ≡ is_headed lines i)
parse_inline_lem_example = parse_inline_lem lines
