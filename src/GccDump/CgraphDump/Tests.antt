-- ===== src/GccDump/CgraphDump/Tests.antt =====
-- A small dump, read by evaluation, and the theorems at its parts.
use herbarium.Base.{◌≡◌, refl, arith, true, false, List, [], ◌∷◌, ◌++◌, Bytes, codes, index}
use herbarium.GccDump.{Function, merge_symbol, merged}
use herbarium.GccDump.CgraphDump.{
  parse_cgraph, parse_call_list, parse_ref_list, indirect_count, symbol_header, block_line,
  edge_line, flush, cgraph_line, cgraph_lines, trim_right, trim_white, target_at, split_targets,
  clone_of, is_count,
}
use herbarium.GccDump.CgraphDump.Merged.{Enriches, parse_cgraph-Enriches}
use herbarium.GccDump.CgraphDump.Targets.{Item, printed}
use herbarium.GccDump.CgraphDump.Calls.{calls_of, parse_call_list-printed}
use herbarium.GccDump.CgraphDump.References.{Reference, items_of, refs_of, parse_ref_list-printed}

abbrev initial : List Bytes
initial =
    codes "Trivially needed symbols: main/5 g_ops/9"
    ∷ codes "Initial Symbol table:"
    ∷ codes "main/5 (main)"
    ∷ codes "  Type: function definition analyzed"
    ∷ codes "  Function flags: count:12 (estimated locally) body"
    ∷ codes "  References: g_ops/9 (read) h/3 (addr)"
    ∷ codes "  Calls: printf/8 (10 (estimated locally),1.00 per call) use.constprop.0/10 (inlined) "
    ∷ codes "     indirect simple callsite, calling param 0, num speculative call targets: 2"
    ∷ []

abbrev optimized : List Bytes
optimized =
    codes "Optimized Symbol table:"
    ∷ codes "main/5 (main)"
    ∷ codes "  Visibility: public"
    ∷ codes "  Calls: puts/8 (1.00 per call)"
    ∷ []

-- The second table adds the visibility, and does not replace the longer list of calls.
abbrev main_symbol : Function
main_symbol = record {
  local_id = codes "5";
  name = codes "main";
  linkage_name = codes "main";
  kind = codes "function";
  analyzed = true;
  body_removed = false;
  visibility_flags = codes "public" ∷ [];
  address_taken = false;
  function_flags = codes "body" ∷ [];
  clone_of_id = [];
  refs =
      record { target_local_id = codes "9"; kind = codes "read" }
      ∷ record { target_local_id = codes "3"; kind = codes "addr" }
      ∷ [];
  called =
      record { target_local_id = codes "8"; inlined = false }
      ∷ record { target_local_id = codes "10"; inlined = true }
      ∷ [];
  indirect_sites = record { speculative_count = 2; speculative_targets = [] } ∷ [];
}

parsed : parse_cgraph (initial ++ [] ∷ optimized) ≡ record {
  trivial_needed = codes "5" ∷ codes "9" ∷ [];
  symbols = (codes "5", main_symbol) ∷ [];
}
unfolding parse_cgraph parse_call_list parse_ref_list indirect_count symbol_header block_line
    edge_line flush cgraph_line cgraph_lines trim_right trim_white target_at split_targets clone_of
    is_count merge_symbol merged index
parsed = refl

parse_cgraph-Enriches_example :
    Enriches (parse_cgraph initial).symbols (parse_cgraph (initial ++ [] ∷ optimized)).symbols
parse_cgraph-Enriches_example = parse_cgraph-Enriches initial optimized

abbrev inlined_call : Item
inlined_call = record {
  first = b'u';
  more = codes "se.constprop.0";
  id = codes "10";
  tail = codes " (inlined) (1.00 per call) ";
}

abbrev plain_call : Item
plain_call = record { first = b'f'; more = []; id = codes "8"; tail = codes " " }

parse_call_list-printed_example :
    parse_call_list (b' ' ∷ printed (inlined_call ∷ plain_call ∷ []))
    ≡ calls_of (inlined_call ∷ plain_call ∷ [])
parse_call_list-printed_example = parse_call_list-printed (inlined_call ∷ plain_call ∷ []) (
  record {
    starts = refl;
    name = refl;
    id = refl;
    some_id = omega arith;
    no_digit = refl;
    closed = refl;
  },
  (
    record {
      starts = refl;
      name = refl;
      id = refl;
      some_id = omega arith;
      no_digit = refl;
      closed = refl;
    },
    tt,
  ),
)

abbrev address_of : Reference
address_of = record { first = b'h'; more = []; id = codes "3"; kind = codes "addr" }

parse_ref_list-printed_example :
    parse_ref_list (b' ' ∷ printed (items_of (address_of ∷ []))) ≡ refs_of (address_of ∷ [])
parse_ref_list-printed_example =
    parse_ref_list-printed (address_of ∷ [])
      (record { starts = refl; name = refl; id = refl; some_id = omega arith; kind = refl }, tt)
