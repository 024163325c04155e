-- ===== src/GccDump/OptRecord/Tests.antt =====
-- A file with two decisions, one of them told twice, and the theorems at it.
use herbarium.Base.{
  ◌≡◌, ◌↔◌, Memᴰ, refl, arith, true, false, List, [], ◌∷◌, some, codes, index, list_eq, nat_eq,
  pair_eq,
}
use herbarium.GccDump.{InlineRecord, OptRecordDump}
use herbarium.GccDump.CgraphDump.{trim_white, trim_right}
use herbarium.GccDump.OptRecord.{
  OptPasses, opt_pass, no_passes, and_passes, OptLocation, OptRecordEntry, OptFile, NodeRef,
  dump_of, refused, too_few, collect_inline_passes, collect_pass, parse_opt_record, bool_eq,
  record_from_message, split_node, clean_reason, read_items, entry_record, entry_loop,
}
use herbarium.GccDump.OptRecord.Kept.{IsStated, Unique, parse_opt_record_lem}
use herbarium.GccDump.OptRecord.Decisions.{IsNode, arrow, into, stated, record_from_message-stated}

abbrev caller : NodeRef
caller = record { name = codes "main"; id = codes "5" }

abbrev callee : NodeRef
callee = record { name = codes "use.constprop"; id = codes "10" }

abbrev place : OptLocation
place = record { file = codes "a.c"; line = 3; column = 7 }

abbrev taken_call : OptRecordEntry
taken_call = record {
  kind = codes "success";
  pass = codes "0x2";
  message = stated into (codes "Inlined ") caller callee (codes " which now has time 3");
  location = some place;
}

abbrev declined_call : OptRecordEntry
declined_call = record {
  kind = codes "failure";
  pass = codes "0x2";
  message = stated arrow (codes "not inlinable: ") caller callee (codes ", call is cold.");
  location = some place;
}

abbrev vectorized : OptRecordEntry
vectorized = record taken_call { pass = codes "0x3" }

abbrev passes : OptPasses
passes =
    and_passes
      (opt_pass (codes "0x1") (codes "ipa") [] (
        and_passes (opt_pass (codes "0x2") (codes "inline") (codes "inline" ∷ []) no_passes)
          no_passes))
      (and_passes (opt_pass (codes "0x3") (codes "vect") (codes "vec" ∷ []) no_passes) no_passes)

abbrev entries : List OptRecordEntry
entries = taken_call ∷ declined_call ∷ taken_call ∷ vectorized ∷ []

abbrev opt_file : OptFile
opt_file = record {
  elements = 3;
  format = some (codes "1");
  tree = some passes;
  records = some entries;
}

abbrev taken_record : InlineRecord
taken_record = record {
  pass = codes "inline";
  caller_local_id = codes "5";
  callee_local_id = codes "10";
  caller_name = codes "main";
  callee_name = codes "use.constprop";
  inlined = true;
  reason = [];
  file = codes "a.c";
  line = 3;
  column = 7;
}

two_records :
    parse_opt_record (some opt_file)
    ≡ dump_of (record {
      inline_records =
          taken_record
          ∷ record taken_record { inlined = false; reason = codes "call is cold" }
          ∷ [];
    })
unfolding parse_opt_record collect_inline_passes collect_pass entry_loop entry_record
    record_from_message read_items split_node clean_reason trim_white trim_right index
two_records = refl

short_file : parse_opt_record (some (record opt_file { elements = 2 })) ≡ refused (too_few 2)
unfolding parse_opt_record
short_file = refl

parse_opt_record_lem_example :
    (d : OptRecordDump) × (parse_opt_record (some opt_file) ≡ dump_of d)
    × Unique d.inline_records
    × ((r : InlineRecord) → Memᴰ r d.inline_records ↔ IsStated passes entries r)
parse_opt_record_lem_example = parse_opt_record_lem opt_file passes entries refl refl refl refl

caller-IsNode : IsNode caller
caller-IsNode = record { name = omega arith; id = omega arith; no_slash = refl }

callee-IsNode : IsNode callee
callee-IsNode = record { name = omega arith; id = omega arith; no_slash = refl }

record_from_message-stated_example :
    record_from_message taken_call (codes "inline") ≡ some taken_record
record_from_message-stated_example =
    record_from_message-stated into true (codes "Inlined ") (codes "0x2") (codes "inline")
      (codes " which now has time 3") caller callee place caller-IsNode callee-IsNode
