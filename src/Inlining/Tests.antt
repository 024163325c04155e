-- ===== src/Inlining/Tests.antt =====
-- The theorems of the inlining answers at the rows of two objects: one keeps the inlined body, and
-- the other declined the call.
use herbarium.Base.{
  ◌≤◌, ◌≡◌, ◌≢◌, refl, arith, Bool, true, false, ◌||◌, List, [], ◌∷◌, none, some, Bytes, codes,
  list_eq, nat_eq, ltb, contains, all_distinct, All, length,
}
use herbarium.SourceView.{Location}
use herbarium.Inlining.{
  SymbolRef, InlineRecordRow, InlineInstanceRow, ObjectInlineVerdict, inlined_and_present, declined,
  no_decision_logged, mixed, PassGroup, DepthGroup, InlineQuery, Plane, per_object_verdicts,
  overall_verdict, explain_call,
}
use herbarium.Inlining.Rows.{instance_objects, record_objects, verdict_objects, verdict_on}
use herbarium.Inlining.Verdicts.{per_object_verdicts_lem}
use herbarium.Inlining.Capped.{explain_call_lem}

abbrev caller_ref : SymbolRef
caller_ref = record {
  usr = codes "c:@F@f";
  name = codes "f";
  kind = codes "function";
  signature = [];
}

abbrev callee_ref : SymbolRef
callee_ref = record {
  usr = codes "c:@F@g";
  name = codes "g";
  kind = codes "function";
  signature = [];
}

abbrev place : Location
place = record {
  path = codes "a.c";
  line = 3;
  column = 1;
  blob_hash = [];
  snippet = none;
  absolute_path = [];
}

abbrev kept : InlineInstanceRow
kept = record {
  caller = caller_ref;
  callee = callee_ref;
  depth = 1;
  parent_callee = none;
  location = place;
  object = codes "a.o";
}

abbrev early : InlineRecordRow
early = record {
  caller = caller_ref;
  callee = callee_ref;
  pass = codes "einline";
  inlined = false;
  reason = codes "recursive";
  location = place;
  object = codes "b.o";
}

abbrev late : InlineRecordRow
late = record early { pass = codes "inline"; reason = codes "too large" }

abbrev two_rows : List InlineRecordRow
two_rows = late ∷ early ∷ []

abbrev plane : Plane
plane = record {
  records = two_rows;
  instances = kept ∷ [];
  edges = record { callee = callee_ref; inlined = true } ∷ [];
}

abbrev one_row : InlineQuery
one_row = record { limit = 1; snippets = false }

abbrev enrich : Location → Bool → Location
enrich l b = l

abbrev two_verdicts : List ObjectInlineVerdict
two_verdicts =
    record { object = codes "a.o"; verdict = inlined_and_present; pass = []; reason = [] }
    ∷ record {
      object = codes "b.o";
      verdict = declined;
      pass = codes "inline";
      reason = codes "too large";
    }
    ∷ []

-- the reason of the IPA pass stays, though the early pass comes later
per_object : verdict_on two_rows (kept ∷ []) (codes "b.o") ≡ record {
  object = codes "b.o";
  verdict = declined;
  pass = codes "inline";
  reason = codes "too large";
}
per_object = refl

per_object_verdicts_lem_example :
    ((o : Bytes)
      → contains (verdict_objects (per_object_verdicts two_rows (kept ∷ []))) o
        ≡ (contains (instance_objects (kept ∷ [])) o || contains (record_objects two_rows) o))
    × (all_distinct (verdict_objects (per_object_verdicts two_rows (kept ∷ []))) ≡ true)
    × All
        (λ p. p ≡ verdict_on two_rows (kept ∷ []) p.object)
        (per_object_verdicts two_rows (kept ∷ []))
per_object_verdicts_lem_example = per_object_verdicts_lem two_rows (kept ∷ [])

declined_ne_mixed : declined ≢ mixed
declined_ne_mixed e = cc

declined_ne_no_decision : declined ≢ no_decision_logged
declined_ne_no_decision e = cc

abbrev groups : List PassGroup
groups =
    record { pass = codes "einline"; inlined = 0; count = 4 }
    ∷ record { pass = codes "inline"; inlined = 0; count = 2 }
    ∷ record { pass = codes "inline"; inlined = 1; count = 3 }
    ∷ []

abbrev depth_groups : List DepthGroup
depth_groups = record { depth = 1; count = 5 } ∷ record { depth = 2; count = 7 } ∷ []

explain_call_lem_example :
    ((explain_call enrich plane (some 1) 0 one_row).per_object
      ≡ per_object_verdicts two_rows (kept ∷ []))
    × ((explain_call enrich plane (some 1) 0 one_row).verdict
        ≡ (overall_verdict (per_object_verdicts two_rows (kept ∷ []))).0)
    × (length (explain_call enrich plane (some 1) 0 one_row).evidence.records ≤ 1)
    × (length (explain_call enrich plane (some 1) 0 one_row).evidence.instances ≤ 1)
    × ((explain_call enrich plane (some 1) 0 one_row).evidence.truncated
        ≡ (ltb 1 (length two_rows) || ltb 1 (length (kept ∷ []))))
explain_call_lem_example =
    explain_call_lem enrich plane (some 1) 0 one_row (omega arith) (omega arith)
