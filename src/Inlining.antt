-- ===== src/Inlining.antt =====
-- internal/mcp/callgraph_runtime_tools.go: what became of the calls of a function. SQL gives the
-- rows; the model takes them as lists, in the order of the query.
mod Rows
mod Fold
mod Verdicts
mod Overall
mod Totals
mod Capped
mod Tests
use Prim.Native.String.{String}
use herbarium.Base.{
  count_at, ℕ, ℤ, pos, zero, suc, ◌+◌, ◌≡◌, Bool, true, false, ◌&&◌, ◌||◌, not, List, [], ◌∷◌, ◌++◌,
  Option, none, some, Bytes, Eq, codes, lookup, insert, keys, list_eq, nat_eq, list_beq, ltb, ◌==◌,
  if◌then◌else◌, take, length, sort_by, str_ltb, map,
}
use herbarium.SourceView.{Location, clamp_range, get_int}

abbrev pub inline_row_default_limit : ℕ
inline_row_default_limit = 50

abbrev pub inline_row_max_limit : ℕ
inline_row_max_limit = 1000

abbrev pub verdict_scan_limit : ℕ
verdict_scan_limit = 10000

pub record InlineQuery : Type 0 where
  pub limit : ℕ
  pub snippets : Bool

-- the query that `explain_call` decides from
abbrev pub verdict_scan : InlineQuery
verdict_scan = record { limit = verdict_scan_limit; snippets = false }

pub inline_query_from_request : Option ℤ → Option Bool → InlineQuery
inline_query_from_request limit snippets = record {
  limit = clamp_range (get_int limit inline_row_default_limit) 1 inline_row_max_limit;
  snippets = elim snippets [ none ↦ false | some b ↦ b ];
}

-- internal/mcp/callgraph_source_tools.go
pub record SymbolRef : Type 0 where
  pub usr : Bytes
  pub name : Bytes
  pub kind : Bytes
  pub signature : Bytes

pub record CgraphInlineEdge : Type 0 where
  pub callee : SymbolRef
  pub inlined : Bool

pub record InlineRecordRow : Type 0 where
  pub caller : SymbolRef
  pub callee : SymbolRef
  pub pass : Bytes
  pub inlined : Bool
  pub reason : Bytes
  pub location : Location
  pub object : Bytes

pub record InlineInstanceRow : Type 0 where
  pub caller : SymbolRef
  pub callee : SymbolRef
  pub depth : ℕ
  pub parent_callee : Option SymbolRef
  pub location : Location
  pub object : Bytes

pub data Verdict : Type 0 where
  inlined_and_present : Verdict
  inlined_then_folded : Verdict
  declined : Verdict
  no_decision_logged : Verdict
  mixed : Verdict

pub record ObjectInlineVerdict : Type 0 where
  pub object : Bytes
  pub verdict : Verdict
  pub pass : Bytes
  pub reason : Bytes

-- `perObjectVerdicts`: what is gathered for one object
pub record Acc : Type 0 where
  pub has_instance : Bool
  pub inlined : Bool
  pub decl_pass : Bytes
  pub decl_reason : Bytes

abbrev pub fresh : Acc
fresh = record { has_instance = false; inlined = false; decl_pass = []; decl_reason = [] }

abbrev pub or_fresh : Option Acc → Acc
or_fresh none = fresh
or_fresh (some a) = a

-- `get`: the entry of the object, made if it is not there. `order` is the list of the keys.
abbrev pub get : List (Bytes × Acc) → Bytes → Acc
get by_object obj = or_fresh (lookup obj by_object)

abbrev pub saw_instance : Acc → Acc
saw_instance a = record a { has_instance = true }

abbrev pub saw_record : Acc → InlineRecordRow → Acc
saw_record a r =
    if r.inlined
    then record a { inlined = true }
    else if not (list_beq a.decl_pass (codes "inline"))
    then record a { decl_pass = r.pass; decl_reason = r.reason }
    else a

pub instance_loop : List (Bytes × Acc) → List InlineInstanceRow → List (Bytes × Acc)
instance_loop by_object [] = by_object
instance_loop by_object (i ∷ is) =
    instance_loop (insert i.object (saw_instance (get by_object i.object)) by_object) is

pub record_loop : List (Bytes × Acc) → List InlineRecordRow → List (Bytes × Acc)
record_loop by_object [] = by_object
record_loop by_object (r ∷ rs) =
    record_loop (insert r.object (saw_record (get by_object r.object) r) by_object) rs

abbrev pub verdict_of : Bytes → Acc → ObjectInlineVerdict
verdict_of obj a =
    if a.has_instance
    then record { object = obj; verdict = inlined_and_present; pass = []; reason = [] }
    else if a.inlined
    then record { object = obj; verdict = inlined_then_folded; pass = []; reason = [] }
    else record { object = obj; verdict = declined; pass = a.decl_pass; reason = a.decl_reason }

abbrev pub verdicts : List (Bytes × Acc) → List Bytes → List ObjectInlineVerdict
verdicts by_object [] = []
verdicts by_object (obj ∷ order) = verdict_of obj (get by_object obj) ∷ verdicts by_object order

abbrev pub by_object_of : List InlineRecordRow → List InlineInstanceRow → List (Bytes × Acc)
by_object_of records instances = record_loop (instance_loop [] instances) records

pub per_object_verdicts : List InlineRecordRow → List InlineInstanceRow → List ObjectInlineVerdict
per_object_verdicts records instances =
    let by_object = by_object_of records instances in
    verdicts by_object (sort_by str_ltb (keys by_object))

abbrev pub same_verdict : Verdict → Verdict → Bool
same_verdict inlined_and_present inlined_and_present = true
same_verdict inlined_then_folded inlined_then_folded = true
same_verdict declined declined = true
same_verdict no_decision_logged no_decision_logged = true
same_verdict mixed mixed = true
same_verdict _ _ = false

abbrev pub all_same : Verdict → List ObjectInlineVerdict → Bool
all_same first [] = true
all_same first (p ∷ per) = same_verdict p.verdict first && all_same first per

abbrev reason_for : Verdict → Bytes → Bytes
reason_for declined reason = reason
reason_for _ reason = []

pub overall_verdict : List ObjectInlineVerdict → Verdict × Bytes
overall_verdict [] = (no_decision_logged, [])
overall_verdict (p ∷ per) =
    if all_same p.verdict per then (p.verdict, reason_for p.verdict p.reason) else (mixed, [])

-- the groups of `GROUP BY pass, inlined`, and those of `GROUP BY depth`
pub record PassGroup : Type 0 where
  pub pass : Bytes
  pub inlined : ℕ
  pub count : ℕ

pub record DepthGroup : Type 0 where
  pub depth : ℕ
  pub count : ℕ

-- The key of `instances_by_depth` is the depth, which the code prints.
pub record InliningSummary : Type 0 where
  pub records : ℕ
  pub records_inlined : ℕ
  pub records_declined : ℕ
  pub records_by_pass : List (Bytes × ℕ)
  pub instances : ℕ
  pub instances_by_depth : List (ℕ × ℕ)
  pub cgraph_edges : ℕ

abbrev pub add_group : InliningSummary → PassGroup → InliningSummary
add_group sum g = record {
  records = sum.records + g.count;
  records_inlined = if g.inlined == 1 then sum.records_inlined + g.count else sum.records_inlined;
  records_declined =
      if g.inlined == 1 then sum.records_declined else sum.records_declined + g.count;
  records_by_pass =
      insert g.pass (count_at g.pass sum.records_by_pass + g.count) sum.records_by_pass;
  instances = sum.instances;
  instances_by_depth = sum.instances_by_depth;
  cgraph_edges = sum.cgraph_edges;
}

pub group_loop : InliningSummary → List PassGroup → InliningSummary
group_loop sum [] = sum
group_loop sum (g ∷ gs) = group_loop (add_group sum g) gs

abbrev pub add_depth : InliningSummary → DepthGroup → InliningSummary
add_depth sum g = record sum {
  instances = sum.instances + g.count;
  instances_by_depth = insert g.depth g.count sum.instances_by_depth;
}

pub depth_loop : InliningSummary → List DepthGroup → InliningSummary
depth_loop sum [] = sum
depth_loop sum (g ∷ gs) = depth_loop (add_depth sum g) gs

abbrev pub empty_summary : InliningSummary
empty_summary = record {
  records = 0;
  records_inlined = 0;
  records_declined = 0;
  records_by_pass = [];
  instances = 0;
  instances_by_depth = [];
  cgraph_edges = 0;
}

pub inlining_summary : List PassGroup → List DepthGroup → ℕ → InliningSummary
inlining_summary passes depths edges =
    record (depth_loop (group_loop empty_summary passes) depths) { cgraph_edges = edges }

module _ {ℓ} {A : Type ℓ} where
  -- the cut of the rows behind the limit
  abbrev pub cut : ℕ → List A → List A × Bool
  cut limit out = if ltb limit (length out) then (take limit out, true) else (out, false)

-- what one symbol, or one pair of symbols, has in the three tables
pub record Plane : Type 0 where
  pub records : List InlineRecordRow
  pub instances : List InlineInstanceRow
  pub edges : List CgraphInlineEdge

pub record DescribeInliningResponse : Type 0 where
  pub summary : InliningSummary
  pub records : List InlineRecordRow
  pub instances : List InlineInstanceRow
  pub cgraph_edges : List CgraphInlineEdge
  pub truncated : Bool

pub record ExplainCallEvidence : Type 0 where
  pub records : List InlineRecordRow
  pub instances : List InlineInstanceRow
  pub cgraph_edge_inlined : Option Bool
  pub linked_edge : Bool
  pub truncated : Bool

pub record ExplainCallResponse : Type 0 where
  pub verdict : Verdict
  pub reason : Bytes
  pub per_object : List ObjectInlineVerdict
  pub evidence : ExplainCallEvidence

-- `enrich` is `enrichLocation`.
module _ (enrich : Location → Bool → Location) where
  abbrev pub enriched_record : Bool → InlineRecordRow → InlineRecordRow
  enriched_record snippets r = record r { location = enrich r.location snippets }

  abbrev pub enriched_instance : Bool → InlineInstanceRow → InlineInstanceRow
  enriched_instance snippets i = record i { location = enrich i.location snippets }

  -- The query asks for one row more than the limit.
  pub inline_records : InlineQuery → List InlineRecordRow → List InlineRecordRow × Bool
  inline_records q matching =
      cut q.limit (map (enriched_record q.snippets) (take (q.limit + 1) matching))

  pub inline_instances : InlineQuery → List InlineInstanceRow → List InlineInstanceRow × Bool
  inline_instances q matching =
      cut q.limit (map (enriched_instance q.snippets) (take (q.limit + 1) matching))

  -- `handleDescribeInlining`, once the caller is found
  pub describe_inlining : Plane → InliningSummary → InlineQuery → DescribeInliningResponse
  describe_inlining rows summary q =
      let (records, rec_trunc) = inline_records q rows.records in
      let (instances, inst_trunc) = inline_instances q rows.instances in
      let (edges, edges_trunc) = cut q.limit rows.edges in
      record {
        summary = summary;
        records = records;
        instances = instances;
        cgraph_edges = edges;
        truncated = rec_trunc || inst_trunc || edges_trunc;
      }

  -- `handleExplainCall`, once the two symbols are found. `max_inlined` is MAX(inlined), which is
  -- null where there is no edge, and `linked` the number of linked edges.
  pub explain_call : Plane → Option ℕ → ℕ → InlineQuery → ExplainCallResponse
  explain_call rows max_inlined linked q =
      let records = (inline_records verdict_scan rows.records).0 in
      let instances = (inline_instances verdict_scan rows.instances).0 in
      let (shown_records, more_records) = cut q.limit records in
      let (shown_instances, more_instances) = cut q.limit instances in
      let per_object = per_object_verdicts records instances in
      record {
        verdict = (overall_verdict per_object).0;
        reason = (overall_verdict per_object).1;
        per_object = per_object;
        evidence = record {
          records = if q.snippets then map (enriched_record true) shown_records else shown_records;
          instances =
              if q.snippets then map (enriched_instance true) shown_instances else shown_instances;
          cgraph_edge_inlined = elim max_inlined [ none ↦ none | some n ↦ some (n == 1) ];
          linked_edge = ltb 0 linked;
          truncated = more_records || more_instances;
        };
      }
