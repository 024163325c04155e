-- ===== src/Ingest/Tests.antt =====
-- `Compiler` on one translation unit: `main` calls the static `helper`, whose body is removed and
-- which only the call refers to; `unused` is declared, and nothing refers to it.
use mathlib.Core.List.Memᴰ
use herbarium.Base.{
  all_distinct, has_prefix, drop, length, ◌+◌, ◌++◌, if◌then◌else◌, ℕ, ◌≡◌, refl, Bool, true, false,
  List, [], ◌∷◌, none, some, Bytes, codes, lookup, contains, list_eq, nat_eq, pair_eq, sort_by,
  insert_by,
}
use herbarium.Usr
use herbarium.GccDump.{Function, Call}
use herbarium.Ingest.Paths.{PathResolver}
use herbarium.Ingest.Records.{
  Tu, PerTuResolve, record_for, linkage_of, usr_of, def_of, node_place, fold_symbol,
}
use herbarium.Ingest.Symbols.{
  aggregate_symbols, plain_loop, enter_plain, enter, clone_loop, enter_id,
}
use herbarium.Ingest.Prune.{
  prune_unreferenced, stays, referenced_usrs, tu_ends, cgraph_ends, call_ends, record_ends,
  group_ends,
}
use herbarium.Ingest.Edges.{
  compiler, aggregate_all, insert_symbols, number_from, edges_all, edges_of, insert_edges,
  caller_loop, insert_caller, call_loop, insert_call, insert_edge, id_of,
}
use herbarium.Ingest.Distinct.{compiler-distinct_edges}
use herbarium.Ingest.Kept.{compiler-keeps_calls}

abbrev resolver : PathResolver
resolver = record {
  file_path = record {
    is_abs = λ p. has_prefix p (codes "/");
    join = λ p q. p ++ codes "/" ++ q;
    clean = λ p. p;
    rel = λ root p. if has_prefix p root then some (drop (length root + 1) p) else none;
    to_slash = λ p. p;
  };
  build_dir = codes "/p/build";
  project_root = codes "/p";
}

abbrev function_of : Bytes → Bytes → List Bytes → Bool → List Call → Function
function_of id name flags removed called = record {
  local_id = id;
  name = name;
  linkage_name = name;
  kind = codes "function";
  analyzed = true;
  body_removed = removed;
  visibility_flags = flags;
  address_taken = false;
  function_flags = [];
  clone_of_id = [];
  refs = [];
  called = called;
  indirect_sites = [];
}

abbrev call_helper : Call
call_helper = record { target_local_id = codes "helper/2"; inlined = true }

abbrev main_function : Function
main_function =
    function_of (codes "main/1") (codes "main") (codes "public" ∷ []) false (call_helper ∷ [])

abbrev one_unit : Tu
one_unit = record {
  object = codes "a.o";
  ci = none;
  cgraph = some (record {
    trivial_needed = [];
    symbols =
        (codes "main/1", main_function)
        ∷ (codes "helper/2", function_of (codes "helper/2") (codes "helper") [] true [])
        ∷ (codes "unused/3", function_of (codes "unused/3") (codes "unused") [] true [])
        ∷ [];
  });
  icf = none;
  opt_rec = none;
}

abbrev resolved : PerTuResolve
resolved =
    (codes "helper/2", codes "c:@F@helper")
    ∷ (codes "main/1", codes "c:@F@main")
    ∷ (codes "unused/3", codes "c:@F@unused")
    ∷ []

resolves_one : lookup (codes "a.o") (compiler resolver (one_unit ∷ [])).resolves ≡ some resolved
unfolding compiler aggregate_all aggregate_symbols plain_loop enter_plain enter record_for
    linkage_of usr_of def_of node_place fold_symbol clone_loop enter_id sort_by insert_by
    Usr.function
resolves_one = refl

compiler-keeps_calls_example :
    (i j : ℕ) × (lookup (codes "c:@F@main") (compiler resolver (one_unit ∷ [])).id_by_usr ≡ some i)
    × (lookup (codes "c:@F@helper") (compiler resolver (one_unit ∷ [])).id_by_usr ≡ some j)
    × (contains (compiler resolver (one_unit ∷ [])).edges.call_edge (i, j) ≡ true)
compiler-keeps_calls_example =
    compiler-keeps_calls resolver (one_unit ∷ []) one_unit (Memᴰ.head refl) resolved resolves_one
      (codes "main/1") main_function refl call_helper (Memᴰ.head refl) (codes "c:@F@main")
      (codes "c:@F@helper") refl refl

rows : (compiler resolver (one_unit ∷ [])).edges.call_edge ≡ (2, 1) ∷ []
unfolding compiler aggregate_all aggregate_symbols plain_loop enter_plain enter record_for
    linkage_of usr_of def_of node_place fold_symbol clone_loop enter_id sort_by insert_by
    Usr.function prune_unreferenced stays referenced_usrs tu_ends cgraph_ends call_ends record_ends
    group_ends insert_symbols number_from edges_all edges_of insert_edges caller_loop insert_caller
    call_loop insert_call insert_edge id_of
rows = refl

compiler-distinct_edges_example :
    all_distinct (compiler resolver (one_unit ∷ one_unit ∷ [])).edges.call_edge ≡ true
compiler-distinct_edges_example = compiler-distinct_edges resolver (one_unit ∷ one_unit ∷ [])
