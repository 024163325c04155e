-- ===== src/Ingest/Edges.antt =====
-- `insertSymbols`, `insertEdges`, and `Compiler` as their composition.
use herbarium.Base.{
  ℕ, ◌+◌, Bool, false, ◌||◌, List, [], ◌∷◌, ◌++◌, Option, none, some, Bytes, if◌then◌else◌, lookup,
  insert, keys, contains, list_eq, nat_eq, pair_eq, sort_by, str_ltb,
}
use herbarium.GccDump.{Function, Call}
use herbarium.Ingest.Paths.{PathResolver}
use herbarium.Ingest.Records.{Tu, Symbols, PerTuResolve, symbols_of}
use herbarium.Ingest.Symbols.{sorted_ids, aggregate_symbols}
use herbarium.Ingest.Prune.{referenced_usrs, prune_unreferenced}

abbrev pub IdByUsr : Type 0
IdByUsr = List (Bytes × ℕ)

-- the row ids, in the order of the USRs
unfoldable pub number_from : ℕ → List Bytes → IdByUsr
number_from n [] = []
number_from n (u ∷ us) = (u, n) ∷ number_from (n + 1) us

unfoldable pub insert_symbols : Symbols → IdByUsr
insert_symbols symbols = number_from 1 (sort_by str_ltb (keys symbols))

abbrev pub EdgeKey : Type 0
EdgeKey = ℕ × ℕ

-- the rows of `call_edges`, which are also the keys of `callEdge`, and the map `inlineFlag`
pub record EdgeAccum : Type 0 where
  pub call_edge : List EdgeKey
  pub inline_flag : List (EdgeKey × Bool)

abbrev pub flag_of : Option Bool → Bool
flag_of none = false
flag_of (some b) = b

unfoldable pub insert_edge : EdgeAccum → EdgeKey → Bool → EdgeAccum
insert_edge a k inlined = record {
  call_edge = if contains a.call_edge k then a.call_edge else a.call_edge ++ k ∷ [];
  inline_flag = insert k (flag_of (lookup k a.inline_flag) || inlined) a.inline_flag;
}

-- the id of the symbol that a local id is resolved to
unfoldable pub id_of : PerTuResolve → IdByUsr → Bytes → Option ℕ
id_of res ids local = elim (lookup local res) [ none ↦ none | some u ↦ lookup u ids ]

module _ (res : PerTuResolve) (ids : IdByUsr) where
  unfoldable pub insert_call : ℕ → EdgeAccum → Call → EdgeAccum
  insert_call caller a c = elim (id_of res ids c.target_local_id) [
    | none ↦ a
    | some callee ↦ insert_edge a (caller, callee) c.inlined
  ]

  unfoldable pub call_loop : ℕ → EdgeAccum → List Call → EdgeAccum
  call_loop caller a [] = a
  call_loop caller a (c ∷ cs) = call_loop caller (insert_call caller a c) cs

  unfoldable pub insert_caller : List (Bytes × Function) → EdgeAccum → Bytes → EdgeAccum
  insert_caller m a local = elim (id_of res ids local) [
    | none ↦ a
    | some caller ↦ elim (lookup local m) [ none ↦ a | some fn ↦ call_loop caller a fn.called ]
  ]

  unfoldable pub caller_loop : List (Bytes × Function) → EdgeAccum → List Bytes → EdgeAccum
  caller_loop m a [] = a
  caller_loop m a (local ∷ locals) = caller_loop m (insert_caller m a local) locals

unfoldable pub insert_edges : Tu → PerTuResolve → IdByUsr → EdgeAccum → EdgeAccum
insert_edges tu res ids a = caller_loop res ids (symbols_of tu) a (sorted_ids tu)

-- one turn of the loop that inserts the edges
unfoldable pub edges_of : List (Bytes × PerTuResolve) → IdByUsr → EdgeAccum → Tu → EdgeAccum
edges_of resolves ids a tu = elim (lookup tu.object resolves) [
  | none ↦ a
  | some res ↦ insert_edges tu res ids a
]

unfoldable pub edges_all : List Tu → List (Bytes × PerTuResolve) → IdByUsr → EdgeAccum → EdgeAccum
edges_all [] resolves ids a = a
edges_all (tu ∷ tus) resolves ids a = edges_all tus resolves ids (edges_of resolves ids a tu)

-- the first loop of `Compiler` over the translation units
unfoldable pub aggregate_all :
    PathResolver
    → List Tu
    → Symbols
    → List (Bytes × PerTuResolve)
    → Symbols × List (Bytes × PerTuResolve)
aggregate_all pr [] symbols resolves = (symbols, resolves)
aggregate_all pr (tu ∷ tus) symbols resolves =
    let f = aggregate_symbols pr tu symbols in
    aggregate_all pr tus f.symbols (insert tu.object f.res resolves)

pub record Compiled : Type 0 where
  pub symbols : Symbols
  pub resolves : List (Bytes × PerTuResolve)
  pub id_by_usr : IdByUsr
  pub edges : EdgeAccum

unfoldable pub compiler : PathResolver → List Tu → Compiled
compiler pr tus =
    let (symbols, resolves) = aggregate_all pr tus [] [] in
    let pruned = prune_unreferenced (referenced_usrs tus resolves) symbols in
    let ids = insert_symbols pruned in
    record {
      symbols = pruned;
      resolves = resolves;
      id_by_usr = ids;
      edges = edges_all tus resolves ids (record { call_edge = []; inline_flag = [] });
    }
