-- ===== src/Ingest/Distinct.antt =====
-- `call_edges` has no row twice, whatever the translation units repeat.
use herbarium.Base.{
  ℕ, ◌≡◌, refl, inl, inr, arith, Bool, true, List, [], ◌∷◌, Bytes, lookup, Option-cases,
  all_distinct, all_distinct-append_one, list_eq, nat_eq, pair_eq,
}
use herbarium.GccDump.{Function, Call}
use herbarium.Ingest.Paths.{PathResolver}
use herbarium.Ingest.Records.{Tu, PerTuResolve, symbols_of}
use herbarium.Ingest.Symbols.{sorted_ids}
use herbarium.Ingest.Edges.{
  IdByUsr, EdgeKey, EdgeAccum, insert_edge, id_of, insert_call, call_loop, insert_caller,
  caller_loop, insert_edges, edges_of, edges_all, compiler,
}

-- what `insert_edge` keeps, all the loops keep
module _ (P : EdgeAccum → Type 0)
    (kept : (a : EdgeAccum) (k : EdgeKey) (inlined : Bool)
      → P a
      → P (insert_edge a k inlined)) where
  module _ (res : PerTuResolve) (ids : IdByUsr) where
    insert_call-kept : (i : ℕ) (a : EdgeAccum) (c : Call) → P a → P (insert_call res ids i a c)
    unfolding insert_call
    insert_call-kept i a c p = elim (Option-cases (id_of res ids c.target_local_id)) [
      | inl e ↦ rw (e, insert_call) p
      | inr (j, e) ↦ rw (e, insert_call) (kept a (i, j) c.inlined p)
    ]

    call_loop-kept : (i : ℕ) (a : EdgeAccum) (cs : List Call) → P a → P (call_loop res ids i a cs)
    unfolding call_loop
    call_loop-kept i a [] p = p
    call_loop-kept i a (c ∷ cs) p =
        call_loop-kept i (insert_call res ids i a c) cs (insert_call-kept i a c p)

    insert_caller-kept :
        (m : List (Bytes × Function)) (a : EdgeAccum) (local : Bytes)
        → P a
        → P (insert_caller res ids m a local)
    unfolding insert_caller
    insert_caller-kept m a local p = elim (Option-cases (id_of res ids local)) [
      | inl e ↦ rw (e, insert_caller) p
      | inr (i, e) ↦ elim (Option-cases (lookup local m)) [
        | inl g ↦ rw (e, g, insert_caller) p
        | inr (fn, g) ↦ rw (e, g, insert_caller) (call_loop-kept i a fn.called p)
      ]
    ]

    caller_loop-kept :
        (m : List (Bytes × Function)) (a : EdgeAccum) (locals : List Bytes)
        → P a
        → P (caller_loop res ids m a locals)
    unfolding caller_loop
    caller_loop-kept m a [] p = p
    caller_loop-kept m a (l ∷ locals) p =
        caller_loop-kept m (insert_caller res ids m a l) locals (insert_caller-kept m a l p)

  edges_of-kept :
      (resolves : List (Bytes × PerTuResolve)) (ids : IdByUsr) (a : EdgeAccum) (tu : Tu)
      → P a
      → P (edges_of resolves ids a tu)
  unfolding edges_of insert_edges
  edges_of-kept resolves ids a tu p = elim (Option-cases (lookup tu.object resolves)) [
    | inl e ↦ rw (e, edges_of) p
    | inr (res, e) ↦ rw (e, edges_of) (caller_loop-kept res ids (symbols_of tu) a (sorted_ids tu) p)
  ]

  edges_all-kept :
      (tus : List Tu) (resolves : List (Bytes × PerTuResolve)) (ids : IdByUsr) (a : EdgeAccum)
      → P a
      → P (edges_all tus resolves ids a)
  unfolding edges_all
  edges_all-kept [] resolves ids a p = p
  edges_all-kept (tu ∷ tus) resolves ids a p =
      edges_all-kept tus resolves ids (edges_of resolves ids a tu)
        (edges_of-kept resolves ids a tu p)

AreDistinct : EdgeAccum → Type 0
AreDistinct a = all_distinct a.call_edge ≡ true

insert_edge-AreDistinct :
    (a : EdgeAccum) (k : EdgeKey) (inlined : Bool)
    → AreDistinct a
    → AreDistinct (insert_edge a k inlined)
unfolding insert_edge AreDistinct
insert_edge-AreDistinct a k inlined h = ground (arith, all_distinct-append_one a.call_edge k)

-- No two rows of `call_edges` are equal, also where several translation units resolve a call to the
-- same two symbols.
pub compiler-distinct_edges :
    (pr : PathResolver) (tus : List Tu) → all_distinct (compiler pr tus).edges.call_edge ≡ true
unfolding compiler AreDistinct
compiler-distinct_edges pr tus =
    edges_all-kept AreDistinct insert_edge-AreDistinct tus _ _
      (record { call_edge = []; inline_flag = [] }) refl
