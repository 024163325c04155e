-- ===== src/Ingest/Kept.antt =====
-- `Compiler` keeps every call that it can resolve: pruning drops no end of it.
use herbarium.Base.{
  ℕ, ◌≡◌, subst, inl, inr, arith, true, List, [], ◌∷◌, Memᴰ, none, some, Bytes, lookup, insert,
  keys, contains, list_eq, nat_eq, pair_eq, list_beq, Bool-cases, lookup-insert, lookup-keep_if,
  lookup_of_Memᴰ, Memᴰ_of_lookup, contains→Memᴰ, Memᴰ→contains,
}
use herbarium.GccDump.{Function, Call}
use herbarium.Ingest.Paths.{PathResolver}
use herbarium.Ingest.Records.{Tu, Symbols, PerTuResolve, symbols_of}
use herbarium.Ingest.Symbols.{aggregate_symbols}
use herbarium.Ingest.Prune.{referenced_usrs, stays, prune_unreferenced}
use herbarium.Ingest.Edges.{id_of, insert_symbols, aggregate_all, compiler}
use herbarium.Ingest.Known.{Has, Resolved, aggregate_symbols-Grows, aggregate_symbols-Resolved}
use herbarium.Ingest.Numbered.{insert_symbols-lookup, edges_all-HasRow}
use herbarium.Ingest.Referenced.{referenced_usrs-Both}

abbrev AllResolved : List (Bytes × PerTuResolve) → Symbols → Type 0
AllResolved resolves symbols =
    (o : Bytes) (res : PerTuResolve) → lookup o resolves ≡ some res → Resolved res symbols

aggregate_all-AllResolved :
    (pr : PathResolver) (tus : List Tu) (s : Symbols) (resolves : List (Bytes × PerTuResolve))
    → AllResolved resolves s
    → AllResolved (aggregate_all pr tus s resolves).1 (aggregate_all pr tus s resolves).0
unfolding aggregate_all
aggregate_all-AllResolved pr [] s resolves all = all
aggregate_all-AllResolved pr (tu ∷ tus) s resolves all =
    aggregate_all-AllResolved pr tus (aggregate_symbols pr tu s).symbols
      (insert tu.object (aggregate_symbols pr tu s).res resolves)
      (λ o res e k u h. elim (Bool-cases (list_beq tu.object o)) [
        | inl same ↦
            let at : lookup o (insert tu.object (aggregate_symbols pr tu s).res resolves)
                ≡ some (aggregate_symbols pr tu s).res =
              ground (arith, lookup-insert tu.object o (aggregate_symbols pr tu s).res resolves) in
            let is_res : (aggregate_symbols pr tu s).res ≡ res = cc in
            subst (λ r. Resolved r (aggregate_symbols pr tu s).symbols) is_res
              (aggregate_symbols-Resolved pr tu s) k u h
        | inr other ↦ aggregate_symbols-Grows pr tu s u (
            all o res
              (ground (arith, lookup-insert tu.object o (aggregate_symbols pr tu s).res resolves)) k
              u h)
      ])

-- a symbol that is referenced stays
prune_unreferenced-Has :
    (referenced : List Bytes) (s : Symbols) (u : Bytes)
    → Has s u
    → contains referenced u ≡ true
    → Has (prune_unreferenced referenced s) u
unfolding prune_unreferenced stays
prune_unreferenced-Has referenced s u h r =
    let (rec, found) = lookup_of_Memᴰ u s (contains→Memᴰ (keys s) u h) in
    Memᴰ→contains (
      Memᴰ_of_lookup u (prune_unreferenced referenced s)
        (lookup-keep_if (stays referenced) u s found (ground arith)))

-- For every call of every dump, if the dump's own table resolves both ends to USRs, then both
-- USRs have an id in the compiled index, that is, neither symbol is pruned, and `call_edges` has
-- the row of the two ids.
pub compiler-keeps_calls :
    (pr : PathResolver) (tus : List Tu) (tu : Tu)
    → Memᴰ tu tus
    → (res : PerTuResolve) → lookup tu.object (compiler pr tus).resolves ≡ some res
    → (l : Bytes) (fn : Function) → lookup l (symbols_of tu) ≡ some fn
    → (c : Call) → Memᴰ c fn.called
    → (u v : Bytes) → lookup l res ≡ some u
    → lookup c.target_local_id res ≡ some v
    → (i j : ℕ) × (lookup u (compiler pr tus).id_by_usr ≡ some i)
      × (lookup v (compiler pr tus).id_by_usr ≡ some j)
      × (contains (compiler pr tus).edges.call_edge (i, j) ≡ true)
unfolding compiler id_of
compiler-keeps_calls pr tus tu m res e l fn of_fn c called u v of_l of_c =
    let at : Symbols × List (Bytes × PerTuResolve) = aggregate_all pr tus [] [] in
    let all : AllResolved at.1 at.0 =
      aggregate_all-AllResolved pr tus [] [] (λ o r p. absurd (none_ne p)) in
    let known : Resolved res at.0 = all tu.object res e in
    let (ref_u, ref_v) =
      referenced_usrs-Both res c l u v of_l of_c tus at.1 tu fn m e of_fn called in
    let refd : List Bytes = referenced_usrs tus at.1 in
    let pruned : Symbols = prune_unreferenced refd at.0 in
    let (i, at_i) =
      insert_symbols-lookup pruned u (prune_unreferenced-Has refd at.0 u (known l u of_l) ref_u) in
    let (j, at_j) =
      insert_symbols-lookup pruned v
        (prune_unreferenced-Has refd at.0 v (known c.target_local_id v of_c) ref_v) in
    (
      i,
      j,
      at_i,
      at_j,
      edges_all-HasRow at.1 (insert_symbols pruned) tu res e l fn of_fn c called i j
          (rw (of_l, id_of) at_i) (rw (of_c, id_of) at_j) _ tus m,
    )
  where
    none_ne : {r : PerTuResolve} → none ≡ some r → ⊥
    none_ne p = cc
