-- ===== src/Ingest/Known.antt =====
-- `aggregateSymbols` enters every USR that it resolves a local id to, and drops none.
use mathlib.Core.Path.{◌≡◌}
use mathlib.Core.Logic.{inl, inr}
use native.Mathlib.Omega.{arith}
use herbarium.Base.{
  true, ◌||◌, List, [], ◌∷◌, none, some, Bytes, lookup, insert, keys, contains, list_eq, nat_eq,
  Bool-cases, Option-cases, lookup-insert, contains-insert, list_beq, list_beq_iff,
}
use herbarium.GccDump.{Function, is_empty}
use herbarium.Ingest.Paths.{PathResolver}
use herbarium.Ingest.Records.{
  Tu, SymbolRec, Symbols, PerTuResolve, symbols_of, fold_symbol, folded, record_for,
}
use herbarium.Ingest.Symbols.{
  Found, enter, plain_loop, with_parent, note_clone, enter_clone, enter_plain, enter_id, clone_loop,
  aggregate_symbols, source_path_of, sorted_ids,
}

abbrev pub Has : Symbols → Bytes → Type 0
Has symbols u = contains (keys symbols) u ≡ true

insert-Has : (k u : Bytes) (v : SymbolRec) (s : Symbols) → Has s u → Has (insert k v s) u
insert-Has k u v s h = ground (arith, contains-insert k u v s)

-- each USR that a local id is resolved to has a record
abbrev pub Resolved : PerTuResolve → Symbols → Type 0
Resolved res symbols = (k u : Bytes) → lookup k res ≡ some u → Has symbols u

abbrev pub Grows : Symbols → Symbols → Type 0
Grows s t = (u : Bytes) → Has s u → Has t u

abbrev Step : Found → Found → Type 0
Step f g = Grows f.symbols g.symbols × (Resolved f.res f.symbols → Resolved g.res g.symbols)

Step-refl : (f : Found) → Step f f
Step-refl f = ((λ u h. h), (λ r. r))

Step-trans : (f g h : Found) → Step f g → Step g h → Step f h
Step-trans f g h a b = ((λ u p. b.0 u (a.0 u p)), (λ r. b.1 (a.1 r)))

contains-fold_symbol :
    (s : Symbols) (obs : SymbolRec) (u : Bytes)
    → contains (keys (fold_symbol s obs)) u ≡ (list_beq obs.usr u || contains (keys s) u)
unfolding fold_symbol
contains-fold_symbol s obs u = elim (Option-cases (lookup obs.usr s)) [
  | inl e ↦ rw (e, fold_symbol) (contains-insert obs.usr u obs s)
  | inr (prev, e) ↦ rw (e, fold_symbol) (contains-insert obs.usr u (folded prev obs) s)
]

-- a local id is resolved to a USR that has a record
resolve_known :
    (s t : Symbols) (res : PerTuResolve) (id u : Bytes)
    → Grows s t
    → Has t u
    → Resolved res s
    → Resolved (insert id u res) t
resolve_known s t res id u grows known r k v h = elim (Bool-cases (list_beq id k)) [
  | inl same ↦ ground (arith, lookup-insert id k u res)
  | inr other ↦ grows v (r k v (ground (arith, lookup-insert id k u res)))
]

module _ (pr : PathResolver) (tu : Tu) where
  enter-Step : (f : Found) (id : Bytes) (fn : Function) → Step f (enter pr tu f id fn)
  unfolding enter
  enter-Step f id fn = elim (Option-cases (record_for pr tu (source_path_of pr tu) fn)) [
    | inl e ↦ rw (e, enter) (Step-refl f)
    | inr (obs, e) ↦
        rw (e, enter)
          (
            (λ u h. ground (arith, contains-fold_symbol f.symbols obs u)),
            (λ r.
                resolve_known f.symbols (fold_symbol f.symbols obs) f.res id obs.usr
                  (λ u h. ground (arith, contains-fold_symbol f.symbols obs u))
                  (ground (
                    arith,
                    contains-fold_symbol f.symbols obs obs.usr,
                    list_beq_iff obs.usr obs.usr,
                  ))
                  r),
          )
  ]

  with_parent-Step : (f : Found) (parent : Bytes) → Step f (with_parent pr tu f parent)
  unfolding with_parent
  with_parent-Step f parent = elim (Option-cases (lookup parent f.res)) [
    | inr (u, e) ↦ rw (e, with_parent) (Step-refl f)
    | inl e ↦ elim (Option-cases (lookup parent (symbols_of tu))) [
      | inl g ↦ rw (e, g, with_parent) (Step-refl f)
      | inr (fn, g) ↦ rw (e, g, with_parent) (enter-Step f parent fn)
    ]
  ]

  note_clone-Grows :
      (s : Symbols) (usr : Bytes) (fn : Function) → Grows s (note_clone pr tu s usr fn)
  unfolding note_clone
  note_clone-Grows s usr fn u h = elim (Option-cases (lookup usr s)) [
    | inl e ↦ rw (e, note_clone) h
    | inr (rec, e) ↦ rw (e, note_clone) (insert-Has usr u _ s h)
  ]

  enter_clone-Step : (f : Found) (id : Bytes) (fn : Function) → Step f (enter_clone pr tu f id fn)
  unfolding enter_clone
  enter_clone-Step f id fn =
      let g : Found = with_parent pr tu f fn.clone_of_id in
      let first : Step f g = with_parent-Step f fn.clone_of_id in
      elim (Option-cases (lookup fn.clone_of_id g.res)) [
        | inl e ↦ rw (e, enter_clone) first
        | inr (u, e) ↦ elim (Bool-cases (is_empty u)) [
          | inl empty ↦ rw (e, empty, enter_clone) first
          | inr other ↦
              rw (e, other, enter_clone)
                (
                  (λ v h. note_clone-Grows g.symbols u fn v (first.0 v h)),
                  (λ r.
                      let known : Resolved g.res g.symbols = first.1 r in
                      let grows : Grows g.symbols (note_clone pr tu g.symbols u fn) =
                        note_clone-Grows g.symbols u fn in
                      resolve_known g.symbols (note_clone pr tu g.symbols u fn) g.res id u grows
                        (grows u (known fn.clone_of_id u e)) known),
                )
        ]
      ]

  enter_plain-Step : (f : Found) (id : Bytes) → Step f (enter_plain pr tu f id)
  unfolding enter_plain
  enter_plain-Step f id = elim (Option-cases (lookup id (symbols_of tu))) [
    | inl e ↦ rw (e, enter_plain) (Step-refl f)
    | inr (fn, e) ↦ elim (Bool-cases (is_empty fn.clone_of_id)) [
      | inr clone ↦ rw (e, clone, enter_plain) (Step-refl f)
      | inl plain ↦ rw (e, plain, enter_plain) (enter-Step f id fn)
    ]
  ]

  enter_id-Step : (f : Found) (id : Bytes) → Step f (enter_id pr tu f id)
  unfolding enter_id
  enter_id-Step f id = elim (Option-cases (lookup id (symbols_of tu))) [
    | inl e ↦ rw (e, enter_id) (Step-refl f)
    | inr (fn, e) ↦ elim (Bool-cases (is_empty fn.clone_of_id)) [
      | inl plain ↦ rw (e, plain, enter_id) (Step-refl f)
      | inr clone ↦ rw (e, clone, enter_id) (enter_clone-Step f id fn)
    ]
  ]

  plain_loop-Step : (f : Found) (ids : List Bytes) → Step f (plain_loop pr tu f ids)
  unfolding plain_loop
  plain_loop-Step f [] = Step-refl f
  plain_loop-Step f (id ∷ ids) =
      Step-trans f (enter_plain pr tu f id) _ (enter_plain-Step f id)
        (plain_loop-Step (enter_plain pr tu f id) ids)

  clone_loop-Step : (f : Found) (ids : List Bytes) → Step f (clone_loop pr tu f ids)
  unfolding clone_loop
  clone_loop-Step f [] = Step-refl f
  clone_loop-Step f (id ∷ ids) =
      Step-trans f (enter_id pr tu f id) _ (enter_id-Step f id)
        (clone_loop-Step (enter_id pr tu f id) ids)

  Step-all : (s : Symbols) → Step (record { symbols = s; res = [] }) (aggregate_symbols pr tu s)
  unfolding aggregate_symbols
  Step-all s =
      let start : Found = record { symbols = s; res = [] } in
      let mid : Found = plain_loop pr tu start (sorted_ids tu) in
      Step-trans start mid (clone_loop pr tu mid (sorted_ids tu))
        (plain_loop-Step start (sorted_ids tu)) (clone_loop-Step mid (sorted_ids tu))

  pub aggregate_symbols-Grows : (s : Symbols) → Grows s (aggregate_symbols pr tu s).symbols
  aggregate_symbols-Grows s = (Step-all s).0

  pub aggregate_symbols-Resolved :
      (s : Symbols) → Resolved (aggregate_symbols pr tu s).res (aggregate_symbols pr tu s).symbols
  aggregate_symbols-Resolved s = (Step-all s).1 (λ k u h. absurd (none_ne h))
    where
      none_ne : {u : Bytes} → none ≡ some u → ⊥
      none_ne e = cc
