-- ===== src/Ingest/Numbered.antt =====
-- The ids of `insertSymbols`, the references of `referencedUSRs`, and the rows of `insertEdges`.
use mathlib.Core.List.Memᴰ
use herbarium.Base.{
  subst, ℕ, ◌+◌, ◌≡◌, refl, inl, inr, arith, Bool, true, List, [], ◌∷◌, Memᴰ, some, Bytes, lookup,
  keys, contains, list_eq, nat_eq, pair_eq, list_beq, list_beq_iff, Bool-cases, Option-cases,
  contains-append, contains→Memᴰ, Memᴰ-sort_by, Memᴰ_of_lookup, str_ltb,
}
use herbarium.GccDump.{Function, Call}
use herbarium.Ingest.Records.{Tu, Symbols, PerTuResolve, symbols_of}
use herbarium.Ingest.Symbols.{sorted_ids}
use herbarium.Ingest.Edges.{
  IdByUsr, number_from, insert_symbols, EdgeKey, EdgeAccum, insert_edge, id_of, insert_call,
  call_loop, insert_caller, caller_loop, insert_edges, edges_of, edges_all,
}

number_from-Memᴰ :
    (n : ℕ) (us : List Bytes) {u : Bytes}
    → Memᴰ u us
    → (i : ℕ) × (lookup u (number_from n us) ≡ some i)
unfolding number_from
number_from-Memᴰ n [] h = absurd (Memᴰ.not-nil h)
number_from-Memᴰ n (v ∷ us) {u} h = elim (Bool-cases (list_beq v u)) [
  | inl same ↦ (n, rw same refl)
  | inr other ↦ elim (Memᴰ.cases_cons h) [
    | inl here ↦ absurd (ground (arith, list_beq_iff v u))
    | inr there ↦ let (i, found) = number_from-Memᴰ (n + 1) us there in (i, rw other found)
  ]
]

pub insert_symbols-lookup :
    (s : Symbols) (u : Bytes)
    → contains (keys s) u ≡ true
    → (i : ℕ) × (lookup u (insert_symbols s) ≡ some i)
unfolding insert_symbols
insert_symbols-lookup s u h =
    number_from-Memᴰ 1 _ (Memᴰ-sort_by str_ltb (keys s) (contains→Memᴰ (keys s) u h))

-- a row that is there stays there
abbrev pub HasRow : EdgeAccum → EdgeKey → Type 0
HasRow a k = contains a.call_edge k ≡ true

abbrev KeptRows : EdgeAccum → EdgeAccum → Type 0
KeptRows a b = (k : EdgeKey) → HasRow a k → HasRow b k

insert_edge-KeptRows :
    (a : EdgeAccum) (k : EdgeKey) (inlined : Bool) → KeptRows a (insert_edge a k inlined)
unfolding insert_edge
insert_edge-KeptRows a k inlined j h = ground (arith, contains-append a.call_edge (k ∷ []) j)

insert_edge-HasRow :
    (a : EdgeAccum) (k : EdgeKey) (inlined : Bool) → HasRow (insert_edge a k inlined) k
unfolding insert_edge
insert_edge-HasRow a k inlined =
    ground (arith, contains-append a.call_edge (k ∷ []) k, pair_eq.beq_iff k k)

module _ (res : PerTuResolve) (ids : IdByUsr) where
  insert_call-KeptRows : (i : ℕ) (a : EdgeAccum) (c : Call) → KeptRows a (insert_call res ids i a c)
  unfolding insert_call
  insert_call-KeptRows i a c = elim (Option-cases (id_of res ids c.target_local_id)) [
    | inl e ↦ rw (e, insert_call) (λ k h. h)
    | inr (j, e) ↦ rw (e, insert_call) (insert_edge-KeptRows a (i, j) c.inlined)
  ]

  call_loop-KeptRows :
      (i : ℕ) (a : EdgeAccum) (cs : List Call) → KeptRows a (call_loop res ids i a cs)
  unfolding call_loop
  call_loop-KeptRows i a [] k h = h
  call_loop-KeptRows i a (c ∷ cs) k h =
      call_loop-KeptRows i (insert_call res ids i a c) cs k (insert_call-KeptRows i a c k h)

  insert_call-HasRow :
      (i j : ℕ) (a : EdgeAccum) (c : Call)
      → id_of res ids c.target_local_id ≡ some j
      → HasRow (insert_call res ids i a c) (i, j)
  unfolding insert_call
  insert_call-HasRow i j a c e = rw (e, insert_call) (insert_edge-HasRow a (i, j) c.inlined)

  call_loop-HasRow :
      (i j : ℕ) (a : EdgeAccum) (cs : List Call) {c : Call}
      → Memᴰ c cs
      → id_of res ids c.target_local_id ≡ some j
      → HasRow (call_loop res ids i a cs) (i, j)
  unfolding call_loop
  call_loop-HasRow i j a [] m e = absurd (Memᴰ.not-nil m)
  call_loop-HasRow i j a (d ∷ cs) {c} m e = elim (Memᴰ.cases_cons m) [
    | inl here ↦
        call_loop-KeptRows i (insert_call res ids i a d) cs (i, j)
          (subst (λ x. HasRow (insert_call res ids i a x) (i, j)) here
            (insert_call-HasRow i j a c e))
    | inr there ↦ call_loop-HasRow i j (insert_call res ids i a d) cs there e
  ]

  module _ (m : List (Bytes × Function)) where
    insert_caller-KeptRows :
        (a : EdgeAccum) (local : Bytes) → KeptRows a (insert_caller res ids m a local)
    unfolding insert_caller
    insert_caller-KeptRows a local = elim (Option-cases (id_of res ids local)) [
      | inl e ↦ rw (e, insert_caller) (λ k h. h)
      | inr (i, e) ↦ elim (Option-cases (lookup local m)) [
        | inl g ↦ rw (e, g, insert_caller) (λ k h. h)
        | inr (fn, g) ↦ rw (e, g, insert_caller) (call_loop-KeptRows i a fn.called)
      ]
    ]

    caller_loop-KeptRows :
        (a : EdgeAccum) (locals : List Bytes) → KeptRows a (caller_loop res ids m a locals)
    unfolding caller_loop
    caller_loop-KeptRows a [] k h = h
    caller_loop-KeptRows a (l ∷ locals) k h =
        caller_loop-KeptRows (insert_caller res ids m a l) locals k (insert_caller-KeptRows a l k h)

    insert_caller-HasRow :
        (i j : ℕ) (a : EdgeAccum) (l : Bytes) (fn : Function) (c : Call)
        → lookup l m ≡ some fn
        → Memᴰ c fn.called
        → id_of res ids l ≡ some i
        → id_of res ids c.target_local_id ≡ some j
        → HasRow (insert_caller res ids m a l) (i, j)
    unfolding insert_caller
    insert_caller-HasRow i j a l fn c g mc ei ej =
        rw (ei, g, insert_caller) (call_loop-HasRow i j a fn.called mc ej)

    caller_loop-HasRow :
        (i j : ℕ) (a : EdgeAccum) (locals : List Bytes) {l : Bytes} {fn : Function} {c : Call}
        → Memᴰ l locals
        → lookup l m ≡ some fn
        → Memᴰ c fn.called
        → id_of res ids l ≡ some i
        → id_of res ids c.target_local_id ≡ some j
        → HasRow (caller_loop res ids m a locals) (i, j)
    unfolding caller_loop
    caller_loop-HasRow i j a [] at g mc ei ej = absurd (Memᴰ.not-nil at)
    caller_loop-HasRow i j a (d ∷ locals) {l} {fn} {c} at g mc ei ej = elim (Memᴰ.cases_cons at) [
      | inl here ↦
          caller_loop-KeptRows (insert_caller res ids m a d) locals (i, j)
            (subst (λ x. HasRow (insert_caller res ids m a x) (i, j)) here
              (insert_caller-HasRow i j a l fn c g mc ei ej))
      | inr there ↦ caller_loop-HasRow i j (insert_caller res ids m a d) locals there g mc ei ej
    ]

-- every loop over the translation units keeps the rows, and enters those of its own unit
edges_of-KeptRows :
    (resolves : List (Bytes × PerTuResolve)) (ids : IdByUsr) (a : EdgeAccum) (tu : Tu)
    → KeptRows a (edges_of resolves ids a tu)
unfolding edges_of insert_edges
edges_of-KeptRows resolves ids a tu = elim (Option-cases (lookup tu.object resolves)) [
  | inl e ↦ rw (e, edges_of) (λ k h. h)
  | inr (res, e) ↦ rw (e, edges_of) (caller_loop-KeptRows res ids (symbols_of tu) a (sorted_ids tu))
]

edges_all-KeptRows :
    (tus : List Tu) (resolves : List (Bytes × PerTuResolve)) (ids : IdByUsr) (a : EdgeAccum)
    → KeptRows a (edges_all tus resolves ids a)
unfolding edges_all
edges_all-KeptRows [] resolves ids a k h = h
edges_all-KeptRows (tu ∷ tus) resolves ids a k h =
    edges_all-KeptRows tus resolves ids (edges_of resolves ids a tu) k
      (edges_of-KeptRows resolves ids a tu k h)

module _ (resolves : List (Bytes × PerTuResolve)) (ids : IdByUsr) (tu : Tu) (res : PerTuResolve)
    (of_tu : lookup tu.object resolves ≡ some res) (l : Bytes) (fn : Function)
    (of_l : lookup l (symbols_of tu) ≡ some fn) (c : Call) (called : Memᴰ c fn.called) (i j : ℕ)
    (of_caller : id_of res ids l ≡ some i)
    (of_callee : id_of res ids c.target_local_id ≡ some j) where
  edges_of-HasRow : (a : EdgeAccum) → HasRow (edges_of resolves ids a tu) (i, j)
  unfolding edges_of insert_edges
  edges_of-HasRow a =
      rw (of_tu, edges_of)
        (caller_loop-HasRow res ids (symbols_of tu) i j a (sorted_ids tu)
          (Memᴰ-sort_by str_ltb (keys (symbols_of tu)) (Memᴰ_of_lookup l (symbols_of tu) of_l)) of_l
          called of_caller of_callee)

  pub edges_all-HasRow :
      (a : EdgeAccum) (tus : List Tu) → Memᴰ tu tus → HasRow (edges_all tus resolves ids a) (i, j)
  unfolding edges_all
  edges_all-HasRow a [] m = absurd (Memᴰ.not-nil m)
  edges_all-HasRow a (t ∷ tus) m = elim (Memᴰ.cases_cons m) [
    | inl here ↦
        edges_all-KeptRows tus resolves ids (edges_of resolves ids a t) (i, j)
          (subst (λ x. HasRow (edges_of resolves ids a x) (i, j)) here (edges_of-HasRow a))
    | inr there ↦ edges_all-HasRow (edges_of resolves ids a t) tus there
  ]
