-- ===== src/Ingest/Referenced.antt =====
-- `referencedUSRs`: both ends of a call that is resolved are referenced.
use mathlib.Core.List.Memᴰ
use herbarium.Base.{
  ◌≡◌, subst, inl, inr, arith, true, List, [], ◌∷◌, ◌++◌, Memᴰ, none, some, Bytes, lookup, contains,
  list_eq, nat_eq, pair_eq, list_beq, list_beq_iff, Bool-cases, contains-append,
}
use herbarium.GccDump.{Function, Call}
use herbarium.Ingest.Records.{Tu, PerTuResolve, symbols_of}
use herbarium.Ingest.Prune.{call_ends, cgraph_ends, tu_ends, referenced_usrs}

-- both ends of a resolved call are referenced
module _ (res : PerTuResolve) (c : Call) (l u v : Bytes) (of_l : lookup l res ≡ some u)
    (of_c : lookup c.target_local_id res ≡ some v) where
  abbrev Both : List Bytes → Type 0
  Both us = (contains us u ≡ true) × (contains us v ≡ true)

  Both-append : (us vs : List Bytes) → Both us → Both (us ++ vs)
  Both-append us vs h =
      (ground (arith, contains-append us vs u), ground (arith, contains-append us vs v))

  Both-prepend : (us vs : List Bytes) → Both vs → Both (us ++ vs)
  Both-prepend us vs h =
      (ground (arith, contains-append us vs u), ground (arith, contains-append us vs v))

  call_ends-Both : (cs : List Call) → Memᴰ c cs → Both (call_ends res l cs)
  unfolding call_ends
  call_ends-Both [] m = absurd (Memᴰ.not-nil m)
  call_ends-Both (d ∷ cs) m = elim (Memᴰ.cases_cons m) [
    | inl here ↦
        let first : Both (u ∷ v ∷ call_ends res l cs) =
          (ground (arith, list_beq_iff u u), ground (arith, list_beq_iff v v)) in
        subst (λ x. Both (call_ends res l (x ∷ cs))) here (rw (of_l, of_c) first)
    | inr there ↦ Both-prepend _ _ (call_ends-Both cs there)
  ]

  cgraph_ends-Both :
      (m : List (Bytes × Function)) (fn : Function)
      → lookup l m ≡ some fn
      → Memᴰ c fn.called
      → Both (cgraph_ends res m)
  unfolding cgraph_ends
  cgraph_ends-Both [] fn e called = absurd (none_ne e)
    where
      none_ne : none ≡ some fn → ⊥
      none_ne p = cc
  cgraph_ends-Both ((k, g) ∷ m) fn e called = elim (Bool-cases (list_beq k l)) [
    | inl same ↦
        let found : some g ≡ some fn = rw same at e in
        let is_fn : fn ≡ g = cc in
        let is_l : k ≡ l = (list_beq_iff k l).0 same in
        Both-append (call_ends res k g.called) (cgraph_ends res m)
          (rw is_l (call_ends-Both g.called (subst (λ f. Memᴰ c f.called) is_fn called)))
    | inr other ↦ Both-prepend _ _ (cgraph_ends-Both m fn (rw other at e) called)
  ]

  pub referenced_usrs-Both :
      (tus : List Tu) (resolves : List (Bytes × PerTuResolve)) (tu : Tu) (fn : Function)
      → Memᴰ tu tus
      → lookup tu.object resolves ≡ some res
      → lookup l (symbols_of tu) ≡ some fn
      → Memᴰ c fn.called
      → Both (referenced_usrs tus resolves)
  unfolding referenced_usrs tu_ends
  referenced_usrs-Both [] resolves tu fn m e of_fn called = absurd (Memᴰ.not-nil m)
  referenced_usrs-Both (t ∷ tus) resolves tu fn m e of_fn called = elim (Memᴰ.cases_cons m) [
    | inl here ↦
        subst (λ x. Both (referenced_usrs (x ∷ tus) resolves)) here
          (rw e
            (Both-append _ _ (Both-append _ _ (cgraph_ends-Both (symbols_of tu) fn of_fn called))))
    | inr there ↦ Both-prepend _ _ (referenced_usrs-Both tus resolves tu fn there e of_fn called)
  ]
