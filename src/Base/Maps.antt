-- ===== src/Base/Maps.antt =====
-- A Go map as an association list. A write replaces the entry of its key, or adds one at the end.
use mathlib.Core.Path.{◌≡◌, refl, sym}
use mathlib.Core.Bool.{Bool, true, ◌||◌}
use mathlib.Core.Logic.{inl, inr}
use mathlib.Core.List.{List, [], ◌∷◌, Memᴰ}
use mathlib.Core.List.Memᴰ
use mathlib.Core.Option.{Option, none, some}
use native.Mathlib.Omega.{arith}
use herbarium.Base.Members.{contains, all_distinct}
use herbarium.Base.Tests.{Eq, if◌then◌else◌, Bool-cases, beq_refl}

module _ {ℓ κ} {K : Type ℓ} {V : Type κ} ⦃e : Eq K⦄ where
  abbrev pub lookup : K → List (K × V) → Option V
  lookup k [] = none
  lookup k ((j, v) ∷ m) = if e.beq j k then some v else lookup k m

  abbrev pub insert : K → V → List (K × V) → List (K × V)
  insert k v [] = (k, v) ∷ []
  insert k v ((j, w) ∷ m) = if e.beq j k then (j, v) ∷ m else (j, w) ∷ insert k v m

  pub lookup-insert :
      (k j : K) (v : V) (m : List (K × V))
      → lookup j (insert k v m) ≡ (if e.beq k j then some v else lookup j m)
  lookup-insert k j v [] = refl
  lookup-insert k j v ((i, w) ∷ m) =
      ground (arith, e.beq_iff k j, e.beq_iff i k, e.beq_iff i j, lookup-insert k j v m)

  pub lookup-insert_self : (k : K) (v : V) (m : List (K × V)) → lookup k (insert k v m) ≡ some v
  lookup-insert_self k v m = ground (arith, lookup-insert k k v m, beq_refl k)

  abbrev pub keys : List (K × V) → List K
  keys [] = []
  keys ((j, v) ∷ m) = j ∷ keys m

  pub contains-insert :
      (k j : K) (v : V) (m : List (K × V))
      → contains (keys (insert k v m)) j ≡ (e.beq k j || contains (keys m) j)
  contains-insert k j v [] = refl
  contains-insert k j v ((i, w) ∷ m) =
      ground (arith, e.beq_iff k j, e.beq_iff i k, e.beq_iff i j, contains-insert k j v m)

  -- `delete` for every entry that the test does not keep
  abbrev pub keep_if : (K → V → Bool) → List (K × V) → List (K × V)
  keep_if test [] = []
  keep_if test ((j, v) ∷ m) = if test j v then (j, v) ∷ keep_if test m else keep_if test m

  pub Memᴰ_of_lookup : (k : K) (m : List (K × V)) {v : V} → lookup k m ≡ some v → Memᴰ k (keys m)
  Memᴰ_of_lookup k [] h = absurd (none_ne h)
    where
      none_ne : {u : V} → none ≡ some u → ⊥
      none_ne e = cc
  Memᴰ_of_lookup k ((j, w) ∷ m) h = elim (Bool-cases (e.beq j k)) [
    | inl same ↦ Memᴰ.head (sym ((e.beq_iff j k).0 same))
    | inr other ↦ Memᴰ.tail (Memᴰ_of_lookup k m (rw other at h))
  ]

  pub lookup_of_Memᴰ :
      (k : K) (m : List (K × V)) → Memᴰ k (keys m) → (v : V) × (lookup k m ≡ some v)
  lookup_of_Memᴰ k [] h = absurd (Memᴰ.not-nil h)
  lookup_of_Memᴰ k ((j, w) ∷ m) h = elim (Bool-cases (e.beq j k)) [
    | inl same ↦ (w, rw same)
    | inr other ↦ elim (Memᴰ.cases_cons h) [
      | inl here ↦ absurd (ground (arith, e.beq_iff j k))
      | inr there ↦ let (v, found) = lookup_of_Memᴰ k m there in (v, rw other found)
    ]
  ]

  pub lookup-keep_if :
      (test : K → V → Bool) (k : K) (m : List (K × V)) {v : V}
      → lookup k m ≡ some v
      → test k v ≡ true
      → lookup k (keep_if test m) ≡ some v
  lookup-keep_if test k [] h t = h
  lookup-keep_if test k ((j, w) ∷ m) {v} h t = elim (Bool-cases (e.beq j k)) [
    | inl same ↦ ground (arith, e.beq_iff j k)
    | inr other ↦ ground (arith, lookup-keep_if test k m {v = v})
  ]

  pub all_distinct-insert :
      (k : K) (v : V) (m : List (K × V))
      → all_distinct (keys m) ≡ true
      → all_distinct (keys (insert k v m)) ≡ true
  all_distinct-insert k v [] h = refl
  all_distinct-insert k v ((j, w) ∷ m) h =
      ground
        (arith, all_distinct-insert k v m, contains-insert k j v m, e.beq_iff j k, e.beq_iff k j)
