-- ===== src/Base/Counts.antt =====
-- A Go map of counts, where a missing key counts as 0.
use Prim.Native.Nat.{ℕ, ◌+◌, ◌<◌}
use mathlib.Core.Path.{◌≡◌, refl, ap, ◌∙◌}
use mathlib.Core.Logic.{inl, inr}
use mathlib.Core.Bool.{true, false}
use mathlib.Core.List.{List, [], ◌∷◌, ◌++◌}
use mathlib.Core.Option.{Option, none, some}
use native.Mathlib.Omega.{arith}
use herbarium.Base.Tests.{Eq, if◌then◌else◌, Bool-cases, beq_refl}
use herbarium.Base.Members.{contains, all_distinct}
use herbarium.Base.Maps.{lookup, insert, keys, lookup-insert}

abbrev pub or_zero : Option ℕ → ℕ
or_zero none = 0
or_zero (some n) = n

module _ {ℓ} {K : Type ℓ} ⦃e : Eq K⦄ where
  abbrev pub count_at : K → List (K × ℕ) → ℕ
  count_at k m = or_zero (lookup k m)

  pub count-insert :
      (k j : K) (n : ℕ) (m : List (K × ℕ))
      → count_at j (insert k n m) ≡ (if e.beq k j then n else count_at j m)
  count-insert k j n m = elim (Bool-cases (e.beq k j)) [
    | inl same ↦
        let at : lookup j (insert k n m) ≡ some n = lookup-insert k j n m ∙ rw same refl in
        rw same (ap or_zero at)
    | inr other ↦
        let at : lookup j (insert k n m) ≡ lookup j m = lookup-insert k j n m ∙ rw other refl in
        rw other (ap or_zero at)
  ]

  abbrev pub sum_counts : List (K × ℕ) → ℕ
  sum_counts [] = 0
  sum_counts ((k, n) ∷ m) = n + sum_counts m

  sum_counts-replace :
      (k : K) (v : ℕ) (m : List (K × ℕ))
      → sum_counts (insert k v m) + count_at k m ≡ sum_counts m + v
  sum_counts-replace k v [] = omega arith
  sum_counts-replace k v ((j, w) ∷ m) = elim (Bool-cases (e.beq j k)) [
    | inl same ↦ rw same (omega arith)
    | inr other ↦ rw other (omega (arith, sum_counts-replace k v m))
  ]

  -- adding to a count adds to the sum
  pub sum_counts-insert :
      (k : K) (n : ℕ) (m : List (K × ℕ))
      → sum_counts (insert k (count_at k m + n) m) ≡ sum_counts m + n
  sum_counts-insert k n m = omega (arith, sum_counts-replace k (count_at k m + n) m)

  abbrev pub Positive : List (K × ℕ) → Type 0
  Positive [] = Unit
  Positive ((k, n) ∷ m) = (0 < n) × Positive m

  pub insert-Positive :
      (k : K) (n : ℕ) (m : List (K × ℕ)) → 0 < n → Positive m → Positive (insert k n m)
  insert-Positive k n [] h _ = (h, tt)
  insert-Positive k n ((j, w) ∷ m) h (a, b) = elim (Bool-cases (e.beq j k)) [
    | inl same ↦ rw same (h, b)
    | inr other ↦ rw other (a, insert-Positive k n m h b)
  ]

  -- a key is there exactly if it counts
  pub count-contains :
      (k : K) (m : List (K × ℕ))
      → Positive m
      → (contains (keys m) k ≡ true → 0 < count_at k m)
        × (contains (keys m) k ≡ false → count_at k m ≡ 0)
  count-contains k [] _ = ((λ h. absurd (false_ne h)), (λ h. refl))
    where
      false_ne : false ≡ true → ⊥
      false_ne p = cc
  count-contains k ((j, w) ∷ m) (a, b) = elim (Bool-cases (e.beq j k)) [
    | inl same ↦ rw same ((λ h. a), (λ h. ground arith))
    | inr other ↦ rw other (count-contains k m b)
  ]

  pub keys-insert :
      (k : K) (n : ℕ) (m : List (K × ℕ))
      → keys (insert k n m) ≡ (if contains (keys m) k then keys m else keys m ++ k ∷ [])
  keys-insert k n [] = refl
  keys-insert k n ((j, w) ∷ m) = elim (Bool-cases (e.beq j k)) [
    | inl same ↦ rw same refl
    | inr other ↦ elim (Bool-cases (contains (keys m) k)) [
      | inl there ↦ rw (other, there) (ap (◌∷◌ j) (keys-insert k n m ∙ rw there refl))
      | inr away ↦ rw (other, away) (ap (◌∷◌ j) (keys-insert k n m ∙ rw away refl))
    ]
  ]

  -- the counts of the keys, one after the other
  abbrev pub key_counts : List (K × ℕ) → List K → List (K × ℕ)
  key_counts m [] = []
  key_counts m (k ∷ ks) = (k, count_at k m) ∷ key_counts m ks

  key_counts-other :
      (j : K) (w : ℕ) (m : List (K × ℕ)) (ks : List K)
      → contains ks j ≡ false
      → key_counts ((j, w) ∷ m) ks ≡ key_counts m ks
  key_counts-other j w m [] h = refl
  key_counts-other j w m (k ∷ ks) h =
      let other : e.beq j k ≡ false = ground (arith, e.beq_iff j k, e.beq_iff k j) in
      rw other (ap (◌∷◌ (k, count_at k m)) (key_counts-other j w m ks (ground arith)))

  -- With distinct keys they are the entries.
  pub key_counts-keys :
      (m : List (K × ℕ)) → all_distinct (keys m) ≡ true → key_counts m (keys m) ≡ m
  key_counts-keys [] h = refl
  key_counts-keys ((j, w) ∷ m) h = rw (beq_refl j) (
      ap (◌∷◌ (j, w))
        (key_counts-other j w m (keys m) (ground arith) ∙ key_counts-keys m (ground arith)))
