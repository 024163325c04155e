-- ===== src/Base/Sorting.antt =====
-- `sort.Slice` and `sort.Strings`: insertion by the comparison that the caller gives.
use Prim.Native.Nat.{ℕ}
use mathlib.Core.Logic.{inl, inr}
use mathlib.Core.Bool.{Bool, true, false}
use mathlib.Core.List.{List, [], ◌∷◌, Memᴰ}
use mathlib.Core.List.Memᴰ
use herbarium.Base.Tests.{ltb, ◌==◌, if◌then◌else◌, Bool-cases}
use herbarium.Base.Tests.{ltb, ◌==◌, if◌then◌else◌}

-- the order of Go strings: bytewise, a prefix first
abbrev pub str_ltb : List ℕ → List ℕ → Bool
str_ltb [] [] = false
str_ltb [] (y ∷ ys) = true
str_ltb (x ∷ xs) [] = false
str_ltb (x ∷ xs) (y ∷ ys) = if x == y then str_ltb xs ys else ltb x y

module _ {ℓ} {A : Type ℓ} (less : A → A → Bool) where
  -- `x` goes before the first item that it is less than
  unfoldable pub insert_by : A → List A → List A
  insert_by x [] = x ∷ []
  insert_by x (y ∷ ys) = if less x y then x ∷ y ∷ ys else y ∷ insert_by x ys

  unfoldable pub sort_by : List A → List A
  unfolding insert_by
  sort_by [] = []
  sort_by (x ∷ xs) = insert_by x (sort_by xs)

  Memᴰ-insert_by : {a : A} (x : A) (ys : List A) → Memᴰ a (x ∷ ys) → Memᴰ a (insert_by x ys)
  unfolding insert_by
  Memᴰ-insert_by x [] m = m
  Memᴰ-insert_by x (y ∷ ys) m = elim (Bool-cases (less x y)) [
    | inl first ↦ rw first m
    | inr later ↦ rw later (elim (Memᴰ.cases_cons m) [
      | inl same ↦ Memᴰ.tail (Memᴰ-insert_by x ys (Memᴰ.head same))
      | inr rest ↦ elim (Memᴰ.cases_cons rest) [
        | inl here ↦ Memᴰ.head here
        | inr there ↦ Memᴰ.tail (Memᴰ-insert_by x ys (Memᴰ.tail there))
      ]
    ])
  ]

  Memᴰ_of_insert_by : {a : A} (x : A) (ys : List A) → Memᴰ a (insert_by x ys) → Memᴰ a (x ∷ ys)
  unfolding insert_by
  Memᴰ_of_insert_by x [] m = m
  Memᴰ_of_insert_by x (y ∷ ys) m = elim (Bool-cases (less x y)) [
    | inl first ↦ rw first at m
    | inr later ↦ elim (Memᴰ.cases_cons (rw later at m)) [
      | inl here ↦ Memᴰ.tail (Memᴰ.head here)
      | inr there ↦ elim (Memᴰ.cases_cons (Memᴰ_of_insert_by x ys there)) [
        | inl same ↦ Memᴰ.head same
        | inr rest ↦ Memᴰ.tail (Memᴰ.tail rest)
      ]
    ]
  ]

  -- Sorting keeps the items.
  pub Memᴰ-sort_by : {a : A} (xs : List A) → Memᴰ a xs → Memᴰ a (sort_by xs)
  unfolding sort_by
  Memᴰ-sort_by [] m = m
  Memᴰ-sort_by (x ∷ xs) m = elim (Memᴰ.cases_cons m) [
    | inl same ↦ Memᴰ-insert_by x (sort_by xs) (Memᴰ.head same)
    | inr rest ↦ Memᴰ-insert_by x (sort_by xs) (Memᴰ.tail (Memᴰ-sort_by xs rest))
  ]

  pub Memᴰ_of_sort_by : {a : A} (xs : List A) → Memᴰ a (sort_by xs) → Memᴰ a xs
  unfolding sort_by
  Memᴰ_of_sort_by [] m = m
  Memᴰ_of_sort_by (x ∷ xs) m = elim (Memᴰ.cases_cons (Memᴰ_of_insert_by x (sort_by xs) m)) [
    | inl same ↦ Memᴰ.head same
    | inr rest ↦ Memᴰ.tail (Memᴰ_of_sort_by xs rest)
  ]
