-- ===== src/Base/Members.antt =====
-- The items of a list: the test that the code makes, and what it says of the library's `Memᴰ`.
use mathlib.Core.Path.{◌≡◌, refl, sym, subst}
use mathlib.Core.Logic.{inl, inr}
use mathlib.Core.Bool.{Bool, true, false, ◌&&◌, ◌||◌, not}
use mathlib.Core.List.{List, [], ◌∷◌, ◌++◌, Memᴰ}
use native.Mathlib.Omega.{arith}
use herbarium.Base.Tests.{Eq, Bool-cases}
use herbarium.Base.Lists.{All}

module _ {ℓ} {A : Type ℓ} ⦃e : Eq A⦄ where
  abbrev pub contains : List A → A → Bool
  contains [] a = false
  contains (x ∷ xs) a = e.beq x a || contains xs a

  abbrev pub all_distinct : List A → Bool
  all_distinct [] = true
  all_distinct (x ∷ xs) = not (contains xs x) && all_distinct xs

  pub contains-append :
      (xs ys : List A) (a : A) → contains (xs ++ ys) a ≡ contains xs a || contains ys a
  contains-append [] ys a = refl
  contains-append (x ∷ xs) ys a = ground (arith, contains-append xs ys a)

  pub all_distinct-append_one :
      (xs : List A) (x : A) → all_distinct (xs ++ x ∷ []) ≡ (not (contains xs x) && all_distinct xs)
  all_distinct-append_one [] x = refl
  all_distinct-append_one (y ∷ xs) x = ground (
    arith,
    all_distinct-append_one xs x,
    contains-append xs (x ∷ []) y,
    e.beq_iff x y,
    e.beq_iff y x,
  )

  pub contains→Memᴰ : (xs : List A) (a : A) → contains xs a ≡ true → Memᴰ a xs
  contains→Memᴰ [] a h = elim (impossible h) [ ]
    where
      impossible : false ≡ true → ⊥
      impossible p = cc
  contains→Memᴰ (x ∷ xs) a h = elim (Bool-cases (e.beq x a)) [
    | inl same ↦ Memᴰ.head (sym ((e.beq_iff x a).0 same))
    | inr other ↦ Memᴰ.tail (contains→Memᴰ xs a (ground arith))
  ]

  pub Memᴰ→contains : {a : A} {xs : List A} → Memᴰ a xs → contains xs a ≡ true
  Memᴰ→contains {a} (Memᴰ.head {x} {xs} p) = ground (arith, e.beq_iff x a)
  Memᴰ→contains {a} (Memᴰ.tail {x} {xs} m) = ground (arith, Memᴰ→contains m)

module _ {ℓ κ} {A : Type ℓ} (P : A → Type κ) where
  pub All-of_Memᴰ : (xs : List A) → ((a : A) → Memᴰ a xs → P a) → All P xs
  All-of_Memᴰ [] h = tt
  All-of_Memᴰ (x ∷ xs) h = (h x (Memᴰ.head refl), All-of_Memᴰ xs (λ a m. h a (Memᴰ.tail m)))

  pub Memᴰ-All : {a : A} {xs : List A} → Memᴰ a xs → All P xs → P a
  Memᴰ-All (Memᴰ.head q) h = subst P (sym q) h.0
  Memᴰ-All (Memᴰ.tail m) h = Memᴰ-All m h.1
