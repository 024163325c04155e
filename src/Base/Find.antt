-- ===== src/Base/Find.antt =====
-- `bytes.Index` finds the first place of a pattern.
use Prim.Native.Nat.{ℕ, zero, suc, ◌<◌}
use mathlib.Core.Path.{◌≡◌, refl, sym, subst, ◌∙◌}
use mathlib.Core.Logic.{inl, inr}
use mathlib.Core.Bool.{Bool, true, false}
use mathlib.Core.Option.{none, some}
use mathlib.Core.List.{[], ◌∷◌}
use native.Mathlib.Omega.{arith}
use herbarium.Base.Tests.{Bool-cases, Option-cases}
use herbarium.Base.Lists.{drop}
use herbarium.Base.Text.{Bytes, has_prefix, index}

-- the pattern stands at place `i` of the text
abbrev pub occurs_at : Bytes → Bytes → ℕ → Bool
occurs_at s p i = has_prefix (drop i s) p

pub none_ne {ℓ} : {A : Type ℓ} {a : A} → none ≡ some a → ⊥
none_ne e = cc

pub some_injective {ℓ} : {A : Type ℓ} {a b : A} → some a ≡ some b → a ≡ b
some_injective e = cc

index_here : (c : ℕ) (s p : Bytes) → has_prefix (c ∷ s) p ≡ true → index (c ∷ s) p ≡ some 0
unfolding index
index_here c s p h = rw (h, index) refl

index-none_later :
    (c : ℕ) (s p : Bytes) → has_prefix (c ∷ s) p ≡ false → index s p ≡ none → index (c ∷ s) p ≡ none
unfolding index
index-none_later c s p h e = rw (h, e, index) refl

index-some_later :
    (c : ℕ) (s p : Bytes) (i : ℕ)
    → has_prefix (c ∷ s) p ≡ false
    → index s p ≡ some i
    → index (c ∷ s) p ≡ some (suc i)
unfolding index
index-some_later c s p i h e = rw (h, e, index) refl

nil_here : (p : Bytes) → has_prefix [] p ≡ true → index [] p ≡ some 0
unfolding index
nil_here p h = rw h refl

nil_away : (p : Bytes) → has_prefix [] p ≡ false → index [] p ≡ none
unfolding index
nil_away p h = rw h refl

drop_nil {ℓ} : {A : Type ℓ} (i : ℕ) → drop {A = A} i [] ≡ []
drop_nil zero = refl
drop_nil (suc i) = refl

tail_none :
    (c : ℕ) (s p : Bytes)
    → has_prefix (c ∷ s) p ≡ false
    → ((i : ℕ) → occurs_at s p i ≡ false)
    → (i : ℕ) → occurs_at (c ∷ s) p i ≡ false
tail_none c s p h rest zero = h
tail_none c s p h rest (suc i) = rest i

tail_before :
    (c : ℕ) (s p : Bytes) (k : ℕ)
    → has_prefix (c ∷ s) p ≡ false
    → ((j : ℕ) → j < k → occurs_at s p j ≡ false)
    → (j : ℕ) → j < suc k
    → occurs_at (c ∷ s) p j ≡ false
tail_before c s p k h rest zero lt = h
tail_before c s p k h rest (suc j) lt = rest j (omega arith)

-- Where nothing is found the pattern stands at no place.
pub index-none : (s p : Bytes) → index s p ≡ none → (i : ℕ) → occurs_at s p i ≡ false
index-none [] p h i = elim (Bool-cases (has_prefix [] p)) [
  | inl here ↦ absurd (none_ne (sym h ∙ nil_here p here))
  | inr away ↦ rw (drop_nil i) away
]
index-none (c ∷ s) p h i = elim (Bool-cases (has_prefix (c ∷ s) p)) [
  | inl here ↦ absurd (none_ne (sym h ∙ index_here c s p here))
  | inr away ↦ elim (Option-cases (index s p)) [
    | inl e ↦ tail_none c s p away (index-none s p e) i
    | inr (j, e) ↦ absurd (none_ne (sym h ∙ index-some_later c s p j away e))
  ]
]

-- The place that is found is one of the pattern, and none is before it.
pub index-some :
    (s p : Bytes) (i : ℕ)
    → index s p ≡ some i
    → (occurs_at s p i ≡ true) × ((j : ℕ) → j < i → occurs_at s p j ≡ false)
index-some [] p i h = elim (Bool-cases (has_prefix [] p)) [
  | inl here ↦
      let e : 0 ≡ i = some_injective (sym (nil_here p here) ∙ h) in
      (rw (drop_nil i) here, (λ j lt. absurd (ground (arith, e))))
  | inr away ↦ absurd (none_ne (sym (nil_away p away) ∙ h))
]
index-some (c ∷ s) p i h = elim (Bool-cases (has_prefix (c ∷ s) p)) [
  | inl here ↦
      let e : 0 ≡ i = some_injective (sym (index_here c s p here) ∙ h) in
      (subst (λ x. occurs_at (c ∷ s) p x ≡ true) e here, (λ j lt. absurd (ground (arith, e))))
  | inr away ↦ elim (Option-cases (index s p)) [
    | inl none_there ↦ absurd (none_ne (sym (index-none_later c s p away none_there) ∙ h))
    | inr (k, e) ↦
        let f : suc k ≡ i = some_injective (sym (index-some_later c s p k away e) ∙ h) in
        let (there, before) = index-some s p k e in
        (
          subst (λ x. occurs_at (c ∷ s) p x ≡ true) f there,
          (λ j lt. tail_before c s p k away before j (omega (arith, f, lt))),
        )
  ]
]
