-- ===== src/CallTarget/Register.antt =====
-- `argIndexForReg` gives the parameter that is passed in the register, if it can tell.
use herbarium.Base.{
  ℕ, zero, suc, ◌+◌, ◌≡◌, refl, inl, inr, arith, Bool, true, false, List, [], ◌∷◌, none, some, ◌==◌,
  Bool-cases, take, get_elem?, subst, if◌then◌else◌, contains, all_distinct, nat_eq, ◌↔◌, ==_iff,
}
use herbarium.CallTarget.{arg_reg_order, arg_index, arg_index_for_reg}

abbrev pub all_true : List Bool → Bool
all_true [] = true
all_true (b ∷ bs) = if b then all_true bs else false

-- parameter `k` is in the register, and it and those before it take one register each
abbrev pub IsPassedIn : ℕ → List ℕ → List Bool → ℕ → Type 0
IsPassedIn k regs classes reg =
    (get_elem? regs k ≡ some reg)
    × (get_elem? classes k ≡ some true)
    × (all_true (take k classes) ≡ true)

arg_index-found :
    (i : ℕ) (regs : List ℕ) (classes : List Bool) (reg : ℕ) (j : ℕ)
    → arg_index i regs classes reg ≡ some j
    → (k : ℕ) × (j ≡ i + k) × IsPassedIn k regs classes reg
unfolding arg_index
arg_index-found i regs [] reg j h = absurd (none_ne h)
  where
    none_ne : none ≡ some j → ⊥
    none_ne p = cc
arg_index-found i [] (b ∷ classes) reg j h = absurd (none_ne h)
  where
    none_ne : none ≡ some j → ⊥
    none_ne p = cc
arg_index-found i (r ∷ regs) (b ∷ classes) reg j h = elim (Bool-cases b) [
  | inr no_int ↦ ground arith
  | inl is_int ↦ elim (Bool-cases (r == reg)) [
    | inl same ↦ (0, ground arith, (ground (arith, ==_iff r reg), ground arith, refl))
    | inr other ↦
        let (k, e, (f, g, a)) = arg_index-found (i + 1) regs classes reg j (ground arith) in
        (suc k, omega arith, (f, g, ground arith))
  ]
]

get_elem-contains :
    (regs : List ℕ) (k reg : ℕ) → get_elem? regs k ≡ some reg → contains regs reg ≡ true
get_elem-contains [] k reg h = absurd (none_ne h)
  where
    none_ne : none ≡ some reg → ⊥
    none_ne p = cc
get_elem-contains (r ∷ regs) zero reg h = ground (arith, ==_iff r reg)
get_elem-contains (r ∷ regs) (suc k) reg h = ground (arith, get_elem-contains regs k reg)

arg_index-finds :
    (i : ℕ) (regs : List ℕ) (classes : List Bool) (reg k : ℕ)
    → all_distinct regs ≡ true
    → IsPassedIn k regs classes reg
    → arg_index i regs classes reg ≡ some (i + k)
unfolding arg_index
arg_index-finds i regs [] reg k d (f, g, a) = absurd (none_ne g)
  where
    none_ne : none ≡ some true → ⊥
    none_ne p = cc
arg_index-finds i [] (b ∷ classes) reg k d (f, g, a) = absurd (none_ne f)
  where
    none_ne : none ≡ some reg → ⊥
    none_ne p = cc
arg_index-finds i (r ∷ regs) (b ∷ classes) reg zero d (f, g, a) = ground (arith, ==_iff r reg)
arg_index-finds i (r ∷ regs) (b ∷ classes) reg (suc k) d (f, g, a) =
    ground (
      arith,
      arg_index-finds (i + 1) regs classes reg k,
      get_elem-contains regs k reg,
      ==_iff r reg,
    )

-- The index that `argIndexForReg` gives is that of the parameter passed in the register: those up to
-- it take one integer register each, and it is the one of that rank. It gives none if there is none.
pub arg_index_for_reg_lem :
    (classes : List Bool) (reg k : ℕ)
    → (arg_index_for_reg classes reg ≡ some k) ↔ IsPassedIn k arg_reg_order classes reg
unfolding arg_index_for_reg
arg_index_for_reg_lem classes reg k = (
  (λ h.
      let (j, e, p) = arg_index-found 0 arg_reg_order classes reg k h in
      let is_k : j ≡ k = omega arith in subst (λ x. IsPassedIn x arg_reg_order classes reg) is_k p),
  (λ p.
      let at : arg_index 0 arg_reg_order classes reg ≡ some (0 + k) =
        arg_index-finds 0 arg_reg_order classes reg k refl p in
      let is_k : 0 + k ≡ k = omega arith in
      subst (λ x. arg_index 0 arg_reg_order classes reg ≡ some x) is_k at),
)
