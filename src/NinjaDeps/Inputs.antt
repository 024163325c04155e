-- ===== src/NinjaDeps/Inputs.antt =====
-- The inputs of a deps record are the paths that have the numbers it gives.
use herbarium.Base.{
  ℕ, zero, suc, ◌≡◌, sym, refl, ap, inl, inr, List, [], ◌∷◌, none, some, none_ne, some_injective,
  Bytes, get_elem?, Option-cases,
}
use herbarium.NinjaDeps.{inputs}
use herbarium.NinjaDeps.Format.{path_number, numbered}

pub path_number-none :
    (paths : List Bytes) (n : ℕ) → get_elem? paths n ≡ none → path_number paths n ≡ []
path_number-none [] n e = refl
path_number-none (p ∷ ps) zero e = absurd (none_ne (sym e))
path_number-none (p ∷ ps) (suc n) e = path_number-none ps n e

pub path_number-some :
    (paths : List Bytes) (n : ℕ) (p : Bytes)
    → get_elem? paths n ≡ some p
    → path_number paths n ≡ p ∷ []
path_number-some [] n p e = absurd (none_ne e)
path_number-some (q ∷ ps) zero p e = ap (λ x. x ∷ []) (some_injective e)
path_number-some (q ∷ ps) (suc n) p e = path_number-some ps n p e

-- The inputs are the paths with the numbers of the record.
pub inputs-numbered : (paths : List Bytes) (ids : List ℕ) → inputs paths ids ≡ numbered paths ids
unfolding inputs
inputs-numbered paths [] = refl
inputs-numbered paths (id ∷ ids) = elim (Option-cases (get_elem? paths id)) [
  | inl e ↦ rw (inputs, e, path_number-none paths id e) (inputs-numbered paths ids)
  | inr (p, e) ↦
      rw (inputs, e, path_number-some paths id p e) (ap (λ ps. p ∷ ps) (inputs-numbered paths ids))
]
