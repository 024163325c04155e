-- ===== src/Usr/Identity.antt =====
-- A USR determines what it names.
use herbarium.Base.{
  ℕ, ◌≡◌, ◌≢◌, refl, sym, ap, ◌∙◌, [], ◌∷◌, ◌++◌, arith, Bytes, ◌==◌, if◌then◌else◌, All, drop,
}
use herbarium.Usr.{function, variable}

-- no `@` in a path
abbrev pub IsPlain : Bytes → Type 0
IsPlain = All (λ c. c ≢ b'@')

-- the bytes before the first `@`, and those from it on
before_at : Bytes → Bytes
before_at [] = []
before_at (c ∷ s) = if c == b'@' then [] else c ∷ before_at s

from_at : Bytes → Bytes
from_at [] = []
from_at (c ∷ s) = if c == b'@' then c ∷ s else from_at s

before_at-append : (p s : Bytes) → IsPlain p → before_at (p ++ b'@' ∷ s) ≡ p
unfolding before_at
before_at-append [] s h = refl
before_at-append (c ∷ p) s (h, hs) = ground (arith, before_at-append p s hs)

from_at-append : (p s : Bytes) → IsPlain p → from_at (p ++ b'@' ∷ s) ≡ b'@' ∷ s
unfolding from_at
from_at-append [] s h = refl
from_at-append (c ∷ p) s (h, hs) = ground (arith, from_at-append p s hs)

-- The layout that every kind has: the path, the kind, the name.
abbrev laid_out : Bytes → ℕ → Bytes → Bytes
laid_out path kind name = b'c' ∷ b':' ∷ (path ++ (b'@' ∷ kind ∷ b'@' ∷ name))

laid_out-injective :
    (p q : Bytes) (k l : ℕ) (n m : Bytes)
    → IsPlain p
    → IsPlain q
    → laid_out p k n ≡ laid_out q l m
    → (p ≡ q) × (k ≡ l) × (n ≡ m)
laid_out-injective p q k l n m hp hq e =
    let e' = ap (drop 2) e in
    let path = ap before_at e' in
    let rest = ap from_at e' in
    (
      sym (before_at-append p _ hp) ∙ path ∙ before_at-append q _ hq,
      cc (from_at-append p (k ∷ b'@' ∷ n) hp, from_at-append q (l ∷ b'@' ∷ m) hq),
      cc (from_at-append p (k ∷ b'@' ∷ n) hp, from_at-append q (l ∷ b'@' ∷ m) hq),
    )

function_lem : (p n : Bytes) → function p n ≡ laid_out p b'F' n
unfolding function
function_lem [] n = refl
function_lem (c ∷ p) n = refl

variable_lem : (p n : Bytes) → variable p n ≡ laid_out p b'V' n
unfolding variable
variable_lem [] n = refl
variable_lem (c ∷ p) n = refl

-- Over paths without `@`, two functions share a USR only if path and name agree, so do two
-- variables, and a function never shares one with a variable.
pub usr_identity :
    (p q n m : Bytes)
    → IsPlain p
    → IsPlain q
    → (function p n ≡ function q m → (p ≡ q) × (n ≡ m))
      × (variable p n ≡ variable q m → (p ≡ q) × (n ≡ m))
      × (function p n ≢ variable q m)
usr_identity p q n m hp hq = (
  λ e.
      let (path, _, name) =
        laid_out-injective p q b'F' b'F' n m hp hq
          (sym (function_lem p n) ∙ e ∙ function_lem q m) in
      (path, name),
  λ e.
      let (path, _, name) =
        laid_out-injective p q b'V' b'V' n m hp hq
          (sym (variable_lem p n) ∙ e ∙ variable_lem q m) in
      (path, name),
  λ e.
      let (_, kind, _) =
        laid_out-injective p q b'F' b'V' n m hp hq
          (sym (function_lem p n) ∙ e ∙ variable_lem q m) in
      absurd (omega arith),
)
