-- ===== src/Link/Winner.antt =====
-- `pickWinningObject`: the candidate that is before all others, in whatever order they stand.
use mathlib.Core.List.Memᴰ
use herbarium.Base.{
  ℕ, ◌≡◌, ◌↔◌, refl, sym, inl, inr, arith, Bool, true, false, not, ◌&&◌, ◌||◌, leb, ltb, codes,
  list_beq, list_eq, nat_eq, if◌then◌else◌, List, [], ◌∷◌, Memᴰ, Bytes, Bool-cases, str_ltb,
  sort_by, insert_by, Memᴰ-sort_by, Memᴰ_of_sort_by, ◌∙◌, subst, ◌⊎◌, List-cases,
}
use herbarium.Link.{ObjectDef, rank, before, pick_winning_object}

str_ltb_via : (a b c : Bytes) → str_ltb a b ≡ false → str_ltb b c ≡ false → str_ltb a c ≡ false
str_ltb_via [] [] c p q = q
str_ltb_via [] (y ∷ b) c p q = cc
str_ltb_via (x ∷ a) b [] p q = refl
str_ltb_via (x ∷ a) [] (z ∷ c) p q = cc
str_ltb_via (x ∷ a) (y ∷ b) (z ∷ c) p q = ground (arith, str_ltb_via a b c)

str_ltb_antisym : (a b : Bytes) → str_ltb a b ≡ false → str_ltb b a ≡ false → a ≡ b
str_ltb_antisym [] [] p q = refl
str_ltb_antisym [] (y ∷ b) p q = cc
str_ltb_antisym (x ∷ a) [] p q = cc
str_ltb_antisym (x ∷ a) (y ∷ b) p q = ground (arith, str_ltb_antisym a b)

str_ltb_irrefl : (a : Bytes) → str_ltb a a ≡ false
str_ltb_irrefl [] = refl
str_ltb_irrefl (x ∷ a) = ground (arith, str_ltb_irrefl a)

str_ltb_asym : (a b : Bytes) → str_ltb a b ≡ true → str_ltb b a ≡ false
str_ltb_asym [] [] p = refl
str_ltb_asym [] (y ∷ b) p = refl
str_ltb_asym (x ∷ a) [] p = cc
str_ltb_asym (x ∷ a) (y ∷ b) p = ground (arith, str_ltb_asym a b)

before_via : (c d e : ObjectDef) → before c d ≡ false → before d e ≡ false → before c e ≡ false
unfolding before
before_via c d e p q = ground (arith, str_ltb_via c.object d.object e.object)

before_antisym : (c d : ObjectDef) → before c d ≡ false → before d c ≡ false → c.object ≡ d.object
unfolding before
before_antisym c d p q = ground (arith, str_ltb_antisym c.object d.object)

-- nothing of the list is before `c`
abbrev pub IsFirst : ObjectDef → List ObjectDef → Type 0
IsFirst c ds = (d : ObjectDef) → Memᴰ d ds → before d c ≡ false

before_irrefl : (c : ObjectDef) → before c c ≡ false
unfolding before
before_irrefl c = ground (arith, str_ltb_irrefl c.object)

before_asym : (c d : ObjectDef) → before c d ≡ true → before d c ≡ false
unfolding before
before_asym c d p = ground (arith, str_ltb_asym c.object d.object)

-- the head of the sorted list, with one more item inserted
head_insert :
    (x : ObjectDef) (xs t : List ObjectDef)
    → sort_by before xs ≡ t
    → ((c : ObjectDef) (cs : List ObjectDef) → t ≡ c ∷ cs → IsFirst c xs)
    → (c : ObjectDef) (cs : List ObjectDef) → insert_by before x t ≡ c ∷ cs
    → IsFirst c (x ∷ xs)
unfolding insert_by
head_insert x xs [] e ih c cs h d m =
    let is_c : x ≡ c = cc in
    elim (Memᴰ.cases_cons m) [
      | inl here ↦
          subst (λ y. before d y ≡ false) is_c
            (subst (λ y. before y x ≡ false) (sym here) (before_irrefl x))
      | inr there ↦ absurd (Memᴰ.not-nil (subst (Memᴰ d) e (Memᴰ-sort_by before xs there)))
    ]
head_insert x xs (y ∷ ys) e ih c cs h d m = elim (Bool-cases (before x y)) [
  | inl first ↦
      let got : x ∷ y ∷ ys ≡ c ∷ cs = rw first at h in
      let is_c : x ≡ c = cc in
      elim (Memᴰ.cases_cons m) [
        | inl here ↦
            subst (λ z. before d z ≡ false) is_c
              (subst (λ z. before z x ≡ false) (sym here) (before_irrefl x))
        | inr there ↦
            subst (λ z. before d z ≡ false) is_c
              (before_via d y x (ih y ys refl d there) (before_asym x y first))
      ]
  | inr later ↦
      let got : y ∷ insert_by before x ys ≡ c ∷ cs = rw later at h in
      let is_c : y ≡ c = cc in
      elim (Memᴰ.cases_cons m) [
        | inl here ↦
            subst (λ z. before d z ≡ false) is_c (subst (λ z. before z y ≡ false) (sym here) later)
        | inr there ↦ subst (λ z. before d z ≡ false) is_c (ih y ys refl d there)
      ]
]

head_sort :
    (xs : List ObjectDef) (c : ObjectDef) (cs : List ObjectDef)
    → sort_by before xs ≡ c ∷ cs
    → IsFirst c xs
unfolding sort_by
head_sort [] c cs h = λ d m. absurd (Memᴰ.not-nil m)
head_sort (x ∷ xs) c cs h = head_insert x xs (sort_by before xs) refl (head_sort xs) c cs h

-- The kinds of a definition, by the letter of nm, the strongest first.
abbrev pub is_strong : Bytes → Bool
is_strong k =
    list_beq k (codes "T")
    || (list_beq k (codes "D") || (list_beq k (codes "B") || list_beq k (codes "R")))

abbrev pub is_weak : Bytes → Bool
is_weak k = list_beq k (codes "W") || list_beq k (codes "V")

abbrev pub is_common : Bytes → Bool
is_common k = list_beq k (codes "C")

abbrev pub is_small_letter : Bytes → Bool
is_small_letter [] = false
is_small_letter (c ∷ []) = leb b'a' c && leb c b'z'
is_small_letter (c ∷ d ∷ s) = false

-- whether a kind is stronger than another: strong, weak, common, local, anything else
abbrev pub outranks : Bytes → Bytes → Bool
outranks k j =
    (is_strong k && not (is_strong j))
    || ((is_weak k && not (is_strong j || is_weak j))
        || ((is_common k && not (is_strong j || (is_weak j || is_common j)))
            || (is_small_letter k
                && not (is_strong j || (is_weak j || (is_common j || is_small_letter j))))))

-- stronger, or as strong with the lesser path
abbrev pub wins_over : ObjectDef → ObjectDef → Bool
wins_over d c =
    outranks d.kind c.kind || (not (outranks c.kind d.kind) && str_ltb d.object c.object)

and_false : (b : Bool) → (b && false) ≡ false
and_false true = refl
and_false false = refl

rank_lem :
    (k : Bytes)
    → rank k ≡ (
        if is_strong k
        then 4
        else if is_weak k
        then 3
        else if is_common k
        then 2
        else if is_small_letter k
        then 1
        else 0)
unfolding rank
rank_lem [] = refl
rank_lem (c ∷ []) = ground arith
rank_lem (c ∷ d ∷ s) = simp and_false refl

abbrev number : Bool → Bool → Bool → Bool → ℕ
number a w m l = if a then 4 else if w then 3 else if m then 2 else if l then 1 else 0

number_lem :
    (a w m l b x n k : Bool)
    → ((a && not b)
        || ((w && not (b || x))
            || ((m && not (b || (x || n))) || (l && not (b || (x || (n || k)))))))
      ≡ ltb (number b x n k) (number a w m l)
number_lem a w m l b x n k = ground arith

outranks_lem : (k j : Bytes) → outranks k j ≡ ltb (rank j) (rank k)
outranks_lem k j =
    rw (rank_lem k, rank_lem j)
      (number_lem (is_strong k) (is_weak k) (is_common k) (is_small_letter k) (is_strong j)
        (is_weak j) (is_common j) (is_small_letter j))

before_lem : (d c : ObjectDef) → before d c ≡ wins_over d c
unfolding before
before_lem d c = rw (outranks_lem d.kind c.kind, outranks_lem c.kind d.kind) (ground arith)

-- no candidate of the list wins over it
abbrev pub IsUnbeaten : ObjectDef → List ObjectDef → Type 0
IsUnbeaten c ds = (d : ObjectDef) → Memᴰ d ds → wins_over d c ≡ false

first_of :
    (cands : List ObjectDef)
    → (cands ≡ [] × pick_winning_object cands ≡ [])
      ⊎ ((c : ObjectDef) × Memᴰ c cands × IsFirst c cands × pick_winning_object cands ≡ c.object)
unfolding pick_winning_object
first_of cands = elim (List-cases (sort_by before cands)) [
  | inl e ↦ elim (List-cases cands) [
    | inl empty ↦ inl (empty, rw (e, pick_winning_object) refl)
    | inr (c, cs, q) ↦
        absurd (Memᴰ.not-nil (subst (Memᴰ c) e (Memᴰ-sort_by before cands (rw q (Memᴰ.head refl)))))
  ]
  | inr (c, cs, e) ↦ inr (
    c,
    Memᴰ_of_sort_by before cands (rw e (Memᴰ.head refl)),
    head_sort cands c cs e,
    rw (e, pick_winning_object) refl,
  )
]

-- The winner is the empty string if there are no candidates. Else it is the object of a candidate
-- that no other one wins over: a strong definition wins over a weak one, that over a common one, that
-- over a local one, and any of them over a kind that is none of these; among definitions of the same
-- strength the lesser path wins.
pub pick_winning_object_lem :
    (cands : List ObjectDef)
    → (cands ≡ [] × pick_winning_object cands ≡ [])
      ⊎ ((c : ObjectDef) × Memᴰ c cands × IsUnbeaten c cands × pick_winning_object cands ≡ c.object)
pick_winning_object_lem cands = elim (first_of cands) [
  | inl e ↦ inl e
  | inr (c, m, first, e) ↦ inr (c, m, (λ d there. sym (before_lem d c) ∙ first d there), e)
]

-- The winner does not depend on the order of the candidates, nor on how often one occurs.
pub pick_winning_object_order :
    (xs ys : List ObjectDef)
    → ((d : ObjectDef) → Memᴰ d xs ↔ Memᴰ d ys)
    → pick_winning_object xs ≡ pick_winning_object ys
pick_winning_object_order xs ys same = elim (first_of xs) [
  | inl (nx, wx) ↦ elim (first_of ys) [
    | inl (ny, wy) ↦ wx ∙ sym wy
    | inr (d, m, _, _) ↦ absurd (Memᴰ.not-nil (subst (Memᴰ d) nx ((same d).1 m)))
  ]
  | inr (c, mc, first_c, wc) ↦ elim (first_of ys) [
    | inl (ny, wy) ↦ absurd (Memᴰ.not-nil (subst (Memᴰ c) ny ((same c).0 mc)))
    | inr (d, md, first_d, wd) ↦
        wc ∙ before_antisym c d (first_d c ((same c).0 mc)) (first_c d ((same d).1 md)) ∙ sym wd
  ]
]
