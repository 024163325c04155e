-- ===== src/CallGraph/Paths.antt =====
-- What the search behind `list_call_paths` is to find: the simple paths of bounded length.
use herbarium.Base.{
  ℕ, zero, suc, ◌+◌, ◌≤◌, ◌≡◌, ◌≢◌, refl, true, false, List, [], ◌∷◌, ◌++◌, arith, length, Memᴰ,
  contains, all_distinct, nat_eq, All, contains-append, ap, subst,
}
use native.Mathlib.Decide.{ℕ_discrete}
use herbarium.CallGraph.{Adjacency, top, pop, unmark}

-- a walk along call edges, with its nodes
pub data Walk (adj : Adjacency) : ℕ → ℕ → List ℕ → Type 0 where
  here : (a : ℕ) → Walk adj a a (a ∷ [])
  step : {a b c : ℕ} {p : List ℕ} → Memᴰ b (adj a) → Walk adj b c p → Walk adj a c (a ∷ p)

-- A path from `start` to `end` along call edges, with no node twice and at most `max_depth` edges.
pub record IsCallPath (adj : Adjacency) (start end max_depth : ℕ) (p : List ℕ) : Type 0 where
  pub walk : Walk adj start end p
  pub simple : all_distinct p ≡ true
  pub short : length p ≤ max_depth + 1

module _ {adj : Adjacency} where
  pub Walk-concat :
      {a b : ℕ} {p : List ℕ} (c : ℕ) → Walk adj a b p → Memᴰ c (adj b) → Walk adj a c (p ++ c ∷ [])
  Walk-concat c (here a) m = step m (here c)
  Walk-concat c (step e w) m = step e (Walk-concat c w m)

  pub Walk-contains_end : {a b : ℕ} {p : List ℕ} → Walk adj a b p → contains p b ≡ true
  Walk-contains_end (here a) = ground arith
  Walk-contains_end (step {a} {b} {c} {p} e w) = ground (arith, Walk-contains_end w)

pub top-concat : (s : List ℕ) (n : ℕ) → top (s ++ n ∷ []) ≡ n
top-concat [] n = refl
top-concat (x ∷ []) n = refl
top-concat (x ∷ y ∷ s) n = top-concat (y ∷ s) n

pub pop-concat : (s : List ℕ) (n : ℕ) → pop (s ++ n ∷ []) ≡ s
pop-concat [] n = refl
pop-concat (x ∷ []) n = refl
pop-concat (x ∷ y ∷ s) n = ap (◌∷◌ x) (pop-concat (y ∷ s) n)

pub unmark_marked : (n : ℕ) (v : List ℕ) → unmark n (n ∷ v) ≡ v
unmark_marked n v = ground arith

pub all_distinct-concat :
    (s : List ℕ) (n : ℕ)
    → all_distinct s ≡ true
    → contains s n ≡ false
    → all_distinct (s ++ n ∷ []) ≡ true
all_distinct-concat [] n d h = refl
all_distinct-concat (x ∷ s) n d h =
    ground (arith, all_distinct-concat s n, contains-append s (n ∷ []) x)

-- How a path goes on from `last`, with `d` edges left and the nodes of `visited` taken.
pub data Rest (adj : Adjacency) (end : ℕ) : List ℕ → ℕ → ℕ → List ℕ → Type 0 where
  arrive :
      {visited : List ℕ} {d last : ℕ}
      → Memᴰ end (adj last)
      → contains visited end ≡ false
      → Rest adj end visited (suc d) last (end ∷ [])
  go_on :
      {visited : List ℕ} {d last : ℕ} {r : List ℕ} (next : ℕ)
      → Memᴰ next (adj last)
      → contains visited next ≡ false
      → next ≢ end
      → Rest adj end (next ∷ visited) d next r
      → Rest adj end visited (suc d) last (next ∷ r)

abbrev pub Fresh : List ℕ → List ℕ → Type 0
Fresh visited = All (λ x. contains visited x ≡ false)

Fresh-cons :
    (n : ℕ) (visited r : List ℕ) → contains r n ≡ false → Fresh visited r → Fresh (n ∷ visited) r
Fresh-cons n visited [] h f = tt
Fresh-cons n visited (x ∷ r) h (f, fs) = (ground arith, Fresh-cons n visited r (ground arith) fs)

pub Fresh-single : (n : ℕ) (r : List ℕ) → all_distinct (n ∷ r) ≡ true → Fresh (n ∷ []) r
Fresh-single n r d = Fresh-cons n [] r (ground arith) (fresh_of_none r)
  where
    fresh_of_none : (q : List ℕ) → Fresh [] q
    fresh_of_none [] = tt
    fresh_of_none (x ∷ q) = (refl, fresh_of_none q)

abbrev pub after_first : List ℕ → List ℕ
after_first [] = []
after_first (x ∷ r) = r

module _ {adj : Adjacency} where
  pub Walk-cons :
      {a b : ℕ} {p : List ℕ} → Walk adj a b p → (r : List ℕ) × (p ≡ a ∷ r) × (after_first p ≡ r)
  Walk-cons (here a) = ([], refl, refl)
  Walk-cons (step {a} {b} {c} {p} e w) = (p, refl, refl)

  pub Walk-closed :
      {a b : ℕ} {p : List ℕ} → Walk adj a b p → a ≡ b → all_distinct p ≡ true → p ≡ b ∷ []
  Walk-closed (here a) e d = refl
  Walk-closed (step {a} {b} {c} {p} m w) e d = absurd (ground (arith, Walk-contains_end w))

-- Every simple walk that stays off `visited` is such a continuation.
pub Rest-of_Walk :
    {adj : Adjacency} {a e : ℕ} {p : List ℕ} (visited : List ℕ) (d : ℕ)
    → Walk adj a e p
    → a ≢ e
    → all_distinct p ≡ true
    → Fresh visited (after_first p)
    → length p ≤ d + 1
    → Rest adj e visited d a (after_first p)
Rest-of_Walk visited d (here a) ne dist f l = absurd (ne refl)
Rest-of_Walk visited zero (step {a} {b} {c} {p} m w) ne dist f l =
    let (r, e, _) = Walk-cons w in absurd (omega (arith, ap length e))
Rest-of_Walk {adj} visited (suc d) (step {a} {b} {c} {p} m w) ne dist f l =
    let (r, e, t) = Walk-cons w in
    let fresh : Fresh visited (b ∷ r) = subst (Fresh visited) e f in
    elim (ℕ_discrete b c) [
      | yes same ↦ rw (Walk-closed w same (ground arith)) (
          arrive (subst (λ x. Memᴰ x (adj a)) same m)
            (subst (λ x. contains visited x ≡ false) same fresh.0))
      | no differ ↦ rw e (
          go_on b m fresh.0 differ (
            rw t at (
              Rest-of_Walk (b ∷ visited) d w differ (ground arith)
                (rw t (Fresh-cons b visited r (ground arith) fresh.1)) (omega arith))))
    ]
