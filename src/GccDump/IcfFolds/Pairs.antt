-- ===== src/GccDump/IcfFolds/Pairs.antt =====
-- The pairs of a winner and a loser that the groups of an icf dump hold.
use herbarium.Base.{
  ◌≡◌, refl, sym, ap, ◌∙◌, inl, inr, arith, Bool, true, false, not, ◌||◌, ◌&&◌, List, [], ◌∷◌,
  Option, none, some, Bytes, if◌then◌else◌, Bool-cases, contains, contains-append, contains-sort_by,
  lookup, insert, lookup-insert, list_beq, list_beq_iff, list_eq, nat_eq, sort_by, str_ltb,
}
use herbarium.GccDump.{IcfGroup, is_empty}
use herbarium.GccDump.IcfFolds.{
  introduced, analyzing, alias_calls, Folds, add_item, set_of, losers_at, add_loser, add_losers,
  body_line, fold_line, fold_lines, groups_of, no_folds, parse_icf,
}

-- whether a group of the winner has the loser
abbrev pub is_folded : List IcfGroup → Bytes → Bytes → Bool
is_folded [] w l = false
is_folded (g ∷ gs) w l = (list_beq g.winner_name w && contains g.loser_names l) || is_folded gs w l

abbrev is_winner : Option Bytes → Bytes → Bool
is_winner none w = false
is_winner (some v) w = list_beq v w

-- whether a line introduces the alias of the winner
abbrev pub introduces : List Bytes → Bytes → Bool
introduces [] w = false
introduces (line ∷ lines) w = is_winner (introduced line) w || introduces lines w

-- the function that the last of the lines to name one is about
abbrev then_fn : Bytes → Option Bytes → Bytes
then_fn fn none = fn
then_fn fn (some next) = next

abbrev fn_after : Bytes → Bytes → Option Bytes → Bytes
fn_after fn line (some w) = fn
fn_after fn line none = then_fn fn (analyzing line)

abbrev calls_in : Bytes → Option Bytes → Option Bytes → List Bytes
calls_in line (some w) a = []
calls_in line none (some fn) = []
calls_in line none none = alias_calls false 0 line

-- whether the body of the loser calls the alias of the winner, with `fn` the function at the start
abbrev pub calls_alias : Bytes → List Bytes → Bytes → Bytes → Bool
calls_alias fn [] w l = false
calls_alias fn (line ∷ lines) w l =
    (contains (calls_in line (introduced line) (analyzing line)) w
      && (list_beq fn l && (not (is_empty l) && not (list_beq l w))))
    || calls_alias (fn_after fn line (introduced line)) lines w l

abbrev pub loses : List (Bytes × List Bytes) → Bytes → Bytes → Bool
loses m w l = contains (losers_at w m) l

contains-add_item :
    (set : List Bytes) (a b : Bytes)
    → contains (add_item set a) b ≡ (contains set b || list_beq a b)
contains-add_item set a b = elim (Bool-cases (contains set a)) [
  | inl old ↦ elim (Bool-cases (list_beq a b)) [
    | inl same ↦
        let there : contains set b ≡ true =
          ap (contains set) (sym ((list_beq_iff a b).0 same)) ∙ old in
        rw (old, there) refl
    | inr other ↦ rw (old, other) (ground arith)
  ]
  | inr new ↦ rw new (contains-append set (a ∷ []) b ∙ ground arith)
]

losers_at-insert :
    (k j : Bytes) (set : List Bytes) (m : List (Bytes × List Bytes))
    → losers_at j (insert k set m) ≡ (if list_beq k j then set else losers_at j m)
losers_at-insert k j set m = elim (Bool-cases (list_beq k j)) [
  | inl same ↦
      let at : lookup j (insert k set m) ≡ some set = lookup-insert k j set m ∙ rw same refl in
      rw same (ap set_of at)
  | inr other ↦
      let at : lookup j (insert k set m) ≡ lookup j m = lookup-insert k j set m ∙ rw other refl in
      rw other (ap set_of at)
]

abbrev is_new : Bytes → Bytes → Bytes → Bytes → Bool
is_new fn v w l = list_beq v w && (list_beq fn l && (not (is_empty l) && not (list_beq l w)))

is_new-guard :
    (fn v w l : Bytes)
    → is_new fn v w l ≡ (list_beq v w && (list_beq fn l && not (is_empty fn || list_beq fn v)))
is_new-guard fn v w l = elim (Bool-cases (list_beq v w)) [
  | inr other ↦ rw other refl
  | inl same ↦ elim (Bool-cases (list_beq fn l)) [
    | inr not_it ↦ rw not_it refl
    | inl it ↦
        let v_is : v ≡ w = (list_beq_iff v w).0 same in
        let fn_is : fn ≡ l = (list_beq_iff fn l).0 it in
        let guard : (is_empty fn || list_beq fn v) ≡ (is_empty l || list_beq l w) =
          ap (λ f. is_empty f || list_beq f v) fn_is ∙ ap (λ x. is_empty l || list_beq l x) v_is in
        rw (same, it, guard) (ground arith)
  ]
]

loses-add_loser :
    (fn v : Bytes) (m : List (Bytes × List Bytes)) (w l : Bytes)
    → loses (add_loser fn m v) w l ≡ (loses m w l || is_new fn v w l)
loses-add_loser fn v m w l = elim (Bool-cases (is_empty fn || list_beq fn v)) [
  | inl skip ↦ rw (is_new-guard fn v w l, skip) (ground arith)
  | inr keep ↦
      rw (is_new-guard fn v w l, keep)
        (elim (Bool-cases (list_beq v w)) [
          | inl same ↦
              let at : losers_at w (insert v (add_item (losers_at v m) fn) m)
                  ≡ add_item (losers_at v m) fn =
                losers_at-insert v w (add_item (losers_at v m) fn) m ∙ rw same refl in
              let here : losers_at v m ≡ losers_at w m =
                ap (λ x. losers_at x m) ((list_beq_iff v w).0 same) in
              ap (λ set. contains set l) at
              ∙ contains-add_item (losers_at v m) fn l
              ∙ rw (here, same) (ground arith)
          | inr other ↦
              let at : losers_at w (insert v (add_item (losers_at v m) fn) m) ≡ losers_at w m =
                losers_at-insert v w (add_item (losers_at v m) fn) m ∙ rw other refl in
              ap (λ set. contains set l) at ∙ rw other (ground arith)
        ])
]

loses-add_losers :
    (fn : Bytes) (m : List (Bytes × List Bytes)) (ws : List Bytes) (w l : Bytes)
    → loses (add_losers fn m ws) w l ≡ (
        loses m w l
        || (contains ws w && (list_beq fn l && (not (is_empty l) && not (list_beq l w)))))
unfolding add_losers
loses-add_losers fn m [] w l = ground arith
loses-add_losers fn m (v ∷ ws) w l =
    loses-add_losers fn (add_loser fn m v) ws w l ∙ rw (loses-add_loser fn v m w l) (ground arith)

loses-body_line :
    (f : Folds) (line : Bytes) (a : Option Bytes) (w l : Bytes)
    → loses (body_line f line a).losers_of w l ≡ (
        loses f.losers_of w l
        || (contains (calls_in line none a) w
            && (list_beq f.current_fn l && (not (is_empty l) && not (list_beq l w)))))
loses-body_line f line none w l =
    loses-add_losers f.current_fn f.losers_of (alias_calls false 0 line) w l
loses-body_line f line (some fn) w l = ground arith

loses-fold_line :
    (f : Folds) (line : Bytes) (i : Option Bytes) (w l : Bytes)
    → loses (fold_line f line i).losers_of w l ≡ (
        loses f.losers_of w l
        || (contains (calls_in line i (analyzing line)) w
            && (list_beq f.current_fn l && (not (is_empty l) && not (list_beq l w)))))
loses-fold_line f line none w l = loses-body_line f line (analyzing line) w l
loses-fold_line f line (some v) w l = ground arith

fn-body_line :
    (f : Folds) (line : Bytes) (a : Option Bytes)
    → (body_line f line a).current_fn ≡ then_fn f.current_fn a
fn-body_line f line none = refl
fn-body_line f line (some fn) = refl

fn-fold_line :
    (f : Folds) (line : Bytes) (i : Option Bytes)
    → (fold_line f line i).current_fn ≡ fn_after f.current_fn line i
fn-fold_line f line none = fn-body_line f line (analyzing line)
fn-fold_line f line (some v) = refl

winners-body_line :
    (f : Folds) (line : Bytes) (a : Option Bytes) → (body_line f line a).winners ≡ f.winners
winners-body_line f line none = refl
winners-body_line f line (some fn) = refl

winners-fold_line :
    (f : Folds) (line : Bytes) (i : Option Bytes) (w : Bytes)
    → contains (fold_line f line i).winners w ≡ (contains f.winners w || is_winner i w)
winners-fold_line f line none w =
    ap (λ set. contains set w) (winners-body_line f line (analyzing line)) ∙ ground arith
winners-fold_line f line (some v) w = contains-add_item f.winners v w

loses-fold_lines :
    (f : Folds) (lines : List Bytes) (w l : Bytes)
    → loses (fold_lines f lines).losers_of w l
      ≡ (loses f.losers_of w l || calls_alias f.current_fn lines w l)
unfolding fold_lines
loses-fold_lines f [] w l = ground arith
loses-fold_lines f (line ∷ lines) w l =
    loses-fold_lines (fold_line f line (introduced line)) lines w l
    ∙ rw (loses-fold_line f line (introduced line) w l, fn-fold_line f line (introduced line))
        (ground arith)

winners-fold_lines :
    (f : Folds) (lines : List Bytes) (w : Bytes)
    → contains (fold_lines f lines).winners w ≡ (contains f.winners w || introduces lines w)
unfolding fold_lines
winners-fold_lines f [] w = ground arith
winners-fold_lines f (line ∷ lines) w =
    winners-fold_lines (fold_line f line (introduced line)) lines w
    ∙ rw (winners-fold_line f line (introduced line) w) (ground arith)

no_losers : (set : List Bytes) (l : Bytes) → is_empty set ≡ true → contains set l ≡ false
no_losers [] l none_left = refl
no_losers (x ∷ set) l none_left = ground (arith, none_left)

is_folded-groups_of :
    (m : List (Bytes × List Bytes)) (ws : List Bytes) (w l : Bytes)
    → is_folded (groups_of m ws) w l ≡ (contains ws w && loses m w l)
unfolding groups_of
is_folded-groups_of m [] w l = refl
is_folded-groups_of m (v ∷ ws) w l =
    let same : list_beq v w ≡ true → loses m v l ≡ loses m w l =
      λ e. ap (λ x. loses m x l) ((list_beq_iff v w).0 e) in
    elim (Bool-cases (is_empty (losers_at v m))) [
      | inl bare ↦
          let nothing : loses m v l ≡ false = no_losers (losers_at v m) l bare in
          rw bare (is_folded-groups_of m ws w l ∙ ground (arith, same, nothing))
      | inr held ↦
          rw (held, contains-sort_by (losers_at v m) l, is_folded-groups_of m ws w l)
            (ground (arith, same))
    ]

-- A group of the parsed icf dump holds a winner and a loser exactly if some line introduces the alias
-- of the winner, and some line of a body that belongs to the loser, before or after it, calls that
-- alias, where the loser is neither empty nor the winner.
pub parse_icf-is_folded :
    (lines : List Bytes) (w l : Bytes)
    → is_folded (parse_icf lines).groups w l ≡ (introduces lines w && calls_alias [] lines w l)
unfolding parse_icf
parse_icf-is_folded lines w l =
    is_folded-groups_of (fold_lines no_folds lines).losers_of
      (sort_by str_ltb (fold_lines no_folds lines).winners) w l
    ∙ rw
        (
          contains-sort_by (fold_lines no_folds lines).winners w,
          winners-fold_lines no_folds lines w,
          loses-fold_lines no_folds lines w l,
        )
        refl
