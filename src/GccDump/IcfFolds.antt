-- ===== src/GccDump/IcfFolds.antt =====
-- `ParseICF` of internal/gccdump/icf.go, on the lines of the dump: which functions were folded into
-- which.
mod Pairs
mod Tests
use herbarium.Base.{
  ℕ, zero, suc, ◌-◌, Bool, true, false, not, ◌||◌, ◌&&◌, List, [], ◌∷◌, ◌++◌, Option, none, some,
  Bytes, codes, if◌then◌else◌, take, length, contains, lookup, insert, list_beq, list_eq, nat_eq,
  sort_by, str_ltb, is_space, is_word, span, some_of, after, ◌>>=◌,
}
use herbarium.GccDump.{IcfGroup, IcfDump, is_empty}
use herbarium.GccDump.CgraphDump.{is_name_start, is_name_part, target_at, has_suffix}

abbrev alias_suffix : Bytes
alias_suffix = codes ".localalias"

-- the name before the suffix
abbrev cut_alias : Bytes → Option Bytes
cut_alias name =
    if has_suffix name alias_suffix
    then some (take (length name - length alias_suffix) name)
    else none

abbrev introduced_here : Bytes → Option Bytes
introduced_here s = do
  t ← after (codes "Introduced new external node (") s
  alias ← target_at t
  winner ← cut_alias alias.name
  _ ← after (codes ")") alias.rest
  some winner

-- `Introduced new external node \(([A-Za-z_][\w.$]*)\.localalias/\d+\)`
unfoldable pub introduced : Bytes → Option Bytes
introduced [] = none
introduced (c ∷ s) = elim (introduced_here (c ∷ s)) [ some w ↦ some w | none ↦ introduced s ]

-- `^Analyzing function:\s+([A-Za-z_][\w.$]*)/\d+`
unfoldable pub analyzing : Bytes → Option Bytes
analyzing line = do
  s ← after (codes "Analyzing function:") line
  spaces ← some_of is_space s
  fn ← target_at spaces.1
  some fn.name

abbrev call_behind : Bytes → Bytes → Option (Bytes × Bytes)
call_behind name rest = do
  winner ← cut_alias name
  s ← after (codes "(") (span is_space rest).1
  some (winner, s)

abbrev alias_at : Bytes → Option (Bytes × Bytes)
alias_at [] = none
alias_at (c ∷ s) =
    if is_name_start c
    then call_behind (span is_name_part (c ∷ s)).0 (span is_name_part (c ∷ s)).1
    else none

-- All matches of `\b([A-Za-z_][\w.$]*)\.localalias\s*\(`. The flag says whether a word character
-- stands before, the number how much of the text belongs to a match.
unfoldable pub alias_calls : Bool → ℕ → Bytes → List Bytes
alias_calls prev k [] = []
alias_calls prev (suc k) (c ∷ s) = alias_calls (is_word c) k s
alias_calls prev zero (c ∷ s) = elim (if prev then none else alias_at (c ∷ s)) [
  | none ↦ alias_calls (is_word c) 0 s
  | some (w, rest) ↦ w ∷ alias_calls (is_word c) (length s - length rest) s
]

-- the variables of the loop; a set is the list of its items
pub record Folds : Type 0 where
  pub winners : List Bytes
  pub losers_of : List (Bytes × List Bytes)
  pub current_fn : Bytes

abbrev pub add_item : List Bytes → Bytes → List Bytes
add_item set a = if contains set a then set else set ++ a ∷ []

abbrev pub set_of : Option (List Bytes) → List Bytes
set_of none = []
set_of (some set) = set

abbrev pub losers_at : Bytes → List (Bytes × List Bytes) → List Bytes
losers_at w m = set_of (lookup w m)

abbrev pub add_loser : Bytes → List (Bytes × List Bytes) → Bytes → List (Bytes × List Bytes)
add_loser fn m w =
    if is_empty fn || list_beq fn w then m else insert w (add_item (losers_at w m) fn) m

unfoldable pub add_losers :
    Bytes → List (Bytes × List Bytes) → List Bytes → List (Bytes × List Bytes)
add_losers fn m [] = m
add_losers fn m (w ∷ ws) = add_losers fn (add_loser fn m w) ws

abbrev pub body_line : Folds → Bytes → Option Bytes → Folds
body_line f line (some fn) = record f { current_fn = fn }
body_line f line none = record f {
  losers_of = add_losers f.current_fn f.losers_of (alias_calls false 0 line);
}

abbrev pub fold_line : Folds → Bytes → Option Bytes → Folds
fold_line f line (some w) = record f { winners = add_item f.winners w }
fold_line f line none = body_line f line (analyzing line)

unfoldable pub fold_lines : Folds → List Bytes → Folds
fold_lines f [] = f
fold_lines f (line ∷ lines) = fold_lines (fold_line f line (introduced line)) lines

-- The groups of the winners that have losers, by their names.
unfoldable pub groups_of : List (Bytes × List Bytes) → List Bytes → List IcfGroup
groups_of m [] = []
groups_of m (w ∷ ws) =
    let rest = groups_of m ws in
    if is_empty (losers_at w m)
    then rest
    else record { winner_name = w; loser_names = sort_by str_ltb (losers_at w m) } ∷ rest

abbrev pub no_folds : Folds
no_folds = record { winners = []; losers_of = []; current_fn = [] }

unfoldable pub parse_icf : List Bytes → IcfDump
parse_icf lines =
    let f = fold_lines no_folds lines in
    record { groups = groups_of f.losers_of (sort_by str_ltb f.winners) }
