-- ===== src/Base/Strings.antt =====
-- Sorted lists of strings.
use mathlib.Core.Path.{◌≡◌, refl}
use mathlib.Core.Bool.{not, ◌&&◌, ◌||◌}
use mathlib.Core.List.{List, [], ◌∷◌}
use native.Mathlib.Omega.{arith}
use herbarium.Base.Tests.{list_beq, list_beq_iff, list_eq, nat_eq}
use herbarium.Base.Members.{contains, all_distinct}
use herbarium.Base.Sorting.{str_ltb, insert_by, sort_by}
use herbarium.Base.Text.{Bytes}

contains-insert_by :
    (x : Bytes) (ys : List Bytes) (a : Bytes)
    → contains (insert_by str_ltb x ys) a ≡ (list_beq x a || contains ys a)
unfolding insert_by
contains-insert_by x [] a = refl
contains-insert_by x (y ∷ ys) a = ground (arith, contains-insert_by x ys a)

pub contains-sort_by :
    (xs : List Bytes) (a : Bytes) → contains (sort_by str_ltb xs) a ≡ contains xs a
unfolding sort_by
contains-sort_by [] a = refl
contains-sort_by (x ∷ xs) a =
    ground (arith, contains-sort_by xs a, contains-insert_by x (sort_by str_ltb xs) a)

all_distinct-insert_by :
    (x : Bytes) (ys : List Bytes)
    → all_distinct (insert_by str_ltb x ys) ≡ (not (contains ys x) && all_distinct ys)
unfolding insert_by
all_distinct-insert_by x [] = refl
all_distinct-insert_by x (y ∷ ys) = ground (
  arith,
  all_distinct-insert_by x ys,
  contains-insert_by x ys y,
  list_beq_iff x y,
  list_beq_iff y x,
)

pub all_distinct-sort_by : (xs : List Bytes) → all_distinct (sort_by str_ltb xs) ≡ all_distinct xs
unfolding sort_by
all_distinct-sort_by [] = refl
all_distinct-sort_by (x ∷ xs) = ground (
  arith,
  all_distinct-sort_by xs,
  all_distinct-insert_by x (sort_by str_ltb xs),
  contains-sort_by xs x,
)
