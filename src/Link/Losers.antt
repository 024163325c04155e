-- ===== src/Link/Losers.antt =====
-- `collectLosingObjects`: every candidate object but the winner, once each.
use herbarium.Base.{
  ◌≡◌, inl, inr, arith, true, not, ◌&&◌, ◌||◌, List, [], ◌∷◌, ◌++◌, Bytes, Bool-cases,
  if◌then◌else◌, contains-sort_by, all_distinct-sort_by, contains, all_distinct,
  all_distinct-append_one, contains-append, list_eq, nat_eq, list_beq, list_beq_iff,
}
use herbarium.Link.{ObjectDef, losing_objects, collect_losing_objects}

abbrev pub objects : List ObjectDef → List Bytes
objects [] = []
objects (c ∷ cs) = c.object ∷ objects cs

contains-losing_objects :
    (w : Bytes) (ls : List Bytes) (cs : List ObjectDef) (o : Bytes)
    → contains (losing_objects w ls cs) o
      ≡ (contains ls o || (not (list_beq w o) && contains (objects cs) o))
unfolding losing_objects
contains-losing_objects w ls [] o = ground arith
contains-losing_objects w ls (c ∷ cs) o =
    elim (Bool-cases (list_beq c.object w || contains ls c.object)) [
      | inl skip ↦
          rw (skip, losing_objects) ground
            (
              arith,
              contains-losing_objects w ls cs o,
              list_beq_iff c.object o,
              list_beq_iff w o,
              list_beq_iff c.object w,
            )
      | inr add ↦
          rw (add, losing_objects) ground
            (
              arith,
              contains-losing_objects w (ls ++ c.object ∷ []) cs o,
              contains-append ls (c.object ∷ []) o,
              list_beq_iff c.object o,
              list_beq_iff w o,
              list_beq_iff c.object w,
            )
    ]

all_distinct-losing_objects :
    (w : Bytes) (ls : List Bytes) (cs : List ObjectDef)
    → all_distinct ls ≡ true
    → all_distinct (losing_objects w ls cs) ≡ true
unfolding losing_objects
all_distinct-losing_objects w ls [] h = h
all_distinct-losing_objects w ls (c ∷ cs) h =
    all_distinct-losing_objects w
      (if list_beq c.object w || contains ls c.object then ls else ls ++ c.object ∷ []) cs
      (ground (arith, all_distinct-append_one ls c.object))

-- The losers are the objects of the candidates but for the winner, each once.
collect_losing_objects_lem :
    (cands : List ObjectDef) (winner : Bytes)
    → ((o : Bytes)
        → contains (collect_losing_objects cands winner) o
          ≡ (not (list_beq winner o) && contains (objects cands) o))
      × (all_distinct (collect_losing_objects cands winner) ≡ true)
unfolding collect_losing_objects
collect_losing_objects_lem cands winner = (
  (λ o. ground (
    arith,
    contains-sort_by (losing_objects winner [] cands) o,
    contains-losing_objects winner [] cands o,
  )),
  ground (
    arith,
    all_distinct-sort_by (losing_objects winner [] cands),
    all_distinct-losing_objects winner [] cands,
  ),
)
