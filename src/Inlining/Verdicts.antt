-- ===== src/Inlining/Verdicts.antt =====
-- `perObjectVerdicts`: every object that a row names, once, with the verdict of its rows.
use herbarium.Base.{
  ◌≡◌, refl, sym, ap, ◌∙◌, inl, inr, arith, true, ◌||◌, List, [], ◌∷◌, Bytes, insert, keys, list_eq,
  nat_eq, if◌then◌else◌, Bool-cases, sort_by, str_ltb, contains, all_distinct, contains-insert,
  all_distinct-insert, All, contains-sort_by, all_distinct-sort_by,
}
use herbarium.Inlining.{
  InlineRecordRow, InlineInstanceRow, inlined_and_present, Acc, fresh, get, saw_instance,
  saw_record, instance_loop, record_loop, verdict_of, verdicts, by_object_of, per_object_verdicts,
}
use herbarium.Inlining.Rows.{instance_objects, record_objects, verdict_objects, verdict_on}
use herbarium.Inlining.Fold.{
  folded_for, get-instance_loop, get-record_loop, has_instance-folded, inlined-folded,
  folded-IsDecided,
}

acc_of :
    (records : List InlineRecordRow) (instances : List InlineInstanceRow) (o : Bytes)
    → get (by_object_of records instances) o
      ≡ folded_for o
          (if contains (instance_objects instances) o then saw_instance fresh else fresh)
          records
acc_of records instances o =
    get-record_loop (instance_loop [] instances) records o
    ∙ ap (λ a. folded_for o a records) (get-instance_loop [] instances o)

-- the verdict on the fold, with an instance and without one
present_lem :
    (o : Bytes) (records : List InlineRecordRow)
    → verdict_of o (folded_for o (saw_instance fresh) records)
      ≡ record { object = o; verdict = inlined_and_present; pass = []; reason = [] }
present_lem o records = rw (has_instance-folded o (saw_instance fresh) records) refl

absent_lem :
    (o : Bytes) (records : List InlineRecordRow)
    → verdict_of o (folded_for o fresh records) ≡ verdict_on records [] o
absent_lem o records =
    let (p, q) = folded-IsDecided o fresh records in
    rw (has_instance-folded o fresh records, inlined-folded o fresh records, p, q) refl

verdict_of-rows :
    (records : List InlineRecordRow) (instances : List InlineInstanceRow) (o : Bytes)
    → verdict_of o (get (by_object_of records instances) o) ≡ verdict_on records instances o
verdict_of-rows records instances o =
    ap (verdict_of o) (acc_of records instances o)
    ∙ (elim (Bool-cases (contains (instance_objects instances) o)) [
      | inl present ↦ rw present (present_lem o records)
      | inr absent ↦ rw absent (absent_lem o records)
    ])

keys-instance_loop :
    (m : List (Bytes × Acc)) (is : List InlineInstanceRow) (o : Bytes)
    → contains (keys (instance_loop m is)) o
      ≡ (contains (keys m) o || contains (instance_objects is) o)
unfolding instance_loop
keys-instance_loop m [] o = ground arith
keys-instance_loop m (i ∷ is) o =
    let a : Acc = saw_instance (get m i.object) in
    ground (arith, keys-instance_loop (insert i.object a m) is o, contains-insert i.object o a m)

keys-record_loop :
    (m : List (Bytes × Acc)) (rs : List InlineRecordRow) (o : Bytes)
    → contains (keys (record_loop m rs)) o ≡ (contains (keys m) o || contains (record_objects rs) o)
unfolding record_loop
keys-record_loop m [] o = ground arith
keys-record_loop m (r ∷ rs) o =
    let a : Acc = saw_record (get m r.object) r in
    ground (arith, keys-record_loop (insert r.object a m) rs o, contains-insert r.object o a m)

distinct-instance_loop :
    (m : List (Bytes × Acc)) (is : List InlineInstanceRow)
    → all_distinct (keys m) ≡ true
    → all_distinct (keys (instance_loop m is)) ≡ true
unfolding instance_loop
distinct-instance_loop m [] h = h
distinct-instance_loop m (i ∷ is) h =
    distinct-instance_loop (insert i.object (saw_instance (get m i.object)) m) is
      (all_distinct-insert i.object (saw_instance (get m i.object)) m h)

distinct-record_loop :
    (m : List (Bytes × Acc)) (rs : List InlineRecordRow)
    → all_distinct (keys m) ≡ true
    → all_distinct (keys (record_loop m rs)) ≡ true
unfolding record_loop
distinct-record_loop m [] h = h
distinct-record_loop m (r ∷ rs) h =
    distinct-record_loop (insert r.object (saw_record (get m r.object) r) m) rs
      (all_distinct-insert r.object (saw_record (get m r.object) r) m h)

object-verdict_of : (o : Bytes) (a : Acc) → (verdict_of o a).object ≡ o
object-verdict_of o a = ground arith

objects-verdicts :
    (m : List (Bytes × Acc)) (order : List Bytes) → verdict_objects (verdicts m order) ≡ order
objects-verdicts m [] = refl
objects-verdicts m (o ∷ order) =
    ap (λ x. x ∷ verdict_objects (verdicts m order)) (object-verdict_of o (get m o))
    ∙ ap (◌∷◌ o) (objects-verdicts m order)

verdicts-All :
    (records : List InlineRecordRow) (instances : List InlineInstanceRow) (order : List Bytes)
    → All
        (λ p. p ≡ verdict_on records instances p.object)
        (verdicts (by_object_of records instances) order)
verdicts-All records instances [] = tt
verdicts-All records instances (o ∷ order) =
    let a : Acc = get (by_object_of records instances) o in
    (
      verdict_of-rows records instances o
          ∙ ap (verdict_on records instances) (sym (object-verdict_of o a)),
      verdicts-All records instances order,
    )

-- The answer has one verdict for each object that an instance or a record names, and no other, and
-- it is the verdict on the object's own rows.
pub per_object_verdicts_lem :
    (records : List InlineRecordRow) (instances : List InlineInstanceRow)
    → ((o : Bytes)
        → contains (verdict_objects (per_object_verdicts records instances)) o
          ≡ (contains (instance_objects instances) o || contains (record_objects records) o))
      × (all_distinct (verdict_objects (per_object_verdicts records instances)) ≡ true)
      × All (λ p. p ≡ verdict_on records instances p.object) (per_object_verdicts records instances)
unfolding per_object_verdicts
per_object_verdicts_lem records instances =
    let m : List (Bytes × Acc) = by_object_of records instances in
    let order : List Bytes = sort_by str_ltb (keys m) in
    let named : verdict_objects (verdicts m order) ≡ order = objects-verdicts m order in
    (
      (λ o.
          ap (λ x. contains x o) named
          ∙ contains-sort_by (keys m) o
          ∙ keys-record_loop (instance_loop [] instances) records o
          ∙ ap (λ x. x || contains (record_objects records) o) (keys-instance_loop [] instances o)),
      ap all_distinct named
          ∙ all_distinct-sort_by (keys m)
          ∙ distinct-record_loop (instance_loop [] instances) records
              (distinct-instance_loop [] instances refl),
      verdicts-All records instances order,
    )
