-- ===== src/Inlining/Rows.antt =====
-- The verdict on an object, by the rows that name it.
use herbarium.Base.{
  Bool, true, false, ◌&&◌, not, List, [], ◌∷◌, Option, none, some, Bytes, codes, list_eq, nat_eq,
  list_beq, if◌then◌else◌, contains,
}
use herbarium.Inlining.{
  InlineRecordRow, InlineInstanceRow, ObjectInlineVerdict, inlined_and_present, inlined_then_folded,
  declined,
}

abbrev pub instance_objects : List InlineInstanceRow → List Bytes
instance_objects [] = []
instance_objects (i ∷ is) = i.object ∷ instance_objects is

abbrev pub record_objects : List InlineRecordRow → List Bytes
record_objects [] = []
record_objects (r ∷ rs) = r.object ∷ record_objects rs

abbrev pub verdict_objects : List ObjectInlineVerdict → List Bytes
verdict_objects [] = []
verdict_objects (p ∷ per) = p.object ∷ verdict_objects per

-- the first record, or the last one, of the object for which the test holds
abbrev pub first_of :
    (InlineRecordRow → Bool) → Bytes → List InlineRecordRow → Option InlineRecordRow
first_of test o [] = none
first_of test o (r ∷ rs) = if list_beq r.object o && test r then some r else first_of test o rs

abbrev pub or_else {ℓ} : {A : Type ℓ} → Option A → Option A → Option A
or_else (some a) b = some a
or_else none b = b

abbrev pub last_of :
    (InlineRecordRow → Bool) → Bytes → List InlineRecordRow → Option InlineRecordRow
last_of test o [] = none
last_of test o (r ∷ rs) =
    or_else (last_of test o rs) (if list_beq r.object o && test r then some r else none)

abbrev pub is_inlined : InlineRecordRow → Bool
is_inlined r = r.inlined

abbrev pub is_declined : InlineRecordRow → Bool
is_declined r = not r.inlined

abbrev pub is_declined_by_ipa : InlineRecordRow → Bool
is_declined_by_ipa r = not r.inlined && list_beq r.pass (codes "inline")

-- what a record says, of the first one if it is there, or else of the second
abbrev pub chosen :
    (InlineRecordRow → Bytes) → Bytes → Option InlineRecordRow → Option InlineRecordRow → Bytes
chosen f d (some r) l = f r
chosen f d none (some r) = f r
chosen f d none none = d

abbrev pub is_some {ℓ} : {A : Type ℓ} → Option A → Bool
is_some none = false
is_some (some a) = true

-- The verdict on an object: its body is there if an instance names it; it was inlined and folded if
-- a record says that it was inlined; else it was declined, for the reason of the first rejection by
-- the pass "inline", or of the last rejection if that pass has none.
abbrev pub verdict_on : List InlineRecordRow → List InlineInstanceRow → Bytes → ObjectInlineVerdict
verdict_on records instances o =
    let by_ipa = first_of is_declined_by_ipa o records in
    let last = last_of is_declined o records in
    if contains (instance_objects instances) o
    then record { object = o; verdict = inlined_and_present; pass = []; reason = [] }
    else if is_some (first_of is_inlined o records)
    then record { object = o; verdict = inlined_then_folded; pass = []; reason = [] }
    else record {
      object = o;
      verdict = declined;
      pass = chosen (λ r. r.pass) [] by_ipa last;
      reason = chosen (λ r. r.reason) [] by_ipa last;
    }
