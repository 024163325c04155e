-- ===== src/Inlining/Fold.antt =====
-- What `perObjectVerdicts` gathers for an object is the fold of the object's own rows.
use herbarium.Base.{
  ◌≡◌, refl, sym, ap, subst, ◌∙◌, inl, inr, arith, true, false, ◌&&◌, ◌||◌, not, List, [], ◌∷◌,
  Option, none, some, Bytes, codes, lookup, insert, list_eq, nat_eq, list_beq, list_beq_iff,
  if◌then◌else◌, if_same, Bool-cases, contains, lookup-insert,
}
use herbarium.Inlining.{
  InlineRecordRow, InlineInstanceRow, Acc, or_fresh, get, saw_instance, saw_record, instance_loop,
  record_loop,
}
use herbarium.Inlining.Rows.{
  instance_objects, first_of, or_else, last_of, is_inlined, is_declined, is_declined_by_ipa, chosen,
  is_some,
}

get-insert :
    (k o : Bytes) (a : Acc) (m : List (Bytes × Acc))
    → get (insert k a m) o ≡ (if list_beq k o then a else get m o)
get-insert k o a m = elim (Bool-cases (list_beq k o)) [
  | inl same ↦
      let e : lookup o (insert k a m) ≡ some a = lookup-insert k o a m ∙ rw same refl in
      rw same (ap or_fresh e)
  | inr other ↦
      let e : lookup o (insert k a m) ≡ lookup o m = lookup-insert k o a m ∙ rw other refl in
      rw other (ap or_fresh e)
]

-- the records of the object, folded
abbrev pub folded_for : Bytes → Acc → List InlineRecordRow → Acc
folded_for o a [] = a
folded_for o a (r ∷ rs) = folded_for o (if list_beq r.object o then saw_record a r else a) rs

pub get-instance_loop :
    (m : List (Bytes × Acc)) (is : List InlineInstanceRow) (o : Bytes)
    → get (instance_loop m is) o
      ≡ (if contains (instance_objects is) o then saw_instance (get m o) else get m o)
unfolding instance_loop
get-instance_loop m [] o = refl
get-instance_loop m (i ∷ is) o =
    let n : List (Bytes × Acc) = insert i.object (saw_instance (get m i.object)) m in
    let e : get n o ≡ (if list_beq i.object o then saw_instance (get m i.object) else get m o) =
      get-insert i.object o (saw_instance (get m i.object)) m in
    get-instance_loop n is o ∙ (elim (Bool-cases (list_beq i.object o)) [
      | inl same ↦
          let is_o : i.object ≡ o = (list_beq_iff i.object o).0 same in
          let f : get n o ≡ saw_instance (get m o) =
            e ∙ rw same (ap (λ x. saw_instance (get m x)) is_o) in
          rw (same, f) (if_same (contains (instance_objects is) o))
      | inr other ↦ let f : get n o ≡ get m o = e ∙ rw other refl in rw (other, f) refl
    ])

pub get-record_loop :
    (m : List (Bytes × Acc)) (rs : List InlineRecordRow) (o : Bytes)
    → get (record_loop m rs) o ≡ folded_for o (get m o) rs
unfolding record_loop
get-record_loop m [] o = refl
get-record_loop m (r ∷ rs) o =
    let n : List (Bytes × Acc) = insert r.object (saw_record (get m r.object) r) m in
    let e : get n o ≡ (if list_beq r.object o then saw_record (get m r.object) r else get m o) =
      get-insert r.object o (saw_record (get m r.object) r) m in
    get-record_loop n rs o ∙ (elim (Bool-cases (list_beq r.object o)) [
      | inl same ↦
          let is_o : r.object ≡ o = (list_beq_iff r.object o).0 same in
          let f : get n o ≡ saw_record (get m o) r =
            e ∙ rw same (ap (λ x. saw_record (get m x) r) is_o) in
          rw (same, f) refl
      | inr other ↦ let f : get n o ≡ get m o = e ∙ rw other refl in rw (other, f) refl
    ])

pub has_instance-folded :
    (o : Bytes) (a : Acc) (rs : List InlineRecordRow)
    → (folded_for o a rs).has_instance ≡ a.has_instance
has_instance-folded o a [] = refl
has_instance-folded o a (r ∷ rs) =
    has_instance-folded o (if list_beq r.object o then saw_record a r else a) rs ∙ ground arith

pub inlined-folded :
    (o : Bytes) (a : Acc) (rs : List InlineRecordRow)
    → (folded_for o a rs).inlined ≡ (a.inlined || is_some (first_of is_inlined o rs))
inlined-folded o a [] = ground arith
inlined-folded o a (r ∷ rs) =
    inlined-folded o (if list_beq r.object o then saw_record a r else a) rs ∙ ground arith

chosen-or_else :
    (f : InlineRecordRow → Bytes) (d : Bytes) (r : InlineRecordRow)
    (first last : Option InlineRecordRow)
    → chosen f (f r) first last ≡ chosen f d first (or_else last (some r))
chosen-or_else f d r (some s) last = refl
chosen-or_else f d r none (some s) = refl
chosen-or_else f d r none none = refl

or_else-none {ℓ} : {A : Type ℓ} (a : Option A) → or_else a none ≡ a
or_else-none none = refl
or_else-none (some a) = refl

abbrev pub IsDecided : Acc → Acc → Option InlineRecordRow → Option InlineRecordRow → Type 0
IsDecided b a by_ipa last =
    (b.decl_pass ≡ (
      if list_beq a.decl_pass (codes "inline")
      then a.decl_pass
      else chosen (λ r. r.pass) a.decl_pass by_ipa last))
    × (b.decl_reason ≡ (
        if list_beq a.decl_pass (codes "inline")
        then a.decl_reason
        else chosen (λ r. r.reason) a.decl_reason by_ipa last))

-- one step of the fold, by what it makes of the entry and of the two records that decide
step-IsDecided :
    (o : Bytes) (a b c : Acc) (rs : List InlineRecordRow)
    (by_ipa last by_ipa' last' : Option InlineRecordRow)
    → b ≡ c
    → by_ipa ≡ by_ipa'
    → last ≡ last'
    → IsDecided (folded_for o c rs) a by_ipa' last'
    → IsDecided (folded_for o b rs) a by_ipa last
step-IsDecided o a b c rs by_ipa last by_ipa' last' e f g h =
    subst (λ x. IsDecided (folded_for o x rs) a by_ipa last) (sym e)
      (subst (λ x. IsDecided (folded_for o c rs) a x last) (sym f)
        (subst (λ x. IsDecided (folded_for o c rs) a by_ipa' x) (sym g) h))

-- the step at a record of the object that was declined
declined-IsDecided :
    (o : Bytes) (a : Acc) (r : InlineRecordRow) (rs : List InlineRecordRow)
    (f l : Option InlineRecordRow)
    → r.inlined ≡ false
    → ((b : Acc) → IsDecided (folded_for o b rs) b f l)
    → IsDecided
        (folded_for o (saw_record a r) rs)
        a
        (if is_declined_by_ipa r then some r else f)
        (or_else l (some r))
declined-IsDecided o a r rs f l out rest =
    elim (Bool-cases (list_beq a.decl_pass (codes "inline"))) [
      | inl stuck ↦
          let e : saw_record a r ≡ a = ground arith in
          let (p, q) = rest a in
          step-IsDecided o a (saw_record a r) a rs _ _ (if is_declined_by_ipa r then some r else f)
            (or_else l (some r)) e refl refl (p ∙ rw stuck refl, q ∙ rw stuck refl)
      | inr unset ↦
          let b : Acc = record a { decl_pass = r.pass; decl_reason = r.reason } in
          let e : saw_record a r ≡ b = ground arith in
          let (p, q) = rest b in
          elim (Bool-cases (list_beq r.pass (codes "inline"))) [
            | inl ipa ↦
                let g : (if is_declined_by_ipa r then some r else f) ≡ some r = ground arith in
                step-IsDecided o a (saw_record a r) b rs _ _ (some r) (or_else l (some r)) e g refl
                  (p ∙ rw (ipa, unset) refl, q ∙ rw (ipa, unset) refl)
            | inr early ↦
                let g : (if is_declined_by_ipa r then some r else f) ≡ f = ground arith in
                step-IsDecided o a (saw_record a r) b rs _ _ f (or_else l (some r)) e g refl (
                  p ∙ rw (early, unset) (chosen-or_else (λ s. s.pass) a.decl_pass r f l),
                  q ∙ rw (early, unset) (chosen-or_else (λ s. s.reason) a.decl_reason r f l),
                )
          ]
    ]

pub folded-IsDecided :
    (o : Bytes) (a : Acc) (rs : List InlineRecordRow)
    → IsDecided (folded_for o a rs) a (first_of is_declined_by_ipa o rs) (last_of is_declined o rs)
folded-IsDecided o a [] = (sym (if_same _), sym (if_same _))
folded-IsDecided o a (r ∷ rs) =
    let f : Option InlineRecordRow = first_of is_declined_by_ipa o rs in
    let l : Option InlineRecordRow = last_of is_declined o rs in
    let next : Acc = if list_beq r.object o then saw_record a r else a in
    let f' : Option InlineRecordRow = first_of is_declined_by_ipa o (r ∷ rs) in
    let here : Option InlineRecordRow =
      if list_beq r.object o && is_declined r then some r else none in
    elim (Bool-cases (list_beq r.object o && not r.inlined)) [
      | inr skip ↦
          let b : Acc = if list_beq r.object o then record a { inlined = true } else a in
          let e : next ≡ b = ground arith in
          let g : f' ≡ f = ground arith in
          let h : here ≡ none = ground arith in
          let rest : IsDecided (folded_for o b rs) a f l = elim (Bool-cases (list_beq r.object o)) [
            | inl same ↦ rw same (folded-IsDecided o (record a { inlined = true }) rs)
            | inr other ↦ rw other (folded-IsDecided o a rs)
          ] in
          step-IsDecided o a next b rs f' (or_else l here) f l e g
            (ap (or_else l) h ∙ or_else-none l) rest
      | inl out ↦
          let e : next ≡ saw_record a r = ground arith in
          let g : f' ≡ (if is_declined_by_ipa r then some r else f) = ground arith in
          let h : here ≡ some r = ground arith in
          step-IsDecided o a next (saw_record a r) rs f' (or_else l here) _ (or_else l (some r)) e g
            (ap (or_else l) h)
            (declined-IsDecided o a r rs f l (ground arith) (λ b. folded-IsDecided o b rs))
    ]
