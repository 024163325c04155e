-- ===== src/GccDump/OptRecord/Kept.antt =====
-- Which records the parsed file has: those that its decisions state, each once.
use herbarium.Base.{
  ◌≡◌, ◌↔◌, refl, sym, ap, subst, ◌∙◌, ◌⊎◌, inl, inr, arith, Bool, true, false, ◌||◌, List, [], ◌∷◌,
  some, Bytes, codes, ltb, Bool-cases, Option-cases, contains, all_distinct, lookup, list_beq,
  list_beq_iff, list_eq, nat_eq, pair_eq, pair_beq, pair_beq_iff, Memᴰ,
}
use mathlib.Core.List.Memᴰ
use herbarium.GccDump.{InlineRecord, OptRecordDump}
use herbarium.GccDump.OptRecord.{
  OptPasses, OptRecordEntry, OptFile, dump_of, supported_format, collect_inline_passes, bool_eq,
  Key, key_of, keys_of, is_decision, record_from_message, entry_record, entry_loop,
  parse_opt_record,
}
use herbarium.GccDump.OptRecord.Distinct.{
  inline_name, later-none, lookup-collect_inline_passes, is_key, given, entry_loop-IsDistinct,
  contains-entry_loop,
}

-- An entry of the file states the record: its pass is one with the optgroup inline, whose name the
-- record has, it is of a decision, taken or declined, and its message reads as the record.
abbrev pub IsStated : OptPasses → List OptRecordEntry → InlineRecord → Type 0
IsStated tree recs r =
    (rec : OptRecordEntry) × (pass : Bytes) × Memᴰ rec recs
    × (inline_name tree rec.pass ≡ some pass)
    × ((rec.kind ≡ codes "success") ⊎ (rec.kind ≡ codes "failure"))
    × (record_from_message rec pass ≡ some r)

-- no record stands twice
abbrev pub Unique : List InlineRecord → Type 0
Unique [] = Unit
Unique (r ∷ rs) = (Memᴰ r rs → ⊥) × Unique rs

of_key : Key → InlineRecord
of_key
      ((pass, (caller_id, (callee_id, caller))), ((callee, (taken, why)), (file, (line, column)))) =
    record {
      pass = pass;
      caller_local_id = caller_id;
      callee_local_id = callee_id;
      caller_name = caller;
      callee_name = callee;
      inlined = taken;
      reason = why;
      file = file;
      line = line;
      column = column;
    }

-- The key of a record is the whole record.
key_of-injective : (r s : InlineRecord) → key_of r ≡ key_of s → r ≡ s
unfolding of_key
key_of-injective r s e = ap of_key e

Memᴰ_of_key :
    (rs : List InlineRecord) (r : InlineRecord)
    → contains (keys_of rs) (key_of r) ≡ true
    → Memᴰ r rs
Memᴰ_of_key [] r h = absurd (ground arith)
Memᴰ_of_key (s ∷ rs) r h = elim (Bool-cases (pair_beq (key_of s) (key_of r))) [
  | inl same ↦ Memᴰ.head (sym (key_of-injective s r ((pair_beq_iff (key_of s) (key_of r)).0 same)))
  | inr other ↦ Memᴰ.tail (Memᴰ_of_key rs r (rw other at h))
]

false_ne : false ≡ true → ⊥
false_ne e = cc

or_true : (b : Bool) → (b || true) ≡ true
or_true true = refl
or_true false = refl

key_of_Memᴰ :
    (rs : List InlineRecord) (r : InlineRecord)
    → Memᴰ r rs
    → contains (keys_of rs) (key_of r) ≡ true
key_of_Memᴰ [] r m = absurd (Memᴰ.not-nil m)
key_of_Memᴰ (s ∷ rs) r m = elim (Memᴰ.cases_cons m) [
  | inl here ↦
      let same : pair_beq (key_of s) (key_of r) ≡ true =
        (pair_beq_iff (key_of s) (key_of r)).1 (ap key_of (sym here)) in
      rw same refl
  | inr there ↦ rw (key_of_Memᴰ rs r there) (or_true (pair_beq (key_of s) (key_of r)))
]

all_distinct-Unique : (rs : List InlineRecord) → all_distinct (keys_of rs) ≡ true → Unique rs
all_distinct-Unique [] h = tt
all_distinct-Unique (r ∷ rs) h = (
  (λ m.
      let there : contains (keys_of rs) (key_of r) ≡ true = key_of_Memᴰ rs r m in
      absurd (ground (arith, there, h))),
  all_distinct-Unique rs (ground arith),
)

is_decision_iff :
    (rec : OptRecordEntry)
    → (is_decision rec ≡ true) ↔ ((rec.kind ≡ codes "success") ⊎ (rec.kind ≡ codes "failure"))
is_decision_iff rec = (
  (λ h. elim (Bool-cases (list_beq rec.kind (codes "success"))) [
    | inl taken ↦ inl ((list_beq_iff rec.kind (codes "success")).0 taken)
    | inr other ↦ inr ((list_beq_iff rec.kind (codes "failure")).0 (rw other at h))
  ]),
  (λ e. elim e [
    | inl taken ↦ rw ((list_beq_iff rec.kind (codes "success")).1 taken) refl
    | inr declined ↦
        rw ((list_beq_iff rec.kind (codes "failure")).1 declined)
          (or_true (list_beq rec.kind (codes "success")))
  ]),
)

module _ (passes : List (Bytes × Bytes)) (rec : OptRecordEntry) (r : InlineRecord) where
  -- what an entry gives
  abbrev Gives : Type 0
  Gives =
      (pass : Bytes) × (lookup rec.pass passes ≡ some pass)
      × (is_decision rec ≡ true)
      × (record_from_message rec pass ≡ some r)

  gives_key : Gives → is_key (entry_record passes rec) (key_of r) ≡ true
  unfolding entry_record
  gives_key (pass, at, decides, reads) =
      rw (entry_record, at, decides, reads) ((pair_beq_iff (key_of r) (key_of r)).1 refl)

  key_gives : is_key (entry_record passes rec) (key_of r) ≡ true → Gives
  unfolding entry_record
  key_gives h = elim (Option-cases (lookup rec.pass passes)) [
    | inl e ↦ absurd (false_ne (rw (entry_record, e) at h))
    | inr (pass, at) ↦ elim (Bool-cases (is_decision rec)) [
      | inr other ↦ absurd (false_ne (rw (entry_record, at, other) at h))
      | inl decides ↦ elim (Option-cases (record_from_message rec pass)) [
        | inl e ↦ absurd (false_ne (rw (entry_record, at, decides, e) at h))
        | inr (s, e) ↦
            let same : key_of s ≡ key_of r =
              (pair_beq_iff (key_of s) (key_of r)).0 (rw (entry_record, at, decides, e) at h) in
            (pass, at, decides, e ∙ ap some (key_of-injective s r same))
      ]
    ]
  ]

-- the entry behind a record
given_entry :
    (passes : List (Bytes × Bytes)) (recs : List OptRecordEntry) (r : InlineRecord)
    → given passes recs (key_of r) ≡ true
    → (rec : OptRecordEntry) × Memᴰ rec recs × Gives passes rec r
given_entry passes [] r h = absurd (false_ne h)
given_entry passes (rec ∷ recs) r h =
    elim (Bool-cases (is_key (entry_record passes rec) (key_of r))) [
      | inl here ↦ (rec, Memᴰ.head refl, key_gives passes rec r here)
      | inr away ↦
          let (found, m, gives) = given_entry passes recs r (rw away at h) in
          (found, Memᴰ.tail m, gives)
    ]

entry_given :
    (passes : List (Bytes × Bytes)) (recs : List OptRecordEntry) (r : InlineRecord)
    (rec : OptRecordEntry)
    → Memᴰ rec recs
    → Gives passes rec r
    → given passes recs (key_of r) ≡ true
entry_given passes [] r rec m gives = absurd (Memᴰ.not-nil m)
entry_given passes (x ∷ recs) r rec m gives = elim (Memᴰ.cases_cons m) [
  | inl here ↦
      let key : is_key (entry_record passes x) (key_of r) ≡ true =
        subst (λ y. is_key (entry_record passes y) (key_of r) ≡ true) here
          (gives_key passes rec r gives) in
      rw key refl
  | inr there ↦
      rw (entry_given passes recs r rec there gives)
        (or_true (is_key (entry_record passes x) (key_of r)))
]

-- the names of the passes with the optgroup
pass_names :
    (tree : OptPasses) (id : Bytes)
    → lookup id (collect_inline_passes tree []) ≡ inline_name tree id
pass_names tree id = lookup-collect_inline_passes tree [] id ∙ later-none (inline_name tree id)

given_iff :
    (tree : OptPasses) (recs : List OptRecordEntry) (r : InlineRecord)
    → (given (collect_inline_passes tree []) recs (key_of r) ≡ true) ↔ IsStated tree recs r
given_iff tree recs r = (
  (λ h.
      let (rec, m, (pass, at, decides, reads)) =
        given_entry (collect_inline_passes tree []) recs r h in
      (rec, pass, m, sym (pass_names tree rec.pass) ∙ at, (is_decision_iff rec).0 decides, reads)),
  (λ (rec, pass, m, at, decides, reads).
      entry_given (collect_inline_passes tree []) recs r rec m
        (pass, pass_names tree rec.pass ∙ at, (is_decision_iff rec).1 decides, reads)),
)

-- A file of the supported format whose parts decode has an answer. No record stands in it twice, and
-- a record is in it exactly if an entry of the file states it: the pass of the entry is one that the
-- tree has with the optgroup inline, and the record has the name of the last such pass; the entry is
-- of a success or a failure; and its message reads as the record.
pub parse_opt_record_lem :
    (f : OptFile) (tree : OptPasses) (recs : List OptRecordEntry)
    → ltb f.elements 3 ≡ false
    → f.format ≡ some supported_format
    → f.tree ≡ some tree
    → f.records ≡ some recs
    → (d : OptRecordDump) × (parse_opt_record (some f) ≡ dump_of d)
      × Unique d.inline_records
      × ((r : InlineRecord) → Memᴰ r d.inline_records ↔ IsStated tree recs r)
unfolding parse_opt_record
parse_opt_record_lem f tree recs elements format is_tree is_recs =
    let passes = collect_inline_passes tree [] in
    let kept = entry_loop passes [] recs in
    (
      record { inline_records = kept },
      rw (elements, format, is_tree, is_recs) refl,
      all_distinct-Unique kept (entry_loop-IsDistinct passes [] recs refl),
      (λ r. (
        (λ m.
            (given_iff tree recs r).0
              (sym (contains-entry_loop passes [] recs (key_of r)) ∙ key_of_Memᴰ kept r m)),
        (λ stated.
            Memᴰ_of_key kept r
              (contains-entry_loop passes [] recs (key_of r) ∙ (given_iff tree recs r).1 stated)),
      )),
    )
