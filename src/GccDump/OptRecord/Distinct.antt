-- ===== src/GccDump/OptRecord/Distinct.antt =====
-- The records that an optimization record gives: those of its decisions, each once.
use herbarium.Base.{
  ◌≡◌, refl, sym, ap, ◌∙◌, inl, inr, arith, Bool, true, false, ◌||◌, ◌&&◌, List, [], ◌∷◌, ◌++◌,
  Option, none, some, Bytes, codes, Bool-cases, if◌then◌else◌, contains, contains-append, insert,
  lookup, lookup-insert, all_distinct, all_distinct-append_one, list_beq, list_eq, nat_eq, pair_eq,
  pair_beq, pair_beq_iff,
}
use herbarium.GccDump.{InlineRecord}
use herbarium.GccDump.OptRecord.{
  OptPass, OptPasses, opt_pass, no_passes, and_passes, OptRecordEntry, collect_pass,
  collect_inline_passes, bool_eq, Key, key_of, keys_of, entry_record, add_unseen, entry_loop,
}

-- the first of two answers, or else the second
abbrev later : Option Bytes → Option Bytes → Option Bytes
later (some n) o = some n
later none o = o

-- the name of the last pass of the tree with the id and the optgroup inline
abbrev mutual
  pub pass_name : OptPass → Bytes → Option Bytes
  pass_name (opt_pass i name groups children) id =
      later (inline_name children id)
        (if contains groups (codes "inline") && list_beq i id then some name else none)

  pub inline_name : OptPasses → Bytes → Option Bytes
  inline_name no_passes id = none
  inline_name (and_passes p ps) id = later (inline_name ps id) (pass_name p id)

later_assoc : (a b c : Option Bytes) → later (later a b) c ≡ later a (later b c)
later_assoc (some n) b c = refl
later_assoc none b c = refl

pub later-none : (a : Option Bytes) → later a none ≡ a
later-none (some n) = refl
later-none none = refl

insert-later :
    (i name id : Bytes) (groups : List Bytes) (out : List (Bytes × Bytes))
    → lookup id (if contains groups (codes "inline") then insert i name out else out)
      ≡ later
          (if contains groups (codes "inline") && list_beq i id then some name else none)
          (lookup id out)
insert-later i name id groups out = elim (Bool-cases (contains groups (codes "inline"))) [
  | inr other ↦ rw other refl
  | inl yes_inline ↦ elim (Bool-cases (list_beq i id)) [
    | inl same ↦ rw (yes_inline, lookup-insert i id name out, same) refl
    | inr apart ↦ rw (yes_inline, lookup-insert i id name out, apart) refl
  ]
]

mutual
  unfolding collect_pass collect_inline_passes

  lookup-collect_pass :
      (p : OptPass) (out : List (Bytes × Bytes)) (id : Bytes)
      → lookup id (collect_pass p out) ≡ later (pass_name p id) (lookup id out)
  lookup-collect_pass (opt_pass i name groups children) out id =
      lookup-collect_inline_passes children
        (if contains groups (codes "inline") then insert i name out else out) id
      ∙ ap (later (inline_name children id)) (insert-later i name id groups out)
      ∙ sym (
          later_assoc (inline_name children id)
            (if contains groups (codes "inline") && list_beq i id then some name else none)
            (lookup id out))

  pub lookup-collect_inline_passes :
      (ps : OptPasses) (out : List (Bytes × Bytes)) (id : Bytes)
      → lookup id (collect_inline_passes ps out) ≡ later (inline_name ps id) (lookup id out)
  lookup-collect_inline_passes no_passes out id = refl
  lookup-collect_inline_passes (and_passes p ps) out id =
      lookup-collect_inline_passes ps (collect_pass p out) id
      ∙ ap (later (inline_name ps id)) (lookup-collect_pass p out id)
      ∙ sym (later_assoc (inline_name ps id) (pass_name p id) (lookup id out))

-- whether one of the entries gives a record
abbrev pub is_key : Option InlineRecord → Key → Bool
is_key none k = false
is_key (some ir) k = pair_beq (key_of ir) k

abbrev pub given : List (Bytes × Bytes) → List OptRecordEntry → Key → Bool
given passes [] k = false
given passes (rec ∷ recs) k = is_key (entry_record passes rec) k || given passes recs k

keys_of-append :
    (out : List InlineRecord) (ir : InlineRecord)
    → keys_of (out ++ ir ∷ []) ≡ keys_of out ++ key_of ir ∷ []
keys_of-append [] ir = refl
keys_of-append (r ∷ out) ir = ap (◌∷◌ (key_of r)) (keys_of-append out ir)

abbrev IsDistinct : List InlineRecord → Type 0
IsDistinct out = all_distinct (keys_of out) ≡ true

add_unseen-IsDistinct :
    (out : List InlineRecord) (o : Option InlineRecord)
    → IsDistinct out
    → IsDistinct (add_unseen out o)
add_unseen-IsDistinct out none h = h
add_unseen-IsDistinct out (some ir) h = elim (Bool-cases (contains (keys_of out) (key_of ir))) [
  | inl old ↦ rw old h
  | inr new ↦ rw new (
      ap all_distinct (keys_of-append out ir)
      ∙ all_distinct-append_one (keys_of out) (key_of ir)
      ∙ ground (arith, new, h))
]

contains-add_unseen :
    (out : List InlineRecord) (o : Option InlineRecord) (k : Key)
    → contains (keys_of (add_unseen out o)) k ≡ (contains (keys_of out) k || is_key o k)
contains-add_unseen out none k = ground arith
contains-add_unseen out (some ir) k = elim (Bool-cases (contains (keys_of out) (key_of ir))) [
  | inl old ↦ rw old (elim (Bool-cases (pair_beq (key_of ir) k)) [
    | inl same ↦
        let is_k : key_of ir ≡ k = (pair_beq_iff (key_of ir) k).0 same in
        let there : contains (keys_of out) k ≡ true =
          ap (contains (keys_of out)) (sym is_k) ∙ old in
        rw there refl
    | inr other ↦ rw other (ground arith)
  ])
  | inr new ↦ rw new (
      ap (λ x. contains x k) (keys_of-append out ir)
      ∙ contains-append (keys_of out) (key_of ir ∷ []) k
      ∙ ground arith)
]

pub entry_loop-IsDistinct :
    (passes : List (Bytes × Bytes)) (out : List InlineRecord) (recs : List OptRecordEntry)
    → IsDistinct out
    → IsDistinct (entry_loop passes out recs)
unfolding entry_loop
entry_loop-IsDistinct passes out [] h = h
entry_loop-IsDistinct passes out (rec ∷ recs) h =
    entry_loop-IsDistinct passes (add_unseen out (entry_record passes rec)) recs
      (add_unseen-IsDistinct out (entry_record passes rec) h)

pub contains-entry_loop :
    (passes : List (Bytes × Bytes)) (out : List InlineRecord) (recs : List OptRecordEntry) (k : Key)
    → contains (keys_of (entry_loop passes out recs)) k
      ≡ (contains (keys_of out) k || given passes recs k)
unfolding entry_loop
contains-entry_loop passes out [] k = ground arith
contains-entry_loop passes out (rec ∷ recs) k =
    let next = add_unseen out (entry_record passes rec) in
    contains-entry_loop passes next recs k
    ∙ ap (λ b. b || given passes recs k) (contains-add_unseen out (entry_record passes rec) k)
    ∙ or_assoc (contains (keys_of out) k) (is_key (entry_record passes rec) k) (given passes recs k)
  where
    or_assoc : (a b c : Bool) → ((a || b) || c) ≡ (a || (b || c))
    or_assoc true b c = refl
    or_assoc false b c = refl
