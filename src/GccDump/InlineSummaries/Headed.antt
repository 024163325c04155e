-- ===== src/GccDump/InlineSummaries/Headed.antt =====
-- Which summaries the parsed dump has: one for each id that a header names.
use herbarium.Base.{
  ◌≡◌, refl, sym, ◌∙◌, inl, inr, arith, Bool, true, false, not, ◌||◌, ◌&&◌, List, [], ◌∷◌, Option,
  none, some, Bytes, codes, if◌then◌else◌, has_prefix, Bool-cases, contains, all_distinct,
  all_distinct-insert, contains-insert, keys, insert, list_beq, list_beq_iff, list_eq, nat_eq,
  beq_refl,
}
use herbarium.GccDump.{InlineSummary, is_empty}
use herbarium.GccDump.CgraphDump.{trim_white}
use herbarium.GccDump.InlineSummaries.{
  summary_head, call_entry, Summaries, flush_cur, end_block, entry_line, in_summary, summary_line,
  inline_line, inline_lines, no_summaries, stored, parse_inline,
}

abbrev pub local_ids : List InlineSummary → List Bytes
local_ids [] = []
local_ids (s ∷ ss) = s.function_local_id ∷ local_ids ss

abbrev cur_is : Option InlineSummary → Bytes → Bool
cur_is none i = false
cur_is (some s) i = list_beq s.function_local_id i

-- whether a header names the id
abbrev pub is_headed : List Bytes → Bytes → Bool
is_headed [] i = false
is_headed (line ∷ lines) i = cur_is (summary_head line) i || is_headed lines i

-- whether every summary stands at its id, each id once
abbrev is_keyed : List (Bytes × InlineSummary) → Bool
is_keyed [] = true
is_keyed ((id, s) ∷ m) = list_beq s.function_local_id id && is_keyed m

abbrev is_ok : List (Bytes × InlineSummary) → Bool
is_ok m = all_distinct (keys m) && is_keyed m

is_keyed-insert :
    (s : InlineSummary) (m : List (Bytes × InlineSummary))
    → is_keyed m ≡ true
    → is_keyed (insert s.function_local_id s m) ≡ true
is_keyed-insert s [] h = ground (arith, beq_refl s.function_local_id)
is_keyed-insert s ((j, t) ∷ m) h = elim (Bool-cases (list_beq j s.function_local_id)) [
  | inl same ↦
      let at : list_beq s.function_local_id j ≡ true =
        (list_beq_iff s.function_local_id j).1
          (sym ((list_beq_iff j s.function_local_id).0 same)) in
      rw (same, at) (ground arith)
  | inr other ↦ rw other (ground (arith, is_keyed-insert s m))
]

is_ok-flush_cur :
    (m : List (Bytes × InlineSummary)) (c : Option InlineSummary)
    → is_ok m ≡ true
    → is_ok (flush_cur m c) ≡ true
is_ok-flush_cur m none h = h
is_ok-flush_cur m (some s) h =
    ground (arith, all_distinct-insert s.function_local_id s m, is_keyed-insert s m)

contains-flush_cur :
    (m : List (Bytes × InlineSummary)) (c : Option InlineSummary) (i : Bytes)
    → contains (keys (flush_cur m c)) i ≡ (contains (keys m) i || cur_is c i)
contains-flush_cur m none i = ground arith
contains-flush_cur m (some s) i = contains-insert s.function_local_id i s m ∙ ground arith

-- the ids so far
abbrev known : Summaries → Bytes → Bool
known st i = contains (keys st.by_id) i || cur_is st.cur i

-- What a line that is no header keeps.
record Same (st next : Summaries) : Type 0 where
  ids : (i : Bytes) → known next i ≡ known st i
  ok : is_ok st.by_id ≡ true → is_ok next.by_id ≡ true

end_block-Same :
    (st : Summaries) (line : Bytes) (s : InlineSummary)
    → st.cur ≡ some s
    → Same st (end_block st line (some s))
end_block-Same st line s e =
    elim (Bool-cases (not (is_empty line) && not (has_prefix line (codes " ")))) [
      | inl ends ↦ rw ends (record {
        ids = λ i. rw (contains-flush_cur st.by_id (some s) i, e) (ground arith);
        ok = is_ok-flush_cur st.by_id (some s);
      })
      | inr inside ↦ rw inside (record { ids = λ i. refl; ok = λ h. h })
    ]

entry_line-Same :
    (st : Summaries) (line : Bytes) (s : InlineSummary) (entry : Option (Bytes × Bool))
    → st.cur ≡ some s
    → Same st (entry_line st line s entry)
entry_line-Same st line s (some (id, true)) e = record { ids = λ i. rw e refl; ok = λ h. h }
entry_line-Same st line s (some (id, false)) e = record { ids = λ i. refl; ok = λ h. h }
entry_line-Same st line s none e = elim (Bool-cases (is_empty (trim_white line))) [
  | inl blank ↦
      let kept : Same (record st { in_calls = false })
          (end_block (record st { in_calls = false }) line (some s)) =
        end_block-Same (record st { in_calls = false }) line s e in
      rw blank (record { ids = kept.ids; ok = kept.ok })
  | inr text ↦ rw text (end_block-Same st line s e)
]

if-Same :
    (st : Summaries) (b : Bool) (x y : Summaries)
    → Same st x
    → Same st y
    → Same st (if b then x else y)
if-Same st true x y h k = h
if-Same st false x y h k = k

in_summary-Same :
    (st : Summaries) (line : Bytes) (c : Option InlineSummary)
    → st.cur ≡ c
    → Same st (in_summary st line c)
in_summary-Same st line none e = record { ids = λ i. refl; ok = λ h. h }
in_summary-Same st line (some s) e =
    if-Same st st.in_calls (entry_line st line s (call_entry line)) (end_block st line (some s))
      (entry_line-Same st line s (call_entry line) e) (end_block-Same st line s e)

summary_line-Same : (st : Summaries) (line : Bytes) → Same st (summary_line st line)
summary_line-Same st line =
    if-Same st (list_beq (trim_white line) (codes "calls:")) (record st { in_calls = true })
      (in_summary st line st.cur) (record { ids = λ i. refl; ok = λ h. h })
      (in_summary-Same st line st.cur refl)

known-inline_line :
    (st : Summaries) (line : Bytes) (head : Option InlineSummary) (i : Bytes)
    → known (inline_line st line head) i ≡ (known st i || cur_is head i)
known-inline_line st line none i = (summary_line-Same st line).ids i ∙ ground arith
known-inline_line st line (some s) i = rw (contains-flush_cur st.by_id st.cur i) refl

is_ok-inline_line :
    (st : Summaries) (line : Bytes) (head : Option InlineSummary)
    → is_ok st.by_id ≡ true
    → is_ok (inline_line st line head).by_id ≡ true
is_ok-inline_line st line none h = (summary_line-Same st line).ok h
is_ok-inline_line st line (some s) h = is_ok-flush_cur st.by_id st.cur h

known-inline_lines :
    (st : Summaries) (lines : List Bytes) (i : Bytes)
    → known (inline_lines st lines) i ≡ (known st i || is_headed lines i)
unfolding inline_lines
known-inline_lines st [] i = ground arith
known-inline_lines st (line ∷ lines) i =
    known-inline_lines (inline_line st line (summary_head line)) lines i
    ∙ rw (known-inline_line st line (summary_head line) i) (ground arith)

is_ok-inline_lines :
    (st : Summaries) (lines : List Bytes)
    → is_ok st.by_id ≡ true
    → is_ok (inline_lines st lines).by_id ≡ true
unfolding inline_lines
is_ok-inline_lines st [] h = h
is_ok-inline_lines st (line ∷ lines) h =
    is_ok-inline_lines (inline_line st line (summary_head line)) lines
      (is_ok-inline_line st line (summary_head line) h)

local_ids-stored :
    (m : List (Bytes × InlineSummary)) → is_keyed m ≡ true → local_ids (stored m) ≡ keys m
local_ids-stored [] h = refl
local_ids-stored ((id, s) ∷ m) h =
    let at : s.function_local_id ≡ id = (list_beq_iff s.function_local_id id).0 (ground arith) in
    rw (at, local_ids-stored m (ground arith)) refl

-- No two summaries of the parsed inline dump have the same id, and an id has a summary exactly if a
-- header names it, whatever the lines between the headers are.
pub parse_inline_lem :
    (lines : List Bytes)
    → (all_distinct (local_ids (parse_inline lines).summaries) ≡ true)
      × ((i : Bytes) → contains (local_ids (parse_inline lines).summaries) i ≡ is_headed lines i)
unfolding parse_inline
parse_inline_lem lines =
    let st : Summaries = inline_lines no_summaries lines in
    let ok : is_ok (flush_cur st.by_id st.cur) ≡ true =
      is_ok-flush_cur st.by_id st.cur (is_ok-inline_lines no_summaries lines refl) in
    let ids : local_ids (stored (flush_cur st.by_id st.cur)) ≡ keys (flush_cur st.by_id st.cur) =
      local_ids-stored (flush_cur st.by_id st.cur) (ground arith) in
    rw ids (
      ground arith,
      λ i. contains-flush_cur st.by_id st.cur i ∙ known-inline_lines no_summaries lines i,
    )
