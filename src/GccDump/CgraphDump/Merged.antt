-- ===== src/GccDump/CgraphDump/Merged.antt =====
-- The tables of a dump are merged: of each symbol the parser keeps what is richer.
use herbarium.Base.{
  ◌≤◌, ◌≡◌, refl, sym, ap, ◌∙◌, inl, inr, arith, true, false, not, List, [], ◌∷◌, ◌++◌, Option,
  none, some, Bytes, codes, has_prefix, if◌then◌else◌, Bool-cases, Option-cases, length, lookup,
  lookup-insert, lookup-insert_self, list_beq, list_beq_iff, list_eq, nat_eq, none_ne,
  some_injective, subst, taken,
}
use herbarium.GccDump.{Function, is_empty, newer_string, newer_list, merged, merge_symbol}
use herbarium.GccDump.CgraphDump.{
  Parser, flush, cgraph_line, cgraph_lines, no_symbols, parse_cgraph, trim_white, trim_right,
  symbol_header, ends_block, column_0, in_block, with_needed,
}

-- What is known of the first symbol is known of the second: flags stay set, strings stay non-empty,
-- and no list gets shorter.
pub record Richer (f g : Function) : Type 0 where
  pub name : is_empty f.name ≡ false → is_empty g.name ≡ false
  pub linkage_name : is_empty f.linkage_name ≡ false → is_empty g.linkage_name ≡ false
  pub kind : is_empty f.kind ≡ false → is_empty g.kind ≡ false
  pub clone_of_id : is_empty f.clone_of_id ≡ false → is_empty g.clone_of_id ≡ false
  pub analyzed : f.analyzed ≡ true → g.analyzed ≡ true
  pub body_removed : f.body_removed ≡ true → g.body_removed ≡ true
  pub address_taken : f.address_taken ≡ true → g.address_taken ≡ true
  pub visibility_flags : length f.visibility_flags ≤ length g.visibility_flags
  pub function_flags : length f.function_flags ≤ length g.function_flags
  pub refs : length f.refs ≤ length g.refs
  pub called : length f.called ≤ length g.called
  pub indirect_sites : length f.indirect_sites ≤ length g.indirect_sites

Richer-refl : (f : Function) → Richer f f
Richer-refl f = record {
  name = λ h. h;
  linkage_name = λ h. h;
  kind = λ h. h;
  clone_of_id = λ h. h;
  analyzed = λ h. h;
  body_removed = λ h. h;
  address_taken = λ h. h;
  visibility_flags = omega arith;
  function_flags = omega arith;
  refs = omega arith;
  called = omega arith;
  indirect_sites = omega arith;
}

Richer-trans : (f g h : Function) → Richer f g → Richer g h → Richer f h
Richer-trans f g h p q = record {
  name = λ e. q.name (p.name e);
  linkage_name = λ e. q.linkage_name (p.linkage_name e);
  kind = λ e. q.kind (p.kind e);
  clone_of_id = λ e. q.clone_of_id (p.clone_of_id e);
  analyzed = λ e. q.analyzed (p.analyzed e);
  body_removed = λ e. q.body_removed (p.body_removed e);
  address_taken = λ e. q.address_taken (p.address_taken e);
  visibility_flags = omega (arith, p.visibility_flags, q.visibility_flags);
  function_flags = omega (arith, p.function_flags, q.function_flags);
  refs = omega (arith, p.refs, q.refs);
  called = omega (arith, p.called, q.called);
  indirect_sites = omega (arith, p.indirect_sites, q.indirect_sites);
}

newer_string-prev :
    (prev obs : Bytes) → is_empty prev ≡ false → is_empty (newer_string prev obs) ≡ false
newer_string-prev prev [] h = h
newer_string-prev prev (c ∷ obs) h = refl

newer_string-obs :
    (prev obs : Bytes) → is_empty obs ≡ false → is_empty (newer_string prev obs) ≡ false
newer_string-obs prev [] h = cc
newer_string-obs prev (c ∷ obs) h = refl

newer_list-prev {ℓ} : {A : Type ℓ} (prev obs : List A) → length prev ≤ length (newer_list prev obs)
newer_list-prev prev obs = ground arith

newer_list-obs {ℓ} : {A : Type ℓ} (prev obs : List A) → length obs ≤ length (newer_list prev obs)
newer_list-obs prev obs = ground arith

merged-prev : (prev obs : Function) → Richer prev (merged prev obs)
unfolding merged
merged-prev prev obs = record {
  name = newer_string-prev prev.name obs.name;
  linkage_name = newer_string-prev prev.linkage_name obs.linkage_name;
  kind = newer_string-prev prev.kind obs.kind;
  clone_of_id = newer_string-prev prev.clone_of_id obs.clone_of_id;
  analyzed = λ h. ground arith;
  body_removed = λ h. ground arith;
  address_taken = λ h. ground arith;
  visibility_flags = newer_list-prev prev.visibility_flags obs.visibility_flags;
  function_flags = newer_list-prev prev.function_flags obs.function_flags;
  refs = newer_list-prev prev.refs obs.refs;
  called = newer_list-prev prev.called obs.called;
  indirect_sites = newer_list-prev prev.indirect_sites obs.indirect_sites;
}

merged-obs : (prev obs : Function) → Richer obs (merged prev obs)
unfolding merged
merged-obs prev obs = record {
  name = newer_string-obs prev.name obs.name;
  linkage_name = newer_string-obs prev.linkage_name obs.linkage_name;
  kind = newer_string-obs prev.kind obs.kind;
  clone_of_id = newer_string-obs prev.clone_of_id obs.clone_of_id;
  analyzed = λ h. ground arith;
  body_removed = λ h. ground arith;
  address_taken = λ h. ground arith;
  visibility_flags = newer_list-obs prev.visibility_flags obs.visibility_flags;
  function_flags = newer_list-obs prev.function_flags obs.function_flags;
  refs = newer_list-obs prev.refs obs.refs;
  called = newer_list-obs prev.called obs.called;
  indirect_sites = newer_list-obs prev.indirect_sites obs.indirect_sites;
}

abbrev pub SymbolTable : Type 0
SymbolTable = List (Bytes × Function)

-- a symbol is there, and at least as much of it as is given
abbrev pub Has : SymbolTable → Bytes → Function → Type 0
Has m id f = (g : Function) × (lookup id m ≡ some g) × Richer f g

abbrev pub Enriches : SymbolTable → SymbolTable → Type 0
Enriches m n = (id : Bytes) (f : Function) → lookup id m ≡ some f → Has n id f

Enriches-refl : (m : SymbolTable) → Enriches m m
Enriches-refl m id f h = (f, h, Richer-refl f)

Enriches-trans : (m n o : SymbolTable) → Enriches m n → Enriches n o → Enriches m o
Enriches-trans m n o p q id f h =
    let (g, at, r) = p id f h in
    let (k, then_at, s) = q id g at in (k, then_at, Richer-trans f g k r s)

-- The observation is merged into its symbol, and the other symbols stay.
pub merge_symbol-Enriches :
    (m : SymbolTable) (obs : Function)
    → Enriches m (merge_symbol m obs) × Has (merge_symbol m obs) obs.local_id obs
unfolding merge_symbol
merge_symbol-Enriches m obs = elim (Option-cases (lookup obs.local_id m)) [
  | inl new ↦
      rw (new, merge_symbol)
        (
          (λ id f h. elim (Bool-cases (list_beq obs.local_id id)) [
            | inl same ↦
                let is_id : obs.local_id ≡ id = (list_beq_iff obs.local_id id).0 same in
                absurd (none_ne (sym new ∙ ap (λ x. lookup x m) is_id ∙ h))
            | inr other ↦ (f, lookup-insert obs.local_id id obs m ∙ rw other h, Richer-refl f)
          ]),
          (obs, lookup-insert_self obs.local_id obs m, Richer-refl obs),
        )
  | inr (prev, old) ↦
      rw (old, merge_symbol)
        (
          (λ id f h. elim (Bool-cases (list_beq obs.local_id id)) [
            | inl same ↦
                let is_id : obs.local_id ≡ id = (list_beq_iff obs.local_id id).0 same in
                let is_prev : prev ≡ f =
                  some_injective (sym old ∙ ap (λ x. lookup x m) is_id ∙ h) in
                (
                  merged prev obs,
                  lookup-insert obs.local_id id (merged prev obs) m ∙ rw same refl,
                  subst (λ x. Richer x (merged prev obs)) is_prev (merged-prev prev obs),
                )
            | inr other ↦
                (f, lookup-insert obs.local_id id (merged prev obs) m ∙ rw other h, Richer-refl f)
          ]),
          (
            merged prev obs,
            lookup-insert_self obs.local_id (merged prev obs) m,
            merged-obs prev obs,
          ),
        )
]

abbrev table_of : Parser → SymbolTable
table_of p = p.cg.symbols

flush-Enriches : (p : Parser) → Enriches (table_of p) (table_of (flush p))
unfolding flush
flush-Enriches p = elim (Option-cases p.cur) [
  | inl e ↦ rw (e, flush) (Enriches-refl (table_of p))
  | inr (obs, e) ↦ rw (e, flush) (merge_symbol-Enriches (table_of p) obs).0
]

column_0-Enriches :
    (p : Parser) (h : Option Function) → Enriches (table_of p) (table_of (column_0 p h))
column_0-Enriches p none = flush-Enriches p
column_0-Enriches p (some f) = flush-Enriches p

in_block-Enriches :
    (p : Parser) (trimmed : Bytes) (cur : Option Function)
    → Enriches (table_of p) (table_of (in_block p trimmed cur))
in_block-Enriches p trimmed none = Enriches-refl (table_of p)
in_block-Enriches p trimmed (some f) = Enriches-refl (table_of p)

cgraph_line-Enriches :
    (p : Parser) (raw : Bytes) → Enriches (table_of p) (table_of (cgraph_line p raw))
unfolding cgraph_line
cgraph_line-Enriches p raw =
    let t = trim_white raw in
    let P = λ (q : Parser). Enriches (table_of p) (table_of q) in
    taken P (has_prefix t (codes "Trivially needed")) (with_needed (flush p) t)
      (if ends_block t
        then flush p
        else if not (has_prefix raw (codes " "))
        then column_0 p (symbol_header raw)
        else in_block p t p.cur)
      (flush-Enriches p)
      (taken P (ends_block t) (flush p)
        (if not (has_prefix raw (codes " "))
          then column_0 p (symbol_header raw)
          else in_block p t p.cur)
        (flush-Enriches p)
        (taken P (not (has_prefix raw (codes " "))) (column_0 p (symbol_header raw))
          (in_block p t p.cur) (column_0-Enriches p (symbol_header raw))
          (in_block-Enriches p t p.cur)))

cgraph_lines-Enriches :
    (p : Parser) (lines : List Bytes)
    → Enriches (table_of p) (table_of (flush (cgraph_lines p lines)))
unfolding cgraph_lines
cgraph_lines-Enriches p [] = flush-Enriches p
cgraph_lines-Enriches p (raw ∷ lines) =
    let q = cgraph_line p raw in
    Enriches-trans (table_of p) (table_of q) (table_of (flush (cgraph_lines q lines)))
      (cgraph_line-Enriches p raw) (cgraph_lines-Enriches q lines)

cgraph_lines-append :
    (p : Parser) (a b : List Bytes) → cgraph_lines p (a ++ b) ≡ cgraph_lines (cgraph_lines p a) b
unfolding cgraph_lines
cgraph_lines-append p [] b = refl
cgraph_lines-append p (raw ∷ a) b = cgraph_lines-append (cgraph_line p raw) a b

blank_line : (p : Parser) → cgraph_line p [] ≡ flush p
unfolding cgraph_line trim_white flush trim_right
blank_line p = refl

-- Whatever lines follow a blank line, every symbol of the dump up to there is in the whole dump,
-- and nothing that was known of it is lost.
pub parse_cgraph-Enriches :
    (before later : List Bytes)
    → Enriches (parse_cgraph before).symbols (parse_cgraph (before ++ [] ∷ later)).symbols
unfolding parse_cgraph cgraph_lines
parse_cgraph-Enriches before later =
    let p = cgraph_lines no_symbols before in
    let e : cgraph_lines no_symbols (before ++ [] ∷ later) ≡ cgraph_lines (flush p) later =
      cgraph_lines-append no_symbols before ([] ∷ later)
      ∙ ap (λ x. cgraph_lines x later) (blank_line p) in
    subst (λ x. Enriches (table_of (flush p)) (table_of (flush x))) (sym e)
      (cgraph_lines-Enriches (flush p) later)
