-- ===== src/MapFile/Stable.antt =====
-- What is read of a map file stays, whatever lines follow.
use herbarium.Base.{
  none_ne, append-nil, append_assoc, ◌≡◌, refl, sym, ap, subst, ◌∙◌, inl, inr, true, false, List,
  [], ◌∷◌, ◌++◌, Option, none, some, Bytes, codes, Bool-cases, taken, lookup, insert, lookup-insert,
  list_eq, nat_eq, list_beq, list_beq_iff, has_prefix,
}
use herbarium.MapFile.{
  ArchivePull, MapFile, Reader, Phase, header, load_list, sections, is_empty_line, object_at_end,
  contrib, contrib_tail, contrib_head, symbol_line, load_ref, ends_load_list, add_pull, load_entry,
  unless_seen, add_symbol, close_contrib, symbol_or_end, contrib_or_symbol, section_line,
  split_line, read_in, line_loop, start, read_map,
}

-- what is read stays
abbrev pub Stays : MapFile → MapFile → Type 0
Stays m n =
    ((name o : Bytes) → lookup name m.symbol_origin ≡ some o → lookup name n.symbol_origin ≡ some o)
    × ((more : List ArchivePull) × (n.archive_pulls ≡ m.archive_pulls ++ more))

Stays-refl : (m : MapFile) → Stays m m
Stays-refl m = ((λ name o e. e), ([], sym (append-nil m.archive_pulls)))

Stays-trans : (a b c : MapFile) → Stays a b → Stays b c → Stays a c
Stays-trans a b c (f, (x, p)) (g, (y, q)) = (
  (λ name o e. g name o (f name o e)),
  (x ++ y, q ∙ ap (λ z. z ++ y) p ∙ append_assoc a.archive_pulls x y),
)

add_pull-Stays : (r : Reader) (ref : Option (Bytes × Bytes)) → Stays r.mf (add_pull r ref).mf
add_pull-Stays r none = Stays-refl r.mf
add_pull-Stays r (some (referrer, symbol)) =
    taken (λ x. Stays r.mf x.mf) (is_empty_line r.pending_load_object) r _ (Stays-refl r.mf)
      ((λ name o e. e), (_, refl))

insert-Stays :
    (name object : Bytes) (m : List (Bytes × Bytes))
    → lookup name m ≡ none
    → (other o : Bytes) → lookup other m ≡ some o
    → lookup other (insert name object m) ≡ some o
insert-Stays name object m new other o found = elim (Bool-cases (list_beq name other)) [
  | inl same ↦
      let e : name ≡ other = (list_beq_iff name other).0 same in
      absurd (none_ne (sym new ∙ ap (λ x. lookup x m) e ∙ found))
  | inr differ ↦
      let at : lookup other (insert name object m) ≡ lookup other m =
        lookup-insert name other object m ∙ rw differ refl in
      at ∙ found
]

unless_seen-Stays :
    (r : Reader) (name : Bytes) (o : Option Bytes)
    → lookup name r.mf.symbol_origin ≡ o
    → Stays r.mf (unless_seen r name o).mf
unless_seen-Stays r name (some seen) h = Stays-refl r.mf
unless_seen-Stays r name none h = (
  insert-Stays name r.cur_contrib_object r.mf.symbol_origin h,
  ([], sym (append-nil r.mf.archive_pulls)),
)

close_contrib-Stays : (r : Reader) (line : Bytes) → Stays r.mf (close_contrib r line).mf
close_contrib-Stays r line =
    taken (λ x. Stays r.mf x.mf) (has_prefix line (codes "  ")) r
      (record r { cur_contrib_object = [] }) (Stays-refl r.mf) (Stays-refl r.mf)

symbol_or_end-Stays :
    (r : Reader) (name : Option Bytes) (line : Bytes) → Stays r.mf (symbol_or_end r name line).mf
symbol_or_end-Stays r none line = close_contrib-Stays r line
symbol_or_end-Stays r (some name) line =
    taken (λ x. Stays r.mf x.mf) (is_empty_line r.cur_contrib_object) (close_contrib r line)
      (add_symbol r name) (close_contrib-Stays r line)
      (unless_seen-Stays r name (lookup name r.mf.symbol_origin) refl)

contrib_or_symbol-Stays :
    (r : Reader) (object : Option Bytes) (line : Bytes)
    → Stays r.mf (contrib_or_symbol r object line).mf
contrib_or_symbol-Stays r (some object) line = Stays-refl r.mf
contrib_or_symbol-Stays r none line =
    taken (λ x. Stays r.mf x.mf) (contrib_head line) (record r { pending_split_header = true })
      (symbol_or_end r (symbol_line line) line) (Stays-refl r.mf)
      (symbol_or_end-Stays r (symbol_line line) line)

split_line-Stays :
    (r : Reader) (object : Option Bytes) (line : Bytes) → Stays r.mf (split_line r object line).mf
split_line-Stays r (some object) line = Stays-refl r.mf
split_line-Stays r none line = contrib_or_symbol-Stays r (contrib line) line

load_entry-Stays :
    (r : Reader) (object : Option Bytes) (ref : Option (Bytes × Bytes))
    → Stays r.mf (load_entry r object ref).mf
load_entry-Stays r (some object) ref = Stays-refl r.mf
load_entry-Stays r none ref = add_pull-Stays r ref

module _ (trim_space : Bytes → Bytes) where
  read_in-Stays :
      (p : Phase) (r : Reader) (line : Bytes) → Stays r.mf (read_in trim_space p r line).mf
  read_in-Stays header r line =
      taken (λ x. Stays r.mf x.mf) (has_prefix (trim_space line) (codes "Archive member included"))
        (record r { phase = load_list }) r (Stays-refl r.mf) (Stays-refl r.mf)
  read_in-Stays load_list r line =
      let trimmed = trim_space line in
      taken (λ x. Stays r.mf x.mf) (is_empty_line trimmed) r _ (Stays-refl r.mf)
        (taken (λ x. Stays r.mf x.mf) (ends_load_list trimmed) (record r { phase = sections }) _
          (Stays-refl r.mf) (load_entry-Stays r (object_at_end trimmed) (load_ref line)))
  read_in-Stays sections r line =
      taken (λ x. Stays r.mf x.mf) r.pending_split_header
        (split_line (record r { pending_split_header = false }) (contrib_tail line) line)
        (section_line r line)
        (split_line-Stays (record r { pending_split_header = false }) (contrib_tail line) line)
        (contrib_or_symbol-Stays r (contrib line) line)

  line_loop-Stays : (lines : List Bytes) (r : Reader) → Stays r.mf (line_loop trim_space r lines).mf
  unfolding line_loop
  line_loop-Stays [] r = Stays-refl r.mf
  line_loop-Stays (line ∷ lines) r =
      let s : Reader = read_in trim_space r.phase r line in
      Stays-trans r.mf s.mf (line_loop trim_space s lines).mf (read_in-Stays r.phase r line)
        (line_loop-Stays lines s)

  line_loop-append :
      (xs ys : List Bytes) (r : Reader)
      → line_loop trim_space r (xs ++ ys) ≡ line_loop trim_space (line_loop trim_space r xs) ys
  unfolding line_loop
  line_loop-append [] ys r = refl
  line_loop-append (x ∷ xs) ys r = line_loop-append xs ys (read_in trim_space r.phase r x)

  -- Whatever lines follow, the origins that were read stay as they are, so that the first object
  -- that supplies a symbol is its origin, and pulls are only added behind those that were read.
  pub read_map-Stays :
      (lines more : List Bytes)
      → Stays (read_map trim_space lines) (read_map trim_space (lines ++ more))
  unfolding read_map
  read_map-Stays lines more =
      let r : Reader = line_loop trim_space (start trim_space) lines in
      subst (λ x. Stays r.mf x.mf) (sym (line_loop-append lines more (start trim_space)))
        (line_loop-Stays more r)
