-- ===== src/MapFile/Origins.antt =====
-- The origins and the pulls that are read are objects, and an origin that is read stays.
use herbarium.Base.{
  ◌≡◌, refl, sym, ◌∙◌, ◌⊎◌, inl, inr, true, false, List, [], ◌∷◌, Option, none, some, Bytes, codes,
  Bool-cases, taken, lookup, insert, list_eq, nat_eq, list_beq, All, All-append, has_prefix,
}
use herbarium.MapFile.{
  ArchivePull, MapFile, Reader, Phase, header, load_list, sections, is_empty_line, is_object,
  object_at_end, contrib, contrib_tail, contrib_head, symbol_line, load_ref, ends_load_list,
  add_pull, load_entry, load_line, unless_seen, add_symbol, close_contrib, symbol_or_end,
  contrib_or_symbol, section_line, split_line, read_in, line_loop, start, read_map,
}
use herbarium.MapFile.Matches.{
  object_at_end-is_object, contrib_tail-is_object, contrib-is_object, load_ref-is_object,
}

true_ne : true ≡ false → ⊥
true_ne e = cc

-- no path yet, or that of an object
abbrev IsPending : Bytes → Type 0
IsPending o = (is_empty_line o ≡ true) ⊎ (is_object o ≡ true)

abbrev pub IsObjectPull : ArchivePull → Type 0
IsObjectPull p = (is_object p.object ≡ true) × (is_object p.referrer ≡ true)

abbrev pub AllOrigins : List (Bytes × Bytes) → Type 0
AllOrigins m = All (λ e. is_object e.1 ≡ true) m

abbrev pub IsReadable : MapFile → Type 0
IsReadable mf = AllOrigins mf.symbol_origin × All IsObjectPull mf.archive_pulls

abbrev IsSafe : Reader → Type 0
IsSafe r =
    AllOrigins r.mf.symbol_origin
    × All IsObjectPull r.mf.archive_pulls
    × IsPending r.pending_load_object
    × IsPending r.cur_contrib_object

insert-AllOrigins :
    (k v : Bytes) (m : List (Bytes × Bytes))
    → is_object v ≡ true
    → AllOrigins m
    → AllOrigins (insert k v m)
insert-AllOrigins k v [] h _ = (h, tt)
insert-AllOrigins k v ((j, w) ∷ m) h (a, b) =
    taken AllOrigins (list_beq j k) ((j, v) ∷ m) ((j, w) ∷ insert k v m) (h, b)
      (a, insert-AllOrigins k v m h b)

-- a path that is not empty is one of an object
pending_object : (o : Bytes) → IsPending o → is_empty_line o ≡ false → is_object o ≡ true
pending_object o (inl e) h = absurd (true_ne (sym e ∙ h))
pending_object o (inr e) h = e

add_pull-IsSafe :
    (r : Reader) (ref : Option (Bytes × Bytes))
    → ((referrer symbol : Bytes) → ref ≡ some (referrer, symbol) → is_object referrer ≡ true)
    → IsSafe r
    → IsSafe (add_pull r ref)
add_pull-IsSafe r none h safe = safe
add_pull-IsSafe r (some (referrer, symbol)) h (a, b, c, d) =
    elim (Bool-cases (is_empty_line r.pending_load_object)) [
      | inl empty ↦ rw empty (a, b, c, d)
      | inr pending ↦ rw pending (
        a,
        All-append IsObjectPull r.mf.archive_pulls _ b
            ((pending_object r.pending_load_object c pending, h referrer symbol refl), tt),
        inl refl,
        d,
      )
    ]

load_entry-IsSafe :
    (r : Reader) (object : Option Bytes) (ref : Option (Bytes × Bytes))
    → ((o : Bytes) → object ≡ some o → is_object o ≡ true)
    → ((referrer symbol : Bytes) → ref ≡ some (referrer, symbol) → is_object referrer ≡ true)
    → IsSafe r
    → IsSafe (load_entry r object ref)
load_entry-IsSafe r (some object) ref g h (a, b, c, d) = (a, b, inr (g object refl), d)
load_entry-IsSafe r none ref g h safe = add_pull-IsSafe r ref h safe

load_line-IsSafe :
    (r : Reader) (line trimmed : Bytes) → IsSafe r → IsSafe (load_line r line trimmed)
load_line-IsSafe r line trimmed safe = taken IsSafe (is_empty_line trimmed) r _ safe (
    taken IsSafe (ends_load_list trimmed) (record r { phase = sections }) _ safe
      (load_entry-IsSafe r (object_at_end trimmed) (load_ref line)
        (λ o e. object_at_end-is_object trimmed e) (λ o s e. load_ref-is_object line e) safe))

unless_seen-IsSafe :
    (r : Reader) (name : Bytes) (o : Option Bytes)
    → is_object r.cur_contrib_object ≡ true
    → IsSafe r
    → IsSafe (unless_seen r name o)
unless_seen-IsSafe r name (some seen) h safe = safe
unless_seen-IsSafe r name none h (a, b, c, d) =
    (insert-AllOrigins name r.cur_contrib_object r.mf.symbol_origin h a, b, c, d)

add_symbol-IsSafe :
    (r : Reader) (name : Bytes)
    → is_object r.cur_contrib_object ≡ true
    → IsSafe r
    → IsSafe (add_symbol r name)
add_symbol-IsSafe r name h safe = unless_seen-IsSafe r name (lookup name r.mf.symbol_origin) h safe

close_contrib-IsSafe : (r : Reader) (line : Bytes) → IsSafe r → IsSafe (close_contrib r line)
close_contrib-IsSafe r line (a, b, c, d) =
    taken IsSafe (has_prefix line (codes "  ")) r (record r { cur_contrib_object = [] })
      (a, b, c, d) (a, b, c, inl refl)

symbol_or_end-IsSafe :
    (r : Reader) (name : Option Bytes) (line : Bytes)
    → IsSafe r
    → IsSafe (symbol_or_end r name line)
symbol_or_end-IsSafe r none line safe = close_contrib-IsSafe r line safe
symbol_or_end-IsSafe r (some name) line (a, b, c, d) =
    elim (Bool-cases (is_empty_line r.cur_contrib_object)) [
      | inl empty ↦ rw empty (close_contrib-IsSafe r line (a, b, c, d))
      | inr under ↦
          rw under
            (add_symbol-IsSafe r name (pending_object r.cur_contrib_object d under) (a, b, c, d))
    ]

contrib_or_symbol-IsSafe :
    (r : Reader) (object : Option Bytes) (line : Bytes)
    → ((o : Bytes) → object ≡ some o → is_object o ≡ true)
    → IsSafe r
    → IsSafe (contrib_or_symbol r object line)
contrib_or_symbol-IsSafe r (some object) line h (a, b, c, d) = (a, b, c, inr (h object refl))
contrib_or_symbol-IsSafe r none line h safe =
    taken IsSafe (contrib_head line) (record r { pending_split_header = true })
      (symbol_or_end r (symbol_line line) line) safe
      (symbol_or_end-IsSafe r (symbol_line line) line safe)

section_line-IsSafe : (r : Reader) (line : Bytes) → IsSafe r → IsSafe (section_line r line)
section_line-IsSafe r line safe =
    contrib_or_symbol-IsSafe r (contrib line) line (λ o e. contrib-is_object line e) safe

split_line-IsSafe :
    (r : Reader) (object : Option Bytes) (line : Bytes)
    → ((o : Bytes) → object ≡ some o → is_object o ≡ true)
    → IsSafe r
    → IsSafe (split_line r object line)
split_line-IsSafe r (some object) line h (a, b, c, d) = (a, b, c, inr (h object refl))
split_line-IsSafe r none line h safe = section_line-IsSafe r line safe

module _ (trim_space : Bytes → Bytes) where
  read_in-IsSafe :
      (p : Phase) (r : Reader) (line : Bytes) → IsSafe r → IsSafe (read_in trim_space p r line)
  read_in-IsSafe header r line safe =
      taken IsSafe (has_prefix (trim_space line) (codes "Archive member included"))
        (record r { phase = load_list }) r safe safe
  read_in-IsSafe load_list r line safe = load_line-IsSafe r line (trim_space line) safe
  read_in-IsSafe sections r line safe =
      taken IsSafe r.pending_split_header
        (split_line (record r { pending_split_header = false }) (contrib_tail line) line)
        (section_line r line)
        (split_line-IsSafe (record r { pending_split_header = false }) (contrib_tail line) line
          (λ o e. contrib_tail-is_object line e) safe)
        (section_line-IsSafe r line safe)

  line_loop-IsSafe :
      (lines : List Bytes) (r : Reader) → IsSafe r → IsSafe (line_loop trim_space r lines)
  unfolding line_loop
  line_loop-IsSafe [] r safe = safe
  line_loop-IsSafe (line ∷ lines) r safe =
      line_loop-IsSafe lines (read_in trim_space r.phase r line)
        (read_in-IsSafe r.phase r line safe)

  -- Every origin of a symbol, and the object and the referrer of every pull, is the path of an
  -- object, which has the suffix .o and something before it.
  pub read_map-IsReadable : (lines : List Bytes) → IsReadable (read_map trim_space lines)
  unfolding read_map
  read_map-IsReadable lines =
      let (a, b, c, d) = line_loop-IsSafe lines (start trim_space) (tt, tt, inl refl, inl refl) in
      (a, b)
