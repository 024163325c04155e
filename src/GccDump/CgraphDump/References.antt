-- ===== src/GccDump/CgraphDump/References.antt =====
-- A printed list of references, read back.
use herbarium.Base.{
  ℕ, suc, ◌-◌, ◌<◌, ltb, ◌≡◌, refl, ap, ◌∙◌, arith, Bool, true, false, not, ◌&&◌, List, [], ◌∷◌,
  ◌++◌, some, Bytes, codes, ◌==◌, has_prefix, index, length, take-length-append, All, is_digit, map,
}
use herbarium.GccDump.{Ref}
use herbarium.GccDump.CgraphDump.{is_name_start, is_name_part, from_open, ref_of, parse_ref_list}
use herbarium.GccDump.CgraphDump.Targets.{
  Item, printed, all_of, is_closed, IsItem, pairs, targets_in-printed,
}

-- a reference as gcc writes it, with its kind in parentheses
pub record Reference : Type 0 where
  pub first : ℕ
  pub more : Bytes
  pub id : Bytes
  pub kind : Bytes

abbrev is_kind_part : ℕ → Bool
is_kind_part c = not (c == b'/') && not (c == b')')

pub record IsReference (r : Reference) : Type 0 where
  pub starts : is_name_start r.first ≡ true
  pub name : all_of is_name_part r.more ≡ true
  pub id : all_of is_digit r.id ≡ true
  pub some_id : 0 < length r.id
  pub kind : all_of is_kind_part r.kind ≡ true

abbrev pub item_of : Reference → Item
item_of r = record {
  first = r.first;
  more = r.more;
  id = r.id;
  tail = codes " (" ++ (r.kind ++ codes ") ");
}

closed_kind : (k : Bytes) → all_of is_kind_part k ≡ true → is_closed (k ++ codes ") ") ≡ true
closed_kind [] h = refl
closed_kind (c ∷ []) h = ground arith
closed_kind (c ∷ d ∷ k) h = ground (arith, closed_kind (d ∷ k))

item_of-IsItem : (r : Reference) → IsReference r → IsItem (item_of r)
item_of-IsItem r ok = record {
  starts = ok.starts;
  name = ok.name;
  id = ok.id;
  some_id = ok.some_id;
  no_digit = refl;
  closed = closed_kind (b'(' ∷ r.kind) ok.kind;
}

-- `strings.Index` of the closing parenthesis
index-close :
    (k s : Bytes)
    → all_of is_kind_part k ≡ true
    → index (k ++ b')' ∷ s) (codes ")") ≡ some (length k)
unfolding index
index-close [] s h = refl
index-close (c ∷ k) s h =
    let away : has_prefix (c ∷ (k ++ b')' ∷ s)) (codes ")") ≡ false = ground arith in
    let ih = index-close k s (ground arith) in rw (away, ih, index) refl

kind-printed :
    (k : Bytes)
    → all_of is_kind_part k ≡ true
    → from_open
        (codes " (" ++ (k ++ codes ") "))
        (index (codes " (" ++ (k ++ codes ") ")) (codes "("))
      ≡ k
unfolding index
kind-printed k h =
    let n : suc (length k) - 1 ≡ length k = omega arith in
    let pos : ltb 0 (suc (length k)) ≡ true = ground arith in
    rw (index-close k (codes " ") h) (rw (n, pos) (take-length-append k (codes ") ")))

abbrev pub items_of : List Reference → List Item
items_of [] = []
items_of (r ∷ rs) = item_of r ∷ items_of rs

abbrev pub refs_of : List Reference → List Ref
refs_of [] = []
refs_of (r ∷ rs) = record { target_local_id = r.id; kind = r.kind } ∷ refs_of rs

items_of-IsItem : (rs : List Reference) → All IsReference rs → All IsItem (items_of rs)
items_of-IsItem [] h = tt
items_of-IsItem (r ∷ rs) (ok, h) = (item_of-IsItem r ok, items_of-IsItem rs h)

map-ref_of :
    (rs : List Reference) → All IsReference rs → map ref_of (pairs (items_of rs)) ≡ refs_of rs
map-ref_of [] h = refl
map-ref_of (r ∷ rs) (ok, h) = cc (kind-printed r.kind ok.kind, map-ref_of rs h)

-- A list of references as gcc writes it, each a symbol with a kind in parentheses, is read as those
-- references, in their order, if no kind holds a slash or a closing parenthesis.
pub parse_ref_list-printed :
    (rs : List Reference)
    → All IsReference rs
    → parse_ref_list (b' ' ∷ printed (items_of rs)) ≡ refs_of rs
unfolding parse_ref_list
parse_ref_list-printed rs h =
    ap (map ref_of) (targets_in-printed (items_of rs) (items_of-IsItem rs h)) ∙ map-ref_of rs h
