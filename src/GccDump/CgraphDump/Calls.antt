-- ===== src/GccDump/CgraphDump/Calls.antt =====
-- A printed list of calls, read back.
use herbarium.Base.{◌≡◌, refl, ap, ◌∙◌, List, [], ◌∷◌, codes, All, map}
use herbarium.GccDump.{Call}
use herbarium.GccDump.CgraphDump.{contains_text, call_of, parse_call_list}
use herbarium.GccDump.CgraphDump.Targets.{Item, printed, IsItem, pairs, targets_in-printed}

abbrev pub calls_of : List Item → List Call
calls_of [] = []
calls_of (x ∷ xs) =
    record { target_local_id = x.id; inlined = contains_text x.tail (codes "(inlined)") }
    ∷ calls_of xs

map-call_of : (xs : List Item) → map call_of (pairs xs) ≡ calls_of xs
map-call_of [] = refl
map-call_of (x ∷ xs) =
    ap (◌∷◌ (record { target_local_id = x.id; inlined = contains_text x.tail (codes "(inlined)") }))
      (map-call_of xs)

-- A list of calls, each a symbol with a text behind it that holds no slash and ends in no name, is
-- read as one call for each, in their order, inlined exactly if its text says so.
pub parse_call_list-printed :
    (xs : List Item) → All IsItem xs → parse_call_list (b' ' ∷ printed xs) ≡ calls_of xs
unfolding parse_call_list
parse_call_list-printed xs h = ap (map call_of) (targets_in-printed xs h) ∙ map-call_of xs
