-- ===== src/GccDump/IcfFolds/Tests.antt =====
-- A dump where two functions were folded into one, and a call that counts for none.
use herbarium.Base.{◌≡◌, refl, List, [], ◌∷◌, Bytes, codes, sort_by, ◌&&◌}
use herbarium.GccDump.CgraphDump.{target_at}
use herbarium.GccDump.IcfFolds.{
  introduced, analyzing, alias_calls, fold_lines, groups_of, parse_icf, add_losers,
}
use herbarium.GccDump.IcfFolds.Pairs.{is_folded, introduces, calls_alias, parse_icf-is_folded}

abbrev lines : List Bytes
lines =
    codes "Introduced new external node (sum.localalias/9)."
    ∷ codes "Analyzing function: total/4"
    ∷ codes "  _1 = sum.localalias (a_2(D));"
    ∷ codes "Analyzing function: add/3"
    ∷ codes "  _1 = sum.localalias (a_2(D)); _2 = other.localalias (a_2(D));"
    ∷ codes "Analyzing function: sum/2"
    ∷ codes "  _1 = sum.localalias (a_2(D));"
    ∷ []

parsed : parse_icf lines ≡ record {
  groups =
      record { winner_name = codes "sum"; loser_names = codes "add" ∷ codes "total" ∷ [] } ∷ [];
}
unfolding introduced analyzing alias_calls fold_lines groups_of parse_icf sort_by target_at
    add_losers
parsed = refl

parse_icf-is_folded_example :
    is_folded (parse_icf lines).groups (codes "sum") (codes "add")
    ≡ (introduces lines (codes "sum") && calls_alias [] lines (codes "sum") (codes "add"))
parse_icf-is_folded_example = parse_icf-is_folded lines (codes "sum") (codes "add")
