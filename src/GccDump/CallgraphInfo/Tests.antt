-- ===== src/GccDump/CallgraphInfo/Tests.antt =====
-- A ci dump of three lines.
use herbarium.Base.{◌≡◌, refl, arith, index, false, List, [], ◌∷◌, ◌++◌, Bytes, codes}
use herbarium.SourceView.{split_lines}
use herbarium.GccDump.CgraphDump.{trim_right, trim_white, atoi}
use herbarium.GccDump.CallgraphInfo.{
  quoted, field_at, fields_in, replace_escape, location_tail, file_location, stack_usage,
  dynamic_objects, parse_ci_node, parse_ci_edge, ci_lines, parse_ci,
}
use herbarium.GccDump.CallgraphInfo.Locations.{position}
use herbarium.GccDump.CallgraphInfo.Edges.{printed_edge, edge_at, parse_ci-edge}

abbrev lines : List Bytes
lines =
    codes "graph: { title: \"src/sum.c\""
    ∷ codes
        "node: { title: \"sum\" label: \"sum\\nsrc/sum.c:12:5\\n48 bytes (static)\\n1 dynamic objects\" }"
    ∷ []

parsed : parse_ci lines ≡ record {
  title = codes "src/sum.c";
  nodes =
      (
        codes "sum",
        record {
          name = codes "sum";
          decl_file = codes "src/sum.c";
          decl_line = 12;
          decl_column = 5;
          stack_bytes = 48;
          stack_kind = codes "static";
          dynamic_objs = 1;
          is_external = false;
          is_indirect_placeholder = false;
        },
      )
      ∷ [];
  edges = [];
}
unfolding quoted field_at fields_in replace_escape location_tail file_location stack_usage
    dynamic_objects parse_ci_node parse_ci_edge ci_lines parse_ci trim_right trim_white split_lines
    index
parsed = refl

parse_ci-edge_example :
    (parse_ci (
      lines
      ++ printed_edge
          (codes "main")
          (codes "sum")
          (codes "c:/main.c" ++ position (codes "17") (codes "9"))
        ∷ [])).edges
    ≡ (parse_ci lines).edges
      ++ edge_at
          (codes "main")
          (codes "sum")
          (codes "c:/main.c")
          (atoi (codes "17"))
          (atoi (codes "9"))
        ∷ []
parse_ci-edge_example =
    parse_ci-edge lines (codes "main") (codes "sum") (codes "c:/main.c") (codes "17") (codes "9")
      refl refl refl (record { digits = refl; some_digit = omega arith })
      (record { digits = refl; some_digit = omega arith })
