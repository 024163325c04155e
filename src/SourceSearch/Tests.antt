-- ===== src/SourceSearch/Tests.antt =====
-- The theorems of the search at a file of two lines, and at two files of which one matches twice.
use herbarium.Base.{
  List, index, ◌≤◌, ◌+◌, ◌-◌, ◌≡◌, refl, arith, true, false, [], ◌∷◌, ◌++◌, none, Bytes, codes, map,
  length, take, sort_by,
}
use herbarium.SourceView.{split_lines, drop_trailing, newline, Result, ok, failed, blob_not_found}
use herbarium.SourceSearch.{
  Hit, Scan, Search, search_with, line_loop, literal_loop, record_hit, search_in_blob,
  search_source_scan_limit, matches_kind, is_header_ext, search_dir_of, top_counts,
}
use herbarium.SourceSearch.Literal.{literal_hits}
use herbarium.SourceSearch.Places.{AreMatches, search_with-matches}
use herbarium.SourceSearch.Counted.{hits_from, all_hits, row_of}
use herbarium.SourceSearch.Response.{Request, Sources}

abbrev overlapping : Bytes
overlapping = codes "aaaba"

abbrev two_lines : Bytes
two_lines = codes "xab" ++ (newline ∷ codes "abab")

abbrev for_ab : Search
for_ab = record {
  pattern = codes "ab";
  find_all = none;
  path = codes "a.c";
  content = two_lines;
  ctx_lines = 0;
  limit = 2;
  total = 0;
}

header_kind : matches_kind (codes "header") (codes "dir.c/a.HPP") false ≡ true
unfolding matches_kind is_header_ext
header_kind = refl

dir_of : search_dir_of (codes "src/a/b.c") ≡ codes "src/a"
unfolding search_dir_of
dir_of = refl

top_two :
    top_counts ((codes "a", 1) ∷ (codes "c", 3) ∷ (codes "b", 3) ∷ []) 2
    ≡ (codes "b", 3) ∷ (codes "c", 3) ∷ []
unfolding top_counts sort_by
top_two = refl

three_reach_it :
    search_source_scan_limit ≤ 99998 + length (all_hits (record for_ab { total = 99998 }))
unfolding hits_from literal_hits index split_lines drop_trailing
three_reach_it = omega arith

-- an empty pattern fills the scan
empty_pattern : (search_in_blob (record for_ab { pattern = []; total = 99998 }) []).full ≡ true
unfolding search_in_blob line_loop literal_loop record_hit index split_lines drop_trailing
empty_pattern = refl

abbrev for_aa : Search
for_aa = record for_ab { pattern = codes "aa" }

abbrev no_scan : Scan
no_scan = record { matches = []; n = 0; full = false }

not_full : (search_with none for_aa 1 overlapping no_scan).full ≡ false
unfolding literal_loop record_hit index
not_full = refl

search_with-matches_example :
    (hs : List Hit) × AreMatches (codes "aa") 1 overlapping hs
    × ((search_with none for_aa 1 overlapping no_scan).n ≡ 0 + length hs)
    × ((search_with none for_aa 1 overlapping no_scan).matches
        ≡ [] ++ take (2 - 0) (map (row_of for_aa) hs))
search_with-matches_example =
    search_with-matches for_aa 1 overlapping no_scan (omega arith) not_full

-- the files before have almost filled the scan
abbrev almost_full : Search
almost_full = record for_ab { total = 99998 }

abbrev blob : Bytes → Result Bytes
blob (c ∷ h) = ok two_lines
blob [] = failed (blob_not_found [])

abbrev request : Request
request = record {
  pattern = codes "ab";
  find_all = none;
  wanted = none;
  prefix = [];
  kind = [];
  include_external = false;
  ctx_lines = 0;
  limit = 2;
}

abbrev sources : Sources
sources = record {
  sources = (codes "a.c", codes "h1") ∷ (codes "b.c", []) ∷ [];
  generated = (codes "a.c", codes "h1") ∷ [];
  external = [];
}
