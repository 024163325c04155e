-- ===== src/SourceView/Tests.antt =====
-- The theorems of the views at a file of three lines, with the identity for the hash and a marker
-- byte for the compression.
use herbarium.Base.{
  ◌≤◌, ◌+◌, ℕ, pos, ◌≡◌, refl, false, List, [], ◌∷◌, ◌++◌, Option, none, some, Bytes, codes, length,
  get_elem?, arith, ltb, if◌then◌else◌,
}
use herbarium.Blobstore.{Codec}
use herbarium.SourceView.{
  Snippet, ok, newline, split_lines, drop_trailing, lines_of, extract_snippet, slice_lines,
  read_source_by_path,
}
use herbarium.SourceView.Windows.{slice_lines_lem, extract_snippet_lem}
use herbarium.SourceView.Stored.{
  Call, call_put, call_put_external, call_put_generated, calls, stores, no_tables, no_store, read,
  read_source_by_path-calls,
}

abbrev three_lines : Bytes
three_lines = codes "ab" ++ (newline ∷ (newline ∷ (codes "c" ++ (newline ∷ []))))

abbrev identity_codec : Codec
identity_codec = record { hash = λ c. c; encode_all = λ c. 1 ∷ c }

abbrev unmarked : Bytes → Option Bytes
unmarked [] = none
unmarked (x ∷ c) = some c

abbrev three_calls : List Call
three_calls =
    call_put (codes "a.c") (codes "x") false
    ∷ call_put_generated (codes "a.c") (codes "y")
    ∷ call_put_external (codes "/b.h") (codes "x")
    ∷ []

slice_lines_lem_example :
    ((i : ℕ)
      → get_elem? (split_lines (slice_lines three_lines (pos 2) (pos 3)).0) i
        ≡ (if ltb i 2 then get_elem? (lines_of three_lines) (1 + i) else none))
    × ((slice_lines three_lines (pos 2) (pos 3)).1 ≡ 3)
unfolding slice_lines split_lines drop_trailing
slice_lines_lem_example = slice_lines_lem three_lines 2 3 (omega arith) (omega arith) (omega arith)

extract_snippet_lem_example :
    (w : Snippet) × (extract_snippet three_lines (pos 2) 1 ≡ some w)
    × (1 ≤ w.start_line)
    × (w.start_line ≤ 2)
    × (2 ≤ w.start_line + 1)
    × (2 ≤ w.end_line)
    × (w.end_line ≤ 2 + 1)
    × (w.end_line ≤ length (lines_of three_lines))
    × (w.text ≡ (slice_lines three_lines (pos w.start_line) (pos w.end_line)).0)
unfolding split_lines drop_trailing
extract_snippet_lem_example = extract_snippet_lem three_lines 2 1 (omega arith) (omega arith)

read_source_by_path-calls_example :
    read_source_by_path unmarked (calls identity_codec no_tables three_calls) (codes "a.c")
    ≡ read identity_codec (stores no_store three_calls) (codes "a.c")
read_source_by_path-calls_example =
    read_source_by_path-calls identity_codec unmarked (λ c. refl) (λ c d e. e) three_calls
      (codes "a.c")

-- the source is read before the generated one, and the blob that both share is found
read_first :
    read identity_codec (stores no_store three_calls) (codes "a.c") ≡ ok (codes "x", codes "x")
read_first = refl
