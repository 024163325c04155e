-- ===== src/SourceView.antt =====
-- internal/mcp/location.go: the content behind a path, and windows of its lines.
mod Lines
mod Windows
mod Stored
mod Tests
use herbarium.Base.{
  ℕ, ℤ, pos, negsuc, zero, suc, ◌+◌, ◌-◌, ◌≡◌, Bool, true, false, ◌&&◌, ◌||◌, not, List, [], ◌∷◌,
  ◌++◌, Option, none, some, Bytes, codes, has_prefix, lookup, list_eq, nat_eq, ltb, leb, ◌==◌,
  if◌then◌else◌, take, drop, length, positive_part, list_beq,
}
use herbarium.Blobstore.{Blob, SourceRow, Tables}

abbrev pub snippet_context : ℕ
snippet_context = 5

pub record Snippet : Type 0 where
  pub start_line : ℕ
  pub end_line : ℕ
  pub text : Bytes

pub record Location : Type 0 where
  pub path : Bytes
  pub line : ℕ
  pub column : ℕ
  pub blob_hash : Bytes
  pub snippet : Option Snippet
  pub absolute_path : Bytes

abbrev pub row_limit_max : ℕ
row_limit_max = 2000

-- `clampRange`, whose bounds are natural numbers wherever it is called
pub clamp_range : ℤ → ℕ → ℕ → ℕ
clamp_range (negsuc n) lo hi = lo
clamp_range (pos v) lo hi = if ltb v lo then lo else if ltb hi v then hi else v

-- the argument that the request has, or the default
abbrev pub get_int : Option ℤ → ℕ → ℤ
get_int none default = pos default
get_int (some v) default = v

pub row_limit : Option ℤ → ℕ → ℕ
row_limit asked default = clamp_range (get_int asked default) 1 row_limit_max

abbrev pub newline : ℕ
newline = b'\n'

abbrev pub onto_first : ℕ → List Bytes → List Bytes
onto_first c [] = (c ∷ []) ∷ []
onto_first c (l ∷ ls) = (c ∷ l) ∷ ls

-- `bytes.Split(content, []byte{'\n'})`
unfoldable pub split_lines : Bytes → List Bytes
split_lines [] = [] ∷ []
split_lines (c ∷ s) =
    let rest = split_lines s in if c == newline then [] ∷ rest else onto_first c rest

-- `bytes.Join(lines, []byte{'\n'})`
pub join_lines : List Bytes → Bytes
join_lines [] = []
join_lines (l ∷ []) = l
join_lines (l ∷ m ∷ ls) = l ++ (newline ∷ join_lines (m ∷ ls))

-- A trailing newline gives one extra empty entry; drop it.
unfoldable pub drop_trailing : List Bytes → List Bytes
drop_trailing [] = []
drop_trailing ([] ∷ []) = []
drop_trailing ((c ∷ l) ∷ []) = (c ∷ l) ∷ []
drop_trailing (l ∷ m ∷ ls) = l ∷ drop_trailing (m ∷ ls)

abbrev pub lines_of : Bytes → List Bytes
lines_of content = drop_trailing (split_lines content)

abbrev pub max : ℕ → ℕ → ℕ
max a b = if ltb a b then b else a

abbrev pub min : ℕ → ℕ → ℕ
min a b = if ltb b a then b else a

-- `lines[start-1:end]`
abbrev pub slice : List Bytes → ℕ → ℕ → List Bytes
slice lines start end = take (end - (start - 1)) (drop (start - 1) lines)

abbrev snippet_of : List Bytes → ℕ → ℕ → Option Snippet
snippet_of lines start end =
    if ltb end start
    then none
    else some
        (record { start_line = start; end_line = end; text = join_lines (slice lines start end) })

pub extract_snippet : Bytes → ℤ → ℕ → Option Snippet
extract_snippet content line context =
    let at = positive_part line in
    let lines = lines_of content in
    if at == 0
    then none
    else if length lines == 0
    then none
    else snippet_of lines (max (at - context) 1) (min (at + context) (length lines))

-- the text, and the number of lines of the file
pub slice_lines : Bytes → ℤ → ℤ → Bytes × ℕ
slice_lines content start end =
    let lines = lines_of content in
    let total = length lines in
    let first = if positive_part start == 0 then 1 else positive_part start in
    let last =
      if positive_part end == 0 || ltb total (positive_part end)
      then total
      else positive_part end in
    if total == 0
    then ([], 0)
    else if ltb last first
    then ([], total)
    else (join_lines (slice lines first last), total)

-- The errors: `sql.ErrNoRows`, and those that carry a text. Faults of SQLite are not modelled.
pub data ReadError : Type 0 where
  no_rows : ReadError
  blob_not_found : Bytes → ReadError
  zstd_decode : Bytes → ReadError
  no_indexed_source : Bytes → ReadError

pub data Result {ℓ} (A : Type ℓ) : Type ℓ where
  ok : A → Result A
  failed : ReadError → Result A

-- `decode` is the zstd reader.
module _ (decode : Bytes → Option Bytes) (db : Tables) where
  pub read_blob : Bytes → Result Bytes
  read_blob hash = elim (lookup hash db.blobs) [
    | none ↦ failed (blob_not_found hash)
    | some b ↦ elim (decode b.content) [ none ↦ failed (zstd_decode hash) | some raw ↦ ok raw ]
  ]

  -- The argument is what the query for the `blob_hash` gives. The result is the content and the hash.
  pub read_by_column : Option Bytes → Result (Bytes × Bytes)
  read_by_column none = failed no_rows
  read_by_column (some hash) = elim (read_blob hash) [
    | ok content ↦ ok (content, hash)
    | failed e ↦ failed e
  ]

  abbrev hash_of_source : Bytes → Option Bytes
  hash_of_source path = elim (lookup path db.sources) [ none ↦ none | some r ↦ some r.blob_hash ]

  -- the second lookup, where the first found no row
  pub read_generated_source : Bytes → Result (Bytes × Bytes)
  read_generated_source path = elim (read_by_column (lookup path db.generated_sources)) [
    | ok found ↦ ok found
    | failed no_rows ↦ failed (no_indexed_source path)
    | failed e ↦ failed e
  ]

  pub read_source_by_path : Bytes → Result (Bytes × Bytes)
  read_source_by_path path =
      if has_prefix path (codes "/")
      then read_by_column (lookup path db.external_sources)
      else elim (read_by_column (hash_of_source path)) [
        | ok found ↦ ok found
        | failed no_rows ↦ read_generated_source path
        | failed e ↦ failed e
      ]

  abbrev pub is_empty_string : Bytes → Bool
  is_empty_string [] = true
  is_empty_string (c ∷ s) = false

  -- `absolute` is filepath.Join with the project's root where the server has one, for a path that
  -- is not absolute.
  module _ (absolute : Bytes → Option Bytes) where
    abbrev with_absolute : Location → Location
    with_absolute loc = elim (absolute loc.path) [
      | none ↦ loc
      | some full ↦ record loc { absolute_path = full }
    ]

    abbrev with_hash : Location → Location
    with_hash loc =
        if is_empty_string loc.blob_hash
        then elim (hash_of_source loc.path) [
          | none ↦ loc
          | some hash ↦ record loc { blob_hash = hash }
        ]
        else loc

    abbrev with_snippet : Location → Location
    with_snippet loc = elim (read_blob loc.blob_hash) [
      | failed e ↦ loc
      | ok content ↦ record loc { snippet = extract_snippet content (pos loc.line) snippet_context }
    ]

    pub enrich_location : Location → Bool → Location
    enrich_location loc include_snippet =
        let found = with_hash (with_absolute loc) in
        if is_empty_string loc.path
        then loc
        else if not include_snippet || found.line == 0 || is_empty_string found.blob_hash
        then found
        else with_snippet found
