-- ===== src/SourceSearch/Response.antt =====
-- `handleSearchSource`: the files that the request admits, searched one after the other, and the
-- summary of what was found.
pub mod Sound
use herbarium.Base.{
  ℕ, suc, ◌+◌, Bool, true, false, ◌&&◌, not, List, [], ◌∷◌, ◌++◌, Option, none, some, Bytes,
  has_prefix, contains, insert, list_eq, nat_eq, ltb, ◌==◌, if◌then◌else◌, length, count_at, map,
}
use herbarium.SourceView.{Result, ok, failed}
use herbarium.SourceSearch.{
  Search, Scan, SearchMatch, SearchFile, matches_kind, search_dir_of, search_in_blob, top_counts,
  search_source_max_by_file,
}

-- The request, with its limits clamped. `wanted` are the files of the target, if one is named.
pub record Request : Type 0 where
  pub pattern : Bytes
  pub find_all : Option (Bytes → List (ℕ × ℕ))
  pub wanted : Option (List Bytes)
  pub prefix : Bytes
  pub kind : Bytes
  pub include_external : Bool
  pub ctx_lines : ℕ
  pub limit : ℕ

-- the variables of the handler
pub record SearchState : Type 0 where
  pub matches : List SearchMatch
  pub files : List SearchFile
  pub by_file : List (Bytes × ℕ)
  pub by_dir : List (Bytes × ℕ)
  pub total : ℕ
  pub files_scanned : ℕ
  pub scan_full : Bool

abbrev is_wanted : Option (List Bytes) → Bytes → Bool
is_wanted none path = true
is_wanted (some files) path = contains files path

abbrev pub is_no_string : Bytes → Bool
is_no_string [] = true
is_no_string (c ∷ s) = false

pub admits : Request → Bytes → Bool → Bool
admits req path is_generated =
    not (not (is_no_string req.prefix) && not (has_prefix path req.prefix))
    && is_wanted req.wanted path
    && matches_kind req.kind path is_generated

abbrev pub search_of : Request → SearchState → Bytes → Bytes → Search
search_of req found path content = record {
  pattern = req.pattern;
  find_all = req.find_all;
  path = path;
  content = content;
  ctx_lines = req.ctx_lines;
  limit = req.limit;
  total = found.total;
}

-- a file with `n` matches is counted, and listed if it is not yet
abbrev pub count_file : SearchState → Bytes → Bytes → Bytes → ℕ → SearchState
count_file found path hash absolute n = record found {
  files =
      if count_at path found.by_file == 0
      then found.files
        ++ record { path = path; blob_hash = hash; absolute_path = absolute; matches = 0 } ∷ []
      else found.files;
  by_file = insert path (count_at path found.by_file + n) found.by_file;
  by_dir =
      insert (search_dir_of path) (count_at (search_dir_of path) found.by_dir + n) found.by_dir;
  total = found.total + n;
}

-- what the scan of a file adds
abbrev pub add_scan : SearchState → Bytes → Bytes → Bytes → Scan → SearchState
add_scan found path hash absolute s =
    let counted = if ltb 0 s.n then count_file found path hash absolute s.n else found in
    record counted {
      matches = s.matches;
      files_scanned = suc found.files_scanned;
      scan_full = s.full;
    }

abbrev pub Rows : Type 0
Rows = List (Bytes × Bytes)

-- `read` is `readBlob`, and `absolute_path_for` joins a path to the project's root.
module _ (read : Bytes → Result Bytes) (absolute_path_for : Bytes → Bytes) (req : Request) where
  abbrev pub add_content : SearchState → Bytes → Bytes → Result Bytes → SearchState
  add_content found path hash (failed e) = found
  add_content found path hash (ok content) =
      add_scan found path hash (absolute_path_for path)
        (search_in_blob (search_of req found path content) found.matches)

  abbrev pub search_row : Bool → SearchState → Bytes × Bytes → SearchState
  search_row is_generated found (path, hash) =
      if admits req path is_generated then add_content found path hash (read hash) else found

  pub row_loop : Bool → SearchState → Rows → SearchState
  row_loop is_generated found [] = found
  row_loop is_generated found (r ∷ rows) =
      let next : SearchState = search_row is_generated found r in
      let rest = row_loop is_generated next rows in if next.scan_full then next else rest

  pub table_loop : SearchState → List (Rows × Bool) → SearchState
  table_loop found [] = found
  table_loop found ((rows, is_generated) ∷ tables) =
      let rest = table_loop (row_loop is_generated found rows) tables in
      if found.scan_full then found else rest

pub record Sources : Type 0 where
  pub sources : Rows
  pub generated : Rows
  pub external : Rows

abbrev no_target : Option (List Bytes) → Bool
no_target none = true
no_target (some files) = false

-- the tables that are searched, each with the flag for its rows
pub tables_of : Request → Sources → List (Rows × Bool)
tables_of req db =
    (db.sources, false)
    ∷ ((if no_target req.wanted then (db.generated, true) ∷ [] else [])
        ++ (if req.include_external && no_target req.wanted then (db.external, false) ∷ [] else []))

pub record SearchSummary : Type 0 where
  pub total : ℕ
  pub returned : ℕ
  pub files_with_matches : ℕ
  pub matches_by_file : List (Bytes × ℕ)
  pub matches_by_directory : List (Bytes × ℕ)

pub record SearchSourceResponse : Type 0 where
  pub summary : SearchSummary
  pub files : List SearchFile
  pub matches : List SearchMatch
  pub truncated : Bool
  pub scan_truncated : Bool
  pub files_scanned : ℕ

abbrev pub nothing_found : SearchState
nothing_found = record {
  matches = [];
  files = [];
  by_file = [];
  by_dir = [];
  total = 0;
  files_scanned = 0;
  scan_full = false;
}

abbrev pub with_matches : List (Bytes × ℕ) → SearchFile → SearchFile
with_matches by_file f = record f { matches = count_at f.path by_file }

pub search_response : SearchState → SearchSourceResponse
search_response found = record {
  summary = record {
    total = found.total;
    returned = length found.matches;
    files_with_matches = length found.files;
    matches_by_file = top_counts found.by_file search_source_max_by_file;
    matches_by_directory = top_counts found.by_dir search_source_max_by_file;
  };
  files = map (with_matches found.by_file) found.files;
  matches = found.matches;
  truncated = ltb (length found.matches) found.total;
  scan_truncated = found.scan_full;
  files_scanned = found.files_scanned;
}

pub search_tables :
    (Bytes → Result Bytes) → (Bytes → Bytes) → Request → Sources → SearchSourceResponse
search_tables read absolute_path_for req db =
    search_response (table_loop read absolute_path_for req nothing_found (tables_of req db))

-- `none` is the error for an empty pattern.
pub search_source :
    (Bytes → Result Bytes) → (Bytes → Bytes) → Request → Sources → Option SearchSourceResponse
search_source read absolute_path_for req db =
    if is_no_string req.pattern then none else some (search_tables read absolute_path_for req db)
