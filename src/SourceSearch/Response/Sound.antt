-- ===== src/SourceSearch/Response/Sound.antt =====
-- The counts of a search add up.
use herbarium.Base.{
  ℕ, ◌+◌, ◌≡◌, true, List, [], ◌∷◌, Bytes, if◌then◌else◌, ltb, length, keys, all_distinct, list_eq,
  nat_eq, sum_counts, Positive,
}
use herbarium.SourceSearch.{Search, Scan, SearchFile}
use herbarium.SourceSearch.Response.{SearchState, SearchSourceResponse}

abbrev pub lesser : ℕ → ℕ → ℕ
lesser a b = if ltb a b then a else b

abbrev pub paths_of : List SearchFile → List Bytes
paths_of [] = []
paths_of (f ∷ fs) = f.path ∷ paths_of fs

abbrev pub file_counts : List SearchFile → List (Bytes × ℕ)
file_counts [] = []
file_counts (f ∷ fs) = (f.path, f.matches) ∷ file_counts fs

-- the rows are the matches so far, up to the limit
abbrev IsFilled : Search → Scan → Type 0
IsFilled q s = length s.matches ≡ lesser (q.total + s.n) q.limit

-- what holds of the variables of the handler after each file
abbrev IsSound : ℕ → SearchState → Type 0
IsSound limit found =
    (length found.matches ≡ lesser found.total limit)
    × (paths_of found.files ≡ keys found.by_file)
    × (all_distinct (keys found.by_file) ≡ true)
    × Positive found.by_file
    × (sum_counts found.by_file ≡ found.total)
    × (sum_counts found.by_dir ≡ found.total)

-- What the summary of an answer says is so of its files and rows.
abbrev pub IsAccurate : ℕ → SearchSourceResponse → Type 0
IsAccurate limit r =
    (all_distinct (keys (file_counts r.files)) ≡ true)
    × Positive (file_counts r.files)
    × (sum_counts (file_counts r.files) ≡ r.summary.total)
    × (r.summary.files_with_matches ≡ length r.files)
    × (r.summary.returned ≡ length r.matches)
    × (r.summary.returned ≡ lesser r.summary.total limit)
    × (r.truncated ≡ ltb limit r.summary.total)
