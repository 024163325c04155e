-- ===== src/SourceSearch.antt =====
-- internal/mcp/source_tools.go: which files a query admits, and the search in them.
mod Literal
mod Counted
mod Places
mod Response
mod Tests
use Prim.Native.String.{String}
use herbarium.Base.{
  index, ℕ, ℤ, pos, zero, suc, ◌+◌, ◌-◌, ◌≡◌, Bool, true, false, ◌&&◌, ◌||◌, not, List, [], ◌∷◌,
  ◌++◌, Option, none, some, Bytes, codes, has_prefix, lookup, insert, keys, contains, list_eq,
  nat_eq, list_beq, ltb, leb, ◌==◌, if◌then◌else◌, take, drop, length, sort_by, str_ltb, map,
}
use herbarium.Blobstore.{Tables}
use herbarium.SourceView.{Location, Result, ok, failed, extract_snippet, lines_of, read_blob}

-- `strings.ToLower` on the ASCII letters, the only ones that the code compares with
abbrev lower : ℕ → ℕ
lower c = if leb b'A' c && leb c b'Z' then c + 32 else c

abbrev pub to_lower : Bytes → Bytes
to_lower s = map lower s

-- `filepath.Ext`: from the last dot of the last element, or nothing
abbrev pub after_dot : Option Bytes → Bytes → Option Bytes
after_dot found [] = found
after_dot found (c ∷ s) =
    if c == b'/'
    then after_dot none s
    else if c == b'.'
    then after_dot (some (c ∷ s)) s
    else after_dot found s

abbrev pub ext : Bytes → Bytes
ext path = elim (after_dot none path) [ none ↦ [] | some e ↦ e ]

abbrev one_of : List String → Bytes → Bool
one_of [] s = false
one_of (w ∷ ws) s = list_beq s (codes w) || one_of ws s

unfoldable pub is_csource_ext : Bytes → Bool
is_csource_ext p =
    one_of (".c" ∷ ".cc" ∷ ".cpp" ∷ ".cxx" ∷ ".c++" ∷ ".m" ∷ ".mm" ∷ []) (to_lower (ext p))

unfoldable pub is_header_ext : Bytes → Bool
is_header_ext p = one_of (".h" ∷ ".hh" ∷ ".hpp" ∷ ".hxx" ∷ ".h++" ∷ ".inc" ∷ []) (to_lower (ext p))

unfoldable pub matches_kind : Bytes → Bytes → Bool → Bool
matches_kind kind path is_generated =
    if one_of ("" ∷ "any" ∷ "all" ∷ []) kind
    then true
    else if list_beq kind (codes "generated")
    then is_generated
    else if list_beq kind (codes "source")
    then is_csource_ext path
    else if list_beq kind (codes "header")
    then is_header_ext path
    else true

-- `strings.LastIndex(path, "/")`, from the place `at` on
abbrev pub last_slash : Option ℕ → ℕ → Bytes → Option ℕ
last_slash found at [] = found
last_slash found at (c ∷ s) = last_slash (if c == b'/' then some at else found) (suc at) s

pub search_dir_of : Bytes → Bytes
search_dir_of path = elim (last_slash none 0 path) [
  | none ↦ codes "."
  | some i ↦ if ltb 0 i then take i path else codes "."
]

abbrev pub search_source_scan_limit : ℕ
search_source_scan_limit = 100000

abbrev pub search_source_max_by_file : ℕ
search_source_max_by_file = 200

-- `topCounts`: the entries with the highest counts, ties by key
abbrev pub counts_more : Bytes × ℕ → Bytes × ℕ → Bool
counts_more (k, n) (j, m) = if n == m then str_ltb k j else ltb m n

pub top_counts : List (Bytes × ℕ) → ℕ → List (Bytes × ℕ)
top_counts m n = take n (sort_by counts_more m)

pub record SearchMatch : Type 0 where
  pub location : Location
  pub match_text : Bytes

pub record SearchFile : Type 0 where
  pub path : Bytes
  pub blob_hash : Bytes
  pub absolute_path : Bytes
  pub matches : ℕ

-- What is searched for, and where: the file, the number of context lines, the cap on the rows, and
-- how many matches the files before have had. `find_all` is `FindAllIndex` of the compiled
-- expression, if it is one.
pub record Search : Type 0 where
  pub pattern : Bytes
  pub find_all : Option (Bytes → List (ℕ × ℕ))
  pub path : Bytes
  pub content : Bytes
  pub ctx_lines : ℕ
  pub limit : ℕ
  pub total : ℕ

abbrev is_regex : Search → Bool
is_regex q = elim q.find_all [ none ↦ false | some f ↦ true ]

pub build_search_match : Search → ℕ → ℕ → Bytes → SearchMatch
build_search_match q line col match_text = record {
  location = record {
    path = q.path;
    line = line;
    column = col;
    blob_hash = [];
    snippet = extract_snippet q.content (pos line) q.ctx_lines;
    absolute_path = [];
  };
  match_text = if is_regex q then match_text else [];
}

-- The variables of `searchInBlob`: the rows of the response, `n`, and whether the scan is full.
pub record Scan : Type 0 where
  pub matches : List SearchMatch
  pub n : ℕ
  pub full : Bool

-- a match: its line, its column and its text
pub record Hit : Type 0 where
  pub line : ℕ
  pub column : ℕ
  pub text : Bytes

-- the closure `record`
pub record_hit : Search → Scan → Hit → Scan
record_hit q s h = record {
  matches =
      if ltb (length s.matches) q.limit
      then s.matches ++ build_search_match q h.line h.column h.text ∷ []
      else s.matches;
  n = suc s.n;
  full = leb search_source_scan_limit (q.total + suc s.n);
}

-- the loop over the matches of an expression in one line
pub regex_loop : Search → ℕ → Bytes → Scan → List (ℕ × ℕ) → Scan
regex_loop q line_num line s [] = s
regex_loop q line_num line s ((from, to) ∷ hs) =
    let t : Scan =
      record_hit q s
        (record { line = line_num; column = from + 1; text = take (to - from) (drop from line) }) in
    let rest = regex_loop q line_num line t hs in if t.full then t else rest

-- the loop over the places of the pattern in one line, from `start` on
pub literal_loop : Search → ℕ → ℕ → Bytes → ℕ → Scan → Scan
literal_loop q zero line_num line start s = s
literal_loop q (suc fuel) line_num line start s = elim (index (drop start line) q.pattern) [
  | none ↦ s
  | some idx ↦
      let t : Scan =
        record_hit q s (record { line = line_num; column = start + idx + 1; text = q.pattern }) in
      let rest = literal_loop q fuel line_num line (start + idx + length q.pattern) t in
      if t.full then t else rest
]

abbrev pub search_with : Option (Bytes → List (ℕ × ℕ)) → Search → ℕ → Bytes → Scan → Scan
search_with (some f) q line_num line s = regex_loop q line_num line s (f line)
search_with none q line_num line s =
    literal_loop q (suc (length line + search_source_scan_limit)) line_num line 0 s

abbrev pub search_line : Search → ℕ → Bytes → Scan → Scan
search_line q line_num line s = search_with q.find_all q line_num line s

pub line_loop : Search → ℕ → Scan → List Bytes → Scan
line_loop q line_num s [] = s
line_loop q line_num s (line ∷ lines) =
    let t : Scan = search_line q line_num line s in
    let rest = line_loop q (suc line_num) t lines in if t.full then t else rest

pub search_in_blob : Search → List SearchMatch → Scan
search_in_blob q matches =
    line_loop q 1 (record { matches = matches; n = 0; full = false }) (lines_of q.content)
