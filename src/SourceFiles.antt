-- ===== src/SourceFiles.antt =====
-- internal/mcp/source_tools.go: the files that the index has a content for, and the targets that
-- list them.
mod Kinds
mod Membership
mod Tests
use herbarium.Base.{
  ℕ, Bool, true, false, ◌&&◌, not, List, [], ◌∷◌, ◌++◌, Option, none, some, Bytes, has_prefix,
  lookup, insert, contains, list_eq, nat_eq, list_beq, if◌then◌else◌, length, map,
}
use herbarium.SourceSearch.{matches_kind, to_lower}

-- a row of one of the three queries, with the size of its blob, in the order of the query
pub record IndexedFile : Type 0 where
  pub path : Bytes
  pub blob_hash : Bytes
  pub size : ℕ
  pub is_generated : Bool

pub record SourceFile : Type 0 where
  pub path : Bytes
  pub blob_hash : Bytes
  pub size : ℕ
  pub is_generated : Bool
  pub targets : List Bytes

-- The rows of the queries. `members` has the rows of target_sources, each a file with the name of
-- the target, in the order of the names.
pub record Indexed : Type 0 where
  pub sources : List IndexedFile
  pub generated : List IndexedFile
  pub external : List IndexedFile
  pub members : List (Bytes × Bytes)

pub record ListRequest : Type 0 where
  pub target : Bytes
  pub prefix : Bytes
  pub kind : Bytes
  pub include_external : Bool

abbrev pub is_no_text : Bytes → Bool
is_no_text [] = true
is_no_text (c ∷ s) = false

-- the files of the rows whose target has the name
abbrev pub target_files : Bytes → List (Bytes × Bytes) → List Bytes
target_files target [] = []
target_files target ((file, name) ∷ rows) =
    let rest = target_files target rows in if list_beq name target then file ∷ rest else rest

abbrev unless_empty : List Bytes → Option (List Bytes)
unless_empty [] = none
unless_empty (f ∷ fs) = some (f ∷ fs)

-- `none` is the error for a target without files.
abbrev pub files_for_target : Bytes → List (Bytes × Bytes) → Option (List Bytes)
files_for_target target rows = unless_empty (target_files target rows)

abbrev pub TargetsByFile : Type 0
TargetsByFile = List (Bytes × List Bytes)

abbrev pub or_no_targets : Option (List Bytes) → List Bytes
or_no_targets none = []
or_no_targets (some names) = names

abbrev pub targets_at : Bytes → TargetsByFile → List Bytes
targets_at file out = or_no_targets (lookup file out)

abbrev pub membership_loop : TargetsByFile → List (Bytes × Bytes) → TargetsByFile
membership_loop out [] = out
membership_loop out ((file, name) ∷ rows) =
    membership_loop (insert file (targets_at file out ++ name ∷ []) out) rows

abbrev pub targets_by_file : List (Bytes × Bytes) → TargetsByFile
targets_by_file rows = membership_loop [] rows

abbrev pub has_list_prefix : ListRequest → Bytes → Bool
has_list_prefix req path = not (not (is_no_text req.prefix) && not (has_prefix path req.prefix))

abbrev pub in_wanted : Option (List Bytes) → Bytes → Bool
in_wanted none path = true
in_wanted (some files) path = contains files path

abbrev pub file_of : List Bytes → IndexedFile → SourceFile
file_of targets r = record {
  path = r.path;
  blob_hash = r.blob_hash;
  size = r.size;
  is_generated = r.is_generated;
  targets = targets;
}

pub source_loop :
    ListRequest → Option (List Bytes) → TargetsByFile → List IndexedFile → List SourceFile
source_loop req wanted by_file [] = []
source_loop req wanted by_file (r ∷ rows) =
    let rest = source_loop req wanted by_file rows in
    if has_list_prefix req r.path
      && in_wanted wanted r.path
      && matches_kind (to_lower req.kind) r.path r.is_generated
    then file_of (targets_at r.path by_file) r ∷ rest
    else rest

-- the loops over the other two tables, each with the flag that it sets
pub unlisted_loop : ListRequest → Bool → List IndexedFile → List SourceFile
unlisted_loop req is_generated [] = []
unlisted_loop req is_generated (r ∷ rows) =
    let rest = unlisted_loop req is_generated rows in
    if has_list_prefix req r.path && matches_kind (to_lower req.kind) r.path is_generated
    then file_of [] (record r { is_generated = is_generated }) ∷ rest
    else rest

pub record ListSourceFilesResponse : Type 0 where
  pub files : List SourceFile
  pub total : ℕ

abbrev pub without_target : ListRequest → Indexed → List SourceFile
without_target req db =
    unlisted_loop req true db.generated
    ++ (if req.include_external then unlisted_loop req false db.external else [])

abbrev pub list_response : List SourceFile → ListSourceFilesResponse
list_response files = record { files = files; total = length files }

-- `none` is the error of `filesForTarget`.
pub list_source_files : ListRequest → Indexed → Option ListSourceFilesResponse
list_source_files req db =
    let by_file = targets_by_file db.members in
    if is_no_text req.target
    then some (list_response (source_loop req none by_file db.sources ++ without_target req db))
    else elim (files_for_target req.target db.members) [
      | none ↦ none
      | some files ↦ some (list_response (source_loop req (some files) by_file db.sources))
    ]
