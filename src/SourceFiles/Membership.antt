-- ===== src/SourceFiles/Membership.antt =====
-- The answer of list_source_files by the rows of target_sources, without the maps that the code
-- builds from them.
use herbarium.Base.{
  ◌≡◌, refl, sym, ap, ◌∙◌, inl, inr, arith, Bool, true, false, not, ◌&&◌, ◌||◌, has_prefix, length,
  List, [], ◌∷◌, ◌++◌, Option, none, some, Bytes, if◌then◌else◌, Bool-cases, lookup, insert,
  lookup-insert, contains, list_beq, list_beq_iff, list_eq, nat_eq, append-nil, append_assoc,
  none_ne, some_injective, Option-cases,
}
use herbarium.SourceSearch.{to_lower}
use herbarium.SourceFiles.Kinds.{of_kind, matches_kind-of_kind}
use herbarium.SourceFiles.{
  IndexedFile, SourceFile, Indexed, ListRequest, ListSourceFilesResponse, is_no_text, target_files,
  files_for_target, TargetsByFile, or_no_targets, targets_at, membership_loop, targets_by_file,
  has_list_prefix, in_wanted, source_loop, unlisted_loop, without_target, list_source_files,
}

-- the targets that list a file
abbrev pub targets_of : Bytes → List (Bytes × Bytes) → List Bytes
targets_of path [] = []
targets_of path ((file, name) ∷ rows) =
    let rest = targets_of path rows in if list_beq file path then name ∷ rest else rest

-- whether a target lists a file
abbrev pub lists : List (Bytes × Bytes) → Bytes → Bytes → Bool
lists rows target path = contains (targets_of path rows) target

-- whether there are rows of a target
abbrev pub has_rows : List (Bytes × Bytes) → Bytes → Bool
has_rows [] target = false
has_rows ((file, name) ∷ rows) target = list_beq name target || has_rows rows target

-- whether a path begins as the request asks
abbrev starts_well : ListRequest → Bytes → Bool
starts_well req path = is_no_text req.prefix || has_prefix path req.prefix

-- the sources that the request admits, each with the targets that list it
abbrev pub listed_sources : ListRequest → List (Bytes × Bytes) → List IndexedFile → List SourceFile
listed_sources req rows [] = []
listed_sources req rows (r ∷ rs) =
    let rest = listed_sources req rows rs in
    if starts_well req r.path
      && (is_no_text req.target || lists rows req.target r.path)
      && of_kind (to_lower req.kind) r.path r.is_generated
    then record {
      path = r.path;
      blob_hash = r.blob_hash;
      size = r.size;
      is_generated = r.is_generated;
      targets = targets_of r.path rows;
    }
      ∷ rest
    else rest

-- The files of another table, if they are asked for: they are in no target, and all of them are
-- generated or none is.
abbrev pub others : ListRequest → Bool → Bool → List IndexedFile → List SourceFile
others req asked all_generated [] = []
others req asked all_generated (r ∷ rs) =
    let rest = others req asked all_generated rs in
    if asked && starts_well req r.path && of_kind (to_lower req.kind) r.path all_generated
    then record {
      path = r.path;
      blob_hash = r.blob_hash;
      size = r.size;
      is_generated = all_generated;
      targets = [];
    }
      ∷ rest
    else rest

-- The generated files are asked for where no target is named, the external ones where the request
-- says so too.
abbrev pub all_listed : ListRequest → Indexed → List SourceFile
all_listed req db =
    listed_sources req db.members db.sources
    ++ (others req (is_no_text req.target) true db.generated
        ++ others req (is_no_text req.target && req.include_external) false db.external)

abbrev pub listing : ListRequest → Indexed → Option ListSourceFilesResponse
listing req db =
    if not (is_no_text req.target) && not (has_rows db.members req.target)
    then none
    else some (record { files = all_listed req db; total = length (all_listed req db) })

starts_well_lem :
    (req : ListRequest) (path : Bytes) → has_list_prefix req path ≡ starts_well req path
starts_well_lem req path = ground arith

others-asked :
    (req : ListRequest) (all_generated : Bool) (rows : List IndexedFile)
    → unlisted_loop req all_generated rows ≡ others req true all_generated rows
unfolding unlisted_loop
others-asked req all_generated [] = refl
others-asked req all_generated (r ∷ rows) =
    rw
      (
        starts_well_lem req r.path,
        matches_kind-of_kind (to_lower req.kind) r.path all_generated,
        others-asked req all_generated rows,
      )
      refl

others-unasked :
    (req : ListRequest) (all_generated : Bool) (rows : List IndexedFile)
    → others req false all_generated rows ≡ []
others-unasked req all_generated [] = refl
others-unasked req all_generated (r ∷ rows) = others-unasked req all_generated rows

-- without a target, the other two tables
without_target_lem :
    (req : ListRequest) (db : Indexed)
    → without_target req db
      ≡ others req true true db.generated ++ others req req.include_external false db.external
without_target_lem req db = elim (Bool-cases req.include_external) [
  | inl asked ↦
      simp (asked, others-asked req true db.generated, others-asked req false db.external) refl
  | inr not_asked ↦
      simp (not_asked, others-asked req true db.generated, others-unasked req false db.external)
        refl
]

targets_at-insert :
    (k j : Bytes) (names : List Bytes) (out : TargetsByFile)
    → targets_at j (insert k names out) ≡ (if list_beq k j then names else targets_at j out)
targets_at-insert k j names out = elim (Bool-cases (list_beq k j)) [
  | inl same ↦
      let at : lookup j (insert k names out) ≡ some names =
        lookup-insert k j names out ∙ rw same refl in
      rw same (ap or_no_targets at)
  | inr other ↦
      let at : lookup j (insert k names out) ≡ lookup j out =
        lookup-insert k j names out ∙ rw other refl in
      rw other (ap or_no_targets at)
]

membership_loop_lem :
    (path : Bytes) (rows : List (Bytes × Bytes)) (out : TargetsByFile)
    → targets_at path (membership_loop out rows) ≡ targets_at path out ++ targets_of path rows
membership_loop_lem path [] out = sym (append-nil (targets_at path out))
membership_loop_lem path ((file, name) ∷ rows) out =
    let names = targets_at file out ++ name ∷ [] in
    elim (Bool-cases (list_beq file path)) [
      | inl same ↦
          let is_path : file ≡ path = (list_beq_iff file path).0 same in
          let at : targets_at path (insert file names out) ≡ names =
            targets_at-insert file path names out ∙ rw same refl in
          rw same (
            membership_loop_lem path rows (insert file names out)
            ∙ ap (λ x. x ++ targets_of path rows) at
            ∙ ap (λ x. (targets_at x out ++ name ∷ []) ++ targets_of path rows) is_path
            ∙ append_assoc (targets_at path out) (name ∷ []) (targets_of path rows))
      | inr other ↦
          let at : targets_at path (insert file names out) ≡ targets_at path out =
            targets_at-insert file path names out ∙ rw other refl in
          rw other (
            membership_loop_lem path rows (insert file names out)
            ∙ ap (λ x. x ++ targets_of path rows) at)
    ]

-- The map of the targets has for each file the targets that list it.
targets_by_file_lem :
    (rows : List (Bytes × Bytes)) (path : Bytes)
    → targets_at path (targets_by_file rows) ≡ targets_of path rows
targets_by_file_lem rows path = membership_loop_lem path rows []

-- A file is among those of a target exactly if the target is among those of the file.
target_files-lists :
    (target path : Bytes) (rows : List (Bytes × Bytes))
    → contains (target_files target rows) path ≡ lists rows target path
target_files-lists target path [] = refl
target_files-lists target path ((file, name) ∷ rows) =
    ground (arith, target_files-lists target path rows)

-- the loop over the sources, with the maps replaced by what they say
source_loop_lem :
    (req : ListRequest) (wanted : Option (List Bytes)) (members : List (Bytes × Bytes))
    → ((p : Bytes) → in_wanted wanted p ≡ (is_no_text req.target || lists members req.target p))
    → (rows : List IndexedFile)
    → source_loop req wanted (targets_by_file members) rows ≡ listed_sources req members rows
unfolding source_loop
source_loop_lem req wanted members same [] = refl
source_loop_lem req wanted members same (r ∷ rows) =
    rw
      (
        starts_well_lem req r.path,
        matches_kind-of_kind (to_lower req.kind) r.path r.is_generated,
        same r.path,
        targets_by_file_lem members r.path,
        source_loop_lem req wanted members same rows,
      )
      refl

has_rows-none :
    (target : Bytes) (rows : List (Bytes × Bytes))
    → files_for_target target rows ≡ none
    → has_rows rows target ≡ false
has_rows-none target [] e = refl
has_rows-none target ((file, name) ∷ rows) e = elim (Bool-cases (list_beq name target)) [
  | inl same ↦
      let found : files_for_target target ((file, name) ∷ rows)
          ≡ some (file ∷ target_files target rows) =
        rw same refl in
      absurd (none_ne (sym e ∙ found))
  | inr other ↦ rw other (has_rows-none target rows (sym (rw other refl) ∙ e))
]

has_rows-some :
    (target : Bytes) (rows : List (Bytes × Bytes)) (files : List Bytes)
    → files_for_target target rows ≡ some files
    → (has_rows rows target ≡ true) × (target_files target rows ≡ files)
has_rows-some target [] files e = absurd (none_ne e)
has_rows-some target ((file, name) ∷ rows) files e = elim (Bool-cases (list_beq name target)) [
  | inl same ↦ (rw same refl, some_injective (sym (rw same refl) ∙ e))
  | inr other ↦
      let found : files_for_target target rows ≡ some files = sym (rw other refl) ∙ e in
      let (h, f) = has_rows-some target rows files found in (rw other h, rw other f)
]

-- For every request and rows of the index the answer of list_source_files is the described one: the
-- sources with the prefix and of the kind, and where a target is named those that it lists, each
-- with all targets that list it; without a target also the generated files, and the external ones
-- if asked for; and the error exactly if a target is named of which there are no rows.
pub list_source_files_lem :
    (req : ListRequest) (db : Indexed) → list_source_files req db ≡ listing req db
unfolding list_source_files
list_source_files_lem req db = elim (Bool-cases (is_no_text req.target)) [
  | inl all ↦
      let sources : source_loop req none (targets_by_file db.members) db.sources
          ≡ listed_sources req db.members db.sources =
        source_loop_lem req none db.members (λ p. rw all refl) db.sources in
      rw (all, sources, without_target_lem req db) refl
  | inr named ↦ elim (Option-cases (files_for_target req.target db.members)) [
    | inl e ↦ rw (named, e, has_rows-none req.target db.members e) refl
    | inr (files, e) ↦
        let (h, is_files) = has_rows-some req.target db.members files e in
        let sources : source_loop req (some files) (targets_by_file db.members) db.sources
            ≡ listed_sources req db.members db.sources =
          source_loop_lem req (some files) db.members
            (λ p.
              rw named (
                sym (ap (λ x. contains x p) is_files) ∙ target_files-lists req.target p db.members))
            db.sources in
        let files_only : all_listed req db ≡ listed_sources req db.members db.sources =
          simp (named, others-unasked req true db.generated, others-unasked req false db.external)
            (append-nil (listed_sources req db.members db.sources)) in
        rw (named, e, h, sources) (rw (rw named at files_only) refl)
  ]
]
