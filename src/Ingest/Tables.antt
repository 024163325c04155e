-- ===== src/Ingest/Tables.antt =====
-- `insertInlineRecords`, `insertICFGroups` and `buildObjectToSource`: the rows they write.
use herbarium.Base.{
  ℕ, Bool, not, List, [], ◌∷◌, ◌++◌, Option, none, some, Bytes, ◌==◌, if◌then◌else◌, lookup, insert,
  list_eq, nat_eq,
}
use herbarium.GccDump.{IcfGroup, InlineRecord, is_empty}
use herbarium.Ingest.Paths.{FilePath, PathResolver, to_project_relative}
use herbarium.Ingest.Records.{Tu, PerTuResolve, symbols_of}
use herbarium.Ingest.Symbols.{sorted_ids}
use herbarium.Ingest.Prune.{name_to_usr, list_of}
use herbarium.Ingest.Edges.{IdByUsr}

-- the object's path below the root of the build directory, if it has one
abbrev object_rel : FilePath → Bytes → Bytes → Bytes
object_rel fp root object = elim (fp.rel root object) [ none ↦ object | some rel ↦ rel ]

abbrev text_of : Option Bytes → Bytes
text_of none = []
text_of (some s) = s

-- a row of `inline_records`
pub record InlineRow : Type 0 where
  pub caller_id : ℕ
  pub callee_id : ℕ
  pub pass : Bytes
  pub inlined : Bool
  pub reason : Bytes
  pub file : Bytes
  pub line : ℕ
  pub column : ℕ
  pub object : Bytes

module _ (pr : PathResolver) (root : Bytes) (ids : IdByUsr) where
  unfoldable pub record_row : PerTuResolve → Bytes → InlineRecord → Option InlineRow
  record_row res object r = elim (lookup (text_of (lookup r.caller_local_id res)) ids) [
    | none ↦ none
    | some caller ↦ elim (lookup (text_of (lookup r.callee_local_id res)) ids) [
      | none ↦ none
      | some callee ↦ some (record {
        caller_id = caller;
        callee_id = callee;
        pass = r.pass;
        inlined = r.inlined;
        reason = r.reason;
        file = if is_empty r.file then [] else (to_project_relative pr r.file).rel;
        line = r.line;
        column = r.column;
        object = object_rel pr.file_path root object;
      })
    ]
  ]

  unfoldable pub record_rows : PerTuResolve → Bytes → List InlineRecord → List InlineRow
  record_rows res object [] = []
  record_rows res object (r ∷ rs) = elim (record_row res object r) [
    | none ↦ record_rows res object rs
    | some row ↦ row ∷ record_rows res object rs
  ]

  unfoldable pub insert_inline_records : List Tu → List (Bytes × PerTuResolve) → List InlineRow
  insert_inline_records [] resolves = []
  insert_inline_records (tu ∷ tus) resolves =
      (elim (lookup tu.object resolves) [
        | none ↦ []
        | some res ↦ record_rows res tu.object (list_of tu.opt_rec)
      ])
      ++ insert_inline_records tus resolves

-- `buildNameToSymbolID`
pub ids_of_names : IdByUsr → List (Bytes × Bytes) → List (Bytes × ℕ) → List (Bytes × ℕ)
ids_of_names ids [] out = out
ids_of_names ids ((name, u) ∷ names) out =
    ids_of_names ids names (elim (lookup u ids) [ none ↦ out | some id ↦ insert name id out ])

pub build_name_to_symbol_id : Tu → PerTuResolve → IdByUsr → List (Bytes × ℕ)
build_name_to_symbol_id tu res ids =
    ids_of_names ids (name_to_usr res (symbols_of tu) [] (sorted_ids tu)) []

-- a row of `icf_groups` with the rows of `icf_group_members` that belong to it
pub record IcfRow : Type 0 where
  pub winner_symbol_id : ℕ
  pub object_file : Bytes
  pub members : List ℕ

pub loser_ids : List (Bytes × ℕ) → ℕ → List Bytes → List ℕ
loser_ids names winner [] = []
loser_ids names winner (l ∷ ls) = elim (lookup l names) [
  | none ↦ loser_ids names winner ls
  | some id ↦ if id == winner then loser_ids names winner ls else id ∷ loser_ids names winner ls
]

module _ (fp : FilePath) (root : Bytes) (ids : IdByUsr) where
  pub group_rows : List (Bytes × ℕ) → Bytes → List IcfGroup → List IcfRow
  group_rows names object [] = []
  group_rows names object (g ∷ gs) =
      (elim (lookup g.winner_name names) [
        | none ↦ []
        | some winner ↦
            let members = loser_ids names winner g.loser_names in
            if is_empty members
            then []
            else record {
              winner_symbol_id = winner;
              object_file = object_rel fp root object;
              members = members;
            }
              ∷ []
      ])
      ++ group_rows names object gs

  pub insert_icf_groups : List Tu → List (Bytes × PerTuResolve) → List IcfRow
  insert_icf_groups [] resolves = []
  insert_icf_groups (tu ∷ tus) resolves =
      (elim (lookup tu.object resolves) [
        | none ↦ []
        | some res ↦ group_rows (build_name_to_symbol_id tu res ids) tu.object (list_of tu.icf)
      ])
      ++ insert_icf_groups tus resolves

-- `buildObjectToSource`
pub source_entry : PathResolver → Bytes → List (Bytes × Bytes) → Tu → List (Bytes × Bytes)
source_entry pr root out tu = elim tu.ci [
  | none ↦ out
  | some ci ↦
      let src = to_project_relative pr ci.title in
      if is_empty ci.title
      then out
      else if not src.in_project
      then out
      else elim (pr.file_path.rel root tu.object) [
        | none ↦ out
        | some rel ↦ insert (pr.file_path.to_slash rel) src.rel out
      ]
]

pub build_object_to_source :
    PathResolver → Bytes → List (Bytes × Bytes) → List Tu → List (Bytes × Bytes)
build_object_to_source pr root out [] = out
build_object_to_source pr root out (tu ∷ tus) =
    build_object_to_source pr root (source_entry pr root out tu) tus
