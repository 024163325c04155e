-- ===== src/Packing/Marked.antt =====
-- The first half of `Sources`: what meson and ninja report, sorted into three maps. A map with
-- no values is the list of its keys.
pub mod Grown
pub mod Headers
use herbarium.Base.{
  ℕ, suc, Bool, true, false, not, ◌||◌, ◌&&◌, List, [], ◌∷◌, ◌++◌, Option, none, some, Bytes, codes,
  has_prefix, list_beq, lookup, insert, contains, list_eq, nat_eq, if◌then◌else◌,
}
use herbarium.Ingest.Paths.{PathResolver, to_project_relative}
use herbarium.ExternalGlob.{Matching, ExternalGlob, match_glob}
use herbarium.NinjaDeps.{Log, Outcome, read, broken, out_of_fuel, read_log, deps_for}
use herbarium.NinjaDeps
use herbarium.GccDump.{is_empty}

-- what `os.ReadFile` gives; `missing` is os.IsNotExist
pub data FileRead : Type 0 where
  content : Bytes → FileRead
  missing unreadable : FileRead

-- The machine: files, their times of modification, `filepath.Abs`, `filepath.FromSlash`, and what
-- the patterns use.
pub record Host : Type 0 where
  pub read_file : Bytes → FileRead
  pub mod_time : Bytes → Option ℕ
  pub abs : Bytes → Option Bytes
  pub from_slash : Bytes → Bytes
  pub matching : Matching

pub data PackError : Type 0 where
  source_outside : Bytes → Bytes → PackError
  no_absolute : Bytes → Bytes → PackError
  generated_outside : Bytes → Bytes → PackError
  bad_deps_log : PackError
  missing_source unreadable_file no_mod_time : Bytes → PackError
  newer_source : Bytes → Bytes → PackError
  matched_nothing : List Bytes → PackError

pub data PackResult {ℓ} (A : Type ℓ) : Type ℓ where
  ok : A → PackResult A
  failed : PackError → PackResult A

-- an error ends the run
infixl 5 ◌>>=◌
abbrev pub ◌>>=◌ {κ ℓ} :
    {B : Type κ} {A : Type ℓ} → PackResult B → (B → PackResult A) → PackResult A
failed why >>= next = failed why
ok x >>= next = next x

-- the fields of `mesonintrospect.Target` that are read
pub record MesonTarget : Type 0 where
  pub name : Bytes
  pub sources : List Bytes
  pub generated : List Bytes

pub record PackEntry : Type 0 where
  pub rel_path : Bytes
  pub abs_path : Bytes
  pub is_generated : Bool
  pub consumers : List Bytes
  pub required : Bool

pub record Entries : Type 0 where
  pub entries : List (Bytes × PackEntry)
  pub external_entries : List Bytes
  pub glob_hits : List (Bytes × ℕ)
  pub generated_entries : List (Bytes × Bytes)

abbrev zero_for : List (Bytes × ℕ) → List ExternalGlob → List (Bytes × ℕ)
zero_for hits [] = hits
zero_for hits (g ∷ gs) = zero_for (insert g.raw 0 hits) gs

abbrev pub no_entries : List ExternalGlob → Entries
no_entries globs = record {
  entries = [];
  external_entries = [];
  glob_hits = zero_for [] globs;
  generated_entries = [];
}

-- the entry that `mark` writes to, which it adds if there is none
abbrev pub entry_or_new : Bytes → Bytes → Option PackEntry → PackEntry
entry_or_new rel abs (some e) = e
entry_or_new rel abs none = record {
  rel_path = rel;
  abs_path = abs;
  is_generated = false;
  consumers = [];
  required = false;
}

abbrev pub marked : PackEntry → Bool → Bool → Bytes → PackEntry
marked e is_generated required consumer = record e {
  is_generated = e.is_generated || is_generated;
  required = e.required || required;
  consumers = if is_empty consumer then e.consumers else e.consumers ++ consumer ∷ [];
}

unfoldable pub mark : Entries → Bytes → Bytes → Bool → Bool → Bytes → Entries
mark es rel abs is_generated required consumer = record es {
  entries =
      insert rel
        (marked (entry_or_new rel abs (lookup rel es.entries)) is_generated required consumer)
        es.entries;
}

-- `isUnderBuildDir`
unfoldable pub is_under_build_dir : PathResolver → Bytes → Bool
is_under_build_dir pr abs = elim (pr.file_path.rel pr.build_dir abs) [
  | none ↦ false
  | some rel ↦ not (has_prefix rel (codes "..")) && not (list_beq rel (codes "."))
]

abbrev pub add_generated : Entries → Bytes → Bytes → Entries
add_generated es key abs = elim (lookup key es.generated_entries) [
  | some seen ↦ es
  | none ↦ record es { generated_entries = insert key abs es.generated_entries }
]

unfoldable pub mark_generated : PathResolver → Entries → Bytes → Entries
mark_generated pr es abs = elim (pr.file_path.rel pr.build_dir abs) [
  | none ↦ es
  | some rel ↦
      if has_prefix rel (codes "..") then es else add_generated es (pr.file_path.to_slash rel) abs
]

abbrev add_one : Option ℕ → ℕ
add_one none = 1
add_one (some n) = suc n

-- a header that a pattern matches
abbrev pub hit : Entries → ExternalGlob → Bytes → Entries
hit es g abs = record es {
  external_entries =
      if contains es.external_entries abs then es.external_entries else abs ∷ es.external_entries;
  glob_hits = insert g.raw (add_one (lookup g.raw es.glob_hits)) es.glob_hits;
}

-- The argument of type Bytes is the content, if there is one: `ReadForBuildDir`.
unfoldable pub log_for_build_dir : FileRead → PackResult (Option Log)
log_for_build_dir missing = ok none
log_for_build_dir unreadable = failed bad_deps_log
log_for_build_dir (content c) = elim (read_log c) [
  | read log ↦ ok (some log)
  | broken log e ↦ failed bad_deps_log
  | NinjaDeps.failed e ↦ failed bad_deps_log
  | out_of_fuel ↦ failed bad_deps_log
]

module _ (host : Host) (pr : PathResolver) where
  abbrev pub project_path : Bytes → Bytes
  project_path rel = pr.file_path.join pr.project_root (host.from_slash rel)

  unfoldable pub mark_sources : Bytes → Entries → List Bytes → PackResult Entries
  mark_sources target es [] = ok es
  mark_sources target es (abs ∷ rest) =
      let r = to_project_relative pr abs in
      if not r.in_project
      then failed (source_outside target abs)
      else mark_sources target (mark es r.rel (project_path r.rel) false true []) rest

  abbrev pub out_of_tree : Bytes → Entries → Bytes → PackResult Entries
  out_of_tree target es abs = elim (host.abs abs) [
    | none ↦ failed (no_absolute target abs)
    | some native ↦
        if not (is_under_build_dir pr native)
        then failed (generated_outside target abs)
        else ok (mark_generated pr es native)
  ]

  unfoldable pub generated_source : Bytes → Entries → Bytes → PackResult Entries
  generated_source target es abs =
      let r = to_project_relative pr abs in
      if r.in_project
      then ok (mark es r.rel (project_path r.rel) true true [])
      else out_of_tree target es abs

  unfoldable pub mark_all_generated : Bytes → Entries → List Bytes → PackResult Entries
  mark_all_generated target es [] = ok es
  mark_all_generated target es (abs ∷ rest) =
      generated_source target es abs >>= λ fs. mark_all_generated target fs rest

  unfoldable pub mark_targets : Entries → List MesonTarget → PackResult Entries
  mark_targets es [] = ok es
  mark_targets es (t ∷ ts) = do
    fs ← mark_sources t.name es t.sources
    gs ← mark_all_generated t.name fs t.generated
    mark_targets gs ts

  module _ (globs : List ExternalGlob) where
    -- the first pattern that matches
    unfoldable pub match_external : Entries → Bytes → List ExternalGlob → Entries
    match_external es abs [] = es
    match_external es abs (g ∷ gs) =
        if match_glob host.matching g abs then hit es g abs else match_external es abs gs

    abbrev pub native_path : Bytes → Bytes
    native_path dep =
        pr.file_path.clean
          (if not (pr.file_path.is_abs dep) then pr.file_path.join pr.build_dir dep else dep)

    unfoldable pub outside_dep : Entries → Bytes → Entries
    outside_dep es dep =
        let abs = native_path dep in
        if is_under_build_dir pr abs then mark_generated pr es abs else match_external es abs globs

    unfoldable pub one_dep : Bytes → Entries → Bytes → Entries
    one_dep obj es dep =
        let r = to_project_relative pr dep in
        if not r.in_project
        then outside_dep es dep
        else mark es r.rel (project_path r.rel) (is_under_build_dir pr (project_path r.rel)) false
            obj

    unfoldable pub dep_loop : Bytes → Entries → List Bytes → Entries
    dep_loop obj es [] = es
    dep_loop obj es (dep ∷ deps) = dep_loop obj (one_dep obj es dep) deps

    unfoldable pub object_deps : Log → Bytes → List Bytes
    object_deps log obj = elim (pr.file_path.rel pr.build_dir obj) [
      | none ↦ []
      | some rel ↦ elim (deps_for log (pr.file_path.to_slash rel)) [ none ↦ [] | some deps ↦ deps ]
    ]

    unfoldable pub each_object : Log → Entries → List Bytes → Entries
    each_object log es [] = es
    each_object log es (obj ∷ objs) = each_object log (dep_loop obj es (object_deps log obj)) objs

    unfoldable pub mark_headers : Option Log → Entries → List Bytes → Entries
    mark_headers none es objs = es
    mark_headers (some log) es objs = each_object log es objs
