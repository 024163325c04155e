-- ===== src/Packing/Tests.antt =====
-- A project in /p that is built in /b: one source, a header of the project, and one of the system.
use herbarium.Base.{
  ◌≡◌, refl, ◌++◌, ◌+◌, inr, true, false, List, [], ◌∷◌, Option, none, some, Bytes, codes,
  has_prefix, drop, length, lookup, list_beq, list_eq, nat_eq, none_ne, sort_by, if◌then◌else◌,
}
use mathlib.Core.List.Memᴰ
use herbarium.Blobstore.{
  Codec, Tables, commit, rollback, put, put_external, put_generated, put_blob,
}
use herbarium.Ingest.Paths.{PathResolver, to_project_relative}
use herbarium.ExternalGlob.{ExternalGlob, match_glob, matches_any_external_glob}
use herbarium.NinjaDeps.{
  Log, strip_nuls, inputs, deps_record, path_record, record_at, round, records, read_version,
  read_log, deps_for,
}
use herbarium.NinjaDeps.Format.{path, deps}
use herbarium.NinjaDeps.RoundTrip.{file}
use herbarium.NinjaDeps.Words.{read_u32, u32_at, words}
use herbarium.Blobstore.Filed.{IsWellFormed, read_source, read_external}
use herbarium.Packing.Indexed.{sources_lem, sources-refuses}
use herbarium.Packing.Headers.{sources-headers, sources-external}
use herbarium.Packing.Counts.{AddsUp, sources-AddsUp}
use herbarium.Packing.Marked.Headers.{IsExternal}
use herbarium.Packing.{
  SourcesSummary, count_source, count_generated, count_external, refuse_zero, pack_read,
  pack_sources, pack_generated, pack_external_read, pack_external, pack, collect, sources,
}
use herbarium.Packing.Marked.{
  Host, content, missing, ok, failed, MesonTarget, mark, is_under_build_dir, mark_generated,
  log_for_build_dir, mark_sources, generated_source, mark_all_generated, mark_targets,
  match_external, outside_dep, one_dep, dep_loop, object_deps, each_object, mark_headers, PackError,
  project_path, native_path,
}

abbrev under : Bytes → Bytes → Bytes
under root p =
    if has_prefix p (root ++ codes "/") then drop (length root + 1) p else codes ".." ++ p

abbrev resolver : PathResolver
resolver = record {
  file_path = record {
    is_abs = λ p. has_prefix p (codes "/");
    join = λ p q. p ++ codes "/" ++ q;
    clean = λ p. p;
    rel = λ root p. some (under root p);
    to_slash = λ p. p;
  };
  build_dir = codes "/b";
  project_root = codes "/p";
}

abbrev files : List (Bytes × Bytes)
files =
    (codes "/p/a.c", codes "x")
    ∷ (codes "/p/h.h", codes "y")
    ∷ (codes "/usr/s.h", codes "x")
    ∷ (
      codes "/b/.ninja_deps",
      file (
          path (codes "a.o")
          ∷ path (codes "/p/h.h")
          ∷ path (codes "/usr/s.h")
          ∷ deps 0 7 0 (1 ∷ 2 ∷ [])
          ∷ []),
    )
    ∷ []

abbrev host : Host
host = record {
  read_file = λ p. elim (lookup p files) [ none ↦ missing | some c ↦ content c ];
  mod_time = λ p. none;
  abs = λ p. some p;
  from_slash = λ p. p;
  matching = record {
    trim_space = λ s. s;
    is_abs = λ s. has_prefix s (codes "/");
    match_name = λ p s. list_beq p s;
  };
}

abbrev codec : Codec
codec = record { hash = λ c. c; encode_all = λ c. 1 ∷ c }

abbrev decode : Bytes → Option Bytes
decode [] = none
decode (x ∷ c) = some c

abbrev app : MesonTarget
app = record { name = codes "app"; sources = codes "/p/a.c" ∷ []; generated = [] }

abbrev system : ExternalGlob
system = record { raw = codes "/usr/**"; prefix = codes "/usr" }

abbrev no_tables : Tables
no_tables = record { blobs = []; sources = []; external_sources = []; generated_sources = [] }

abbrev globs : List ExternalGlob
globs = system ∷ []

abbrev targets : List MesonTarget
targets = app ∷ []

abbrev objects : List Bytes
objects = codes "/b/a.o" ∷ []

-- the system's header shares the blob of the source
abbrev packed : Tables
packed = record {
  blobs =
      (codes "x", record { size = 1; content = 1 ∷ codes "x" })
      ∷ (codes "y", record { size = 1; content = 1 ∷ codes "y" })
      ∷ [];
  sources =
      (codes "a.c", record { blob_hash = codes "x"; is_generated = false })
      ∷ (codes "h.h", record { blob_hash = codes "y"; is_generated = false })
      ∷ [];
  external_sources = (codes "/usr/s.h", codes "x") ∷ [];
  generated_sources = [];
}

abbrev counted_files : SourcesSummary
counted_files = record {
  files = 2;
  blobs = 2;
  duplicates = 1;
  generated = 0;
  external_files = 1;
  external_blobs = 0;
  generated_files = 0;
  generated_blobs = 0;
  glob_match_count = (codes "/usr/**", 1) ∷ [];
}

abbrev deps_of_a : Log
deps_of_a = record {
  version = 4;
  deps = (codes "a.o", codes "/p/h.h" ∷ codes "/usr/s.h" ∷ []) ∷ [];
}

log-packed : log_for_build_dir (host.read_file (codes "/b/.ninja_deps")) ≡ ok (some deps_of_a)
unfolding log_for_build_dir read_log read_version records round record_at path_record deps_record
    strip_nuls inputs read_u32 u32_at words
log-packed = refl

sources-packed :
    sources host codec no_tables resolver false globs targets objects ≡ (packed, ok counted_files)
unfolding sources collect pack commit rollback put put_external put_generated put_blob
    to_project_relative match_glob matches_any_external_glob strip_nuls inputs deps_record
    path_record record_at round records read_version read_log deps_for read_u32 u32_at words
    count_source count_generated count_external refuse_zero pack_read pack_sources pack_generated
    pack_external_read pack_external mark is_under_build_dir mark_generated log_for_build_dir
    mark_sources generated_source mark_all_generated mark_targets match_external outside_dep one_dep
    dep_loop object_deps each_object mark_headers sort_by
sources-packed = refl

no_tables-IsWellFormed : IsWellFormed codec no_tables
no_tables-IsWellFormed = (
  (λ h b e. absurd (none_ne e)),
  (λ q h e. absurd (none_ne e)),
  (λ q h e. absurd (none_ne e)),
  (λ q h e. absurd (none_ne e)),
)

sources_lem_example :
    ((to_project_relative resolver (codes "/p/a.c")).in_project ≡ true)
    × ((c : Bytes) × (host.read_file
            (project_path host resolver (to_project_relative resolver (codes "/p/a.c")).rel)
          ≡ content c)
        × (read_source decode packed (to_project_relative resolver (codes "/p/a.c")).rel ≡ some c))
sources_lem_example =
    sources_lem host codec decode resolver (λ c. refl) (λ c d e. e) no_tables false globs targets
      objects packed counted_files app (codes "/p/a.c") no_tables-IsWellFormed sources-packed
      (Memᴰ.head refl) (Memᴰ.head refl)

deps_of-a :
    object_deps host resolver globs deps_of_a (codes "/b/a.o")
    ≡ codes "/p/h.h" ∷ codes "/usr/s.h" ∷ []
unfolding object_deps deps_for
deps_of-a = refl

h_rel :
    to_project_relative resolver (codes "/p/h.h") ≡ record { rel = codes "h.h"; in_project = true }
unfolding to_project_relative
h_rel = refl

sources-headers_example :
    read_source decode packed (to_project_relative resolver (codes "/p/h.h")).rel ≡ some (codes "y")
sources-headers_example =
    sources-headers host codec decode resolver (λ c. refl) (λ c d e. e) no_tables false globs
      targets objects packed counted_files deps_of_a (codes "/b/a.o") (codes "/p/h.h") (codes "y")
      no_tables-IsWellFormed sources-packed log-packed (Memᴰ.head refl)
      (rw deps_of-a (Memᴰ.head refl)) (rw h_rel refl) (rw h_rel refl)

s_IsExternal : IsExternal host resolver globs (codes "/usr/s.h")
unfolding to_project_relative is_under_build_dir matches_any_external_glob match_glob
s_IsExternal = (refl, refl, refl)

sources-external_example :
    read_external decode packed (native_path host resolver globs (codes "/usr/s.h"))
    ≡ some (codes "x")
sources-external_example =
    sources-external host codec decode resolver (λ c. refl) (λ c d e. e) no_tables false globs
      targets objects packed counted_files deps_of_a (codes "/b/a.o") (codes "/usr/s.h") (codes "x")
      no_tables-IsWellFormed sources-packed log-packed (Memᴰ.head refl)
      (rw deps_of-a (Memᴰ.tail (Memᴰ.head refl))) s_IsExternal refl

abbrev broken_app : MesonTarget
broken_app = record {
  name = codes "app";
  sources = codes "/p/a.c" ∷ codes "/p/gone.c" ∷ [];
  generated = [];
}

gone-missing :
    host.read_file
      (project_path host resolver (to_project_relative resolver (codes "/p/gone.c")).rel)
    ≡ missing
unfolding to_project_relative
gone-missing = refl

sources-refuses_example :
    (e : PackError) × (sources host codec no_tables resolver true globs (broken_app ∷ []) objects
      ≡ (no_tables, failed e))
sources-refuses_example =
    sources-refuses host codec decode resolver (λ c. refl) (λ c d e. e) no_tables true globs
      (broken_app ∷ []) objects broken_app (codes "/p/gone.c") no_tables-IsWellFormed
      (Memᴰ.head refl) (Memᴰ.tail (Memᴰ.head refl)) (inr gone-missing)

sources-AddsUp_example :
    AddsUp codec (length no_tables.blobs) (record { tables = packed; sum = counted_files })
sources-AddsUp_example =
    sources-AddsUp host codec resolver no_tables false globs targets objects packed counted_files
      sources-packed
