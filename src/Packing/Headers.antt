-- ===== src/Packing/Headers.antt =====
-- The headers that ninja reports are in the index, as far as they are on the disk.
use herbarium.Base.{
  ◌≡◌, sym, ap, ◌∙◌, subst, Bool, List, Option, some, Bytes, codes, Memᴰ, list_eq, nat_eq,
}
use herbarium.Blobstore.{Codec, Tables}
use herbarium.Blobstore.Filed.{IsWellFormed, read_source, read_external}
use herbarium.Ingest.Paths.{PathResolver, to_project_relative}
use herbarium.ExternalGlob.{ExternalGlob}
use herbarium.NinjaDeps.{Log}
use herbarium.Packing.{SourcesSummary, collect, sources}
use herbarium.Packing.Marked.{
  Host, content, ok, Entries, MesonTarget, log_for_build_dir, project_path, object_deps,
  native_path, mark_headers, each_object,
}
use herbarium.Packing.Marked.Grown.{ok_injective}
use herbarium.Packing.Marked.Headers.{IsInside, IsExternal, IsMarked, each_object_lem}
use herbarium.Packing.Indexed.{pack_lem}
use herbarium.Packing.Runs.{sources-ok, collect-ok, collect-IsShaped}

module _ (host : Host) (codec : Codec) (decode : Bytes → Option Bytes) (pr : PathResolver)
    (decode-encode_all : (c : Bytes) → decode (codec.encode_all c) ≡ some c)
    (no_collision : (c d : Bytes) → codec.hash c ≡ codec.hash d → c ≡ d) (db : Tables)
    (strict : Bool) (globs : List ExternalGlob) (targets : List MesonTarget) (objects : List Bytes)
    (u : Tables) (sum : SourcesSummary) (log : Log) (obj dep c : Bytes) where
  -- where the log lies
  abbrev deps_log : Bytes
  deps_log = pr.file_path.join pr.build_dir (codes ".ninja_deps")

  IsMarked-dep :
      (es : Entries)
      → collect host codec pr globs targets objects ≡ ok es
      → log_for_build_dir (host.read_file deps_log) ≡ ok (some log)
      → Memᴰ obj objects
      → Memᴰ dep (object_deps host pr globs log obj)
      → IsMarked host pr globs es dep
  unfolding mark_headers
  IsMarked-dep es h l m n =
      let (fs, found_log, marks, log_read, is_es) =
        collect-ok host codec pr globs targets objects es h in
      let is_log : some log ≡ found_log = ok_injective (sym l ∙ log_read) in
      let e : each_object host pr globs log fs objects ≡ es =
        ap (λ x. mark_headers host pr globs x fs objects) is_log ∙ is_es in
      subst (λ x. IsMarked host pr globs x dep) e
        (each_object_lem host pr globs log fs objects obj dep m n)

  -- Where packing succeeds, the path in the index of every header in the project that ninja reports
  -- for one of the objects reads as the content that the header has on the disk.
  pub sources-headers :
      IsWellFormed codec db
      → sources host codec db pr strict globs targets objects ≡ (u, ok sum)
      → log_for_build_dir (host.read_file deps_log) ≡ ok (some log)
      → Memᴰ obj objects
      → Memᴰ dep (object_deps host pr globs log obj)
      → IsInside host pr globs dep
      → host.read_file (project_path host pr (to_project_relative pr dep).rel) ≡ content c
      → read_source decode u (to_project_relative pr dep).rel ≡ some c
  sources-headers w h l m n inside file =
      let (es, q, first, second, is_q) =
        sources-ok host codec pr db strict globs targets objects u sum h in
      let rel = (to_project_relative pr dep).rel in
      let (e, found) = (IsMarked-dep es first l m n).0 inside in
      let shaped = collect-IsShaped host codec pr globs targets objects es first in
      let (is_rel, is_file) = shaped rel e found in
      let (done, externals) =
        pack_lem host codec decode pr decode-encode_all no_collision strict db es q shaped w
          second in
      let (now, there) = done rel e found in
      ap (λ x. read_source decode x rel) (sym (ap (λ x. x.tables) is_q))
      ∙ ap (read_source decode q.tables) (sym is_rel)
      ∙ now c (ap (λ x. host.read_file (project_path host pr x)) is_rel ∙ file)

  -- Where packing succeeds, every header outside the project and the build directory that ninja
  -- reports for one of the objects and a pattern of --include-external matches reads, under its
  -- absolute path, as the content that it has on the disk.
  pub sources-external :
      IsWellFormed codec db
      → sources host codec db pr strict globs targets objects ≡ (u, ok sum)
      → log_for_build_dir (host.read_file deps_log) ≡ ok (some log)
      → Memᴰ obj objects
      → Memᴰ dep (object_deps host pr globs log obj)
      → IsExternal host pr globs dep
      → host.read_file (native_path host pr globs dep) ≡ content c
      → read_external decode u (native_path host pr globs dep) ≡ some c
  sources-external w h l m n external file =
      let (es, q, first, second, is_q) =
        sources-ok host codec pr db strict globs targets objects u sum h in
      let shaped = collect-IsShaped host codec pr globs targets objects es first in
      let (done, externals) =
        pack_lem host codec decode pr decode-encode_all no_collision strict db es q shaped w
          second in
      let abs = native_path host pr globs dep in
      ap (λ x. read_external decode x abs) (sym (ap (λ x. x.tables) is_q))
      ∙ externals abs c ((IsMarked-dep es first l m n).1 external) file
