-- ===== src/Packing/Indexed.antt =====
-- `Sources` as a whole: after it, the files that the build uses are in the index.
use herbarium.Base.{
  ◌≡◌, ◌⊎◌, sym, ap, ◌∙◌, inl, inr, Bool, true, false, List, Option, some, Bytes, lookup, keys,
  Memᴰ, sort_by, str_ltb, Memᴰ_of_lookup, Memᴰ-sort_by, contains, contains→Memᴰ, list_eq, nat_eq,
  subst,
}
use herbarium.Blobstore.{Codec, Tables}
use herbarium.Blobstore.Filed.{IsWellFormed, read_source, read_external}
use herbarium.Ingest.Paths.{PathResolver, to_project_relative}
use herbarium.ExternalGlob.{ExternalGlob}
use herbarium.Packing.{
  Packed, SourcesSummary, no_sources, pack_sources, pack_generated, pack_external, refuse_zero,
  zero_hits, sorted_keys, pack, sources,
}
use herbarium.Packing.Marked.{
  Host, content, missing, PackError, ok, failed, PackEntry, Entries, MesonTarget, no_entries,
  project_path,
}
use herbarium.Packing.Marked.Grown.{
  IsShaped, Requires, ok_injective, both_ok, mark_targets-Grows, mark_headers-Grows,
}
use herbarium.Packing.Runs.{run_cases, sources-ok, collect-ok, collect-IsShaped}
use herbarium.Packing.Stored.{
  stays_trans, IsDone, pack_sources-Stays, pack_generated-Stays, pack_external-Stays,
}

module _ (host : Host) (codec : Codec) (decode : Bytes → Option Bytes) (pr : PathResolver)
    (decode-encode_all : (c : Bytes) → decode (codec.encode_all c) ≡ some c)
    (no_collision : (c d : Bytes) → codec.hash c ≡ codec.hash d → c ≡ d) where
  pub pack_lem :
      (strict : Bool) (db : Tables) (es : Entries) (q : Packed)
      → IsShaped host pr es
      → IsWellFormed codec db
      → pack host codec strict db es ≡ ok q
      → ((k : Bytes) (e : PackEntry)
          → lookup k es.entries ≡ some e
          → IsDone host codec decode pr decode-encode_all no_collision q.tables e)
        × ((a c : Bytes)
            → contains es.external_entries a ≡ true
            → host.read_file a ≡ content c
            → read_external decode q.tables a ≡ some c)
  unfolding pack
  pack_lem strict db es q shaped w h =
      let start : Packed = record { tables = db; sum = no_sources } in
      let (p, first, h1) =
        both_ok (pack_sources host codec strict es.entries start (sorted_keys es.entries)) _ h in
      let (r, second, h2) =
        both_ok
          (pack_generated host codec es.generated_entries p (sorted_keys es.generated_entries)) _
          h1 in
      let (s, third, h3) =
        both_ok (pack_external host codec r (sort_by str_ltb es.external_entries)) _ h2 in
      let (u, fourth, h4) = both_ok (refuse_zero (zero_hits es.glob_hits)) _ h3 in
      let is_q : s.tables ≡ q.tables = ap (λ x. x.tables) (ok_injective h4) in
      let (one, done) =
        pack_sources-Stays host codec decode pr decode-encode_all no_collision strict es start
          (sorted_keys es.entries) p shaped w first in
      let two =
        pack_generated-Stays host codec decode pr decode-encode_all no_collision
          es.generated_entries p (sorted_keys es.generated_entries) r one.well second in
      let (three, externals) =
        pack_external-Stays host codec decode pr decode-encode_all no_collision r
          (sort_by str_ltb es.external_entries) s two.well third in
      let after =
        stays_trans host codec decode pr decode-encode_all no_collision p.tables r.tables s.tables
          two three in
      let keys_of = λ (k : Bytes) (e : PackEntry) (f : lookup k es.entries ≡ some e).
        Memᴰ-sort_by str_ltb (keys es.entries) (Memᴰ_of_lookup k es.entries f) in
      rw (sym is_q) (
        (λ k e f.
            let (now, needs) = done k e (keys_of k e f) f in
            ((λ c file. after.source e.rel_path c file (now c file)), needs)),
        (λ a c m file.
            externals a c
              (Memᴰ-sort_by str_ltb es.external_entries (contains→Memᴰ es.external_entries a m))
              file),
      )

  -- Where packing succeeds, every source that meson reports of a target is in the project and on the
  -- disk, and its path in the index reads as its content, whatever else was packed.
  pub sources_lem :
      (db : Tables) (strict : Bool) (globs : List ExternalGlob) (targets : List MesonTarget)
      (objects : List Bytes) (u : Tables) (sum : SourcesSummary) (t : MesonTarget) (abs : Bytes)
      → IsWellFormed codec db
      → sources host codec db pr strict globs targets objects ≡ (u, ok sum)
      → Memᴰ t targets
      → Memᴰ abs t.sources
      → let r = to_project_relative pr abs in
        (r.in_project ≡ true)
        × ((c : Bytes) × (host.read_file (project_path host pr r.rel) ≡ content c)
            × (read_source decode u r.rel ≡ some c))
  sources_lem db strict globs targets objects u sum t abs w h m n =
      let (es, q, first, second, is_q) =
        sources-ok host codec pr db strict globs targets objects u sum h in
      let (fs, log, marks, log_read, is_es) =
        collect-ok host codec pr globs targets objects es first in
      let (grows, of_target) = mark_targets-Grows host pr (no_entries globs) targets fs marks in
      let (inside, needed) = of_target t m abs n in
      let rel = (to_project_relative pr abs).rel in
      let more = mark_headers-Grows host pr globs log fs objects in
      let (e, found, is_required) =
        subst (λ x. Requires host pr x rel) is_es (more.requires rel needed) in
      let shaped = collect-IsShaped host codec pr globs targets objects es first in
      let (is_rel, is_file) = shaped rel e found in
      let (done, externals) = pack_lem strict db es q shaped w second in
      let (now, there) = done rel e found in
      let (c, file) = there is_required in
      (
        inside,
        (
          c,
          ap (λ x. host.read_file (project_path host pr x)) (sym is_rel) ∙ file,
          ap (λ x. read_source decode x rel) (sym (ap (λ x. x.tables) is_q))
              ∙ ap (read_source decode q.tables) (sym is_rel)
              ∙ now c file,
        ),
      )

  true_ne : true ≡ false → ⊥
  true_ne e = cc

  missing_ne : {c : Bytes} → missing ≡ content c → ⊥
  missing_ne e = cc

  -- Packing fails, and the index stays as it was, if one of the sources that meson reports of a
  -- target is outside the project or missing on the disk.
  pub sources-refuses :
      (db : Tables) (strict : Bool) (globs : List ExternalGlob) (targets : List MesonTarget)
      (objects : List Bytes) (t : MesonTarget) (abs : Bytes)
      → IsWellFormed codec db
      → Memᴰ t targets
      → Memᴰ abs t.sources
      → let r = to_project_relative pr abs in
        (r.in_project ≡ false) ⊎ (host.read_file (project_path host pr r.rel) ≡ missing)
        → (e : PackError) × (sources host codec db pr strict globs targets objects ≡ (db, failed e))
  sources-refuses db strict globs targets objects t abs w m n h =
      elim (run_cases host codec pr db strict globs targets objects) [
        | inr refused ↦ refused
        | inl (u, sum, ran) ↦
            let (inside, (c, file, is_read)) =
              sources_lem db strict globs targets objects u sum t abs w ran m n in
            elim h [
              | inl outside ↦ absurd (true_ne (sym inside ∙ outside))
              | inr away ↦ absurd (missing_ne (sym away ∙ file))
            ]
      ]
