-- ===== src/Packing.antt =====
-- internal/ingest/sources.go: which files of the build go into the blob store, and under which key.
-- Packing/Marked has the passes over what meson and ninja report, this file the writing.
pub mod Marked
mod Stored
mod Runs
mod Indexed
mod Headers
mod Counts
mod Tests
use herbarium.Base.{
  ℕ, suc, ◌+◌, Bool, true, false, not, List, [], ◌∷◌, Option, none, some, Bytes, codes, ltb, ◌==◌,
  lookup, list_eq, nat_eq, if◌then◌else◌, keys, sort_by, str_ltb,
}
use herbarium.Blobstore.{
  Codec, Tables, PutResult, Writer, put, put_external, put_generated, commit, rollback,
}
use herbarium.ExternalGlob.{ExternalGlob}
use herbarium.Ingest.Paths.{PathResolver}
use herbarium.NinjaDeps.{Log}
use herbarium.Packing.Marked.{
  Host, FileRead, content, missing, unreadable, PackError, missing_source, unreadable_file,
  newer_source, no_mod_time, matched_nothing, PackResult, ok, failed, ◌>>=◌, PackEntry, Entries,
  MesonTarget, log_for_build_dir, no_entries, mark_targets, mark_headers,
}

-- `SourcesSummary`
pub record SourcesSummary : Type 0 where
  pub files : ℕ
  pub blobs : ℕ
  pub duplicates : ℕ
  pub generated : ℕ
  pub external_files : ℕ
  pub external_blobs : ℕ
  pub generated_files : ℕ
  pub generated_blobs : ℕ
  pub glob_match_count : List (Bytes × ℕ)

abbrev pub no_sources : SourcesSummary
no_sources = record {
  files = 0;
  blobs = 0;
  duplicates = 0;
  generated = 0;
  external_files = 0;
  external_blobs = 0;
  generated_files = 0;
  generated_blobs = 0;
  glob_match_count = [];
}

-- the tables of the open transaction, with the summary
pub record Packed : Type 0 where
  pub tables : Tables
  pub sum : SourcesSummary

abbrev pub count_if : Bool → ℕ → ℕ
count_if b n = if b then suc n else n

-- what a file adds to the summary, in the three loops
pub count_source : SourcesSummary → PutResult → Bool → SourcesSummary
count_source sum res is_generated = record sum {
  files = suc sum.files;
  duplicates = count_if res.deduplicated sum.duplicates;
  blobs = count_if (not res.deduplicated) sum.blobs;
  generated = count_if is_generated sum.generated;
}

pub count_generated : SourcesSummary → PutResult → SourcesSummary
count_generated sum res = record sum {
  generated_files = suc sum.generated_files;
  generated_blobs = count_if (not res.deduplicated) sum.generated_blobs;
  blobs = count_if (not res.deduplicated) sum.blobs;
  duplicates = count_if res.deduplicated sum.duplicates;
}

pub count_external : SourcesSummary → PutResult → SourcesSummary
count_external sum res = record sum {
  external_files = suc sum.external_files;
  external_blobs = count_if (not res.deduplicated) sum.external_blobs;
  blobs = count_if (not res.deduplicated) sum.blobs;
  duplicates = count_if res.deduplicated sum.duplicates;
}

-- the keys of a map, sorted
abbrev pub sorted_keys : {V : Type 0} → List (Bytes × V) → List Bytes
sorted_keys m = sort_by str_ltb (keys m)

-- the zero-match patterns
abbrev pub zero_hits : List (Bytes × ℕ) → List Bytes
zero_hits [] = []
zero_hits ((pat, n) ∷ hits) = let rest = zero_hits hits in if n == 0 then pat ∷ rest else rest

pub refuse_zero : List Bytes → PackResult (Unit {0})
refuse_zero [] = ok tt
refuse_zero (pat ∷ pats) = failed (matched_nothing (sort_by str_ltb (pat ∷ pats)))

module _ (host : Host) (codec : Codec) where
  -- `checkStrictMtime`. A consumer that cannot be examined is passed over.
  pub newer_than : Bytes → ℕ → List Bytes → PackResult (Unit {0})
  newer_than src at [] = ok tt
  newer_than src at (obj ∷ consumers) =
      let rest = newer_than src at consumers in
      elim (host.mod_time obj) [
        | none ↦ rest
        | some t ↦ if ltb t at then failed (newer_source src obj) else rest
      ]

  pub check_strict_mtime : Bytes → List Bytes → PackResult (Unit {0})
  check_strict_mtime src [] = ok tt
  check_strict_mtime src (obj ∷ consumers) = elim (host.mod_time src) [
    | none ↦ failed (no_mod_time src)
    | some at ↦ newer_than src at (obj ∷ consumers)
  ]

  abbrev pub put_entry : Packed → PackEntry → Bytes → Packed
  put_entry p e c =
      let (t, res) = put codec p.tables e.rel_path c e.is_generated in
      record { tables = t; sum = count_source p.sum res e.is_generated }

  abbrev pub if_strict : Bool → PackEntry → PackResult (Unit {0})
  if_strict strict e = if strict then check_strict_mtime e.abs_path e.consumers else ok tt

  pub pack_read : Bool → Packed → PackEntry → FileRead → PackResult Packed
  pack_read strict p e missing = if e.required then failed (missing_source e.rel_path) else ok p
  pack_read strict p e unreadable = failed (unreadable_file e.abs_path)
  pack_read strict p e (content c) = if_strict strict e >>= λ _. ok (put_entry p e c)

  abbrev pub pack_source : Bool → Packed → PackEntry → PackResult Packed
  pack_source strict p e = pack_read strict p e (host.read_file e.abs_path)

  -- The keys are those of the entries, so that the lookup finds one.
  pub pack_sources : Bool → List (Bytes × PackEntry) → Packed → List Bytes → PackResult Packed
  pack_sources strict entries p [] = ok p
  pack_sources strict entries p (k ∷ ks) = elim (lookup k entries) [
    | none ↦ pack_sources strict entries p ks
    | some e ↦ pack_source strict p e >>= λ q. pack_sources strict entries q ks
  ]

  abbrev pub put_generated_file : Packed → Bytes → Bytes → Packed
  put_generated_file p key c =
      let (t, res) = put_generated codec p.tables key c in
      record { tables = t; sum = count_generated p.sum res }

  pub pack_generated_read : Packed → Bytes → Bytes → FileRead → PackResult Packed
  pack_generated_read p key abs missing = ok p
  pack_generated_read p key abs unreadable = failed (unreadable_file abs)
  pack_generated_read p key abs (content c) = ok (put_generated_file p key c)

  pub pack_generated : List (Bytes × Bytes) → Packed → List Bytes → PackResult Packed
  pack_generated entries p [] = ok p
  pack_generated entries p (k ∷ ks) = elim (lookup k entries) [
    | none ↦ pack_generated entries p ks
    | some abs ↦
        pack_generated_read p k abs (host.read_file abs) >>= λ q. pack_generated entries q ks
  ]

  abbrev pub put_external_file : Packed → Bytes → Bytes → Packed
  put_external_file p abs c =
      let (t, res) = put_external codec p.tables abs c in
      record { tables = t; sum = count_external p.sum res }

  pub pack_external_read : Packed → Bytes → FileRead → PackResult Packed
  pack_external_read p abs missing = ok p
  pack_external_read p abs unreadable = failed (unreadable_file abs)
  pack_external_read p abs (content c) = ok (put_external_file p abs c)

  pub pack_external : Packed → List Bytes → PackResult Packed
  pack_external p [] = ok p
  pack_external p (abs ∷ rest) =
      pack_external_read p abs (host.read_file abs) >>= λ q. pack_external q rest

  -- the three loops, and the check of the patterns
  pub pack : Bool → Tables → Entries → PackResult Packed
  pack strict db es = do
    p ←
        pack_sources strict es.entries (record { tables = db; sum = no_sources })
          (sorted_keys es.entries)
    q ← pack_generated es.generated_entries p (sorted_keys es.generated_entries)
    r ← pack_external q (sort_by str_ltb es.external_entries)
    _ ← refuse_zero (zero_hits es.glob_hits)
    ok (record r { sum = record r.sum { glob_match_count = es.glob_hits } })

  -- pass 1 and pass 2
  pub collect :
      PathResolver → List ExternalGlob → List MesonTarget → List Bytes → PackResult Entries
  collect pr globs targets objects = do
    es ← mark_targets host pr (no_entries globs) targets
    log ← log_for_build_dir (host.read_file (pr.file_path.join pr.build_dir (codes ".ninja_deps")))
    ok (mark_headers host pr globs log es objects)

  -- the transaction that is open is committed, or rolled back on any error
  abbrev pub finish : Tables → PackResult Packed → Tables × PackResult SourcesSummary
  finish db (failed e) = ((rollback (record { committed = db; tx = some db })).committed, failed e)
  finish db (ok p) =
      ((commit (record { committed = db; tx = some p.tables })).0.committed, ok p.sum)

  -- `Sources`
  pub sources :
      Tables
      → PathResolver
      → Bool
      → List ExternalGlob
      → List MesonTarget
      → List Bytes
      → Tables × PackResult SourcesSummary
  sources db pr strict globs targets objects =
      finish db (collect pr globs targets objects >>= λ es. pack strict db es)
