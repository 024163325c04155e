-- ===== src/Packing/Runs.antt =====
-- A run of `Sources` that succeeds, taken apart.
use herbarium.Base.{◌≡◌, ◌⊎◌, refl, sym, ap, inl, inr, Bool, List, Option, Bytes, codes, none_ne}
use herbarium.Blobstore.{Codec, Tables, commit, rollback}
use herbarium.Ingest.Paths.{PathResolver}
use herbarium.ExternalGlob.{ExternalGlob}
use herbarium.NinjaDeps.{Log}
use herbarium.Packing.{Packed, SourcesSummary, pack, collect, finish, sources}
use herbarium.Packing.Marked.{
  Host, PackError, PackResult, ok, failed, ◌>>=◌, Entries, MesonTarget, no_entries, mark_targets,
  mark_headers, log_for_build_dir,
}
use herbarium.Packing.Marked.Grown.{
  IsShaped, ok_injective, failed_ne, both_ok, mark_targets-Grows, mark_headers-Grows,
}

module _ (host : Host) (codec : Codec) (pr : PathResolver) where
  finish_lem :
      (db : Tables) (m : PackResult Packed) (u : Tables) (sum : SourcesSummary)
      → finish host codec db m ≡ (u, ok sum)
      → m ≡ ok (record { tables = u; sum = sum })
  unfolding commit rollback
  finish_lem db (failed e) u sum h = absurd (failed_ne (ap (λ x. x.1) h))
  finish_lem db (ok q) u sum h = cc

  pub run_cases :
      (db : Tables) (strict : Bool) (globs : List ExternalGlob) (targets : List MesonTarget)
      (objects : List Bytes)
      → ((u : Tables) × (sum : SourcesSummary) × (sources host codec db pr strict globs targets
              objects
            ≡ (u, ok sum)))
        ⊎ ((e : PackError) × (sources host codec db pr strict globs targets objects
              ≡ (db, failed e)))
  unfolding sources commit rollback
  run_cases db strict globs targets objects =
      elim (collect host codec pr globs targets objects >>= λ es. pack host codec strict db es)
        as (λ m.
          ((u : Tables) × (sum : SourcesSummary) × (finish host codec db m ≡ (u, ok sum)))
          ⊎ ((e : PackError) × (finish host codec db m ≡ (db, failed e)))) [
            | ok q ↦ inl (q.tables, q.sum, refl)
            | failed e ↦ inr (e, refl)
          ]

  -- the entries of a run that succeeds
  pub sources-ok :
      (db : Tables) (strict : Bool) (globs : List ExternalGlob) (targets : List MesonTarget)
      (objects : List Bytes) (u : Tables) (sum : SourcesSummary)
      → sources host codec db pr strict globs targets objects ≡ (u, ok sum)
      → (es : Entries) × (q : Packed) × (collect host codec pr globs targets objects ≡ ok es)
        × (pack host codec strict db es ≡ ok q)
        × (q ≡ record { tables = u; sum = sum })
  unfolding sources
  sources-ok db strict globs targets objects u sum h =
      let m : PackResult Packed =
        collect host codec pr globs targets objects >>= λ es. pack host codec strict db es in
      let q : Packed = record { tables = u; sum = sum } in
      let ran = finish_lem db m u sum h in
      let (es, first, second) = both_ok (collect host codec pr globs targets objects) _ ran in
      (es, q, first, second, refl)

  -- the parts of a first half that succeeds
  pub collect-ok :
      (globs : List ExternalGlob) (targets : List MesonTarget) (objects : List Bytes) (es : Entries)
      → collect host codec pr globs targets objects ≡ ok es
      → (fs : Entries) × (log : Option Log) × (mark_targets host pr (no_entries globs) targets
          ≡ ok fs)
        × (log_for_build_dir (host.read_file (pr.file_path.join pr.build_dir (codes ".ninja_deps")))
            ≡ ok log)
        × (mark_headers host pr globs log fs objects ≡ es)
  unfolding collect
  collect-ok globs targets objects es h =
      let (fs, first, h1) = both_ok (mark_targets host pr (no_entries globs) targets) _ h in
      let (log, second, h2) =
        both_ok
          (log_for_build_dir
            (host.read_file (pr.file_path.join pr.build_dir (codes ".ninja_deps"))))
          _ h1 in
      (fs, log, first, second, ok_injective h2)

  no_entries-IsShaped : (globs : List ExternalGlob) → IsShaped host pr (no_entries globs)
  no_entries-IsShaped globs k e h = absurd (none_ne h)

  pub collect-IsShaped :
      (globs : List ExternalGlob) (targets : List MesonTarget) (objects : List Bytes) (es : Entries)
      → collect host codec pr globs targets objects ≡ ok es
      → IsShaped host pr es
  collect-IsShaped globs targets objects es h =
      let (fs, log, first, second, is_es) = collect-ok globs targets objects es h in
      let (grows, sources) = mark_targets-Grows host pr (no_entries globs) targets fs first in
      rw (sym is_es) (
        (mark_headers-Grows host pr globs log fs objects).shape
          (grows.shape (no_entries-IsShaped globs)))
