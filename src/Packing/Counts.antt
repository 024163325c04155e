-- ===== src/Packing/Counts.antt =====
-- What the summary of `Sources` counts.
use herbarium.Base.{
  ℕ, suc, ◌+◌, ◌≡◌, refl, ◌∙◌, inl, inr, arith, Bool, true, false, not, List, [], ◌∷◌, none, Bytes,
  lookup, insert, length, list_eq, nat_eq, Option-cases, Bool-cases, sort_by, str_ltb, subst,
}
use herbarium.Blobstore.{Codec, Tables, Blob, blob_of, put_blob, put, put_external, put_generated}
use herbarium.Ingest.Paths.{PathResolver}
use herbarium.ExternalGlob.{ExternalGlob}
use herbarium.Packing.{
  Packed, SourcesSummary, no_sources, count_if, count_source, count_generated, count_external,
  if_strict, put_entry, pack_read, pack_source, pack_sources, put_generated_file,
  pack_generated_read, pack_generated, put_external_file, pack_external_read, pack_external,
  refuse_zero, zero_hits, sorted_keys, pack, sources,
}
use herbarium.Packing.Marked.{
  Host, FileRead, content, missing, unreadable, ok, PackEntry, Entries, MesonTarget,
}
use herbarium.Packing.Marked.Grown.{ok_injective, failed_ne, both_ok}
use herbarium.Packing.Runs.{sources-ok}

length-insert :
    (k : Bytes) (b : Blob) (m : List (Bytes × Blob))
    → lookup k m ≡ none
    → length (insert k b m) ≡ suc (length m)
length-insert k b [] h = refl
length-insert k b ((j, w) ∷ m) h = ground (arith, length-insert k b m)

module _ (codec : Codec) where
  -- one blob more, unless the content was there
  put_blob-length :
      (t : Tables) (c : Bytes)
      → length (put_blob codec t c).0.blobs
        ≡ length t.blobs + count_if (not (put_blob codec t c).1.deduplicated) 0
  unfolding put_blob
  put_blob-length t c = elim (Option-cases (lookup (codec.hash c) t.blobs)) [
    | inl e ↦
        rw (e, put_blob) (length-insert (codec.hash c) (blob_of codec c) t.blobs e ∙ omega arith)
    | inr (b, e) ↦ rw (e, put_blob) (omega arith)
  ]

  -- Every file is a new blob or a duplicate, and the blobs are as many as were there and are new.
  abbrev pub AddsUp : ℕ → Packed → Type 0
  AddsUp before p =
      (p.sum.blobs + p.sum.duplicates ≡ p.sum.files + p.sum.generated_files + p.sum.external_files)
      × (length p.tables.blobs ≡ before + p.sum.blobs)

  abbrev all_files : SourcesSummary → ℕ
  all_files sum = sum.files + sum.generated_files + sum.external_files

  -- one file more, new or a duplicate
  one_more-AddsUp :
      (before : ℕ) (p q : Packed) (duplicate : Bool)
      → q.sum.blobs ≡ count_if (not duplicate) p.sum.blobs
      → q.sum.duplicates ≡ count_if duplicate p.sum.duplicates
      → all_files q.sum ≡ suc (all_files p.sum)
      → length q.tables.blobs ≡ length p.tables.blobs + count_if (not duplicate) 0
      → AddsUp before p
      → AddsUp before q
  one_more-AddsUp before p q true b d f l h = (omega arith, omega arith)
  one_more-AddsUp before p q false b d f l h = (omega arith, omega arith)

  module _ (host : Host) (before : ℕ) where
    put_entry-AddsUp :
        (p : Packed) (e : PackEntry) (c : Bytes)
        → AddsUp before p
        → AddsUp before (put_entry host codec p e c)
    unfolding put count_source
    put_entry-AddsUp p e c h =
        one_more-AddsUp before p (put_entry host codec p e c)
          (put_blob codec p.tables c).1.deduplicated refl refl (omega arith)
          (put_blob-length p.tables c) h

    put_generated_file-AddsUp :
        (p : Packed) (k c : Bytes)
        → AddsUp before p
        → AddsUp before (put_generated_file host codec p k c)
    unfolding put_generated count_generated
    put_generated_file-AddsUp p k c h =
        one_more-AddsUp before p (put_generated_file host codec p k c)
          (put_blob codec p.tables c).1.deduplicated refl refl (omega arith)
          (put_blob-length p.tables c) h

    put_external_file-AddsUp :
        (p : Packed) (a c : Bytes)
        → AddsUp before p
        → AddsUp before (put_external_file host codec p a c)
    unfolding put_external count_external
    put_external_file-AddsUp p a c h =
        one_more-AddsUp before p (put_external_file host codec p a c)
          (put_blob codec p.tables c).1.deduplicated refl refl (omega arith)
          (put_blob-length p.tables c) h

    pack_read-AddsUp :
        (strict : Bool) (p : Packed) (e : PackEntry) (r : FileRead) (q : Packed)
        → pack_read host codec strict p e r ≡ ok q
        → AddsUp before p
        → AddsUp before q
    unfolding pack_read
    pack_read-AddsUp strict p e missing q h a = elim (Bool-cases e.required) [
      | inl needed ↦ absurd (failed_ne (rw needed at h))
      | inr free ↦ subst (AddsUp before) (ok_injective (rw free at h)) a
    ]
    pack_read-AddsUp strict p e unreadable q h a = absurd (failed_ne h)
    pack_read-AddsUp strict p e (content c) q h a =
        let (u, passed, same) = both_ok (if_strict host codec strict e) _ h in
        subst (AddsUp before) (ok_injective same) (put_entry-AddsUp p e c a)

    pack_sources-AddsUp :
        (strict : Bool) (entries : List (Bytes × PackEntry)) (p : Packed) (ks : List Bytes)
        (q : Packed)
        → pack_sources host codec strict entries p ks ≡ ok q
        → AddsUp before p
        → AddsUp before q
    unfolding pack_sources
    pack_sources-AddsUp strict entries p [] q h a = subst (AddsUp before) (ok_injective h) a
    pack_sources-AddsUp strict entries p (k ∷ ks) q h a = elim (Option-cases (lookup k entries)) [
      | inl away ↦ pack_sources-AddsUp strict entries p ks q (rw (away, pack_sources) at h) a
      | inr (e, found) ↦
          let (r, first, rest) =
            both_ok (pack_source host codec strict p e) _ (rw (found, pack_sources) at h) in
          pack_sources-AddsUp strict entries r ks q rest
            (pack_read-AddsUp strict p e (host.read_file e.abs_path) r first a)
    ]

    generated_read-AddsUp :
        (p : Packed) (k abs : Bytes) (r : FileRead) (q : Packed)
        → pack_generated_read host codec p k abs r ≡ ok q
        → AddsUp before p
        → AddsUp before q
    unfolding pack_generated_read
    generated_read-AddsUp p k abs missing q h a = subst (AddsUp before) (ok_injective h) a
    generated_read-AddsUp p k abs unreadable q h a = absurd (failed_ne h)
    generated_read-AddsUp p k abs (content c) q h a =
        subst (AddsUp before) (ok_injective h) (put_generated_file-AddsUp p k c a)

    pack_generated-AddsUp :
        (entries : List (Bytes × Bytes)) (p : Packed) (ks : List Bytes) (q : Packed)
        → pack_generated host codec entries p ks ≡ ok q
        → AddsUp before p
        → AddsUp before q
    unfolding pack_generated
    pack_generated-AddsUp entries p [] q h a = subst (AddsUp before) (ok_injective h) a
    pack_generated-AddsUp entries p (k ∷ ks) q h a = elim (Option-cases (lookup k entries)) [
      | inl away ↦ pack_generated-AddsUp entries p ks q (rw (away, pack_generated) at h) a
      | inr (abs, found) ↦
          let (r, first, rest) =
            both_ok (pack_generated_read host codec p k abs (host.read_file abs)) _
              (rw (found, pack_generated) at h) in
          pack_generated-AddsUp entries r ks q rest
            (generated_read-AddsUp p k abs (host.read_file abs) r first a)
    ]

    external_read-AddsUp :
        (p : Packed) (abs : Bytes) (r : FileRead) (q : Packed)
        → pack_external_read host codec p abs r ≡ ok q
        → AddsUp before p
        → AddsUp before q
    unfolding pack_external_read
    external_read-AddsUp p abs missing q h a = subst (AddsUp before) (ok_injective h) a
    external_read-AddsUp p abs unreadable q h a = absurd (failed_ne h)
    external_read-AddsUp p abs (content c) q h a =
        subst (AddsUp before) (ok_injective h) (put_external_file-AddsUp p abs c a)

    pack_external-AddsUp :
        (p : Packed) (l : List Bytes) (q : Packed)
        → pack_external host codec p l ≡ ok q
        → AddsUp before p
        → AddsUp before q
    unfolding pack_external
    pack_external-AddsUp p [] q h a = subst (AddsUp before) (ok_injective h) a
    pack_external-AddsUp p (abs ∷ l) q h a =
        let (r, first, rest) =
          both_ok (pack_external_read host codec p abs (host.read_file abs)) _ h in
        pack_external-AddsUp r l q rest (external_read-AddsUp p abs (host.read_file abs) r first a)

  pack-AddsUp :
      (host : Host) (strict : Bool) (db : Tables) (es : Entries) (q : Packed)
      → pack host codec strict db es ≡ ok q
      → AddsUp (length db.blobs) q
  unfolding pack
  pack-AddsUp host strict db es q h =
      let start : Packed = record { tables = db; sum = no_sources } in
      let n = length db.blobs in
      let (p, first, h1) =
        both_ok (pack_sources host codec strict es.entries start (sorted_keys es.entries)) _ h in
      let (r, second, h2) =
        both_ok
          (pack_generated host codec es.generated_entries p (sorted_keys es.generated_entries)) _
          h1 in
      let (s, third, h3) =
        both_ok (pack_external host codec r (sort_by str_ltb es.external_entries)) _ h2 in
      let (u, fourth, h4) = both_ok (refuse_zero (zero_hits es.glob_hits)) _ h3 in
      let a : AddsUp n start = (omega arith, omega arith) in
      let b =
        pack_sources-AddsUp host n strict es.entries start (sorted_keys es.entries) p first a in
      let c =
        pack_generated-AddsUp host n es.generated_entries p (sorted_keys es.generated_entries) r
          second b in
      let d = pack_external-AddsUp host n r (sort_by str_ltb es.external_entries) s third c in
      subst (AddsUp n) (ok_injective h4) d

-- In the summary of a run that succeeds every file that was written is a blob or a duplicate, and
-- the blobs are those that the table has more than before.
pub sources-AddsUp :
    (host : Host) (codec : Codec) (pr : PathResolver) (db : Tables) (strict : Bool)
    (globs : List ExternalGlob) (targets : List MesonTarget) (objects : List Bytes) (u : Tables)
    (sum : SourcesSummary)
    → sources host codec db pr strict globs targets objects ≡ (u, ok sum)
    → AddsUp codec (length db.blobs) (record { tables = u; sum = sum })
sources-AddsUp host codec pr db strict globs targets objects u sum h =
    let (es, q, first, second, is_q) =
      sources-ok host codec pr db strict globs targets objects u sum h in
    subst (AddsUp codec (length db.blobs)) is_q (pack-AddsUp codec host strict db es q second)
