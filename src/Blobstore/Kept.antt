-- ===== src/Blobstore/Kept.antt =====
-- What is put can be read back, and what was there stays.
use herbarium.Base.{
  ◌≡◌, ap, inl, inr, arith, Bool, true, Option, some, Bytes, lookup, insert, list_eq, nat_eq,
  Bool-cases, if◌then◌else◌, lookup-insert, list_beq,
}
use herbarium.Blobstore.{Codec, SourceRow, Tables, put_blob, put, put_external, put_generated}
use herbarium.Blobstore.Blobs.{
  put_blob-IsFiled, put_blob-Linked, fetch-put_blob, put_blob-hash, put_blob-tables, row-fetch,
  row-Linked, hash_row,
}
use herbarium.Blobstore.Filed.{
  read_source, read_external, read_generated, hash_of, source_rows, external_rows, generated_rows,
  IsWellFormed, put_blob-has, put_blob-found,
}

module _ (codec : Codec) (decode : Bytes → Option Bytes)
    (decode-encode_all : (c : Bytes) → decode (codec.encode_all c) ≡ some c)
    (no_collision : (c d : Bytes) → codec.hash c ≡ codec.hash d → c ≡ d) where
  put-source_rows :
      (t : Tables) (path content : Bytes) (is_generated : Bool) (q : Bytes)
      → source_rows (put codec t path content is_generated).0 q
        ≡ (if list_beq path q then some (codec.hash content) else source_rows t q)
  unfolding put
  put-source_rows t path content is_generated q =
      let u : Tables = (put_blob codec t content).0 in
      let row : SourceRow = record {
        blob_hash = (put_blob codec t content).1.hash;
        is_generated = is_generated;
      } in
      elim (Bool-cases (list_beq path q)) [
        | inl same ↦
            let at : lookup q (insert path row u.sources) ≡ some row =
              ground (arith, lookup-insert path q row u.sources) in
            rw (at, same)
              (ap some (put_blob-hash codec decode decode-encode_all no_collision t content))
        | inr other ↦
            let at : lookup q (insert path row u.sources) ≡ lookup q u.sources =
              ground (arith, lookup-insert path q row u.sources) in
            rw (at, other)
              (ap (λ x. hash_of (lookup q x))
                (put_blob-tables codec decode decode-encode_all no_collision t content).0)
      ]

  -- After `Put` of a content under a path, the path reads as the content, whether the blob was new
  -- or shared, and every other path, and every path of the other two tables, reads as before.
  pub put_lem :
      (t : Tables) (path content : Bytes) (is_generated : Bool)
      → IsWellFormed codec t
      → IsWellFormed codec (put codec t path content is_generated).0
        × ((q : Bytes)
            → read_source decode (put codec t path content is_generated).0 q
              ≡ (if list_beq path q then some content else read_source decode t q))
        × ((q : Bytes)
            → read_external decode (put codec t path content is_generated).0 q
              ≡ read_external decode t q)
        × ((q : Bytes)
            → read_generated decode (put codec t path content is_generated).0 q
              ≡ read_generated decode t q)
  unfolding put
  put_lem t path content is_generated (filed, of_source, of_external, of_generated) =
      let u : Tables = (put_blob codec t content).0 in
      let row : SourceRow = record {
        blob_hash = (put_blob codec t content).1.hash;
        is_generated = is_generated;
      } in
      let (same_s, same_e, same_g) =
        put_blob-tables codec decode decode-encode_all no_collision t content in
      (
        (
          put_blob-IsFiled codec decode decode-encode_all no_collision t content filed,
          row-Linked codec decode decode-encode_all no_collision t path content (source_rows t)
              (source_rows (put codec t path content is_generated).0)
              (put-source_rows t path content is_generated) of_source,
          rw same_e (
              put_blob-Linked codec decode decode-encode_all no_collision t content
                (external_rows t) of_external),
          rw same_g (
              put_blob-Linked codec decode decode-encode_all no_collision t content
                (generated_rows t) of_generated),
        ),
        row-fetch codec decode decode-encode_all no_collision t path content (source_rows t)
            (source_rows (put codec t path content is_generated).0)
            (put-source_rows t path content is_generated) filed of_source,
        (λ q. rw same_e (
            fetch-put_blob codec decode decode-encode_all no_collision t content (external_rows t) q
              of_external)),
        (λ q. rw same_g (
            fetch-put_blob codec decode decode-encode_all no_collision t content (generated_rows t)
              q of_generated)),
      )

  pub put_external_lem :
      (t : Tables) (path content : Bytes)
      → IsWellFormed codec t
      → IsWellFormed codec (put_external codec t path content).0
        × ((q : Bytes)
            → read_source decode (put_external codec t path content).0 q ≡ read_source decode t q)
        × ((q : Bytes)
            → read_external decode (put_external codec t path content).0 q
              ≡ (if list_beq path q then some content else read_external decode t q))
        × ((q : Bytes)
            → read_generated decode (put_external codec t path content).0 q
              ≡ read_generated decode t q)
  unfolding put_external
  put_external_lem t path content (filed, of_source, of_external, of_generated) =
      let (same_s, same_e, same_g) =
        put_blob-tables codec decode decode-encode_all no_collision t content in
      let row : (q : Bytes)
          → external_rows (put_external codec t path content).0 q
            ≡ (if list_beq path q then some (codec.hash content) else external_rows t q) =
        (λ q. rw same_e (
          hash_row codec decode decode-encode_all no_collision t path content t.external_sources
            q)) in
      (
        (
          put_blob-IsFiled codec decode decode-encode_all no_collision t content filed,
          rw same_s (
              put_blob-Linked codec decode decode-encode_all no_collision t content (source_rows t)
                of_source),
          row-Linked codec decode decode-encode_all no_collision t path content (external_rows t)
              (external_rows (put_external codec t path content).0) row of_external,
          rw same_g (
              put_blob-Linked codec decode decode-encode_all no_collision t content
                (generated_rows t) of_generated),
        ),
        (λ q. rw same_s (
            fetch-put_blob codec decode decode-encode_all no_collision t content (source_rows t) q
              of_source)),
        row-fetch codec decode decode-encode_all no_collision t path content (external_rows t)
            (external_rows (put_external codec t path content).0) row filed of_external,
        (λ q. rw same_g (
            fetch-put_blob codec decode decode-encode_all no_collision t content (generated_rows t)
              q of_generated)),
      )

  pub put_generated_lem :
      (t : Tables) (path content : Bytes)
      → IsWellFormed codec t
      → IsWellFormed codec (put_generated codec t path content).0
        × ((q : Bytes)
            → read_source decode (put_generated codec t path content).0 q ≡ read_source decode t q)
        × ((q : Bytes)
            → read_external decode (put_generated codec t path content).0 q
              ≡ read_external decode t q)
        × ((q : Bytes)
            → read_generated decode (put_generated codec t path content).0 q
              ≡ (if list_beq path q then some content else read_generated decode t q))
  unfolding put_generated
  put_generated_lem t path content (filed, of_source, of_external, of_generated) =
      let (same_s, same_e, same_g) =
        put_blob-tables codec decode decode-encode_all no_collision t content in
      let row : (q : Bytes)
          → generated_rows (put_generated codec t path content).0 q
            ≡ (if list_beq path q then some (codec.hash content) else generated_rows t q) =
        (λ q. rw same_g (
          hash_row codec decode decode-encode_all no_collision t path content t.generated_sources
            q)) in
      (
        (
          put_blob-IsFiled codec decode decode-encode_all no_collision t content filed,
          rw same_s (
              put_blob-Linked codec decode decode-encode_all no_collision t content (source_rows t)
                of_source),
          rw same_e (
              put_blob-Linked codec decode decode-encode_all no_collision t content
                (external_rows t) of_external),
          row-Linked codec decode decode-encode_all no_collision t path content (generated_rows t)
              (generated_rows (put_generated codec t path content).0) row of_generated,
        ),
        (λ q. rw same_s (
            fetch-put_blob codec decode decode-encode_all no_collision t content (source_rows t) q
              of_source)),
        (λ q. rw same_e (
            fetch-put_blob codec decode decode-encode_all no_collision t content (external_rows t) q
              of_external)),
        row-fetch codec decode decode-encode_all no_collision t path content (generated_rows t)
            (generated_rows (put_generated codec t path content).0) row filed of_generated,
      )

-- A content that is put once is not stored again, under whatever path or table it comes next.
pub put_blob-dedup :
    (codec : Codec) (t : Tables) (path content : Bytes) (is_generated : Bool) (abs : Bytes)
    → ((put_external codec (put codec t path content is_generated).0 abs content).0.blobs
        ≡ (put codec t path content is_generated).0.blobs)
      × ((put_external codec (put codec t path content is_generated).0 abs content).1.deduplicated
          ≡ true)
unfolding put put_external
put_blob-dedup codec t path content is_generated abs =
    let (b, found) = put_blob-has codec t content in
    let u : Tables = (put codec t path content is_generated).0 in
    let e : put_blob codec u content ≡ _ = put_blob-found codec u content b found in
    (ap (λ x. x.0.blobs) e, ap (λ x. x.1.deduplicated) e)
