-- ===== src/Blobstore/Blobs.antt =====
-- Storing one blob: it can be fetched, every other one stays, and the rows are not touched.
use herbarium.Base.{
  ◌≡◌, refl, sym, ap, ◌∙◌, subst, inl, inr, arith, List, Option, some, Bytes, lookup, insert,
  list_eq, nat_eq, Option-cases, Bool-cases, if◌then◌else◌, lookup-insert, lookup-insert_self,
  list_beq, list_beq_iff,
}
use herbarium.Blobstore.{Codec, Blob, Tables, blob_of, put_blob}
use herbarium.Blobstore.Filed.{fetch, IsFiled, Linked, Keeps, put_blob-has}

module _ (codec : Codec) (decode : Bytes → Option Bytes)
    (decode-encode_all : (c : Bytes) → decode (codec.encode_all c) ≡ some c)
    (no_collision : (c d : Bytes) → codec.hash c ≡ codec.hash d → c ≡ d) where
  put_blob-Keeps : (t : Tables) (content : Bytes) → Keeps t (put_blob codec t content).0
  unfolding put_blob
  put_blob-Keeps t content h b found = elim (Option-cases (lookup (codec.hash content) t.blobs)) [
    | inr (c, e) ↦ rw (e, put_blob) found
    | inl e ↦
        rw (e, put_blob) ground
          (
            arith,
            lookup-insert (codec.hash content) h (blob_of codec content) t.blobs,
            list_beq_iff (codec.hash content) h,
          )
  ]

  pub put_blob-IsFiled :
      (t : Tables) (content : Bytes) → IsFiled codec t → IsFiled codec (put_blob codec t content).0
  unfolding put_blob
  put_blob-IsFiled t content filed = elim (Option-cases (lookup (codec.hash content) t.blobs)) [
    | inr (c, e) ↦ rw (e, put_blob) filed
    | inl e ↦
        rw (e, put_blob)
          (λ h b found. elim (Bool-cases (list_beq (codec.hash content) h)) [
            | inl same ↦
                let at : lookup h (insert (codec.hash content) (blob_of codec content) t.blobs)
                    ≡ some (blob_of codec content) =
                  ground
                    (arith, lookup-insert (codec.hash content) h (blob_of codec content) t.blobs) in
                let is_blob : blob_of codec content ≡ b = cc in
                let is_hash : codec.hash content ≡ h =
                  (list_beq_iff (codec.hash content) h).0 same in
                (
                  content,
                  sym is_hash,
                  ap (λ x. x.content) (sym is_blob),
                  ap (λ x. x.size) (sym is_blob),
                )
            | inr other ↦ filed h b (
                ground
                  (arith, lookup-insert (codec.hash content) h (blob_of codec content) t.blobs))
          ])
  ]

  fetch_found :
      (blobs : List (Bytes × Blob)) (h : Bytes) (b : Blob)
      → lookup h blobs ≡ some b
      → fetch decode blobs (some h) ≡ decode b.content
  fetch_found blobs h b e = rw (e, fetch) refl

  pub put_blob-hash :
      (t : Tables) (content : Bytes) → (put_blob codec t content).1.hash ≡ codec.hash content
  unfolding put_blob
  put_blob-hash t content = elim (Option-cases (lookup (codec.hash content) t.blobs)) [
    | inr (b, e) ↦ rw (e, put_blob) refl
    | inl e ↦ rw (e, put_blob) refl
  ]

  pub put_blob-fetch :
      (t : Tables) (content : Bytes)
      → IsFiled codec t
      → fetch decode (put_blob codec t content).0.blobs (some (codec.hash content)) ≡ some content
  unfolding put_blob
  put_blob-fetch t content filed = elim (Option-cases (lookup (codec.hash content) t.blobs)) [
    | inr (b, e) ↦
        let (c, is_hash, is_content, is_size) = filed (codec.hash content) b e in
        rw (e, put_blob)
          (fetch_found t.blobs (codec.hash content) b e
            ∙ ap decode is_content
            ∙ decode-encode_all c
            ∙ ap some (sym (no_collision content c is_hash)))
    | inl e ↦
        rw (e, put_blob)
          (fetch_found _ (codec.hash content) (blob_of codec content)
              (lookup-insert_self (codec.hash content) (blob_of codec content) t.blobs)
            ∙ decode-encode_all content)
  ]

  pub put_blob-Linked :
      (t : Tables) (content : Bytes) (rows : Bytes → Option Bytes)
      → Linked t.blobs rows
      → Linked (put_blob codec t content).0.blobs rows
  put_blob-Linked t content rows linked q h e =
      let (b, found) = linked q h e in (b, put_blob-Keeps t content h b found)

  -- a row whose blob is there reads as it did
  pub fetch-put_blob :
      (t : Tables) (content : Bytes) (rows : Bytes → Option Bytes) (q : Bytes)
      → Linked t.blobs rows
      → fetch decode (put_blob codec t content).0.blobs (rows q) ≡ fetch decode t.blobs (rows q)
  fetch-put_blob t content rows q linked = elim (Option-cases (rows q)) [
    | inl e ↦ rw e refl
    | inr (h, e) ↦
        let (b, found) = linked q h e in
        rw e (
          fetch_found (put_blob codec t content).0.blobs h b (put_blob-Keeps t content h b found)
          ∙ sym (fetch_found t.blobs h b found))
  ]

  pub put_blob-tables :
      (t : Tables) (content : Bytes)
      → ((put_blob codec t content).0.sources ≡ t.sources)
        × ((put_blob codec t content).0.external_sources ≡ t.external_sources)
        × ((put_blob codec t content).0.generated_sources ≡ t.generated_sources)
  unfolding put_blob
  put_blob-tables t content = elim (Option-cases (lookup (codec.hash content) t.blobs)) [
    | inr (b, e) ↦ rw (e, put_blob) (refl, refl, refl)
    | inl e ↦ rw (e, put_blob) (refl, refl, refl)
  ]

  -- A row that points to the new blob: its path reads as the content, and the others as before.
  pub row-fetch :
      (t : Tables) (path content : Bytes) (rows rows' : Bytes → Option Bytes)
      → ((q : Bytes) → rows' q ≡ (if list_beq path q then some (codec.hash content) else rows q))
      → IsFiled codec t
      → Linked t.blobs rows
      → (q : Bytes)
      → fetch decode (put_blob codec t content).0.blobs (rows' q)
        ≡ (if list_beq path q then some content else fetch decode t.blobs (rows q))
  row-fetch t path content rows rows' row filed linked q = elim (Bool-cases (list_beq path q)) [
    | inl same ↦
        let at : rows' q ≡ some (codec.hash content) = row q ∙ rw same refl in
        rw (at, same) (put_blob-fetch t content filed)
    | inr other ↦
        let at : rows' q ≡ rows q = row q ∙ rw other refl in
        rw (at, other) (fetch-put_blob t content rows q linked)
  ]

  pub row-Linked :
      (t : Tables) (path content : Bytes) (rows rows' : Bytes → Option Bytes)
      → ((q : Bytes) → rows' q ≡ (if list_beq path q then some (codec.hash content) else rows q))
      → Linked t.blobs rows
      → Linked (put_blob codec t content).0.blobs rows'
  row-Linked t path content rows rows' row linked q h e =
      let at : rows' q ≡ (if list_beq path q then some (codec.hash content) else rows q) = row q in
      elim (Bool-cases (list_beq path q)) [
        | inl same ↦
            let is_h : codec.hash content ≡ h = ground (arith, at) in
            subst (λ x. (b : Blob) × (lookup x (put_blob codec t content).0.blobs ≡ some b)) is_h
              (put_blob-has codec t content)
        | inr other ↦ put_blob-Linked t content rows linked q h (ground (arith, at))
      ]

  -- the row that `insert` writes in a table of hashes
  pub hash_row :
      (t : Tables) (path content : Bytes) (m : List (Bytes × Bytes)) (q : Bytes)
      → lookup q (insert path (put_blob codec t content).1.hash m)
        ≡ (if list_beq path q then some (codec.hash content) else lookup q m)
  hash_row t path content m q =
      rw (put_blob-hash t content) (lookup-insert path q (codec.hash content) m)
