-- ===== src/Blobstore/Filed.antt =====
-- Well-formed tables: blobs under the hash of their content, and rows whose blob is there.
use herbarium.Base.{
  ◌≡◌, refl, inl, inr, true, List, Option, none, some, Bytes, lookup, list_eq, nat_eq, length,
  Option-cases, lookup-insert_self,
}
use herbarium.Blobstore.{Codec, Blob, SourceRow, Tables, blob_of, put_blob}

-- the reader of the index: the row of the path, then the blob of its hash
abbrev pub fetch : (Bytes → Option Bytes) → List (Bytes × Blob) → Option Bytes → Option Bytes
fetch decode blobs none = none
fetch decode blobs (some h) = elim (lookup h blobs) [ none ↦ none | some b ↦ decode b.content ]

abbrev pub hash_of : Option SourceRow → Option Bytes
hash_of none = none
hash_of (some r) = some r.blob_hash

-- every blob is filed under the hash of its content
abbrev pub IsFiled : Codec → Tables → Type 0
IsFiled codec t =
    (h : Bytes) (b : Blob)
    → lookup h t.blobs ≡ some b
    → (c : Bytes) × (h ≡ codec.hash c) × (b.content ≡ codec.encode_all c) × (b.size ≡ length c)

-- the blob of every row is there
abbrev pub Linked : List (Bytes × Blob) → (Bytes → Option Bytes) → Type 0
Linked blobs rows = (q h : Bytes) → rows q ≡ some h → (b : Blob) × (lookup h blobs ≡ some b)

-- the hashes in the rows of the three tables
abbrev pub source_rows : Tables → Bytes → Option Bytes
source_rows t q = hash_of (lookup q t.sources)

abbrev pub external_rows : Tables → Bytes → Option Bytes
external_rows t q = lookup q t.external_sources

abbrev pub generated_rows : Tables → Bytes → Option Bytes
generated_rows t q = lookup q t.generated_sources

abbrev pub read_source : (Bytes → Option Bytes) → Tables → Bytes → Option Bytes
read_source decode t q = fetch decode t.blobs (source_rows t q)

abbrev pub read_external : (Bytes → Option Bytes) → Tables → Bytes → Option Bytes
read_external decode t q = fetch decode t.blobs (external_rows t q)

abbrev pub read_generated : (Bytes → Option Bytes) → Tables → Bytes → Option Bytes
read_generated decode t q = fetch decode t.blobs (generated_rows t q)

abbrev pub IsWellFormed : Codec → Tables → Type 0
IsWellFormed codec t =
    IsFiled codec t
    × Linked t.blobs (source_rows t)
    × Linked t.blobs (external_rows t)
    × Linked t.blobs (generated_rows t)

-- no blob is lost or changed
abbrev pub Keeps : Tables → Tables → Type 0
Keeps t u = (h : Bytes) (b : Blob) → lookup h t.blobs ≡ some b → lookup h u.blobs ≡ some b

pub put_blob-has :
    (codec : Codec) (t : Tables) (content : Bytes)
    → (b : Blob) × (lookup (codec.hash content) (put_blob codec t content).0.blobs ≡ some b)
unfolding put_blob
put_blob-has codec t content = elim (Option-cases (lookup (codec.hash content) t.blobs)) [
  | inr (b, e) ↦ (b, rw (e, put_blob) e)
  | inl e ↦ (
    blob_of codec content,
    rw (e, put_blob) (lookup-insert_self (codec.hash content) (blob_of codec content) t.blobs),
  )
]

pub put_blob-found :
    (codec : Codec) (t : Tables) (content : Bytes) (b : Blob)
    → lookup (codec.hash content) t.blobs ≡ some b
    → put_blob codec t content
      ≡ (t, record { hash = codec.hash content; size = length content; deduplicated = true })
unfolding put_blob
put_blob-found codec t content b e = rw (e, put_blob) refl
