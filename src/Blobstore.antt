-- ===== src/Blobstore.antt =====
-- internal/blobstore/blobstore.go: sources as compressed blobs, one for each content.
pub mod Filed
mod Blobs
pub mod Kept
mod Tests
use herbarium.Base.{
  ℕ, Bool, true, false, List, [], Option, none, some, Bytes, lookup, insert, list_eq, nat_eq,
  length,
}

-- what the code calls: SHA-256 in hexadecimal, and zstd
pub record Codec : Type 0 where
  pub hash : Bytes → Bytes
  pub encode_all : Bytes → Bytes

pub record Blob : Type 0 where
  pub size : ℕ
  pub content : Bytes

pub record SourceRow : Type 0 where
  pub blob_hash : Bytes
  pub is_generated : Bool

-- the tables that the writer fills
pub record Tables : Type 0 where
  pub blobs : List (Bytes × Blob)
  pub sources : List (Bytes × SourceRow)
  pub external_sources : List (Bytes × Bytes)
  pub generated_sources : List (Bytes × Bytes)

pub record PutResult : Type 0 where
  pub hash : Bytes
  pub size : ℕ
  pub deduplicated : Bool

module _ (codec : Codec) where
  abbrev pub blob_of : Bytes → Blob
  blob_of content = record { size = length content; content = codec.encode_all content }

  unfoldable pub put_blob : Tables → Bytes → Tables × PutResult
  put_blob t content =
      let hash = codec.hash content in
      elim (lookup hash t.blobs) [
        | some b ↦ (t, record { hash = hash; size = length content; deduplicated = true })
        | none ↦ (
          record t { blobs = insert hash (blob_of content) t.blobs },
          record { hash = hash; size = length content; deduplicated = false },
        )
      ]

  unfoldable pub put : Tables → Bytes → Bytes → Bool → Tables × PutResult
  put t path content is_generated =
      let (u, res) = put_blob t content in
      (
        record u {
          sources =
              insert path (record { blob_hash = res.hash; is_generated = is_generated }) u.sources;
        },
        res,
      )

  unfoldable pub put_external : Tables → Bytes → Bytes → Tables × PutResult
  put_external t abs_path content =
      let (u, res) = put_blob t content in
      (record u { external_sources = insert abs_path res.hash u.external_sources }, res)

  unfoldable pub put_generated : Tables → Bytes → Bytes → Tables × PutResult
  put_generated t builddir_rel content =
      let (u, res) = put_blob t content in
      (record u { generated_sources = insert builddir_rel res.hash u.generated_sources }, res)

-- a writer: what is committed, and the transaction, if it is open
pub record Writer : Type 0 where
  pub committed : Tables
  pub tx : Option Tables

-- the flag says whether the writer was finalized already, which is the error
unfoldable pub commit : Writer → Writer × Bool
commit w = elim w.tx [ none ↦ (w, true) | some t ↦ (record { committed = t; tx = none }, false) ]

unfoldable pub rollback : Writer → Writer
rollback w = elim w.tx [ none ↦ w | some t ↦ record w { tx = none } ]
