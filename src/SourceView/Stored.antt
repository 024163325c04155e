-- ===== src/SourceView/Stored.antt =====
-- What a client reads is what was put last: the blob store and the reader refine three maps from
-- paths to contents.
use herbarium.Base.{
  none_ne, ◌≡◌, refl, sym, ap, ◌∙◌, inl, inr, Bool, true, false, List, [], ◌∷◌, Option, none, some,
  Bytes, codes, has_prefix, lookup, list_eq, nat_eq, Option-cases, Bool-cases, list_beq,
  if◌then◌else◌,
}
use herbarium.Blobstore.{Codec, Blob, Tables, put, put_external, put_generated}
use herbarium.Blobstore.Filed.{
  fetch, IsFiled, Linked, IsWellFormed, read_source, read_external, read_generated, source_rows,
  external_rows, generated_rows,
}
use herbarium.Blobstore.Kept.{put_lem, put_external_lem, put_generated_lem}
use herbarium.SourceView.{
  Result, ok, failed, ReadError, no_rows, no_indexed_source, read_blob, read_by_column,
  read_generated_source, read_source_by_path,
}

-- a call of the writer
pub data Call : Type 0 where
  call_put : Bytes → Bytes → Bool → Call
  call_put_external : Bytes → Bytes → Call
  call_put_generated : Bytes → Bytes → Call

-- what it does to the tables
abbrev pub call : Codec → Tables → Call → Tables
call codec t (call_put path content is_generated) = (put codec t path content is_generated).0
call codec t (call_put_external path content) = (put_external codec t path content).0
call codec t (call_put_generated path content) = (put_generated codec t path content).0

abbrev pub calls : Codec → Tables → List Call → Tables
calls codec t [] = t
calls codec t (c ∷ cs) = calls codec (call codec t c) cs

-- the abstract store: the content under each path
pub record Store : Type 0 where
  pub sources : Bytes → Option Bytes
  pub external : Bytes → Option Bytes
  pub generated : Bytes → Option Bytes

abbrev write : Bytes → Bytes → (Bytes → Option Bytes) → Bytes → Option Bytes
write path content m q = if list_beq path q then some content else m q

abbrev pub store : Store → Call → Store
store a (call_put path content is_generated) = record a { sources = write path content a.sources }
store a (call_put_external path content) = record a { external = write path content a.external }
store a (call_put_generated path content) = record a { generated = write path content a.generated }

abbrev pub stores : Store → List Call → Store
stores a [] = a
stores a (c ∷ cs) = stores (store a c) cs

abbrev pub no_tables : Tables
no_tables = record { blobs = []; sources = []; external_sources = []; generated_sources = [] }

abbrev pub no_store : Store
no_store = record { sources = λ q. none; external = λ q. none; generated = λ q. none }

abbrev answer : Codec → ReadError → Option Bytes → Result (Bytes × Bytes)
answer codec e none = failed e
answer codec e (some content) = ok (content, codec.hash content)

abbrev first_of : Option Bytes → Option Bytes → Option Bytes
first_of none b = b
first_of (some a) b = some a

-- An absolute path is an external one; any other is a source, or else a generated one.
abbrev pub read : Codec → Store → Bytes → Result (Bytes × Bytes)
read codec a path =
    if has_prefix path (codes "/")
    then answer codec no_rows (a.external path)
    else answer codec (no_indexed_source path) (first_of (a.sources path) (a.generated path))

-- tables that stand for a store
abbrev pub Refines : Codec → (Bytes → Option Bytes) → Tables → Store → Type 0
Refines codec decode t a =
    IsWellFormed codec t
    × ((q : Bytes) → read_source decode t q ≡ a.sources q)
    × ((q : Bytes) → read_external decode t q ≡ a.external q)
    × ((q : Bytes) → read_generated decode t q ≡ a.generated q)

module _ (codec : Codec) (decode : Bytes → Option Bytes)
    (decode-encode_all : (c : Bytes) → decode (codec.encode_all c) ≡ some c)
    (no_collision : (c d : Bytes) → codec.hash c ≡ codec.hash d → c ≡ d) where
  call-Refines :
      (t : Tables) (a : Store) (c : Call)
      → Refines codec decode t a
      → Refines codec decode (call codec t c) (store a c)
  call-Refines t a (call_put path content is_generated) (well, s, e, g) =
      let (w, s', e', g') =
        put_lem codec decode decode-encode_all no_collision t path content is_generated well in
      (w, (λ q. s' q ∙ rw (s q) refl), (λ q. e' q ∙ e q), (λ q. g' q ∙ g q))
  call-Refines t a (call_put_external path content) (well, s, e, g) =
      let (w, s', e', g') =
        put_external_lem codec decode decode-encode_all no_collision t path content well in
      (w, (λ q. s' q ∙ s q), (λ q. e' q ∙ rw (e q) refl), (λ q. g' q ∙ g q))
  call-Refines t a (call_put_generated path content) (well, s, e, g) =
      let (w, s', e', g') =
        put_generated_lem codec decode decode-encode_all no_collision t path content well in
      (w, (λ q. s' q ∙ s q), (λ q. e' q ∙ e q), (λ q. g' q ∙ rw (g q) refl))

  calls-Refines :
      (t : Tables) (a : Store) (cs : List Call)
      → Refines codec decode t a
      → Refines codec decode (calls codec t cs) (stores a cs)
  calls-Refines t a [] r = r
  calls-Refines t a (c ∷ cs) r =
      calls-Refines (call codec t c) (store a c) cs (call-Refines t a c r)

  read_found :
      (t : Tables) (h : Bytes) (b : Blob) (c : Bytes)
      → lookup h t.blobs ≡ some b
      → decode b.content ≡ some c
      → read_by_column decode t (some h) ≡ ok (c, h)
  unfolding read_by_column read_blob
  read_found t h b c found raw =
      let blob : read_blob decode t h ≡ ok c = rw (found, raw, read_blob) refl in
      rw (blob, read_by_column) refl

  -- a row of well-formed tables reads as its content, with its hash
  column_lem :
      (t : Tables) (rows : Bytes → Option Bytes) (q : Bytes)
      → IsFiled codec t
      → Linked t.blobs rows
      → read_by_column decode t (rows q) ≡ answer codec no_rows (fetch decode t.blobs (rows q))
  unfolding read_by_column
  column_lem t rows q filed linked = elim (Option-cases (rows q)) [
    | inl e ↦ rw e refl
    | inr (h, e) ↦
        let (b, found) = linked q h e in
        let (c, is_hash, is_content, is_size) = filed h b found in
        let raw : decode b.content ≡ some c = ap decode is_content ∙ decode-encode_all c in
        let reads : fetch decode t.blobs (some h) ≡ some c = rw (found, raw, fetch) refl in
        rw (e, reads) (read_found t h b c found raw ∙ ap (λ x. ok (c, x)) is_hash)
  ]

  generated_lem :
      (t : Tables) (q : Bytes) (o : Option Bytes)
      → read_by_column decode t (generated_rows t q) ≡ answer codec no_rows o
      → read_generated_source decode t q ≡ answer codec (no_indexed_source q) o
  unfolding read_generated_source
  generated_lem t q none e = rw (e, read_generated_source) refl
  generated_lem t q (some c) e = rw (e, read_generated_source) refl

  relative_lem :
      (t : Tables) (q : Bytes) (o p : Option Bytes)
      → has_prefix q (codes "/") ≡ false
      → read_by_column decode t (source_rows t q) ≡ answer codec no_rows o
      → read_by_column decode t (generated_rows t q) ≡ answer codec no_rows p
      → read_source_by_path decode t q ≡ answer codec (no_indexed_source q) (first_of o p)
  unfolding read_source_by_path
  relative_lem t q none p h e g = rw (h, e, read_source_by_path) (generated_lem t q p g)
  relative_lem t q (some c) p h e g = rw (h, e, read_source_by_path) refl

  absolute_lem :
      (t : Tables) (q : Bytes)
      → has_prefix q (codes "/") ≡ true
      → read_source_by_path decode t q ≡ read_by_column decode t (external_rows t q)
  unfolding read_source_by_path
  absolute_lem t q h = rw h refl

  read_lem :
      (t : Tables) (a : Store) (q : Bytes)
      → Refines codec decode t a
      → read_source_by_path decode t q ≡ read codec a q
  read_lem t a q ((filed, ls, le, lg), s, e, g) = elim (Bool-cases (has_prefix q (codes "/"))) [
    | inl absolute ↦
        let spec : read codec a q ≡ answer codec no_rows (a.external q) = rw absolute refl in
        absolute_lem t q absolute
        ∙ column_lem t (external_rows t) q filed le
        ∙ ap (answer codec no_rows) (e q)
        ∙ sym spec
    | inr relative ↦
        let spec : read codec a q
            ≡ answer codec (no_indexed_source q) (first_of (a.sources q) (a.generated q)) =
          rw relative refl in
        relative_lem t q (a.sources q) (a.generated q) relative
          (column_lem t (source_rows t) q filed ls ∙ ap (answer codec no_rows) (s q))
          (column_lem t (generated_rows t) q filed lg ∙ ap (answer codec no_rows) (g q))
        ∙ sym spec
  ]

-- Whatever the writer has been called for, on empty tables, reading a path gives the content that
-- was put last under it, with its hash: an external one for an absolute path, and for any other a
-- source, or where none was put a generated one. Where nothing was put the error is that of a
-- missing row, or for a path that is not absolute the one that names both tables.
pub read_source_by_path-calls :
    (codec : Codec) (decode : Bytes → Option Bytes)
    → ((c : Bytes) → decode (codec.encode_all c) ≡ some c)
    → ((c d : Bytes) → codec.hash c ≡ codec.hash d → c ≡ d)
    → (cs : List Call) (path : Bytes)
    → read_source_by_path decode (calls codec no_tables cs) path
      ≡ read codec (stores no_store cs) path
read_source_by_path-calls codec decode inverse injective cs path =
    read_lem codec decode inverse injective (calls codec no_tables cs) (stores no_store cs) path (
      calls-Refines codec decode inverse injective no_tables no_store cs (
        (
          (λ h b e. absurd (none_ne e)),
          (λ q h e. absurd (none_ne e)),
          (λ q h e. absurd (none_ne e)),
          (λ q h e. absurd (none_ne e)),
        ),
        (λ q. refl),
        (λ q. refl),
        (λ q. refl),
      ))
