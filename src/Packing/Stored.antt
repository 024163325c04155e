-- ===== src/Packing/Stored.antt =====
-- What `Sources` packs can be read back from the index.
use herbarium.Base.{
  ◌≡◌, refl, sym, ap, ◌∙◌, inl, inr, Bool, true, false, List, [], ◌∷◌, Option, some, Bytes,
  Bool-cases, Option-cases, lookup, list_beq, list_beq_iff, list_eq, nat_eq, none_ne,
  some_injective, Memᴰ,
}
use mathlib.Core.List.Memᴰ
use herbarium.Blobstore.{Codec, Tables}
use herbarium.Blobstore.Filed.{IsWellFormed, read_source, read_external}
use herbarium.Blobstore.Kept.{put_lem, put_external_lem, put_generated_lem}
use herbarium.Ingest.Paths.{PathResolver}
use herbarium.Packing.{
  Packed, if_strict, put_entry, pack_read, pack_source, pack_sources, put_generated_file,
  pack_generated_read, pack_generated, put_external_file, pack_external_read, pack_external,
}
use herbarium.Packing.Marked.{
  Host, FileRead, content, missing, unreadable, ok, PackEntry, Entries, project_path,
}
use herbarium.Packing.Marked.Grown.{IsShaped, ok_injective, failed_ne, both_ok}

module _ (host : Host) (codec : Codec) (decode : Bytes → Option Bytes) (pr : PathResolver)
    (decode-encode_all : (c : Bytes) → decode (codec.encode_all c) ≡ some c)
    (no_collision : (c d : Bytes) → codec.hash c ≡ codec.hash d → c ≡ d) where
  abbrev pub file_at : Bytes → FileRead
  file_at k = host.read_file (project_path host pr k)

  -- A row whose file is on the disk still has its content.
  pub record Stays (t u : Tables) : Type 0 where
    pub well : IsWellFormed codec u
    pub source :
        (k c : Bytes)
        → file_at k ≡ content c
        → read_source decode t k ≡ some c
        → read_source decode u k ≡ some c
    pub external :
        (a c : Bytes)
        → host.read_file a ≡ content c
        → read_external decode t a ≡ some c
        → read_external decode u a ≡ some c

  abbrev stays_refl : (t : Tables) → IsWellFormed codec t → Stays t t
  stays_refl t w = record { well = w; source = λ k c f h. h; external = λ a c f h. h }

  abbrev pub stays_trans : (t u v : Tables) → Stays t u → Stays u v → Stays t v
  stays_trans t u v p q = record {
    well = q.well;
    source = λ k c f h. q.source k c f (p.source k c f h);
    external = λ a c f h. q.external a c f (p.external a c f h);
  }

  content_injective : {c d : Bytes} → content c ≡ content d → c ≡ d
  content_injective e = cc

  put_entry-Stays :
      (p : Packed) (e : PackEntry) (c : Bytes)
      → IsWellFormed codec p.tables
      → file_at e.rel_path ≡ content c
      → Stays p.tables (put_entry host codec p e c).tables
        × (read_source decode (put_entry host codec p e c).tables e.rel_path ≡ some c)
  put_entry-Stays p e c w file =
      let (well, s, x, g) =
        put_lem codec decode decode-encode_all no_collision p.tables e.rel_path c e.is_generated
          w in
      (
        record {
          well = well;
          source = λ k d f h. elim (Bool-cases (list_beq e.rel_path k)) [
            | inl same ↦
                let is_k : e.rel_path ≡ k = (list_beq_iff e.rel_path k).0 same in
                let is_d : c ≡ d = content_injective (sym file ∙ ap file_at is_k ∙ f) in
                s k ∙ rw same (ap some is_d)
            | inr other ↦ s k ∙ rw other h
          ];
          external = λ a d f h. x a ∙ h;
        },
        s e.rel_path ∙ rw ((list_beq_iff e.rel_path e.rel_path).1 refl) refl,
      )

  -- what a step of the first loop does for the key of its entry
  abbrev pub IsDone : Tables → PackEntry → Type 0
  IsDone u e =
      ((c : Bytes) → file_at e.rel_path ≡ content c → read_source decode u e.rel_path ≡ some c)
      × (e.required ≡ true → (c : Bytes) × (file_at e.rel_path ≡ content c))

  pack_read-Stays :
      (strict : Bool) (p : Packed) (e : PackEntry) (r : FileRead) (q : Packed)
      → IsWellFormed codec p.tables
      → file_at e.rel_path ≡ r
      → pack_read host codec strict p e r ≡ ok q
      → Stays p.tables q.tables × IsDone q.tables e
  unfolding pack_read
  pack_read-Stays strict p e missing q w file h = elim (Bool-cases e.required) [
    | inl needed ↦ absurd (failed_ne (rw needed at h))
    | inr free ↦
        let same : p ≡ q = ok_injective (rw free at h) in
        (
          rw (sym same) (stays_refl p.tables w),
          (
            (λ c f. absurd (differs c (sym file ∙ f))),
            (λ needed. absurd (true_ne (sym needed ∙ free))),
          ),
        )
  ]
    where
      differs : (c : Bytes) → missing ≡ content c → ⊥
      differs c x = cc

      true_ne : true ≡ false → ⊥
      true_ne x = cc
  pack_read-Stays strict p e unreadable q w file h = absurd (failed_ne h)
  pack_read-Stays strict p e (content c) q w file h =
      let (u, passed, same) = both_ok (if_strict host codec strict e) _ h in
      let (stays, now) = put_entry-Stays p e c w file in
      rw (sym (ok_injective same))
        (stays, ((λ d f. now ∙ ap some (content_injective (sym file ∙ f))), (λ needed. (c, file))))

  pub pack_sources-Stays :
      (strict : Bool) (es : Entries) (p : Packed) (ks : List Bytes) (q : Packed)
      → IsShaped host pr es
      → IsWellFormed codec p.tables
      → pack_sources host codec strict es.entries p ks ≡ ok q
      → Stays p.tables q.tables
        × ((k : Bytes) (e : PackEntry)
            → Memᴰ k ks
            → lookup k es.entries ≡ some e
            → IsDone q.tables e)
  unfolding pack_sources
  pack_sources-Stays strict es p [] q shaped w h =
      (rw (sym (ok_injective h)) (stays_refl p.tables w), (λ k e m f. absurd (Memᴰ.not-nil m)))
  pack_sources-Stays strict es p (k ∷ ks) q shaped w h = elim (Option-cases (lookup k es.entries)) [
    | inl away ↦
        let (stays, done) =
          pack_sources-Stays strict es p ks q shaped w (rw (away, pack_sources) at h) in
        (
          stays,
          (λ j e m f. elim (Memᴰ.cases_cons m) [
            | inl same ↦ absurd (none_ne (sym away ∙ ap (λ x. lookup x es.entries) (sym same) ∙ f))
            | inr there ↦ done j e there f
          ]),
        )
    | inr (e, found) ↦
        let (is_k, is_file) = shaped k e found in
        let (r, first, rest) =
          both_ok (pack_source host codec strict p e) _ (rw (found, pack_sources) at h) in
        let at : file_at e.rel_path ≡ host.read_file e.abs_path =
          ap file_at is_k ∙ ap host.read_file (sym is_file) in
        let (one, (now, needs)) =
          pack_read-Stays strict p e (host.read_file e.abs_path) r w at first in
        let (more, done) = pack_sources-Stays strict es r ks q shaped one.well rest in
        (
          stays_trans p.tables r.tables q.tables one more,
          (λ j f m g. elim (Memᴰ.cases_cons m) [
            | inl same ↦
                let is_e : e ≡ f =
                  some_injective (sym found ∙ ap (λ x. lookup x es.entries) (sym same) ∙ g) in
                rw (sym is_e) ((λ c file. more.source e.rel_path c file (now c file)), needs)
            | inr there ↦ done j f there g
          ]),
        )
  ]

  put_generated-Stays :
      (p : Packed) (k c : Bytes)
      → IsWellFormed codec p.tables
      → Stays p.tables (put_generated_file host codec p k c).tables
  put_generated-Stays p k c w =
      let (well, s, x, g) =
        put_generated_lem codec decode decode-encode_all no_collision p.tables k c w in
      record { well = well; source = λ j d f h. s j ∙ h; external = λ a d f h. x a ∙ h }

  generated_read-Stays :
      (p : Packed) (k abs : Bytes) (r : FileRead) (q : Packed)
      → IsWellFormed codec p.tables
      → pack_generated_read host codec p k abs r ≡ ok q
      → Stays p.tables q.tables
  unfolding pack_generated_read
  generated_read-Stays p k abs missing q w h = rw (sym (ok_injective h)) (stays_refl p.tables w)
  generated_read-Stays p k abs unreadable q w h = absurd (failed_ne h)
  generated_read-Stays p k abs (content c) q w h =
      rw (sym (ok_injective h)) (put_generated-Stays p k c w)

  pub pack_generated-Stays :
      (entries : List (Bytes × Bytes)) (p : Packed) (ks : List Bytes) (q : Packed)
      → IsWellFormed codec p.tables
      → pack_generated host codec entries p ks ≡ ok q
      → Stays p.tables q.tables
  unfolding pack_generated
  pack_generated-Stays entries p [] q w h = rw (sym (ok_injective h)) (stays_refl p.tables w)
  pack_generated-Stays entries p (k ∷ ks) q w h = elim (Option-cases (lookup k entries)) [
    | inl away ↦ pack_generated-Stays entries p ks q w (rw (away, pack_generated) at h)
    | inr (abs, found) ↦
        let (r, first, rest) =
          both_ok (pack_generated_read host codec p k abs (host.read_file abs)) _
            (rw (found, pack_generated) at h) in
        let one = generated_read-Stays p k abs (host.read_file abs) r w first in
        stays_trans p.tables r.tables q.tables one
          (pack_generated-Stays entries r ks q one.well rest)
  ]

  put_external-Stays :
      (p : Packed) (a c : Bytes)
      → IsWellFormed codec p.tables
      → host.read_file a ≡ content c
      → Stays p.tables (put_external_file host codec p a c).tables
        × (read_external decode (put_external_file host codec p a c).tables a ≡ some c)
  put_external-Stays p a c w file =
      let (well, s, x, g) =
        put_external_lem codec decode decode-encode_all no_collision p.tables a c w in
      (
        record {
          well = well;
          source = λ k d f h. s k ∙ h;
          external = λ b d f h. elim (Bool-cases (list_beq a b)) [
            | inl same ↦
                let is_b : a ≡ b = (list_beq_iff a b).0 same in
                let is_d : c ≡ d = content_injective (sym file ∙ ap host.read_file is_b ∙ f) in
                x b ∙ rw same (ap some is_d)
            | inr other ↦ x b ∙ rw other h
          ];
        },
        x a ∙ rw ((list_beq_iff a a).1 refl) refl,
      )

  external_read-Stays :
      (p : Packed) (a : Bytes) (r : FileRead) (q : Packed)
      → IsWellFormed codec p.tables
      → host.read_file a ≡ r
      → pack_external_read host codec p a r ≡ ok q
      → Stays p.tables q.tables
        × ((c : Bytes) → host.read_file a ≡ content c → read_external decode q.tables a ≡ some c)
  unfolding pack_external_read
  external_read-Stays p a missing q w file h = (
    rw (sym (ok_injective h)) (stays_refl p.tables w),
    (λ c f. absurd (differs c (sym file ∙ f))),
  )
    where
      differs : (c : Bytes) → missing ≡ content c → ⊥
      differs c x = cc
  external_read-Stays p a unreadable q w file h = absurd (failed_ne h)
  external_read-Stays p a (content c) q w file h =
      let (stays, now) = put_external-Stays p a c w file in
      rw (sym (ok_injective h)) (stays, (λ d f. now ∙ ap some (content_injective (sym file ∙ f))))

  pub pack_external-Stays :
      (p : Packed) (l : List Bytes) (q : Packed)
      → IsWellFormed codec p.tables
      → pack_external host codec p l ≡ ok q
      → Stays p.tables q.tables
        × ((a c : Bytes)
            → Memᴰ a l
            → host.read_file a ≡ content c
            → read_external decode q.tables a ≡ some c)
  unfolding pack_external
  pack_external-Stays p [] q w h =
      (rw (sym (ok_injective h)) (stays_refl p.tables w), (λ a c m f. absurd (Memᴰ.not-nil m)))
  pack_external-Stays p (a ∷ l) q w h =
      let (r, first, rest) = both_ok (pack_external_read host codec p a (host.read_file a)) _ h in
      let (one, now) = external_read-Stays p a (host.read_file a) r w refl first in
      let (more, later) = pack_external-Stays r l q one.well rest in
      (
        stays_trans p.tables r.tables q.tables one more,
        (λ b c m f. elim (Memᴰ.cases_cons m) [
          | inl same ↦
              let g : host.read_file a ≡ content c = ap host.read_file (sym same) ∙ f in
              rw same (more.external a c g (now c g))
          | inr there ↦ later b c there f
        ]),
      )
