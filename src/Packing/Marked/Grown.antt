-- ===== src/Packing/Marked/Grown.antt =====
-- What the passes of `Sources` have marked stays marked, and each entry is the file of its key.
use herbarium.Base.{
  ◌≡◌, refl, sym, ap, ◌∙◌, inl, inr, arith, Bool, true, false, List, [], ◌∷◌, Option, none, some,
  Bytes, codes, has_prefix, if◌then◌else◌, Bool-cases, Option-cases, lookup, lookup-insert,
  contains, list_beq, list_beq_iff, list_eq, nat_eq, some_injective, Memᴰ,
}
use mathlib.Core.List.Memᴰ
use herbarium.Ingest.Paths.{PathResolver, to_project_relative}
use herbarium.ExternalGlob.{ExternalGlob, match_glob}
use herbarium.NinjaDeps.{Log}
use herbarium.Packing.Marked.{
  Host, PackResult, ok, failed, ◌>>=◌, PackEntry, Entries, MesonTarget, entry_or_new, marked, mark,
  is_under_build_dir, add_generated, mark_generated, hit, project_path, mark_sources, out_of_tree,
  generated_source, mark_all_generated, mark_targets, match_external, native_path, outside_dep,
  one_dep, dep_loop, object_deps, each_object, mark_headers, no_absolute, generated_outside,
}

pub ok_injective {ℓ} : {A : Type ℓ} {a b : A} → ok a ≡ ok b → a ≡ b
ok_injective e = cc

pub failed_ne {ℓ} : {A : Type ℓ} {a : A} {e : _} → failed e ≡ ok a → ⊥
failed_ne e = cc

-- both steps of a chain that succeeds
pub both_ok {ℓ κ} :
    {A : Type ℓ} {B : Type κ} (first : PackResult A) (next : A → PackResult B) {y : B}
    → (first >>= next) ≡ ok y
    → (x : A) × (first ≡ ok x) × (next x ≡ ok y)
both_ok (failed why) next h = cc
both_ok (ok x) next h = (x, refl, h)

module _ (host : Host) (pr : PathResolver) where
  -- the entry of a key has the file of the key
  abbrev pub IsShaped : Entries → Type 0
  IsShaped es =
      (k : Bytes) (e : PackEntry)
      → lookup k es.entries ≡ some e
      → (e.rel_path ≡ k) × (e.abs_path ≡ project_path host pr k)

  abbrev pub Lists : Entries → Bytes → Type 0
  Lists es k = (e : PackEntry) × (lookup k es.entries ≡ some e)

  abbrev pub Requires : Entries → Bytes → Type 0
  Requires es k = (e : PackEntry) × (lookup k es.entries ≡ some e) × (e.required ≡ true)

  -- What is in the maps stays there.
  pub record Grows (es fs : Entries) : Type 0 where
    pub shape : IsShaped es → IsShaped fs
    pub lists : (k : Bytes) → Lists es k → Lists fs k
    pub requires : (k : Bytes) → Requires es k → Requires fs k
    pub generated :
        (k a : Bytes)
        → lookup k es.generated_entries ≡ some a
        → lookup k fs.generated_entries ≡ some a
    pub external :
        (a : Bytes) → contains es.external_entries a ≡ true → contains fs.external_entries a ≡ true

  abbrev pub grows_refl : (es : Entries) → Grows es es
  grows_refl es = record {
    shape = λ h. h;
    lists = λ k h. h;
    requires = λ k h. h;
    generated = λ k a h. h;
    external = λ a h. h;
  }

  abbrev pub grows_trans : (es fs gs : Entries) → Grows es fs → Grows fs gs → Grows es gs
  grows_trans es fs gs p q = record {
    shape = λ h. q.shape (p.shape h);
    lists = λ k h. q.lists k (p.lists k h);
    requires = λ k h. q.requires k (p.requires k h);
    generated = λ k a h. q.generated k a (p.generated k a h);
    external = λ a h. q.external a (p.external a h);
  }

  lookup-mark :
      (es : Entries) (rel abs : Bytes) (g r : Bool) (c k : Bytes)
      → lookup k (mark es rel abs g r c).entries ≡ (
          if list_beq rel k
          then some (marked (entry_or_new rel abs (lookup rel es.entries)) g r c)
          else lookup k es.entries)
  unfolding mark
  lookup-mark es rel abs g r c k =
      lookup-insert rel k (marked (entry_or_new rel abs (lookup rel es.entries)) g r c) es.entries

  or_new_shape :
      (es : Entries) (rel : Bytes)
      → IsShaped es
      → let e = entry_or_new rel (project_path host pr rel) (lookup rel es.entries) in
        (e.rel_path ≡ rel) × (e.abs_path ≡ project_path host pr rel)
  or_new_shape es rel h = elim (Option-cases (lookup rel es.entries)) [
    | inl new ↦ rw new (refl, refl)
    | inr (e, old) ↦ rw old (h rel e old)
  ]

  or_new_required :
      (es : Entries) (rel abs : Bytes)
      → Requires es rel
      → (entry_or_new rel abs (lookup rel es.entries)).required ≡ true
  or_new_required es rel abs (e, found, h) = rw found h

  pub mark-Grows :
      (es : Entries) (rel : Bytes) (g r : Bool) (c : Bytes)
      → Grows es (mark es rel (project_path host pr rel) g r c)
  unfolding mark
  mark-Grows es rel g r c =
      let abs = project_path host pr rel in
      let e : PackEntry = marked (entry_or_new rel abs (lookup rel es.entries)) g r c in
      let at = lookup-mark es rel abs g r c in
      record {
        shape = λ h k f found. elim (Bool-cases (list_beq rel k)) [
          | inl same ↦
              let is_e : e ≡ f = some_injective (sym (at k ∙ rw same refl) ∙ found) in
              let is_k : rel ≡ k = (list_beq_iff rel k).0 same in
              let (a, b) = or_new_shape es rel h in
              (
                sym (ap (λ x. x.rel_path) is_e) ∙ a ∙ is_k,
                sym (ap (λ x. x.abs_path) is_e) ∙ b ∙ ap (project_path host pr) is_k,
              )
          | inr other ↦ h k f (sym (at k ∙ rw other refl) ∙ found)
        ];
        lists = λ k h. elim (Bool-cases (list_beq rel k)) [
          | inl same ↦ (e, at k ∙ rw same refl)
          | inr other ↦ (h.0, at k ∙ rw other h.1)
        ];
        requires = λ k h. elim (Bool-cases (list_beq rel k)) [
          | inl same ↦
              let is_k : k ≡ rel = sym ((list_beq_iff rel k).0 same) in
              let q : Requires es rel =
                (h.0, ap (λ x. lookup x es.entries) (sym is_k) ∙ h.1, h.2) in
              let old = or_new_required es rel abs q in
              (e, at k ∙ rw same refl, ground (arith, old))
          | inr other ↦ (h.0, at k ∙ rw other h.1, h.2)
        ];
        generated = λ k a h. h;
        external = λ a h. h;
      }

  pub mark-Lists :
      (es : Entries) (rel abs : Bytes) (g r : Bool) (c : Bytes) → Lists (mark es rel abs g r c) rel
  mark-Lists es rel abs g r c = (
    marked (entry_or_new rel abs (lookup rel es.entries)) g r c,
    lookup-mark es rel abs g r c rel ∙ rw ((list_beq_iff rel rel).1 refl) refl,
  )

  pub mark-Requires :
      (es : Entries) (rel abs : Bytes) (g : Bool) (c : Bytes)
      → Requires (mark es rel abs g true c) rel
  mark-Requires es rel abs g c = (
    marked (entry_or_new rel abs (lookup rel es.entries)) g true c,
    lookup-mark es rel abs g true c rel ∙ rw ((list_beq_iff rel rel).1 refl) refl,
    ground arith,
  )

  add_generated-Grows : (es : Entries) (key abs : Bytes) → Grows es (add_generated es key abs)
  add_generated-Grows es key abs = elim (Option-cases (lookup key es.generated_entries)) [
    | inr (old, e) ↦ rw (e, add_generated) (grows_refl es)
    | inl new ↦
        rw (new, add_generated)
          (record {
            shape = λ h. h;
            lists = λ k h. h;
            requires = λ k h. h;
            generated = λ k a h.
                ground (arith, lookup-insert key k abs es.generated_entries, list_beq_iff key k);
            external = λ a h. h;
          })
  ]

  pub mark_generated-Grows : (es : Entries) (abs : Bytes) → Grows es (mark_generated pr es abs)
  unfolding mark_generated
  mark_generated-Grows es abs = elim (Option-cases (pr.file_path.rel pr.build_dir abs)) [
    | inl e ↦ rw (e, mark_generated) (grows_refl es)
    | inr (rel, e) ↦ elim (Bool-cases (has_prefix rel (codes ".."))) [
      | inl up ↦ rw (e, up, mark_generated) (grows_refl es)
      | inr down ↦
          rw (e, down, mark_generated) (add_generated-Grows es (pr.file_path.to_slash rel) abs)
    ]
  ]

  hit-Grows : (es : Entries) (g : ExternalGlob) (abs : Bytes) → Grows es (hit es g abs)
  hit-Grows es g abs = record {
    shape = λ h. h;
    lists = λ k h. h;
    requires = λ k h. h;
    generated = λ k a h. h;
    external = λ a h. ground arith;
  }

  module _ (globs : List ExternalGlob) where
    match_external-Grows :
        (es : Entries) (abs : Bytes) (gs : List ExternalGlob)
        → Grows es (match_external host pr globs es abs gs)
    unfolding match_external
    match_external-Grows es abs [] = grows_refl es
    match_external-Grows es abs (g ∷ gs) = elim (Bool-cases (match_glob host.matching g abs)) [
      | inl yes_here ↦ rw yes_here (hit-Grows es g abs)
      | inr other ↦ rw other (match_external-Grows es abs gs)
    ]

    outside_dep-Grows : (es : Entries) (dep : Bytes) → Grows es (outside_dep host pr globs es dep)
    unfolding outside_dep
    outside_dep-Grows es dep =
        elim (Bool-cases (is_under_build_dir pr (native_path host pr globs dep))) [
          | inl under ↦ rw under (mark_generated-Grows es (native_path host pr globs dep))
          | inr out ↦ rw out (match_external-Grows es (native_path host pr globs dep) globs)
        ]

    pub one_dep-Grows :
        (obj : Bytes) (es : Entries) (dep : Bytes) → Grows es (one_dep host pr globs obj es dep)
    unfolding one_dep
    one_dep-Grows obj es dep =
        let rel = (to_project_relative pr dep).rel in
        elim (Bool-cases (to_project_relative pr dep).in_project) [
          | inl inside ↦
              rw inside
                (mark-Grows es rel (is_under_build_dir pr (project_path host pr rel)) false obj)
          | inr out ↦ rw out (outside_dep-Grows es dep)
        ]

    pub dep_loop-Grows :
        (obj : Bytes) (es : Entries) (deps : List Bytes)
        → Grows es (dep_loop host pr globs obj es deps)
    unfolding dep_loop
    dep_loop-Grows obj es [] = grows_refl es
    dep_loop-Grows obj es (dep ∷ deps) =
        let fs = one_dep host pr globs obj es dep in
        grows_trans es fs (dep_loop host pr globs obj fs deps) (one_dep-Grows obj es dep)
          (dep_loop-Grows obj fs deps)

    pub each_object-Grows :
        (log : Log) (es : Entries) (objs : List Bytes)
        → Grows es (each_object host pr globs log es objs)
    unfolding each_object
    each_object-Grows log es [] = grows_refl es
    each_object-Grows log es (obj ∷ objs) =
        let deps = object_deps host pr globs log obj in
        let fs = dep_loop host pr globs obj es deps in
        grows_trans es fs (each_object host pr globs log fs objs) (dep_loop-Grows obj es deps)
          (each_object-Grows log fs objs)

    pub mark_headers-Grows :
        (log : Option Log) (es : Entries) (objs : List Bytes)
        → Grows es (mark_headers host pr globs log es objs)
    unfolding mark_headers
    mark_headers-Grows none es objs = grows_refl es
    mark_headers-Grows (some log) es objs = each_object-Grows log es objs

  out_of_tree-Grows :
      (target : Bytes) (es : Entries) (abs : Bytes) (fs : Entries)
      → out_of_tree host pr target es abs ≡ ok fs
      → Grows es fs
  out_of_tree-Grows target es abs fs h = elim (Option-cases (host.abs abs)) [
    | inl e ↦
        let stops : out_of_tree host pr target es abs ≡ failed (no_absolute target abs) =
          rw (e, out_of_tree) refl in
        absurd (failed_ne (sym stops ∙ h))
    | inr (native, e) ↦ elim (Bool-cases (is_under_build_dir pr native)) [
      | inl under ↦
          let goes : out_of_tree host pr target es abs ≡ ok (mark_generated pr es native) =
            rw (e, under, out_of_tree) refl in
          rw (ok_injective (sym h ∙ goes)) (mark_generated-Grows es native)
      | inr out ↦
          let stops : out_of_tree host pr target es abs ≡ failed (generated_outside target abs) =
            rw (e, out, out_of_tree) refl in
          absurd (failed_ne (sym stops ∙ h))
    ]
  ]

  generated_source-Grows :
      (target : Bytes) (es : Entries) (abs : Bytes) (fs : Entries)
      → generated_source host pr target es abs ≡ ok fs
      → Grows es fs
  unfolding generated_source
  generated_source-Grows target es abs fs h =
      let rel = (to_project_relative pr abs).rel in
      elim (Bool-cases (to_project_relative pr abs).in_project) [
        | inl inside ↦
            let e : ok (mark es rel (project_path host pr rel) true true []) ≡ ok fs =
              rw inside at h in
            rw (sym (ok_injective e)) (mark-Grows es rel true true [])
        | inr out ↦ out_of_tree-Grows target es abs fs (rw out at h)
      ]

  mark_all_generated-Grows :
      (target : Bytes) (es : Entries) (l : List Bytes) (fs : Entries)
      → mark_all_generated host pr target es l ≡ ok fs
      → Grows es fs
  unfolding mark_all_generated
  mark_all_generated-Grows target es [] fs h = rw (sym (ok_injective h)) (grows_refl es)
  mark_all_generated-Grows target es (abs ∷ l) fs h =
      let (gs, first, rest) = both_ok (generated_source host pr target es abs) _ h in
      grows_trans es gs fs (generated_source-Grows target es abs gs first)
        (mark_all_generated-Grows target gs l fs rest)

  -- a source of a target: it is in the project, and its entry is required
  abbrev pub IsRequired : Entries → Bytes → Type 0
  IsRequired es abs =
      let r = to_project_relative pr abs in (r.in_project ≡ true) × Requires es r.rel

  pub mark_sources-Grows :
      (target : Bytes) (es : Entries) (l : List Bytes) (fs : Entries)
      → mark_sources host pr target es l ≡ ok fs
      → Grows es fs × ((abs : Bytes) → Memᴰ abs l → IsRequired fs abs)
  unfolding mark_sources
  mark_sources-Grows target es [] fs h =
      (rw (sym (ok_injective h)) (grows_refl es), (λ abs m. absurd (Memᴰ.not-nil m)))
  mark_sources-Grows target es (abs ∷ l) fs h =
      let rel = (to_project_relative pr abs).rel in
      let gs = mark es rel (project_path host pr rel) false true [] in
      elim (Bool-cases (to_project_relative pr abs).in_project) [
        | inr out ↦ absurd (failed_ne (rw out at h))
        | inl inside ↦
            let (grows, rest) = mark_sources-Grows target gs l fs (rw inside at h) in
            (
              grows_trans es gs fs (mark-Grows es rel false true []) grows,
              (λ b m. elim (Memᴰ.cases_cons m) [
                | inl same ↦ rw same (
                  inside,
                  grows.requires rel (mark-Requires es rel (project_path host pr rel) false []),
                )
                | inr there ↦ rest b there
              ]),
            )
      ]

  pub mark_targets-Grows :
      (es : Entries) (ts : List MesonTarget) (fs : Entries)
      → mark_targets host pr es ts ≡ ok fs
      → Grows es fs
        × ((t : MesonTarget) → Memᴰ t ts → (abs : Bytes) → Memᴰ abs t.sources → IsRequired fs abs)
  unfolding mark_targets
  mark_targets-Grows es [] fs h =
      (rw (sym (ok_injective h)) (grows_refl es), (λ t m. absurd (Memᴰ.not-nil m)))
  mark_targets-Grows es (t ∷ ts) fs h =
      let (gs, first, then_gs) = both_ok (mark_sources host pr t.name es t.sources) _ h in
      let (hs, second, then_hs) =
        both_ok (mark_all_generated host pr t.name gs t.generated) _ then_gs in
      let (p, sources) = mark_sources-Grows t.name es t.sources gs first in
      let q = mark_all_generated-Grows t.name gs t.generated hs second in
      let (r, later) = mark_targets-Grows hs ts fs then_hs in
      let q_r = grows_trans gs hs fs q r in
      (
        grows_trans es gs fs p q_r,
        (λ u m abs n. elim (Memᴰ.cases_cons m) [
          | inl same ↦
              let (inside, needed) = sources abs (rw same at n) in
              (inside, q_r.requires (to_project_relative pr abs).rel needed)
          | inr there ↦ later u there abs n
        ]),
      )
