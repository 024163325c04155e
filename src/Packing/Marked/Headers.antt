-- ===== src/Packing/Marked/Headers.antt =====
-- The headers that ninja reports for an object are marked: in the project, or matched by a pattern.
use herbarium.Base.{
  ◌≡◌, inl, inr, arith, true, false, List, [], ◌∷◌, Bytes, Bool-cases, contains, list_eq, nat_eq,
  list_beq_iff, Memᴰ,
}
use mathlib.Core.List.Memᴰ
use herbarium.Ingest.Paths.{PathResolver, to_project_relative}
use herbarium.ExternalGlob.{ExternalGlob, match_glob, matches_any_external_glob}
use herbarium.NinjaDeps.{Log}
use herbarium.Packing.Marked.{
  Host, Entries, is_under_build_dir, project_path, match_external, native_path, outside_dep,
  one_dep, dep_loop, object_deps, each_object,
}
use herbarium.Packing.Marked.Grown.{Lists, Grows, mark-Lists, dep_loop-Grows, each_object-Grows}

module _ (host : Host) (pr : PathResolver) (globs : List ExternalGlob) where
  -- a header in the project, and one that no directory of the build holds, but a pattern matches
  abbrev pub IsInside : Bytes → Type 0
  IsInside dep = (to_project_relative pr dep).in_project ≡ true

  abbrev pub IsExternal : Bytes → Type 0
  IsExternal dep =
      let abs = native_path host pr globs dep in
      ((to_project_relative pr dep).in_project ≡ false)
      × (is_under_build_dir pr abs ≡ false)
      × (matches_any_external_glob host.matching abs globs ≡ true)

  -- what becomes of a header in the maps
  abbrev pub IsMarked : Entries → Bytes → Type 0
  IsMarked es dep =
      (IsInside dep → Lists host pr es (to_project_relative pr dep).rel)
      × (IsExternal dep → contains es.external_entries (native_path host pr globs dep) ≡ true)

  match_external_lem :
      (es : Entries) (abs : Bytes) (gs : List ExternalGlob)
      → matches_any_external_glob host.matching abs gs ≡ true
      → contains (match_external host pr globs es abs gs).external_entries abs ≡ true
  unfolding match_external matches_any_external_glob
  match_external_lem es abs [] h = cc
  match_external_lem es abs (g ∷ gs) h = elim (Bool-cases (match_glob host.matching g abs)) [
    | inl here ↦ rw here (ground (arith, list_beq_iff abs abs))
    | inr other ↦ rw other (match_external_lem es abs gs (rw other at h))
  ]

  one_dep_lem :
      (obj : Bytes) (es : Entries) (dep : Bytes) → IsMarked (one_dep host pr globs obj es dep) dep
  unfolding one_dep outside_dep
  one_dep_lem obj es dep =
      let rel = (to_project_relative pr dep).rel in
      let path = project_path host pr rel in
      (
        (λ inside.
            rw inside (mark-Lists host pr es rel path (is_under_build_dir pr path) false obj)),
        (λ (out, away, matches).
            rw (out, away) (match_external_lem es (native_path host pr globs dep) globs matches)),
      )

  IsMarked-Grows :
      (es fs : Entries) (dep : Bytes) → Grows host pr es fs → IsMarked es dep → IsMarked fs dep
  IsMarked-Grows es fs dep grows (inside, external) = (
    (λ h. grows.lists (to_project_relative pr dep).rel (inside h)),
    (λ h. grows.external (native_path host pr globs dep) (external h)),
  )

  dep_loop_lem :
      (obj : Bytes) (es : Entries) (deps : List Bytes) (dep : Bytes)
      → Memᴰ dep deps
      → IsMarked (dep_loop host pr globs obj es deps) dep
  unfolding dep_loop
  dep_loop_lem obj es [] dep m = absurd (Memᴰ.not-nil m)
  dep_loop_lem obj es (d ∷ deps) dep m =
      let fs = one_dep host pr globs obj es d in
      elim (Memᴰ.cases_cons m) [
        | inl same ↦ rw same (
            IsMarked-Grows fs (dep_loop host pr globs obj fs deps) d
              (dep_loop-Grows host pr globs obj fs deps) (one_dep_lem obj es d))
        | inr there ↦ dep_loop_lem obj fs deps dep there
      ]

  pub each_object_lem :
      (log : Log) (es : Entries) (objs : List Bytes) (obj dep : Bytes)
      → Memᴰ obj objs
      → Memᴰ dep (object_deps host pr globs log obj)
      → IsMarked (each_object host pr globs log es objs) dep
  unfolding each_object
  each_object_lem log es [] obj dep m n = absurd (Memᴰ.not-nil m)
  each_object_lem log es (o ∷ objs) obj dep m n =
      let fs = dep_loop host pr globs o es (object_deps host pr globs log o) in
      elim (Memᴰ.cases_cons m) [
        | inl same ↦
            let here : Memᴰ dep (object_deps host pr globs log o) = rw same at n in
            IsMarked-Grows fs (each_object host pr globs log fs objs) dep
              (each_object-Grows host pr globs log fs objs)
              (dep_loop_lem o es (object_deps host pr globs log o) dep here)
        | inr there ↦ each_object_lem log fs objs obj dep there n
      ]
