-- ===== src/Reload/Safe.antt =====
-- A reload that fails serves the previous index; one that succeeds serves the file.
use herbarium.Base.{
  ◌≡◌, ◌⊎◌, refl, sym, inl, inr, Bool, true, false, not, ◌∷◌, some, Bytes, list_beq, list_beq_iff,
  nat_eq, Bool-cases, Option-cases, subst, ap, ◌∙◌, list_eq,
}
use herbarium.GccDump.{is_empty}
use herbarium.Reload.{
  Index, Disk, Server, ReloadResponse, Reply, no_index_path, bad_path, not_opened, not_an_index,
  no_indexed_at, no_count, wrong_schema, reloaded, stored_version, response_of, counted,
  describe_index, indexed_at, swap, reload,
}

abbrev pub failed : Reply → Bool
failed (reloaded resp) = false
failed _ = true

-- the answer names the stamps of the index that it describes
abbrev pub Describes : ReloadResponse → Index → Type 0
Describes resp next =
    (next.schema_version ≡ some stored_version) × (next.indexed_at ≡ some resp.indexed_at)

counted-cases :
    (path at : Bytes) (next : Index)
    → next.schema_version ≡ some stored_version
    → next.indexed_at ≡ some at
    → (counted path stored_version at next ≡ no_count)
      ⊎ ((resp : ReloadResponse) × (counted path stored_version at next ≡ reloaded resp)
          × Describes resp next)
unfolding counted
counted-cases path at next v a = elim (Option-cases next.symbols) [
  | inl e ↦ inl (rw (e, counted) refl)
  | inr (n, e) ↦ elim (Option-cases next.targets) [
    | inl f ↦ inl (rw (e, f, counted) refl)
    | inr (m, f) ↦ elim (Option-cases next.source_files) [
      | inl g ↦ inl (rw (e, f, g, counted) refl)
      | inr (k, g) ↦
          inr (response_of path stored_version at n m k, rw (e, f, g, counted) refl, (v, a))
    ]
  ]
]

describe_index-cases :
    (next : Index) (path : Bytes)
    → (failed (describe_index next path) ≡ true)
      ⊎ ((resp : ReloadResponse) × (describe_index next path ≡ reloaded resp) × Describes resp next)
unfolding describe_index counted
describe_index-cases next path = elim (Option-cases next.schema_version) [
  | inl e ↦ inl (rw (e, describe_index) refl)
  | inr (version, e) ↦ elim (Bool-cases (list_beq version stored_version)) [
    | inr other ↦ inl (rw (e, other, describe_index) refl)
    | inl same ↦ elim (Option-cases next.indexed_at) [
      | inl f ↦ inl (rw (e, same, f, describe_index) refl)
      | inr (at, f) ↦
          let is_version : version ≡ stored_version =
            (list_beq_iff version stored_version).0 same in
          let step : describe_index next path ≡ counted path stored_version at next =
            rw (e, same, f, describe_index) (ap (λ x. counted path x at next) is_version) in
          elim (counted-cases path at next (e ∙ ap some is_version) f) [
            | inl c ↦ inl (ap failed (step ∙ c))
            | inr (resp, c, d) ↦ inr (resp, step ∙ c, d)
          ]
    ]
  ]
]

swap-fails :
    (s : Server) (next : Index) (r : Reply)
    → failed r ≡ true
    → swap s next r ≡ (r, record s { closed = next.handle ∷ s.closed })
unfolding swap
swap-fails s next no_index_path h = refl
swap-fails s next bad_path h = refl
swap-fails s next not_opened h = refl
swap-fails s next not_an_index h = refl
swap-fails s next no_indexed_at h = refl
swap-fails s next no_count h = refl
swap-fails s next (wrong_schema v) h = refl
swap-fails s next (reloaded resp) h = cc

-- what a reload does: it fails and serves what it served, or it serves the index that it opened
abbrev pub IsReload : Disk → Server → Reply × Server → Type 0
IsReload disk s (reply, t) =
    ((failed reply ≡ true) × (t.db ≡ s.db))
    ⊎ ((next : Index) × (resp : ReloadResponse) × (disk.open_read_only s.index_path ≡ some next)
        × (t.db ≡ next)
        × (reply ≡ reloaded resp)
        × Describes resp next
        × (resp.previous_indexed_at ≡ indexed_at s)
        × (resp.changed ≡ not (list_beq resp.indexed_at (indexed_at s))))

swap-IsReload :
    (disk : Disk) (s : Server) (next : Index)
    → disk.open_read_only s.index_path ≡ some next
    → IsReload disk s (swap s next (describe_index next s.index_path))
unfolding swap
swap-IsReload disk s next opened = elim (describe_index-cases next s.index_path) [
  | inl fails ↦
      subst (IsReload disk s) (sym (swap-fails s next (describe_index next s.index_path) fails))
        (inl (fails, refl))
  | inr (resp, e, d) ↦
      let answer : ReloadResponse = record resp {
        previous_indexed_at = indexed_at s;
        changed = not (list_beq resp.indexed_at (indexed_at s));
      } in
      subst (λ r. IsReload disk s (swap s next r)) (sym e)
        (inr (next, answer, opened, refl, refl, d, refl, refl))
]

-- A reload that fails, on whatever path, leaves the served index in place. One that succeeds serves
-- the index that it opened at the server's path, whose schema version is the server's own, and it
-- reports its stamp, the previous one, and whether the two differ.
pub reload_lem : (disk : Disk) (s : Server) → IsReload disk s (reload disk s)
unfolding reload
reload_lem disk s = elim (Bool-cases (is_empty s.index_path)) [
  | inl empty ↦ rw (empty, reload) (inl (refl, refl))
  | inr named ↦ elim (Bool-cases (disk.diagnose_path s.index_path)) [
    | inr bad ↦ rw (named, bad, reload) (inl (refl, refl))
    | inl fine ↦ elim (Option-cases (disk.open_read_only s.index_path)) [
      | inl e ↦ rw (named, fine, e, reload) (inl (refl, refl))
      | inr (next, e) ↦
          let is_swap : reload disk s ≡ swap s next (describe_index next s.index_path) =
            rw (named, fine, e, reload) refl in
          subst (IsReload disk s) (sym is_swap) (swap-IsReload disk s next e)
    ]
  ]
]
