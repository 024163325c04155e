-- ===== src/Inlining/Totals.antt =====
-- `inliningSummary`: its counts add up.
use herbarium.Base.{
  count_at, count-insert, ℕ, ◌+◌, ◌≡◌, refl, sym, ap, subst, ◌∙◌, inl, inr, arith, Bool, true,
  false, List, [], ◌∷◌, Bytes, list_eq, nat_eq, list_beq, list_beq_iff, ◌==◌, ==_iff, if◌then◌else◌,
  Bool-cases, contains, all_distinct,
}
use herbarium.Inlining.{
  PassGroup, DepthGroup, InliningSummary, add_group, group_loop, add_depth, depth_loop,
  empty_summary, inlining_summary,
}

-- the rows of the groups for which the test holds
abbrev pub rows_if : (PassGroup → Bool) → List PassGroup → ℕ
rows_if test [] = 0
rows_if test (g ∷ gs) = let rest = rows_if test gs in if test g then g.count + rest else rest

abbrev pub depth_rows : List DepthGroup → ℕ
depth_rows [] = 0
depth_rows (g ∷ gs) = g.count + depth_rows gs

abbrev pub depths_of : List DepthGroup → List ℕ
depths_of [] = []
depths_of (g ∷ gs) = g.depth ∷ depths_of gs

-- the count of the group of a depth
abbrev pub rows_at_depth : ℕ → List DepthGroup → ℕ
rows_at_depth d [] = 0
rows_at_depth d (g ∷ gs) = let rest = rows_at_depth d gs in if g.depth == d then g.count else rest

passes_lem :
    (sum : InliningSummary) (gs : List PassGroup)
    → ((group_loop sum gs).records ≡ sum.records + rows_if (λ g. true) gs)
      × ((group_loop sum gs).records_inlined
          ≡ sum.records_inlined + rows_if (λ g. g.inlined == 1) gs)
      × ((group_loop sum gs).records_declined + rows_if (λ g. g.inlined == 1) gs
          ≡ sum.records_declined + rows_if (λ g. true) gs)
      × ((group_loop sum gs).instances ≡ sum.instances)
      × ((group_loop sum gs).instances_by_depth ≡ sum.instances_by_depth)
unfolding group_loop
passes_lem sum [] = (omega arith, omega arith, omega arith, refl, refl)
passes_lem sum (g ∷ gs) =
    let (a, b, c, d, e) = passes_lem (add_group sum g) gs in
    (ground (arith, a), ground (arith, b), ground (arith, c), d, e)

by_pass_lem :
    (sum : InliningSummary) (gs : List PassGroup) (p : Bytes)
    → count_at p (group_loop sum gs).records_by_pass
      ≡ count_at p sum.records_by_pass + rows_if (λ g. list_beq g.pass p) gs
unfolding group_loop
by_pass_lem sum [] p = omega arith
by_pass_lem sum (g ∷ gs) p =
    let ih : count_at p (group_loop (add_group sum g) gs).records_by_pass
        ≡ count_at p (add_group sum g).records_by_pass + rows_if (λ h. list_beq h.pass p) gs =
      by_pass_lem (add_group sum g) gs p in
    let n : ℕ = count_at g.pass sum.records_by_pass + g.count in
    elim (Bool-cases (list_beq g.pass p)) [
      | inl same ↦
          let is_p : g.pass ≡ p = (list_beq_iff g.pass p).0 same in
          let at : count_at p (add_group sum g).records_by_pass
              ≡ count_at p sum.records_by_pass + g.count =
            count-insert g.pass p n sum.records_by_pass
            ∙ rw same (ap (λ x. count_at x sum.records_by_pass + g.count) is_p) in
          rw same (omega (arith, ih, at))
      | inr other ↦
          let at : count_at p (add_group sum g).records_by_pass ≡ count_at p sum.records_by_pass =
            count-insert g.pass p n sum.records_by_pass ∙ rw other refl in
          rw other (omega (arith, ih, at))
    ]

depths_lem :
    (sum : InliningSummary) (gs : List DepthGroup)
    → ((depth_loop sum gs).instances ≡ sum.instances + depth_rows gs)
      × ((depth_loop sum gs).records ≡ sum.records)
      × ((depth_loop sum gs).records_inlined ≡ sum.records_inlined)
      × ((depth_loop sum gs).records_declined ≡ sum.records_declined)
      × ((depth_loop sum gs).records_by_pass ≡ sum.records_by_pass)
unfolding depth_loop
depths_lem sum [] = (omega arith, refl, refl, refl, refl)
depths_lem sum (g ∷ gs) =
    let (a, b, c, d, e) = depths_lem (add_depth sum g) gs in (omega (arith, a), b, c, d, e)

by_depth_lem :
    (sum : InliningSummary) (gs : List DepthGroup) (d : ℕ)
    → all_distinct (depths_of gs) ≡ true
    → count_at d (depth_loop sum gs).instances_by_depth ≡ (
        if contains (depths_of gs) d then rows_at_depth d gs else count_at d sum.instances_by_depth)
unfolding depth_loop
by_depth_lem sum [] d h = refl
by_depth_lem sum (g ∷ gs) d h =
    by_depth_lem (add_depth sum g) gs d (ground arith) ∙ (elim (Bool-cases (g.depth == d)) [
      | inl same ↦
          let is_d : g.depth ≡ d = (==_iff g.depth d).0 same in
          let once : contains (depths_of gs) d ≡ false =
            subst (λ x. contains (depths_of gs) x ≡ false) is_d (ground arith) in
          rw (once, same) (count-insert g.depth d g.count sum.instances_by_depth ∙ rw same refl)
      | inr other ↦
          let at : count_at d (add_depth sum g).instances_by_depth
              ≡ count_at d sum.instances_by_depth =
            count-insert g.depth d g.count sum.instances_by_depth ∙ rw other refl in
          rw (other, at) refl
    ])

rows_at_depth-absent :
    (gs : List DepthGroup) (d : ℕ) → contains (depths_of gs) d ≡ false → rows_at_depth d gs ≡ 0
rows_at_depth-absent [] d h = refl
rows_at_depth-absent (g ∷ gs) d h = ground (arith, rows_at_depth-absent gs d)

-- The summary counts every row of the groups: the records are those that were inlined and those
-- that were declined, and also the sum over the passes; with one group for each depth, as the
-- query gives them, the count at a depth is that of its group.
pub inlining_summary_lem :
    (passes : List PassGroup) (depths : List DepthGroup) (edges : ℕ)
    → all_distinct (depths_of depths) ≡ true
    → ((inlining_summary passes depths edges).records ≡ rows_if (λ g. true) passes)
      × ((inlining_summary passes depths edges).records_inlined
          ≡ rows_if (λ g. g.inlined == 1) passes)
      × ((inlining_summary passes depths edges).records_inlined
            + (inlining_summary passes depths edges).records_declined
          ≡ (inlining_summary passes depths edges).records)
      × ((p : Bytes)
          → count_at p (inlining_summary passes depths edges).records_by_pass
            ≡ rows_if (λ g. list_beq g.pass p) passes)
      × ((inlining_summary passes depths edges).instances ≡ depth_rows depths)
      × ((d : ℕ)
          → count_at d (inlining_summary passes depths edges).instances_by_depth
            ≡ rows_at_depth d depths)
      × ((inlining_summary passes depths edges).cgraph_edges ≡ edges)
unfolding inlining_summary
inlining_summary_lem passes depths edges distinct =
    let sum : InliningSummary = group_loop empty_summary passes in
    let (a, b, c, d, e) = passes_lem empty_summary passes in
    let (f, g, h, i, j) = depths_lem sum depths in
    (
      omega (arith, g, a),
      omega (arith, h, b),
      omega (arith, a, b, c, g, h, i),
      (λ p.
          let k : count_at p sum.records_by_pass ≡ 0 + rows_if (λ x. list_beq x.pass p) passes =
            by_pass_lem empty_summary passes p in
          ap (count_at p) j ∙ omega (arith, k)),
      omega (arith, f, d),
      (λ n.
          by_depth_lem sum depths n distinct ∙ (elim (Bool-cases (contains (depths_of depths) n)) [
            | inl there ↦ rw there refl
            | inr absent ↦
                rw absent (ap (count_at n) e ∙ sym (rows_at_depth-absent depths n absent))
          ])),
      refl,
    )
