-- ===== src/CallGraph/Complete.antt =====
-- The search misses no path unless it meets its limit, and what `list_call_paths` reports.
use mathlib.Core.List.Memᴰ
use native.Mathlib.Decide.{ℕ_discrete}
use herbarium.Base.{
  ℕ, zero, suc, ◌+◌, ◌-◌, ◌≤◌, ◌<◌, ◌≡◌, refl, sym, ap, ◌∙◌, subst, true, false, ◌||◌, List, [],
  ◌∷◌, ◌++◌, arith, ◌==◌, leb, ltb, length, length-append, length-take-le, All-take, Memᴰ, contains,
  all_distinct, nat_eq, All, append_assoc, Bool-cases, inl, inr, ==_iff,
}
use herbarium.CallGraph.{
  Adjacency, Dfs, top, scan, dfs, enumerate_paths, call_paths, path_depth, call_path_result_limit,
}
use herbarium.CallGraph.Paths.{
  Walk, here, IsCallPath, top-concat, Rest, arrive, go_on, Rest-of_Walk, Walk-cons, Walk-closed,
  Fresh-single,
}
use herbarium.CallGraph.Search.{
  Restores, round, stops, scan-round, dfs-Restores, dfs_step, dfs-Sound,
}

-- The search only adds paths.
record Grows (before after : List (List ℕ)) : Type 0 where
  keeps : (p : List ℕ) → Memᴰ p before → Memᴰ p after
  longer : length before ≤ length after

Grows-refl : (o : List (List ℕ)) → Grows o o
Grows-refl o = record { keeps = λ p m. m; longer = omega arith }

Grows-trans : {a b c : List (List ℕ)} → Grows a b → Grows b c → Grows a c
Grows-trans g h = record { keeps = λ p m. h.keeps p (g.keeps p m); longer = omega arith }

Grows-append : (a b : List (List ℕ)) → Grows a (a ++ b)
Grows-append a b = record {
  keeps = λ p m. Memᴰ.append_left b m;
  longer = omega (arith, length-append a b);
}

module _ (adj : Adjacency) (end max_depth limit : ℕ) where
  round-Grows :
      (f : Dfs → Dfs)
      → ((t : Dfs) → Grows t.out (f t).out)
      → (next : ℕ) (s : Dfs) → Grows s.out (round end f next s).out
  round-Grows f g next s = elim (Bool-cases (contains s.visited next)) [
    | inl seen ↦ rw seen (Grows-refl s.out)
    | inr fresh ↦ rw fresh (elim (Bool-cases (next == end)) [
      | inl arrived ↦ rw arrived (Grows-append s.out _)
      | inr other ↦
          rw other (g (record s { stack = s.stack ++ next ∷ []; visited = next ∷ s.visited }))
    ])
  ]

  scan-Grows :
      (f : Dfs → Dfs)
      → Restores f
      → ((t : Dfs) → Grows t.out (f t).out)
      → (ns : List ℕ) (s : Dfs) → Grows s.out (scan adj end max_depth limit f ns s).out
  scan-Grows f r g [] s = unfold scan in Grows-refl s.out
  scan-Grows f r g (next ∷ ns) s =
      let one = round-Grows f g next s in
      rw (scan-round adj end max_depth limit f next ns s r)
        (elim (Bool-cases (stops end limit next s)) [
          | inl stop ↦ rw stop one
          | inr more ↦ rw more (Grows-trans one (scan-Grows f r g ns (round end f next s)))
        ])

  dfs-Grows : (fuel : ℕ) (s : Dfs) → Grows s.out (dfs adj end max_depth limit fuel s).out
  dfs-Grows zero s = unfold dfs in Grows-refl s.out
  dfs-Grows (suc fuel) s =
      rw (dfs_step adj end max_depth limit fuel s)
        (elim (Bool-cases (leb limit (length s.out) || leb max_depth (length s.stack - 1))) [
          | inl stop ↦ rw stop (Grows-refl s.out)
          | inr more ↦ rw more (
              scan-Grows (dfs adj end max_depth limit fuel)
                (dfs-Restores adj end max_depth limit fuel) (dfs-Grows fuel) (adj (top s.stack)) s)
        ])

  -- a round at `n` that has room finds `p`
  abbrev Meets : (Dfs → Dfs) → ℕ → Dfs → List ℕ → Type 0
  Meets f n s p =
      (o : List (List ℕ))
      → length (round end f n (record s { out = o })).out < limit
      → Memᴰ p (round end f n (record s { out = o })).out

  scan_finds :
      (f : Dfs → Dfs) (p : List ℕ) (n : ℕ) (ns : List ℕ) (s : Dfs)
      → Restores f
      → ((t : Dfs) → Grows t.out (f t).out)
      → Memᴰ n ns
      → Meets f n s p
      → length (scan adj end max_depth limit f ns s).out < limit
      → Memᴰ p (scan adj end max_depth limit f ns s).out
  scan_finds f p n [] s r g m meets room = absurd (Memᴰ.not-nil m)
  scan_finds f p n (next ∷ ns) s r g m meets room = elim (Bool-cases (stops end limit next s)) [
    | inl stop ↦
        let e : scan adj end max_depth limit f (next ∷ ns) s ≡ round end f next s =
          scan-round adj end max_depth limit f next ns s r ∙ rw stop refl in
        let short : length (round end f next s).out < limit = rw e at room in
        rw e (elim (Memᴰ.cases_cons m) [
          | inl same ↦ subst (λ k. Meets f k s p) same meets s.out short
          | inr later ↦ absurd (ground arith)
        ])
    | inr more ↦
        let e : scan adj end max_depth limit f (next ∷ ns) s
            ≡ scan adj end max_depth limit f ns (round end f next s) =
          scan-round adj end max_depth limit f next ns s r ∙ rw more refl in
        let rest = scan-Grows f r g ns (round end f next s) in
        let short : length (scan adj end max_depth limit f ns (round end f next s)).out < limit =
          rw e at room in
        rw e (elim (Memᴰ.cases_cons m) [
          | inl same ↦
              rest.keeps p
                (subst (λ k. Meets f k s p) same meets s.out (omega (arith, rest.longer)))
          | inr later ↦ scan_finds f p n ns (round end f next s) r g later meets short
        ])
  ]

  -- a call of `dfs` with room left goes into its loop
  dfs_enters :
      (fuel : ℕ) (s : Dfs)
      → 1 ≤ length s.stack
      → length s.stack ≤ max_depth
      → length (dfs adj end max_depth limit (suc fuel) s).out < limit
      → dfs adj end max_depth limit (suc fuel) s
        ≡ scan adj end max_depth limit (dfs adj end max_depth limit fuel) (adj (top s.stack)) s
  dfs_enters fuel s low high room = ground (arith, dfs_step adj end max_depth limit fuel s)

  -- Where the limit is not met, every continuation of the stack is among the results.
  dfs_finds :
      {visited : List ℕ} {d last : ℕ} {r : List ℕ} (fuel : ℕ) (stack : List ℕ) (o : List (List ℕ))
      → Rest adj end visited d last r
      → top stack ≡ last
      → 1 ≤ length stack
      → d + length stack ≡ max_depth + 1
      → d ≤ fuel
      → length
          (dfs adj end max_depth limit fuel
            (record { stack = stack; visited = visited; out = o })).out
        < limit
      → Memᴰ
          (stack ++ r)
          (dfs adj end max_depth limit fuel
            (record { stack = stack; visited = visited; out = o })).out
  dfs_finds zero stack o (arrive {visited} {d} {last} m fresh) t low depth enough room =
      absurd (omega arith)
  dfs_finds zero stack o (go_on {visited} {d} {last} {r} n m fresh ne rest) t low depth enough
        room =
      absurd (omega arith)
  dfs_finds (suc fuel) stack o (arrive {visited} {d} {last} m fresh) t low depth enough room =
      let s : Dfs = record { stack = stack; visited = visited; out = o } in
      let e = dfs_enters fuel s low (omega arith) room in
      rw e (
        scan_finds (dfs adj end max_depth limit fuel) (stack ++ end ∷ []) end (adj (top stack)) s
          (dfs-Restores adj end max_depth limit fuel) (dfs-Grows fuel) (rw t m)
          (λ o' _. rw (fresh, (==_iff end end).1 refl) (Memᴰ.append_right o' (Memᴰ.head refl)))
          (rw e at room))
  dfs_finds (suc fuel) stack o (go_on {visited} {d} {last} {r} n m fresh ne rest) t low depth enough
        room =
      let s : Dfs = record { stack = stack; visited = visited; out = o } in
      let e = dfs_enters fuel s low (omega arith) room in
      let other : (n == end) ≡ false = ground arith in
      rw e (
        scan_finds (dfs adj end max_depth limit fuel) (stack ++ n ∷ r) n (adj (top stack)) s
          (dfs-Restores adj end max_depth limit fuel) (dfs-Grows fuel) (rw t m)
          (λ o' short.
            rw (fresh, other)
              (rw (append_assoc stack (n ∷ []) r) at (
                dfs_finds fuel (stack ++ n ∷ []) o' rest (top-concat stack n)
                  (omega (arith, length-append stack (n ∷ [])))
                  (omega (arith, length-append stack (n ∷ []))) (omega arith)
                  (rw (fresh, other) at short))))
          (rw e at room))

module _ (adj : Adjacency) (start end max_depth limit : ℕ) where
  enumerate_paths_sound :
      All (IsCallPath adj start end max_depth) (enumerate_paths adj start end max_depth limit)
  unfolding enumerate_paths
  enumerate_paths_sound = elim (ℕ_discrete start end) [
    | yes same ↦ rw ((==_iff start end).1 same) (
      record {
        walk = subst (λ e. Walk adj start e (start ∷ [])) same (here start);
        simple = refl;
        short = omega arith;
      },
      tt,
    )
    | no differ ↦
        let other : (start == end) ≡ false = ground arith in
        rw other (
          dfs-Sound adj start end max_depth limit (max_depth + 1)
            (record { stack = start ∷ []; visited = start ∷ []; out = [] })
            (record { walk = here start; simple = refl; same = λ x. refl; off = ground arith })
            (omega arith) tt)
  ]

  -- Below its limit, `enumeratePaths` returns every call path.
  enumerate_paths_complete :
      (p : List ℕ)
      → length (enumerate_paths adj start end max_depth limit) < limit
      → IsCallPath adj start end max_depth p
      → Memᴰ p (enumerate_paths adj start end max_depth limit)
  unfolding enumerate_paths
  enumerate_paths_complete p room c = elim (ℕ_discrete start end) [
    | yes same ↦
        rw ((==_iff start end).1 same)
          (Memᴰ.head (Walk-closed c.walk same c.simple ∙ ap (λ x. x ∷ []) (sym same)))
    | no differ ↦
        let other : (start == end) ≡ false = ground arith in
        let (r, e, t) = Walk-cons c.walk in
        rw other (
          rw e (
            dfs_finds adj end max_depth limit (max_depth + 1) (start ∷ []) []
              (rw t at (
                Rest-of_Walk (start ∷ []) max_depth c.walk differ c.simple
                  (rw t (Fresh-single start r (subst (λ q. all_distinct q ≡ true) e c.simple)))
                  c.short))
              refl (omega arith) (omega arith) (omega arith) (rw other at room)))
  ]

module _ (adj : Adjacency) (from to max_depth : ℕ) where
  -- Every reported path is a simple path along call edges from `from` to `to`, of at most the
  -- allowed number of edges, and at most 50 are reported.
  pub call_paths_sound :
      All (IsCallPath adj from to (path_depth max_depth)) (call_paths adj from to max_depth).0
      × (length (call_paths adj from to max_depth).0 ≤ call_path_result_limit)
  unfolding call_paths
  call_paths_sound =
      let all = enumerate_paths adj from to (path_depth max_depth) (call_path_result_limit + 1) in
      let found =
        enumerate_paths_sound adj from to (path_depth max_depth) (call_path_result_limit + 1) in
      elim (Bool-cases (ltb call_path_result_limit (length all))) [
        | inl over ↦ rw over (
          All-take (IsCallPath adj from to (path_depth max_depth)) call_path_result_limit all found,
          length-take-le call_path_result_limit all,
        )
        | inr few ↦ rw few (found, ground arith)
      ]

  -- If `Truncated` is not set, every such path is reported.
  pub call_paths_complete :
      (p : List ℕ)
      → (call_paths adj from to max_depth).1 ≡ false
      → IsCallPath adj from to (path_depth max_depth) p
      → Memᴰ p (call_paths adj from to max_depth).0
  unfolding call_paths
  call_paths_complete p whole c =
      let few : ltb call_path_result_limit (
            length
              (enumerate_paths adj from to (path_depth max_depth) (call_path_result_limit + 1)))
          ≡ false =
        whole in
      rw few (
        enumerate_paths_complete adj from to (path_depth max_depth) (call_path_result_limit + 1) p
          (ground arith) c)
