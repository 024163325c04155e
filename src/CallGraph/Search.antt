-- ===== src/CallGraph/Search.antt =====
-- The search finds call paths only, and all of them unless it meets its limit.
use herbarium.Base.{
  ℕ, zero, suc, ◌+◌, ◌-◌, ◌≤◌, ◌≡◌, ◌≢◌, refl, sym, ◌∙◌, subst, Bool, true, false, List, [], ◌∷◌,
  ◌++◌, arith, ◌==◌, leb, if◌then◌else◌, length, length-append, Memᴰ, contains, all_distinct,
  nat_eq, All, All-append, contains-append, Bool-cases, not, ◌&&◌, ◌||◌, All-of_Memᴰ, inl, inr,
  ==_iff,
}
use native.Mathlib.Decide.{ℕ_discrete}
use herbarium.CallGraph.{Adjacency, Dfs, top, scan, dfs}
use herbarium.CallGraph.Paths.{
  Walk, Walk-concat, IsCallPath, top-concat, pop-concat, unmark_marked, all_distinct-concat,
}

abbrev pub Restores : (Dfs → Dfs) → Type 0
Restores f = (s : Dfs) → f s ≡ record s { out = (f s).out }

-- the state that the loop goes on with, at `next`, over the call `f` of `dfs`
abbrev pub visit : (Dfs → Dfs) → ℕ → Dfs → Dfs
visit f next s = record s {
  out = (f (record s { stack = s.stack ++ next ∷ []; visited = next ∷ s.visited })).out;
}

abbrev pub report : ℕ → Dfs → Dfs
report next s = record s { out = s.out ++ (s.stack ++ next ∷ []) ∷ [] }

-- the state after one round, and whether the loop ends there
abbrev pub round : ℕ → (Dfs → Dfs) → ℕ → Dfs → Dfs
round end f next s = record s {
  out =
      if contains s.visited next
      then s.out
      else if next == end
      then (report next s).out
      else (visit f next s).out;
}

abbrev pub stops : ℕ → ℕ → ℕ → Dfs → Bool
stops end limit next s =
    not (contains s.visited next) && next == end && leb limit (length (report next s).out)

module _ (adj : Adjacency) (end max_depth limit : ℕ) where
  -- one round of the loop, with what it restores left out
  scan_step :
      (f : Dfs → Dfs) (next : ℕ) (ns : List ℕ) (s : Dfs)
      → Restores f
      → scan adj end max_depth limit f (next ∷ ns) s ≡ (
          if contains s.visited next
          then scan adj end max_depth limit f ns s
          else if next == end
          then (if leb limit (length (report next s).out)
              then report next s
              else scan adj end max_depth limit f ns (report next s))
          else scan adj end max_depth limit f ns (visit f next s))
  unfolding scan
  scan_step f next ns s r = rw (
    r (record s { stack = s.stack ++ next ∷ []; visited = next ∷ s.visited }),
    pop-concat s.stack next,
    unmark_marked next s.visited,
  )

  pub scan-round :
      (f : Dfs → Dfs) (next : ℕ) (ns : List ℕ) (s : Dfs)
      → Restores f
      → scan adj end max_depth limit f (next ∷ ns) s ≡ (
          if stops end limit next s
          then round end f next s
          else scan adj end max_depth limit f ns (round end f next s))
  scan-round f next ns s r = rw (scan_step f next ns s r) (ground arith)

  scan-Restores :
      (f : Dfs → Dfs) → Restores f → (ns : List ℕ) → Restores (scan adj end max_depth limit f ns)
  scan-Restores f r [] s = unfold scan in refl
  scan-Restores f r (next ∷ ns) s = rw (scan_step f next ns s r) (
      ground (
        arith,
        scan-Restores f r ns s,
        scan-Restores f r ns (report next s),
        scan-Restores f r ns (visit f next s),
      ))

  pub dfs-Restores : (fuel : ℕ) → Restores (dfs adj end max_depth limit fuel)
  unfolding dfs
  dfs-Restores zero s = refl
  dfs-Restores (suc fuel) s = ground (
    arith,
    scan-Restores (dfs adj end max_depth limit fuel) (dfs-Restores fuel) (adj (top s.stack)) s,
  )

  pub dfs_step :
      (fuel : ℕ) (s : Dfs)
      → dfs adj end max_depth limit (suc fuel) s ≡ (
          if leb limit (length s.out) || leb max_depth (length s.stack - 1)
          then s
          else scan adj end max_depth limit
              (dfs adj end max_depth limit fuel)
              (adj (top s.stack))
              s)
  unfolding dfs
  dfs_step fuel s = ground arith

-- What a call of `dfs` finds on the stack: a simple walk from `start` that has not met `end`.
pub record Frame (adj : Adjacency) (start end : ℕ) (stack visited : List ℕ) : Type 0 where
  pub walk : Walk adj start (top stack) stack
  pub simple : all_distinct stack ≡ true
  pub same : (x : ℕ) → contains visited x ≡ contains stack x
  pub off : contains stack end ≡ false

module _ (adj : Adjacency) (start end max_depth limit : ℕ) where
  Frame-push :
      (next : ℕ) {stack visited : List ℕ}
      → Frame adj start end stack visited
      → Memᴰ next (adj (top stack))
      → contains visited next ≡ false
      → next ≢ end
      → Frame adj start end (stack ++ next ∷ []) (next ∷ visited)
  Frame-push next {stack} {visited} f m fresh ne = record {
    walk = rw top-concat (Walk-concat next f.walk m);
    simple = all_distinct-concat stack next f.simple (sym (f.same next) ∙ fresh);
    same = λ x. ground (arith, f.same x, contains-append stack (next ∷ []) x);
    off = ground (arith, f.off, contains-append stack (next ∷ []) end);
  }

  abbrev Sound : Dfs → Type 0
  Sound s = All (IsCallPath adj start end max_depth) s.out

  report-Sound :
      (s : Dfs)
      → Frame adj start end s.stack s.visited
      → length s.stack ≤ max_depth
      → Memᴰ end (adj (top s.stack))
      → Sound s
      → Sound (report end s)
  report-Sound s f l m h = All-append (IsCallPath adj start end max_depth) s.out _ h (
    record {
      walk = Walk-concat end f.walk m;
      simple = all_distinct-concat s.stack end f.simple f.off;
      short = omega (arith, length-append s.stack (end ∷ []));
    },
    tt,
  )

  round-Sound :
      (f : Dfs → Dfs) (next : ℕ) (s : Dfs)
      → ((t : Dfs)
          → Frame adj start end t.stack t.visited
          → length t.stack ≤ max_depth + 1
          → Sound t
          → Sound (f t))
      → Memᴰ next (adj (top s.stack))
      → Frame adj start end s.stack s.visited
      → length s.stack ≤ max_depth
      → Sound s
      → Sound (round end f next s)
  round-Sound f next s call m fr l h = elim (Bool-cases (contains s.visited next)) [
    | inl seen ↦ rw seen h
    | inr fresh ↦ rw fresh (elim (ℕ_discrete next end) [
      | yes e ↦ rw ((==_iff next end).1 e) (
          subst (λ x. Sound (report x s)) (sym e)
            (report-Sound s fr l (subst (λ x. Memᴰ x (adj (top s.stack))) e m) h))
      | no ne ↦
          let other : (next == end) ≡ false = ground arith in
          rw other (
            call (record s { stack = s.stack ++ next ∷ []; visited = next ∷ s.visited })
              (Frame-push next fr m fresh ne) (omega (arith, length-append s.stack (next ∷ []))) h)
    ])
  ]

  scan-Sound :
      (f : Dfs → Dfs)
      → Restores f
      → ((t : Dfs)
          → Frame adj start end t.stack t.visited
          → length t.stack ≤ max_depth + 1
          → Sound t
          → Sound (f t))
      → (ns : List ℕ) (s : Dfs) → All (λ n. Memᴰ n (adj (top s.stack))) ns
      → Frame adj start end s.stack s.visited
      → length s.stack ≤ max_depth
      → Sound s
      → Sound (scan adj end max_depth limit f ns s)
  scan-Sound f r call [] s ms fr l h = unfold scan in h
  scan-Sound f r call (next ∷ ns) s (m, ms) fr l h =
      let done = round-Sound f next s call m fr l h in
      rw (scan-round adj end max_depth limit f next ns s r)
        (elim (Bool-cases (stops end limit next s)) [
          | inl stop ↦ rw stop done
          | inr more ↦ rw more (scan-Sound f r call ns (round end f next s) ms fr l done)
        ])

  pub dfs-Sound :
      (fuel : ℕ) (s : Dfs)
      → Frame adj start end s.stack s.visited
      → length s.stack ≤ max_depth + 1
      → Sound s
      → Sound (dfs adj end max_depth limit fuel s)
  dfs-Sound zero s fr l h = unfold dfs in h
  dfs-Sound (suc fuel) s fr l h =
      rw (dfs_step adj end max_depth limit fuel s)
        (elim (Bool-cases (leb limit (length s.out) || leb max_depth (length s.stack - 1))) [
          | inl stop ↦ rw stop h
          | inr more ↦ rw more (
              scan-Sound (dfs adj end max_depth limit fuel)
                (dfs-Restores adj end max_depth limit fuel) (dfs-Sound fuel) (adj (top s.stack)) s
                (All-of_Memᴰ _ (adj (top s.stack)) (λ a m. m)) fr (ground arith) h)
        ])
