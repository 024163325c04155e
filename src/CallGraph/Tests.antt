-- ===== src/CallGraph/Tests.antt =====
-- Runs of the search, and the theorems at a small call graph.
use herbarium.Base.{
  ℕ, ◌≡◌, ◌≤◌, refl, false, List, [], ◌∷◌, if◌then◌else◌, ◌==◌, length, Memᴰ, All, arith,
}
use herbarium.CallGraph.{
  Adjacency, enumerate_paths, dfs, scan, call_paths, path_depth, call_path_result_limit,
}
use herbarium.CallGraph.Paths.{IsCallPath, step, here}
use herbarium.CallGraph.Complete.{call_paths_sound, call_paths_complete}

abbrev diamond : Adjacency
diamond n =
    if n == 0 then 1 ∷ 2 ∷ [] else if n == 1 then 2 ∷ 3 ∷ [] else if n == 2 then 0 ∷ 3 ∷ [] else []

diamond_paths :
    call_paths diamond 0 3 0
    ≡ ((0 ∷ 1 ∷ 2 ∷ 3 ∷ []) ∷ (0 ∷ 1 ∷ 3 ∷ []) ∷ (0 ∷ 2 ∷ 3 ∷ []) ∷ [], false)
unfolding call_paths enumerate_paths dfs scan
diamond_paths = refl

-- The limit is exceeded: the inner call meets it, and the loop around it goes on.
over_the_limit : length (enumerate_paths diamond 0 3 6 1) ≡ 2
unfolding enumerate_paths dfs scan
over_the_limit = refl

call_paths_sound_example :
    All (IsCallPath diamond 0 3 (path_depth 2)) (call_paths diamond 0 3 2).0
    × (length (call_paths diamond 0 3 2).0 ≤ call_path_result_limit)
call_paths_sound_example = call_paths_sound diamond 0 3 2

abbrev short_way : List ℕ
short_way = 0 ∷ 2 ∷ 3 ∷ []

short_way-IsCallPath : IsCallPath diamond 0 3 (path_depth 2) short_way
short_way-IsCallPath = record {
  walk = step (Memᴰ.tail (Memᴰ.head refl)) (step (Memᴰ.tail (Memᴰ.head refl)) (here 3));
  simple = refl;
  short = omega arith;
}

not_truncated : (call_paths diamond 0 3 2).1 ≡ false
unfolding call_paths enumerate_paths dfs scan
not_truncated = refl

call_paths_complete_example : Memᴰ short_way (call_paths diamond 0 3 2).0
call_paths_complete_example =
    call_paths_complete diamond 0 3 2 short_way not_truncated short_way-IsCallPath
