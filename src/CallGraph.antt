-- ===== src/CallGraph.antt =====
-- internal/mcp/callgraph_source_tools.go: `enumeratePaths`, the search behind `list_call_paths`,
-- and the cap that `handleListCallPaths` puts on its result.
mod Paths
mod Search
pub mod Complete
mod Tests
use herbarium.Base.{
  ℕ, zero, suc, ◌+◌, ◌-◌, ◌≡◌, refl, Bool, true, false, ◌||◌, List, [], ◌∷◌, ◌++◌, ltb, leb, ◌==◌,
  if◌then◌else◌, length, take, contains, nat_eq,
}

-- `adj`: the callees of a symbol id, in the order that `loadCgraphAdjacency` sorted them
abbrev pub Adjacency : Type 0
Adjacency = ℕ → List ℕ

-- the variables that the closure `dfs` shares with `enumeratePaths`
pub record Dfs : Type 0 where
  pub stack : List ℕ
  pub visited : List ℕ
  pub out : List (List ℕ)

-- `stack[len(stack)-1]`; the stack is never empty
abbrev pub top : List ℕ → ℕ
top [] = 0
top (x ∷ []) = x
top (x ∷ y ∷ s) = top (y ∷ s)

-- `stack[:len(stack)-1]`
abbrev pub pop : List ℕ → List ℕ
pop [] = []
pop (x ∷ []) = []
pop (x ∷ y ∷ s) = x ∷ pop (y ∷ s)

-- `delete(visited, id)`
abbrev pub unmark : ℕ → List ℕ → List ℕ
unmark n [] = []
unmark n (x ∷ xs) = if x == n then xs else x ∷ unmark n xs

module _ (adj : Adjacency) (end : ℕ) (max_depth limit : ℕ) where
  -- the body of the loop `for _, next := range adj[last]`, over the call `dfs`
  pub scan : (Dfs → Dfs) → List ℕ → Dfs → Dfs
  scan dfs [] s = s
  scan dfs (next ∷ ns) s =
      let pushed = record s { stack = s.stack ++ next ∷ [] } in
      let found = record pushed { out = s.out ++ pushed.stack ∷ [] } in
      let inner = dfs (record pushed { visited = next ∷ s.visited }) in
      let skip = scan dfs ns s in
      let full = record found { stack = pop found.stack } in
      let after_found = scan dfs ns full in
      let after_inner =
        scan dfs ns
          (record inner { visited = unmark next inner.visited; stack = pop inner.stack }) in
      if contains s.visited next
      then skip
      else if next == end
      then (if leb limit (length found.out) then full else after_found)
      else after_inner

  -- The closure `dfs`. The fuel is at least the depth that `maxDepth` leaves.
  pub dfs : ℕ → Dfs → Dfs
  dfs zero s = s
  dfs (suc fuel) s =
      let body = scan (dfs fuel) (adj (top s.stack)) s in
      if leb limit (length s.out) then s else if leb max_depth (length s.stack - 1) then s else body

pub enumerate_paths : Adjacency → ℕ → ℕ → ℕ → ℕ → List (List ℕ)
enumerate_paths adj start end max_depth limit =
    if start == end
    then (start ∷ []) ∷ []
    else (dfs adj end max_depth limit (max_depth + 1)
        (record { stack = start ∷ []; visited = start ∷ []; out = [] })).out

-- `callPathDefaultDepth`, `callPathMaxDepth`, `callPathResultLimit`
abbrev pub call_path_default_depth : ℕ
call_path_default_depth = 6

abbrev pub call_path_max_depth : ℕ
call_path_max_depth = 16

abbrev pub call_path_result_limit : ℕ
call_path_result_limit = 50

-- `max_depth` of the request, where 0 stands for what is not positive
abbrev pub path_depth : ℕ → ℕ
path_depth d = if d == 0 || ltb call_path_max_depth d then call_path_default_depth else d

-- the part of `handleListCallPaths` behind the lookups: the paths that it reports, and `Truncated`
pub call_paths : Adjacency → ℕ → ℕ → ℕ → List (List ℕ) × Bool
call_paths adj from to max_depth =
    let paths = enumerate_paths adj from to (path_depth max_depth) (call_path_result_limit + 1) in
    let truncated = ltb call_path_result_limit (length paths) in
    ((if truncated then take call_path_result_limit paths else paths), truncated)
