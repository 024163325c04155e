-- ===== src/Ingest/Prune.antt =====
-- `referencedUSRs` and `pruneUnreferenced`: symbols that nothing refers to are dropped.
use herbarium.Base.{
  Bool, not, ◌||◌, List, [], ◌∷◌, ◌++◌, Option, none, some, Bytes, codes, if◌then◌else◌, lookup,
  insert, keep_if, contains, list_beq, list_eq, nat_eq, keys,
}
use herbarium.GccDump.{Function, Call, IcfGroup, InlineRecord, is_empty}
use herbarium.Ingest.Records.{Tu, SymbolRec, Symbols, PerTuResolve, symbols_of}
use herbarium.Ingest.Symbols.{sorted_ids}

-- the USRs of both ends, if both are resolved
abbrev pub both_ends : Option Bytes → Option Bytes → List Bytes
both_ends none callee = []
both_ends (some u) none = []
both_ends (some u) (some v) = u ∷ v ∷ []

module _ (res : PerTuResolve) where
  unfoldable pub call_ends : Bytes → List Call → List Bytes
  call_ends id [] = []
  call_ends id (c ∷ cs) =
      both_ends (lookup id res) (lookup c.target_local_id res) ++ call_ends id cs

  unfoldable pub cgraph_ends : List (Bytes × Function) → List Bytes
  cgraph_ends [] = []
  cgraph_ends ((id, fn) ∷ m) = call_ends id fn.called ++ cgraph_ends m

  unfoldable pub record_ends : List InlineRecord → List Bytes
  record_ends [] = []
  record_ends (r ∷ rs) =
      both_ends (lookup r.caller_local_id res) (lookup r.callee_local_id res) ++ record_ends rs

  -- `buildNameToUSR`: the first id of a name, in sorted order, that is resolved
  unfoldable pub name_to_usr :
      List (Bytes × Function) → List (Bytes × Bytes) → List Bytes → List (Bytes × Bytes)
  name_to_usr m out [] = out
  name_to_usr m out (id ∷ ids) =
      name_to_usr m
        (elim (lookup id m) [
          | none ↦ out
          | some fn ↦
              if is_empty fn.name || contains (keys out) fn.name
              then out
              else elim (lookup id res) [ none ↦ out | some u ↦ insert fn.name u out ]
        ])
        ids

-- the losers of a group that are known, and are not the winner
unfoldable pub known_losers : List (Bytes × Bytes) → Bytes → List Bytes → List Bytes
known_losers names winner [] = []
known_losers names winner (l ∷ ls) = elim (lookup l names) [
  | none ↦ known_losers names winner ls
  | some u ↦
      if list_beq u winner then known_losers names winner ls else u ∷ known_losers names winner ls
]

unfoldable pub group_ends : List (Bytes × Bytes) → List IcfGroup → List Bytes
group_ends names [] = []
group_ends names (g ∷ gs) =
    (elim (lookup g.winner_name names) [
      | none ↦ []
      | some winner ↦
          let losers = known_losers names winner g.loser_names in
          if is_empty losers then [] else losers ++ winner ∷ []
    ])
    ++ group_ends names gs

abbrev pub list_of {ℓ} : {A : Type ℓ} → Option (List A) → List A
list_of none = []
list_of (some xs) = xs

unfoldable pub tu_ends : Tu → PerTuResolve → List Bytes
tu_ends tu res =
    cgraph_ends res (symbols_of tu)
    ++ (record_ends res (list_of tu.opt_rec)
        ++ group_ends (name_to_usr res (symbols_of tu) [] (sorted_ids tu)) (list_of tu.icf))

unfoldable pub referenced_usrs : List Tu → List (Bytes × PerTuResolve) → List Bytes
referenced_usrs [] resolves = []
referenced_usrs (tu ∷ tus) resolves =
    (elim (lookup tu.object resolves) [ none ↦ [] | some res ↦ tu_ends tu res ])
    ++ referenced_usrs tus resolves

-- the test of `pruneUnreferenced`, for what stays
unfoldable pub stays : List Bytes → Bytes → SymbolRec → Bool
stays referenced u rec =
    not (is_empty rec.defs)
    || rec.address_taken
    || not (list_beq rec.linkage (codes "internal"))
    || contains referenced u

unfoldable pub prune_unreferenced : List Bytes → Symbols → Symbols
prune_unreferenced referenced symbols = keep_if (stays referenced) symbols
