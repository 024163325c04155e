-- ===== src/Ingest/Symbols.antt =====
-- `aggregateSymbols`: the symbols of one translation unit, resolved to USRs.
use herbarium.Base.{
  ◌||◌, List, [], ◌∷◌, none, some, Bytes, if◌then◌else◌, lookup, insert, keys, sort_by, str_ltb,
  list_eq, nat_eq,
}
use herbarium.GccDump.{Function, is_empty}
use herbarium.Ingest.Paths.{PathResolver, to_project_relative}
use herbarium.Ingest.Records.{
  Tu, Symbols, PerTuResolve, symbols_of, record_for, fold_symbol, add_names,
}

pub record Found : Type 0 where
  pub symbols : Symbols
  pub res : PerTuResolve

abbrev pub sorted_ids : Tu → List Bytes
sorted_ids tu = sort_by str_ltb (keys (symbols_of tu))

abbrev pub source_path_of : PathResolver → Tu → Bytes
source_path_of pr tu = elim tu.ci [ none ↦ [] | some ci ↦ (to_project_relative pr ci.title).rel ]

module _ (pr : PathResolver) (tu : Tu) where
  -- enter `id` with the record of `fn`
  unfoldable pub enter : Found → Bytes → Function → Found
  enter f id fn = elim (record_for pr tu (source_path_of pr tu) fn) [
    | none ↦ f
    | some rec ↦ record { symbols = fold_symbol f.symbols rec; res = insert id rec.usr f.res }
  ]

  -- the first loop, over what is no clone
  unfoldable pub enter_plain : Found → Bytes → Found
  enter_plain f id = elim (lookup id (symbols_of tu)) [
    | none ↦ f
    | some fn ↦ if is_empty fn.clone_of_id then enter f id fn else f
  ]

  unfoldable pub plain_loop : Found → List Bytes → Found
  plain_loop f [] = f
  plain_loop f (id ∷ ids) = plain_loop (enter_plain f id) ids

  -- the parent of a clone, entered now if the first loop has not
  unfoldable pub with_parent : Found → Bytes → Found
  with_parent f parent = elim (lookup parent f.res) [
    | some u ↦ f
    | none ↦ elim (lookup parent (symbols_of tu)) [ none ↦ f | some fn ↦ enter f parent fn ]
  ]

  -- what a clone adds to its parent's record
  unfoldable pub note_clone : Symbols → Bytes → Function → Symbols
  note_clone symbols parent_usr fn = elim (lookup parent_usr symbols) [
    | none ↦ symbols
    | some rec ↦
        insert parent_usr
          (record rec {
            linkage_names = add_names rec.linkage_names (fn.name ∷ fn.linkage_name ∷ []);
            address_taken = rec.address_taken || fn.address_taken;
          })
          symbols
  ]

  unfoldable pub enter_clone : Found → Bytes → Function → Found
  enter_clone f id fn =
      let g = with_parent f fn.clone_of_id in
      elim (lookup fn.clone_of_id g.res) [
        | none ↦ g
        | some u ↦
            if is_empty u
            then g
            else record { symbols = note_clone g.symbols u fn; res = insert id u g.res }
      ]

  -- the second loop, over the clones
  unfoldable pub enter_id : Found → Bytes → Found
  enter_id f id = elim (lookup id (symbols_of tu)) [
    | none ↦ f
    | some fn ↦ if is_empty fn.clone_of_id then f else enter_clone f id fn
  ]

  unfoldable pub clone_loop : Found → List Bytes → Found
  clone_loop f [] = f
  clone_loop f (id ∷ ids) = clone_loop (enter_id f id) ids

  unfoldable pub aggregate_symbols : Symbols → Found
  aggregate_symbols symbols =
      clone_loop (plain_loop (record { symbols = symbols; res = [] }) (sorted_ids tu))
        (sorted_ids tu)
