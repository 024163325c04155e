-- ===== src/Ingest/Records.antt =====
-- The records of ingest.go, and what one observation adds to a symbol.
use herbarium.Base.{
  ℕ, Bool, false, not, ◌||◌, ◌&&◌, List, [], ◌∷◌, ◌++◌, Option, none, some, Bytes, codes, leb, ◌==◌,
  if◌then◌else◌, lookup, insert, contains, list_beq, list_eq, nat_eq,
}
use herbarium.GccDump.{Function, Cgraph, Ci, IcfGroup, InlineRecord, is_empty}
use herbarium.Usr
use herbarium.Ingest.Paths.{PathResolver, to_project_relative}

-- `tuData`; `nil` is `none`
pub record Tu : Type 0 where
  pub object : Bytes
  pub ci : Option Ci
  pub cgraph : Option Cgraph
  pub icf : Option (List IcfGroup)
  pub opt_rec : Option (List InlineRecord)

pub record DefRec : Type 0 where
  pub file : Bytes
  pub line : ℕ
  pub decl_file : Bytes
  pub decl_line : ℕ
  pub is_weak : Bool
  pub linkage_name : Bytes

pub record SymbolRec : Type 0 where
  pub usr : Bytes
  pub name : Bytes
  pub kind : Bytes
  pub linkage : Bytes
  pub signature : Bytes
  pub address_taken : Bool
  pub linkage_names : List Bytes
  pub defs : List DefRec

abbrev pub Symbols : Type 0
Symbols = List (Bytes × SymbolRec)

abbrev pub PerTuResolve : Type 0
PerTuResolve = List (Bytes × Bytes)

abbrev pub symbols_of : Tu → List (Bytes × Function)
symbols_of tu = elim tu.cgraph [ none ↦ [] | some g ↦ g.symbols ]

-- the file and line of the .ci node of `name`, if the dump has one
unfoldable pub node_place : PathResolver → Option Ci → Bytes → Bytes × ℕ
node_place pr none name = ([], 0)
node_place pr (some ci) name = elim (lookup name ci.nodes) [
  | none ↦ ([], 0)
  | some n ↦ ((to_project_relative pr n.decl_file).rel, n.decl_line)
]

unfoldable pub def_of : PathResolver → Tu → Bytes → Function → Bytes → Bool → DefRec
def_of pr tu source_path fn name is_weak =
    let place = node_place pr tu.ci name in
    record {
      file = if is_empty place.0 then source_path else place.0;
      line = place.1;
      decl_file = [];
      decl_line = 0;
      is_weak = is_weak;
      linkage_name = fn.linkage_name;
    }

-- the name in use: that of the function, or else its linkage name
abbrev pub name_of : Function → Bytes
name_of fn = if is_empty fn.name then fn.linkage_name else fn.name

unfoldable pub linkage_of : List Bytes → Bytes
linkage_of flags =
    let is_public =
      contains flags (codes "public") || contains flags (codes "externally_visible") in
    if contains flags (codes "weak")
    then codes "weak"
    else if is_public
    then codes "external"
    else codes "internal"

unfoldable pub usr_of : Bytes → Bytes → Bytes → Bytes
usr_of kind path name =
    if list_beq kind (codes "variable") then Usr.variable path name else Usr.function path name

unfoldable pub record_for : PathResolver → Tu → Bytes → Function → Option SymbolRec
record_for pr tu source_path fn =
    let name = name_of fn in
    let kind = if is_empty fn.kind then codes "function" else fn.kind in
    let linkage = linkage_of fn.visibility_flags in
    let path = if list_beq linkage (codes "internal") then source_path else [] in
    let is_weak = contains fn.visibility_flags (codes "weak") in
    let def = def_of pr tu source_path fn name is_weak in
    if is_empty name
    then none
    else some (record {
      usr = usr_of kind path name;
      name = name;
      kind = kind;
      linkage = linkage;
      signature = [];
      address_taken = fn.address_taken;
      linkage_names = fn.linkage_name ∷ fn.name ∷ [];
      defs = if fn.analyzed && not fn.body_removed then def ∷ [] else [];
    })

abbrev pub same_def : DefRec → DefRec → Bool
same_def e d = list_beq e.file d.file && e.line == d.line && list_beq e.linkage_name d.linkage_name

unfoldable pub has_def : List DefRec → DefRec → Bool
has_def [] d = false
has_def (e ∷ defs) d = same_def e d || has_def defs d

unfoldable pub add_defs : List DefRec → List DefRec → List DefRec
add_defs prev [] = prev
add_defs prev (d ∷ ds) = add_defs (if has_def prev d then prev else prev ++ d ∷ []) ds

-- the names of the set that are not empty
unfoldable pub add_names : List Bytes → List Bytes → List Bytes
add_names names [] = names
add_names names (n ∷ ns) =
    add_names (if is_empty n || contains names n then names else names ++ n ∷ []) ns

unfoldable pub linkage_rank : Bytes → ℕ
linkage_rank l =
    if list_beq l (codes "external")
    then 3
    else if list_beq l (codes "weak") || list_beq l (codes "common")
    then 2
    else if list_beq l (codes "internal")
    then 1
    else 0

unfoldable pub stronger_linkage : Bytes → Bytes → Bytes
stronger_linkage a b = if leb (linkage_rank b) (linkage_rank a) then a else b

unfoldable pub folded : SymbolRec → SymbolRec → SymbolRec
folded prev obs = record prev {
  name = if is_empty prev.name then obs.name else prev.name;
  kind = if is_empty prev.kind then obs.kind else prev.kind;
  linkage = stronger_linkage prev.linkage obs.linkage;
  address_taken = prev.address_taken || obs.address_taken;
  linkage_names = add_names prev.linkage_names obs.linkage_names;
  defs = add_defs prev.defs obs.defs;
}

unfoldable pub fold_symbol : Symbols → SymbolRec → Symbols
fold_symbol symbols obs = elim (lookup obs.usr symbols) [
  | none ↦ insert obs.usr obs symbols
  | some prev ↦ insert obs.usr (folded prev obs) symbols
]
