-- ===== src/Link.antt =====
-- internal/ingest/link.go, and `NMSymbol` and `ObjectDef` of internal/linkplane/nm.go: which symbol
-- of the index a symbol of a binary is, and which object supplied it.
pub mod Winner
pub mod Losers
pub mod Lookup
pub mod Nm
mod Tests
use herbarium.Base.{
  ℕ, Bool, true, false, not, ◌||◌, ◌&&◌, List, [], ◌∷◌, ◌++◌, Option, none, some, Bytes, codes, leb,
  ltb, ◌==◌, if◌then◌else◌, has_prefix, lookup, insert, contains, list_beq, list_eq, nat_eq,
  sort_by, str_ltb,
}
use herbarium.GccDump.{is_empty}
use herbarium.Usr

pub record NmSymbol : Type 0 where
  pub name : Bytes
  pub kind : Bytes
  pub address : Bytes
  pub size : ℕ

pub strong : NmSymbol → Bool
strong s = contains (codes "T" ∷ codes "D" ∷ codes "B" ∷ codes "R" ∷ []) s.kind

pub weak : NmSymbol → Bool
weak s = contains (codes "W" ∷ codes "V" ∷ []) s.kind

-- a letter from `a` to `z`
abbrev is_lower : ℕ → Bool
is_lower c = leb 97 c && leb c 122

pub is_local : NmSymbol → Bool
is_local s = elim s.kind [
  | [] ↦ false
  | c ∷ cs ↦ is_empty cs && (is_lower c && (not (c == b'w') && not (c == b'v')))
]

pub linkage_kind : NmSymbol → Bytes
linkage_kind s =
    if weak s
    then codes "weak"
    else if list_beq s.kind (codes "C")
    then codes "common"
    else if list_beq s.kind (codes "u")
    then codes "unique_global"
    else if strong s
    then codes "strong"
    else []

pub is_function : NmSymbol → Bool
is_function s = contains (codes "T" ∷ codes "t" ∷ codes "W" ∷ codes "w" ∷ []) s.kind

pub record ObjectDef : Type 0 where
  pub object : Bytes
  pub kind : Bytes

-- one more than the rank of the source, whose least is -1
pub rank : Bytes → ℕ
rank kind =
    if contains (codes "T" ∷ codes "D" ∷ codes "B" ∷ codes "R" ∷ []) kind
    then 4
    else if contains (codes "W" ∷ codes "V" ∷ []) kind
    then 3
    else if list_beq kind (codes "C")
    then 2
    else elim kind [ [] ↦ 0 | c ∷ cs ↦ if is_empty cs && is_lower c then 1 else 0 ]

-- the order that the candidates are sorted in
pub before : ObjectDef → ObjectDef → Bool
before x y =
    if rank x.kind == rank y.kind
    then str_ltb x.object y.object
    else ltb (rank y.kind) (rank x.kind)

pub pick_winning_object : List ObjectDef → Bytes
pick_winning_object cands = elim (sort_by before cands) [ [] ↦ [] | c ∷ cs ↦ c.object ]

-- the loop of `collectLosingObjects`; `losers` is also the set `seen`
pub losing_objects : Bytes → List Bytes → List ObjectDef → List Bytes
losing_objects winner losers [] = losers
losing_objects winner losers (c ∷ cs) =
    losing_objects winner
      (if list_beq c.object winner || contains losers c.object
        then losers
        else losers ++ c.object ∷ [])
      cs

pub collect_losing_objects : List ObjectDef → Bytes → List Bytes
collect_losing_objects cands winner = sort_by str_ltb (losing_objects winner [] cands)

-- `entry` of `buildSymbolLookup`
pub record NameEntry : Type 0 where
  pub id : ℕ
  pub has_def : Bool

pub put_name : List (Bytes × NameEntry) → Bytes → NameEntry → List (Bytes × NameEntry)
put_name m name e = if is_empty name then m else elim (lookup name m) [
  | none ↦ insert name e m
  | some cur ↦
      if cur.has_def && not e.has_def
      then m
      else if not cur.has_def && e.has_def
      then insert name e m
      else m
]

-- a row of the query; `linkage_names` is what the JSON of the column holds
pub record SymbolRow : Type 0 where
  pub id : ℕ
  pub name : Bytes
  pub usr : Bytes
  pub linkage_names : List Bytes
  pub has_def : Bool

pub put_names : NameEntry → List (Bytes × NameEntry) → List Bytes → List (Bytes × NameEntry)
put_names e m [] = m
put_names e m (n ∷ ns) = put_names e (put_name m n e) ns

pub put_rows : List (Bytes × NameEntry) → List SymbolRow → List (Bytes × NameEntry)
put_rows m [] = m
put_rows m (r ∷ rs) =
    put_rows (put_names (record { id = r.id; has_def = r.has_def }) m (r.name ∷ r.linkage_names)) rs

pub name_to_id : List SymbolRow → Bytes → Option ℕ
name_to_id rows name = elim (lookup name (put_rows [] rows)) [ none ↦ none | some e ↦ some e.id ]

-- `*linkplane.MapFile`, by the one field that is read; `nil` is `none`
abbrev pub MapOrigins : Type 0
MapOrigins = Option (List (Bytes × Bytes))

pub map_object_for : MapOrigins → Bytes → Bytes
map_object_for none name = []
map_object_for (some origin) name = elim (lookup name origin) [ none ↦ [] | some o ↦ o ]

module _ (object_to_source : List (Bytes × Bytes)) (usr_to_id : List (Bytes × ℕ)) where
  pub resolve_static_via_object : NmSymbol → Bytes → Option ℕ
  resolve_static_via_object s obj =
      if is_empty obj then none else elim (lookup obj object_to_source) [
        | none ↦ none
        | some src ↦
            lookup
              (if contains (codes "d" ∷ codes "b" ∷ codes "r" ∷ []) s.kind
                then Usr.variable src s.name
                else Usr.function src s.name)
              usr_to_id
      ]

  -- the object of the one candidate, if there is one
  abbrev only_object : Option (List ObjectDef) → Bytes
  only_object none = []
  only_object (some []) = []
  only_object (some (c ∷ [])) = c.object
  only_object (some (c ∷ d ∷ cs)) = []

  abbrev or_else : Option ℕ → Option ℕ → Option ℕ
  or_else none b = b
  or_else (some i) b = some i

  pub resolve_nm_symbol :
      MapOrigins → List (Bytes × List ObjectDef) → (Bytes → Option ℕ) → NmSymbol → Option ℕ
  resolve_nm_symbol mf defs_by_name ids s =
      if not (is_local s)
      then ids s.name
      else or_else (resolve_static_via_object s (map_object_for mf s.name)) (
          or_else (resolve_static_via_object s (only_object (lookup s.name defs_by_name)))
            (ids s.name))

  -- `buildAddrIndex`; `parse_uint` is `strconv.ParseUint(_, 16, 64)`
  pub build_addr_index :
      (Bytes → Option ℕ)
      → MapOrigins
      → List (Bytes × List ObjectDef)
      → (Bytes → Option ℕ)
      → List (ℕ × ℕ)
      → List NmSymbol
      → List (ℕ × ℕ)
  build_addr_index parse_uint mf defs_by_name ids out [] = out
  build_addr_index parse_uint mf defs_by_name ids out (s ∷ syms) =
      build_addr_index parse_uint mf defs_by_name ids
        (if not (is_function s) || is_empty s.address then out else elim (parse_uint s.address) [
          | none ↦ out
          | some addr ↦ elim (resolve_nm_symbol mf defs_by_name ids s) [
            | none ↦ out
            | some id ↦ insert addr id out
          ]
        ])
        syms
