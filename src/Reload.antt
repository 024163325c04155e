-- ===== src/Reload.antt =====
-- internal/mcp/reload_tool.go: `Reload`, which swaps the served index for the file on disk. Errors are
-- values; the locks are left out, and the step is the one that they make atomic.
pub mod Safe
mod Tests
use herbarium.Base.{
  ℕ, Bool, false, not, List, ◌∷◌, Option, none, some, Bytes, codes, if◌then◌else◌, list_beq, nat_eq,
  lookup, list_eq,
}
use herbarium.GccDump.{is_empty}

-- an open handle of an index, and what the queries of `describeIndex` give on it
pub record Index : Type 0 where
  pub handle : ℕ
  pub schema_version : Option Bytes
  pub indexed_at : Option Bytes
  pub symbols : Option ℕ
  pub targets : Option ℕ
  pub source_files : Option ℕ

-- the disk: `store.DiagnosePath` finds nothing wrong, and `store.OpenReadOnly`
pub record Disk : Type 0 where
  pub diagnose_path : Bytes → Bool
  pub open_read_only : Bytes → Option Index

-- `Server`, by the fields that `Reload` uses; `closed` lists the handles that are closed
pub record Server : Type 0 where
  pub index_path : Bytes
  pub db : Index
  pub closed : List ℕ

pub record ReloadResponse : Type 0 where
  pub path : Bytes
  pub schema_version : Bytes
  pub indexed_at : Bytes
  pub previous_indexed_at : Bytes
  pub changed : Bool
  pub symbols : ℕ
  pub targets : ℕ
  pub source_files : ℕ

pub data Reply : Type 0 where
  no_index_path bad_path not_opened not_an_index no_indexed_at no_count : Reply
  wrong_schema : Bytes → Reply
  reloaded : ReloadResponse → Reply

-- `store.SchemaVersion`
abbrev pub stored_version : Bytes
stored_version = codes "10"

-- the fields that `Reload` fills in itself are left at their zero values
abbrev pub response_of : Bytes → Bytes → Bytes → ℕ → ℕ → ℕ → ReloadResponse
response_of path version at n m k = record {
  path = path;
  schema_version = version;
  indexed_at = at;
  previous_indexed_at = codes "";
  changed = false;
  symbols = n;
  targets = m;
  source_files = k;
}

-- the three counts, in their order
pub counted : Bytes → Bytes → Bytes → Index → Reply
counted path version at next = elim next.symbols [
  | none ↦ no_count
  | some n ↦ elim next.targets [
    | none ↦ no_count
    | some m ↦ elim next.source_files [
      | none ↦ no_count
      | some k ↦ reloaded (response_of path version at n m k)
    ]
  ]
]

pub describe_index : Index → Bytes → Reply
describe_index next path = elim next.schema_version [
  | none ↦ not_an_index
  | some version ↦
      if not (list_beq version stored_version)
      then wrong_schema version
      else elim next.indexed_at [ none ↦ no_indexed_at | some at ↦ counted path version at next ]
]

pub indexed_at : Server → Bytes
indexed_at s = elim s.db.indexed_at [ none ↦ codes "" | some v ↦ v ]

-- after `describeIndex`: the new handle is closed, or swapped in
pub swap : Server → Index → Reply → Reply × Server
swap s next (reloaded resp) = (
  reloaded (record resp {
    previous_indexed_at = indexed_at s;
    changed = not (list_beq resp.indexed_at (indexed_at s));
  }),
  record s { db = next; closed = s.db.handle ∷ s.closed },
)
swap s next reply = (reply, record s { closed = next.handle ∷ s.closed })

pub reload : Disk → Server → Reply × Server
reload disk s =
    if is_empty s.index_path
    then (no_index_path, s)
    else if not (disk.diagnose_path s.index_path)
    then (bad_path, s)
    else elim (disk.open_read_only s.index_path) [
      | none ↦ (not_opened, s)
      | some next ↦ swap s next (describe_index next s.index_path)
    ]
