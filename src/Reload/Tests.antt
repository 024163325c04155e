-- ===== src/Reload/Tests.antt =====
-- A reload that succeeds, and one that is refused for its schema version.
use herbarium.Base.{◌≡◌, refl, true, [], ◌∷◌, some, Bytes, codes, ℕ}
use herbarium.Reload.{Index, Disk, Server, reload, swap, describe_index, counted, wrong_schema}
use herbarium.Reload.Safe.{IsReload, reload_lem}

abbrev served_index : ℕ → Bytes → Bytes → Index
served_index handle version at = record {
  handle = handle;
  schema_version = some version;
  indexed_at = some at;
  symbols = some 7;
  targets = some 1;
  source_files = some 3;
}

abbrev disk_of : Bytes → Disk
disk_of version = record {
  diagnose_path = λ p. true;
  open_read_only = λ p. some (served_index 2 version (codes "new"));
}

abbrev server : Server
server = record {
  index_path = codes "/x.hbr";
  db = served_index 1 (codes "10") (codes "old");
  closed = [];
}

refused :
    reload (disk_of (codes "9")) server
    ≡ (wrong_schema (codes "9"), record server { closed = 2 ∷ [] })
unfolding reload swap describe_index
refused = refl

swapped :
    (reload (disk_of (codes "10")) server).1
    ≡ record server { db = served_index 2 (codes "10") (codes "new"); closed = 1 ∷ [] }
unfolding reload swap describe_index counted
swapped = refl

reload_lem_example : IsReload (disk_of (codes "10")) server (reload (disk_of (codes "10")) server)
reload_lem_example = reload_lem (disk_of (codes "10")) server
