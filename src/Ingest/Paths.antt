-- ===== src/Ingest/Paths.antt =====
-- internal/ingest/paths.go: paths of the dumps, made relative to the project's root.
use herbarium.Base.{
  [], Bool, true, false, Option, none, some, Bytes, codes, if◌then◌else◌, has_prefix,
}
use herbarium.GccDump.{is_empty}

-- the functions of Go's path/filepath that the code calls
pub record FilePath : Type 0 where
  pub is_abs : Bytes → Bool
  pub join : Bytes → Bytes → Bytes
  pub clean : Bytes → Bytes
  pub rel : Bytes → Bytes → Option Bytes
  pub to_slash : Bytes → Bytes

pub record PathResolver : Type 0 where
  pub file_path : FilePath
  pub build_dir : Bytes
  pub project_root : Bytes

pub record ResolvedPath : Type 0 where
  pub rel : Bytes
  pub in_project : Bool

abbrev pub absolute : PathResolver → Bytes → Bytes
absolute pr p =
    let fp = pr.file_path in fp.clean (if fp.is_abs p then p else fp.join pr.build_dir p)

unfoldable pub to_project_relative : PathResolver → Bytes → ResolvedPath
to_project_relative pr p =
    let fp = pr.file_path in
    let abs = absolute pr p in
    if is_empty p
    then record { rel = []; in_project = false }
    else elim (fp.rel pr.project_root abs) [
      | none ↦ record { rel = p; in_project = false }
      | some rel ↦
          if has_prefix rel (codes "..")
          then record { rel = fp.to_slash abs; in_project = false }
          else record { rel = fp.to_slash rel; in_project = true }
    ]
