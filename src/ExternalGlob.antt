-- ===== src/ExternalGlob.antt =====
-- internal/ingest/externalglob.go: the patterns of --include-external.
pub mod Recursive
mod Tests
use herbarium.Base.{
  Bool, true, false, not, ◌||◌, ◌++◌, List, [], ◌∷◌, Option, none, some, Bytes, codes,
  if◌then◌else◌, has_prefix, list_beq, nat_eq,
}
use herbarium.GccDump.{is_empty}

-- `strings.TrimSpace`, `filepath.IsAbs`, and `filepath.Match` of a pattern and a name, an error as false
pub record Matching : Type 0 where
  pub trim_space : Bytes → Bytes
  pub is_abs : Bytes → Bool
  pub match_name : Bytes → Bytes → Bool

pub record ExternalGlob : Type 0 where
  pub raw : Bytes
  pub prefix : Bytes

pub data Parsed : Type 0 where
  empty_pattern not_absolute inner_stars : Parsed
  glob : ExternalGlob → Parsed

-- `strings.CutSuffix(s, "/**")`
pub cut_stars : Bytes → Option Bytes
cut_stars [] = none
cut_stars (c ∷ s) = elim (cut_stars s) [
  | some p ↦ some (c ∷ p)
  | none ↦ if list_beq (c ∷ s) (codes "/**") then some [] else none
]

-- `strings.Contains(s, "**")`
pub contains_stars : Bytes → Bool
contains_stars [] = false
contains_stars (c ∷ s) = has_prefix (c ∷ s) (codes "**") || contains_stars s

module _ (lib : Matching) where
  pub new_external_glob : Bytes → Parsed
  new_external_glob raw =
      let trimmed = lib.trim_space raw in
      if is_empty trimmed
      then empty_pattern
      else if not (lib.is_abs trimmed)
      then not_absolute
      else elim (cut_stars trimmed) [
        | some prefix ↦ glob (record { raw = raw; prefix = prefix })
        | none ↦
            if contains_stars trimmed then inner_stars else glob (record { raw = raw; prefix = [] })
      ]

  unfoldable pub match_glob : ExternalGlob → Bytes → Bool
  match_glob g abs_path =
      if not (is_empty g.prefix)
      then (if list_beq abs_path g.prefix
          then true
          else has_prefix abs_path (g.prefix ++ codes "/"))
      else lib.match_name g.raw abs_path

  unfoldable pub matches_any_external_glob : Bytes → List ExternalGlob → Bool
  matches_any_external_glob abs_path [] = false
  matches_any_external_glob abs_path (g ∷ gs) =
      if match_glob g abs_path then true else matches_any_external_glob abs_path gs
