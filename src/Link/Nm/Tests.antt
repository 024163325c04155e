-- ===== src/Link/Nm/Tests.antt =====
-- The output of nm, as in the comments of the source, and a scan of two objects.
use herbarium.Base.{
  ◌≡◌, refl, List, [], ◌∷◌, Option, none, some, Bytes, codes, list_beq, list_eq, nat_eq,
  if◌then◌else◌,
}
use herbarium.Link.{NmSymbol}
use herbarium.Link.Nm.{
  Defs, defs_at, parse_nm_posix, symbol_of, scan_object_defs, object_loop, symbol_loop,
}
use herbarium.Link.Nm.Observed.{defs_in_all, scan_object_defs_lem}

abbrev run_nm : Bytes → Option (List NmSymbol)
run_nm obj =
    if list_beq obj (codes "c.o")
    then none
    else some (
        record { name = codes "f"; kind = codes "T"; address = codes "10"; size = 4 }
        ∷ record { name = codes "g"; kind = []; address = []; size = 0 }
        ∷ [])

one_line :
    parse_nm_posix
      (λ s. some 41)
      (codes "compute T 11d0 29" ∷ [] ∷ codes " printf@GLIBC_2.2.5 U" ∷ [])
    ≡ record { name = codes "compute"; kind = codes "T"; address = codes "11d0"; size = 41 }
      ∷ record { name = codes "printf@GLIBC_2.2.5"; kind = codes "U"; address = []; size = 0 }
      ∷ []
unfolding parse_nm_posix symbol_of
one_line = refl

abbrev two_defs : Defs
two_defs =
    (
      codes "f",
      record { object = codes "a.o"; kind = codes "T" }
          ∷ record { object = codes "b.o"; kind = codes "T" }
          ∷ [],
    )
    ∷ []

scanned : scan_object_defs run_nm (codes "a.o" ∷ codes "b.o" ∷ []) ≡ some two_defs
unfolding scan_object_defs object_loop symbol_loop
scanned = refl

scan_object_defs_lem_example :
    defs_at (codes "f") two_defs ≡ defs_in_all run_nm (codes "f") (codes "a.o" ∷ codes "b.o" ∷ [])
scan_object_defs_lem_example =
    scan_object_defs_lem run_nm (codes "a.o" ∷ codes "b.o" ∷ []) two_defs (codes "f") scanned refl
