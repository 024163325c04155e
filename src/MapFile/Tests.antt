-- ===== src/MapFile/Tests.antt =====
-- A map file in small, as in the comments of the source.
use herbarium.Base.{
  ◌≡◌, refl, List, [], ◌∷◌, ◌++◌, Bytes, codes, is_space, if◌then◌else◌, list_eq, nat_eq,
}
use herbarium.Base.{index}
use herbarium.MapFile.{
  archive_for, read_map, line_loop, contrib, contrib_tail, contrib_head, symbol_line, load_ref,
  is_object,
}
use herbarium.MapFile.Stable.{Stays, read_map-Stays}

abbrev trim_left : Bytes → Bytes
trim_left [] = []
trim_left (c ∷ s) = let rest = trim_left s in if is_space c then rest else c ∷ s

abbrev load_lines : List Bytes
load_lines =
    codes "Archive member included to satisfy reference by file (symbol)"
    ∷ []
    ∷ codes "lib/libs.a.p/weak.c.o"
    ∷ codes "              app/main.c.o (hook)"
    ∷ codes "Memory Configuration"
    ∷ []

abbrev section_lines : List Bytes
section_lines =
    codes " .text          0x11a0        0x6 app/strong.c.o"
    ∷ codes "                0x11a0                hook"
    ∷ codes " .text.add_ints"
    ∷ codes "                0x11c0        0x4 lib/libs.a.p/weak.c.o"
    ∷ codes "                0x11c0                hook"
    ∷ codes "                0x11c0                add_ints"
    ∷ []

small_map : read_map trim_left (load_lines ++ section_lines) ≡ record {
  symbol_origin =
      (codes "hook", codes "app/strong.c.o")
      ∷ (codes "add_ints", codes "lib/libs.a.p/weak.c.o")
      ∷ [];
  archive_pulls =
      record {
        object = codes "lib/libs.a.p/weak.c.o";
        referrer = codes "app/main.c.o";
        symbol = codes "hook";
      }
      ∷ [];
}
unfolding read_map line_loop contrib contrib_tail contrib_head symbol_line load_ref is_object
small_map = refl

archive : archive_for (codes "lib/libs.a.p/weak.c.o") ≡ codes "lib/libs.a"
unfolding archive_for index
archive = refl

no_archive : archive_for (codes "app.p/y.c.o") ≡ []
unfolding archive_for index
no_archive = refl

read_map-Stays_example :
    Stays (read_map trim_left load_lines) (read_map trim_left (load_lines ++ section_lines))
read_map-Stays_example = read_map-Stays trim_left load_lines section_lines
