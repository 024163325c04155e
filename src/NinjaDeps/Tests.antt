-- ===== src/NinjaDeps/Tests.antt =====
-- A small log read by evaluation, and the theorems at it.
use herbarium.Base.{◌++◌, ◌≡◌, ◌≢◌, refl, List, [], ◌∷◌, some, arith, codes, take, list_eq, nat_eq}
use herbarium.NinjaDeps.{
  Log, failed, broken, read, out_of_fuel, bad_magic, bad_checksum, magic, empty_log, strip_nuls,
  inputs, deps_record, path_record, record_at, round, records, read_version, read_log, deps_for,
}
use herbarium.NinjaDeps.Format.{Entry, path, deps, encode, replay, IsWritable, AllWritable}
use herbarium.NinjaDeps.RoundTrip.{file, read_log-file}
use herbarium.NinjaDeps.Total.{read_log_ends}
use herbarium.NinjaDeps.Words.{read_u32, u32_at, words, le32}

abbrev entries : List Entry
entries =
    path (codes "a.o")
    ∷ path (codes "a.c")
    ∷ deps 0 7 0 (1 ∷ 9 ∷ [])
    ∷ path (codes "b.h")
    ∷ deps 0 8 0 (1 ∷ 2 ∷ [])
    ∷ []

abbrev log : Log
log = record { version = 4; deps = (codes "a.o", codes "a.c" ∷ codes "b.h" ∷ []) ∷ [] }

read-entries : read_log (file entries) ≡ read log
unfolding read_log read_version records round record_at path_record deps_record strip_nuls inputs
    read_u32 u32_at words
read-entries = refl

deps_for-a : deps_for log (codes "a.o") ≡ some (codes "a.c" ∷ codes "b.h" ∷ [])
unfolding deps_for
deps_for-a = refl

wrong_magic : read_log (codes "# ninjadepz\n....") ≡ failed bad_magic
unfolding read_log
wrong_magic = refl

wrong_checksum :
    read_log (magic ++ le32 4 ++ le32 8 ++ codes "a.o" ++ 0 ∷ le32 5)
    ≡ broken empty_log (bad_checksum 0)
unfolding read_log read_version records round record_at path_record strip_nuls read_u32 u32_at
wrong_checksum = refl

entries-AllWritable : AllWritable 0 entries
unfolding strip_nuls
entries-AllWritable = (
  (refl, omega arith, omega arith),
  (
    (refl, omega arith, omega arith),
    (omega arith, ((refl, omega arith, omega arith), (omega arith, tt))),
  ),
)

last-IsWritable : IsWritable 3 (path (codes "c.h"))
unfolding strip_nuls
last-IsWritable = (refl, omega arith, omega arith)

read_log-file_example :
    read_log (file entries ++ take 9 (encode 3 (path (codes "c.h"))))
    ≡ read (replay empty_log [] entries)
read_log-file_example =
    read_log-file entries (path (codes "c.h")) 9 3 entries-AllWritable last-IsWritable (omega arith)

read_log_ends_example : read_log (codes "# ninjadeps\n\n") ≢ out_of_fuel
read_log_ends_example = read_log_ends (codes "# ninjadeps\n\n")
