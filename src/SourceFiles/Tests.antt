-- ===== src/SourceFiles/Tests.antt =====
-- list_source_files at three files and two targets.
use herbarium.Base.{◌≡◌, refl, true, false, [], ◌∷◌, none, some, codes}
use herbarium.SourceSearch.{matches_kind, is_csource_ext, is_header_ext}
use herbarium.SourceFiles.{
  IndexedFile, Indexed, ListRequest, source_loop, unlisted_loop, list_response, file_of,
  list_source_files,
}
use herbarium.SourceFiles.Membership.{listing, list_source_files_lem}

abbrev main_file : IndexedFile
main_file = record {
  path = codes "src/a.c";
  blob_hash = codes "h1";
  size = 3;
  is_generated = false;
}

abbrev header_file : IndexedFile
header_file = record {
  path = codes "src/b.h";
  blob_hash = codes "h2";
  size = 4;
  is_generated = false;
}

abbrev config_file : IndexedFile
config_file = record {
  path = codes "config.h";
  blob_hash = codes "h3";
  size = 5;
  is_generated = true;
}

abbrev system_file : IndexedFile
system_file = record {
  path = codes "/usr/include/c.h";
  blob_hash = codes "h4";
  size = 6;
  is_generated = false;
}

abbrev indexed : Indexed
indexed = record {
  sources = main_file ∷ header_file ∷ [];
  generated = config_file ∷ [];
  external = system_file ∷ [];
  members = (codes "src/a.c", codes "app") ∷ (codes "src/a.c", codes "lib") ∷ [];
}

abbrev of_lib : ListRequest
of_lib = record {
  target = codes "lib";
  prefix = codes "src/";
  kind = codes "Source";
  include_external = false;
}

lib_files :
    list_source_files of_lib indexed
    ≡ some (list_response (file_of (codes "app" ∷ codes "lib" ∷ []) main_file ∷ []))
unfolding list_source_files source_loop matches_kind is_csource_ext
lib_files = refl

unknown_target : list_source_files (record of_lib { target = codes "none" }) indexed ≡ none
unfolding list_source_files
unknown_target = refl

all_headers :
    list_source_files (record of_lib { target = []; prefix = []; kind = codes "header" }) indexed
    ≡ some (list_response (file_of [] header_file ∷ file_of [] config_file ∷ []))
unfolding list_source_files source_loop unlisted_loop matches_kind is_header_ext is_csource_ext
all_headers = refl

abbrev every_header : ListRequest
every_header = record { target = []; prefix = []; kind = codes "header"; include_external = true }

with_external :
    list_source_files every_header indexed
    ≡ some (
        list_response
          (file_of [] header_file ∷ file_of [] config_file ∷ file_of [] system_file ∷ []))
unfolding list_source_files source_loop unlisted_loop matches_kind is_header_ext is_csource_ext
with_external = refl

list_source_files_lem_example :
    list_source_files every_header indexed ≡ listing every_header indexed
list_source_files_lem_example = list_source_files_lem every_header indexed
