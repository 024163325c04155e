-- ===== src/Blobstore/Tests.antt =====
-- A writer that is finalized.
use herbarium.Base.{◌≡◌, refl, true, [], none}
use herbarium.Blobstore.{Tables, commit}

abbrev no_rows : Tables
no_rows = record { blobs = []; sources = []; external_sources = []; generated_sources = [] }

committed_twice : (commit (record { committed = no_rows; tx = none })).1 ≡ true
unfolding commit
committed_twice = refl
