-- ===== src/ExternalGlob/Tests.antt =====
-- Globs for a directory and for the root.
use herbarium.Base.{◌≡◌, refl, ◌||◌, [], codes, has_prefix, list_beq, nat_eq}
use herbarium.ExternalGlob.{
  Matching, ExternalGlob, glob, cut_stars, contains_stars, new_external_glob, match_glob,
}
use herbarium.ExternalGlob.Recursive.{new_external_glob-match_glob}

-- a matcher that takes a pattern as it stands
abbrev plain : Matching
plain = record {
  trim_space = λ s. s;
  is_abs = λ s. has_prefix s (codes "/");
  match_name = λ p s. list_beq p s;
}

-- the prefix of the root's pattern is empty, which also marks the patterns without one
root_is_no_prefix :
    new_external_glob plain (codes "/**") ≡ glob (record { raw = codes "/**"; prefix = [] })
unfolding new_external_glob cut_stars
root_is_no_prefix = refl

-- two stars before the last ones are taken as they stand, although the comment excludes them
stars_inside :
    new_external_glob plain (codes "/usr/**/x/**")
    ≡ glob (record { raw = codes "/usr/**/x/**"; prefix = codes "/usr/**/x" })
unfolding new_external_glob cut_stars
stars_inside = refl

new_external_glob-match_glob_example :
    (g : ExternalGlob) × (new_external_glob plain (codes "/usr/**") ≡ glob g)
    × (match_glob plain g (codes "/usr/x.h") ≡ (
        list_beq (codes "/usr/x.h") (codes "/usr")
        || has_prefix (codes "/usr/x.h") (codes "/usr/")))
unfolding contains_stars
new_external_glob-match_glob_example =
    new_external_glob-match_glob plain b'/' (codes "usr") (codes "/usr/x.h") refl refl refl
