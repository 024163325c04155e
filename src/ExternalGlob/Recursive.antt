-- ===== src/ExternalGlob/Recursive.antt =====
-- A pattern that ends in /** matches the directory and all below it.
use herbarium.Base.{
  ℕ, ◌≡◌, refl, arith, true, false, ◌||◌, ◌++◌, [], ◌∷◌, some, Bytes, codes, has_prefix, list_beq,
  nat_eq,
}
use herbarium.ExternalGlob.{
  Matching, ExternalGlob, glob, cut_stars, contains_stars, new_external_glob, match_glob,
}

cut_stars-append : (p : Bytes) → cut_stars (p ++ codes "/**") ≡ some p
unfolding cut_stars
cut_stars-append [] = refl
cut_stars-append (c ∷ p) = rw (cut_stars-append p) refl

-- For a directory that is not the root and has no two stars in its name, the pattern with /** behind
-- it is accepted if trimming leaves it and it is absolute, and the glob that comes of it matches a
-- path if that is the directory itself or begins with the directory and a slash.
pub new_external_glob-match_glob :
    (lib : Matching) (c : ℕ) (p path : Bytes)
    → contains_stars (c ∷ p) ≡ false
    → lib.trim_space ((c ∷ p) ++ codes "/**") ≡ (c ∷ p) ++ codes "/**"
    → lib.is_abs ((c ∷ p) ++ codes "/**") ≡ true
    → (g : ExternalGlob) × (new_external_glob lib ((c ∷ p) ++ codes "/**") ≡ glob g)
      × (match_glob lib g path ≡ (list_beq path (c ∷ p) || has_prefix path ((c ∷ p) ++ codes "/")))
unfolding new_external_glob match_glob
new_external_glob-match_glob lib c p path plain trimmed absolute = (
  record { raw = (c ∷ p) ++ codes "/**"; prefix = c ∷ p },
  rw (trimmed, absolute, cut_stars-append (c ∷ p), new_external_glob) refl,
  ground arith,
)
