-- ===== src/Usr/Tests.antt =====
-- Evaluations of the functions of `usr`, and the theorems at concrete names.
use herbarium.Base.{◌≡◌, ◌≢◌, refl, true, false, [], ◌++◌, none, some, arith, Bytes, codes}
use herbarium.Usr.{
  pos, negsuc, function, variable, itoa, write_digits, sign, digits_of, struct, resolve_tag_name,
  clone, split_clone, is_clone_suffix, normalize_project_path,
}
use herbarium.Usr.Identity.{usr_identity}
use herbarium.Usr.Itoa.{Fits, IsTooLong, ReadsAs, itoa_lem}
use herbarium.Usr.Clones.{IsFirstSplit, IsOneLine, clone_lem}

anonymous : struct (codes "a.h") [] (pos 12) (pos 3) ≡ some (codes "c:a.h@S@__anon_12_3")
unfolding struct resolve_tag_name itoa digits_of write_digits
anonymous = refl

negative : itoa (negsuc 41) ≡ some (codes "-42")
unfolding itoa sign write_digits
negative = refl

twice_cloned : clone (codes "f.isra.0.constprop.1") ≡ (codes "f.isra.0", codes ".constprop.1", true)
unfolding clone split_clone is_clone_suffix
twice_cloned = refl

no_clone : clone (codes "f.constprop.x") ≡ (codes "f.constprop.x", [], false)
unfolding clone split_clone is_clone_suffix
no_clone = refl

-- one leading "./" and one trailing slash are taken off, and no more
normalized_once : normalize_project_path (codes "././a//") ≡ codes "./a/"
unfolding normalize_project_path
normalized_once = refl

usr_identity_example :
    (function [] (codes "f") ≡ function (codes "a.c") (codes "f")
      → ([] ≡ codes "a.c") × (codes "f" ≡ codes "f"))
    × (variable [] (codes "f") ≡ variable (codes "a.c") (codes "f")
        → ([] ≡ codes "a.c") × (codes "f" ≡ codes "f"))
    × (function [] (codes "f") ≢ variable (codes "a.c") (codes "f"))
usr_identity_example = usr_identity [] (codes "a.c") (codes "f") (codes "f") tt (omega arith)

itoa_lem_example :
    (Fits (negsuc 41) → (s : Bytes) × (itoa (negsuc 41) ≡ some s) × ReadsAs s (negsuc 41))
    × (IsTooLong (negsuc 41) → itoa (negsuc 41) ≡ none)
itoa_lem_example = itoa_lem (negsuc 41)

clone_lem_example :
    ((clone (codes "f.cold")).2 ≡ true
      → IsFirstSplit (codes "f.cold") (clone (codes "f.cold")).0 (clone (codes "f.cold")).1)
    × ((b t : Bytes)
        → codes "f.cold" ≡ b ++ t
        → IsOneLine b
        → is_clone_suffix t ≡ true
        → (clone (codes "f.cold")).2 ≡ true)
    × ((clone (codes "f.cold")).2 ≡ false → (clone (codes "f.cold")).0 ≡ codes "f.cold")
clone_lem_example = clone_lem (codes "f.cold")
