-- ===== src/Usr/Clones.antt =====
-- What `Clone` and `NormalizeProjectPath` give back.
use herbarium.Base.{
  ℕ, ◌≡◌, ◌≢◌, ◌≤◌, refl, ap, true, false, [], ◌∷◌, ◌++◌, some, arith, Bytes, ◌==◌, All, length,
  Bool-cases, inl, inr, subst, Option-cases,
}
use herbarium.Usr.{is_clone_suffix, split_clone, clone}

-- `base` and `suffix` are a split of `name`, and no shorter base leaves a suffix.
pub record IsFirstSplit (name base suffix : Bytes) : Type 0 where
  splits : name ≡ base ++ suffix
  is_suffix : is_clone_suffix suffix ≡ true
  first : (b t : Bytes) → name ≡ b ++ t → is_clone_suffix t ≡ true → length base ≤ length b

IsFirstSplit-here : (s : Bytes) → is_clone_suffix s ≡ true → IsFirstSplit s [] s
IsFirstSplit-here s h = record { splits = refl; is_suffix = h; first = λ b t e k. omega arith }

IsFirstSplit-cons :
    (c : ℕ) {s base suffix : Bytes}
    → is_clone_suffix (c ∷ s) ≡ false
    → IsFirstSplit s base suffix
    → IsFirstSplit (c ∷ s) (c ∷ base) suffix
IsFirstSplit-cons c {s} {base} {suffix} later f = record {
  splits = ap (◌∷◌ c) f.splits;
  is_suffix = f.is_suffix;
  first = shorter;
}
  where
    shorter :
        (b t : Bytes) → c ∷ s ≡ b ++ t → is_clone_suffix t ≡ true → length (c ∷ base) ≤ length b
    shorter [] t e k = absurd (cc)
    shorter (d ∷ b) t e k = omega (arith, f.first b t (cc) k)

split_clone_sound :
    (name : Bytes) (r : Bytes × Bytes) → split_clone name ≡ some r → IsFirstSplit name r.0 r.1
unfolding split_clone
split_clone_sound [] r e = absurd (ground arith)
split_clone_sound (c ∷ s) r e = elim (Bool-cases (is_clone_suffix (c ∷ s))) [
  | inl here ↦
      let same : ([], c ∷ s) ≡ r = ground arith in
      subst (λ q. IsFirstSplit (c ∷ s) q.0 q.1) same (IsFirstSplit-here (c ∷ s) here)
  | inr later ↦ elim (Option-cases (split_clone s)) [
    | inl no_split ↦ absurd (ground arith)
    | inr (q, found) ↦
        let same : (c ∷ q.0, q.1) ≡ r = ground arith in
        subst (λ x. IsFirstSplit (c ∷ s) x.0 x.1) same
          (IsFirstSplit-cons c later (split_clone_sound s q found))
  ]
]

-- `.` matches no newline
abbrev pub IsOneLine : Bytes → Type 0
IsOneLine = All (λ c. c ≢ b'\n')

nil_no_suffix : is_clone_suffix [] ≢ true
unfolding is_clone_suffix
nil_no_suffix e = cc

split_clone_complete :
    (b t : Bytes)
    → IsOneLine b
    → is_clone_suffix t ≡ true
    → (r : Bytes × Bytes) × (split_clone (b ++ t) ≡ some r)
unfolding split_clone
split_clone_complete [] [] h k = absurd (nil_no_suffix k)
split_clone_complete [] (c ∷ t) h k = (([], c ∷ t), rw (k, split_clone))
split_clone_complete (c ∷ b) t (h, hs) k = elim (Bool-cases (is_clone_suffix (c ∷ (b ++ t)))) [
  | inl here ↦ (([], c ∷ (b ++ t)), rw (here, split_clone))
  | inr later ↦
      let (r, e) = split_clone_complete b t hs k in
      let other : (c == b'\n') ≡ false = ground arith in ((c ∷ r.0, r.1), ground arith)
]

-- Where `Clone` reports a clone, it cuts the name at the first place that leaves a clone suffix.
-- It reports one for every name of one line that has such a place, and where it reports none it
-- gives the name back.
pub clone_lem :
    (name : Bytes)
    → ((clone name).2 ≡ true → IsFirstSplit name (clone name).0 (clone name).1)
      × ((b t : Bytes)
          → name ≡ b ++ t
          → IsOneLine b
          → is_clone_suffix t ≡ true
          → (clone name).2 ≡ true)
      × ((clone name).2 ≡ false → (clone name).0 ≡ name)
unfolding clone
clone_lem name = elim (Option-cases (split_clone name)) [
  | inl no_split ↦ (
    λ e. absurd (ground arith),
    λ b t e h k. let (r, found) = split_clone_complete b t h k in absurd (cc),
    λ e. ground arith,
  )
  | inr (r, found) ↦ (
    λ e. rw (found, clone) (split_clone_sound name r found),
    λ b t e h k. rw (found, clone),
    λ e. ground arith,
  )
]
