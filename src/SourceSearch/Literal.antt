-- ===== src/SourceSearch/Literal.antt =====
-- The places of a pattern in a line: what the loop of `searchInBlob` reports of them.
use herbarium.Base.{
  index, ℕ, zero, suc, ◌+◌, ◌-◌, ◌≤◌, ◌<◌, ◌≡◌, refl, sym, ap, subst, ◌∙◌, ◌⊎◌, inl, inr, arith,
  true, false, List, [], ◌∷◌, none, some, Bytes, has_prefix, if◌then◌else◌, leb, ltb, Bool-cases,
  Option-cases, drop, length, All,
}
use herbarium.SourceSearch.{Hit, Search, Scan, record_hit, literal_loop, search_source_scan_limit}
use herbarium.Base.{occurs_at, index-none, index-some}

-- the matches that the loop goes through, if nothing stops it
unfoldable pub literal_hits : Bytes → ℕ → ℕ → Bytes → ℕ → List Hit
literal_hits pattern zero line_num line start = []
literal_hits pattern (suc fuel) line_num line start = elim (index (drop start line) pattern) [
  | none ↦ []
  | some idx ↦
      record { line = line_num; column = start + idx + 1; text = pattern }
      ∷ literal_hits pattern fuel line_num line (start + idx + length pattern)
]

-- the closure `record`, called for one match after the other, until the scan is full
unfoldable pub recorded : Search → Scan → List Hit → Scan
recorded q s [] = s
recorded q s (h ∷ hs) =
    let t : Scan = record_hit q s h in let rest = recorded q t hs in if t.full then t else rest

pub literal_loop-recorded :
    (q : Search) (fuel line_num : ℕ) (line : Bytes) (start : ℕ) (s : Scan)
    → literal_loop q fuel line_num line start s
      ≡ recorded q s (literal_hits q.pattern fuel line_num line start)
unfolding literal_loop literal_hits recorded
literal_loop-recorded q zero line_num line start s = refl
literal_loop-recorded q (suc fuel) line_num line start s =
    elim (Option-cases (index (drop start line) q.pattern)) [
      | inl e ↦ rw (e, literal_loop, literal_hits) refl
      | inr (idx, e) ↦
          let h : Hit = record { line = line_num; column = start + idx + 1; text = q.pattern } in
          let t : Scan = record_hit q s h in
          rw (e, literal_loop, literal_hits)
            (ap (λ r. if t.full then t else r)
              (literal_loop-recorded q fuel line_num line (start + idx + length q.pattern) t))
    ]

drop_nil {ℓ} : {A : Type ℓ} (j : ℕ) → drop {A = A} j [] ≡ []
drop_nil zero = refl
drop_nil (suc j) = refl

drop-drop {ℓ} : {A : Type ℓ} (n i : ℕ) (xs : List A) → drop i (drop n xs) ≡ drop (n + i) xs
drop-drop zero i xs = let e : 0 + i ≡ i = omega arith in rw e refl
drop-drop (suc n) i (x ∷ xs) =
    let e : suc n + i ≡ suc (n + i) = omega arith in rw e (drop-drop n i xs)
drop-drop (suc n) i [] = let e : suc n + i ≡ suc (n + i) = omega arith in rw e (drop_nil i)

drop_past {ℓ} : {A : Type ℓ} (i : ℕ) (xs : List A) → length xs ≤ i → drop i xs ≡ []
drop_past zero [] h = refl
drop_past zero (x ∷ xs) h = absurd (ground arith)
drop_past (suc i) [] h = refl
drop_past (suc i) (x ∷ xs) h = drop_past i xs (omega arith)

-- matches in their order, each behind the end of the one before
abbrev pub Apart : ℕ → List Hit → Type 0
Apart size [] = Unit
Apart size (h ∷ hs) = All (λ g. h.column + size ≤ g.column) hs × Apart size hs

-- place `i` is in the text of one of the matches
abbrev pub Covered : ℕ → ℕ → List Hit → Type 0
Covered size i [] = ⊥
Covered size i (h ∷ hs) = ((h.column ≤ suc i) × (suc i < h.column + size)) ⊎ Covered size i hs

nil_occurs : (p : Bytes) → 1 ≤ length p → has_prefix [] p ≡ false
nil_occurs [] h = absurd (ground arith)
nil_occurs (c ∷ p) h = refl

false_ne : false ≡ true → ⊥
false_ne e = cc

-- a pattern that is not empty stands before the end
occurs_before :
    (line p : Bytes) (i : ℕ) → 1 ≤ length p → occurs_at line p i ≡ true → i < length line
occurs_before line p i h at = elim (Bool-cases (leb (length line) i)) [
  | inl past ↦
      let e : drop i line ≡ [] = drop_past i line (ground arith) in
      absurd (false_ne (sym (nil_occurs p h) ∙ (rw e at at)))
  | inr before ↦ ground arith
]

-- the place of a match, counted from the start of the line
occurs_from :
    (line p : Bytes) (start i : ℕ) → occurs_at (drop start line) p i ≡ occurs_at line p (start + i)
occurs_from line p start i = ap (λ x. has_prefix x p) (drop-drop start i line)

abbrev pub IsMatch : Bytes → Bytes → ℕ → ℕ → Hit → Type 0
IsMatch line p line_num start h =
    (h.line ≡ line_num) × (start < h.column) × (occurs_at line p (h.column - 1) ≡ true)

All-later :
    (line p : Bytes) (line_num start later : ℕ) (hs : List Hit)
    → start ≤ later
    → All (IsMatch line p line_num later) hs
    → All (IsMatch line p line_num start) hs
All-later line p line_num start later [] h _ = tt
All-later line p line_num start later (g ∷ hs) h ((a, b, c), rest) =
    ((a, omega (arith, h, b), c), All-later line p line_num start later hs h rest)

All-behind :
    (line p : Bytes) (line_num start column : ℕ) (hs : List Hit)
    → column ≤ suc start
    → All (IsMatch line p line_num start) hs
    → All (λ g. column ≤ g.column) hs
All-behind line p line_num start column [] h _ = tt
All-behind line p line_num start column (g ∷ hs) h ((a, b, c), rest) =
    (omega (arith, h, b), All-behind line p line_num start column hs h rest)

hits_are_matches :
    (p : Bytes) (fuel line_num : ℕ) (line : Bytes) (start : ℕ)
    → 1 ≤ length p
    → All (IsMatch line p line_num start) (literal_hits p fuel line_num line start)
      × Apart (length p) (literal_hits p fuel line_num line start)
unfolding literal_hits
hits_are_matches p zero line_num line start h = (tt, tt)
hits_are_matches p (suc fuel) line_num line start h =
    elim (Option-cases (index (drop start line) p)) [
      | inl e ↦ rw (e, literal_hits) (tt, tt)
      | inr (idx, e) ↦
          let next : ℕ = start + idx + length p in
          let (matches, apart) = hits_are_matches p fuel line_num line next h in
          let (there, _) = index-some (drop start line) p idx e in
          let place : start + idx ≡ (start + idx + 1) - 1 = omega arith in
          let at : occurs_at line p ((start + idx + 1) - 1) ≡ true =
            subst (λ x. occurs_at line p x ≡ true) place
              (sym (occurs_from line p start idx) ∙ there) in
          rw (e, literal_hits)
            (
              (
                (refl, omega arith, at),
                All-later line p line_num start next _ (omega arith) matches,
              ),
              (
                All-behind line p line_num next (start + idx + 1 + length p) _ (omega arith)
                    matches,
                apart,
              ),
            )
    ]

places-Covered :
    (p : Bytes) (fuel line_num : ℕ) (line : Bytes) (start i : ℕ)
    → 1 ≤ length p
    → length line < start + fuel
    → start ≤ i
    → occurs_at line p i ≡ true
    → Covered (length p) i (literal_hits p fuel line_num line start)
unfolding literal_hits
places-Covered p zero line_num line start i h room from at =
    absurd (ground (arith, occurs_before line p i h at))
places-Covered p (suc fuel) line_num line start i h room from at =
    let place : start + (i - start) ≡ i = omega arith in
    let at' : occurs_at (drop start line) p (i - start) ≡ true =
      occurs_from line p start (i - start) ∙ rw place at in
    elim (Option-cases (index (drop start line) p)) [
      | inl e ↦ absurd (false_ne (sym (index-none (drop start line) p e (i - start)) ∙ at'))
      | inr (idx, e) ↦
          let (there, before) = index-some (drop start line) p idx e in
          let next : ℕ = start + idx + length p in
          let not_before : start + idx ≤ i = elim (Bool-cases (ltb (i - start) idx)) [
            | inl early ↦ absurd (false_ne (sym (before (i - start) (ground arith)) ∙ at'))
            | inr late ↦ ground arith
          ] in
          rw (e, literal_hits)
            (elim (Bool-cases (ltb i next)) [
              | inl inside ↦ inl (ground arith, ground arith)
              | inr behind ↦
                  inr
                    (places-Covered p fuel line_num line next i h (ground arith) (ground arith) at)
            ])
    ]

-- In a line, for a pattern that is not empty, each match that the loop goes through is a place of
-- the pattern, and they do not overlap.
pub literal_hits_lem :
    (p : Bytes) (line_num : ℕ) (line : Bytes)
    → 1 ≤ length p
    → All
        (λ h. (h.line ≡ line_num) × (0 < h.column) × (occurs_at line p (h.column - 1) ≡ true))
        (literal_hits p (suc (length line + search_source_scan_limit)) line_num line 0)
      × Apart
          (length p)
          (literal_hits p (suc (length line + search_source_scan_limit)) line_num line 0)
literal_hits_lem p line_num line h =
    hits_are_matches p (suc (length line + search_source_scan_limit)) line_num line 0 h

-- The fuel is enough: every place of a pattern that is not empty overlaps one of the matches.
pub literal_hits-Covered :
    (p : Bytes) (line_num : ℕ) (line : Bytes) (i : ℕ)
    → 1 ≤ length p
    → occurs_at line p i ≡ true
    → Covered
        (length p)
        i
        (literal_hits p (suc (length line + search_source_scan_limit)) line_num line 0)
literal_hits-Covered p line_num line i h at =
    places-Covered p (suc (length line + search_source_scan_limit)) line_num line 0 i h
      (omega arith) (omega arith) at
